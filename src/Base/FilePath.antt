-- ===== src/Base/FilePath.antt =====
-- `std::path::Path` on Unix, over UTF-8 text: as much of it as the runners use.
pub mod Join
use Prim.Native.Nat.{ℕ}
use Prim.Native.Char.{Char, code}
use Prim.Native.String as Text
use Prim.Native.String.{String}
use Prim.Native.String.append
use mathlib.Core.Path.{◌≡◌, refl, sym, ap, ◌∙◌}
use mathlib.Core.Bool.{Bool, true, false, ◌&&◌}
use mathlib.Core.List.{List, [], ◌∷◌, ◌++◌, append-nil}
use mathlib.Core.Option.{Option, none, some}
use mathlib.Core.Logic.{inl, inr}
use native.Mathlib.Omega.{arith}
use text.Mathlib.Text.{◌==◌ as str_eq}
use text.Mathlib.TextEquality.{eq_iff}
use siplane.Base.Tests.{◌==◌, if◌then◌else◌, Bool-cases}

abbrev slash : Char
slash = "/"

abbrev push : Char → List String → List String
push c [] = (Text.◌∷◌ c "") ∷ []
push c (w ∷ ws) = (Text.◌∷◌ c w) ∷ ws

-- the text between the slashes
pub segments : String → List String
segments Text.[] = "" ∷ []
segments (Text.◌∷◌ c s) = if code c == b'/' then "" ∷ segments s else push c (segments s)

-- `components`: repeated slashes and dots in the middle leave no trace, a parent directory does.
pub data Component : Type 0 where
  root_dir cur_dir parent_dir : Component
  normal : String → Component

abbrev component : String → Component
component w = if str_eq w ".." then parent_dir else normal w

abbrev is_noise : String → Bool
is_noise w = if str_eq w "" then true else str_eq w "."

pub body : List String → List Component
body [] = []
body (w ∷ ws) = if is_noise w then body ws else component w ∷ body ws

abbrev leading : List String → List Component
leading [] = []
leading (w ∷ ws) = if str_eq w "." then cur_dir ∷ body ws else body (w ∷ ws)

-- `has_root`, which is `is_absolute`
pub is_absolute : String → Bool
is_absolute Text.[] = false
is_absolute (Text.◌∷◌ c s) = code c == b'/'

pub components : String → List Component
unfolding is_absolute segments body
components p = if is_absolute p then root_dir ∷ body (segments p) else leading (segments p)

abbrev ends_with_slash : String → Bool
ends_with_slash Text.[] = false
ends_with_slash (Text.◌∷◌ c Text.[]) = code c == b'/'
ends_with_slash (Text.◌∷◌ c (Text.◌∷◌ d s)) = ends_with_slash (Text.◌∷◌ d s)

abbrev is_empty : String → Bool
is_empty Text.[] = true
is_empty (Text.◌∷◌ c s) = false

-- `join`
pub join : String → String → String
unfolding is_absolute
join p q =
    if is_absolute q
    then q
    else if is_empty p
    then q
    else if ends_with_slash p
    then Text.◌++◌ p q
    else Text.◌++◌ p (Text.◌++◌ "/" q)

-- `strip_prefix("/")`, without the `Result`: an absolute path loses its leading slashes, a
-- relative one has no such prefix.
pub trim : String → String
trim Text.[] = ""
trim (Text.◌∷◌ d t) = if code d == b'/' then trim t else Text.◌∷◌ d t

pub strip_root : String → Option String
unfolding trim
strip_root Text.[] = none
strip_root (Text.◌∷◌ c s) = if code c == b'/' then some (trim s) else none

-- `p.strip_prefix("/").unwrap_or(p)` is relative.
abbrev pub unrooted : String → String
unrooted p = elim (strip_root p) [ none ↦ p | some q ↦ q ]

pub component_eq : Component → Component → Bool
component_eq root_dir root_dir = true
component_eq cur_dir cur_dir = true
component_eq parent_dir parent_dir = true
component_eq (normal a) (normal b) = str_eq a b
component_eq _ _ = false

pub is_prefix : List Component → List Component → Bool
unfolding component_eq
is_prefix [] ys = true
is_prefix (x ∷ xs) [] = false
is_prefix (x ∷ xs) (y ∷ ys) = component_eq x y && is_prefix xs ys

-- `starts_with`
pub starts_with : String → String → Bool
unfolding components is_prefix
starts_with p q = is_prefix (components q) (components p)

-- `parent`: what is left without the last component, if there is one that can go. Only whether it
-- exists matters to the callers.
unfoldable pub has_parent : String → Bool
unfolding components
has_parent p = elim (components p) [ [] ↦ false | root_dir ∷ [] ↦ false | _ ↦ true ]
