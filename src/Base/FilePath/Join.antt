-- ===== src/Base/FilePath/Join.antt =====
-- Where a joined path leads.
use Prim.Native.Char.{Char, code}
use Prim.Native.String as Text
use Prim.Native.String.{String}
use Prim.Native.String.append
use mathlib.Core.Path.{◌≡◌, refl, ap, ◌∙◌}
use mathlib.Core.Bool.{Bool, true, false}
use mathlib.Core.List.{List, [], ◌∷◌, ◌++◌, append-nil}
use mathlib.Core.Logic.{inl, inr}
use native.Mathlib.Omega.{arith}
use text.Mathlib.Text.{◌==◌ as str_eq}
use text.Mathlib.TextEquality.{eq_iff}
use siplane.Base.Tests.{◌==◌, Bool-cases}
use siplane.Base.FilePath.{
  slash, push, segments, Component, root_dir, cur_dir, parent_dir, normal, body, leading,
  is_absolute, components, ends_with_slash, join, trim, strip_root, unrooted, is_prefix,
  starts_with,
}

slash-append : (q : String) → Text.◌++◌ "/" q ≡ Text.◌∷◌ (slash) q
slash-append q = append.cons slash "" q ∙ ap (Text.◌∷◌ slash) (append.nil q)

push-append :
    (c : Char) (w : String) (ws vs : List String) → push c ((w ∷ ws) ++ vs) ≡ push c (w ∷ ws) ++ vs
push-append c w ws vs = refl

-- There is at least one segment.
segments-cases : (p : String) → (w : String) × (ws : List String) × (segments p ≡ w ∷ ws)
unfolding segments
segments-cases Text.[] = ("", [], refl)
segments-cases (Text.◌∷◌ c s) =
    let (w, ws, e) = segments-cases s in
    elim (Bool-cases (code c == b'/')) [
      | inl h ↦ ("", segments s, rw h)
      | inr h ↦ (Text.◌∷◌ c w, ws, rw (h, e))
    ]

segments-slash :
    (p q : String) → segments (Text.◌++◌ p (Text.◌++◌ "/" q)) ≡ segments p ++ segments q
unfolding segments
segments-slash Text.[] q = rw (append.nil (Text.◌++◌ "/" q), slash-append q)
segments-slash (Text.◌∷◌ c s) q =
    let (w, ws, e) = segments-cases s in
    rw (append.cons c s (Text.◌++◌ "/" q)) (elim (Bool-cases (code c == b'/')) [
      | inl h ↦ rw (h, segments-slash s q)
      | inr h ↦ rw (h, segments-slash s q, e)
    ])

-- A text that ends with a slash: the last segment is empty, and what is appended replaces it.
ends_with_slash-segments :
    (p : String)
    → ends_with_slash p ≡ true
    → (w : String) × (ws : List String) × (segments p ≡ w ∷ (ws ++ "" ∷ []))
      × ((q : String) → segments (Text.◌++◌ p q) ≡ w ∷ (ws ++ segments q))
unfolding segments
ends_with_slash-segments Text.[] h = cc
ends_with_slash-segments (Text.◌∷◌ c Text.[]) h =
    ("", [], rw h, λ q. rw (append.cons c "" q, append.nil q) (rw h))
ends_with_slash-segments (Text.◌∷◌ c (Text.◌∷◌ d s)) h =
    let (w, ws, e, f) = ends_with_slash-segments (Text.◌∷◌ d s) h in
    elim (Bool-cases (code c == b'/')) [
      | inl y ↦ ("", w ∷ ws, rw (y, e), λ q. rw (append.cons c (Text.◌∷◌ d s) q) (rw (y, f q)))
      | inr n ↦
          (Text.◌∷◌ c w, ws, rw (n, e), λ q. rw (append.cons c (Text.◌∷◌ d s) q) (rw (n, f q)))
    ]

body-append : (xs ys : List String) → body (xs ++ ys) ≡ body xs ++ body ys
unfolding body
body-append [] ys = refl
body-append (x ∷ xs) ys = ground (arith, body-append xs ys)

str_eq_refl : (s : String) → str_eq s s ≡ true
str_eq_refl s = (eq_iff s s).1 refl

is_prefix-append : (xs ys : List Component) → is_prefix xs (xs ++ ys) ≡ true
unfolding is_prefix
is_prefix-append [] ys = refl
is_prefix-append (root_dir ∷ xs) ys = is_prefix-append xs ys
is_prefix-append (cur_dir ∷ xs) ys = is_prefix-append xs ys
is_prefix-append (parent_dir ∷ xs) ys = is_prefix-append xs ys
is_prefix-append (normal a ∷ xs) ys = rw (str_eq_refl a) (is_prefix-append xs ys)

leading-append :
    (w : String) (ws vs : List String) → leading (w ∷ (ws ++ vs)) ≡ leading (w ∷ ws) ++ body vs
unfolding body
leading-append w ws vs = ground (arith, body-append ws vs)

-- A longer list of segments gives the components of the shorter one, and more.
parts : Bool → List String → List Component
parts true ws = root_dir ∷ body ws
parts false ws = leading ws

components-parts : (p : String) → components p ≡ parts (is_absolute p) (segments p)
unfolding components parts
components-parts p = ground arith

parts-append :
    (b : Bool) (w : String) (ws vs : List String)
    → parts b (w ∷ (ws ++ vs)) ≡ parts b (w ∷ ws) ++ body vs
unfolding parts
parts-append true w ws vs = ap (◌∷◌ root_dir) (body-append (w ∷ ws) vs)
parts-append false w ws vs = leading-append w ws vs

body-end : body ("" ∷ []) ≡ []
unfolding body
body-end = refl

-- Where `p` is not empty, appending to it leaves it as absolute as it was.
is_absolute-append :
    (c : Char) (s q : String)
    → is_absolute (Text.◌++◌ (Text.◌∷◌ c s) q) ≡ is_absolute (Text.◌∷◌ c s)
unfolding is_absolute
is_absolute-append c s q = rw (append.cons c s q)

components-slash :
    (c : Char) (s q : String)
    → components (Text.◌++◌ (Text.◌∷◌ c s) (Text.◌++◌ "/" q))
      ≡ components (Text.◌∷◌ c s) ++ body (segments q)
components-slash c s q =
    let (w, ws, e) = segments-cases (Text.◌∷◌ c s) in
    rw (components-parts, components-parts)
      (rw (is_absolute-append c s (Text.◌++◌ "/" q), segments-slash (Text.◌∷◌ c s) q, e)
        (parts-append (is_absolute (Text.◌∷◌ c s)) w ws (segments q)))

components-after_slash :
    (c : Char) (s q : String)
    → ends_with_slash (Text.◌∷◌ c s) ≡ true
    → components (Text.◌++◌ (Text.◌∷◌ c s) q) ≡ components (Text.◌∷◌ c s) ++ body (segments q)
components-after_slash c s q h =
    let (w, ws, e, f) = ends_with_slash-segments (Text.◌∷◌ c s) h in
    let b = is_absolute (Text.◌∷◌ c s) in
    rw (components-parts, components-parts)
      (rw (is_absolute-append c s q, f q, e)
        (rw (
          parts-append b w ws (segments q),
          parts-append b w ws ("" ∷ []),
          body-end,
          append-nil (parts b (w ∷ ws)),
        )))

is_prefix_nil : (xs : List Component) → is_prefix [] xs ≡ true
unfolding is_prefix
is_prefix_nil xs = refl

components_nil : components "" ≡ []
unfolding components
components_nil = refl

-- A relative path that is joined to another leads below that one, whatever the two are. Parent
-- directories are not resolved: `q` may still name something outside `p`.
pub join-starts_with : (p q : String) → is_absolute q ≡ false → starts_with (join p q) p ≡ true
unfolding starts_with join
join-starts_with Text.[] q h = refl
join-starts_with (Text.◌∷◌ c s) q h = elim (Bool-cases (ends_with_slash (Text.◌∷◌ c s))) [
  | inl y ↦
      rw (h, y, components-after_slash c s q y)
        (is_prefix-append (components (Text.◌∷◌ c s)) (body (segments q)))
  | inr n ↦
      rw (h, n, components-slash c s q)
        (is_prefix-append (components (Text.◌∷◌ c s)) (body (segments q)))
]

trim-is_relative : (p : String) → is_absolute (trim p) ≡ false
unfolding trim is_absolute
trim-is_relative Text.[] = refl
trim-is_relative (Text.◌∷◌ c s) = elim (Bool-cases (code c == b'/')) [
  | inl h ↦ rw h (trim-is_relative s)
  | inr h ↦ rw h h
]

pub unrooted-is_relative : (p : String) → is_absolute (unrooted p) ≡ false
unfolding strip_root is_absolute
unrooted-is_relative Text.[] = refl
unrooted-is_relative (Text.◌∷◌ c s) = ground (arith, trim-is_relative s)
