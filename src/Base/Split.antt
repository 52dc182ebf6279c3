-- ===== src/Base/Split.antt =====
-- Texts that are joined with a separating character, as `[String]::join` does, and taken apart again.
use Prim.Native.Char.{Char, code}
use Prim.Native.String as Text
use Prim.Native.String.{String}
use Prim.Native.String.append
use mathlib.Core.Path.{◌≡◌, refl, ap, ◌∙◌}
use mathlib.Core.Bool.{Bool, true, false}
use mathlib.Core.List.{List, [], ◌∷◌}
use mathlib.Core.Logic.{inl, inr}
use native.Mathlib.Omega.{arith}
use text.Mathlib.TextLemmas
use siplane.Base.Tests.{◌==◌, if◌then◌else◌, Bool-cases}
use siplane.Base.Lists.{All}

abbrev push : Char → List String → List String
push c [] = (Text.◌∷◌ c "") ∷ []
push c (w ∷ ws) = (Text.◌∷◌ c w) ∷ ws

module _ (sep : Char) where
  -- the text between the separators
  pub split : String → List String
  split Text.[] = "" ∷ []
  split (Text.◌∷◌ c s) = if code c == code sep then "" ∷ split s else push c (split s)

  abbrev pub join : List String → String
  join [] = ""
  join (x ∷ []) = x
  join (x ∷ y ∷ ys) = Text.◌++◌ x (Text.◌∷◌ sep (join (y ∷ ys)))

  abbrev pub lacks : String → Bool
  lacks Text.[] = true
  lacks (Text.◌∷◌ c s) = if code c == code sep then false else lacks s

  split-lacks : (p : String) → lacks p ≡ true → split p ≡ p ∷ []
  unfolding split
  split-lacks Text.[] h = refl
  split-lacks (Text.◌∷◌ c s) h = elim (Bool-cases (code c == code sep)) [
    | inl e ↦ absurd (ground arith)
    | inr e ↦ rw e (ap (push c) (split-lacks s (ground arith)))
  ]

  split-sep : (p q : String) → lacks p ≡ true → split (Text.◌++◌ p (Text.◌∷◌ sep q)) ≡ p ∷ split q
  unfolding split
  split-sep Text.[] q h = rw (append.nil (Text.◌∷◌ sep q)) (ground arith)
  split-sep (Text.◌∷◌ c s) q h =
      rw (append.cons c s (Text.◌∷◌ sep q)) (elim (Bool-cases (code c == code sep)) [
        | inl e ↦ absurd (ground arith)
        | inr e ↦ rw e (ap (push c) (split-sep s q (ground arith)))
      ])

  -- Texts without the separator can be read back from their join.
  pub split-join :
      (x : String) (xs : List String)
      → All (λ y. lacks y ≡ true) (x ∷ xs)
      → split (join (x ∷ xs)) ≡ x ∷ xs
  split-join x [] (h, _) = split-lacks x h
  split-join x (y ∷ ys) (h, g) = split-sep x (join (y ∷ ys)) h ∙ ap (◌∷◌ x) (split-join y ys g)

  pub join-merge :
      (a b : String) (xs : List String)
      → join (Text.◌++◌ a (Text.◌∷◌ sep b) ∷ xs) ≡ join (a ∷ b ∷ xs)
  join-merge a b [] = refl
  join-merge a b (x ∷ xs) =
      TextLemmas.append_assoc a (Text.◌∷◌ sep b) (Text.◌∷◌ sep (join (x ∷ xs)))
      ∙ ap (Text.◌++◌ a) (append.cons sep b (Text.◌∷◌ sep (join (x ∷ xs))))
