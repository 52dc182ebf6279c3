-- ===== src/Base/Maps.antt =====
-- A `HashMap` with number keys, as an association list. The order of its entries means nothing.
use Prim.Native.Nat.{ℕ}
use mathlib.Core.Path.{◌≡◌, refl}
use mathlib.Core.List.{List, [], ◌∷◌}
use mathlib.Core.Option.{Option, none, some}
use native.Mathlib.Omega.{arith}
use siplane.Base.Tests.{◌==◌, if◌then◌else◌}

abbrev pub Dict {ℓ} : Type ℓ → Type ℓ
Dict V = List (ℕ × V)

module _ {ℓ} {V : Type ℓ} where
  -- `get`
  abbrev pub lookup : ℕ → Dict V → Option V
  lookup k [] = none
  lookup k ((j, v) ∷ d) = if j == k then some v else lookup k d

  -- `insert`; what it returns is `lookup k` of the old map
  abbrev pub insert : ℕ → V → Dict V → Dict V
  insert k v [] = (k, v) ∷ []
  insert k v ((j, w) ∷ d) = if j == k then (k, v) ∷ d else (j, w) ∷ insert k v d

  -- `remove`
  abbrev pub erase : ℕ → Dict V → Dict V
  erase k [] = []
  erase k ((j, w) ∷ d) = if j == k then erase k d else (j, w) ∷ erase k d

  pub lookup-insert :
      (k j : ℕ) (v : V) (d : Dict V)
      → lookup j (insert k v d) ≡ (if k == j then some v else lookup j d)
  lookup-insert k j v [] = refl
  lookup-insert k j v ((i, w) ∷ d) = ground (arith, lookup-insert k j v d)

  pub lookup-erase :
      (k j : ℕ) (d : Dict V) → lookup j (erase k d) ≡ (if k == j then none else lookup j d)
  lookup-erase k j [] = ground arith
  lookup-erase k j ((i, w) ∷ d) = ground (arith, lookup-erase k j d)
