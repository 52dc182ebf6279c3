-- ===== src/Base/Flow.antt =====
-- What an `async fn` does: the actions that it asks of its surroundings, in order, and how it ends.
use mathlib.Core.List.{List, [], ◌∷◌, ◌++◌}

-- `value` goes on with a result, `returned` is an early `return`, and `panicked` an `unwrap`,
-- `expect`, `assert!` or `panic!` that fired.
pub data End {ℓ} (A : Type ℓ) : Type ℓ where
  value : A → End A
  returned : End A
  panicked : End A

abbrev pub Flow {ℓ κ} : Type ℓ → Type κ → Type (ℓ ⊔ κ)
Flow Act A = List Act × End A

module _ {ℓ κ} {Act : Type ℓ} {A : Type κ} where
  abbrev pub pure : A → Flow Act A
  pure a = ([], value a)

  abbrev pub leave : Flow Act A
  leave = ([], returned)

  abbrev pub panic : Flow Act A
  panic = ([], panicked)

abbrev pub emit {ℓ} : {Act : Type ℓ} → Act → Flow Act (Unit {0})
emit a = (a ∷ [], value tt)

abbrev pub emit_all {ℓ} : {Act : Type ℓ} → List Act → Flow Act (Unit {0})
emit_all acts = (acts, value tt)

-- the actions `t` stand before those of `m`
abbrev pub after {ℓ κ} : {Act : Type ℓ} {A : Type κ} → List Act → Flow Act A → Flow Act A
after t (u, e) = (t ++ u, e)

infixl 5 ◌>>=◌ ◌>>◌
abbrev pub ◌>>=◌ {ℓ κ ν} :
    {Act : Type ℓ} {A : Type κ} {B : Type ν} → Flow Act A → (A → Flow Act B) → Flow Act B
(t, value a) >>= f = after t (f a)
(t, returned) >>= f = (t, returned)
(t, panicked) >>= f = (t, panicked)

abbrev pub ◌>>◌ {ℓ ν} : {Act : Type ℓ} {B : Type ν} → Flow Act (Unit {0}) → Flow Act B → Flow Act B
m >> k = m >>= λ _. k
