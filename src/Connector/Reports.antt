-- ===== src/Connector/Reports.antt =====
-- The reports on jobs among the actions of a handler, and the phase that they lead to.
use siplane.Base.{
  ℕ, ◌≡◌, ◌∙◌, Option, none, some, List, [], ◌∷◌, ◌++◌, append_assoc, ◌==◌, if◌then◌else◌,
}
use siplane.Base.Flow.{value, returned, panicked, Flow, after, ◌>>=◌}
use siplane.Api.Coord.{JobState}
use siplane.Connector.Lifecycle.{Phase, has_failed, advance}

-- `post_job_state`, as it is found among the actions: the job and its state
module _ {Act : Type 0} (report : Act → Option (ℕ × JobState)) where
  -- The phase of job `id` after the reports among the actions, if all are about `id` and each may
  -- come when it does.
  abbrev pub seen_by : ℕ → Phase → List Act → Option Phase
  seen_by id p [] = some p
  seen_by id p (a ∷ t) =
      let rest = λ (q : Phase). seen_by id q t in
      elim (report a) [
        | none ↦ rest p
        | some (j, s) ↦ elim (advance p s) [
          | none ↦ none
          | some q ↦ if j == id then rest q else none
        ]
      ]

  -- the reports alone, in order
  abbrev pub reports_of : List Act → List (ℕ × JobState)
  reports_of [] = []
  reports_of (a ∷ t) = elim (report a) [ none ↦ reports_of t | some r ↦ r ∷ reports_of t ]

  -- What the reports of a part of a handler come to when it begins in phase `p`: the value that it
  -- ends with satisfies `V`, and leads to phase `q`; a panic leaves it in phase `at_panic`.
  module _ (id : ℕ) (at_panic : Phase) where
    abbrev pub ReportsTo {ℓ} : {A : Type ℓ} → (A → Type 0) → Phase → Phase → Flow Act A → Type 0
    ReportsTo V p q (t, value a) = ((u : List Act) → seen_by id p (t ++ u) ≡ seen_by id q u) × V a
    ReportsTo V p q (t, returned) = seen_by id p t ≡ some has_failed
    ReportsTo V p q (t, panicked) = seen_by id p t ≡ some at_panic

    pub ReportsTo-after {ℓ} :
        {A : Type ℓ} (V : A → Type 0) (p q r : Phase) (t : List Act) (m : Flow Act A)
        → ((u : List Act) → seen_by id p (t ++ u) ≡ seen_by id q u)
        → ReportsTo V q r m
        → ReportsTo V p r (after t m)
    ReportsTo-after V p q r t (u, value a) h (k, v) = (λ x. rw append_assoc (h (u ++ x) ∙ k x), v)
    ReportsTo-after V p q r t (u, returned) h k = h u ∙ k
    ReportsTo-after V p q r t (u, panicked) h k = h u ∙ k

    pub ReportsTo-bind {ℓ κ} :
        {A : Type ℓ} {B : Type κ} (V : A → Type 0) (W : B → Type 0) (p q r : Phase) (m : Flow Act A)
        (f : A → Flow Act B)
        → ReportsTo V p q m
        → ((a : A) → V a → ReportsTo W q r (f a))
        → ReportsTo W p r (m >>= f)
    ReportsTo-bind V W p q r (t, value a) f (h, v) k = ReportsTo-after W p q r t (f a) h (k a v)
    ReportsTo-bind V W p q r (t, returned) f h k = h
    ReportsTo-bind V W p q r (t, panicked) f h k = h
