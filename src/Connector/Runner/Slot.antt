-- ===== src/Connector/Runner/Slot.antt =====
-- The job that runs, as the reports of a runner tell it.
use siplane.Base.{
  ℕ, String, ◌≡◌, refl, ap, ◌∙◌, ◌≢◌, inl, inr, Bool, Option, none, some, List, [], ◌∷◌, ◌++◌,
  arith, ◌==◌, if◌then◌else◌, Bool-cases, Option-cases,
}
use siplane.Api.Coord.{
  JobState, starting, ready, stopping, finished, failed, allocating, provisioning, booting,
}
use siplane.Connector.Lifecycle.{Phase, requested, is_ready, advance}
use siplane.Connector.Runner.{
  follow, StartServed, started, not_started, busy, StopServed, given_up, not_running,
}

-- The job that is ready after the reports, as their coordinator takes them: from its `Ready` on, until
-- it is `Stopping`, or has `Finished` or `Failed`. There is none if a second job becomes ready before
-- that, or a job is `Stopping` that is not ready. Other reports change nothing.
abbrev pub track : Option ℕ → List (ℕ × JobState) → Option (Option ℕ)
track slot [] = some slot
track none ((j, ready info text) ∷ rs) = track (some j) rs
track (some i) ((j, ready info text) ∷ rs) = none
track none ((j, stopping text) ∷ rs) = none
track (some i) ((j, stopping text) ∷ rs) = let rest = track none rs in if i == j then rest else none
track none ((j, finished text) ∷ rs) = track none rs
track (some i) ((j, finished text) ∷ rs) = track (if i == j then none else some i) rs
track none ((j, failed text) ∷ rs) = track none rs
track (some i) ((j, failed text) ∷ rs) = track (if i == j then none else some i) rs
track slot ((j, starting stage text) ∷ rs) = track slot rs

abbrev slot_at : ℕ → Phase → Option ℕ
slot_at id is_ready = some id
slot_at id _ = none

track_step :
    (id : ℕ) (p q : Phase) (s : JobState) (u : List (ℕ × JobState))
    → advance p s ≡ some q
    → track (slot_at id p) ((id, s) ∷ u) ≡ track (slot_at id q) u
track_step id p q (starting allocating t) u e = ground arith
track_step id p q (starting provisioning t) u e = ground arith
track_step id p q (starting booting t) u e = ground arith
track_step id p q (ready info t) u e = ground arith
track_step id p q (stopping t) u e = ground arith
track_step id p q (finished t) u e = ground arith
track_step id p q (failed t) u e = ground arith

-- One of the reports of `follow`, and the rest.
follow-cons :
    (id : ℕ) (p q : Phase) (j : ℕ) (s : JobState) (rs : List (ℕ × JobState))
    → follow id p ((j, s) ∷ rs) ≡ some q
    → (j ≡ id) × ((m : Phase) × (advance p s ≡ some m) × (follow id m rs ≡ some q))
follow-cons id p q j s rs e = elim (Option-cases (advance p s)) [
  | inl n ↦ absurd (ground arith)
  | inr (m, h) ↦ (ground arith, (m, h, ground arith))
]

track-follow :
    (id : ℕ) (p q : Phase) (rs u : List (ℕ × JobState))
    → follow id p rs ≡ some q
    → track (slot_at id p) (rs ++ u) ≡ track (slot_at id q) u
track-follow id p q [] u e = ground arith
track-follow id p q ((j, s) ∷ rs) u e =
    let (own, (m, a, f)) = follow-cons id p q j s rs e in
    ap (λ k. track (slot_at id p) ((k, s) ∷ (rs ++ u))) own
    ∙ track_step id p m s (rs ++ u) a
    ∙ track-follow id m q rs u f

track-refusal :
    (slot : Option ℕ) (id : ℕ) (text : Option String) (u : List (ℕ × JobState))
    → slot ≢ some id
    → track slot ((id, failed text) ∷ u) ≡ track slot u
track-refusal none id text u n = refl
track-refusal (some i) id text u n = elim (Bool-cases (i == id)) [
  | inl e ↦ absurd (n (ground arith))
  | inr e ↦ rw e refl
]

slot_at-cases : (id : ℕ) (p : Phase) → p ≢ is_ready → slot_at id p ≡ none
slot_at-cases id p n = ground arith

module _ (id : ℕ) {before after : Option ℕ} {rs : List (ℕ × JobState)} {panicked : Bool} where
  pub StartServed-track :
      StartServed id before rs panicked after
      → before ≢ some id
      → (u : List (ℕ × JobState)) → track before (rs ++ u) ≡ track after u
  StartServed-track (started b f a n) other u =
      rw (b, a) (track-follow id requested is_ready rs u f)
  StartServed-track (not_started p b f r s a) other u =
      rw (b, a) (track-follow id requested p rs u f ∙ ap (λ o. track o u) (slot_at-cases id p r))
  StartServed-track (busy text b f a n) other u = rw (f, a) (track-refusal before id text u other)

  pub StopServed-track :
      StopServed id before rs panicked after
      → (u : List (ℕ × JobState)) → track before (rs ++ u) ≡ track after u
  StopServed-track (given_up p b f r a) u =
      rw (b, a) (track-follow id is_ready p rs u f ∙ ap (λ o. track o u) (slot_at-cases id p r))
  StopServed-track (not_running text b f a n) u = rw (f, a) (track-refusal before id text u b)
