-- ===== src/Connector/Runner/Reported.antt =====
-- The reports of a runner's handler among its actions, as a connector takes them.
use siplane.Base.{
  ℕ, ◌≡◌, refl, sym, ap, ◌∙◌, ◌≢◌, ◌⊎◌, inl, inr, Bool, true, false, Option, none, some, List, [],
  ◌∷◌, arith, ◌==◌, if◌then◌else◌,
}
use siplane.Api.Coord.{JobState}
use siplane.Connector.Lifecycle.{
  Phase, requested, is_ready, is_stopping, has_finished, has_failed, advance,
}
use siplane.Connector.Reports.{seen_by, reports_of}
use siplane.Connector.Runner.{follow, StartServed, started, not_started, StopServed, given_up}

module _ {Act : Type 0} (report : Act → Option (ℕ × JobState)) (id : ℕ) where
  follow-advance :
      (o : Option Phase) (j : ℕ) (t : List Act)
      → ((q : Phase) → seen_by report id q t ≡ follow id q (reports_of report t))
      → elim o [ none ↦ none | some q ↦ if j == id then seen_by report id q t else none ] ≡ elim o [
        | none ↦ none
        | some q ↦ if j == id then follow id q (reports_of report t) else none
      ]
  follow-advance none j t h = refl
  follow-advance (some q) j t h = ap (λ o. if j == id then o else none) (h q)

  follow-report :
      (p : Phase) (r : Option (ℕ × JobState)) (t : List Act)
      → ((q : Phase) → seen_by report id q t ≡ follow id q (reports_of report t))
      → elim r [
        | none ↦ seen_by report id p t
        | some (j, s) ↦ elim (advance p s) [
          | none ↦ none
          | some q ↦ if j == id then seen_by report id q t else none
        ]
      ]
        ≡ follow id p (elim r [ none ↦ reports_of report t | some x ↦ x ∷ reports_of report t ])
  follow-report p none t h = h p
  follow-report p (some (j, s)) t h = follow-advance (advance p s) j t h

  pub seen_by-follow :
      (p : Phase) (t : List Act) → seen_by report id p t ≡ follow id p (reports_of report t)
  seen_by-follow p [] = refl
  seen_by-follow p (a ∷ t) = follow-report p (report a) t (λ q. seen_by-follow q t)

-- The job in a runner's `current_job`.
abbrev pub job_in : {J : Type 0} → (J → ℕ) → Option J → Option ℕ
job_in key none = none
job_in key (some job) = some (key job)

pub other_job : (j id : ℕ) → (j == id) ≡ false → some j ≢ some id
other_job j id e f = ground arith

-- What the reports of a handler come to, as a connector takes them; a panic of `start_job` leaves
-- the phase `at_panic`.
module _ {Act J : Type 0} (report : Act → Option (ℕ × JobState)) (key : J → ℕ) (id : ℕ)
    (t : List Act) (after : Option J) (panicked : Bool) where
  pub start_reported :
      (at_panic : Phase)
      → at_panic ≢ is_ready
      → at_panic ≢ is_stopping
      → ((seen_by report id requested t ≡ some is_ready)
          × (panicked ≡ false)
          × ((job : J) × (after ≡ some job) × (key job ≡ id)))
        ⊎ ((seen_by report id requested t ≡ some has_failed) × (panicked ≡ false) × (after ≡ none))
        ⊎ ((seen_by report id requested t ≡ some at_panic) × (panicked ≡ true) × (after ≡ none))
      → StartServed id none (reports_of report t) panicked (job_in key after)
  start_reported p r s (inl (f, n, (job, c, own))) =
      started refl (sym (seen_by-follow report id requested t) ∙ f)
        (ap (job_in key) c ∙ ap some own) n
  start_reported p r s (inr (inl (f, n, c))) =
      not_started has_failed refl (sym (seen_by-follow report id requested t) ∙ f)
        (λ e. ground arith) (λ e. ground arith) (ap (job_in key) c)
  start_reported p r s (inr (inr (f, n, c))) =
      not_started p refl (sym (seen_by-follow report id requested t) ∙ f) r s (ap (job_in key) c)

  pub stop_reported :
      (job : J)
      → key job ≡ id
      → (after ≡ none)
        × (((seen_by report id is_ready t ≡ some has_finished) × (panicked ≡ false))
            ⊎ ((seen_by report id is_ready t ≡ some has_failed) × (panicked ≡ false))
            ⊎ ((seen_by report id is_ready t ≡ some is_stopping) × (panicked ≡ true)))
      → StopServed id (some (key job)) (reports_of report t) panicked (job_in key after)
  stop_reported job own (gone, inl (f, n)) =
      given_up has_finished (ap some own) (sym (seen_by-follow report id is_ready t) ∙ f)
        (λ e. ground arith) (ap (job_in key) gone)
  stop_reported job own (gone, inr (inl (f, n))) =
      given_up has_failed (ap some own) (sym (seen_by-follow report id is_ready t) ∙ f)
        (λ e. ground arith) (ap (job_in key) gone)
  stop_reported job own (gone, inr (inr (f, n))) =
      given_up is_stopping (ap some own) (sym (seen_by-follow report id is_ready t) ∙ f)
        (λ e. ground arith) (ap (job_in key) gone)
