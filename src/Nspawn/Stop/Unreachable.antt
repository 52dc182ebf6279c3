-- ===== src/Nspawn/Stop/Unreachable.antt =====
-- `stop_job` of the nspawn runner while the SSE connector cannot reach the coordinator.
use siplane.Base.{
  ℕ, ◌≡◌, refl, ◌∙◌, subst, ◌⊎◌, inl, inr, Bool, true, false, Option, none, some, List, [], ◌∷◌,
  arith, if◌then◌else◌, Bool-cases,
}
use siplane.Base.Flow.{value, returned, panicked, Flow, after, ◌>>◌}
use siplane.Api.Coord.{StopJobMessage, stopping}
use siplane.Connector.Lifecycle.{Phase, is_ready, is_stopping, has_finished, has_failed}
use siplane.Connector.Sse.Lossy.{taken, taken_lost, taken-seen}
use siplane.Nspawn.Config.{Config, Job}
use siplane.Nspawn.World.{World, Action, post}
use siplane.Nspawn.Reports.{report, seen}
use siplane.Nspawn.Start.{Outcome}
use siplane.Nspawn.Stop.{
  Ending, reap, ask_to_exit, tear_down, around, unless_stuck, stop_taken, stopped?, stop_job,
}
use siplane.Nspawn.Stop.Lifecycle.{stop_job_reports}

-- An outcome with the requests of `post_job_state`, in a handler that changes `current_job` before its
-- first report or not at all. A panic unwinds the handler and drops the job that it has taken, which
-- ends the tasks that wait on a channel of the job; this is no action of the handler, and not shown.
unfoldable pub over_http : (ℕ → Bool) → Outcome → Outcome
over_http reaches o =
    let t = taken report reaches 0 o.trace in
    if t.1 then o else record { trace = t.0; current = o.current; panicked = true }

module _ (w : World) (cfg : Config) (x : Ending) (msg : StopJobMessage) where
  abbrev StartsStopping : Option Outcome → Type 0
  StartsStopping none = Unit
  StartsStopping (some o) = (t : List Action) × (o.trace ≡ post msg.job_id (stopping none) ∷ t)

  after-StartsStopping :
      (m : Flow Action (Unit {0}))
      → StartsStopping
          (stopped? w cfg x msg (some (after (post msg.job_id (stopping none) ∷ []) m)))
  unfolding stopped?
  after-StartsStopping (t, value u) = (t, refl)
  after-StartsStopping (t, returned) = (t, refl)
  after-StartsStopping (t, panicked) = (t, refl)

  around-StartsStopping :
      (job : Job) (r : Option (Flow Action (Unit {0})))
      → StartsStopping (stopped? w cfg x msg (around w cfg x msg job r))
  unfolding around stopped?
  around-StartsStopping job none = tt
  around-StartsStopping job (some reaped) =
      after-StartsStopping
        (after (ask_to_exit w cfg x msg job) (reaped >> tear_down w cfg x msg job))

  taken-StartsStopping :
      (fuel : ℕ) (job : Job)
      → StartsStopping (stopped? w cfg x msg (stop_taken w cfg x msg fuel job))
  unfolding stop_taken
  taken-StartsStopping fuel job =
      around-StartsStopping job (unless_stuck w cfg x msg (reap w cfg x msg fuel 0 job.nspawn_proc))

  over_http-current : (reaches : ℕ → Bool) (o : Outcome) → (over_http reaches o).current ≡ o.current
  unfolding over_http
  over_http-current reaches o = elim (Bool-cases (taken report reaches 0 o.trace).1) [
    | inl e ↦ rw e refl
    | inr e ↦ rw e refl
  ]

  over_http-trace :
      (reaches : ℕ → Bool) (o : Outcome)
      → ((over_http reaches o).trace ≡ o.trace)
        ⊎ ((over_http reaches o).trace ≡ (taken report reaches 0 o.trace).0)
  unfolding over_http
  over_http-trace reaches o = elim (Bool-cases (taken report reaches 0 o.trace).1) [
    | inl e ↦ rw e (inl refl)
    | inr e ↦ rw e (inr refl)
  ]

  some_phase :
      (reaches : ℕ → Bool) (q : Phase) (o : Outcome)
      → seen msg.job_id is_ready o.trace ≡ some q
      → (p : Phase) × (seen msg.job_id is_ready (over_http reaches o).trace ≡ some p)
  some_phase reaches q o h = elim (over_http-trace reaches o) [
    | inl e ↦ (q, rw e h)
    | inr e ↦ rw e (taken-seen report reaches msg.job_id 0 is_ready q o.trace h)
  ]

  lost_at_once :
      (reaches : ℕ → Bool) (o : Outcome)
      → reaches 0 ≡ false
      → StartsStopping (some o)
      → ((over_http reaches o).trace ≡ []) × ((over_http reaches o).panicked ≡ true)
  unfolding over_http
  lost_at_once reaches o l (t, e) =
      let first = post msg.job_id (stopping none) in
      let none_taken : taken report reaches 0 o.trace ≡ ([], false) =
        rw e (taken_lost report reaches 0 first (msg.job_id, stopping none) t refl l) in
      rw none_taken (refl, refl)

  -- Whichever requests to the coordinator fail while the nspawn runner stops its job, in a call that
  -- would end without these failures: the runner
  -- forgets the job, and what reaches the coordinator is in an order that it may see. If the very first
  -- request fails, `stop_job` panics and has taken no action at all: no signal and no kill has been
  -- sent to the container's process, no proxy stopped, and nothing unmounted.
  pub stop_job_unreachable :
      (reaches : ℕ → Bool) (fuel : ℕ) (job : Job) (o : Outcome)
      → job.job_id ≡ msg.job_id
      → stop_job w cfg x msg fuel (some job) ≡ some o
      → let l = over_http reaches o in
        (l.current ≡ none)
        × ((p : Phase) × (seen msg.job_id is_ready l.trace ≡ some p))
        × (reaches 0 ≡ false → (l.trace ≡ []) × (l.panicked ≡ true))
  unfolding stop_job
  stop_job_unreachable reaches fuel job o own e =
      let (gone, how) = stop_job_reports w cfg x msg fuel job o own e in
      let same : stopped? w cfg x msg (stop_taken w cfg x msg fuel job) ≡ some o = ground arith in
      (
        over_http-current reaches o ∙ gone,
        elim how [
          | inl (h, n) ↦ some_phase reaches has_finished o h
          | inr (inl (h, n)) ↦ some_phase reaches has_failed o h
          | inr (inr (h, n)) ↦ some_phase reaches is_stopping o h
        ],
        λ l. lost_at_once reaches o l (subst StartsStopping same (taken-StartsStopping fuel job)),
      )
