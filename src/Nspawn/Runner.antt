-- ===== src/Nspawn/Runner.antt =====
-- The nspawn runner as the connectors take it: the trait `Runner` of treadmill-rs/src/connector.rs.
use siplane.Base.{
  ℕ, suc, ◌≡◌, refl, ◌≢◌, inl, inr, true, false, Option, none, some, [], arith, ◌==◌, ==_iff,
  Bool-cases, is_some,
}
use siplane.Api.Coord.{StartJobMessage, StopJobMessage}
use siplane.Connector.Lifecycle.{allocating_root}
use siplane.Connector.Reports.{reports_of}
use siplane.Connector.Runner.{Handled, StartServed, busy, StopServed, not_running, JobRunner}
use siplane.Connector.Runner.Reported.{job_in, other_job, start_reported, stop_reported}
use siplane.Nspawn.Config.{Config, Job}
use siplane.Nspawn.World.{World, still_running}
use siplane.Nspawn.Reports.{report}
use siplane.Nspawn.Start
use siplane.Nspawn.Start.{Outcome}
use siplane.Nspawn.Start.Lifecycle.{start_job_reports}
use siplane.Nspawn.Stop
use siplane.Nspawn.Stop.{Ending}
use siplane.Nspawn.Stop.Lifecycle.{stop_job_returns, stop_job_reports}

-- What a call meets, where a kill that succeeds waits for the process, and `shutdown` of the control
-- socket returns.
pub record Surroundings : Type 0 where
  pub world : World
  pub ending : Ending
  pub kill_waits : (n : ℕ) → ending.kill_succeeds n ≡ true → ending.poll (suc n) ≢ still_running
  pub socket_returns : ending.socket_returns ≡ true

abbrev pub key : Job → ℕ
key job = job.job_id

abbrev handled : Outcome → Handled (Option Job)
handled o = record { state = o.current; reports = reports_of report o.trace; panicked = o.panicked }

abbrev handled_or : Option Job → Option Outcome → Handled (Option Job)
handled_or s none = record { state = s; reports = []; panicked = false }
handled_or s (some o) = handled o

module _ (cfg : Config) where
  unfoldable pub start_job : Surroundings → StartJobMessage → Option Job → Handled (Option Job)
  start_job a msg s = handled (Start.start_job a.world cfg msg s)

  -- with the rounds that the loop takes at most
  unfoldable pub stop_job : Surroundings → StopJobMessage → Option Job → Handled (Option Job)
  stop_job a msg s = handled_or s (Stop.stop_job a.world cfg a.ending msg 2 s)

  pub start_served :
      (a : Surroundings) (msg : StartJobMessage) (s : Option Job)
      → let h = start_job a msg s in
        StartServed msg.job_id (job_in key s) h.reports h.panicked (job_in key h.state)
  unfolding start_job Start.start_job
  start_served a msg none =
      let o = Start.start_job a.world cfg msg none in
      start_reported report key msg.job_id o.trace o.current o.panicked allocating_root
        (λ e. ground arith) (λ e. ground arith) (start_job_reports a.world cfg msg none)
  start_served a msg (some job) = busy _ (λ e. ground arith) refl refl refl

  module _ (a : Surroundings) (msg : StopJobMessage) where
    stop_own :
        (job : Job)
        → job.job_id ≡ msg.job_id
        → (o : Option Outcome) → Stop.stop_job a.world cfg a.ending msg 2 (some job) ≡ o
        → is_some o ≡ true
        → let h = handled_or (some job) o in
          StopServed msg.job_id (some job.job_id) h.reports h.panicked (job_in key h.state)
    stop_own job own none e r = absurd (ground arith)
    stop_own job own (some o) e r =
        stop_reported report key msg.job_id o.trace o.current o.panicked job own
          (stop_job_reports a.world cfg a.ending msg 2 job o own e)

    stop_other :
        (job : Job)
        → (job.job_id == msg.job_id) ≡ false
        → Stop.stop_job a.world cfg a.ending msg 2 (some job)
          ≡ some (Stop.refused a.world cfg a.ending msg (some job))
    unfolding Stop.stop_job
    stop_other job other = ground arith

    pub stop_served :
        (s : Option Job)
        → let h = stop_job a msg s in
          StopServed msg.job_id (job_in key s) h.reports h.panicked (job_in key h.state)
    unfolding stop_job Stop.stop_job Stop.refused
    stop_served none = not_running _ (λ e. ground arith) refl refl refl
    stop_served (some job) = elim (Bool-cases (job.job_id == msg.job_id)) [
      | inl own ↦
          stop_own job ((==_iff job.job_id msg.job_id).0 own)
            (Stop.stop_job a.world cfg a.ending msg 2 (some job)) refl
            (stop_job_returns a.world cfg a.ending msg 0 (some job) a.kill_waits a.socket_returns)
      | inr e ↦
          rw (stop_other job e) (not_running _ (other_job job.job_id msg.job_id e) refl refl refl)
    ]

  -- The nspawn runner
  abbrev pub nspawn_runner : JobRunner
  nspawn_runner = record {
    State = Option Job;
    Answers = Surroundings;
    job_of = job_in key;
    start_job = start_job;
    stop_job = stop_job;
    start_served = start_served;
    stop_served = stop_served;
  }
