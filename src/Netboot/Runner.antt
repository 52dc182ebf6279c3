-- ===== src/Netboot/Runner.antt =====
-- The netboot runner as the connectors take it: the trait `Runner` of treadmill-rs/src/connector.rs.
use siplane.Base.{
  ℕ, ◌≡◌, refl, inl, inr, false, Option, none, some, arith, ◌==◌, ==_iff, Bool-cases,
}
use siplane.Api.Coord.{StartJobMessage, StopJobMessage}
use siplane.Connector.Lifecycle.{requested}
use siplane.Connector.Reports.{reports_of}
use siplane.Connector.Runner.{Handled, StartServed, busy, StopServed, not_running, JobRunner}
use siplane.Connector.Runner.Reported.{job_in, other_job, start_reported, stop_reported}
use siplane.Netboot.Config.{Config, Job, World, report}
use siplane.Netboot.Start
use siplane.Netboot.Start.{Outcome}
use siplane.Netboot.Start.Reporting.{netboot_start_reports}
use siplane.Netboot.Stop
use siplane.Netboot.Stop.{Ending}
use siplane.Netboot.Stop.Reporting.{netboot_stop_reports}

-- What a call meets.
pub record Surroundings : Type 0 where
  pub world : World
  pub ending : Ending

abbrev pub key : Job → ℕ
key job = job.job_id

abbrev handled : Outcome → Handled (Option Job)
handled o = record { state = o.current; reports = reports_of report o.trace; panicked = o.panicked }

module _ (cfg : Config) where
  unfoldable pub start_job : Surroundings → StartJobMessage → Option Job → Handled (Option Job)
  start_job a msg s = handled (Start.start_job a.world cfg msg s)

  unfoldable pub stop_job : Surroundings → StopJobMessage → Option Job → Handled (Option Job)
  stop_job a msg s = handled (Stop.stop_job a.world cfg a.ending msg s)

  pub start_served :
      (a : Surroundings) (msg : StartJobMessage) (s : Option Job)
      → let h = start_job a msg s in
        StartServed msg.job_id (job_in key s) h.reports h.panicked (job_in key h.state)
  unfolding start_job Start.start_job
  start_served a msg none =
      let o = Start.start_job a.world cfg msg none in
      start_reported report key msg.job_id o.trace o.current o.panicked requested
        (λ e. ground arith) (λ e. ground arith) (netboot_start_reports a.world cfg msg none)
  start_served a msg (some job) = busy _ (λ e. ground arith) refl refl refl

  module _ (a : Surroundings) (msg : StopJobMessage) where
    stop_own :
        (job : Job)
        → job.job_id ≡ msg.job_id
        → let h = stop_job a msg (some job) in
          StopServed msg.job_id (some job.job_id) h.reports h.panicked (job_in key h.state)
    unfolding stop_job
    stop_own job own =
        let o = Stop.stop_job a.world cfg a.ending msg (some job) in
        stop_reported report key msg.job_id o.trace o.current o.panicked job own
          (netboot_stop_reports a.world cfg a.ending msg job own)

    stop_other :
        (job : Job)
        → (job.job_id == msg.job_id) ≡ false
        → Stop.stop_job a.world cfg a.ending msg (some job)
          ≡ Stop.refused a.world cfg a.ending msg (some job)
    unfolding Stop.stop_job
    stop_other job other = ground arith

    pub stop_served :
        (s : Option Job)
        → let h = stop_job a msg s in
          StopServed msg.job_id (job_in key s) h.reports h.panicked (job_in key h.state)
    unfolding stop_job Stop.stop_job Stop.refused
    stop_served none = not_running _ (λ e. ground arith) refl refl refl
    stop_served (some job) = elim (Bool-cases (job.job_id == msg.job_id)) [
      | inl own ↦ stop_own job ((==_iff job.job_id msg.job_id).0 own)
      | inr e ↦
          rw (stop_other job e) (not_running _ (other_job job.job_id msg.job_id e) refl refl refl)
    ]

  -- The netboot runner
  abbrev pub netboot_runner : JobRunner
  netboot_runner = record {
    State = Option Job;
    Answers = Surroundings;
    job_of = job_in key;
    start_job = start_job;
    stop_job = stop_job;
    start_served = start_served;
    stop_served = stop_served;
  }
