-- ===== src/Netboot/Main.antt =====
-- `main` of netboot-runner/src/main.rs.
use siplane.Base.{ℕ, String, ◌≡◌, refl, ◌≢◌, Option, none, some, List}
use siplane.Api.Coord.{JobState}
use siplane.Connector.Runner.Slot.{track}
use siplane.Connector.Runner.Reported.{job_in}
use siplane.Connector.Sse.{Parse}
use siplane.Connector.Program.{Program, NeverAgain, Program-reports}
use siplane.Netboot.Config.{Config, Job}
use siplane.Netboot.Runner.{key, netboot_runner}

-- `NetbootRunnerArgs`
pub record Args : Type 0 where
  pub test_env : Option ℕ
  pub config_file : String

-- The file is read and then parsed; either `unwrap` panics.
module _ (read_to_string : String → Option String) (from_str : String → Option Config)
    (args : Args) where
  parsed : Option String → Option Config
  parsed none = none
  parsed (some text) = from_str text

  unfoldable pub config : Option Config
  unfolding parsed
  config = parsed (read_to_string args.config_file)

  -- What the program may have come to: `current_job`, and what it has reported. The runner starts
  -- without a job.
  unfoldable pub Main : Parse → Option Job → List (ℕ × JobState) → Type 0
  Main parse job out =
      (cfg : Config) × (config ≡ some cfg)
      × Program (netboot_runner cfg) none args.test_env parse cfg.keepalive_timeout job out

  -- No message of a coordinator starts the job that the runner has when it comes.
  unfoldable pub NeverRestarted :
      (parse : Parse) (job : Option Job) (out : List (ℕ × JobState)) → Main parse job out → Type 0
  unfolding Main
  NeverRestarted parse job out (cfg, c, ran) =
      NeverAgain (netboot_runner cfg) none args.test_env parse cfg.keepalive_timeout ran

  -- If the coordinator takes every report and never starts the job that the runner has already, and each
  -- `stop_job` ends, as its wait for the control socket does: at any
  -- time of a run with the SSE connector, and at the end of one with the dummy connector, the reports
  -- of the netboot runner have left just the job ready that it has, which is none at the end with a
  -- test environment. They never have two jobs ready at once and stop no other job than the one that
  -- is ready. A job is ready from its `Ready` on until it is `Stopping`, or has `Finished` or `Failed`.
  pub netboot_program :
      (parse : Parse) (job : Option Job) (out : List (ℕ × JobState))
      → (main : Main parse job out) → NeverRestarted parse job out main
      → (track none out ≡ some (job_in key job)) × (args.test_env ≢ none → job_in key job ≡ none)
  unfolding Main NeverRestarted
  netboot_program parse job out (cfg, c, ran) w =
      Program-reports (netboot_runner cfg) none args.test_env parse cfg.keepalive_timeout job out
        refl ran w
