-- ===== src/Nspawn/Tests.antt =====
-- A board with one environment on a ZFS clone, its one job from its start to its stop.
use siplane.Base.{
  ℕ, ◌≡◌, refl, ◌⊎◌, Bool, true, false, Option, none, some, List, [], ◌∷◌, ◌++◌, arith, ◌==◌,
  if◌then◌else◌, is_some, length,
}
use siplane.Api.Coord.{StopJobMessage, stdout, stderr}
use siplane.Api.Puppet.{PuppetReq, PuppetMsg, RunnerResp, RunnerMsg}
use siplane.ControlSocket.{message}
use siplane.ControlSocket.Unix
use siplane.Connector.Lifecycle.{
  Phase, requested, allocating_root, is_ready, is_stopping, has_failed, has_finished,
}
use siplane.Nspawn.Config.{Job}
use siplane.Nspawn.World.{has_exited, still_running}
use siplane.Nspawn.Reports.{seen}
use siplane.Nspawn.Config.{ssh_socket_addr}
use siplane.Nspawn.Config.Address.{best_address, ssh_goes_to_best_address}
use siplane.Nspawn.Start.Tests.{world, env, config, start_msg, job, starts}
use siplane.Nspawn.Start.{Outcome, start_job}
use siplane.Nspawn.Start.Lifecycle.{start_job_reports}
use siplane.Nspawn.Stop.{
  Ending, stop_job, stop_taken, stopped?, around, unless_stuck, reap, tear_down, unmount, delete_if,
}
use siplane.Nspawn.Stop.Unreachable.{over_http, stop_job_unreachable}
use siplane.Nspawn.Stop.Lifecycle.{stop_job_returns, stop_job_reports, KillWaits}
use mathlib.Core.List.{Perm}
use siplane.Nspawn.Resources.{acquires, releases, all_of, still_mounted}
use siplane.Nspawn.Stop.Releases.{stop_releases_what_start_acquired}
use siplane.Nspawn.Query.{runner}
use siplane.Nspawn.Query.Isolation.{own_job, keys_of, config_resp, answers_own_job}
use siplane.Nspawn.Console.{
  Streamer, still_runs, has_exited as gone, Input, shutdown, read, Output as Sent, send_log,
  spawn_stop_job, start, step, Runs, stop, more, ended,
}
use siplane.Nspawn.Console.Logs.{logs, logged, data_reads, console_logged_in_order}

start_job_reports_example :
    let o = start_job world config start_msg none in
    ((seen 7 requested o.trace ≡ some is_ready)
      × (o.panicked ≡ false)
      × ((j : Job) × (o.current ≡ some j) × (j.job_id ≡ start_msg.job_id)))
    ⊎ ((seen 7 requested o.trace ≡ some has_failed) × (o.panicked ≡ false) × (o.current ≡ none))
    ⊎ ((seen 7 requested o.trace ≡ some allocating_root) × (o.panicked ≡ true) × (o.current ≡ none))
start_job_reports_example = start_job_reports world config start_msg none

-- The container does not exit by itself; the first kill ends it.
abbrev ending : Ending
ending = record {
  has_pid = true;
  poll = λ n. if n == 0 then still_running else has_exited;
  kill_succeeds = λ n. true;
  socket_returns = true;
  socket_closes = true;
  streamer_listens = true;
  streamer_joins = true;
  proxy_shuts = λ p. true;
}

abbrev stop_msg : StopJobMessage
stop_msg = record { job_id = 7 }

ending-KillWaits : KillWaits world config ending stop_msg
ending-KillWaits n k = ground arith

stop_job_returns_example : is_some (stop_job world config ending stop_msg 2 (some job)) ≡ true
stop_job_returns_example =
    stop_job_returns world config ending stop_msg 0 (some job) ending-KillWaits refl

abbrev unwrap_or : Outcome → Option Outcome → Outcome
unwrap_or o none = o
unwrap_or o (some p) = p

outcome_of : Outcome
outcome_of =
    unwrap_or (record { trace = []; current = none; panicked = false })
      (stop_job world config ending stop_msg 2 (some job))

stops_ok : stop_job world config ending stop_msg 2 (some job) ≡ some outcome_of
unfolding outcome_of
stops_ok =
    ground (arith, stop_job_returns world config ending stop_msg 0 (some job) ending-KillWaits refl)

no_panic : outcome_of.panicked ≡ false
unfolding outcome_of stop_job stop_taken around unless_stuck reap tear_down unmount delete_if
    stopped?
no_panic = ground arith

stop_job_reports_example :
    (outcome_of.current ≡ none)
    × (((seen 7 is_ready outcome_of.trace ≡ some has_finished) × (outcome_of.panicked ≡ false))
        ⊎ ((seen 7 is_ready outcome_of.trace ≡ some has_failed) × (outcome_of.panicked ≡ false))
        ⊎ ((seen 7 is_ready outcome_of.trace ≡ some is_stopping) × (outcome_of.panicked ≡ true)))
stop_job_reports_example =
    stop_job_reports world config ending stop_msg 2 job outcome_of refl stops_ok

-- No request to the coordinator gets an answer.
abbrev unreachable : ℕ → Bool
unreachable n = false

stop_job_unreachable_example :
    let l = over_http unreachable outcome_of in
    (l.current ≡ none)
    × ((p : Phase) × (seen 7 is_ready l.trace ≡ some p))
    × (unreachable 0 ≡ false → (l.trace ≡ []) × (l.panicked ≡ true))
stop_job_unreachable_example =
    stop_job_unreachable world config ending stop_msg unreachable 2 job outcome_of refl stops_ok

answers_own_job_example :
    (Unix.answer_to (message (PuppetMsg.request 5 PuppetReq.ssh_keys)) 8 (runner world (some job))
      ≡ some (RunnerMsg.response 5 (RunnerResp.ssh_keys_resp (keys_of (own_job 8 (some job))))))
    × (Unix.answer_to
          (message (PuppetMsg.request 5 PuppetReq.network_config))
          8
          (runner world (some job))
        ≡ some (RunnerMsg.response 5 (config_resp world (own_job 8 (some job)))))
answers_own_job_example = answers_own_job world (some job) 8 5

abbrev console : List Input
console = read stdout (104 ∷ 105 ∷ []) still_runs ∷ read stderr [] gone ∷ shutdown ∷ []

abbrev console_end : Streamer
console_end = record {
  place = ended;
  console_queue = (stdout, 104 ∷ 105 ∷ []) ∷ [];
  console_queue_offset = 1;
  stdout_closed = false;
  stderr_closed = true;
}

abbrev console_out : List Sent
console_out = send_log 0 1 ((stdout, 2) ∷ []) (104 ∷ 105 ∷ []) ∷ spawn_stop_job ∷ []

console_run : Runs start console console_end console_out
unfolding start step
console_run =
    more {o = send_log 0 1 ((stdout, 2) ∷ []) (104 ∷ 105 ∷ []) ∷ []} refl
      (more {o = spawn_stop_job ∷ []} refl (more {o = []} refl stop))

console_logged_in_order_example :
    (logs console_out ≡ logged 0 console)
    × (console_end.console_queue_offset ≡ data_reads 0 console)
    × (length console_end.console_queue ≡ data_reads 0 console)
console_logged_in_order_example = console_logged_in_order console_run

stop_releases_what_start_acquired_example :
    Perm
      (all_of acquires (start_job world config start_msg none).trace)
      (all_of (releases world) outcome_of.trace ++ still_mounted world job.root_fs_mountpoint)
stop_releases_what_start_acquired_example =
    stop_releases_what_start_acquired world config ending stop_msg world start_msg 2 job outcome_of
      starts refl stops_ok no_panic

ssh_goes_to_best_address_example : ssh_socket_addr env ≡ best_address env
ssh_goes_to_best_address_example = ssh_goes_to_best_address env
