-- ===== src/Nspawn/Stop.antt =====
-- `stop_job` of the nspawn runner, from taking the lock on `current_job` to the last report.
pub mod Lifecycle
pub mod Unreachable
pub mod Releases
use siplane.Base.{
  ℕ, zero, suc, String, Bool, true, false, not, Option, none, some, List, [], ◌∷◌, ◌++◌, ◌==◌,
  if◌then◌else◌, format,
}
use siplane.Base.Flow.{
  value, returned, panicked, Flow, pure, panic, emit, emit_all, after, ◌>>=◌, ◌>>◌,
}
use siplane.Api.Coord.{StopJobMessage, stopping, finished, failed}
use siplane.Nspawn.Config.{Config, Proxy, Job}
use siplane.Nspawn.World.{
  World, Waited, has_exited, still_running, wait_error, Action, post, output, signal_term,
  await_exit, kill, close_control_socket, stop_console_streamer, stop_proxy, fail,
}
use siplane.Nspawn.Zfs.{outcome, destroy_zfs_root}
use siplane.Nspawn.Start.{Outcome}

-- What the job's own tasks and process answer: whether the process still has a number, the polls of
-- its exit status and the kills in their order, whether `shutdown` of the control socket returns, and
-- then whether it succeeds, whether the console streamer takes its command and its task can be joined,
-- and whether `shutdown` of a proxy comes to its end without a panic. The control socket's `shutdown`
-- waits for ever if its task waits for the lock on `current_job`, which `stop_job` holds; the other
-- calls are taken to return.
pub record Ending : Type 0 where
  pub has_pid : Bool
  pub poll : ℕ → Waited
  pub kill_succeeds : ℕ → Bool
  pub socket_returns : Bool
  pub socket_closes : Bool
  pub streamer_listens : Bool
  pub streamer_joins : Bool
  pub proxy_shuts : Proxy → Bool

-- `MSG_DELETE_DATA`
abbrev pub delete_data : Bool
delete_data = false

module _ (w : World) (cfg : Config) (x : Ending) (msg : StopJobMessage) where
  abbrev not_running : String
  not_running = format (
      "Cannot stop job "
      ∷ w.show_uuid msg.job_id
      ∷ " on board "
      ∷ w.show_uuid cfg.board_id
      ∷ ", not running!"
      ∷ [])

  -- `while exit_status.is_none()` from its `n`-th round on; `none` is out of fuel.
  unfoldable pub reap : ℕ → ℕ → ℕ → Option (Flow Action (Unit {0}))
  reap zero n pid = none
  reap (suc fuel) n pid = elim (x.poll n) [
    | has_exited ↦ some (pure tt)
    | still_running ↦ elim (x.kill_succeeds n) [
      | true ↦ elim (reap fuel (suc n) pid) [
        | none ↦ none
        | some m ↦ some (after (kill pid ∷ []) m)
      ]
      | false ↦ some (kill pid ∷ [], panicked)
    ]
    | wait_error ↦ some panic
  ]

  abbrev unless_panic : Bool → Flow Action (Unit {0})
  unless_panic true = pure tt
  unless_panic false = panic

  -- Unmounting, from the result of the command.
  abbrev unmount_failure : List String → Option String
  unmount_failure args =
      outcome (w.run "umount" args)
        (λ code stdout stderr. format (
          "Unmounting root filesystem failed with exit-status " ∷ code ∷ ". Stdout: " ∷ stdout
          ∷ ", Stderr: " ∷ stderr ∷ []))
        (λ e. format ("Unmounting root filesystem failed with error: " ∷ e ∷ []))

  abbrev or_fail : Option String → Flow Action (Unit {0})
  or_fail none = pure tt
  or_fail (some e) = fail msg.job_id e

  unfoldable pub unmount : Option String → Flow Action (Unit {0})
  unmount none = pure tt
  unmount (some mountpoint) = do
    emit (output "umount" (mountpoint ∷ []))
    or_fail (unmount_failure (mountpoint ∷ []))

  delete : Option String → Flow Action (Unit {0})
  delete none = pure tt
  delete (some fs) = do or_fail (← destroy_zfs_root w fs)

  unfoldable pub delete_if : Bool → Option String → Flow Action (Unit {0})
  unfolding delete
  delete_if true fs = delete fs
  delete_if false fs = pure tt

  -- `proxy.shutdown()` for each; an error is logged, and an `expect` in it may fire.
  unfoldable pub stop_proxies : List Proxy → Flow Action (Unit {0})
  stop_proxies [] = pure tt
  stop_proxies (p ∷ ps) =
      let rest = stop_proxies ps in do emit (stop_proxy p); unless_panic (x.proxy_shuts p); rest

  -- After the process is dead.
  unfoldable pub tear_down : Job → Flow Action (Unit {0})
  unfolding stop_proxies unmount delete_if
  tear_down job = do
    emit (close_control_socket job.control_socket)
    unless_panic x.socket_closes
    emit (stop_console_streamer job.job_id)
    unless_panic x.streamer_listens
    unless_panic x.streamer_joins
    stop_proxies job.ssh_rendezvous_proxies
    unmount job.root_fs_mountpoint
    delete_if delete_data job.zfs_root_fs
    emit (post msg.job_id (finished none))

  -- Up to the death of the process.
  abbrev ask_to_exit : Job → List Action
  ask_to_exit job =
      (if x.has_pid then signal_term job.nspawn_proc ∷ [] else [])
      ++ await_exit job.nspawn_proc job.environment_config.shutdown_timeout ∷ []

  -- Once the job has been taken out of `current_job`, around the loop `reaped`.
  unfoldable pub around : Job → Option (Flow Action (Unit {0})) → Option (Flow Action (Unit {0}))
  unfolding tear_down
  around job none = none
  around job (some reaped) =
      some (do
        emit (post msg.job_id (stopping none))
        emit_all (ask_to_exit job)
        reaped
        tear_down job)

  -- Once the process is dead, `control_socket.shutdown()` is awaited; `none` if that never ends.
  unfoldable pub unless_stuck : Option (Flow Action (Unit {0})) → Option (Flow Action (Unit {0}))
  unless_stuck none = none
  unless_stuck (some (t, value tt)) = if x.socket_returns then some (t, value tt) else none
  unless_stuck (some (t, returned)) = some (t, returned)
  unless_stuck (some (t, panicked)) = some (t, panicked)

  -- `none` if the call does not end, or the loop is out of fuel.
  unfoldable pub stop_taken : ℕ → Job → Option (Flow Action (Unit {0}))
  unfolding around unless_stuck
  stop_taken fuel job = around job (unless_stuck (reap fuel 0 job.nspawn_proc))

  stopped : Flow Action (Unit {0}) → Outcome
  stopped (t, value tt) = record { trace = t; current = none; panicked = false }
  stopped (t, returned) = record { trace = t; current = none; panicked = false }
  stopped (t, panicked) = record { trace = t; current = none; panicked = true }

  unfoldable pub stopped? : Option (Flow Action (Unit {0})) → Option Outcome
  unfolding stopped
  stopped? none = none
  stopped? (some m) = some (stopped m)

  unfoldable pub refused : Option Job → Outcome
  refused current = record {
    trace = post msg.job_id (failed (some not_running)) ∷ [];
    current = current;
    panicked = false;
  }

  unfoldable pub stop_job : ℕ → Option Job → Option Outcome
  unfolding stop_taken stopped? refused
  stop_job fuel none = some (refused none)
  stop_job fuel (some job) =
      if job.job_id == msg.job_id then stopped? (stop_taken fuel job) else some (refused (some job))
