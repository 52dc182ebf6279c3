-- ===== src/Netboot/Stop.antt =====
-- `stop_job` of the netboot runner, from taking the lock on `current_job` to its last report.
pub mod Reporting
use siplane.Base.{
  ℕ, Bool, true, false, not, Option, none, some, List, [], ◌∷◌, ◌==◌, if◌then◌else◌, format,
}
use siplane.Base.Flow.{value, returned, panicked, Flow, pure, panic, emit, ◌>>◌}
use siplane.Api.Coord.{StopJobMessage, stopping, finished, failed}
use siplane.Nspawn.Config.{Proxy}
use siplane.Netboot.Config.{
  Config, Job, World, Action, post, close_control_socket, stop_console_streamer, stop_proxy,
}
use siplane.Netboot.Start.{Outcome}

-- What the job's own tasks answer: whether the control socket's `shutdown` succeeds, whether the
-- console streamer takes its command and its task can be joined, and whether `shutdown` of a proxy
-- comes to its end without a panic. The calls are taken to return; that of the control socket waits for
-- ever if its task waits for the lock on `current_job`, which `stop_job` holds.
pub record Ending : Type 0 where
  pub socket_closes : Bool
  pub streamer_listens : Bool
  pub streamer_joins : Bool
  pub proxy_shuts : Proxy → Bool

module _ (w : World) (cfg : Config) (x : Ending) (msg : StopJobMessage) where
  unless_panic : Bool → Flow Action (Unit {0})
  unless_panic true = pure tt
  unless_panic false = panic

  -- `proxy.shutdown()` for each; an error is logged, and an `expect` in it may fire.
  stop_proxies : List Proxy → Flow Action (Unit {0})
  unfolding unless_panic
  stop_proxies [] = pure tt
  stop_proxies (p ∷ ps) =
      let rest = stop_proxies ps in do emit (stop_proxy p); unless_panic (x.proxy_shuts p); rest

  -- `if let Some((task_handle, cmd_chan)) = job.console_streamer`: the proxies are stopped in here.
  stop_console : Bool → ℕ → List Proxy → Flow Action (Unit {0})
  unfolding unless_panic stop_proxies
  stop_console false job_id proxies = pure tt
  stop_console true job_id proxies = do
    emit (stop_console_streamer job_id)
    unless_panic x.streamer_listens
    unless_panic x.streamer_joins
    stop_proxies proxies

  -- Once the job has been taken out of `current_job`.
  tear_down : Job → Flow Action (Unit {0})
  unfolding unless_panic stop_console
  tear_down job = do
    emit (post msg.job_id (stopping none))
    emit (close_control_socket job.control_socket)
    unless_panic x.socket_closes
    stop_console job.console_streamer job.job_id job.ssh_rendezvous_proxies
    emit (post msg.job_id (finished none))

  stopped : Flow Action (Unit {0}) → Outcome
  stopped (t, value u) = record { trace = t; current = none; panicked = false }
  stopped (t, returned) = record { trace = t; current = none; panicked = false }
  stopped (t, panicked) = record { trace = t; current = none; panicked = true }

  unfoldable pub refused : Option Job → Outcome
  refused current = record {
    trace =
        post msg.job_id (
          failed (
            some (
              format (
                "Cannot stop job "
                ∷ w.show_uuid msg.job_id
                ∷ " on board "
                ∷ w.show_uuid cfg.board_id
                ∷ ", not running!"
                ∷ []))))
        ∷ [];
    current = current;
    panicked = false;
  }

  unfoldable pub stop_job : Option Job → Outcome
  unfolding tear_down stopped refused
  stop_job none = refused none
  stop_job (some job) =
      if job.job_id == msg.job_id then stopped (tear_down job) else refused (some job)
