-- ===== src/Netboot/Start.antt =====
-- `start_job` of the netboot runner, from taking the lock on `current_job` to letting it go.
pub mod Reporting
use siplane.Base.{
  String, Bool, true, false, Option, none, some, List, [], ◌∷◌, map, if◌then◌else◌, format, lookup,
}
use siplane.Base.Flow.{value, returned, panicked, Flow, pure, panic, emit, emit_all, ◌>>=◌, ◌>>◌}
use siplane.Api.Coord.{
  StartJobMessage, RendezvousServerSpec, starting, ready, failed, booting, JobSessionConnectionInfo,
  rendezvous_ssh,
}
use siplane.Nspawn.Config.{SocketAddr, Proxy}
use siplane.Netboot.Config.{
  SerialConsoleConfig, EnvironmentConfig, Config, Job, World, Action, post, open_control_socket,
  start_proxy, run_script, open_serial_port, start_console_streamer, ssh_socket_addr,
}

-- What a call leaves: its actions, `current_job`, and whether it panicked.
pub record Outcome : Type 0 where
  pub trace : List Action
  pub current : Option Job
  pub panicked : Bool

module _ (w : World) (cfg : Config) (msg : StartJobMessage) where
  abbrev fail {ℓ} : {A : Type ℓ} → List String → Flow Action A
  fail why = (
    post msg.job_id (
          failed (
            some (
              format (
                "Cannot start job "
                ∷ w.show_uuid msg.job_id
                ∷ " on board "
                ∷ w.show_uuid cfg.board_id
                ∷ ", "
                ∷ why))))
        ∷ [],
    returned,
  )

  check_idle : Option Job → Flow Action (Unit {0})
  check_idle none = pure tt
  check_idle (some running) = fail ("still executing job " ∷ w.show_uuid running.job_id ∷ [])

  find_environment : Flow Action EnvironmentConfig
  find_environment = elim (lookup msg.environment_id cfg.environments) [
    | none ↦ fail ("unknown environment " ∷ w.show_uuid msg.environment_id ∷ [])
    | some env ↦ pure env
  ]

  -- the new control socket and its `unwrap`
  open_socket : SocketAddr → Flow Action (Unit {0})
  open_socket addr = do
    emit (open_control_socket msg.job_id addr)
    if w.control_socket_opens addr then pure tt else panic

  abbrev proxy_to : SocketAddr → RendezvousServerSpec → Proxy
  proxy_to sa spec = record {
    client_id = spec.client_id;
    server_base_url = spec.server_base_url;
    target_addr = sa;
    auth_token = spec.auth_token;
    sse_keepalive_timeout = 60;
    sse_reconnect_wait = 10;
  }

  unfoldable pub proxies_to : Option SocketAddr → List Proxy
  proxies_to none = []
  proxies_to (some sa) = map (proxy_to sa) msg.ssh_rendezvous_servers

  -- the init script and the start script alike: without one it is skipped, the `expect` fires
  -- if it cannot be run, and how it exits does not matter
  script : Option String → Flow Action (Unit {0})
  script none = pure tt
  script (some path) = do
    emit (run_script path (w.show_uuid msg.job_id))
    if w.script_runs path then pure tt else panic

  -- Whether there is a console streamer: only if a port is configured and opens.
  console_actions : Option SerialConsoleConfig → List Action
  console_actions none = []
  console_actions (some console) =
      open_serial_port console.path console.baudrate
      ∷ (if w.serial_opens console.path console.baudrate
          then start_console_streamer msg.job_id ∷ []
          else [])

  has_console : Option SerialConsoleConfig → Bool
  has_console none = false
  has_console (some console) = w.serial_opens console.path console.baudrate

  -- `rendezvous_proxy_addrs`: those whose server has answered within the timeout
  public_addrs : List Proxy → List JobSessionConnectionInfo
  public_addrs [] = []
  public_addrs (p ∷ ps) =
      let rest = public_addrs ps in
      elim (w.public_addr p) [
        | none ↦ rest
        | some (hostname, port) ↦ rendezvous_ssh hostname port [] ∷ rest
      ]

  abbrev new_job : EnvironmentConfig → List Proxy → Job
  new_job env proxies = record {
    job_id = msg.job_id;
    environment_id = msg.environment_id;
    environment_config = env;
    ssh_keys = msg.ssh_keys;
    console_streamer = has_console env.serial_console;
    control_socket = env.tcp_control_socket_addr;
    ssh_rendezvous_proxies = proxies;
  }

  -- From the scripts on.
  announce : EnvironmentConfig → List Proxy → Flow Action Job
  unfolding console_actions has_console public_addrs
  announce env proxies = do
    emit (post msg.job_id (starting booting none))
    emit_all (console_actions env.serial_console)
    emit (post msg.job_id (ready (public_addrs proxies) none))
    pure (new_job env proxies)

  start_body : Option Job → Flow Action Job
  unfolding check_idle find_environment open_socket script announce
  start_body current = do
    check_idle current
    env ← find_environment
    open_socket env.tcp_control_socket_addr
    let proxies = proxies_to (ssh_socket_addr env)
    emit_all (map start_proxy proxies)
    script env.init_script
    script env.start_script
    announce env proxies

  settle : Option Job → Flow Action Job → Outcome
  settle current (t, value job) = record { trace = t; current = some job; panicked = false }
  settle current (t, returned) = record { trace = t; current = current; panicked = false }
  settle current (t, panicked) = record { trace = t; current = current; panicked = true }

  unfoldable pub start_job : Option Job → Outcome
  unfolding start_body settle
  start_job current = settle current (start_body current)
