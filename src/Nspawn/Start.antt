-- ===== src/Nspawn/Start.antt =====
-- `start_job` of the nspawn runner, from taking the lock on `current_job` to letting it go. What Rust
-- drops at an early end, as the control socket, is no action.
pub mod Lifecycle
pub mod Acquires
pub mod Tests
use siplane.Base.{
  ℕ, String, ◌⊎◌, inl, inr, Bool, true, false, Option, none, some, List, [], ◌∷◌, map,
  if◌then◌else◌, format, lookup,
}
use siplane.Base.Flow.{value, returned, panicked, Flow, pure, panic, emit, emit_all, ◌>>=◌, ◌>>◌}
use siplane.Base.FilePath.{join, starts_with, unrooted}
use siplane.Api.Coord.{
  StartJobMessage, RendezvousServerSpec, starting, ready, allocating, booting,
  JobSessionConnectionInfo, rendezvous_ssh,
}
use siplane.Nspawn.Config.{
  ZfsRootConfig, EnvironmentConfig, Config, SocketAddr, Proxy, Job, ssh_socket_addr,
}
use siplane.Nspawn.World.{
  World, Action, post, open_control_socket, start_proxy, spawn, start_console_streamer, fail,
}
use siplane.Nspawn.Zfs.{allocate_zfs_root}
use siplane.Nspawn.Args.{run_args}

-- What a handler did: the actions in their order, `current_job` after it, and whether it panicked.
pub record Outcome : Type 0 where
  pub trace : List Action
  pub current : Option Job
  pub panicked : Bool

module _ (w : World) (cfg : Config) (msg : StartJobMessage) where
  abbrev cannot_start : List String → String
  cannot_start why = format (
      "Cannot start job "
      ∷ w.show_uuid msg.job_id
      ∷ " on board "
      ∷ w.show_uuid cfg.board_id
      ∷ ", "
      ∷ why)

  check_idle : Option Job → Flow Action (Unit {0})
  check_idle none = pure tt
  check_idle (some running) =
      fail msg.job_id (cannot_start ("still executing job " ∷ w.show_uuid running.job_id ∷ []))

  environment_or_fail : Option EnvironmentConfig → Flow Action EnvironmentConfig
  environment_or_fail (some env) = pure env
  environment_or_fail none =
      fail msg.job_id (cannot_start ("unknown environment " ∷ w.show_uuid msg.environment_id ∷ []))

  find_environment : Flow Action EnvironmentConfig
  unfolding environment_or_fail
  find_environment = environment_or_fail (lookup msg.environment_id cfg.environments)

  -- `root_fs_res` and the `match` on it
  unfoldable pub root_or_fail : String ⊎ (String × String) → Flow Action (String × Option String)
  root_or_fail (inr (at, fs)) = pure (at, some fs)
  root_or_fail (inl e) = fail msg.job_id e

  unfoldable pub root_of : Option ZfsRootConfig → Flow Action (String ⊎ (String × String))
  root_of (some zfs) = allocate_zfs_root w msg.job_id zfs
  root_of none = pure (inl (cannot_start ("no root filesystem provider found." ∷ [])))

  allocate_root : EnvironmentConfig → Flow Action (String × Option String)
  unfolding root_or_fail root_of
  allocate_root env = do root_or_fail (← root_of env.zfsroot)

  abbrev pub control_socket_path : EnvironmentConfig → String → String
  control_socket_path env at = join at (unrooted env.control_socket_path)

  -- The `assert!` on the path, and the `unwrap` of the new control socket.
  open_socket : String → String → Flow Action String
  open_socket at path =
      if starts_with path at
      then (do
        emit (open_control_socket msg.job_id path)
        if w.control_socket_opens path then pure path else panic)
      else panic

  abbrev proxy_to : SocketAddr → RendezvousServerSpec → Proxy
  proxy_to sa spec = record {
    client_id = spec.client_id;
    server_base_url = spec.server_base_url;
    target_addr = sa;
    auth_token = spec.auth_token;
    sse_keepalive_timeout = 60;
    sse_reconnect_wait = 10;
  }

  proxies_to : Option SocketAddr → List Proxy
  proxies_to none = []
  proxies_to (some sa) = map (proxy_to sa) msg.ssh_rendezvous_servers

  spawned_or_fail : ℕ ⊎ String → Flow Action ℕ
  spawned_or_fail (inl pid) = pure pid
  spawned_or_fail (inr e) = fail msg.job_id (format ("Failed to spawn container: " ∷ e ∷ []))

  spawn_container : List String → Flow Action ℕ
  unfolding spawned_or_fail
  spawn_container args = do emit (spawn args); spawned_or_fail (w.spawned args)

  -- `rendezvous_proxy_addrs`: those whose server has answered within the timeout
  public_addrs : List Proxy → List JobSessionConnectionInfo
  public_addrs [] = []
  public_addrs (p ∷ ps) =
      let rest = public_addrs ps in
      elim (w.public_addr p) [
        | none ↦ rest
        | some (hostname, port) ↦ rendezvous_ssh hostname port [] ∷ rest
      ]

  -- From the spawned container on: its console, the addresses, and the job.
  announce : EnvironmentConfig → String × Option String → String → List Proxy → ℕ → Flow Action Job
  unfolding public_addrs
  announce env (at, zfs_root_fs) path proxies pid = do
    emit (start_console_streamer msg.job_id)
    emit (post msg.job_id (ready (public_addrs proxies) none))
    pure (record {
      job_id = msg.job_id;
      environment_id = msg.environment_id;
      environment_config = env;
      ssh_keys = msg.ssh_keys;
      nspawn_proc = pid;
      control_socket = path;
      ssh_rendezvous_proxies = proxies;
      root_fs_mountpoint = some at;
      zfs_root_fs = zfs_root_fs;
    })

  -- From the root file system on: control socket, proxies, container.
  launch : EnvironmentConfig → String × Option String → Flow Action Job
  unfolding open_socket proxies_to spawn_container announce
  launch env (at, zfs_root_fs) = do
    path ← open_socket at (control_socket_path env at)
    let proxies = proxies_to (ssh_socket_addr env)
    emit_all (map start_proxy proxies)
    emit (post msg.job_id (starting booting none))
    pid ← spawn_container (run_args w env at)
    announce env (at, zfs_root_fs) path proxies pid

  start_body : Option Job → Flow Action Job
  unfolding check_idle find_environment allocate_root launch
  start_body current = do
    check_idle current
    env ← find_environment
    emit (post msg.job_id (starting allocating none))
    root ← allocate_root env
    launch env root

  settle : Option Job → Flow Action Job → Outcome
  settle current (t, value job) = record { trace = t; current = some job; panicked = false }
  settle current (t, returned) = record { trace = t; current = current; panicked = false }
  settle current (t, panicked) = record { trace = t; current = current; panicked = true }

  unfoldable pub start_job : Option Job → Outcome
  unfolding start_body settle
  start_job current = settle current (start_body current)
