-- ===== src/Puppet/Main.antt =====
-- `main` of puppet/src/main.rs: what the puppet does in its container, from its start to its end.
pub mod Ready
pub mod Written
pub mod Tests
use siplane.Base.{ℕ, String, Bool, true, false, Option, none, some, List, [], ◌∷◌, if◌then◌else◌}
use siplane.Base.Flow.{Flow, pure, leave, panic, emit, emit_all, ◌>>=◌, ◌>>◌}
use Prim.Native.Char.{Char}
use siplane.Base.FilePath.{has_parent}
use siplane.Base.Split.{join}
use siplane.Api.Puppet.{PuppetReq, PuppetEvent, RunnerResp, NetworkConfig}
use siplane.Puppet.Client.{ssh_keys_of, network_config_of}
use siplane.Puppet.Client.System.{Transport, unix_seqpacket, tcp}
use siplane.Puppet.Network.{Printing, script_env}

-- An address of a TCP socket is a number: it is only passed on.
pub record PuppetArgs : Type 0 where
  pub transport : Transport
  pub unix_seqpacket_control_socket : Option String
  pub tcp_control_socket_addr : Option ℕ
  pub authorized_keys_file : Option String
  pub network_config_script : Option String

pub data Action : Type 0 where
  connect_unix : (path : String) → Action
  connect_tcp : (addr : ℕ) → Action
  request : PuppetReq → Action
  -- `create_dir_all` of the parent of the path
  create_parent_dirs : (path : String) → Action
  write_file : (path : String) → (contents : String) → Action
  -- the start of the script with what is added to its environment, and the wait for its end
  spawn_script : (path : String) → List (String × String) → Action
  await_script : (path : String) → Action
  send_event : PuppetEvent → Action
  await_signal shut_down : Action

-- What the surroundings answer. A request is answered by the response that its call returns. Whether
-- the wait for a script gives a status or an error, and which status, is only logged.
pub record World : Type 0 where
  pub printing : Printing
  pub connects : Bool
  pub sends_request : PuppetReq → Bool
  pub response : PuppetReq → RunnerResp
  pub creates_dirs : String → Bool
  pub writes : String → Bool
  pub spawns : String → Bool
  pub sends_event : Bool
  pub task_listens : Bool
  pub task_joins : Bool

abbrev pub newline : Char
newline = "\n"

module _ (w : World) (args : PuppetArgs) where
  unless_panic : Bool → Flow Action (Unit {0})
  unless_panic true = pure tt
  unless_panic false = panic

  or_panic {ℓ} : {A : Type ℓ} → Option A → Flow Action A
  or_panic none = panic
  or_panic (some a) = pure a

  -- `new` of a client and the `?` on it
  connected : Action → Flow Action (Unit {0})
  connected how = do emit how; if w.connects then pure tt else leave

  connect : Transport → Flow Action (Unit {0})
  unfolding or_panic connected
  connect unix_seqpacket = do
    path ← or_panic args.unix_seqpacket_control_socket
    connected (connect_unix path)
  connect tcp = do addr ← or_panic args.tcp_control_socket_addr; connected (connect_tcp addr)

  ask : PuppetReq → Flow Action RunnerResp
  ask req = do emit (request req); if w.sends_request req then pure (w.response req) else panic

  get_ssh_keys : Flow Action (List String)
  unfolding ask or_panic
  get_ssh_keys = do or_panic (ssh_keys_of (← ask PuppetReq.ssh_keys))

  get_network_config : Flow Action NetworkConfig
  unfolding ask or_panic
  get_network_config = do or_panic (network_config_of (← ask PuppetReq.network_config))

  pub write_keys : Option String → Flow Action (Unit {0})
  unfolding unless_panic get_ssh_keys
  write_keys none = pure tt
  write_keys (some path) = do
    keys ← get_ssh_keys
    unless_panic (has_parent path)
    emit (create_parent_dirs path)
    unless_panic (w.creates_dirs path)
    emit (write_file path (join newline keys))
    unless_panic (w.writes path)

  configure_network : Option String → Flow Action (Unit {0})
  unfolding get_network_config
  configure_network none = pure tt
  configure_network (some script) = do
    nc ← get_network_config
    emit (spawn_script script (script_env w.printing nc))
    emit_all (if w.spawns script then await_script script ∷ [] else [])

  report_ready : Flow Action (Unit {0})
  unfolding unless_panic
  report_ready = do emit (send_event PuppetEvent.ready); unless_panic w.sends_event

  shutdown : Flow Action (Unit {0})
  unfolding unless_panic
  shutdown = do emit shut_down; unless_panic w.task_listens; unless_panic w.task_joins

  pub main : Flow Action (Unit {0})
  unfolding connect write_keys configure_network report_ready shutdown
  main = do
    connect args.transport
    write_keys args.authorized_keys_file
    configure_network args.network_config_script
    report_ready
    emit await_signal
    shutdown
