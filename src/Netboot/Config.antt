-- ===== src/Netboot/Config.antt =====
-- The configuration of netboot-runner/src/main.rs, the job that runs, and what the runner asks of its
-- surroundings with what they answer during one call.
use siplane.Base.{ℕ, String, Bool, Option, none, some, List, Dict}
use siplane.Api.Coord.{JobState}
use siplane.Nspawn.Config.{SocketAddr, sock_v4, sock_v6, Proxy}

-- `SSHPreferredIPVersion` of this runner
pub data SshPreference : Type 0 where
  unspecified v4 v6 : SshPreference

pub record SerialConsoleConfig : Type 0 where
  pub path : String
  pub baudrate : ℕ

pub record EnvironmentConfig : Type 0 where
  pub shutdown_timeout : ℕ
  pub target_address_v4 : Option ℕ
  pub target_address_v6 : Option ℕ
  pub ssh_port : Option ℕ
  pub ssh_preferred_ip_version : SshPreference
  pub init_script : Option String
  pub reset_script : Option String
  pub start_script : Option String
  pub stop_script : Option String
  pub tcp_control_socket_addr : SocketAddr
  pub serial_console : Option SerialConsoleConfig

pub record Config : Type 0 where
  pub coordinator_base_url : String
  pub board_id : ℕ
  pub keepalive_timeout : ℕ
  pub reconnect_wait : ℕ
  pub environments : Dict EnvironmentConfig

-- `NetbootRunnerJob`. The control socket is its address; `console_streamer` says whether there is one.
pub record Job : Type 0 where
  pub job_id : ℕ
  pub environment_id : ℕ
  pub environment_config : EnvironmentConfig
  pub ssh_keys : List String
  pub console_streamer : Bool
  pub control_socket : SocketAddr
  pub ssh_rendezvous_proxies : List Proxy

-- the `match` on port, preference and the two addresses, in the order of its arms
ssh_addr : Option ℕ → SshPreference → Option ℕ → Option ℕ → Option SocketAddr
ssh_addr none preferred a4 a6 = none
ssh_addr (some port) v4 (some a) a6 = some (sock_v4 a port)
ssh_addr (some port) v6 a4 (some a) = some (sock_v6 a port)
ssh_addr (some port) preferred (some a) a6 = some (sock_v4 a port)
ssh_addr (some port) preferred none (some a) = some (sock_v6 a port)
ssh_addr (some port) preferred none none = none

unfoldable pub ssh_socket_addr : EnvironmentConfig → Option SocketAddr
unfolding ssh_addr
ssh_socket_addr e =
    ssh_addr e.ssh_port e.ssh_preferred_ip_version e.target_address_v4 e.target_address_v6

pub data Action : Type 0 where
  -- `connector.post_job_state`
  post : (job_id : ℕ) → JobState → Action
  open_control_socket : (job_id : ℕ) → SocketAddr → Action
  start_proxy : Proxy → Action
  -- a script with the variable TML_JOB_ID, until it has ended
  run_script : (path : String) → (job_id : String) → Action
  open_serial_port : (path : String) → (baudrate : ℕ) → Action
  start_console_streamer : (job_id : ℕ) → Action
  close_control_socket : SocketAddr → Action
  stop_console_streamer : (job_id : ℕ) → Action
  stop_proxy : Proxy → Action

-- `show_uuid` is `Display` and `Debug` of a `Uuid`. A script runs, whatever its exit status, or
-- cannot be run.
pub record World : Type 0 where
  pub show_uuid : ℕ → String
  pub control_socket_opens : SocketAddr → Bool
  pub script_runs : String → Bool
  pub serial_opens : String → ℕ → Bool
  -- what `public_addr` gives within its timeout
  pub public_addr : Proxy → Option (String × ℕ)

-- the reports among the actions
abbrev pub report : Action → Option (ℕ × JobState)
report (post job_id s) = some (job_id, s)
report _ = none
