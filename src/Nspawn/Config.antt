-- ===== src/Nspawn/Config.antt =====
-- The configuration of nspawn-runner/src/main.rs, the job that runs, and the address for SSH.
pub mod Address
use siplane.Base.{ℕ, String, Bool, Option, none, some, List, Dict}

pub record ZfsRootConfig : Type 0 where
  pub clone_from : Option String
  pub parent : String
  pub mount_base : String
  pub quota : Option String

pub record MountConfig : Type 0 where
  pub src : String
  pub dst : String
  pub readonly : Bool

pub data AddMount : Type 0 where
  no_mount read_write read_only : AddMount

pub record DeviceConfig : Type 0 where
  pub device_node : String
  pub resolve_symlink : Bool
  pub add_mount : AddMount
  pub read : Bool
  pub write : Bool
  pub create : Bool

pub record VethConfig : Type 0 where
  pub ifname_host : String
  pub ifname_container : String

pub record Ipv4NetworkConfig : Type 0 where
  pub address : ℕ
  pub prefix_length : ℕ
  pub gateway : Option ℕ
  pub nameservers : List ℕ

pub record Ipv6NetworkConfig : Type 0 where
  pub address : ℕ
  pub prefix_length : ℕ
  pub gateway : Option ℕ
  pub nameservers : List ℕ

pub data SshPreferredIpVersion : Type 0 where
  unspecified v4 v6 : SshPreferredIpVersion

pub record EnvironmentConfig : Type 0 where
  pub init : Option String
  pub shutdown_timeout : ℕ
  pub mount : List MountConfig
  pub device : List DeviceConfig
  pub zfsroot : Option ZfsRootConfig
  pub control_socket_path : String
  pub veth : List VethConfig
  pub ssh_port : Option ℕ
  pub ssh_preferred_ip_version : SshPreferredIpVersion
  pub ipv4_network : Option Ipv4NetworkConfig
  pub ipv6_network : Option Ipv6NetworkConfig

pub record Config : Type 0 where
  pub coordinator_base_url : String
  pub board_id : ℕ
  pub keepalive_timeout : ℕ
  pub reconnect_wait : ℕ
  pub environments : Dict EnvironmentConfig

-- `SocketAddr`, address and port
pub data SocketAddr : Type 0 where
  sock_v4 sock_v6 : ℕ → ℕ → SocketAddr

-- The arguments of `RendezvousProxy::start`, which stand for the proxy that it starts.
pub record Proxy : Type 0 where
  pub client_id : ℕ
  pub server_base_url : String
  pub target_addr : SocketAddr
  pub auth_token : String
  pub sse_keepalive_timeout : ℕ
  pub sse_reconnect_wait : ℕ

-- `NspawnRunnerJob`. The process is its number, the control socket its path; the console streamer
-- is the task of this very job.
pub record Job : Type 0 where
  pub job_id : ℕ
  pub environment_id : ℕ
  pub environment_config : EnvironmentConfig
  pub ssh_keys : List String
  pub nspawn_proc : ℕ
  pub control_socket : String
  pub ssh_rendezvous_proxies : List Proxy
  pub root_fs_mountpoint : Option String
  pub zfs_root_fs : Option String

-- the `match` on port, preference and the two networks, in the order of its arms
ssh_addr :
    Option ℕ
    → SshPreferredIpVersion
    → Option Ipv4NetworkConfig
    → Option Ipv6NetworkConfig
    → Option SocketAddr
ssh_addr none preferred n4 n6 = none
ssh_addr (some port) v4 (some n4) n6 = some (sock_v4 n4.address port)
ssh_addr (some port) v6 n4 (some n6) = some (sock_v6 n6.address port)
ssh_addr (some port) preferred (some n4) n6 = some (sock_v4 n4.address port)
ssh_addr (some port) preferred none (some n6) = some (sock_v6 n6.address port)
ssh_addr (some port) preferred none none = none

unfoldable pub ssh_socket_addr : EnvironmentConfig → Option SocketAddr
unfolding ssh_addr
ssh_socket_addr e = ssh_addr e.ssh_port e.ssh_preferred_ip_version e.ipv4_network e.ipv6_network
