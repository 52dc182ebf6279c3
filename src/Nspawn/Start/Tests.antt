-- ===== src/Nspawn/Start/Tests.antt =====
-- A board with one environment on a ZFS clone, and a job that starts on it.
use siplane.Base.{◌≡◌, refl, inl, true, none, some, [], ◌∷◌, format}
use siplane.Api.Coord.{StartJobMessage}
use siplane.Nspawn.Config.{v4, sock_v4, EnvironmentConfig, Config, Job, ssh_socket_addr}
use siplane.Nspawn.World.{World, exited}
use siplane.Nspawn.Zfs.{allocate_zfs_root, zfs_fs, mountpoint}
use siplane.Nspawn.Start.{
  start_job, check_idle, find_environment, allocate_root, open_socket, start_body, settle, launch,
  proxies_to, root_of, root_or_fail, spawn_container, announce, environment_or_fail,
  spawned_or_fail, control_socket_path,
}
use siplane.Nspawn.Start.Lifecycle.{control_socket_path_below_root}

abbrev pub world : World
world = record {
  show_uuid = λ n. "0123456789-";
  show_text = λ s. s;
  show_texts = λ ss. format ss;
  run = λ p args. exited true "0" "" "";
  create_dir = λ s. none;
  control_socket_opens = λ s. true;
  canonicalize = λ s. some s;
  spawned = λ args. inl 42;
  public_addr = λ p. none;
}

abbrev pub env : EnvironmentConfig
env = record {
  init = none;
  shutdown_timeout = 30;
  mount = [];
  device = [];
  zfsroot =
      some (record { clone_from = none; parent = "tank"; mount_base = "/run/x"; quota = none });
  control_socket_path = "/run/tml.sock";
  veth = [];
  ssh_port = some 22;
  ssh_preferred_ip_version = v4;
  ipv4_network =
      some (record { address = 10; prefix_length = 24; gateway = none; nameservers = [] });
  ipv6_network = none;
}

abbrev pub config : Config
config = record {
  coordinator_base_url = "http://c";
  board_id = 1;
  keepalive_timeout = 30;
  reconnect_wait = 5;
  environments = (3, env) ∷ [];
}

abbrev pub start_msg : StartJobMessage
start_msg = record {
  job_id = 7;
  environment_id = 3;
  ssh_keys = "key" ∷ [];
  ssh_rendezvous_servers =
      record { client_id = 9; server_base_url = "http://r"; auth_token = "t" } ∷ [];
  job_parameters = [];
  board_parameters = [];
  environment_parameters = [];
  board_environment_parameters = [];
}

abbrev pub job : Job
job = record {
  job_id = 7;
  environment_id = 3;
  environment_config = env;
  ssh_keys = "key" ∷ [];
  nspawn_proc = 42;
  control_socket = control_socket_path world config start_msg env "/run/x/0123456789-";
  ssh_rendezvous_proxies =
      record {
        client_id = 9;
        server_base_url = "http://r";
        target_addr = sock_v4 10 22;
        auth_token = "t";
        sse_keepalive_timeout = 60;
        sse_reconnect_wait = 10;
      }
      ∷ [];
  root_fs_mountpoint = some "/run/x/0123456789-";
  zfs_root_fs = some "tank/0123456789-";
}

pub starts : (start_job world config start_msg none).current ≡ some job
unfolding start_job start_body settle check_idle find_environment environment_or_fail allocate_root
    root_of root_or_fail allocate_zfs_root zfs_fs mountpoint launch open_socket proxies_to
    spawn_container spawned_or_fail announce ssh_socket_addr
starts = rw (control_socket_path_below_root world config start_msg env "/run/x/0123456789-") refl
