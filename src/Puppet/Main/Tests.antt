-- ===== src/Puppet/Main/Tests.antt =====
-- A puppet that asks for its keys over a Unix socket.
use siplane.Base.{true, none, some, [], ◌∷◌}
use siplane.Api.Puppet.{RunnerResp}
use siplane.Puppet.Client.System.{unix_seqpacket}
use siplane.Puppet.Main.{PuppetArgs, World}

abbrev pub world : World
world = record {
  printing = record { ipv4 = λ n. "1.1.1.1"; ipv6 = λ n. "::1"; prefix_length = λ n. "24" };
  connects = true;
  sends_request = λ r. true;
  response = λ r. RunnerResp.ssh_keys_resp ("key" ∷ []);
  creates_dirs = λ p. true;
  writes = λ p. true;
  spawns = λ p. true;
  sends_event = true;
  task_listens = true;
  task_joins = true;
}

abbrev pub args : PuppetArgs
args = record {
  transport = unix_seqpacket;
  unix_seqpacket_control_socket = some "/run/tml.sock";
  tcp_control_socket_addr = none;
  authorized_keys_file = some "/root/.ssh/authorized_keys";
  network_config_script = none;
}
