-- ===== src/Nspawn/Query.antt =====
-- What the nspawn runner tells a control socket: `control_socket::Runner for NspawnRunner`.
pub mod Isolation
use siplane.Base.{ℕ, String, Option, none, some, List, [], ◌∷◌, ◌==◌, if◌then◌else◌, format}
use Prim.Native.String.{slice}
use siplane.Api.Puppet
use siplane.ControlSocket.{Runner}
use siplane.Nspawn.Config.{Ipv4NetworkConfig, Ipv6NetworkConfig, Job}
use siplane.Nspawn.World.{World}

ssh_keys : Option Job → ℕ → Option (List String)
ssh_keys none tgt_job_id = none
ssh_keys (some job) tgt_job_id = if job.job_id == tgt_job_id then some job.ssh_keys else none

abbrev ipv4_of : Option Ipv4NetworkConfig → Option Puppet.Ipv4NetworkConfig
ipv4_of none = none
ipv4_of (some n) = some (record {
  address = n.address;
  prefix_length = n.prefix_length;
  gateway = n.gateway;
  nameservers = n.nameservers;
})

abbrev ipv6_of : Option Ipv6NetworkConfig → Option Puppet.Ipv6NetworkConfig
ipv6_of none = none
ipv6_of (some n) = some (record {
  address = n.address;
  prefix_length = n.prefix_length;
  gateway = n.gateway;
  nameservers = n.nameservers;
})

-- A printed `Uuid` has 36 characters, all ASCII, so the split at 10 does not panic.
abbrev pub hostname : World → ℕ → String
hostname w job_id = format ("job-" ∷ slice (w.show_uuid job_id) 0 10 ∷ [])

pub config_of : World → Job → Puppet.NetworkConfig
config_of w job = record {
  hostname = hostname w job.job_id;
  interface = some "host0";
  ipv4 = ipv4_of job.environment_config.ipv4_network;
  ipv6 = ipv6_of job.environment_config.ipv6_network;
}

network_config : World → Option Job → ℕ → Option Puppet.NetworkConfig
network_config w none tgt_job_id = none
network_config w (some job) tgt_job_id =
    if job.job_id == tgt_job_id then some (config_of w job) else none

-- The runner as its control sockets see it while `current_job` is `current`.
unfoldable pub runner : World → Option Job → Runner
unfolding ssh_keys network_config
runner w current = record { ssh_keys = ssh_keys current; network_config = network_config w current }
