-- ===== src/Netboot/Query.antt =====
-- What the netboot runner tells a control socket: `control_socket::Runner for NetbootRunner`.
use siplane.Base.{ℕ, String, Option, none, some, List, [], ◌∷◌, ◌==◌, if◌then◌else◌, format}
use Prim.Native.String.{slice}
use siplane.Api.Puppet.{NetworkConfig}
use siplane.ControlSocket.{Runner}
use siplane.Netboot.Config.{Job, World}

abbrev ssh_keys : Option Job → ℕ → Option (List String)
ssh_keys none tgt_job_id = none
ssh_keys (some job) tgt_job_id = if job.job_id == tgt_job_id then some job.ssh_keys else none

-- A printed `Uuid` has 36 characters, all ASCII, so the split at 10 does not panic.
abbrev pub bare_config : World → Job → NetworkConfig
bare_config w job = record {
  hostname = format ("job-" ∷ slice (w.show_uuid job.job_id) 0 10 ∷ []);
  interface = none;
  ipv4 = none;
  ipv6 = none;
}

abbrev network_config : World → Option Job → ℕ → Option NetworkConfig
network_config w none tgt_job_id = none
network_config w (some job) tgt_job_id =
    if job.job_id == tgt_job_id then some (bare_config w job) else none

-- The runner as its control socket sees it while `current_job` is `current`.
unfoldable pub runner : World → Option Job → Runner
runner w current = record { ssh_keys = ssh_keys current; network_config = network_config w current }
