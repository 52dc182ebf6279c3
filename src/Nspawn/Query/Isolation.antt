-- ===== src/Nspawn/Query/Isolation.antt =====
-- A control socket and the runner together: whose data a container can get.
use siplane.Base.{ℕ, String, ◌≡◌, Option, none, some, List, [], arith, ◌==◌, if◌then◌else◌}
use siplane.Api.Puppet.{PuppetReq, PuppetMsg, RunnerResp, RunnerMsg}
use siplane.ControlSocket.{message}
use siplane.ControlSocket.Unix
use siplane.Nspawn.Config.{Job}
use siplane.Nspawn.World.{World}
use siplane.Nspawn.Query.{config_of, runner}

-- The job that the control socket of job `id` speaks for, if it is the one that runs.
abbrev pub own_job : ℕ → Option Job → Option Job
own_job id none = none
own_job id (some job) = if job.job_id == id then some job else none

abbrev pub keys_of : Option Job → List String
keys_of none = []
keys_of (some job) = job.ssh_keys

abbrev pub config_resp : World → Option Job → RunnerResp
config_resp w none = RunnerResp.job_not_found
config_resp w (some job) = RunnerResp.network_config (config_of w job)

-- The control socket of job `id` answers each request of its container from the data of job `id`
-- alone: while another job runs, or none, it gives no key and says that there is no such job.
pub answers_own_job :
    (w : World) (current : Option Job) (id request_id : ℕ)
    → (Unix.answer_to
          (message (PuppetMsg.request request_id PuppetReq.ssh_keys))
          id
          (runner w current)
        ≡ some (
            RunnerMsg.response request_id
              (RunnerResp.ssh_keys_resp (keys_of (own_job id current)))))
      × (Unix.answer_to
            (message (PuppetMsg.request request_id PuppetReq.network_config))
            id
            (runner w current)
          ≡ some (RunnerMsg.response request_id (config_resp w (own_job id current))))
unfolding Unix.answer_to runner
answers_own_job w current id request_id = (ground arith, ground arith)
