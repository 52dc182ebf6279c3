-- ===== src/ControlSocket/Tcp.antt =====
-- tcp-control-socket/src/lib.rs
use siplane.Base.{ℕ, String, Option, none, some, List, [], ◌∷◌, if◌then◌else◌}
use siplane.Api.Puppet.{
  NetworkConfig, PuppetReq, ping, ssh_keys, network_config, PuppetMsg, RunnerResp, RunnerMsg,
}
use siplane.ControlSocket.Defs.{
  Runner, Decoded, message, malformed, Sent, Command, shutdown, dropped, Place, accepting, serving,
  finished, panicked, Input, accept, accept_failed, command, received, recv_failed, end_of_stream,
  Answer, is_broken,
}

abbrev unwrap_or_empty : Option (List String) → List String
unwrap_or_empty none = []
unwrap_or_empty (some keys) = keys

abbrev network_config_resp : Option NetworkConfig → RunnerResp
network_config_resp (some nc) = RunnerResp.network_config nc
network_config_resp none = RunnerResp.job_not_found

pub handle_request : PuppetReq → ℕ → Runner → RunnerResp
handle_request ping job_id runner = RunnerResp.ping_resp
handle_request ssh_keys job_id runner =
    RunnerResp.ssh_keys_resp (unwrap_or_empty (runner.ssh_keys job_id))
handle_request network_config job_id runner = network_config_resp (runner.network_config job_id)

-- `opt_resp`
unfoldable pub answer_to : Decoded → ℕ → Runner → Option RunnerMsg
unfolding handle_request
answer_to (message (PuppetMsg.request request_id request)) job_id runner =
    some (RunnerMsg.response request_id (handle_request request job_id runner))
answer_to (message (PuppetMsg.event puppet_event_id event)) job_id runner = none
answer_to (malformed e) job_id runner = some (RunnerMsg.error e)

-- The state is the place: the transport is a local of the inner loop.
unfoldable pub start : Place
start = accepting

-- The body of the inner loop once bytes have come in.
serve : Option RunnerMsg → Sent → ℕ → Place × List Answer
serve none sent c = (serving c, [])
serve (some resp) sent c = (if is_broken sent then accepting else serving c, (c, resp) ∷ [])

take_command : Command → Place
take_command shutdown = finished
take_command dropped = panicked

module _ (decode : List ℕ → Decoded) (job_id : ℕ) (runner : Runner) where
  -- What one wake-up of the task's `select!` leads to, up to the next one; `none` where that
  -- `select!` does not wait for such an input.
  unfoldable pub step : Place → Input → Option (Place × List Answer)
  unfolding serve take_command answer_to
  step accepting (accept c) = some (serving c, [])
  step accepting accept_failed = some (panicked, [])
  step accepting (command cmd) = some (take_command cmd, [])
  step (serving c) (received bytes sent) =
      some (serve (answer_to (decode bytes) job_id runner) sent c)
  step (serving c) recv_failed = some (panicked, [])
  step (serving c) end_of_stream = some (panicked, [])
  step (serving c) (command cmd) = some (take_command cmd, [])
  step _ _ = none

-- `TcpControlSocket::shutdown` from where the task is: `none` is its error, that no task is there
-- to take the command.
unfoldable pub shut_down : Place → Option (Unit {0})
shut_down finished = none
shut_down panicked = none
shut_down _ = some tt
