-- ===== src/ControlSocket/Unix.antt =====
-- unix-seqpacket-control-socket/src/lib.rs
use siplane.Base.{ℕ, String, Bool, Option, none, some, List, [], ◌∷◌, if◌then◌else◌}
use siplane.Api.Puppet.{
  NetworkConfig, PuppetReq, ping, ssh_keys, network_config, PuppetMsg, RunnerResp, RunnerMsg,
}
use siplane.ControlSocket.Defs.{
  Runner, Decoded, message, malformed, Sent, Command, shutdown, dropped, Place, accepting, serving,
  finished, panicked, Input, accept, accept_failed, command, received, recv_failed, Answer,
  is_broken,
}

-- `ControlSocketState` beside the place of the task. `client` keeps the last connection when the
-- inner loop is left.
pub record State : Type 0 where
  pub place : Place
  pub client : Option ℕ

abbrev unwrap_or_empty : Option (List String) → List String
unwrap_or_empty none = []
unwrap_or_empty (some keys) = keys

abbrev network_config_resp : Option NetworkConfig → RunnerResp
network_config_resp none = RunnerResp.job_not_found
network_config_resp (some nc) = RunnerResp.network_config nc

pub handle_request : PuppetReq → ℕ → Runner → RunnerResp
handle_request ping job_id runner = RunnerResp.ping_resp
handle_request ssh_keys job_id runner =
    RunnerResp.ssh_keys_resp (unwrap_or_empty (runner.ssh_keys job_id))
handle_request network_config job_id runner = network_config_resp (runner.network_config job_id)

-- `opt_resp`
unfoldable pub answer_to : Decoded → ℕ → Runner → Option RunnerMsg
unfolding handle_request
answer_to (message (PuppetMsg.request request_id request)) job_id runner =
    some (RunnerMsg.response request_id (handle_request request job_id runner))
answer_to (message (PuppetMsg.event puppet_event_id event)) job_id runner = none
answer_to (malformed e) job_id runner = some (RunnerMsg.error e)

unfoldable pub start : State
start = record { place = accepting; client = none }

-- After an answer: only a broken pipe leaves the inner loop.
after_send : Sent → ℕ → State → State
after_send sent c s = if is_broken sent then record s { place = accepting } else s

-- The body of the inner loop once bytes have come in.
serve : Option RunnerMsg → Sent → ℕ → State → State × List Answer
unfolding after_send
serve none sent c s = (s, [])
serve (some resp) sent c s = (after_send sent c s, (c, resp) ∷ [])

take_command : Command → State → State
take_command shutdown s = record s { place = finished }
take_command dropped s = record s { place = panicked }

module _ (decode : List ℕ → Decoded) (job_id : ℕ) (runner : Runner) where
  -- What one wake-up of the task's `select!` leads to, up to the next one; `none` where that
  -- `select!` does not wait for such an input.
  pub step_at : Place → State → Input → Option (State × List Answer)
  unfolding serve take_command answer_to
  step_at accepting s (accept c) = some (record s { place = serving c; client = some c }, [])
  step_at accepting s accept_failed = some (record s { place = panicked }, [])
  step_at accepting s (command cmd) = some (take_command cmd s, [])
  step_at (serving c) s (received bytes sent) =
      some (serve (answer_to (decode bytes) job_id runner) sent c s)
  step_at (serving c) s recv_failed = some (record s { place = panicked }, [])
  step_at (serving c) s (command cmd) = some (take_command cmd s, [])
  step_at _ s _ = none

  unfoldable pub step : State → Input → Option (State × List Answer)
  unfolding step_at
  step s i = step_at s.place s i

-- `UnixSeqpacketControlSocket::shutdown` from where the task is: the task takes the command and is
-- joined, and then the connection is shut down, if there is one. `closes` says whether that succeeds.
-- `none` is an error: no task is there to take the command, or the connection is not shut down.
shut_connection : Bool → Option ℕ → Option (Option ℕ)
shut_connection closes none = some none
shut_connection closes (some c) = if closes then some (some c) else none

shut_down_at : Bool → Place → Option ℕ → Option (Option ℕ)
unfolding shut_connection
shut_down_at closes finished client = none
shut_down_at closes panicked client = none
shut_down_at closes _ client = shut_connection closes client

unfoldable pub shut_down : Bool → State → Option (Option ℕ)
unfolding shut_down_at
shut_down closes s = shut_down_at closes s.place s.client
