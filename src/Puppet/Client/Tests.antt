-- ===== src/Puppet/Client/Tests.antt =====
-- A run with a request whose response comes in while its call waits.
use siplane.Base.{ℕ, ◌-◌, ◌≡◌, refl, ◌≢◌, ◌↔◌, true, none, some, List, [], ◌∷◌, lookup, erase}
use siplane.Api.Puppet.{RunnerResp, RunnerMsg, PuppetReq, PuppetMsg}
use siplane.Puppet.Client.{u64_mod, begin_request, missing, done, poll, poll_entry, handle_message}
use siplane.Puppet.Client.System.{
  unix_seqpacket, looking, parked, wake_all, System, init, Label, began, delivered, completed,
  other, hand_over, deliver, Step, begin, send, park, complete, receive, Reach, here, next,
}
use siplane.Puppet.Client.Invariant.{last_response}
use siplane.Puppet.Client.Delivery.{
  bookkeeping_panics_only_on_overflow, completed_with_own_response, no_lost_wakeup,
  response_wakes_its_call,
}

abbrev req : PuppetReq
req = PuppetReq.ssh_keys

abbrev resp : RunnerResp
resp = RunnerResp.ssh_keys_resp ("key" ∷ [])

-- a call that waits for its response
abbrev waiting : System
waiting = record {
  client = record { counter = 1; responses = (0, none) ∷ [] };
  event_count = 0;
  calls = (0, parked) ∷ [];
  channel = [];
  wire = PuppetMsg.request 0 req ∷ [];
  task_runs = true;
}

abbrev waiting_run : List Label
waiting_run = other ∷ other ∷ began 0 req ∷ []

waiting-Reach : Reach unix_seqpacket waiting_run waiting
unfolding init begin_request hand_over poll poll_entry
waiting-Reach = next (next (next here (begin req refl)) (send 0 refl refl)) (park 0 refl refl)

-- the response is there, and the call awake
abbrev answered : System
answered = record waiting {
  client = record { counter = 1; responses = (0, some resp) ∷ [] };
  calls = (0, looking) ∷ [];
}

abbrev answered_run : List Label
answered_run = delivered (RunnerMsg.response 0 resp) ∷ waiting_run

answered-Reach : Reach unix_seqpacket answered_run answered
unfolding deliver handle_message wake_all
answered-Reach = next waiting-Reach (receive (RunnerMsg.response 0 resp) refl)

bookkeeping_panics_only_on_overflow_example :
    ((begin_request answered.client ≡ none) ↔ (1 ≡ u64_mod - 1))
    × ((id : ℕ) → lookup id answered.calls ≡ some looking → poll id answered.client ≢ missing)
bookkeeping_panics_only_on_overflow_example = bookkeeping_panics_only_on_overflow answered-Reach

completes :
    Step unix_seqpacket answered
      (completed 0 resp)
      (record answered { client = record { counter = 1; responses = [] }; calls = [] })
unfolding poll poll_entry
completes = complete 0 refl refl

completed_with_own_response_example : last_response 0 answered_run ≡ some resp
completed_with_own_response_example = completed_with_own_response answered-Reach completes

no_lost_wakeup_example : last_response 0 waiting_run ≡ none
no_lost_wakeup_example = no_lost_wakeup waiting-Reach 0 refl

response_wakes_its_call_example :
    let t = deliver (RunnerMsg.response 0 resp) waiting in
    (lookup 0 t.calls ≡ some looking)
    × (poll 0 t.client ≡ done resp (record t.client { responses = erase 0 t.client.responses }))
response_wakes_its_call_example = response_wakes_its_call waiting-Reach 0 resp refl
