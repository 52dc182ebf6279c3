-- ===== src/Puppet/Client.antt =====
-- The two control socket clients of puppet/src/main.rs. They keep the same `request_responses` and
-- differ in how a message leaves: over the socket, or through the task's command channel.
pub mod System
pub mod Invariant
pub mod Delivery
pub mod Tests
use siplane.Base.{
  ℕ, ◌+◌, ◌^◌, String, Bool, true, false, Option, none, some, List, [], ltb, if◌then◌else◌, is_some,
  Dict, lookup, insert, erase,
}
use siplane.Api.Puppet.{RunnerResp, RunnerMsg, NetworkConfig}

-- the values of a u64 are below this
abbrev pub u64_mod : ℕ
u64_mod = 2 ^ 64

-- `request_responses`: the counter, and for each request under way its response, once it is here
pub record Client : Type 0 where
  pub counter : ℕ
  pub responses : Dict (Option RunnerResp)

abbrev pub new : Client
new = record { counter = 0; responses = [] }

-- The first block of `request`: the identifier and the client with the request registered. `none`
-- is the overflow of the counter, or the `assert!`.
pub begin_request : Client → Option (ℕ × Client)
begin_request c =
    if ltb (c.counter + 1) u64_mod
    then (if is_some (lookup c.counter c.responses)
        then none
        else some (
          c.counter,
          record { counter = c.counter + 1; responses = insert c.counter none c.responses },
        ))
    else none

-- How the loop at the end of `request` finds the map: without the key its `unwrap` panics, with
-- no response it waits, and with one it takes the entry out and returns.
pub data Poll : Type 0 where
  missing pending : Poll
  done : RunnerResp → Client → Poll

poll_entry : Option (Option RunnerResp) → ℕ → Client → Poll
poll_entry none id c = missing
poll_entry (some none) id c = pending
poll_entry (some (some resp)) id c = done resp (record c { responses = erase id c.responses })

unfoldable pub poll : ℕ → Client → Poll
unfolding poll_entry
poll id c = poll_entry (lookup id c.responses) id c

-- What the task does with a message of the runner: the client after it, and whether it calls
-- `notify_waiters`. A second response to a request replaces the first.
unfoldable pub handle_message : RunnerMsg → Client → Client × Bool
handle_message (RunnerMsg.response request_id response) c =
    if is_some (lookup request_id c.responses)
    then (record c { responses = insert request_id (some response) c.responses }, true)
    else (c, false)
handle_message (RunnerMsg.event runner_event_id event) c = (c, false)
handle_message (RunnerMsg.error message) c = (c, false)

-- The counter of `send_event`: the identifier and the next value; `none` on overflow.
pub next_event_id : ℕ → Option (ℕ × ℕ)
next_event_id n = if ltb (n + 1) u64_mod then some (n, n + 1) else none

-- `get_ssh_keys` and `get_network_config` from the response on; `none` is their panic.
unfoldable pub ssh_keys_of : RunnerResp → Option (List String)
ssh_keys_of (RunnerResp.ssh_keys_resp ssh_keys) = some ssh_keys
ssh_keys_of _ = none

pub network_config_of : RunnerResp → Option NetworkConfig
network_config_of (RunnerResp.network_config nc) = some nc
network_config_of _ = none
