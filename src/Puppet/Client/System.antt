-- ===== src/Puppet/Client/System.antt =====
-- A client with any number of requests under way and its task, one step at a time. A step is what
-- one of them does between two points at which another may run: it holds the lock all along.
use siplane.Base.{ℕ, ◌≡◌, Bool, true, false, some, List, [], ◌∷◌, ◌++◌, Dict, lookup, insert, erase}
use siplane.Api.Puppet.{RunnerResp, RunnerMsg, PuppetReq, PuppetMsg, PuppetEvent}
use siplane.Puppet.Client.{
  Client, new, begin_request, pending, done, poll, handle_message, next_event_id,
}

-- `ControlSocketClient`: what carries the messages
pub data Transport : Type 0 where
  unix_seqpacket tcp : Transport

-- Where a call of `request` stands: it has its identifier and is about to send, it is about to
-- take the lock and look at the map, or it waits for a notification that it asked for under the
-- lock. Or it has panicked as it could not send; its identifier stays in the map.
pub data Phase : Type 0 where
  sending : PuppetReq → Phase
  looking parked panicked : Phase

abbrev pub wake : Phase → Phase
wake parked = looking
wake p = p

-- `notify_waiters`
unfoldable pub wake_all : Dict Phase → Dict Phase
wake_all [] = []
wake_all ((i, p) ∷ d) = (i, wake p) ∷ wake_all d

-- `channel` holds the messages that wait for the task of the TCP client, oldest first.
pub record System : Type 0 where
  pub client : Client
  pub event_count : ℕ
  pub calls : Dict Phase
  pub channel : List PuppetMsg
  pub wire : List PuppetMsg
  pub task_runs : Bool

unfoldable pub init : System
init = record {
  client = new;
  event_count = 0;
  calls = [];
  channel = [];
  wire = [];
  task_runs = true;
}

-- What can be seen of a step.
pub data Label : Type 0 where
  began : ℕ → PuppetReq → Label
  delivered : RunnerMsg → Label
  completed : ℕ → RunnerResp → Label
  other : Label

-- The message leaves the call: over the socket, or into the channel.
unfoldable pub hand_over : Transport → PuppetMsg → System → System
hand_over unix_seqpacket m s = record s { wire = s.wire ++ m ∷ [] }
hand_over tcp m s = record s { channel = s.channel ++ m ∷ [] }

abbrev notified : Bool → Dict Phase → Dict Phase
notified true d = wake_all d
notified false d = d

-- The task handles a message.
unfoldable pub deliver : RunnerMsg → System → System
deliver m s =
    let (c, notify) = handle_message m s.client in
    record s { client = c; calls = notified notify s.calls }

-- The channel to the task of the TCP client is open as long as the task runs.
abbrev pub can_send : Transport → System → Bool
can_send unix_seqpacket s = true
can_send tcp s = s.task_runs

pub data Step (tr : Transport) (s : System) : Label → System → Type 0 where
  begin :
      (req : PuppetReq) {id : ℕ} {c : Client}
      → begin_request s.client ≡ some (id, c)
      → Step tr s (began id req) (record s { client = c; calls = insert id (sending req) s.calls })
  send :
      (id : ℕ) {req : PuppetReq}
      → lookup id s.calls ≡ some (sending req)
      → can_send tr s ≡ true
      → Step tr s other
          (hand_over tr (PuppetMsg.request id req) (record s { calls = insert id looking s.calls }))
  -- the `unwrap` or `expect` of the send
  send_fails :
      (id : ℕ) {req : PuppetReq}
      → lookup id s.calls ≡ some (sending req)
      → Step tr s other (record s { calls = insert id panicked s.calls })
  park :
      (id : ℕ)
      → lookup id s.calls ≡ some looking
      → poll id s.client ≡ pending
      → Step tr s other (record s { calls = insert id parked s.calls })
  complete :
      (id : ℕ) {resp : RunnerResp} {c : Client}
      → lookup id s.calls ≡ some looking
      → poll id s.client ≡ done resp c
      → Step tr s (completed id resp) (record s { client = c; calls = erase id s.calls })
  send_event :
      (ev : PuppetEvent) {id n : ℕ}
      → next_event_id s.event_count ≡ some (id, n)
      → can_send tr s ≡ true
      → Step tr s other (hand_over tr (PuppetMsg.event id ev) (record s { event_count = n }))
  send_event_fails :
      (ev : PuppetEvent) {id n : ℕ}
      → next_event_id s.event_count ≡ some (id, n)
      → Step tr s other (record s { event_count = n })
  receive : (m : RunnerMsg) → s.task_runs ≡ true → Step tr s (delivered m) (deliver m s)
  forward :
      {m : PuppetMsg} {ms : List PuppetMsg}
      → s.task_runs ≡ true
      → s.channel ≡ m ∷ ms
      → Step tr s other (record s { channel = ms; wire = s.wire ++ m ∷ [] })
  -- the TCP task logs a failed send and goes on
  lose :
      {m : PuppetMsg} {ms : List PuppetMsg}
      → s.task_runs ≡ true
      → s.channel ≡ m ∷ ms
      → Step tr s other (record s { channel = ms })
  -- the command to shut down, or a message that cannot be parsed
  task_ends : s.task_runs ≡ true → Step tr s other (record s { task_runs = false })

-- The labels of a run, the latest first.
pub data Reach (tr : Transport) : List Label → System → Type 0 where
  here : Reach tr [] init
  next :
      {ls : List Label} {s t : System} {l : Label}
      → Reach tr ls s
      → Step tr s l t
      → Reach tr (l ∷ ls) t
