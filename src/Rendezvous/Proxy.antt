-- ===== src/Rendezvous/Proxy.antt =====
-- rendezvous-proxy/src/lib.rs: the state of a proxy that listens at a rendezvous server, and
-- what an event from the server and `shutdown` do to it.
pub mod Connection
pub mod Listener
pub mod Shutdown
pub mod Main
pub mod Request
use siplane.Base.{ℕ, ◌+◌, String, Option, none, some, [], ltb, if◌then◌else◌, Dict, insert}
use text.Mathlib.Text.{◌==◌ as str_eq}
use siplane.Rendezvous.Server.{u64_mod, Listening, NewConnection}

-- `RendezvousProxyState` without what never changes. A connection's task is known by the message
-- that it was started for; `notified` counts the calls of `notify_waiters`.
pub record ProxyState : Type 0 where
  pub connections_cnt : ℕ
  pub connections : Dict NewConnection
  pub public_addr : Option (String × ℕ)
  pub notified : ℕ

unfoldable pub new : ProxyState
new = record { connections_cnt = 0; connections = []; public_addr = none; notified = 0 }

-- `listener_sse_api::SSEMessage`, or the error of the parser
pub data SseMessage : Type 0 where
  listening : Listening → SseMessage
  new_connection : NewConnection → SseMessage
  malformed : SseMessage

-- an event of the stream
pub record SseEvent : Type 0 where
  pub event_type : String
  pub data_text : String

-- `none` is the overflow of the counter.
unfoldable pub handle_new_connection_event : NewConnection → ProxyState → Option ProxyState
handle_new_connection_event nc s =
    if ltb (s.connections_cnt + 1) u64_mod
    then some (record s {
      connections_cnt = s.connections_cnt + 1;
      connections = insert s.connections_cnt nc s.connections;
    })
    else none

unfoldable pub handle_message : SseMessage → ProxyState → Option ProxyState
unfolding handle_new_connection_event
handle_message (listening l) s =
    some (record s {
      public_addr = some (l.public_hostname, l.public_port);
      notified = s.notified + 1;
    })
handle_message (new_connection nc) s = handle_new_connection_event nc s
handle_message malformed s = some s

-- `parse` is `serde_json::from_str`.
unfoldable pub handle_sse_event : (String → SseMessage) → SseEvent → ProxyState → Option ProxyState
unfolding handle_message
handle_sse_event parse ev s =
    let handled = handle_message (parse ev.data_text) s in
    if str_eq ev.event_type "message" then handled else some s
