-- ===== src/Rendezvous/Proxy/Connection.antt =====
-- rendezvous-proxy/src/lib.rs: `connection_task`, which joins a connection to the service of the job
-- with a WebSocket of the rendezvous server.
pub mod Relay
use siplane.Base.{
  ℕ, Bool, true, false, Option, none, some, List, [], ◌∷◌, ◌++◌, if◌then◌else◌, take,
}

-- the variants of `RendezvousProxyError` that the task can end with
pub data ProxyError : Type 0 where
  ws_request ws_connection tcp_connection tcp_read tcp_write ws_read ws_write : ProxyError

-- Which branch of `select!` is taken. What comes from the service has a mark whether the frame
-- can be sent, and so has a ping. A binary frame comes with `none` if `write_all` takes it, and
-- otherwise with how much was written before it failed.
pub data Event : Type 0 where
  command_shutdown command_dropped : Event
  from_service : (bytes : List ℕ) → (sent : Bool) → Event
  service_broken_pipe service_failed : Event
  ws_binary : (bytes : List ℕ) → (failed_after : Option ℕ) → Event
  ws_ping : (bytes : List ℕ) → (sent : Bool) → Event
  ws_close ws_unexpected ws_failed ws_ended : Event

pub data Frame : Type 0 where
  binary ping : List ℕ → Frame

-- `relaying` is the loop; `finished` and `failed` are its `break`s.
pub data Place : Type 0 where
  relaying finished : Place
  failed : ProxyError → Place
  panicked : Place

-- `service` is what has been written to the service, `sent` what went out over the WebSocket.
pub record Connection : Type 0 where
  pub place : Place
  pub service : List ℕ
  pub sent : List Frame
  pub ws_closed : Bool

pub opened : Connection
opened = record { place = relaying; service = []; sent = []; ws_closed = false }

-- `ws_client.send(…).map_err(…).map(|_| true)`
send : Frame → Bool → Connection → Connection
send f true c = record c { sent = c.sent ++ f ∷ [] }
send f false c = record c { place = failed ws_write }

-- `tcp_stream.write_all(…).map_err(…).map(|_| true)`
write_all : List ℕ → Option ℕ → Connection → Connection
write_all bytes none c = record c { service = c.service ++ bytes }
write_all bytes (some n) c = record c {
  service = c.service ++ take n bytes;
  place = failed tcp_write;
}

pub turn : Connection → Event → Connection
unfolding send write_all
turn c command_shutdown = record c { place = finished }
turn c command_dropped = record c { place = panicked }
turn c (from_service bytes sent) = send (binary bytes) sent c
turn c service_broken_pipe = record c { place = finished }
turn c service_failed = record c { place = failed tcp_read }
turn c (ws_binary bytes failed_after) = write_all bytes failed_after c
turn c (ws_ping bytes sent) = send (ping bytes) sent c
turn c ws_close = record c { place = finished }
turn c ws_unexpected = c
turn c ws_failed = record c { place = failed ws_read }
turn c ws_ended = record c { place = finished }

-- The loop.
pub relay : Connection → List Event → Connection
relay c [] = c
relay c (e ∷ es) = let rest = relay (turn c e) es in elim c.place [ relaying ↦ rest | _ ↦ c ]

-- After the loop the WebSocket is closed, whatever the close then gives.
close_at : Place → Connection → Connection
close_at finished c = record c { ws_closed = true }
close_at (failed e) c = record c { ws_closed = true }
close_at _ c = c

pub close : Connection → Connection
unfolding close_at
close c = close_at c.place c

-- The task from its start on. The service, the request and the WebSocket may each fail before the
-- loop, in this order. The request is that of Rendezvous.Proxy.Request.
pub connection_task : Bool → Bool → Bool → List Event → Connection
connection_task service_answers request_builds ws_connects es =
    if service_answers
    then (if request_builds
        then (if ws_connects
            then close (relay opened es)
            else record opened { place = failed ws_connection })
        else record opened { place = failed ws_request })
    else record opened { place = failed tcp_connection }
