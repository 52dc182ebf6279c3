-- ===== src/Rendezvous/Server.antt =====
-- rendezvous-server/src/main.rs: the listeners, and the connections that wait to be picked up.
pub mod Ports
pub mod Handles
pub mod Bridge
pub mod Stream
pub mod Tests
use siplane.Base.{
  ℕ, zero, suc, ◌+◌, ◌-◌, ◌^◌, String, Bool, Option, none, some, List, [], ◌∷◌, ltb, if◌then◌else◌,
  format, Dict, lookup, insert, erase,
}

-- the values of a u64 are below this
abbrev pub u64_mod : ℕ
u64_mod = 2 ^ 64

-- A TCP stream is known by what the server asks of it: its two addresses, ip and port.
pub record TcpStream : Type 0 where
  pub local_ip : String
  pub local_port : ℕ
  pub peer_ip : String
  pub peer_port : ℕ

-- an entry of `listeners`; the listener itself is a number
pub record Listener : Type 0 where
  pub listener_id : ℕ
  pub port : ℕ
  pub socket : ℕ

-- an entry of `connecting_streams`
pub record Connecting : Type 0 where
  pub token : String
  pub stream : TcpStream

-- `RendezvousServerState`
pub record State : Type 0 where
  pub listen_handle_cnt : ℕ
  pub listen_port_pool : List ℕ
  pub listeners : Dict Listener
  pub connecting_streams_cnt : ℕ
  pub connecting_streams : Dict Connecting

pub record Config : Type 0 where
  pub public_hostname : String
  pub rendezvous_endpoint_base : String

-- `listener_sse_api`
pub record Listening : Type 0 where
  pub public_hostname : String
  pub public_port : ℕ

pub record NewConnection : Type 0 where
  pub client_ip : String
  pub client_port : ℕ
  pub remote_ip : String
  pub remote_port : ℕ
  pub rendezvous_endpoint : String
  pub accept_token : String

-- `n` numbers from `start` on
pub ports_from : ℕ → ℕ → List ℕ
ports_from start zero = []
ports_from start (suc n) = start ∷ ports_from (suc start) n

-- `RendezvousServer::new` over `Range { start, end }`. The shuffle is that of the crate `rand`.
pub new : (List ℕ → List ℕ) → ℕ → ℕ → State
unfolding ports_from
new shuffle start end = record {
  listen_handle_cnt = 0;
  listen_port_pool = shuffle (ports_from start (end - start));
  listeners = [];
  connecting_streams_cnt = 0;
  connecting_streams = [];
}

-- How creating, binding and listening go for a port: the listening socket, or an error.
pub data Bound : Type 0 where
  bound : ℕ → Bound
  bind_error : Bound

pub data Listen : Type 0 where
  handle : ℕ → Listen
  no_port error panicked : Listen

-- The counter is raised before the entry is stored; an overflow panics.
insert_listener : State → ℕ → ℕ → Bound → State × Listen
insert_listener s listener_id port bind_error = (s, error)
insert_listener s listener_id port (bound socket) =
    if ltb (s.listen_handle_cnt + 1) u64_mod
    then (
      record s {
        listen_handle_cnt = s.listen_handle_cnt + 1;
        listeners =
            insert s.listen_handle_cnt
              (record { listener_id = listener_id; port = port; socket = socket }) s.listeners;
      },
      handle s.listen_handle_cnt,
    )
    else (s, panicked)

listen_at : List ℕ → State → ℕ → (ℕ → Bound) → State × Listen
unfolding insert_listener
listen_at [] s listener_id bind = (s, no_port)
listen_at (port ∷ rest) s listener_id bind =
    insert_listener (record s { listen_port_pool = rest }) listener_id port (bind port)

pub listen : State → ℕ → (ℕ → Bound) → State × Listen
unfolding listen_at
listen s listener_id bind = listen_at s.listen_port_pool s listener_id bind

-- The first part of `accept`: the socket to wait on; `none` is the `expect`.
pub accept_on : State → ℕ → Option ℕ
accept_on s handle_id = elim (lookup handle_id s.listeners) [ none ↦ none | some l ↦ some l.socket ]

-- The second part, with the stream that the socket has accepted: its handle; `none` is the overflow.
pub accepted : State → TcpStream → Option (State × ℕ)
accepted s stream =
    if ltb (s.connecting_streams_cnt + 1) u64_mod
    then some (
      record s {
        connecting_streams_cnt = s.connecting_streams_cnt + 1;
        connecting_streams =
            insert s.connecting_streams_cnt (record { token = ""; stream = stream })
              s.connecting_streams;
      },
      s.connecting_streams_cnt,
    )
    else none

pub connect : State → ℕ → State × Option TcpStream
connect s handle_id = elim (lookup handle_id s.connecting_streams) [
  | none ↦ (s, none)
  | some c ↦ (record s { connecting_streams = erase handle_id s.connecting_streams }, some c.stream)
]

-- `none` is the `expect`.
pub build_listening_resp : Config → State → ℕ → Option Listening
build_listening_resp cfg s handle_id = elim (lookup handle_id s.listeners) [
  | none ↦ none
  | some l ↦ some (record { public_hostname = cfg.public_hostname; public_port = l.port })
]

-- `none` is one of the three `expect`s; `show` prints a handle. `local_addr` and `peer_addr` ask the
-- socket and may fail, as for a client that has reset its connection: `named` says whether both
-- succeed.
pub build_new_connection_resp : (ℕ → String) → Config → State → Bool → ℕ → Option NewConnection
build_new_connection_resp show cfg s named handle_id =
    elim (lookup handle_id s.connecting_streams) [
      | none ↦ none
      | some c ↦
          if named
          then some (record {
            client_ip = c.stream.peer_ip;
            client_port = c.stream.peer_port;
            remote_ip = c.stream.local_ip;
            remote_port = c.stream.local_port;
            rendezvous_endpoint = format (cfg.rendezvous_endpoint_base ∷ "/" ∷ show handle_id ∷ []);
            accept_token = c.token;
          })
          else none
    ]

-- The calls that change the state, as the server's tasks make them under its lock.
pub data Call : Type 0 where
  listens : (listener_id : ℕ) → (ℕ → Bound) → Call
  accepts : TcpStream → Call
  connects : (handle_id : ℕ) → Call

abbrev state_after : State → Option (State × ℕ) → State
state_after s none = s
state_after s (some (t, h)) = t

pub step : State → Call → State
unfolding listen accepted connect
step s (listens listener_id bind) = (listen s listener_id bind).0
step s (accepts stream) = state_after s (accepted s stream)
step s (connects handle_id) = (connect s handle_id).0

pub run : State → List Call → State
run s [] = s
run s (c ∷ cs) = run (step s c) cs
