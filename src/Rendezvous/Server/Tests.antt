-- ===== src/Rendezvous/Server/Tests.antt =====
-- A server with two ports, and a bridge with a short write.
use siplane.Base.{ℕ, ◌+◌, ◌-◌, ◌≤◌, ◌≡◌, refl, true, false, some, List, [], ◌∷◌, is_some, length}
use mathlib.Core.List.Perm.{rfl}
use siplane.Rendezvous.Server.{
  State, TcpStream, Listener, Config, new, ports_from, Bound, bound, no_port, insert_listener,
  listen_at, listen, accepted, connect, build_new_connection_resp, Call, listens, accepts, connects,
  step, run,
}
use siplane.Rendezvous.Server.Ports.{distinct_ports, ports_run_out, listen_calls}
use siplane.Rendezvous.Server.Handles.{connected, stream_given_once, announcement_panics}
use siplane.Rendezvous.Server.Bridge.{
  binary, Event, frame, disconnected, read, relay, start, sent_by_client, left_out, taken,
}
use siplane.Rendezvous.Server.Bridge.Relay.{short_writes_lose}

abbrev shuffle : List ℕ → List ℕ
shuffle xs = xs

abbrev client : TcpStream
client = record { local_ip = "::1"; local_port = 9000; peer_ip = "::2"; peer_port = 77 }

abbrev calls : List Call
calls =
    listens 5 (λ p. bound (p + 1))
    ∷ accepts client
    ∷ listens 6 (λ p. bound (p + 1))
    ∷ connects 0
    ∷ []

abbrev first : Listener
first = record { listener_id = 5; port = 9000; socket = 9001 }

distinct_ports_example : ◌≡◌ {A = ℕ} 0 0
unfolding new ports_from run step listen listen_at insert_listener accepted connect
distinct_ports_example =
    distinct_ports shuffle (λ xs. rfl) 9000 9002 calls 0 0 first first refl refl refl

abbrev before : State
before = new shuffle 9000 9002

ports_run_out_example :
    (length (run before calls).listen_port_pool
      ≡ length before.listen_port_pool - listen_calls calls)
    × (length before.listen_port_pool ≤ listen_calls calls
        → (listener_id : ℕ) (bind : ℕ → Bound)
        → listen (run before calls) listener_id bind ≡ (run before calls, no_port))
ports_run_out_example = ports_run_out calls before

abbrev waiting : State
waiting = record {
  listen_handle_cnt = 0;
  listen_port_pool = [];
  listeners = [];
  connecting_streams_cnt = 3;
  connecting_streams = [];
}

abbrev with_client : State
with_client = record waiting {
  connecting_streams_cnt = 4;
  connecting_streams = (3, record { token = ""; stream = client }) ∷ [];
}

accepts_client : accepted waiting client ≡ some (with_client, 3)
unfolding accepted
accepts_client = refl

stream_given_once_example : (connect (run with_client (accepts client ∷ [])) 3).1 ≡ some client
unfolding connected
stream_given_once_example =
    stream_given_once waiting with_client client 3 (accepts client ∷ []) accepts_client

abbrev config : Config
config = record { public_hostname = "host"; rendezvous_endpoint_base = "ws://host" }

announcement_panics_example :
    is_some (build_new_connection_resp (λ n. "3") config (run with_client (connects 3 ∷ [])) true 3)
    ≡ false
unfolding connected
announcement_panics_example =
    announcement_panics (λ n. "3") config waiting with_client client 3 (connects 3 ∷ []) true
      accepts_client

abbrev events : List Event
events = frame (binary (1 ∷ 2 ∷ [])) (some 2) ∷ read (some (8 ∷ [])) ∷ disconnected true ∷ []

abbrev short_events : List Event
short_events = frame (binary (1 ∷ 2 ∷ [])) (some 1) ∷ frame (binary (3 ∷ [])) (some 1) ∷ []

short_writes_lose_example :
    ((relay start short_events).tcp ≡ taken short_events)
    × (length (relay start short_events).tcp + left_out short_events
        ≡ length (sent_by_client short_events))
short_writes_lose_example = short_writes_lose short_events
