-- ===== src/Rendezvous/Server/Stream/Tests.antt =====
-- A stream with one client.
use siplane.Base.{ℕ, ◌≤◌, String, ◌≡◌, refl, true, List, [], ◌∷◌, ◌++◌, length, format}
use siplane.Rendezvous.Server.{
  State, TcpStream, Config, bound, listen, accept_on, accepted, build_listening_resp,
  build_new_connection_resp, insert_listener, listen_at,
}
use siplane.Rendezvous.Server.Stream.{
  SseMessage, listening, new_connection, accepting, listens, accepts, yields, step, Runs, begin,
  own, on_listen, on_listening, on_accepted, on_new_connection,
}
use siplane.Rendezvous.Server.Stream.Invariant.{clients, peers}
use siplane.Rendezvous.Server.Stream.Announces.{every_client_announced}

abbrev pub show : ℕ → String
show n = "0"

abbrev pub config : Config
config = record { public_hostname = "h"; rendezvous_endpoint_base = "ws://h/accept" }

abbrev pub client : TcpStream
client = record { local_ip = "::1"; local_port = 9000; peer_ip = "::2"; peer_port = 77 }

abbrev pub before : State
before = record {
  listen_handle_cnt = 0;
  listen_port_pool = 9000 ∷ [];
  listeners = [];
  connecting_streams_cnt = 0;
  connecting_streams = [];
}

abbrev listens_here : State
listens_here = record before {
  listen_handle_cnt = 1;
  listen_port_pool = [];
  listeners = (0, record { listener_id = 5; port = 9000; socket = 4 }) ∷ [];
}

abbrev pub has_client : State
has_client = record listens_here {
  connecting_streams_cnt = 1;
  connecting_streams = (0, record { token = ""; stream = client }) ∷ [];
}

abbrev pub out : List SseMessage
out =
    listening (record { public_hostname = "h"; public_port = 9000 })
    ∷ new_connection (record {
      client_ip = "::2";
      client_port = 77;
      remote_ip = "::1";
      remote_port = 9000;
      rendezvous_endpoint = format ("ws://h/accept" ∷ "/" ∷ show 0 ∷ []);
      accept_token = "";
    })
    ∷ []

pub run : Runs show config 5 before (accepting 0) has_client (client ∷ []) out
unfolding step listen listen_at insert_listener accept_on accepted build_listening_resp
    build_new_connection_resp on_listen on_listening on_accepted on_new_connection
run =
    own (yields true)
      (own (accepts client) (own (yields true) (own (listens (λ p. bound 4)) begin refl) refl) refl)
      refl

every_client_announced_example :
    (rest : List (String × ℕ)) × (clients out ++ rest ≡ peers (client ∷ []))
    × (length rest ≤ 1)
    × ((h : ℕ) → accepting 0 ≡ accepting h → rest ≡ [])
every_client_announced_example =
    every_client_announced show config 5 (accepting 0) has_client (client ∷ []) out run
