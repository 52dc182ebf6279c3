-- ===== src/Rendezvous/Announced/Tests.antt =====
-- A proxy that takes what the server yields when it has a client.
use siplane.Base.{
  ◌<◌, String, ◌≡◌, refl, some, [], ◌∷◌, arith, if◌then◌else◌, length, format, lookup,
}
use text.Mathlib.Text.{◌==◌ as str_eq}
use siplane.Rendezvous.Server.{Listener, Listening, NewConnection, u64_mod}
use siplane.Rendezvous.Server.Stream as Stream
use siplane.Rendezvous.Server.Stream.Tests.{show, config, client, has_client, out, run}
use siplane.Rendezvous.Proxy.{ProxyState, new, SseMessage, listening, new_connection}
use siplane.Rendezvous.Announced.{fed, ReadBack, proxy_learns_its_address}

-- stands for `serde_json` on the messages of this run
abbrev render : Stream.SseMessage → String
render (Stream.listening l) = "listening"
render (Stream.new_connection nc) = "new_connection"

abbrev address : Listening
address = record { public_hostname = "h"; public_port = 9000 }

abbrev connection : NewConnection
connection = record {
  client_ip = "::2";
  client_port = 77;
  remote_ip = "::1";
  remote_port = 9000;
  rendezvous_endpoint = format ("ws://h/accept" ∷ "/" ∷ show 0 ∷ []);
  accept_token = "";
}

abbrev parse : String → SseMessage
parse text = if str_eq text "listening" then listening address else new_connection connection

reads : ReadBack render parse out
reads = (refl, (refl, tt))

few : length out < u64_mod
few = omega arith

proxy_learns_its_address_example :
    (l : Listener) × (t : ProxyState) × (lookup 0 has_client.listeners ≡ some l)
    × (fed render parse new out ≡ some t)
    × (t.public_addr ≡ some ("h", l.port))
proxy_learns_its_address_example =
    proxy_learns_its_address render parse show config 5 0 has_client (client ∷ []) out run reads few
