-- ===== src/Rendezvous/Tests.antt =====
-- A proxy that learns its address, opens a connection and shuts down; and a tunnel with bytes each way.
use siplane.Base.{
  ℕ, ◌-◌, ◌≤◌, ◌<◌, String, ◌≡◌, refl, sym, ◌≢◌, true, false, none, some, List, [], ◌∷◌, ◌++◌,
  arith, ltb, if◌then◌else◌, length, lookup,
}
use siplane.Rendezvous.Server.{NewConnection, u64_mod}
use siplane.Rendezvous.Proxy.Listener.Panics.{events}
use siplane.Rendezvous.Server.Bridge as Bridge
use siplane.Rendezvous.Server.Bridge.{
  frame, read, start as bridge_start, WholeWrites, read_from_tcp,
}
use siplane.Rendezvous.Server.Bridge.Relay.{bridge_relays}
use siplane.Rendezvous.Proxy.{
  SseMessage, new_connection, new, handle_sse_event, handle_message, handle_new_connection_event,
}
use siplane.Rendezvous.Proxy.Connection.{
  Event, relaying, from_service, ws_binary, ws_ended, command_shutdown, opened, relay,
  connection_task, panicked,
}
use siplane.Rendezvous.Proxy.Connection.Relay.{
  Steady, frames_in, reads, concat, binaries, place_after, connection_relays, connection_ends,
}
use siplane.Rendezvous.Proxy.Listener.{
  step, tick, waiting, Listener, start, streaming, Input, client_built, event, step, Runs, stop,
  more, panicked as listener_panicked,
}
use siplane.Rendezvous.Proxy.Listener.Keepalive.{
  shutdowns, failed_builds, ended_count, failed_count, last_heard, listener_ends,
  silence_reconnects,
}
use siplane.Rendezvous.Proxy.Listener.Tracking.{
  messages, announced, last_address, nth, listener_tracks,
}
use siplane.Rendezvous.Proxy.Shutdown.{ends_well, ok, shutdown, shutdown_closes_connections}
use siplane.Rendezvous.Tunnel.{frames_at_server, tunnel_carries_both_ways}

abbrev at_server : List Bridge.Event
at_server = read (some (71 ∷ [])) ∷ frame (Bridge.Message.binary (72 ∷ 73 ∷ [])) (some 2) ∷ []

abbrev at_proxy : List Event
at_proxy = ws_binary (71 ∷ []) none ∷ from_service (72 ∷ 73 ∷ []) true ∷ []

whole : WholeWrites at_server
unfolding WholeWrites
whole = ground arith

steady : Steady at_proxy
unfolding Steady place_after
steady = (refl, (refl, tt))

inward : frames_in at_proxy ≡ (Bridge.relay bridge_start at_server).ws
unfolding frames_in read_from_tcp
inward = sym (bridge_relays at_server whole).1

outward : frames_at_server at_server ≡ binaries (relay opened at_proxy).sent
unfolding frames_at_server reads
outward = sym (connection_relays at_proxy steady).2

tunnel_carries_both_ways_example :
    ((relay opened at_proxy).service ≡ concat (read_from_tcp at_server))
    × ((Bridge.relay bridge_start at_server).tcp ≡ concat (reads at_proxy))
tunnel_carries_both_ways_example =
    tunnel_carries_both_ways at_server at_proxy whole steady inward outward

ends_it : place_after ws_ended ≢ relaying
unfolding place_after
ends_it = ground arith

connection_ends_example :
    let c = connection_task true true true (at_proxy ++ ws_ended ∷ command_shutdown ∷ []) in
    (c ≡ connection_task true true true (at_proxy ++ ws_ended ∷ []))
    × (c.place ≡ place_after ws_ended)
    × (c.place ≢ panicked → c.ws_closed ≡ true)
connection_ends_example = connection_ends at_proxy (command_shutdown ∷ []) ws_ended steady ends_it

abbrev client : NewConnection
client = record {
  client_ip = "::2";
  client_port = 77;
  remote_ip = "::1";
  remote_port = 9000;
  rendezvous_endpoint = "ws://host/0";
  accept_token = "";
}

abbrev parse : String → SseMessage
parse s = new_connection client

abbrev inputs : List Input
inputs = client_built true 5 ∷ event (record { event_type = "message"; data_text = "{}" }) 7 ∷ []

abbrev listener_now : Listener
listener_now = record {
  place = streaming;
  cmd_channel_dropped = false;
  last_message = 7;
  proxy = record {
    connections_cnt = 1;
    connections = (0, client) ∷ [];
    public_addr = none;
    notified = 0;
  };
}

run : Runs parse 30 start inputs listener_now
unfolding start step new handle_sse_event handle_message handle_new_connection_event
run = more refl (more refl stop)

listener_ends_example :
    (ended_count streaming ≡ shutdowns inputs)
    × (failed_count streaming ≡ failed_builds inputs)
    × (streaming ≡ listener_panicked → u64_mod ≤ events inputs)
listener_ends_example = listener_ends parse 30 run

silence_reconnects_example :
    step parse 30 listener_now (tick 50)
    ≡ some (
        if ltb 30 (50 - last_heard 0 inputs)
        then record listener_now { place = waiting }
        else listener_now)
silence_reconnects_example = silence_reconnects parse 30 50 run refl

streams : streaming ≢ listener_panicked
streams = ground arith

listener_tracks_example :
    let ms = messages parse inputs in
    (none ≡ last_address none ms)
    × (1 ≡ length (announced ms))
    × ((k : ℕ) → k < length (announced ms) → lookup k ((0, client) ∷ []) ≡ nth k (announced ms))
listener_tracks_example = listener_tracks parse 30 run streams

shutdown_closes_connections_example :
    let o = shutdown ends_well (λ k. true) listener_now.proxy in
    (o.result ≡ ok → (o.told ≡ 0 ∷ []) × (o.proxy.connections ≡ []))
    × (ends_well ≡ ends_well → ((k : ℕ) → true ≡ true) → o.result ≡ ok)
    × (ends_well ≢ ends_well → (o.told ≡ []) × (o.proxy ≡ listener_now.proxy) × (o.result ≢ ok))
shutdown_closes_connections_example =
    shutdown_closes_connections ends_well (λ k. true) listener_now.proxy
