-- ===== src/Rendezvous/Tunnel.antt =====
-- The loop of rendezvous-server's `accept` and rendezvous-proxy's `connection_task` at the two ends of
-- one WebSocket.
use siplane.Base.{ℕ, ◌≡◌, refl, ap, ◌∙◌, List, [], ◌∷◌, ◌++◌}
use siplane.Rendezvous.Server.Bridge as Bridge
use siplane.Rendezvous.Server.Bridge.{
  Message, frame, unknown, disconnected, errored, read, start, WholeWrites, sent_by_client,
  read_from_tcp,
}
use siplane.Rendezvous.Server.Bridge.Relay.{bridge_relays}
use siplane.Rendezvous.Proxy.Connection.{Event, opened, relay}
use siplane.Rendezvous.Proxy.Connection.Relay.{
  Steady, frames_in, reads, concat, binaries, connection_relays,
}

-- the binary frames that come in at the server before its loop ends
unfoldable pub frames_at_server : List Bridge.Event → List (List ℕ)
frames_at_server [] = []
frames_at_server (frame (Message.binary bytes) written ∷ es) = bytes ∷ frames_at_server es
frames_at_server (frame unknown written ∷ es) = frames_at_server es
frames_at_server (disconnected shut ∷ es) = []
frames_at_server (errored shut ∷ es) = []
frames_at_server (read bytes ∷ es) = frames_at_server es

bytes_at_server : (es : List Bridge.Event) → sent_by_client es ≡ concat (frames_at_server es)
unfolding sent_by_client frames_at_server
bytes_at_server [] = refl
bytes_at_server (frame (Message.binary bytes) written ∷ es) =
    ap (λ t. bytes ++ t) (bytes_at_server es)
bytes_at_server (frame unknown written ∷ es) = bytes_at_server es
bytes_at_server (disconnected shut ∷ es) = refl
bytes_at_server (errored shut ∷ es) = refl
bytes_at_server (read bytes ∷ es) = bytes_at_server es

-- If the WebSocket delivers the frames of each end to the other in order, the service gets just
-- the bytes that the server has read from the client's connection, and that connection just the
-- bytes that the proxy has read from the service, both in order; as long as at the server no
-- write fails or falls short and no read fails, and nothing ends the proxy's loop.
pub tunnel_carries_both_ways :
    (server : List Bridge.Event) (proxy : List Event)
    → WholeWrites server
    → Steady proxy
    → frames_in proxy ≡ (Bridge.relay start server).ws
    → frames_at_server server ≡ binaries (relay opened proxy).sent
    → ((relay opened proxy).service ≡ concat (read_from_tcp server))
      × ((Bridge.relay start server).tcp ≡ concat (reads proxy))
tunnel_carries_both_ways server proxy whole steady inward outward =
    let (tcp, ws) = bridge_relays server whole in
    let (on, service, sent) = connection_relays proxy steady in
    (service ∙ ap concat (inward ∙ ws), tcp ∙ bytes_at_server server ∙ ap concat (outward ∙ sent))
