-- ===== src/Rendezvous/Announced.antt =====
-- The event stream of a rendezvous server as a proxy takes it: rendezvous-server/src/main.rs (`listen`)
-- with rendezvous-proxy/src/lib.rs (`handle_sse_event`).
pub mod Tests
use siplane.Base.{
  ℕ, ◌+◌, ◌<◌, String, ◌≡◌, refl, ap, ◌∙◌, subst, true, Option, none, some, List, [], ◌∷◌, arith,
  ltb, length, All, lookup, insert,
}
use text.Mathlib.Text.{◌==◌ as str_eq}
use siplane.Rendezvous.Server.{State, TcpStream, Listener, Config, Listening, u64_mod}
use siplane.Rendezvous.Server.Stream as Stream
use siplane.Rendezvous.Server.Stream.{Runs, accepting}
use siplane.Rendezvous.Server.Stream.Address.{NewOnly, Runs-Opens, address_of}
use siplane.Rendezvous.Proxy.{
  ProxyState, new, SseMessage, listening, new_connection, SseEvent, handle_sse_event,
  handle_message, handle_new_connection_event,
}

-- a message of the server in the words of the proxy
abbrev pub as_proxy : Stream.SseMessage → SseMessage
as_proxy (Stream.listening l) = listening l
as_proxy (Stream.new_connection nc) = new_connection nc

-- An event without a type of its own is a "message".
abbrev pub event_of : (Stream.SseMessage → String) → Stream.SseMessage → SseEvent
event_of render m = record { event_type = "message"; data_text = render m }

module _ (render : Stream.SseMessage → String) (parse : String → SseMessage) where
  -- The proxy handles the events in their order; `none` is a panic.
  abbrev pub fed : ProxyState → List Stream.SseMessage → Option ProxyState
  fed s [] = some s
  fed s (m ∷ out) = elim (handle_sse_event parse (event_of render m) s) [
    | none ↦ none
    | some t ↦ fed t out
  ]

  -- The proxy parses what the server renders as the message that it was.
  abbrev pub ReadBack : List Stream.SseMessage → Type 0
  ReadBack = All (λ m. parse (render m) ≡ as_proxy m)

  fed_next :
      (s : ProxyState) (m : Stream.SseMessage) (out : List Stream.SseMessage) {t : ProxyState}
      → parse (render m) ≡ as_proxy m
      → handle_message (as_proxy m) s ≡ some t
      → fed s (m ∷ out) ≡ fed t out
  unfolding handle_sse_event
  fed_next s m out {t = t} b h =
      let step : handle_sse_event parse (event_of render m) s ≡ some t = rw b h in
      rw (fed, step) refl

  fed-NewOnly :
      (s : ProxyState) (out : List Stream.SseMessage)
      → ReadBack out
      → NewOnly out
      → s.connections_cnt + length out < u64_mod
      → (t : ProxyState) × (fed s out ≡ some t) × (t.public_addr ≡ s.public_addr)
  unfolding handle_message handle_new_connection_event
  fed-NewOnly s [] b n lt = (s, refl, refl)
  fed-NewOnly s (Stream.listening l ∷ out) b n lt = absurd n
  fed-NewOnly s (Stream.new_connection nc ∷ out) (b, bs) n lt =
      let next : ProxyState = record s {
        connections_cnt = s.connections_cnt + 1;
        connections = insert s.connections_cnt nc s.connections;
      } in
      let fits : ltb (s.connections_cnt + 1) u64_mod ≡ true = ground arith in
      let (t, e, a) = fed-NewOnly next out bs n (omega arith) in
      (t, fed_next s (Stream.new_connection nc) out b (rw fits refl) ∙ e, a)

  fed-listening :
      (s : ProxyState) (l : Listening) (out : List Stream.SseMessage)
      → ReadBack (Stream.listening l ∷ out)
      → NewOnly out
      → s.connections_cnt + length out < u64_mod
      → (t : ProxyState) × (fed s (Stream.listening l ∷ out) ≡ some t)
        × (t.public_addr ≡ some (l.public_hostname, l.public_port))
  unfolding handle_message
  fed-listening s l out (b, bs) n lt =
      let next : ProxyState = record s {
        public_addr = some (l.public_hostname, l.public_port);
        notified = s.notified + 1;
      } in
      let (t, e, a) = fed-NewOnly next out bs n lt in
      (t, fed_next s (Stream.listening l) out b refl ∙ e, a)

  module _ (show : ℕ → String) (cfg : Config) (listener_id : ℕ) where
    -- While a stream of the server waits for a connection to the listener with handle `h`, a new
    -- proxy that takes all it has yielded, in order, does not panic. The address the proxy then goes
    -- by is the server's public name with the port of that very listener, which the server still
    -- holds under `h`, whatever calls of others came between. This is for less than 2 ^ 64 messages,
    -- each of which the proxy parses as the message that the server rendered.
    pub proxy_learns_its_address :
        {s₀ : State} (h : ℕ) (s : State) (streams : List TcpStream) (out : List Stream.SseMessage)
        → Runs show cfg listener_id s₀ (accepting h) s streams out
        → ReadBack out
        → length out < u64_mod
        → (l : Listener) × (t : ProxyState) × (lookup h s.listeners ≡ some l)
          × (fed new out ≡ some t)
          × (t.public_addr ≡ some (cfg.public_hostname, l.port))
    unfolding new
    proxy_learns_its_address h s streams out r b lt =
        let (l, rest, o, n, (lt_h, known)) =
          Runs-Opens show cfg listener_id (accepting h) s streams out r in
        let told : List Stream.SseMessage =
          Stream.listening (address_of show cfg listener_id l) ∷ rest in
        let fits : length told < u64_mod = subst (λ x. length x < u64_mod) o lt in
        let (t, e, a) =
          fed-listening new (address_of show cfg listener_id l) rest (subst ReadBack o b) n
            (omega arith) in
        (l, t, known, ap (fed new) o ∙ e, a)
