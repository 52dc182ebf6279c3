-- ===== src/Rendezvous/Proxy/Listener/Tracking.antt =====
-- rendezvous-proxy/src/lib.rs: what a proxy knows and has opened after any stretch of `sse_loop`.
use siplane.Base.{
  ℕ, ◌+◌, ◌-◌, ◌≤◌, ◌<◌, String, ◌≡◌, refl, subst, ◌≢◌, inl, inr, true, false, Option, none, some,
  List, [], ◌∷◌, arith, ◌==◌, if◌then◌else◌, Bool-cases, Option-cases, length, lookup,
  lookup-insert,
}
use text.Mathlib.Text.{◌==◌ as str_eq}
use siplane.Rendezvous.Server.{NewConnection}
use siplane.Rendezvous.Proxy.{
  ProxyState, SseMessage, listening, new_connection, malformed, SseEvent, new, handle_sse_event,
  handle_message, handle_new_connection_event,
}
use siplane.Rendezvous.Proxy.Listener.{
  panicked, Listener, start, Input, client_built, shutdown, channel_closed, event, comment, empty,
  stream_error, tick, waited, connecting_step, streaming_step, waiting_step, step_at, step, Runs,
  stop, more,
}

-- the messages among the inputs
unfoldable pub messages : (String → SseMessage) → List Input → List SseMessage
messages parse [] = []
messages parse (event ev now ∷ is) =
    let rest = messages parse is in
    if str_eq ev.event_type "message" then parse ev.data_text ∷ rest else rest
messages parse (_ ∷ is) = messages parse is

unfoldable pub announced : List SseMessage → List NewConnection
announced [] = []
announced (new_connection nc ∷ ms) = nc ∷ announced ms
announced (_ ∷ ms) = announced ms

unfoldable pub last_address : Option (String × ℕ) → List SseMessage → Option (String × ℕ)
last_address a [] = a
last_address a (listening l ∷ ms) = last_address (some (l.public_hostname, l.public_port)) ms
last_address a (_ ∷ ms) = last_address a ms

abbrev pub nth {ℓ} : {A : Type ℓ} → ℕ → List A → Option A
nth n [] = none
nth n (x ∷ xs) = if n == 0 then some x else nth (n - 1) xs

-- From `s` to `t` by the messages `ms`.
record Tracks (s t : ProxyState) (ms : List SseMessage) : Type 0 where
  address : t.public_addr ≡ last_address s.public_addr ms
  count : t.connections_cnt ≡ s.connections_cnt + length (announced ms)
  kept : (k : ℕ) → k < s.connections_cnt → lookup k t.connections ≡ lookup k s.connections
  opened :
      (k : ℕ)
      → s.connections_cnt ≤ k
      → k < t.connections_cnt
      → lookup k t.connections ≡ nth (k - s.connections_cnt) (announced ms)

message-Tracks :
    (m : SseMessage) (s t u : ProxyState) (ms : List SseMessage)
    → handle_message m s ≡ some t
    → Tracks t u ms
    → Tracks s u (m ∷ ms)
unfolding handle_message handle_new_connection_event last_address announced
message-Tracks (listening l) s t u ms e h = record {
  address = ground (arith, h.address);
  count = ground (arith, h.count);
  kept = λ k lt. ground (arith, h.kept k);
  opened = λ k le lt. ground (arith, h.opened k);
}
message-Tracks (new_connection nc) s t u ms e h = record {
  address = ground (arith, h.address);
  count = ground (arith, h.count);
  kept = λ k lt. ground (arith, h.kept k, lookup-insert s.connections_cnt k nc s.connections);
  opened = λ k le lt.
      ground (arith, h.kept k, h.opened k, lookup-insert s.connections_cnt k nc s.connections);
}
message-Tracks malformed s t u ms e h = record {
  address = ground (arith, h.address);
  count = ground (arith, h.count);
  kept = λ k lt. ground (arith, h.kept k);
  opened = λ k le lt. ground (arith, h.opened k);
}

none-Tracks : (s : ProxyState) → Tracks s s []
unfolding last_address announced
none-Tracks s = record {
  address = refl;
  count = omega arith;
  kept = λ k lt. refl;
  opened = λ k le lt. ground arith;
}

module _ (parse : String → SseMessage) (timeout : ℕ) where
  panicked_stays :
      {l m : Listener} {is : List Input}
      → Runs parse timeout l is m
      → l.place ≡ panicked
      → m.place ≡ panicked
  unfolding step step_at
  panicked_stays stop e = e
  panicked_stays (more h r) e = ground arith

  event_step :
      (l m : Listener) (u : ProxyState) (ev : SseEvent) (now : ℕ) (is : List Input)
      → step parse timeout l (event ev now) ≡ some m
      → m.place ≢ panicked
      → Tracks m.proxy u (messages parse is)
      → Tracks l.proxy u (messages parse (event ev now ∷ is))
  unfolding step step_at connecting_step streaming_step waiting_step handle_sse_event messages
  event_step l m u ev now is e n h = elim (Bool-cases (str_eq ev.event_type "message")) [
    | inl q ↦ rw (q) (elim (Option-cases (handle_message (parse ev.data_text) l.proxy)) [
      | inl z ↦ ground arith
      | inr (t, z) ↦
          message-Tracks (parse ev.data_text) l.proxy t u (messages parse is) z
            (subst (λ s. Tracks s u (messages parse is)) (ground arith) h)
    ])
    | inr q ↦ rw (q) (subst (λ s. Tracks s u (messages parse is)) (ground arith) h)
  ]

  -- Any other input leaves the proxy as it is.
  same : {s t u : ProxyState} {ms : List SseMessage} → t ≡ s → Tracks t u ms → Tracks s u ms
  same {u = u} {ms = ms} e h = subst (λ s. Tracks s u ms) e h

  input_step :
      (l m : Listener) (u : ProxyState) (i : Input) (is : List Input)
      → step parse timeout l i ≡ some m
      → m.place ≢ panicked
      → Tracks m.proxy u (messages parse is)
      → Tracks l.proxy u (messages parse (i ∷ is))
  unfolding step step_at connecting_step streaming_step waiting_step messages
  input_step l m u (event ev now) is e n h = event_step l m u ev now is e n h
  input_step l m u (client_built true now) is e n h =
      same {s = l.proxy} {t = m.proxy} (ground arith) h
  input_step l m u (client_built false now) is e n h =
      same {s = l.proxy} {t = m.proxy} (ground arith) h
  input_step l m u shutdown is e n h = same {s = l.proxy} {t = m.proxy} (ground arith) h
  input_step l m u channel_closed is e n h = same {s = l.proxy} {t = m.proxy} (ground arith) h
  input_step l m u (comment now) is e n h = same {s = l.proxy} {t = m.proxy} (ground arith) h
  input_step l m u empty is e n h = same {s = l.proxy} {t = m.proxy} (ground arith) h
  input_step l m u stream_error is e n h = same {s = l.proxy} {t = m.proxy} (ground arith) h
  input_step l m u (tick now) is e n h = same {s = l.proxy} {t = m.proxy} (ground arith) h
  input_step l m u waited is e n h = same {s = l.proxy} {t = m.proxy} (ground arith) h

  runs-Tracks :
      {l m : Listener} {is : List Input}
      → Runs parse timeout l is m
      → m.place ≢ panicked
      → Tracks l.proxy m.proxy (messages parse is)
  unfolding messages
  runs-Tracks {l = l} stop n = none-Tracks l.proxy
  runs-Tracks {l = l} (more {m = m} {n = k} {i = i} {is = is} e r) n =
      input_step l m k.proxy i is e (λ p. n (panicked_stays r p)) (runs-Tracks r n)

  -- Over all its connections to the server, and as long as the counter does not overflow: the public
  -- address is that of the last `Listening` message, and each `NewConnection` message has opened
  -- one connection of its own, numbered in the order of the messages from 0 on. None is ever
  -- dropped from the map.
  pub listener_tracks :
      {l : Listener} {is : List Input}
      → Runs parse timeout start is l
      → l.place ≢ panicked
      → let ms = messages parse is in
        (l.proxy.public_addr ≡ last_address none ms)
        × (l.proxy.connections_cnt ≡ length (announced ms))
        × ((k : ℕ)
            → k < length (announced ms)
            → lookup k l.proxy.connections ≡ nth k (announced ms))
  unfolding start new
  listener_tracks r n =
      let h = runs-Tracks r n in
      (h.address, ground (arith, h.count), λ k lt. ground (arith, h.count, h.opened k))
