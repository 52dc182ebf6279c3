-- ===== src/Rendezvous/Server/Bridge/Relay.antt =====
-- rendezvous-server/src/main.rs: what the loop of `accept` passes on in each direction.
use siplane.Base.{
  ℕ, zero, suc, ◌+◌, ◌-◌, ◌≡◌, refl, sym, ap, ◌∙◌, ◌≢◌, true, false, none, some, List, [], ◌∷◌,
  ◌++◌, append-nil, append_assoc, arith, length, length-append, take,
}
use siplane.Rendezvous.Server.Bridge.{
  binary, unknown, Event, frame, disconnected, errored, read, relaying, closed, panicked, Bridge,
  write_frame, close, forward_read, turn, relay, start, sent_by_client, read_from_tcp, WholeWrites,
  left_out, taken,
}

take-length : (xs : List ℕ) → take (length xs) xs ≡ xs
take-length [] = refl
take-length (x ∷ xs) = ap (λ t. x ∷ t) (take-length xs)

length-take : (n : ℕ) (xs : List ℕ) → length (take n xs) + (length xs - n) ≡ length xs
length-take zero xs = omega arith
length-take (suc n) [] = omega arith
length-take (suc n) (x ∷ xs) = omega (arith, length-take n xs)

at_rest : (es : List Event) (b : Bridge) → b.place ≢ relaying → relay b es ≡ b
unfolding relay
at_rest [] b n = refl
at_rest (e ∷ es) b n = ground arith

relays :
    (es : List Event) (b : Bridge)
    → b.place ≡ relaying
    → WholeWrites es
    → ((relay b es).tcp ≡ b.tcp ++ sent_by_client es) × ((relay b es).ws ≡ b.ws ++ read_from_tcp es)
unfolding relay turn write_frame close forward_read sent_by_client read_from_tcp WholeWrites
relays [] b on w = (sym (append-nil b.tcp), sym (append-nil b.ws))
relays (frame (binary bytes) none ∷ es) b on w = ground arith
relays (frame (binary bytes) (some n) ∷ es) b on w = ground (
  arith,
  relays es (turn b (frame (binary bytes) (some n))),
  take-length bytes,
  append_assoc b.tcp bytes (sent_by_client es),
)
relays (frame unknown written ∷ es) b on w = ground (arith, relays es b)
relays (disconnected true ∷ es) b on w =
    ground (arith, at_rest es (record b { place = closed }), append-nil b.tcp, append-nil b.ws)
relays (disconnected false ∷ es) b on w =
    ground (arith, at_rest es (record b { place = panicked }), append-nil b.tcp, append-nil b.ws)
relays (errored true ∷ es) b on w =
    ground (arith, at_rest es (record b { place = closed }), append-nil b.tcp, append-nil b.ws)
relays (errored false ∷ es) b on w =
    ground (arith, at_rest es (record b { place = panicked }), append-nil b.tcp, append-nil b.ws)
relays (read none ∷ es) b on w = absurd (w.0 refl)
relays (read (some bytes) ∷ es) b on w = ground (
  arith,
  relays es (turn b (read (some bytes))),
  append_assoc b.ws (bytes ∷ []) (read_from_tcp es),
)

accounted : (es : List Event) → length (taken es) + left_out es ≡ length (sent_by_client es)
unfolding taken left_out sent_by_client
accounted [] = omega arith
accounted (frame (binary bytes) none ∷ es) = omega arith
accounted (frame (binary bytes) (some n) ∷ es) = ground (
  arith,
  accounted es,
  length-take n bytes,
  length-append (take n bytes) (taken es),
  length-append bytes (sent_by_client es),
)
accounted (frame unknown written ∷ es) = accounted es
accounted (disconnected shut ∷ es) = omega arith
accounted (errored shut ∷ es) = omega arith
accounted (read none ∷ es) = omega arith
accounted (read (some bytes) ∷ es) = accounted es

passes_on :
    (es : List Event) (b : Bridge) → b.place ≡ relaying → (relay b es).tcp ≡ b.tcp ++ taken es
unfolding relay turn write_frame close forward_read taken
passes_on [] b on = sym (append-nil b.tcp)
passes_on (frame (binary bytes) none ∷ es) b on =
    ground (arith, at_rest es (record b { place = panicked }), append-nil b.tcp)
passes_on (frame (binary bytes) (some n) ∷ es) b on = ground (
  arith,
  passes_on es (turn b (frame (binary bytes) (some n))),
  append_assoc b.tcp (take n bytes) (taken es),
)
passes_on (frame unknown written ∷ es) b on = ground (arith, passes_on es b)
passes_on (disconnected true ∷ es) b on =
    ground (arith, at_rest es (record b { place = closed }), append-nil b.tcp)
passes_on (disconnected false ∷ es) b on =
    ground (arith, at_rest es (record b { place = panicked }), append-nil b.tcp)
passes_on (errored true ∷ es) b on =
    ground (arith, at_rest es (record b { place = closed }), append-nil b.tcp)
passes_on (errored false ∷ es) b on =
    ground (arith, at_rest es (record b { place = panicked }), append-nil b.tcp)
passes_on (read none ∷ es) b on =
    ground (arith, at_rest es (record b { place = panicked }), append-nil b.tcp)
passes_on (read (some bytes) ∷ es) b on = ground (arith, passes_on es (turn b (read (some bytes))))

module _ (es : List Event) where
  -- If every write takes its whole frame and no read fails, the connection gets the bytes of the
  -- client's frames, all and in order, and the client a frame for each read, in order.
  pub bridge_relays :
      WholeWrites es
      → ((relay start es).tcp ≡ sent_by_client es) × ((relay start es).ws ≡ read_from_tcp es)
  unfolding start
  bridge_relays = relays es start refl

  -- Of the client's frames the connection gets, in order, just the first bytes that each write took,
  -- up to a failure or the end of the WebSocket: what a short write leaves out of its frame is never
  -- written. So the connection is as many bytes short of what the client sent as are left out.
  pub short_writes_lose :
      ((relay start es).tcp ≡ taken es)
      × (length (relay start es).tcp + left_out es ≡ length (sent_by_client es))
  unfolding start
  short_writes_lose =
      let gets = passes_on es start refl in
      (gets, ap (λ n. n + left_out es) (ap length gets) ∙ accounted es)
