-- ===== src/Rendezvous/Proxy/Listener/Keepalive.antt =====
-- rendezvous-proxy/src/lib.rs: when `sse_loop` connects again, and when it ends.
use siplane.Base.{
  ℕ, suc, ◌+◌, ◌-◌, ◌≤◌, String, ◌≡◌, refl, sym, ap, ◌∙◌, ◌≢◌, true, false, some, List, [], ◌∷◌,
  arith, ltb, if◌then◌else◌,
}
use siplane.Rendezvous.Server.{u64_mod}
use siplane.Rendezvous.Proxy.{SseMessage, new}
use siplane.Rendezvous.Proxy.Listener.Panics.{events, runs_counts}
use siplane.Rendezvous.Proxy.Listener.{
  Place, streaming, waiting, ended, failed, panicked, Listener, start, Input, client_built,
  shutdown, channel_closed, event, comment, empty, stream_error, tick, waited, connecting_step,
  streaming_step, waiting_step, step_at, step, Runs, stop, more,
}

-- when the last event or comment came in, or else when the client was built; from `n` on
unfoldable pub last_heard : ℕ → List Input → ℕ
last_heard n [] = n
last_heard n (client_built true now ∷ is) = last_heard now is
last_heard n (event ev now ∷ is) = last_heard now is
last_heard n (comment now ∷ is) = last_heard now is
last_heard n (_ ∷ is) = last_heard n is

unfoldable pub shutdowns : List Input → ℕ
shutdowns [] = 0
shutdowns (shutdown ∷ is) = suc (shutdowns is)
shutdowns (_ ∷ is) = shutdowns is

unfoldable pub failed_builds : List Input → ℕ
failed_builds [] = 0
failed_builds (client_built false now ∷ is) = suc (failed_builds is)
failed_builds (_ ∷ is) = failed_builds is

abbrev pub ended_count : Place → ℕ
ended_count ended = 1
ended_count _ = 0

abbrev pub failed_count : Place → ℕ
failed_count failed = 1
failed_count _ = 0

shutdowns-cons :
    (i : Input) (is : List Input) → shutdowns (i ∷ is) ≡ shutdowns (i ∷ []) + shutdowns is
unfolding shutdowns
shutdowns-cons (client_built ok now) is = omega arith
shutdowns-cons shutdown is = omega arith
shutdowns-cons channel_closed is = omega arith
shutdowns-cons (event ev now) is = omega arith
shutdowns-cons (comment now) is = omega arith
shutdowns-cons empty is = omega arith
shutdowns-cons stream_error is = omega arith
shutdowns-cons (tick now) is = omega arith
shutdowns-cons waited is = omega arith

failed_builds-cons :
    (i : Input) (is : List Input)
    → failed_builds (i ∷ is) ≡ failed_builds (i ∷ []) + failed_builds is
unfolding failed_builds
failed_builds-cons (client_built true now) is = omega arith
failed_builds-cons (client_built false now) is = omega arith
failed_builds-cons shutdown is = omega arith
failed_builds-cons channel_closed is = omega arith
failed_builds-cons (event ev now) is = omega arith
failed_builds-cons (comment now) is = omega arith
failed_builds-cons empty is = omega arith
failed_builds-cons stream_error is = omega arith
failed_builds-cons (tick now) is = omega arith
failed_builds-cons waited is = omega arith

last_heard-cons :
    (n : ℕ) (i : Input) (is : List Input)
    → last_heard n (i ∷ is) ≡ last_heard (last_heard n (i ∷ [])) is
unfolding last_heard
last_heard-cons n (client_built true now) is = refl
last_heard-cons n (client_built false now) is = refl
last_heard-cons n shutdown is = refl
last_heard-cons n channel_closed is = refl
last_heard-cons n (event ev now) is = refl
last_heard-cons n (comment now) is = refl
last_heard-cons n empty is = refl
last_heard-cons n stream_error is = refl
last_heard-cons n (tick now) is = refl
last_heard-cons n waited is = refl

module _ (parse : String → SseMessage) (timeout : ℕ) where
  step_ends :
      (l m : Listener) (i : Input)
      → step parse timeout l i ≡ some m
      → (ended_count m.place ≡ ended_count l.place + shutdowns (i ∷ []))
        × (failed_count m.place ≡ failed_count l.place + failed_builds (i ∷ []))
        × (m.place ≢ panicked → m.last_message ≡ last_heard l.last_message (i ∷ []))
        × (l.place ≢ panicked)
  unfolding step step_at connecting_step streaming_step waiting_step shutdowns failed_builds
      last_heard
  step_ends l m (client_built true now) e = ground arith
  step_ends l m (client_built false now) e = ground arith
  step_ends l m shutdown e = ground arith
  step_ends l m channel_closed e = ground arith
  step_ends l m (event ev now) e = ground arith
  step_ends l m (comment now) e = ground arith
  step_ends l m empty e = ground arith
  step_ends l m stream_error e = ground arith
  step_ends l m (tick now) e = ground arith
  step_ends l m waited e = ground arith

  runs_end :
      {l m : Listener} {is : List Input}
      → Runs parse timeout l is m
      → (ended_count m.place ≡ ended_count l.place + shutdowns is)
        × (failed_count m.place ≡ failed_count l.place + failed_builds is)
        × (m.place ≢ panicked → m.last_message ≡ last_heard l.last_message is)
        × (l.place ≡ panicked → m.place ≡ panicked)
  unfolding shutdowns failed_builds last_heard
  runs_end stop = (omega arith, omega arith, λ n. refl, λ e. e)
  runs_end {l = l} (more {m = m} {i = i} {is = is} e r) =
      let (a, b, c, d) = step_ends l m i e in
      let (a', b', c', d') = runs_end r in
      (
        omega (arith, shutdowns-cons i is),
        omega (arith, failed_builds-cons i is),
        λ n.
            c' n
            ∙ (ap (λ t. last_heard t is) (c (λ p. n (d' p)))
                ∙ sym (last_heard-cons l.last_message i is)),
        λ p. absurd (d p),
      )

  -- The listener ends without an error exactly when it has taken a command to shut down, and with
  -- one exactly when its client could not be built. It panics only if it has taken 2 ^ 64 events at
  -- least. So as long as no command, no failed client and not so many events come, it goes on, whatever
  -- errors of the stream or silences there are.
  pub listener_ends :
      {l : Listener} {is : List Input}
      → Runs parse timeout start is l
      → (ended_count l.place ≡ shutdowns is)
        × (failed_count l.place ≡ failed_builds is)
        × (l.place ≡ panicked → u64_mod ≤ events is)
  unfolding start new
  listener_ends r =
      let (a, b, c, d) = runs_end r in
      (
        omega arith,
        omega arith,
        λ p. let n = runs_counts parse timeout r (λ e. ground arith) p in omega arith,
      )

  -- While it streams, a tick of the timer makes the listener connect again just when more than the
  -- timeout has gone by since the last event or comment, or since the client was built if there was
  -- none.
  pub silence_reconnects :
      {l : Listener} {is : List Input} (now : ℕ)
      → Runs parse timeout start is l
      → l.place ≡ streaming
      → step parse timeout l (tick now)
        ≡ some (if ltb timeout (now - last_heard 0 is) then record l { place = waiting } else l)
  unfolding start step step_at streaming_step
  silence_reconnects {l = l} now r e =
      let (a, b, c, d) = runs_end r in let heard = c (ground arith) in ground (arith, heard)
