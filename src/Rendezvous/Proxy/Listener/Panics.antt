-- ===== src/Rendezvous/Proxy/Listener/Panics.antt =====
-- rendezvous-proxy/src/lib.rs: how many events it takes to make `sse_loop` panic.
use siplane.Base.{
  ℕ, ◌+◌, ◌≤◌, String, ◌≡◌, refl, ◌≢◌, ◌⊎◌, inl, inr, true, false, some, List, [], ◌∷◌, arith,
}
use siplane.Rendezvous.Proxy.{
  SseMessage, handle_sse_event, handle_message, handle_new_connection_event,
}
use siplane.Rendezvous.Server.{u64_mod}
use siplane.Rendezvous.Proxy.Listener.{
  Place, connecting, streaming, waiting, ended, failed, panicked, Listener, Input, client_built,
  shutdown, channel_closed, event, comment, empty, stream_error, tick, waited, connecting_step,
  streaming_step, waiting_step, step_at, step, Runs, stop, more,
}

panicked-cases : (p : Place) → (p ≡ panicked) ⊎ (p ≢ panicked)
panicked-cases panicked = inl refl
panicked-cases connecting = inr λ e. ground arith
panicked-cases streaming = inr λ e. ground arith
panicked-cases waiting = inr λ e. ground arith
panicked-cases ended = inr λ e. ground arith
panicked-cases failed = inr λ e. ground arith

abbrev event_count : Input → ℕ
event_count (event ev now) = 1
event_count _ = 0

abbrev pub events : List Input → ℕ
events [] = 0
events (i ∷ is) = event_count i + events is

module _ (parse : String → SseMessage) (timeout : ℕ) where
  -- A step counts at most its event as a connection, and panics only if the counter overflows.
  step_counts :
      (l m : Listener) (i : Input)
      → step parse timeout l i ≡ some m
      → (m.proxy.connections_cnt ≤ l.proxy.connections_cnt + event_count i)
        × (m.place ≡ panicked → u64_mod ≤ l.proxy.connections_cnt + event_count i)
  unfolding step step_at connecting_step streaming_step waiting_step handle_sse_event handle_message
      handle_new_connection_event
  step_counts l m (client_built true now) e = ground arith
  step_counts l m (client_built false now) e = ground arith
  step_counts l m shutdown e = ground arith
  step_counts l m channel_closed e = ground arith
  step_counts l m (event ev now) e = ground arith
  step_counts l m (comment now) e = ground arith
  step_counts l m empty e = ground arith
  step_counts l m stream_error e = ground arith
  step_counts l m (tick now) e = ground arith
  step_counts l m waited e = ground arith

  pub runs_counts :
      {l m : Listener} {is : List Input}
      → Runs parse timeout l is m
      → l.place ≢ panicked
      → m.place ≡ panicked
      → u64_mod ≤ l.proxy.connections_cnt + events is
  runs_counts stop n p = absurd (n p)
  runs_counts {l = l} (more {m = m} {i = i} {is = is} e r) n p =
      let (a, b) = step_counts l m i e in
      elim (panicked-cases m.place) [
        | inl q ↦ let c = b q in omega arith
        | inr q ↦ let c = runs_counts r q p in omega arith
      ]
