-- ===== src/Connector/Sse/Keepalive.antt =====
-- When the connector gives up a stream that has fallen silent.
use siplane.Base.{
  ℕ, ◌-◌, ◌≡◌, refl, sym, ap, ◌∙◌, subst, ◌≢◌, ◌⊎◌, inl, inr, Bool, true, false, Option, none, some,
  List, [], ◌∷◌, arith, ltb, if◌then◌else◌, Bool-cases,
}
use siplane.Api.Coord.{StopJobMessage, JobState}
use siplane.Connector.Runner.{Handled, JobRunner}
use siplane.Connector.Sse.{
  SseEvent, Parse, Place, connecting, streaming, waiting, panicked, Connector, Input, client_built,
  event, comment, empty, stream_error, tick, waited, task_stops, step, Runs, stop, more,
  handle_sse_event, after_event, connecting_step, streaming_step, waiting_step, step_at, task_step,
  start,
}

module _ (r : JobRunner) where
  -- The time when something was last heard of the coordinator: that of the connection's building, of
  -- an event or of a comment.
  abbrev pub heard : ℕ → List (Input r) → ℕ
  heard t [] = t
  heard t (client_built true now ∷ is) = heard now is
  heard t (event ev a now ∷ is) = heard now is
  heard t (comment now ∷ is) = heard now is
  heard t (_ ∷ is) = heard t is

  abbrev Hears : Connector r → Input r → Connector r → Type 0
  Hears c i d =
      (d.place ≡ panicked)
      ⊎ ((d.last_message ≡ heard c.last_message (i ∷ [])) × (c.place ≢ panicked))

  -- the same of a step, where there is one
  abbrev StepHears : Connector r → Input r → Option (Connector r × List (ℕ × JobState)) → Type 0
  StepHears c i none = Unit
  StepHears c i (some (d, o)) = Hears c i d

  after_event-Hears :
      (ev : SseEvent) (a : r.Answers) (now : ℕ) (c : Connector r) (h : Handled r.State)
      → c.place ≡ streaming
      → Hears c (event ev a now) (after_event r now c h).0
  unfolding after_event
  after_event-Hears ev a now c h e = elim (Bool-cases h.panicked) [
    | inl p ↦ rw p (inl refl)
    | inr p ↦ rw p (inr (refl, λ f. ground arith))
  ]

  connecting_step-Hears :
      (c : Connector r) (i : Input r) → c.place ≡ connecting → StepHears c i (connecting_step r c i)
  unfolding connecting_step
  connecting_step-Hears c (client_built true now) e = inr (refl, λ f. ground arith)
  connecting_step-Hears c (client_built false now) e = inl refl
  connecting_step-Hears c (event ev a now) e = tt
  connecting_step-Hears c (comment now) e = tt
  connecting_step-Hears c empty e = tt
  connecting_step-Hears c stream_error e = tt
  connecting_step-Hears c (tick now) e = tt
  connecting_step-Hears c waited e = tt
  connecting_step-Hears c (task_stops msg a) e = tt

  module _ (parse : Parse) (t : ℕ) where
    streaming_step-Hears :
        (c : Connector r) (i : Input r)
        → c.place ≡ streaming
        → StepHears c i (streaming_step r parse t c i)
    unfolding streaming_step
    streaming_step-Hears c (event ev a now) e =
        after_event-Hears ev a now c (handle_sse_event r parse ev a c.runner) e
    streaming_step-Hears c (tick now) e = elim (Bool-cases (ltb t (now - c.last_message))) [
      | inl p ↦ rw p (inr (refl, λ f. ground arith))
      | inr p ↦ rw p (inr (refl, λ f. ground arith))
    ]
    streaming_step-Hears c (comment now) e = inr (refl, λ f. ground arith)
    streaming_step-Hears c empty e = inr (refl, λ f. ground arith)
    streaming_step-Hears c stream_error e = inr (refl, λ f. ground arith)
    streaming_step-Hears c (client_built ok now) e = tt
    streaming_step-Hears c waited e = tt
    streaming_step-Hears c (task_stops msg a) e = tt

    waiting_step-Hears :
        (c : Connector r) (i : Input r)
        → c.place ≡ waiting
        → StepHears c i (waiting_step r parse t c i)
    unfolding waiting_step
    waiting_step-Hears c waited e = inr (refl, λ f. ground arith)
    waiting_step-Hears c (client_built ok now) e = tt
    waiting_step-Hears c (event ev a now) e = tt
    waiting_step-Hears c (comment now) e = tt
    waiting_step-Hears c empty e = tt
    waiting_step-Hears c stream_error e = tt
    waiting_step-Hears c (tick now) e = tt
    waiting_step-Hears c (task_stops msg a) e = tt

    step_at-Hears :
        (p : Place) (c : Connector r) (i : Input r)
        → c.place ≡ p
        → StepHears c i (step_at r parse t p c i)
    unfolding step_at
    step_at-Hears connecting c i e = connecting_step-Hears c i e
    step_at-Hears streaming c i e = streaming_step-Hears c i e
    step_at-Hears waiting c i e = waiting_step-Hears c i e
    step_at-Hears panicked c i e = tt

    task-Hears :
        (c : Connector r) (msg : StopJobMessage) (a : r.Answers)
        → Hears c (task_stops msg a) (task_step r parse t c msg a).0
    unfolding task_step
    task-Hears c msg a = at_place c.place refl
      where
        at_place :
            (p : Place) → c.place ≡ p → Hears c (task_stops msg a) (task_step r parse t c msg a).0
        at_place panicked e = inl e
        at_place connecting e = inr (refl, λ f. ground arith)
        at_place streaming e = inr (refl, λ f. ground arith)
        at_place waiting e = inr (refl, λ f. ground arith)

    step-Hears : (c : Connector r) (i : Input r) → StepHears c i (step r parse t c i)
    unfolding step
    step-Hears c (task_stops msg a) = task-Hears c msg a
    step-Hears c (client_built ok now) = step_at-Hears c.place c (client_built ok now) refl
    step-Hears c (event ev a now) = step_at-Hears c.place c (event ev a now) refl
    step-Hears c (comment now) = step_at-Hears c.place c (comment now) refl
    step-Hears c empty = step_at-Hears c.place c empty refl
    step-Hears c stream_error = step_at-Hears c.place c stream_error refl
    step-Hears c (tick now) = step_at-Hears c.place c (tick now) refl
    step-Hears c waited = step_at-Hears c.place c waited refl

    heard-cons :
        (n : ℕ) (i : Input r) (is : List (Input r)) → heard (heard n (i ∷ [])) is ≡ heard n (i ∷ is)
    heard-cons n (client_built true now) is = refl
    heard-cons n (client_built false now) is = refl
    heard-cons n (event ev a now) is = refl
    heard-cons n (comment now) is = refl
    heard-cons n empty is = refl
    heard-cons n stream_error is = refl
    heard-cons n (tick now) is = refl
    heard-cons n waited is = refl
    heard-cons n (task_stops msg a) is = refl

    Runs-heard :
        (c d : Connector r) (is : List (Input r)) (out : List (ℕ × JobState))
        → Runs r parse t c is d out
        → d.place ≢ panicked
        → (d.last_message ≡ heard c.last_message is) × (c.place ≢ panicked)
    Runs-heard c d is out stop n = (refl, n)
    Runs-heard c d is out (more {d = m} {i = i} {is = js} {out = rest} e run) n =
        let (h, lives) = Runs-heard m d js rest run n in
        elim (subst (StepHears c i) e (step-Hears c i)) [
          | inl p ↦ absurd (lives p)
          | inr (k, alive) ↦ (h ∙ ap (λ x. heard x js) k ∙ heard-cons c.last_message i js, alive)
        ]

    tick_at :
        (c : Connector r) (b : Bool)
        → c.place ≡ streaming
        → if◌then◌else◌ {A = Option (Connector r × List (ℕ × JobState))} b
            (some (record c { place = waiting }, []))
            (some (c, []))
          ≡ some (record c { place = if b then waiting else streaming }, [])
    tick_at c true e = refl
    tick_at c false e = ap (λ p. some (record c { place = p }, [])) e

    step-tick :
        (c : Connector r) (now : ℕ)
        → c.place ≡ streaming
        → step r parse t c (tick now)
          ≡ some
              (record c { place = if ltb t (now - c.last_message) then waiting else streaming }, [])
    unfolding step step_at streaming_step
    step-tick c now e =
        ap (λ p. step_at r parse t p c (tick now)) e ∙ tick_at c (ltb t (now - c.last_message)) e

    -- At every tick of a run the connector gives up its stream, and waits before it connects again,
    -- exactly if more than the timeout has passed since the last event or comment or, if there was
    -- none, since it connected; a tick changes nothing else and reports nothing.
    pub coordinator_silence_reconnects :
        (s : r.State) (c : Connector r) (is : List (Input r)) (out : List (ℕ × JobState)) (now : ℕ)
        → Runs r parse t (start r s) is c out
        → c.place ≡ streaming
        → step r parse t c (tick now)
          ≡ some (record c { place = if ltb t (now - heard 0 is) then waiting else streaming }, [])
    unfolding start
    coordinator_silence_reconnects s c is out now run e =
        rw (sym (Runs-heard (start r s) c is out run (λ f. ground arith)).0) (step-tick c now e)
