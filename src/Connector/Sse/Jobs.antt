-- ===== src/Connector/Sse/Jobs.antt =====
-- What a connector's runner reports, over any run.
use siplane.Base.{
  ℕ, ◌-◌, ◌≡◌, refl, ◌∙◌, subst, ◌≢◌, Bool, true, false, Option, none, some, List, ◌++◌, ltb,
  if◌then◌else◌,
}
use siplane.Api.Coord
use siplane.Api.Coord.{JobState}
use siplane.Connector.Runner.{Handled, JobRunner}
use siplane.Connector.Runner.Slot.{track, StartServed-track, StopServed-track}
use text.Mathlib.Text.{◌==◌ as str_eq}
use siplane.Connector.Sse.{
  SseEvent, Parse, Place, connecting, streaming, waiting, panicked, Connector, Input, client_built,
  event, comment, empty, stream_error, tick, waited, task_stops, step, Runs, stop, more,
  handle_message, handle_sse_event, after_event, connecting_step, streaming_step, waiting_step,
  step_at, task_step, start,
}

module _ (r : JobRunner) where
  open r use {State, Answers, job_of, start_served, stop_served}

  -- What is reported leads from the job that runs to the job that runs after it.
  abbrev Tracks : State → State → List (ℕ × JobState) → Type 0
  Tracks s t o = (u : List (ℕ × JobState)) → track (job_of s) (o ++ u) ≡ track (job_of t) u

  abbrev Served : State → Handled State → Type 0
  Served s h = Tracks s h.state h.reports

  -- The message does not start the job that the runner has already.
  abbrev pub NotAgain : Option Coord.SseMessage → Option ℕ → Type 0
  NotAgain (some (Coord.start_job msg)) job = job ≢ some msg.job_id
  NotAgain _ job = Unit

  handle_message-Served :
      (m : Option Coord.SseMessage) (a : Answers) (s : State)
      → NotAgain m (job_of s)
      → Served s (handle_message r m a s)
  unfolding handle_message
  handle_message-Served none a s w u = refl
  handle_message-Served (some Coord.update_state) a s w u = refl
  handle_message-Served (some (Coord.start_job msg)) a s w u =
      StartServed-track msg.job_id (start_served a msg s) w u
  handle_message-Served (some (Coord.stop_job msg)) a s w u =
      StopServed-track msg.job_id (stop_served a msg s) u

  if-Served :
      (b : Bool) (s : State) (h k : Handled State)
      → Served s h
      → Served s k
      → Served s (if b then h else k)
  if-Served true s h k x y = x
  if-Served false s h k x y = y

  -- the same of a step, where there is one
  abbrev Leads : Connector r → Option (Connector r × List (ℕ × JobState)) → Type 0
  Leads c none = Unit
  Leads c (some (d, o)) = Tracks c.runner d.runner o

  after_event-Leads :
      (now : ℕ) (c : Connector r) (h : Handled State)
      → Served c.runner h
      → Leads c (some (after_event r now c h))
  unfolding after_event
  after_event-Leads now c h k = if-runner h.panicked
    where
      if-runner :
          (b : Bool)
          → Tracks c.runner
              (if b
                then record c { place = panicked; runner = h.state }
                else record c { last_message = now; runner = h.state }).runner
              h.reports
      if-runner true = k
      if-runner false = k

  connecting_step-Leads : (c : Connector r) (i : Input r) → Leads c (connecting_step r c i)
  unfolding connecting_step
  connecting_step-Leads c (client_built true now) = λ u. refl
  connecting_step-Leads c (client_built false now) = λ u. refl
  connecting_step-Leads c (event ev a now) = tt
  connecting_step-Leads c (comment now) = tt
  connecting_step-Leads c empty = tt
  connecting_step-Leads c stream_error = tt
  connecting_step-Leads c (tick now) = tt
  connecting_step-Leads c waited = tt
  connecting_step-Leads c (task_stops msg a) = tt

  module _ (parse : Parse) (t : ℕ) where
    handle_sse_event-Served :
        (ev : SseEvent) (a : Answers) (s : State)
        → NotAgain (parse ev.data_text) (job_of s)
        → Served s (handle_sse_event r parse ev a s)
    unfolding handle_sse_event
    handle_sse_event-Served ev a s w =
        if-Served (str_eq ev.event_type "message") s _ _
          (handle_message-Served (parse ev.data_text) a s w) (λ u. refl)

    -- the same of an input
    abbrev pub Apart : Connector r → Input r → Type 0
    Apart c (event ev a now) = NotAgain (parse ev.data_text) (job_of c.runner)
    Apart c i = Unit

    if-Leads :
        (b : Bool) (c : Connector r) (x y : Option (Connector r × List (ℕ × JobState)))
        → Leads c x
        → Leads c y
        → Leads c (if b then x else y)
    if-Leads true c x y h k = h
    if-Leads false c x y h k = k

    streaming_step-Leads :
        (c : Connector r) (i : Input r) → Apart c i → Leads c (streaming_step r parse t c i)
    unfolding streaming_step
    streaming_step-Leads c (event ev a now) w =
        after_event-Leads now c (handle_sse_event r parse ev a c.runner)
          (handle_sse_event-Served ev a c.runner w)
    streaming_step-Leads c (tick now) w =
        if-Leads (ltb t (now - c.last_message)) c _ _ (λ u. refl) (λ u. refl)
    streaming_step-Leads c (comment now) w = λ u. refl
    streaming_step-Leads c empty w = λ u. refl
    streaming_step-Leads c stream_error w = λ u. refl
    streaming_step-Leads c (client_built ok now) w = tt
    streaming_step-Leads c waited w = tt
    streaming_step-Leads c (task_stops msg a) w = tt

    waiting_step-Leads : (c : Connector r) (i : Input r) → Leads c (waiting_step r parse t c i)
    unfolding waiting_step
    waiting_step-Leads c waited = λ u. refl
    waiting_step-Leads c (client_built ok now) = tt
    waiting_step-Leads c (event ev a now) = tt
    waiting_step-Leads c (comment now) = tt
    waiting_step-Leads c empty = tt
    waiting_step-Leads c stream_error = tt
    waiting_step-Leads c (tick now) = tt
    waiting_step-Leads c (task_stops msg a) = tt

    step_at-Leads :
        (p : Place) (c : Connector r) (i : Input r) → Apart c i → Leads c (step_at r parse t p c i)
    unfolding step_at
    step_at-Leads connecting c i w = connecting_step-Leads c i
    step_at-Leads streaming c i w = streaming_step-Leads c i w
    step_at-Leads waiting c i w = waiting_step-Leads c i
    step_at-Leads panicked c i w = tt

    step-Leads : (c : Connector r) (i : Input r) → Apart c i → Leads c (step r parse t c i)
    unfolding step task_step
    step-Leads c (task_stops msg a) w = StopServed-track msg.job_id (stop_served a msg c.runner)
    step-Leads c (client_built ok now) w = step_at-Leads c.place c (client_built ok now) w
    step-Leads c (event ev a now) w = step_at-Leads c.place c (event ev a now) w
    step-Leads c (comment now) w = step_at-Leads c.place c (comment now) w
    step-Leads c empty w = step_at-Leads c.place c empty w
    step-Leads c stream_error w = step_at-Leads c.place c stream_error w
    step-Leads c (tick now) w = step_at-Leads c.place c (tick now) w
    step-Leads c waited w = step_at-Leads c.place c waited w

    -- No message of the run starts the job that the runner has when it comes.
    abbrev pub AllApart :
        {c d : Connector r} {is : List (Input r)} {out : List (ℕ × JobState)}
        → Runs r parse t c is d out
        → Type 0
    AllApart stop = Unit
    AllApart (more {c = c} {i = i} e run) = Apart c i × AllApart run

    Runs-track :
        (c d : Connector r) (is : List (Input r)) (out : List (ℕ × JobState))
        → (run : Runs r parse t c is d out) → AllApart run
        → track (job_of c.runner) out ≡ some (job_of d.runner)
    Runs-track c d is out stop w = refl
    Runs-track c d is out (more {d = m} {i = i} {is = js} {out = rest} e run) (w, ws) =
        subst (Leads c) e (step-Leads c i w) rest ∙ Runs-track m d js rest run ws

    -- If the coordinator takes every report and never starts the job that the runner has already: the
    -- reports of a run that starts without a job never have two jobs ready at once and never stop a job
    -- that is not ready, and the job that they leave ready is the one that the runner has. A job is
    -- ready from its `Ready` on until it is `Stopping`, or has `Finished` or `Failed`.
    pub one_job_at_a_time :
        (s : State) (c : Connector r) (is : List (Input r)) (out : List (ℕ × JobState))
        → job_of s ≡ none
        → (run : Runs r parse t (start r s) is c out) → AllApart run
        → track none out ≡ some (job_of c.runner)
    unfolding start
    one_job_at_a_time s c is out e run w =
        subst (λ j. track j out ≡ some (job_of c.runner)) e (Runs-track (start r s) c is out run w)
