-- ===== src/Connector/Sse.antt =====
-- sse-connector/src/lib.rs: the connector that takes a runner's messages from the coordinator.
pub mod Jobs
pub mod Keepalive
pub mod Lossy
use siplane.Base.{
  ℕ, ◌-◌, String, ◌≡◌, Bool, true, false, Option, none, some, List, [], ◌∷◌, ◌++◌, ltb,
  if◌then◌else◌,
}
use text.Mathlib.Text.{◌==◌ as str_eq}
use siplane.Api.Coord
use siplane.Api.Coord.{StopJobMessage, JobState}
use siplane.Connector.Runner.{Handled, JobRunner}

-- an event of the stream
pub record SseEvent : Type 0 where
  pub event_type : String
  pub data_text : String

-- `none` is an error of `serde_json::from_str`.
abbrev pub Parse : Type 0
Parse = String → Option Coord.SseMessage

-- `run` builds its client, waits in its `select!`, or waits before it connects again. It does not
-- return.
pub data Place : Type 0 where
  connecting streaming waiting panicked : Place

module _ (r : JobRunner) where
  open r use {State, Answers, start_job, stop_job}

  handle_message : Option Coord.SseMessage → Answers → State → Handled State
  handle_message none a s = record { state = s; reports = []; panicked = false }
  handle_message (some Coord.update_state) a s = record {
    state = s;
    reports = [];
    panicked = false;
  }
  handle_message (some (Coord.start_job msg)) a s = start_job a msg s
  handle_message (some (Coord.stop_job msg)) a s = stop_job a msg s

  -- "close" and unknown types of event are printed.
  unfoldable pub handle_sse_event : Parse → SseEvent → Answers → State → Handled State
  unfolding handle_message
  handle_sse_event parse ev a s =
      let handled = handle_message (parse ev.data_text) a s in
      if str_eq ev.event_type "message"
      then handled
      else record { state = s; reports = []; panicked = false }

  pub record Connector : Type 0 where
    pub place : Place
    pub last_message : ℕ
    pub runner : State

  unfoldable pub start : State → Connector
  start s = record { place = connecting; last_message = 0; runner = s }

  -- What `run` goes on with, with the time where it reads the clock, and with what the surroundings
  -- of the runner answer while it handles a message. At any time a task of the runner's own may call
  -- `stop_job`, as a console streamer does.
  pub data Input : Type 0 where
    client_built : (ok : Bool) → (now : ℕ) → Input
    event : SseEvent → Answers → (now : ℕ) → Input
    comment : (now : ℕ) → Input
    empty stream_error : Input
    tick : (now : ℕ) → Input
    waited : Input
    task_stops : StopJobMessage → Answers → Input

  -- A panic of a handler is one of `run`.
  after_event : ℕ → Connector → Handled State → Connector × List (ℕ × JobState)
  after_event now c h = (
    if h.panicked
        then record c { place = panicked; runner = h.state }
        else record c { last_message = now; runner = h.state },
    h.reports,
  )

  connecting_step : Connector → Input → Option (Connector × List (ℕ × JobState))
  connecting_step c (client_built true now) =
      some (record c { place = streaming; last_message = now }, [])
  connecting_step c (client_built false now) = some (record c { place = panicked }, [])
  connecting_step c _ = none

  module _ (parse : Parse) (keepalive_timeout : ℕ) where
    streaming_step : Connector → Input → Option (Connector × List (ℕ × JobState))
    unfolding after_event handle_sse_event
    streaming_step c (event ev a now) =
        some (after_event now c (handle_sse_event parse ev a c.runner))
    streaming_step c (comment now) = some (record c { last_message = now }, [])
    streaming_step c empty = some (c, [])
    streaming_step c stream_error = some (record c { place = waiting }, [])
    streaming_step c (tick now) =
        if ltb keepalive_timeout (now - c.last_message)
        then some (record c { place = waiting }, [])
        else some (c, [])
    streaming_step c _ = none

    waiting_step : Connector → Input → Option (Connector × List (ℕ × JobState))
    waiting_step c waited = some (record c { place = connecting }, [])
    waiting_step c _ = none

    step_at : Place → Connector → Input → Option (Connector × List (ℕ × JobState))
    unfolding connecting_step streaming_step waiting_step
    step_at connecting c i = connecting_step c i
    step_at streaming c i = streaming_step c i
    step_at waiting c i = waiting_step c i
    step_at panicked c i = none

    -- A panic in a task of its own ends only this task.
    task_step : Connector → StopJobMessage → Answers → Connector × List (ℕ × JobState)
    task_step c msg a =
        let h = stop_job a msg c.runner in (record c { runner = h.state }, h.reports)

    -- `none` where `run` does not wait for such an input.
    unfoldable pub step : Connector → Input → Option (Connector × List (ℕ × JobState))
    unfolding step_at task_step
    step c (task_stops msg a) = some (task_step c msg a)
    step c i = step_at c.place c i

    pub data Runs : Connector → List Input → Connector → List (ℕ × JobState) → Type 0 where
      stop : {c : Connector} → Runs c [] c []
      more :
          {c d e : Connector} {i : Input} {is : List Input} {o out : List (ℕ × JobState)}
          → step c i ≡ some (d, o)
          → Runs d is e out
          → Runs c (i ∷ is) e (o ++ out)
