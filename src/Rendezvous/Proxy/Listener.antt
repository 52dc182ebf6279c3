-- ===== src/Rendezvous/Proxy/Listener.antt =====
-- rendezvous-proxy/src/lib.rs: `sse_loop`, the task that listens at the rendezvous server.
pub mod Panics
pub mod Keepalive
pub mod Tracking
use siplane.Base.{
  ℕ, ◌-◌, String, ◌≡◌, Bool, true, false, Option, none, some, List, [], ◌∷◌, ltb, if◌then◌else◌,
}
use siplane.Rendezvous.Proxy.{ProxyState, SseMessage, SseEvent, new, handle_sse_event}

-- The task builds its client, waits in its `select!`, or waits before it connects again;
-- `ended` is its `Ok(())`, `failed` its error.
pub data Place : Type 0 where
  connecting streaming waiting ended failed panicked : Place

pub record Listener : Type 0 where
  pub place : Place
  pub cmd_channel_dropped : Bool
  pub last_message : ℕ
  pub proxy : ProxyState

unfoldable pub start : Listener
unfolding new
start = record { place = connecting; cmd_channel_dropped = false; last_message = 0; proxy = new }

-- What the task goes on with: whether the client can be built, a command or the end of the
-- channel, an element of the stream, the timer of one second, the end of the wait. Where the code
-- reads the clock the input has the time.
pub data Input : Type 0 where
  client_built : (ok : Bool) → (now : ℕ) → Input
  shutdown channel_closed : Input
  event : SseEvent → (now : ℕ) → Input
  comment : (now : ℕ) → Input
  empty stream_error : Input
  tick : (now : ℕ) → Input
  waited : Input

abbrev handled_at : ℕ → Listener → Option ProxyState → Listener
handled_at now l none = record l { place = panicked }
handled_at now l (some s) = record l { last_message = now; proxy = s }

module _ (parse : String → SseMessage) (keepalive_timeout : ℕ) where
  connecting_step : Listener → Input → Option Listener
  connecting_step l (client_built true now) =
      some (record l { place = streaming; last_message = now })
  connecting_step l (client_built false now) = some (record l { place = failed })
  connecting_step l _ = none

  streaming_step : Listener → Input → Option Listener
  unfolding handle_sse_event
  streaming_step l shutdown =
      if l.cmd_channel_dropped then none else some (record l { place = ended })
  streaming_step l channel_closed =
      if l.cmd_channel_dropped then none else some (record l { cmd_channel_dropped = true })
  streaming_step l (event ev now) = some (handled_at now l (handle_sse_event parse ev l.proxy))
  streaming_step l (comment now) = some (record l { last_message = now })
  streaming_step l empty = some l
  streaming_step l stream_error = some (record l { place = waiting })
  streaming_step l (tick now) =
      if ltb keepalive_timeout (now - l.last_message)
      then some (record l { place = waiting })
      else some l
  streaming_step l _ = none

  waiting_step : Listener → Input → Option Listener
  waiting_step l waited = some (record l { place = connecting })
  waiting_step l _ = none

  step_at : Place → Listener → Input → Option Listener
  unfolding connecting_step streaming_step waiting_step
  step_at connecting l i = connecting_step l i
  step_at streaming l i = streaming_step l i
  step_at waiting l i = waiting_step l i
  step_at _ l i = none

  -- `none` where the task does not wait for such an input.
  unfoldable pub step : Listener → Input → Option Listener
  unfolding step_at
  step l i = step_at l.place l i

  pub data Runs : Listener → List Input → Listener → Type 0 where
    stop : {l : Listener} → Runs l [] l
    more :
        {l m n : Listener} {i : Input} {is : List Input}
        → step l i ≡ some m
        → Runs m is n
        → Runs l (i ∷ is) n
