-- ===== src/Netboot/Console.antt =====
-- The console streamer that `start_job` of the netboot runner spawns for a serial port.
pub mod Agreement
use siplane.Base.{
  ℕ, ◌+◌, ◌≡◌, Bool, true, false, Option, none, some, List, [], ◌∷◌, ◌++◌, if◌then◌else◌, length,
}
use siplane.Api.Coord.{stdout}
use siplane.Nspawn.Console.{Place, streaming, ended, panicked, Output, send_log}

pub record SerialStreamer : Type 0 where
  pub place : Place
  pub console_queue : List (List ℕ)
  pub console_queue_offset : ℕ
  pub reader_closed : Bool

unfoldable pub start : SerialStreamer
start = record {
  place = streaming;
  console_queue = [];
  console_queue_offset = 0;
  reader_closed = false;
}

-- A wake-up of the `select!`: a command, the end of its channel, or the result of a read.
pub data Input : Type 0 where
  shutdown channel_dropped : Input
  read : List ℕ → Input
  read_failed : Input

-- `ReadConsoleRes::ZeroBytes` does nothing more; `Data` sends the entry at the back.
on_read : List ℕ → SerialStreamer → SerialStreamer × List Output
on_read [] s = (record s { reader_closed = true }, [])
on_read (b ∷ bs) s = (
  record s {
    console_queue = s.console_queue ++ (b ∷ bs) ∷ [];
    console_queue_offset = s.console_queue_offset + 1;
  },
  send_log s.console_queue_offset (s.console_queue_offset + 1) ((stdout, length (b ∷ bs)) ∷ [])
        (b ∷ bs)
      ∷ [],
)

streaming_step : SerialStreamer → Input → Option (SerialStreamer × List Output)
unfolding on_read
streaming_step s shutdown = some (record s { place = ended }, [])
streaming_step s channel_dropped = some (record s { place = panicked }, [])
streaming_step s (read bytes) =
    let read = on_read bytes s in if s.reader_closed then none else some read
streaming_step s read_failed =
    if s.reader_closed then none else some (record s { place = panicked }, [])

step_at : Place → SerialStreamer → Input → Option (SerialStreamer × List Output)
unfolding streaming_step
step_at streaming s i = streaming_step s i
step_at _ s i = none

-- One wake-up; `none` where the `select!` does not wait for such an input.
unfoldable pub step : SerialStreamer → Input → Option (SerialStreamer × List Output)
unfolding step_at
step s i = step_at s.place s i

pub data Runs : SerialStreamer → List Input → SerialStreamer → List Output → Type 0 where
  stop : {s : SerialStreamer} → Runs s [] s []
  more :
      {s u t : SerialStreamer} {i : Input} {is : List Input} {o outs : List Output}
      → step s i ≡ some (u, o)
      → Runs u is t outs
      → Runs s (i ∷ is) t (o ++ outs)
