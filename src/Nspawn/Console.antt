-- ===== src/Nspawn/Console.antt =====
-- The console streamer that `start_job` of the nspawn runner spawns.
pub mod Logs
use siplane.Base.{
  ℕ, ◌+◌, ◌≡◌, Bool, true, false, Option, none, some, List, [], ◌∷◌, ◌++◌, if◌then◌else◌, length,
}
use siplane.Api.Coord.{StdioFd, stdout, stderr}

-- The task stands in its `select!`, has left the loop, or has panicked.
pub data Place : Type 0 where
  streaming ended panicked : Place

pub record Streamer : Type 0 where
  pub place : Place
  pub console_queue : List (StdioFd × List ℕ)
  pub console_queue_offset : ℕ
  pub stdout_closed : Bool
  pub stderr_closed : Bool

unfoldable pub start : Streamer
start = record {
  place = streaming;
  console_queue = [];
  console_queue_offset = 0;
  stdout_closed = false;
  stderr_closed = false;
}

-- What `try_lock` and `try_wait` say of the child after a read of zero bytes.
pub data Probe : Type 0 where
  locked_out still_runs has_exited wait_error : Probe

-- A wake-up of the `select!`: a command, the end of its channel, or the result of a read. A read
-- comes with what a probe of the child would then give.
pub data Input : Type 0 where
  shutdown channel_dropped : Input
  read : StdioFd → List ℕ → Probe → Input
  read_failed : StdioFd → Input

-- `send_job_console_log(offset, next, stdio_map, console_bytes)`, and the task that stops the job.
pub data Output : Type 0 where
  send_log :
      (offset next : ℕ) → (stdio_map : List (StdioFd × ℕ)) → (console_bytes : List ℕ) → Output
  spawn_stop_job : Output

abbrev pub is_closed : StdioFd → Streamer → Bool
is_closed stdout s = s.stdout_closed
is_closed stderr s = s.stderr_closed

abbrev close : StdioFd → Streamer → Streamer
close stdout s = record s { stdout_closed = true }
close stderr s = record s { stderr_closed = true }

-- `ReadConsoleRes::ZeroBytes`
zero_bytes : Probe → Streamer → Streamer × List Output
zero_bytes locked_out s = (s, [])
zero_bytes still_runs s = (s, [])
zero_bytes has_exited s = (s, spawn_stop_job ∷ [])
zero_bytes wait_error s = (record s { place = panicked }, [])

-- `push_back`, and `ReadConsoleRes::Data` with the entry at the back
data_read : StdioFd → List ℕ → Streamer → Streamer × List Output
data_read fd buf s = (
  record s {
    console_queue = s.console_queue ++ (fd, buf) ∷ [];
    console_queue_offset = s.console_queue_offset + 1;
  },
  send_log s.console_queue_offset (s.console_queue_offset + 1) ((fd, length buf) ∷ []) buf ∷ [],
)

on_read : StdioFd → List ℕ → Probe → Streamer → Streamer × List Output
unfolding zero_bytes data_read
on_read fd [] probe s = zero_bytes probe (close fd s)
on_read fd (b ∷ bs) probe s = data_read fd (b ∷ bs) s

step_at : Place → Streamer → Input → Option (Streamer × List Output)
unfolding on_read
step_at streaming s shutdown = some (record s { place = ended }, [])
step_at streaming s channel_dropped = some (record s { place = panicked }, [])
step_at streaming s (read fd bytes probe) =
    if is_closed fd s then none else some (on_read fd bytes probe s)
step_at streaming s (read_failed fd) =
    if is_closed fd s then none else some (record s { place = panicked }, [])
step_at _ s _ = none

-- One wake-up; `none` where the `select!` does not wait for such an input.
unfoldable pub step : Streamer → Input → Option (Streamer × List Output)
unfolding step_at
step s i = step_at s.place s i

pub data Runs : Streamer → List Input → Streamer → List Output → Type 0 where
  stop : {s : Streamer} → Runs s [] s []
  more :
      {s u t : Streamer} {i : Input} {is : List Input} {o outs : List Output}
      → step s i ≡ some (u, o)
      → Runs u is t outs
      → Runs s (i ∷ is) t (o ++ outs)
