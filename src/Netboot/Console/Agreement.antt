-- ===== src/Netboot/Console/Agreement.antt =====
-- The serial port's streamer beside that of the nspawn runner.
use siplane.Base.{ℕ, ◌≡◌, refl, ap, false, some, List, [], ◌∷◌, ◌++◌, map, arith}
use siplane.Api.Coord.{StdioFd, stdout}
use siplane.Nspawn.Console as Container
use siplane.Nspawn.Console.{Output, Streamer, still_runs}
use siplane.Nspawn.Console.Logs.{logs, logged, console_logged_in_order}
use siplane.Netboot.Console.{
  SerialStreamer, start, Input, shutdown, channel_dropped, read, read_failed, on_read,
  streaming_step, step_at, step, Runs, stop, more,
}

abbrev on_stdout : List ℕ → StdioFd × List ℕ
on_stdout bytes = (stdout, bytes)

-- The container's streamer in the same place, with all that was read as its standard output.
abbrev pub as_container : SerialStreamer → Streamer
as_container s = record {
  place = s.place;
  console_queue = map on_stdout s.console_queue;
  console_queue_offset = s.console_queue_offset;
  stdout_closed = s.reader_closed;
  stderr_closed = false;
}

-- The same input there; after a read of zero bytes the container still runs.
abbrev pub as_input : Input → Container.Input
as_input shutdown = Container.shutdown
as_input channel_dropped = Container.channel_dropped
as_input (read bytes) = Container.read stdout bytes still_runs
as_input read_failed = Container.read_failed stdout

map-append {ℓ κ} :
    {A : Type ℓ} {B : Type κ} (f : A → B) (xs ys : List A) → map f (xs ++ ys) ≡ map f xs ++ map f ys
map-append f [] ys = refl
map-append f (x ∷ xs) ys = ap (λ t. f x ∷ t) (map-append f xs ys)

step_agrees :
    (s u : SerialStreamer) (i : Input) (o : List Output)
    → step s i ≡ some (u, o)
    → Container.step (as_container s) (as_input i) ≡ some (as_container u, o)
unfolding step step_at streaming_step on_read Container.step
step_agrees s u shutdown o e = ground arith
step_agrees s u channel_dropped o e = ground arith
step_agrees s u (read []) o e = ground arith
step_agrees s u (read (b ∷ bs)) o e =
    ground (arith, map-append on_stdout s.console_queue ((b ∷ bs) ∷ []))
step_agrees s u read_failed o e = ground arith

runs_agree :
    {s t : SerialStreamer} {is : List Input} {out : List Output}
    → Runs s is t out
    → Container.Runs (as_container s) (map as_input is) (as_container t) out
runs_agree stop = Container.stop
runs_agree {s = s} (more {u = u} {i = i} {o = o} e r) =
    Container.more {o = o} (step_agrees s u i o e) (runs_agree r)

-- The serial port's streamer does what the container's streamer does when all it reads is standard
-- output of a process that goes on: every run of the one is such a run of the other, with the same
-- logs to the coordinator. So these come in the order of the reads, each whole and once, under the
-- numbers 0, 1, 2 and so on.
pub serial_streamer_agrees :
    {t : SerialStreamer} {is : List Input} {out : List Output}
    → Runs start is t out
    → Container.Runs Container.start (map as_input is) (as_container t) out
      × (logs out ≡ logged 0 (map as_input is))
unfolding start Container.start
serial_streamer_agrees r = (runs_agree r, (console_logged_in_order (runs_agree r)).0)
