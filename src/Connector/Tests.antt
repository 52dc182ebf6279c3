-- ===== src/Connector/Tests.antt =====
-- Connectors with one of the two runners each: a job from its start to its stop.
use siplane.Base.{
  ℕ, ◌-◌, String, ◌≡◌, refl, ◌≢◌, true, Option, none, some, List, [], ◌∷◌, ◌++◌, arith, ltb, ◌==◌,
  if◌then◌else◌,
}
use text.Mathlib.Text.{◌==◌ as str_eq}
use siplane.Api.Coord
use siplane.Api.Coord.{JobState}
use siplane.Connector.Runner.{Handled}
use siplane.Connector.Runner.Slot.{track}
use siplane.Connector.Sse.{
  SseEvent, Parse, streaming, waiting, Connector, Input, client_built, event, tick, start, step,
  Runs, stop, more, handle_sse_event,
}
use siplane.Connector.Sse.Jobs.{AllApart, one_job_at_a_time}
use siplane.Connector.Sse.Keepalive.{heard, coordinator_silence_reconnects}
use siplane.Connector.Dummy.{run}
use siplane.Nspawn.World.{still_running, has_exited}
use siplane.Nspawn.Start.Tests.{world, config}
use siplane.Nspawn.Runner.{Surroundings, nspawn_runner}
use siplane.Netboot.Config.{ssh_socket_addr}
use siplane.Netboot.Start.{start_job, proxies_to}
use siplane.Connector.Runner.Reported.{job_in}
use siplane.Nspawn.Config as NspawnConfig
use siplane.Connector.Program.{tested, served}
use siplane.Nspawn.Main as NspawnMain
use siplane.Nspawn.Main.{nspawn_program}
use siplane.Netboot.Main as NetbootMain
use siplane.Netboot.Main.{netboot_program}
use siplane.Nspawn.Runner as Nspawn
use siplane.Netboot.Tests as Board
use siplane.Netboot.Runner as Netboot
use siplane.Netboot.Runner.{netboot_runner}

-- The container ends with the first kill.
surroundings : Surroundings
surroundings = record {
  world = world;
  ending = record {
    has_pid = true;
    poll = λ n. if n == 0 then still_running else has_exited;
    kill_succeeds = λ n. true;
    socket_returns = true;
    socket_closes = true;
    streamer_listens = true;
    streamer_joins = true;
    proxy_shuts = λ p. true;
  };
  kill_waits = λ n k. ground arith;
  socket_returns = refl;
}

-- a second job, which is refused while the first one runs
abbrev other_job : Coord.StartJobMessage
other_job = record Board.start_msg { job_id = 8 }

abbrev parse : Parse
parse text =
    if str_eq text "start"
    then some (Coord.start_job Board.start_msg)
    else some (Coord.start_job other_job)

abbrev message : String → SseEvent
message text = record { event_type = "message"; data_text = text }

abbrev board : Netboot.Surroundings
board = record { world = Board.world; ending = Board.ending }

abbrev inputs : List (Input (netboot_runner Board.config))
inputs =
    client_built true 5 ∷ event (message "start") board 6 ∷ event (message "other") board 7 ∷ []

abbrev last : Connector (netboot_runner Board.config)
last = record { place = streaming; last_message = 7; runner = some Board.job }

abbrev out : List (ℕ × JobState)
out =
    (Netboot.start_job Board.config board Board.start_msg none).reports
    ++ ((Netboot.start_job Board.config board other_job (some Board.job)).reports ++ [])

inputs_run :
    Runs
      (netboot_runner Board.config)
      parse
      30
      (start (netboot_runner Board.config) none)
      inputs
      last
      out
unfolding start step handle_sse_event Netboot.start_job start_job proxies_to ssh_socket_addr
inputs_run = more {o = []} refl (more refl (more refl stop))

first_fits : ◌≢◌ {A = Option ℕ} none (some 7)
first_fits e = ground arith

second_fits : ◌≢◌ {A = Option ℕ} (some 7) (some 8)
second_fits e = ground arith

apart : AllApart (netboot_runner Board.config) parse 30 inputs_run
unfolding inputs_run
apart = (tt, (first_fits, (second_fits, tt)))

one_job_at_a_time_example : track none out ≡ some (some 7)
one_job_at_a_time_example =
    one_job_at_a_time (netboot_runner Board.config) parse 30 none last inputs out refl inputs_run
      apart

coordinator_silence_reconnects_example :
    step (netboot_runner Board.config) parse 30 last (tick 40)
    ≡ some (
      record last {
        place =
            if ltb 30 (40 - heard (netboot_runner Board.config) 0 inputs)
            then waiting
            else streaming;
      },
      [],
    )
coordinator_silence_reconnects_example =
    coordinator_silence_reconnects (netboot_runner Board.config) parse 30 none last inputs out 40
      inputs_run refl

abbrev read : String → Option String
read path = some "toml"

-- A test run whose console streamer asks for the stop before the signal.
abbrev test_args : NspawnMain.Args
test_args = record { test_env = some 3; config_file = "runner.toml" }

abbrev tested_run : Handled (Option NspawnConfig.Job)
tested_run =
    run (nspawn_runner config) 3 7 surroundings surroundings
      ((record { job_id = 7 }, surroundings) ∷ []) none

tested_main :
    NspawnMain.Main read (λ t. some config) test_args parse tested_run.state tested_run.reports
unfolding NspawnMain.config NspawnMain.Main
tested_main = (
  config,
  refl,
  tested 7 surroundings surroundings ((record { job_id = 7 }, surroundings) ∷ []) refl refl,
)

nspawn_program_example :
    (track none tested_run.reports ≡ some (job_in Nspawn.key tested_run.state))
    × (test_args.test_env ≢ none → job_in Nspawn.key tested_run.state ≡ none)
unfolding NspawnMain.NeverRestarted tested_main
nspawn_program_example =
    nspawn_program read (λ t. some config) test_args parse tested_run.state tested_run.reports
      tested_main tt

abbrev served_args : NetbootMain.Args
served_args = record { test_env = none; config_file = "runner.toml" }

served_main : NetbootMain.Main read (λ t. some Board.config) served_args parse (some Board.job) out
unfolding NetbootMain.config NetbootMain.Main
served_main = (Board.config, refl, served refl inputs_run)

netboot_program_example :
    (track none out ≡ some (some 7))
    × (served_args.test_env ≢ none → job_in Netboot.key (some Board.job) ≡ none)
unfolding NetbootMain.NeverRestarted inputs_run served_main
netboot_program_example =
    netboot_program read (λ t. some Board.config) served_args parse (some Board.job) out served_main
      apart
