-- ===== src/Netboot/Tests.antt =====
-- A board with one environment, a serial console and a job that starts and stops on it.
use siplane.Base.{◌≡◌, refl, ◌⊎◌, true, false, none, some, List, [], ◌∷◌, map, arith}
use siplane.Api.Coord.{StartJobMessage, StopJobMessage, stdout}
use siplane.Connector.Lifecycle.{requested, is_ready, has_failed}
use siplane.Connector.Reports.{seen_by}
use siplane.Nspawn.Config.{sock_v4}
use siplane.Nspawn.Console as Container
use siplane.Nspawn.Console.{ended, Output, send_log}
use siplane.Nspawn.Console.Logs.{logs, logged}
use siplane.Netboot.Config.{EnvironmentConfig, Config, Job, World, report, v4, ssh_socket_addr}
use siplane.Netboot.Start.{start_job, proxies_to}
use siplane.Netboot.Start.Reporting.{netboot_start_reports}
use siplane.Netboot.Stop.{Ending, stop_job}
use siplane.Netboot.Stop.Reporting.{stopped_proxies, proxies_stop_with_console}
use siplane.Netboot.Console.{SerialStreamer, start, Input, shutdown, read, step, Runs, stop, more}
use siplane.Netboot.Console.Agreement.{as_container, as_input, serial_streamer_agrees}

abbrev pub world : World
world = record {
  show_uuid = λ n. "0123456789-";
  control_socket_opens = λ s. true;
  script_runs = λ s. true;
  serial_opens = λ p b. true;
  public_addr = λ p. none;
}

abbrev pub env : EnvironmentConfig
env = record {
  shutdown_timeout = 30;
  target_address_v4 = some 10;
  target_address_v6 = none;
  ssh_port = some 22;
  ssh_preferred_ip_version = v4;
  init_script = some "/bin/init";
  reset_script = none;
  start_script = none;
  stop_script = none;
  tcp_control_socket_addr = sock_v4 11 3859;
  serial_console = some (record { path = "/dev/ttyUSB0"; baudrate = 115200 });
}

abbrev pub config : Config
config = record {
  coordinator_base_url = "http://c";
  board_id = 1;
  keepalive_timeout = 30;
  reconnect_wait = 5;
  environments = (3, env) ∷ [];
}

abbrev pub start_msg : StartJobMessage
start_msg = record {
  job_id = 7;
  environment_id = 3;
  ssh_keys = "key" ∷ [];
  ssh_rendezvous_servers =
      record { client_id = 9; server_base_url = "http://r"; auth_token = "t" } ∷ [];
  job_parameters = [];
  board_parameters = [];
  environment_parameters = [];
  board_environment_parameters = [];
}

abbrev pub job : Job
job = record {
  job_id = 7;
  environment_id = 3;
  environment_config = env;
  ssh_keys = "key" ∷ [];
  console_streamer = true;
  control_socket = sock_v4 11 3859;
  ssh_rendezvous_proxies =
      record {
        client_id = 9;
        server_base_url = "http://r";
        target_addr = sock_v4 10 22;
        auth_token = "t";
        sse_keepalive_timeout = 60;
        sse_reconnect_wait = 10;
      }
      ∷ [];
}

netboot_start_reports_example :
    let o = start_job world config start_msg none in
    ((seen_by report 7 requested o.trace ≡ some is_ready)
      × (o.panicked ≡ false)
      × ((j : Job) × (o.current ≡ some j) × (j.job_id ≡ start_msg.job_id)))
    ⊎ ((seen_by report 7 requested o.trace ≡ some has_failed)
        × (o.panicked ≡ false)
        × (o.current ≡ none))
    ⊎ ((seen_by report 7 requested o.trace ≡ some requested)
        × (o.panicked ≡ true)
        × (o.current ≡ none))
netboot_start_reports_example = netboot_start_reports world config start_msg none

-- the job that the start leaves
pub starts : (start_job world config start_msg none).current ≡ some job
unfolding start_job proxies_to ssh_socket_addr
starts = refl

abbrev pub ending : Ending
ending = record {
  socket_closes = true;
  streamer_listens = true;
  streamer_joins = true;
  proxy_shuts = λ p. true;
}

abbrev pub stop_msg : StopJobMessage
stop_msg = record { job_id = 7 }

no_panic : (stop_job world config ending stop_msg (some job)).panicked ≡ false
unfolding stop_job
no_panic = ground arith

proxies_stop_with_console_example :
    (stopped_proxies (stop_job world config ending stop_msg (some job)).trace
      ≡ job.ssh_rendezvous_proxies)
    × ((stop_job world config ending stop_msg (some job)).current ≡ none)
proxies_stop_with_console_example =
    proxies_stop_with_console world config ending stop_msg job refl no_panic

abbrev console : List Input
console = read (104 ∷ 105 ∷ []) ∷ read [] ∷ shutdown ∷ []

abbrev console_end : SerialStreamer
console_end = record {
  place = ended;
  console_queue = (104 ∷ 105 ∷ []) ∷ [];
  console_queue_offset = 1;
  reader_closed = true;
}

abbrev console_out : List Output
console_out = send_log 0 1 ((stdout, 2) ∷ []) (104 ∷ 105 ∷ []) ∷ []

console_run : Runs start console console_end console_out
unfolding start step
console_run = more {o = console_out} refl (more {o = []} refl (more {o = []} refl stop))

serial_streamer_agrees_example :
    Container.Runs Container.start (map as_input console) (as_container console_end) console_out
    × (logs console_out ≡ logged 0 (map as_input console))
serial_streamer_agrees_example = serial_streamer_agrees console_run
