-- ===== src/Lib.antt =====
-- Treadmill runs jobs on boards. A coordinator sends a runner its messages
-- (treadmill-rs/src/api/coord_runner.rs); the runner starts and stops the job's container,
-- reports how far it is, and serves a control socket to the puppet inside the container
-- (treadmill-rs/src/api/runner_puppet.rs). Rendezvous servers and proxies let clients reach a job
-- over SSH. This library models these programs, as they are written in Rust.
--
-- Which module models what:
--
-- - Base: the library's names, tests on numbers, lists, the association lists that stand for a
--   HashMap, the actions and early ends of an async function (Base.Flow), and Rust's Path on
--   texts (Base.FilePath).
-- - Api: the message types of treadmill-rs/src/api.
-- - ControlSocket: unix-seqpacket-control-socket/src/lib.rs and tcp-control-socket/src/lib.rs. A
--   state is a place in the task's two nested loops; `step` takes an input that wakes one of the
--   `select!`s. `handle_request`, `answer_to` and `shut_down` are the code's `handle_request`,
--   its `match` on a decoded message, and `shutdown`.
-- - Puppet: puppet/src/main.rs. Puppet.Main is `main`, as the list of what it asks of its
--   container; Puppet.Network has the environment of the network script. Puppet.Client are the
--   two control socket clients: it has the counter and the map of `request_responses` with what
--   `request` and the task do to them under the lock; Puppet.Client.System has a step for each
--   stretch of code between two points at which another task may run.
-- - Connector: Connector.Lifecycle has the order in which a coordinator may see the reports on a
--   job, Connector.Runner.Slot the job that is ready after them as it takes them, and
--   Connector.Runner the trait `Runner` of treadmill-rs/src/connector.rs as a record of two
--   handlers with the outcomes that they may have. The two connectors take any such record:
--   Connector.Sse is `run` of sse-connector/src/lib.rs, where `step` takes an input that wakes
--   its `select!`, and Connector.Dummy is treadmill-rs/src/dummy_connector.rs. Connector.Program
--   puts a runner and a connector together.
-- - Nspawn: nspawn-runner/src/main.rs. `start_job` and `stop_job` give the list of actions that
--   the code takes, in order, and how they end; the record Nspawn.World answers for commands,
--   files and processes. Nspawn.Resources says which actions take something from the host and
--   which give it back; `umount` does so if it succeeds. Nspawn.Console is the console streamer,
--   Nspawn.Query the two questions of a control socket, and Nspawn.Main the program with either
--   connector.
-- - Netboot: netboot-runner/src/main.rs, in the same way: `start_job` with its scripts and serial
--   console in Netboot.Start, `stop_job` in Netboot.Stop, the console streamer, the two
--   questions, and the program.
-- - Rendezvous: rendezvous-server/src/main.rs. Rendezvous.Server has `RendezvousServerState` and
--   its operations, Rendezvous.Server.Stream the events of the route `listen`,
--   Rendezvous.Server.Bridge the loop that joins a WebSocket to a connection. Rendezvous.Proxy is
--   rendezvous-proxy/src/lib.rs: its shared state and `handle_sse_event`, with `sse_loop` in
--   Listener, `connection_task` in Connection, the request for its WebSocket in Request,
--   `shutdown` and `public_addr` in Shutdown, and rendezvous-proxy/src/main.rs in Main.
--   Rendezvous.Tunnel puts the two ends of a WebSocket together, and Rendezvous.Announced the two
--   ends of the event stream.
-- - Keys: the keys of a job on their way through a runner, its control socket, the puppet's
--   client and the puppet's `main`.
--
-- How they meet: a control socket asks a `Runner`, a record of two functions, which
-- Nspawn.Query.runner and Netboot.Query.runner fill; a runner reports through actions, which
-- Connector.Reports reads as phases of Connector.Lifecycle. Nspawn.Runner and Netboot.Runner fill
-- the record Connector.Runner.JobRunner, and what is shown of a connector holds with each of
-- them. Between two steps of a connector a runner's own task may stop a job, as the console
-- streamer does.
--
-- Numbers: request and handle counters are numbers below 2 ^ 64, and `checked_add` is written
-- out. Identifiers (Uuid), addresses and processes are numbers. A panic is an outcome of its own
-- everywhere; that of a connector which cannot reach the coordinator is in Connector.Sse.Lossy
-- and, for the nspawn runner's `stop_job`, in Nspawn.Stop.Unreachable; elsewhere a report is
-- taken to succeed. Only the loop of the nspawn runner's `stop_job` that kills a process has
-- fuel; two rounds are enough once a kill waits for the process, as tokio's does, and
-- Nspawn.Runner gives it two. A handler of a runner is one step, as it holds the lock on
-- `current_job`; the nspawn runner's `stop_job` gives it away before its last report, and what
-- other tasks may do before that report is sent is not shown. The loops of tasks are runs over a
-- list of inputs.
--
-- Not modelled: what Rust drops when a handler returns early or panics (the control socket or the
-- job that it holds, whose tasks then end by themselves), and awaits that never end, but for the
-- one of the nspawn runner's `stop_job` for its control socket, whose task may wait for the lock
-- on `current_job` (`socket_returns` in Nspawn.Stop); parsing of arguments and configuration
-- files, logging, the JSON form of messages, tokio, Rocket and the sockets themselves (their
-- results are inputs), how Rust prints an address, the contents of the requests by which a
-- connector passes reports and logs on, and the coordinator, which is another program in Elixir.
pub mod Base
pub mod Api
pub mod ControlSocket
pub mod Puppet
pub mod Connector
pub mod Nspawn
pub mod Netboot
pub mod Rendezvous
pub mod Keys
