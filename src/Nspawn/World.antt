-- ===== src/Nspawn/World.antt =====
-- What the nspawn runner asks of its surroundings, and what they answer during one call.
use siplane.Base.{ℕ, String, ◌⊎◌, Bool, Option, some, List, [], ◌∷◌}
use siplane.Api.Coord.{JobState, failed}
use siplane.Nspawn.Config.{Proxy}
use siplane.Base.Flow.{returned, Flow}

pub data Action : Type 0 where
  -- `connector.post_job_state`
  post : (job_id : ℕ) → JobState → Action
  -- `Command::new(program).args(args).output()`
  output : (program : String) → (args : List String) → Action
  create_dir_all : String → Action
  open_control_socket : (job_id : ℕ) → (path : String) → Action
  start_proxy : Proxy → Action
  -- `systemd-run` in the background
  spawn : (args : List String) → Action
  start_console_streamer : (job_id : ℕ) → Action
  signal_term : (pid : ℕ) → Action
  -- until the process has exited or the seconds are over
  await_exit : (pid : ℕ) → (timeout : ℕ) → Action
  kill : (pid : ℕ) → Action
  close_control_socket : (path : String) → Action
  stop_console_streamer : (job_id : ℕ) → Action
  stop_proxy : Proxy → Action

-- How a command ended: whether its status is a success, with the texts of the code, of standard
-- output and of standard error; or the error that kept it from running.
pub data Output : Type 0 where
  exited : (success : Bool) → (code stdout stderr : String) → Output
  io_error : String → Output

-- The result of a poll of the child: `Ok(Some(_))`, `Ok(None)`, `Err(_)`.
pub data Waited : Type 0 where
  has_exited still_running wait_error : Waited

-- `show_uuid` is `Display` and `Debug` of a `Uuid`, `show_text` and `show_texts` are `Debug` of a
-- text and of a list of them.
pub record World : Type 0 where
  pub show_uuid : ℕ → String
  pub show_text : String → String
  pub show_texts : List String → String
  pub run : String → List String → Output
  -- the error, if there is one
  pub create_dir : String → Option String
  pub control_socket_opens : String → Bool
  pub canonicalize : String → Option String
  -- the process, or the error
  pub spawned : List String → ℕ ⊎ String
  -- what `public_addr` gives within its timeout
  pub public_addr : Proxy → Option (String × ℕ)

-- `post_job_state(job_id, Failed { … })` and `return`
abbrev pub fail {ℓ} : {A : Type ℓ} → ℕ → String → Flow Action A
fail job_id text = (post job_id (failed (some text)) ∷ [], returned)
