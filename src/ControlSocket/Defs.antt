-- ===== src/ControlSocket/Defs.antt =====
-- treadmill-rs/src/control_socket.rs, and the words in which both transports are described.
use siplane.Base.{
  ℕ, String, ◌≡◌, Bool, true, false, Option, some, List, [], ◌∷◌, ◌++◌, append_assoc,
}
use siplane.Api.Puppet.{NetworkConfig, PuppetMsg, RunnerMsg}

-- The trait `Runner`: what a control socket asks of the runner about a job.
pub record Runner : Type 0 where
  pub ssh_keys : ℕ → Option (List String)
  pub network_config : ℕ → Option NetworkConfig

-- What `serde_json::from_slice` makes of the bytes: a message, or the text of its error.
pub data Decoded : Type 0 where
  message : PuppetMsg → Decoded
  malformed : String → Decoded

-- How the transport's `send` ends.
pub data Sent : Type 0 where
  ok broken_pipe other_error : Sent

-- `ControlSocketTaskCommand`, and the channel's end
pub data Command : Type 0 where
  shutdown dropped : Command

-- `accepting` and `serving` are the two `select!`s of the task; `finished` is its `Ok(())`, and
-- `panicked` a panic. `serving` has the connection.
pub data Place : Type 0 where
  accepting : Place
  serving : ℕ → Place
  finished panicked : Place

-- What a `select!` may wake up with: a connection, a command, or bytes. Bytes come with what
-- sending an answer to them, if there is one, will give.
pub data Input : Type 0 where
  accept : ℕ → Input
  accept_failed : Input
  command : Command → Input
  received : List ℕ → Sent → Input
  recv_failed : Input
  end_of_stream : Input

-- An answer on a connection, whether or not the transport then takes it.
abbrev pub Answer : Type 0
Answer = ℕ × RunnerMsg

abbrev pub is_broken : Sent → Bool
is_broken broken_pipe = true
is_broken _ = false

-- A run of a task: the inputs that woke it, in order, and the answers that it gave.
module _ {S : Type 0} (step : S → Input → Option (S × List Answer)) where
  pub data Runs : S → List Input → S → List Answer → Type 0 where
    stop : {s : S} → Runs s [] s []
    more :
        {s u t : S} {i : Input} {is : List Input} {o outs : List Answer}
        → step s i ≡ some (u, o)
        → Runs u is t outs
        → Runs s (i ∷ is) t (o ++ outs)

  pub Runs-append :
      {s u t : S} {is js : List Input} {o outs : List Answer}
      → Runs s is u o
      → Runs u js t outs
      → Runs s (is ++ js) t (o ++ outs)
  Runs-append stop r = r
  Runs-append {js = js} {outs = outs} (more {o = o} {outs = p} e q) r =
      rw append_assoc (more e (Runs-append q r))
