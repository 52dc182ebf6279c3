-- ===== src/Rendezvous/Server/Stream.antt =====
-- rendezvous-server/src/main.rs: the route `listen`, which tells one proxy of its listener and of the
-- connections to it.
pub mod Invariant
pub mod Announces
pub mod Kept
pub mod Address
pub mod Tests
use siplane.Base.{ℕ, String, ◌≡◌, Bool, Option, none, some, List, [], ◌∷◌, ◌++◌}
use siplane.Rendezvous.Server.{
  State, TcpStream, Config, Listening, NewConnection, Bound, Listen, handle, listen, accept_on,
  accepted, build_listening_resp, build_new_connection_resp, Call,
}
use siplane.Rendezvous.Server as Server

-- `listener_sse_api::SSEMessage`
pub data SseMessage : Type 0 where
  listening : Listening → SseMessage
  new_connection : NewConnection → SseMessage

-- Where the stream of events stands: it is to listen, it has a listener to announce, it waits for a
-- connection, it has one to announce, or it has panicked. It does not end by itself.
pub data Place : Type 0 where
  opening : Place
  opened : (listener : ℕ) → Place
  accepting : (listener : ℕ) → Place
  connecting : (listener : ℕ) → (connection : ℕ) → Place
  panicked : Place

-- How the stream goes on: it listens, `accept` gives a connection or an error, or it takes the lock
-- again to build what it yields next, where the socket may not tell its two addresses.
pub data Event : Type 0 where
  listens : (ℕ → Bound) → Event
  accepts : TcpStream → Event
  accept_fails : Event
  yields : (named : Bool) → Event

-- what the stream leaves: its place, the server, and what it yields
pub record Turn : Type 0 where
  pub place : Place
  pub server : State
  pub yielded : List SseMessage

module _ (show : ℕ → String) (cfg : Config) (listener_id : ℕ) where
  abbrev moves : Place → State → Turn
  moves p s = record { place = p; server = s; yielded = [] }

  -- `expect("Failed to listen")` and `expect("No port available")`
  on_listen : State × Listen → Turn
  on_listen (s, handle h) = moves (opened h) s
  on_listen (s, _) = moves panicked s

  on_listening : ℕ → State → Option Listening → Turn
  on_listening h s none = moves panicked s
  on_listening h s (some l) = record { place = accepting h; server = s; yielded = listening l ∷ [] }

  on_accepted : ℕ → State → Option (State × ℕ) → Turn
  on_accepted h s none = moves panicked s
  on_accepted h s (some (t, c)) = moves (connecting h c) t

  on_new_connection : ℕ → State → Option NewConnection → Turn
  on_new_connection h s none = moves panicked s
  on_new_connection h s (some nc) = record {
    place = accepting h;
    server = s;
    yielded = new_connection nc ∷ [];
  }

  -- `none` where the stream does not wait for such an event. No call takes a listener out of the
  -- state, so it is there when `accept` looks for it.
  unfoldable pub step : Place → State → Event → Option Turn
  unfolding on_listen on_listening on_accepted on_new_connection
  step opening s (listens bind) = some (on_listen (listen s listener_id bind))
  step (opened h) s (yields named) = some (on_listening h s (build_listening_resp cfg s h))
  step (accepting h) s (accepts stream) = elim (accept_on s h) [
    | none ↦ some (moves panicked s)
    | some socket ↦ some (on_accepted h s (accepted s stream))
  ]
  step (accepting h) s accept_fails = some (moves panicked s)
  step (connecting h c) s (yields named) =
      some (on_new_connection h s (build_new_connection_resp show cfg s named c))
  step _ s _ = none

  -- the streams that `accept` has given
  abbrev pub accepted_by : Event → List TcpStream
  accepted_by (accepts stream) = stream ∷ []
  accepted_by _ = []

  -- A run of the stream among the calls of all others: its place, the server, the connections that it
  -- has accepted, and what it has yielded.
  pub data Runs (s₀ : State) : Place → State → List TcpStream → List SseMessage → Type 0 where
    begin : Runs s₀ opening s₀ [] []
    own :
        {p : Place} {s : State} {streams : List TcpStream} {out : List SseMessage} (e : Event)
        {t : Turn}
        → Runs s₀ p s streams out
        → step p s e ≡ some t
        → Runs s₀ t.place t.server (streams ++ accepted_by e) (out ++ t.yielded)
    other :
        {p : Place} {s : State} {streams : List TcpStream} {out : List SseMessage} (c : Call)
        → Runs s₀ p s streams out
        → Runs s₀ p (Server.step s c) streams out
