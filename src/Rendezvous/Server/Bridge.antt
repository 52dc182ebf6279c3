-- ===== src/Rendezvous/Server/Bridge.antt =====
-- rendezvous-server/src/main.rs: the loop of the handler `accept`, which joins a WebSocket to a
-- connection that `connect` has handed out.
pub mod Relay
use siplane.Base.{
  ℕ, ◌+◌, ◌-◌, ◌≡◌, ◌≢◌, Bool, true, false, Option, none, some, List, [], ◌∷◌, ◌++◌, length, take,
}

-- a message of the WebSocket
pub data Message : Type 0 where
  binary : List ℕ → Message
  unknown : Message

-- Which branch of `select!` is taken. A frame carries how many of its bytes `write` takes, or none
-- when it fails; the end of the WebSocket, with or without an error, whether the connection can
-- be shut down.
pub data Event : Type 0 where
  frame : Message → Option ℕ → Event
  disconnected errored : Bool → Event
  read : Option (List ℕ) → Event

pub data Place : Type 0 where
  relaying closed panicked : Place

-- `tcp` is what the connection has taken, `ws` the frames that went out.
pub record Bridge : Type 0 where
  pub place : Place
  pub tcp : List ℕ
  pub ws : List (List ℕ)

unfoldable pub start : Bridge
start = record { place = relaying; tcp = []; ws = [] }

-- `write` takes no more than it is given; a failure panics.
write_frame : Bridge → List ℕ → Option ℕ → Bridge
write_frame b bytes none = record b { place = panicked }
write_frame b bytes (some n) = record b { tcp = b.tcp ++ take n bytes }

-- `shutdown().await.unwrap()`, then `break`
close : Bridge → Bool → Bridge
close b true = record b { place = closed }
close b false = record b { place = panicked }

forward_read : Bridge → Option (List ℕ) → Bridge
forward_read b none = record b { place = panicked }
forward_read b (some bytes) = record b { ws = b.ws ++ bytes ∷ [] }

-- One turn of the loop.
pub turn : Bridge → Event → Bridge
unfolding write_frame close forward_read
turn b (frame (binary bytes) written) = write_frame b bytes written
turn b (frame unknown written) = b
turn b (disconnected shut) = close b shut
turn b (errored shut) = close b shut
turn b (read bytes) = forward_read b bytes

pub relay : Bridge → List Event → Bridge
relay b [] = b
relay b (e ∷ es) = let rest = relay (turn b e) es in elim b.place [ relaying ↦ rest | _ ↦ b ]

-- the bytes of the frames, in order
unfoldable pub sent_by_client : List Event → List ℕ
sent_by_client [] = []
sent_by_client (frame (binary bytes) written ∷ es) = bytes ++ sent_by_client es
sent_by_client (frame unknown written ∷ es) = sent_by_client es
sent_by_client (disconnected shut ∷ es) = []
sent_by_client (errored shut ∷ es) = []
sent_by_client (read bytes ∷ es) = sent_by_client es

-- what has been read from the connection, in order
unfoldable pub read_from_tcp : List Event → List (List ℕ)
read_from_tcp [] = []
read_from_tcp (frame m written ∷ es) = read_from_tcp es
read_from_tcp (disconnected shut ∷ es) = []
read_from_tcp (errored shut ∷ es) = []
read_from_tcp (read none ∷ es) = []
read_from_tcp (read (some bytes) ∷ es) = bytes ∷ read_from_tcp es

-- No write fails, and each takes its whole frame.
unfoldable pub WholeWrites : List Event → Type 0
WholeWrites [] = Unit
WholeWrites (frame (binary bytes) written ∷ es) = (written ≡ some (length bytes)) × WholeWrites es
WholeWrites (frame unknown written ∷ es) = WholeWrites es
WholeWrites (disconnected shut ∷ es) = WholeWrites es
WholeWrites (errored shut ∷ es) = WholeWrites es
WholeWrites (read bytes ∷ es) = (bytes ≢ none) × WholeWrites es

-- The first bytes of each frame that its write takes, in order, up to a failure.
pub taken : List Event → List ℕ
taken [] = []
taken (frame (binary bytes) none ∷ es) = []
taken (frame (binary bytes) (some n) ∷ es) = take n bytes ++ taken es
taken (frame unknown written ∷ es) = taken es
taken (disconnected shut ∷ es) = []
taken (errored shut ∷ es) = []
taken (read none ∷ es) = []
taken (read (some bytes) ∷ es) = taken es

-- The bytes at the end of a frame that a short write has left out; a failed write has no frame left
-- to send.
pub left_out : List Event → ℕ
left_out [] = 0
left_out (frame (binary bytes) none ∷ es) = length (sent_by_client (frame (binary bytes) none ∷ es))
left_out (frame (binary bytes) (some n) ∷ es) = (length bytes - n) + left_out es
left_out (frame unknown written ∷ es) = left_out es
left_out (disconnected shut ∷ es) = 0
left_out (errored shut ∷ es) = 0
left_out (read none ∷ es) = length (sent_by_client es)
left_out (read (some bytes) ∷ es) = left_out es
