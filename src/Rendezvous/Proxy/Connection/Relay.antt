-- ===== src/Rendezvous/Proxy/Connection/Relay.antt =====
-- rendezvous-proxy/src/lib.rs: what `connection_task` passes on, and how it ends.
use siplane.Base.{
  ℕ, ◌≡◌, refl, sym, ap, ◌≢◌, true, false, none, some, List, [], ◌∷◌, ◌++◌, append-nil,
  append_assoc, arith, All,
}
use siplane.Rendezvous.Proxy.Connection.{
  tcp_read, tcp_write, ws_read, ws_write, Event, command_shutdown, command_dropped, from_service,
  service_broken_pipe, service_failed, ws_binary, ws_ping, ws_close, ws_unexpected, ws_failed,
  ws_ended, Frame, binary, ping, Place, relaying, finished, failed, panicked, Connection, opened,
  send, write_all, turn, relay, close_at, close, connection_task,
}

-- where an event leads to if the loop stands before it
unfoldable pub place_after : Event → Place
place_after command_shutdown = finished
place_after command_dropped = panicked
place_after (from_service bytes true) = relaying
place_after (from_service bytes false) = failed ws_write
place_after service_broken_pipe = finished
place_after service_failed = failed tcp_read
place_after (ws_binary bytes none) = relaying
place_after (ws_binary bytes (some n)) = failed tcp_write
place_after (ws_ping bytes true) = relaying
place_after (ws_ping bytes false) = failed ws_write
place_after ws_close = finished
place_after ws_unexpected = relaying
place_after ws_failed = failed ws_read
place_after ws_ended = finished

-- None of the events ends the loop.
unfoldable pub Steady : List Event → Type 0
Steady = All (λ e. place_after e ≡ relaying)

-- the frames that came in over the WebSocket
unfoldable pub frames_in : List Event → List (List ℕ)
frames_in [] = []
frames_in (ws_binary bytes failed_after ∷ es) = bytes ∷ frames_in es
frames_in (_ ∷ es) = frames_in es

-- what was read from the service
unfoldable pub reads : List Event → List (List ℕ)
reads [] = []
reads (from_service bytes sent ∷ es) = bytes ∷ reads es
reads (_ ∷ es) = reads es

abbrev pub concat : List (List ℕ) → List ℕ
concat [] = []
concat (xs ∷ xss) = xs ++ concat xss

-- the binary frames, without the pings
abbrev pub binaries : List Frame → List (List ℕ)
binaries [] = []
binaries (binary bytes ∷ fs) = bytes ∷ binaries fs
binaries (ping bytes ∷ fs) = binaries fs

binaries-append : (fs gs : List Frame) → binaries (fs ++ gs) ≡ binaries fs ++ binaries gs
binaries-append [] gs = refl
binaries-append (binary bytes ∷ fs) gs = ap (λ t. bytes ∷ t) (binaries-append fs gs)
binaries-append (ping bytes ∷ fs) gs = binaries-append fs gs

steps_on :
    (es : List Event) (c : Connection)
    → c.place ≡ relaying
    → Steady es
    → ((relay c es).place ≡ relaying)
      × ((relay c es).service ≡ c.service ++ concat (frames_in es))
      × (binaries (relay c es).sent ≡ binaries c.sent ++ reads es)
unfolding relay turn send write_all Steady place_after frames_in reads
steps_on [] c on st = (on, sym (append-nil c.service), sym (append-nil (binaries c.sent)))
steps_on (command_shutdown ∷ es) c on st = ground arith
steps_on (command_dropped ∷ es) c on st = ground arith
steps_on (from_service bytes true ∷ es) c on st = ground (
  arith,
  steps_on es (turn c (from_service bytes true)),
  binaries-append c.sent (binary bytes ∷ []),
  append_assoc (binaries c.sent) (bytes ∷ []) (reads es),
)
steps_on (from_service bytes false ∷ es) c on st = ground arith
steps_on (service_broken_pipe ∷ es) c on st = ground arith
steps_on (service_failed ∷ es) c on st = ground arith
steps_on (ws_binary bytes none ∷ es) c on st = ground (
  arith,
  steps_on es (turn c (ws_binary bytes none)),
  append_assoc c.service bytes (concat (frames_in es)),
)
steps_on (ws_binary bytes (some n) ∷ es) c on st = ground arith
steps_on (ws_ping bytes true ∷ es) c on st = ground (
  arith,
  steps_on es (turn c (ws_ping bytes true)),
  binaries-append c.sent (ping bytes ∷ []),
  append-nil (binaries c.sent),
)
steps_on (ws_ping bytes false ∷ es) c on st = ground arith
steps_on (ws_close ∷ es) c on st = ground arith
steps_on (ws_unexpected ∷ es) c on st = ground (arith, steps_on es c)
steps_on (ws_failed ∷ es) c on st = ground arith
steps_on (ws_ended ∷ es) c on st = ground arith

at_rest : (es : List Event) (c : Connection) → c.place ≢ relaying → relay c es ≡ c
unfolding relay
at_rest [] c n = refl
at_rest (e ∷ es) c n = ground arith

relay-append : (es fs : List Event) (c : Connection) → relay c (es ++ fs) ≡ relay (relay c es) fs
unfolding relay
relay-append [] fs c = refl
relay-append (e ∷ es) fs c = ground (arith, relay-append es fs (turn c e), at_rest fs c)

turn-place : (e : Event) (c : Connection) → c.place ≡ relaying → (turn c e).place ≡ place_after e
unfolding turn send write_all place_after
turn-place command_shutdown c on = refl
turn-place command_dropped c on = refl
turn-place (from_service bytes true) c on = on
turn-place (from_service bytes false) c on = refl
turn-place service_broken_pipe c on = refl
turn-place service_failed c on = refl
turn-place (ws_binary bytes none) c on = on
turn-place (ws_binary bytes (some n)) c on = refl
turn-place (ws_ping bytes true) c on = on
turn-place (ws_ping bytes false) c on = refl
turn-place ws_close c on = refl
turn-place ws_unexpected c on = on
turn-place ws_failed c on = refl
turn-place ws_ended c on = refl

-- While nothing ends the loop, the service gets the bytes of all binary frames that came in, in
-- order, and the rendezvous server a binary frame for each read from the service, in order.
pub connection_relays :
    (es : List Event)
    → Steady es
    → ((relay opened es).place ≡ relaying)
      × ((relay opened es).service ≡ concat (frames_in es))
      × (binaries (relay opened es).sent ≡ reads es)
unfolding opened
connection_relays es st = steps_on es opened refl st

-- The first event that ends the loop decides how the task ends, and what would come later has no
-- effect: a command, a broken pipe or the end of the WebSocket end it without an error, each
-- failure with its own error, and the end of the command channel with a panic. The WebSocket is
-- closed but for the panic.
pub connection_ends :
    (es fs : List Event) (e : Event)
    → Steady es
    → place_after e ≢ relaying
    → let c = connection_task true true true (es ++ e ∷ fs) in
      (c ≡ connection_task true true true (es ++ e ∷ []))
      × (c.place ≡ place_after e)
      × (c.place ≢ panicked → c.ws_closed ≡ true)
unfolding connection_task opened close close_at relay
connection_ends es fs e st n =
    let (on, s, b) = steps_on es opened refl st in
    let here = turn (relay opened es) e in
    let at = turn-place e (relay opened es) on in
    ground (
      arith,
      relay-append es (e ∷ fs) opened,
      relay-append es (e ∷ []) opened,
      at_rest fs here,
      place_after e,
    )
