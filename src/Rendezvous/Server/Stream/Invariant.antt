-- ===== src/Rendezvous/Server/Stream/Invariant.antt =====
-- The invariant of a stream of `listen`: which clients are announced at each of its places.
use siplane.Base.{
  ℕ, ◌+◌, ◌≤◌, ◌<◌, String, ◌≡◌, refl, ap, ◌∙◌, ◌⊎◌, inl, inr, Bool, true, false, Option, none,
  some, List, [], ◌∷◌, ◌++◌, append-nil, arith, ltb, Bool-cases, length, format, lookup,
  lookup-insert,
}
use siplane.Rendezvous.Server.{
  State, TcpStream, Config, Listening, Listen, handle, no_port, error, panicked as listen_panicked,
  listen, accept_on, accepted, build_listening_resp, build_new_connection_resp,
}
use siplane.Rendezvous.Server as Server
use siplane.Rendezvous.Server.Stream.{
  SseMessage, listening, new_connection, Place, opening, opened, accepting, connecting, panicked,
  Event, listens, accepts, accept_fails, yields, Turn, on_listen, on_listening, on_accepted,
  on_new_connection, step, accepted_by,
}

-- the clients of the announced connections, by ip and port
abbrev pub clients : List SseMessage → List (String × ℕ)
clients [] = []
clients (listening l ∷ out) = clients out
clients (new_connection nc ∷ out) = (nc.client_ip, nc.client_port) ∷ clients out

abbrev pub peers : List TcpStream → List (String × ℕ)
peers [] = []
peers (stream ∷ streams) = (stream.peer_ip, stream.peer_port) ∷ peers streams

clients-append : (xs ys : List SseMessage) → clients (xs ++ ys) ≡ clients xs ++ clients ys
clients-append [] ys = refl
clients-append (listening l ∷ xs) ys = clients-append xs ys
clients-append (new_connection nc ∷ xs) ys =
    ap (◌∷◌ (nc.client_ip, nc.client_port)) (clients-append xs ys)

peers-append : (xs ys : List TcpStream) → peers (xs ++ ys) ≡ peers xs ++ peers ys
peers-append [] ys = refl
peers-append (x ∷ xs) ys = ap (◌∷◌ (x.peer_ip, x.peer_port)) (peers-append xs ys)

-- The accepted connection is in the state or was given away.
abbrev pub Held : ℕ → TcpStream → State → Type 0
Held c stream s =
    (c < s.connecting_streams_cnt)
    × ((lookup c s.connecting_streams ≡ none)
        ⊎ (lookup c s.connecting_streams ≡ some (record { token = ""; stream = stream })))

abbrev pub Inv : Place → State → List TcpStream → List SseMessage → Type 0
Inv (connecting h c) s streams out =
    (stream : TcpStream) × (clients out ++ (stream.peer_ip, stream.peer_port) ∷ [] ≡ peers streams)
    × Held c stream s
Inv panicked s streams out =
    (rest : List (String × ℕ)) × (clients out ++ rest ≡ peers streams) × (length rest ≤ 1)
Inv _ s streams out = clients out ≡ peers streams

abbrev pub TurnInv : List TcpStream → List SseMessage → Turn → Type 0
TurnInv streams out t = Inv t.place t.server streams (out ++ t.yielded)

abbrev pub StepInv : List TcpStream → List SseMessage → Option Turn → Type 0
StepInv streams out none = Unit
StepInv streams out (some t) = TurnInv streams out t

module _ (show : ℕ → String) (cfg : Config) (listener_id : ℕ) where
  abbrev lost : State → Turn
  lost s = record { place = panicked; server = s; yielded = [] }

  -- A panic with all announced, and one before the last is.
  lost-Inv :
      (s : State) (streams : List TcpStream) (out : List SseMessage)
      → clients out ≡ peers streams
      → TurnInv streams out (lost s)
  lost-Inv s streams out e = ([], rw (append-nil out, append-nil (clients out)) e, ground arith)

  lost_one-Inv :
      (s : State) (stream : TcpStream) (streams : List TcpStream) (out : List SseMessage)
      → clients out ++ (stream.peer_ip, stream.peer_port) ∷ [] ≡ peers streams
      → TurnInv streams out (lost s)
  lost_one-Inv s stream streams out e =
      ((stream.peer_ip, stream.peer_port) ∷ [], rw (append-nil out) e, ground arith)

  on_listen-Inv :
      (r : State × Listen) (streams : List TcpStream) (out : List SseMessage)
      → clients out ≡ peers streams
      → TurnInv streams out (on_listen show cfg listener_id r)
  unfolding on_listen
  on_listen-Inv (s, handle h) streams out e = rw (append-nil out) e
  on_listen-Inv (s, no_port) streams out e = lost-Inv s streams out e
  on_listen-Inv (s, error) streams out e = lost-Inv s streams out e
  on_listen-Inv (s, listen_panicked) streams out e = lost-Inv s streams out e

  on_listening-Inv :
      (h : ℕ) (s : State) (l : Option Listening) (streams : List TcpStream) (out : List SseMessage)
      → clients out ≡ peers streams
      → TurnInv streams out (on_listening show cfg listener_id h s l)
  unfolding on_listening
  on_listening-Inv h s none streams out e = lost-Inv s streams out e
  on_listening-Inv h s (some l) streams out e =
      clients-append out (listening l ∷ []) ∙ append-nil (clients out) ∙ e

  one_more :
      (stream : TcpStream) (streams : List TcpStream) (out : List SseMessage)
      → clients out ≡ peers streams
      → clients out ++ (stream.peer_ip, stream.peer_port) ∷ [] ≡ peers (streams ++ stream ∷ [])
  one_more stream streams out e = rw (peers-append streams (stream ∷ []), e) refl

  accepted-Inv :
      (h : ℕ) (s : State) (stream : TcpStream) (streams : List TcpStream) (out : List SseMessage)
      → clients out ≡ peers streams
      → TurnInv
          (streams ++ stream ∷ [])
          out
          (on_accepted show cfg listener_id h s (accepted s stream))
  unfolding on_accepted accepted
  accepted-Inv h s stream streams out e =
      elim (Bool-cases (ltb (s.connecting_streams_cnt + 1) Server.u64_mod)) [
        | inl f ↦
            rw (f, append-nil out)
              (
                stream,
                one_more stream streams out e,
                (
                  ground arith,
                  inr (
                      ground (
                        arith,
                        lookup-insert s.connecting_streams_cnt s.connecting_streams_cnt
                            (record { token = ""; stream = stream }) s.connecting_streams,
                      )),
                ),
              )
        | inr f ↦
            rw f
              (lost_one-Inv s stream (streams ++ stream ∷ []) out (one_more stream streams out e))
      ]

  resp_none :
      (s : State) (named : Bool) (c : ℕ)
      → lookup c s.connecting_streams ≡ none
      → build_new_connection_resp show cfg s named c ≡ none
  unfolding build_new_connection_resp
  resp_none s named c e = ground arith

  resp_unnamed : (s : State) (c : ℕ) → build_new_connection_resp show cfg s false c ≡ none
  unfolding build_new_connection_resp
  resp_unnamed s c = ground arith

  resp_some :
      (s : State) (c : ℕ) (stream : TcpStream)
      → lookup c s.connecting_streams ≡ some (record { token = ""; stream = stream })
      → build_new_connection_resp show cfg s true c
        ≡ some (record {
          client_ip = stream.peer_ip;
          client_port = stream.peer_port;
          remote_ip = stream.local_ip;
          remote_port = stream.local_port;
          rendezvous_endpoint = format (cfg.rendezvous_endpoint_base ∷ "/" ∷ show c ∷ []);
          accept_token = "";
        })
  unfolding build_new_connection_resp
  resp_some s c stream e = ground arith

  announced-Inv :
      (named : Bool) (h c : ℕ) (s : State) (streams : List TcpStream) (out : List SseMessage)
      → Inv (connecting h c) s streams out
      → TurnInv streams out (
          on_new_connection show cfg listener_id h s (build_new_connection_resp show cfg s named c))
  unfolding on_new_connection
  announced-Inv false h c s streams out (stream, e, k) =
      rw (resp_unnamed s c) (lost_one-Inv s stream streams out e)
  announced-Inv true h c s streams out (stream, e, (lt, inl n)) =
      rw (resp_none s true c n) (lost_one-Inv s stream streams out e)
  announced-Inv true h c s streams out (stream, e, (lt, inr n)) =
      rw (resp_some s c stream n) (clients-append out _ ∙ e)

  socket-Inv :
      (h : ℕ) (s : State) (stream : TcpStream) (streams : List TcpStream) (out : List SseMessage)
      (o : Option ℕ)
      → clients out ≡ peers streams
      → StepInv (streams ++ stream ∷ []) out (elim o [
        | none ↦ some (lost s)
        | some socket ↦ some (on_accepted show cfg listener_id h s (accepted s stream))
      ])
  socket-Inv h s stream streams out none i =
      lost_one-Inv s stream (streams ++ stream ∷ []) out (one_more stream streams out i)
  socket-Inv h s stream streams out (some socket) i = accepted-Inv h s stream streams out i

  pub step-Inv :
      (p : Place) (s : State) (e : Event) (streams : List TcpStream) (out : List SseMessage)
      → Inv p s streams out
      → StepInv
          (streams ++ accepted_by show cfg listener_id e)
          out
          (step show cfg listener_id p s e)
  unfolding step
  step-Inv opening s (listens bind) streams out i =
      rw (append-nil streams) (on_listen-Inv (listen s listener_id bind) streams out i)
  step-Inv opening s (accepts stream) streams out i = tt
  step-Inv opening s accept_fails streams out i = tt
  step-Inv opening s (yields named) streams out i = tt
  step-Inv (opened h) s (listens bind) streams out i = tt
  step-Inv (opened h) s (accepts stream) streams out i = tt
  step-Inv (opened h) s accept_fails streams out i = tt
  step-Inv (opened h) s (yields named) streams out i =
      rw (append-nil streams) (on_listening-Inv h s (build_listening_resp cfg s h) streams out i)
  step-Inv (accepting h) s (listens bind) streams out i = tt
  step-Inv (accepting h) s (accepts stream) streams out i =
      socket-Inv h s stream streams out (accept_on s h) i
  step-Inv (accepting h) s accept_fails streams out i =
      rw (append-nil streams) (lost-Inv s streams out i)
  step-Inv (accepting h) s (yields named) streams out i = tt
  step-Inv (connecting h c) s (listens bind) streams out i = tt
  step-Inv (connecting h c) s (accepts stream) streams out i = tt
  step-Inv (connecting h c) s accept_fails streams out i = tt
  step-Inv (connecting h c) s (yields named) streams out i =
      rw (append-nil streams) (announced-Inv named h c s streams out i)
  step-Inv panicked s e streams out i = tt
