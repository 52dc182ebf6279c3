-- ===== src/Rendezvous/Server/Stream/Address.antt =====
-- The first thing that the stream of `listen` tells its proxy.
use siplane.Base.{
  ℕ, ◌+◌, String, ◌≡◌, refl, ap, ◌∙◌, subst, inl, inr, Option, none, some, List, [], ◌∷◌, ◌++◌,
  append-nil, arith, ltb, Bool-cases,
}
use siplane.Rendezvous.Server.{
  State, TcpStream, Listener, Config, Listening, Listen, handle, no_port, error,
  panicked as listen_panicked, listen, accept_on, accepted, build_listening_resp,
  build_new_connection_resp, Call, NewConnection, u64_mod,
}
use siplane.Rendezvous.Server as Server
use siplane.Rendezvous.Server.Stream.{
  SseMessage, listening, new_connection, Place, opening, opened, accepting, connecting, panicked,
  Event, listens, accepts, accept_fails, yields, Turn, on_listen, on_listening, on_accepted,
  on_new_connection, step, Runs, begin, own, other,
}
use siplane.Rendezvous.Server.Stream.Kept.{Known, step-keeps, Given, listen-Given}

-- only connections
abbrev pub NewOnly : List SseMessage → Type 0
NewOnly [] = Unit
NewOnly (listening l ∷ out) = ⊥
NewOnly (new_connection nc ∷ out) = NewOnly out

NewOnly-append : (xs ys : List SseMessage) → NewOnly xs → NewOnly ys → NewOnly (xs ++ ys)
NewOnly-append [] ys h k = k
NewOnly-append (listening l ∷ xs) ys h k = absurd h
NewOnly-append (new_connection nc ∷ xs) ys h k = NewOnly-append xs ys h k

module _ (show : ℕ → String) (cfg : Config) (listener_id : ℕ) where
  abbrev pub address_of : Listener → Listening
  address_of l = record { public_hostname = cfg.public_hostname; public_port = l.port }

  abbrev Told : ℕ → State → List SseMessage → Type 0
  Told h s out =
      (l : Listener) × (rest : List SseMessage) × (out ≡ listening (address_of l) ∷ rest)
      × NewOnly rest
      × Known h l s

  abbrev Opens : Place → State → List SseMessage → Type 0
  Opens opening s out = out ≡ []
  Opens (opened h) s out = (out ≡ []) × ((l : Listener) × Known h l s)
  Opens (accepting h) s out = Told h s out
  Opens (connecting h c) s out = Told h s out
  Opens panicked s out = Unit

  abbrev TurnOpens : List SseMessage → Turn → Type 0
  TurnOpens out t = Opens t.place t.server (out ++ t.yielded)

  abbrev StepOpens : List SseMessage → Option Turn → Type 0
  StepOpens out none = Unit
  StepOpens out (some t) = TurnOpens out t

  on_listen-Opens :
      (r : State × Listen) (out : List SseMessage)
      → Given r
      → out ≡ []
      → TurnOpens out (on_listen show cfg listener_id r)
  unfolding on_listen
  on_listen-Opens (s, handle h) out g e = (append-nil out ∙ e, g)
  on_listen-Opens (s, no_port) out g e = tt
  on_listen-Opens (s, error) out g e = tt
  on_listen-Opens (s, listen_panicked) out g e = tt

  resp_of :
      (h : ℕ) (l : Listener) (s : State)
      → Known h l s
      → build_listening_resp cfg s h ≡ some (address_of l)
  unfolding build_listening_resp
  resp_of h l s (lt, e) = ground arith

  on_listening-Opens :
      (h : ℕ) (s : State) (out : List SseMessage)
      → Opens (opened h) s out
      → TurnOpens out (on_listening show cfg listener_id h s (build_listening_resp cfg s h))
  unfolding on_listening
  on_listening-Opens h s out (e, (l, k)) = rw (resp_of h l s k, e) (l, [], refl, tt, k)

  more-Told :
      (h : ℕ) (s : State) (out more : List SseMessage)
      → NewOnly more
      → Told h s out
      → Told h s (out ++ more)
  more-Told h s out more only (l, rest, e, n, k) =
      (l, rest ++ more, ap (λ o. o ++ more) e, NewOnly-append rest more n only, k)

  on_accepted-Opens :
      (h : ℕ) (s : State) (stream : TcpStream) (out : List SseMessage)
      → Told h s out
      → TurnOpens out (on_accepted show cfg listener_id h s (accepted s stream))
  unfolding on_accepted accepted
  on_accepted-Opens h s stream out told =
      elim (Bool-cases (ltb (s.connecting_streams_cnt + 1) u64_mod)) [
        | inl e ↦ rw e (let (l, rest, o, n, k) = more-Told h s out [] tt told in (l, rest, o, n, k))
        | inr e ↦ rw e tt
      ]

  socket-Opens :
      (h : ℕ) (s : State) (stream : TcpStream) (out : List SseMessage) (o : Option ℕ)
      → Told h s out
      → StepOpens out (elim o [
        | none ↦ some (record { place = panicked; server = s; yielded = [] })
        | some socket ↦ some (on_accepted show cfg listener_id h s (accepted s stream))
      ])
  socket-Opens h s stream out none told = tt
  socket-Opens h s stream out (some socket) told = on_accepted-Opens h s stream out told

  on_new_connection-Opens :
      (h : ℕ) (s : State) (nc : Option NewConnection) (out : List SseMessage)
      → Told h s out
      → TurnOpens out (on_new_connection show cfg listener_id h s nc)
  unfolding on_new_connection
  on_new_connection-Opens h s none out told = tt
  on_new_connection-Opens h s (some nc) out told =
      more-Told h s out (new_connection nc ∷ []) tt told

  step-Opens :
      (p : Place) (s : State) (e : Event) (out : List SseMessage)
      → Opens p s out
      → StepOpens out (step show cfg listener_id p s e)
  unfolding step listen
  step-Opens opening s (listens bind) out i =
      on_listen-Opens (listen s listener_id bind) out (listen-Given s listener_id bind) i
  step-Opens opening s (accepts stream) out i = tt
  step-Opens opening s accept_fails out i = tt
  step-Opens opening s (yields named) out i = tt
  step-Opens (opened h) s (listens bind) out i = tt
  step-Opens (opened h) s (accepts stream) out i = tt
  step-Opens (opened h) s accept_fails out i = tt
  step-Opens (opened h) s (yields named) out i = on_listening-Opens h s out i
  step-Opens (accepting h) s (listens bind) out i = tt
  step-Opens (accepting h) s (accepts stream) out i = socket-Opens h s stream out (accept_on s h) i
  step-Opens (accepting h) s accept_fails out i = tt
  step-Opens (accepting h) s (yields named) out i = tt
  step-Opens (connecting h c) s (listens bind) out i = tt
  step-Opens (connecting h c) s (accepts stream) out i = tt
  step-Opens (connecting h c) s accept_fails out i = tt
  step-Opens (connecting h c) s (yields named) out i =
      on_new_connection-Opens h s (build_new_connection_resp show cfg s named c) out i
  step-Opens panicked s e out i = tt

  other-Opens :
      (p : Place) (s : State) (call : Call) (out : List SseMessage)
      → Opens p s out
      → Opens p (Server.step s call) out
  other-Opens opening s call out i = i
  other-Opens (opened h) s call out (e, (l, k)) = (e, (l, step-keeps s call h l k))
  other-Opens (accepting h) s call out (l, rest, e, n, k) = (l, rest, e, n, step-keeps s call h l k)
  other-Opens (connecting h c) s call out (l, rest, e, n, k) =
      (l, rest, e, n, step-keeps s call h l k)
  other-Opens panicked s call out i = tt

  pub Runs-Opens :
      {s₀ : State} (p : Place) (s : State) (streams : List TcpStream) (out : List SseMessage)
      → Runs show cfg listener_id s₀ p s streams out
      → Opens p s out
  Runs-Opens p s streams out begin = refl
  Runs-Opens p s streams out (own {p = q} {s = u} {streams = ss} {out = o} e r h) =
      subst (StepOpens o) h (step-Opens q u e o (Runs-Opens q u ss o r))
  Runs-Opens p s streams out (other {s = u} call r) =
      other-Opens p u call out (Runs-Opens p u streams out r)
