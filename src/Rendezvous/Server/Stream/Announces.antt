-- ===== src/Rendezvous/Server/Stream/Announces.antt =====
-- What the stream of `listen` tells its proxy, whatever others ask of the server in between.
use siplane.Base.{
  ℕ, ◌≤◌, String, ◌≡◌, refl, ◌∙◌, subst, ◌⊎◌, inl, inr, Bool, true, false, Option, none, some, List,
  [], ◌∷◌, ◌++◌, append-nil, arith, length,
}
use siplane.Rendezvous.Server.{State, TcpStream, Config, Call}
use siplane.Rendezvous.Server as Server
use siplane.Rendezvous.Server.Handles.{connected, unless, step-lookup}
use siplane.Rendezvous.Server.Stream.{
  SseMessage, Place, opening, opened, accepting, connecting, panicked, accepted_by, Runs, begin,
  own, other,
}
use siplane.Rendezvous.Server.Stream.Invariant.{clients, peers, Inv, StepInv, step-Inv}

module _ (show : ℕ → String) (cfg : Config) (listener_id : ℕ) where
  held_unless :
      (b : Bool) {A : Type 0} {o r : Option A} {v : A}
      → r ≡ unless b o
      → (o ≡ none) ⊎ (o ≡ some v)
      → (r ≡ none) ⊎ (r ≡ some v)
  held_unless true e h = inl e
  held_unless false e (inl n) = inl (e ∙ n)
  held_unless false e (inr n) = inr (e ∙ n)

  -- The calls of others touch nothing of this.
  other-Inv :
      (p : Place) (s : State) (call : Call) (streams : List TcpStream) (out : List SseMessage)
      → Inv p s streams out
      → Inv p (Server.step s call) streams out
  other-Inv opening s call streams out i = i
  other-Inv (opened h) s call streams out i = i
  other-Inv (accepting h) s call streams out i = i
  other-Inv (connecting h c) s call streams out (stream, e, (lt, held)) =
      let (l, lt') = step-lookup s call c lt in
      (stream, e, (lt', held_unless (connected c (call ∷ [])) l held))
  other-Inv panicked s call streams out i = i

  Runs-Inv :
      {s₀ : State} (p : Place) (s : State) (streams : List TcpStream) (out : List SseMessage)
      → Runs show cfg listener_id s₀ p s streams out
      → Inv p s streams out
  Runs-Inv p s streams out begin = refl
  Runs-Inv p s streams out (own {p = q} {s = u} {streams = ss} {out = o} e r h) =
      subst (StepInv (ss ++ accepted_by show cfg listener_id e) o) h
        (step-Inv show cfg listener_id q u e ss o (Runs-Inv q u ss o r))
  Runs-Inv p s streams out (other {s = u} call r) =
      other-Inv p u call streams out (Runs-Inv p u streams out r)

  abbrev Announced : Place → List TcpStream → List SseMessage → Type 0
  Announced p streams out =
      (rest : List (String × ℕ)) × (clients out ++ rest ≡ peers streams)
      × (length rest ≤ 1)
      × ((h : ℕ) → p ≡ accepting h → rest ≡ [])

  none_left :
      (p : Place) (streams : List TcpStream) (out : List SseMessage)
      → clients out ≡ peers streams
      → Announced p streams out
  none_left p streams out e = ([], rw (append-nil (clients out)) e, ground arith, λ h f. refl)

  Inv-Announced :
      (p : Place) (s : State) (streams : List TcpStream) (out : List SseMessage)
      → Inv p s streams out
      → Announced p streams out
  Inv-Announced opening s streams out e = none_left opening streams out e
  Inv-Announced (opened h) s streams out e = none_left (opened h) streams out e
  Inv-Announced (accepting h) s streams out e = none_left (accepting h) streams out e
  Inv-Announced (connecting h c) s streams out (stream, e, held) =
      ((stream.peer_ip, stream.peer_port) ∷ [], e, ground arith, λ k f. absurd (ground arith))
  Inv-Announced panicked s streams out (rest, e, few) = (rest, e, few, λ k f. absurd (ground arith))

  -- On the stream of `listen` the clients that have connected to its port are announced in the order in
  -- which they came, each once and by its own address, whatever else the server is asked for in the
  -- meantime: at most the last one is not announced, and none if the stream waits for a connection.
  pub every_client_announced :
      {s₀ : State} (p : Place) (s : State) (streams : List TcpStream) (out : List SseMessage)
      → Runs show cfg listener_id s₀ p s streams out
      → (rest : List (String × ℕ)) × (clients out ++ rest ≡ peers streams)
        × (length rest ≤ 1)
        × ((h : ℕ) → p ≡ accepting h → rest ≡ [])
  every_client_announced p s streams out r =
      Inv-Announced p s streams out (Runs-Inv p s streams out r)
