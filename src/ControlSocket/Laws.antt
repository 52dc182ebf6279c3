-- ===== src/ControlSocket/Laws.antt =====
-- What the two control sockets promise: whom they answer with what, how they end, and where they
-- differ.
use siplane.Base.{ℕ, ◌≡◌, refl, subst, ◌≢◌, ◌↔◌, Option, some, List, [], ◌∷◌, ◌++◌, arith, All}
use siplane.Api.Puppet.{RunnerMsg}
use siplane.ControlSocket.Defs.{
  Runner, Decoded, Place, serving, Input, accept, received, end_of_stream, Answer, Runs, stop, more,
}
use siplane.ControlSocket.Unix
use siplane.ControlSocket.Tcp

-- The connection on which the next bytes come in, and the one accepted last.
abbrev pub next_conn : Option ℕ → Input → Option ℕ
next_conn cur (accept c) = some c
next_conn cur _ = cur

abbrev pub last_accepted : Option ℕ → List Input → Option ℕ
last_accepted cur [] = cur
last_accepted cur (i ∷ is) = last_accepted (next_conn cur i) is

-- `cur` is the connection that the task serves, if it serves one.
abbrev Serves : Place → Option ℕ → Type 0
Serves (serving c) cur = cur ≡ some c
Serves _ cur = Unit

module _ (decode : List ℕ → Decoded) (job_id : ℕ) (runner : Runner) where
  abbrev reply_on : Option ℕ → Option RunnerMsg → List Answer
  reply_on (some c) (some m) = (c, m) ∷ []
  reply_on _ _ = []

  abbrev heard : Option ℕ → Input → List Answer
  heard cur (received bytes sent) = reply_on cur (Unix.answer_to (decode bytes) job_id runner)
  heard cur _ = []

  -- The answers as a plain map over the inputs, with no state machine: to each message the reply
  -- that it calls for, on the connection accepted last.
  abbrev pub replies : Option ℕ → List Input → List Answer
  replies cur [] = []
  replies cur (i ∷ is) = heard cur i ++ replies (next_conn cur i) is

  tcp-answer_to : (d : Decoded) → Tcp.answer_to d job_id runner ≡ Unix.answer_to d job_id runner
  unfolding Tcp.answer_to Unix.answer_to
  tcp-answer_to d = ground arith

  tcp_step :
      (s : Unix.State) (i : Input)
      → i ≢ end_of_stream
      → (u : Unix.State) (o : List Answer) → Unix.step decode job_id runner s i ≡ some (u, o)
      → Tcp.step decode job_id runner s.place i ≡ some (u.place, o)
  unfolding Unix.step Tcp.step
  tcp_step s i ne u o e = ground arith

  tcp_step_converse :
      (s : Unix.State) (i : Input) (p : Place) (o : List Answer)
      → Tcp.step decode job_id runner s.place i ≡ some (p, o)
      → i ≢ end_of_stream
      → Unix.step decode job_id runner s i
        ≡ some (record s { place = p; client = next_conn s.client i }, o)
  unfolding Unix.step Tcp.step
  tcp_step_converse s i p o e ne = ground arith

  abbrev pub NoEnd : List Input → Type 0
  NoEnd = All (λ i. i ≢ end_of_stream)

  unix_run_is_tcp_run :
      {s t : Unix.State} {is : List Input} {out : List Answer}
      → Runs (Unix.step decode job_id runner) s is t out
      → NoEnd is
      → Runs (Tcp.step decode job_id runner) s.place is t.place out
  unix_run_is_tcp_run stop h = stop
  unix_run_is_tcp_run {s = s} (more {u = u} {i = i} {o = o} e r) h =
      more (tcp_step s i h.0 u o e) (unix_run_is_tcp_run r h.1)

  tcp_run_is_unix_run :
      {p q : Place} {is : List Input} {out : List Answer} (s : Unix.State)
      → Runs (Tcp.step decode job_id runner) p is q out
      → s.place ≡ p
      → NoEnd is
      → (t : Unix.State) × Runs (Unix.step decode job_id runner) s is t out × (t.place ≡ q)
  tcp_run_is_unix_run s stop e h = (s, stop, e)
  tcp_run_is_unix_run s (more {u = u} {i = i} {o = o} st r) e h =
      let s' : Unix.State = record s { place = u; client = next_conn s.client i } in
      let (t, rs, q) = tcp_run_is_unix_run s' r refl h.1 in
      (t, more (tcp_step_converse s i u o (rw e st) h.0) rs, q)

  -- As long as no stream ends, the two transports are one: from the same place, the inputs take the
  -- UNIX control socket to some place with some answers exactly when they take the TCP control
  -- socket there with those answers.
  pub transports_agree :
      (s : Unix.State) (q : Place) (is : List Input) (out : List Answer)
      → NoEnd is
      → ((t : Unix.State) × Runs (Unix.step decode job_id runner) s is t out × (t.place ≡ q))
        ↔ Runs (Tcp.step decode job_id runner) s.place is q out
  transports_agree s q is out h = (
    λ (t, r, e).
        subst (λ p. Runs (Tcp.step decode job_id runner) s.place is p out) e
          (unix_run_is_tcp_run r h),
    λ r. tcp_run_is_unix_run s r refl h,
  )
