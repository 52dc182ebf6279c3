-- ===== src/Rendezvous/Server/Ports.antt =====
-- rendezvous-server/src/main.rs: the ports of the listeners, over any sequence of calls.
use siplane.Base.{
  ℕ, zero, suc, ◌+◌, ◌-◌, ◌≤◌, ◌<◌, ◌≡◌, refl, sym, ap, subst, ◌≢◌, inl, inr, some, List, [], ◌∷◌,
  arith, ltb, Bool-cases, Option-cases, length, lookup, insert, lookup-insert,
}
use mathlib.Core.List.{
  Nodup, Mem, mem-cons_self, mem-cons_of_mem, eq-or-mem_of_mem-cons, not-mem-nil,
}
use mathlib.Core.List.{Nodup-cons, Perm, Pairwise}
use mathlib.Core.List.Perm.{nodup}
use mathlib.Core.Logic.Or
use mathlib.Core.HLevel.{⊥_prop}
use siplane.Rendezvous.Server.{
  State, Listener, ports_from, new, Bound, bound, bind_error, no_port, insert_listener, listen_at,
  listen, accepted, connect, Call, listens, accepts, connects, step, run, u64_mod,
}

record Inv (s : State) : Type 0 where
  pool : Nodup s.listen_port_pool
  apart : (h : ℕ) (l : Listener) → lookup h s.listeners ≡ some l → ¬ Mem l.port s.listen_port_pool
  injective :
      (h k : ℕ) (l m : Listener)
      → lookup h s.listeners ≡ some l
      → lookup k s.listeners ≡ some m
      → l.port ≡ m.port
      → h ≡ k

above-ports_from : (a b n : ℕ) → a < b → ¬ Mem a (ports_from b n)
unfolding ports_from
above-ports_from a b zero lt m = not-mem-nil m
above-ports_from a b (suc n) lt m =
    Or.elim ⊥_prop (eq-or-mem_of_mem-cons m) (λ e. ground (arith))
      (above-ports_from a (suc b) n (ground arith))

ports_from-Nodup : (a n : ℕ) → Nodup (ports_from a n)
unfolding ports_from
ports_from-Nodup a zero = Pairwise.nil
ports_from-Nodup a (suc n) =
    Nodup-cons.1 (above-ports_from a (suc a) n (ground arith), ports_from-Nodup (suc a) n)

pop-Inv :
    (s : State) (port : ℕ) (rest : List ℕ)
    → s.listen_port_pool ≡ port ∷ rest
    → Inv s
    → Inv (record s { listen_port_pool = rest })
pop-Inv s port rest e i = record {
  pool = (Nodup-cons.0 (subst Nodup e i.pool)).1;
  apart = λ h l w m. i.apart h l w (subst (Mem l.port) (sym e) (mem-cons_of_mem port m));
  injective = i.injective;
}

store-Inv :
    (s : State) (k : ℕ) (n : Listener)
    → Inv s
    → ¬ Mem n.port s.listen_port_pool
    → ((h : ℕ) (l : Listener) → lookup h s.listeners ≡ some l → l.port ≢ n.port)
    → Inv (record s { listen_handle_cnt = k + 1; listeners = insert k n s.listeners })
store-Inv s k n i np fresh = record {
  pool = i.pool;
  apart = λ h l w m. ground (arith, lookup-insert k h n s.listeners, i.apart h l);
  injective = λ g h l m w v e. ground (
    arith,
    lookup-insert k g n s.listeners,
    lookup-insert k h n s.listeners,
    i.injective g h l m,
    fresh g l,
    fresh h m,
  );
}

insert_listener-Inv :
    (s : State) (listener_id port : ℕ) (b : Bound)
    → Inv s
    → ¬ Mem port s.listen_port_pool
    → ((h : ℕ) (l : Listener) → lookup h s.listeners ≡ some l → l.port ≢ port)
    → Inv (insert_listener s listener_id port b).0
unfolding insert_listener
insert_listener-Inv s listener_id port bind_error i np fresh = i
insert_listener-Inv s listener_id port (bound socket) i np fresh =
    elim (Bool-cases (ltb (s.listen_handle_cnt + 1) u64_mod)) [
      | inl e ↦ rw (e) (
          store-Inv s s.listen_handle_cnt
            (record { listener_id = listener_id; port = port; socket = socket }) i np fresh)
      | inr e ↦ rw (e) i
    ]

listen_at-Inv :
    (pool : List ℕ) (s : State) (listener_id : ℕ) (bind : ℕ → Bound)
    → s.listen_port_pool ≡ pool
    → Inv s
    → Inv (listen_at pool s listener_id bind).0
unfolding listen_at
listen_at-Inv [] s listener_id bind e i = i
listen_at-Inv (port ∷ rest) s listener_id bind e i =
    insert_listener-Inv (record s { listen_port_pool = rest }) listener_id port (bind port)
      (pop-Inv s port rest e i) (Nodup-cons.0 (subst Nodup e i.pool)).0
      (λ h l w p.
        i.apart h l w
          (subst (λ x. Mem x s.listen_port_pool) (sym p) (subst (Mem port) (sym e) mem-cons_self)))

step-Inv : (s : State) (c : Call) → Inv s → Inv (step s c)
unfolding step listen accepted connect
step-Inv s (listens listener_id bind) i = listen_at-Inv s.listen_port_pool s listener_id bind refl i
step-Inv s (accepts stream) i = elim (Bool-cases (ltb (s.connecting_streams_cnt + 1) u64_mod)) [
  | inl e ↦ rw (e) (record { pool = i.pool; apart = i.apart; injective = i.injective })
  | inr e ↦ rw (e) i
]
step-Inv s (connects handle_id) i = elim (Option-cases (lookup handle_id s.connecting_streams)) [
  | inl e ↦ rw (step, connect, e) i
  | inr (x, e) ↦
      rw (step, connect, e) (record { pool = i.pool; apart = i.apart; injective = i.injective })
]

run-Inv : (s : State) (cs : List Call) → Inv s → Inv (run s cs)
unfolding run
run-Inv s [] i = i
run-Inv s (c ∷ cs) i = run-Inv (step s c) cs (step-Inv s c i)

new-Inv :
    (shuffle : List ℕ → List ℕ)
    → ((xs : List ℕ) → Perm xs (shuffle xs))
    → (start end : ℕ) → Inv (new shuffle start end)
unfolding new
new-Inv shuffle perm start end = record {
  pool = nodup (perm (ports_from start (end - start))) (ports_from-Nodup start (end - start));
  apart = λ h l e. ground arith;
  injective = λ h k l m e. ground arith;
}

-- Whatever the server is asked for and however the shuffle orders the range: the listeners of two
-- different handles have different ports.
pub distinct_ports :
    (shuffle : List ℕ → List ℕ) (perm : (xs : List ℕ) → Perm xs (shuffle xs)) (start end : ℕ)
    (cs : List Call) (h k : ℕ) (l m : Listener)
    → lookup h (run (new shuffle start end) cs).listeners ≡ some l
    → lookup k (run (new shuffle start end) cs).listeners ≡ some m
    → l.port ≡ m.port
    → h ≡ k
distinct_ports shuffle perm start end cs =
    (run-Inv (new shuffle start end) cs (new-Inv shuffle perm start end)).injective

-- the calls of `listen` among them
pub listen_calls : List Call → ℕ
listen_calls [] = 0
listen_calls (listens listener_id bind ∷ cs) = suc (listen_calls cs)
listen_calls (accepts stream ∷ cs) = listen_calls cs
listen_calls (connects handle_id ∷ cs) = listen_calls cs

listen_at-length :
    (pool : List ℕ) (s : State) (listener_id : ℕ) (bind : ℕ → Bound)
    → s.listen_port_pool ≡ pool
    → length (listen_at pool s listener_id bind).0.listen_port_pool ≡ length pool - 1
unfolding listen_at insert_listener
listen_at-length [] s listener_id bind e = ap length e
listen_at-length (port ∷ rest) s listener_id bind e = ground arith

step-length :
    (s : State) (c : Call)
    → length (step s c).listen_port_pool ≡ length s.listen_port_pool - listen_calls (c ∷ [])
unfolding step listen accepted connect listen_calls
step-length s (listens listener_id bind) =
    listen_at-length s.listen_port_pool s listener_id bind refl
step-length s (accepts stream) = ground arith
step-length s (connects handle_id) = ground arith

run-length :
    (cs : List Call) (s : State)
    → length (run s cs).listen_port_pool ≡ length s.listen_port_pool - listen_calls cs
unfolding run listen_calls
run-length [] s = ground arith
run-length (listens listener_id bind ∷ cs) s = ground (
  arith,
  run-length cs (step s (listens listener_id bind)),
  step-length s (listens listener_id bind),
)
run-length (accepts stream ∷ cs) s =
    ground (arith, run-length cs (step s (accepts stream)), step-length s (accepts stream))
run-length (connects handle_id ∷ cs) s =
    ground (arith, run-length cs (step s (connects handle_id)), step-length s (connects handle_id))

listen_at-nil :
    (pool : List ℕ) (s : State) (listener_id : ℕ) (bind : ℕ → Bound)
    → length pool ≡ 0
    → listen_at pool s listener_id bind ≡ (s, no_port)
unfolding listen_at
listen_at-nil [] s listener_id bind e = refl
listen_at-nil (port ∷ rest) s listener_id bind e = ground arith

-- No call gives a port back: each call of `listen` takes one for good, also one whose `bind` fails,
-- so that after as many calls as the pool has ports `listen` finds none.
pub ports_run_out :
    (cs : List Call) (s : State)
    → (length (run s cs).listen_port_pool ≡ length s.listen_port_pool - listen_calls cs)
      × (length s.listen_port_pool ≤ listen_calls cs
          → (listener_id : ℕ) (bind : ℕ → Bound)
          → listen (run s cs) listener_id bind ≡ (run s cs, no_port))
unfolding listen
ports_run_out cs s = (
  run-length cs s,
  λ le listener_id bind.
      listen_at-nil (run s cs).listen_port_pool (run s cs) listener_id bind
        (ground (arith, run-length cs s)),
)
