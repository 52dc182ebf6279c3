-- ===== src/Rendezvous/Server/Stream/Kept.antt =====
-- The listeners of the server's state while the stream of `listen` and others call it.
use siplane.Base.{
  ℕ, ◌+◌, ◌<◌, ◌≡◌, inl, inr, some, List, [], ◌∷◌, arith, ltb, Bool-cases, lookup, lookup-insert,
}
use siplane.Rendezvous.Server.{
  State, Listener, Bound, bound, bind_error, Listen, handle, listen, listen_at, insert_listener,
  accepted, connect, Call, listens as others_listen, accepts as others_accept, connects, u64_mod,
}
use siplane.Rendezvous.Server as Server

-- The listener with this handle, which was given out before.
abbrev pub Known : ℕ → Listener → State → Type 0
Known h l s = (h < s.listen_handle_cnt) × (lookup h s.listeners ≡ some l)

-- Listening gives a new handle to a listener, and keeps the others.
insert_listener-keeps :
    (s : State) (listener_id port : ℕ) (b : Bound) (h : ℕ) (l : Listener)
    → Known h l s
    → Known h l (insert_listener s listener_id port b).0
unfolding insert_listener
insert_listener-keeps s listener_id port bind_error h l k = k
insert_listener-keeps s listener_id port (bound socket) h l (lt, e) =
    let new : Listener = record { listener_id = listener_id; port = port; socket = socket } in
    ground (arith, lookup-insert s.listen_handle_cnt h new s.listeners)

listen_at-keeps :
    (pool : List ℕ) (s : State) (listener_id : ℕ) (bind : ℕ → Bound) (h : ℕ) (l : Listener)
    → Known h l s
    → Known h l (listen_at pool s listener_id bind).0
unfolding listen_at
listen_at-keeps [] s listener_id bind h l k = k
listen_at-keeps (port ∷ rest) s listener_id bind h l k =
    insert_listener-keeps (record s { listen_port_pool = rest }) listener_id port (bind port) h l k

pub step-keeps :
    (s : State) (call : Call) (h : ℕ) (l : Listener) → Known h l s → Known h l (Server.step s call)
unfolding Server.step listen accepted connect
step-keeps s (others_listen listener_id bind) h l k =
    listen_at-keeps s.listen_port_pool s listener_id bind h l k
step-keeps s (others_accept stream) h l k = ground arith
step-keeps s (connects handle_id) h l k = ground arith

-- What `listen` has given out is known.
abbrev pub Given : State × Listen → Type 0
Given (t, handle h) = (l : Listener) × Known h l t
Given (t, _) = Unit

insert_listener-Given :
    (s : State) (listener_id port : ℕ) (b : Bound) → Given (insert_listener s listener_id port b)
unfolding insert_listener
insert_listener-Given s listener_id port bind_error = tt
insert_listener-Given s listener_id port (bound socket) =
    let new : Listener = record { listener_id = listener_id; port = port; socket = socket } in
    elim (Bool-cases (ltb (s.listen_handle_cnt + 1) u64_mod)) [
      | inl e ↦ rw e (
        new,
        (
          ground arith,
          ground (arith, lookup-insert s.listen_handle_cnt s.listen_handle_cnt new s.listeners),
        ),
      )
      | inr e ↦ rw e tt
    ]

listen_at-Given :
    (pool : List ℕ) (s : State) (listener_id : ℕ) (bind : ℕ → Bound)
    → Given (listen_at pool s listener_id bind)
unfolding listen_at
listen_at-Given [] s listener_id bind = tt
listen_at-Given (port ∷ rest) s listener_id bind =
    insert_listener-Given (record s { listen_port_pool = rest }) listener_id port (bind port)

pub listen-Given :
    (s : State) (listener_id : ℕ) (bind : ℕ → Bound) → Given (listen s listener_id bind)
unfolding listen
listen-Given s listener_id bind = listen_at-Given s.listen_port_pool s listener_id bind
