-- ===== src/Rendezvous/Server/Handles.antt =====
-- rendezvous-server/src/main.rs: the handles of the connections that wait, over any sequence of
-- calls.
use siplane.Base.{
  ℕ, ◌<◌, String, ◌≡◌, refl, Bool, false, not, ◌&&◌, ◌||◌, Option, none, some, List, [], ◌∷◌, arith,
  ◌==◌, if◌then◌else◌, is_some, lookup, lookup-insert, lookup-erase,
}
use siplane.Rendezvous.Server.{
  State, TcpStream, Config, Bound, insert_listener, listen_at, listen, accepted, connect,
  build_new_connection_resp, Call, listens, accepts, connects, step, run,
}

-- some call is a `connect` with this handle
unfoldable pub connected : ℕ → List Call → Bool
connected h [] = false
connected h (listens listener_id bind ∷ cs) = connected h cs
connected h (accepts stream ∷ cs) = connected h cs
connected h (connects handle_id ∷ cs) = (handle_id == h) || connected h cs

abbrev pub unless {ℓ} : {A : Type ℓ} → Bool → Option A → Option A
unless b o = if b then none else o

listen-streams :
    (pool : List ℕ) (s : State) (listener_id : ℕ) (bind : ℕ → Bound)
    → let t = (listen_at pool s listener_id bind).0 in
      (t.connecting_streams ≡ s.connecting_streams)
      × (t.connecting_streams_cnt ≡ s.connecting_streams_cnt)
unfolding listen_at insert_listener
listen-streams [] s listener_id bind = (refl, refl)
listen-streams (port ∷ rest) s listener_id bind = ground arith

pub step-lookup :
    (s : State) (c : Call) (h : ℕ)
    → h < s.connecting_streams_cnt
    → (lookup h (step s c).connecting_streams
        ≡ unless (connected h (c ∷ [])) (lookup h s.connecting_streams))
      × (h < (step s c).connecting_streams_cnt)
unfolding step listen accepted connect connected
step-lookup s (listens listener_id bind) h lt =
    ground (arith, listen-streams s.listen_port_pool s listener_id bind)
step-lookup s (accepts stream) h lt = ground (
  arith,
  lookup-insert s.connecting_streams_cnt h (record { token = ""; stream = stream })
      s.connecting_streams,
)
step-lookup s (connects handle_id) h lt =
    ground (arith, lookup-erase handle_id h s.connecting_streams)

run-lookup :
    (cs : List Call) (s : State) (h : ℕ)
    → h < s.connecting_streams_cnt
    → lookup h (run s cs).connecting_streams
      ≡ unless (connected h cs) (lookup h s.connecting_streams)
unfolding run connected
run-lookup [] s h lt = refl
run-lookup (listens listener_id bind ∷ cs) s h lt =
    let c = listens listener_id bind in
    ground (arith, run-lookup cs (step s c) h, step-lookup s c h lt)
run-lookup (accepts stream ∷ cs) s h lt =
    let c = accepts stream in ground (arith, run-lookup cs (step s c) h, step-lookup s c h lt)
run-lookup (connects handle_id ∷ cs) s h lt =
    let c = connects handle_id in ground (arith, run-lookup cs (step s c) h, step-lookup s c h lt)

after_accept :
    (s t : State) (stream : TcpStream) (h : ℕ) (cs : List Call)
    → accepted s stream ≡ some (t, h)
    → lookup h (run t cs).connecting_streams
      ≡ unless (connected h cs) (some (record { token = ""; stream = stream }))
unfolding accepted
after_accept s t stream h cs e = ground (
  arith,
  run-lookup cs t h,
  lookup-insert h h (record { token = ""; stream = stream }) s.connecting_streams,
)

-- A connection that the server has accepted goes to the first `connect` with its handle and to no
-- later one, whatever else the server is asked for in between.
pub stream_given_once :
    (s t : State) (stream : TcpStream) (h : ℕ) (cs : List Call)
    → accepted s stream ≡ some (t, h)
    → (connect (run t cs) h).1 ≡ (if connected h cs then none else some stream)
unfolding connect
stream_given_once s t stream h cs e = ground (arith, after_accept s t stream h cs e)

-- The task of `listen` reads the entry of a connection back after it has given the lock away. It can
-- announce the connection exactly when no client has called `connect` with the new handle in between
-- and the socket tells its own and its peer's address; else one of its `expect`s fires.
pub announcement_panics :
    (show : ℕ → String) (cfg : Config) (s t : State) (stream : TcpStream) (h : ℕ) (cs : List Call)
    (named : Bool)
    → accepted s stream ≡ some (t, h)
    → is_some (build_new_connection_resp show cfg (run t cs) named h)
      ≡ (named && not (connected h cs))
unfolding build_new_connection_resp
announcement_panics show cfg s t stream h cs named e =
    ground (arith, after_accept s t stream h cs e)
