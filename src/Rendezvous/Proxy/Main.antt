-- ===== src/Rendezvous/Proxy/Main.antt =====
-- rendezvous-proxy/src/main.rs: the program around one proxy.
use siplane.Base.{
  ℕ, String, ◌≡◌, refl, Bool, true, Option, none, some, List, [], ◌∷◌, map, append-nil,
}
use siplane.Base.Flow.{value, Flow, pure, leave, panic, emit, emit_all, ◌>>◌}
use siplane.Nspawn.Config.{SocketAddr, Proxy}
use siplane.Rendezvous.Proxy.{ProxyState}
use siplane.Rendezvous.Proxy.Shutdown.{
  ListenerEnd, ends_well, Result, panicked as shutdown_panicked, shutdown, keys,
  shutdown_closes_connections,
}

pub record Args : Type 0 where
  pub client_id : ℕ
  pub server_base_url : String
  pub target : String
  pub auth_token : String
  pub sse_keepalive_timeout : ℕ
  pub sse_reconnect_wait : ℕ

pub data Action : Type 0 where
  start_proxy : Proxy → Action
  await_signal : Action
  stop_connection : ℕ → Action

-- What the program meets: the addresses of a name, where the resolution succeeds, and the proxy as it
-- is when the signal comes, with how its tasks end.
pub record World : Type 0 where
  pub to_socket_addrs : String → Option (List SocketAddr)
  pub state : ProxyState
  pub listener : ListenerEnd
  pub joins : ℕ → Bool

module _ (w : World) (args : Args) where
  first : Option (List SocketAddr) → Option SocketAddr
  first none = none
  first (some []) = none
  first (some (sa ∷ sas)) = some sa

  abbrev pub proxy_to : SocketAddr → Proxy
  proxy_to sa = record {
    client_id = args.client_id;
    server_base_url = args.server_base_url;
    target_addr = sa;
    auth_token = args.auth_token;
    sse_keepalive_timeout = args.sse_keepalive_timeout;
    sse_reconnect_wait = args.sse_reconnect_wait;
  }

  -- An error is printed.
  after_shutdown : Result → Flow Action (Unit {0})
  after_shutdown shutdown_panicked = panic
  after_shutdown _ = pure tt

  abbrev stops : List ℕ → List Action
  stops ks = map stop_connection ks

  serve : Option SocketAddr → Flow Action (Unit {0})
  unfolding after_shutdown
  serve none = leave
  serve (some sa) = do
    emit (start_proxy (proxy_to sa))
    emit await_signal
    emit_all (stops (shutdown w.listener w.joins w.state).told)
    after_shutdown (shutdown w.listener w.joins w.state).result

  pub main : Flow Action (Unit {0})
  unfolding first serve
  main = serve (first (w.to_socket_addrs args.target))

  -- Where its target has an address, the program proxies the first one, and if its tasks end well it
  -- stops every connection that is open at the end, and returns.
  main_closes_connections :
      (sa : SocketAddr) (sas : List SocketAddr)
      → w.to_socket_addrs args.target ≡ some (sa ∷ sas)
      → w.listener ≡ ends_well
      → ((k : ℕ) → w.joins k ≡ true)
      → main ≡ (
        start_proxy (proxy_to sa) ∷ await_signal ∷ (map stop_connection (keys w.state.connections)),
        value tt,
      )
  unfolding main first serve after_shutdown
  main_closes_connections sa sas e l j =
      let (told, works, fails) = shutdown_closes_connections w.listener w.joins w.state in
      let fine = works l j in
      rw (e, fine, (told fine).0, append-nil (map stop_connection (keys w.state.connections))) refl
