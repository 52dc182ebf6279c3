-- ===== src/Rendezvous/Proxy/Shutdown.antt =====
-- rendezvous-proxy/src/lib.rs: `shutdown`, and `public_addr`.
use siplane.Base.{
  ℕ, ◌<◌, String, ◌≡◌, refl, sym, ap, ◌∙◌, ◌≢◌, inl, inr, Bool, true, Option, none, some, List, [],
  ◌∷◌, ◌++◌, append-nil, append_assoc, arith, leb, if◌then◌else◌, Bool-cases, All, Dict,
}
use siplane.Rendezvous.Server.{NewConnection}
use siplane.Rendezvous.Proxy.{ProxyState}

-- How the listener is when `shutdown` comes: its task has quit, or it takes the command and then
-- ends without an error, with one, or with a panic.
pub data ListenerEnd : Type 0 where
  has_quit ends_well ends_badly ends_panicking : ListenerEnd

pub data Result : Type 0 where
  ok error panicked : Result

-- what is left of the proxy, and the connections whose tasks were told to shut down, in order
pub record Shut : Type 0 where
  pub proxy : ProxyState
  pub told : List ℕ
  pub result : Result

-- The loop over `connections.drain()`; `joins` says whether a task can be joined, and a panic of the
-- task panics here. The drain has emptied the map by then in either case.
drain : (ℕ → Bool) → ProxyState → Dict NewConnection → List ℕ → Shut
drain joins s [] told = record { proxy = s; told = told; result = ok }
drain joins s ((k, nc) ∷ d) told =
    let rest = drain joins s d (told ++ k ∷ []) in
    if joins k then rest else record { proxy = s; told = told ++ k ∷ []; result = panicked }

pub shutdown : ListenerEnd → (ℕ → Bool) → ProxyState → Shut
unfolding drain
shutdown has_quit joins s = record { proxy = s; told = []; result = panicked }
shutdown ends_panicking joins s = record { proxy = s; told = []; result = panicked }
shutdown ends_badly joins s = record { proxy = s; told = []; result = error }
shutdown ends_well joins s = drain joins (record s { connections = [] }) s.connections []

-- `public_addr` with what its rounds find: the address, and the time since its start. `none` while
-- it waits for the next round.
pub public_addr : ℕ → List (Option (String × ℕ) × ℕ) → Option (Option (String × ℕ))
public_addr timeout [] = none
public_addr timeout ((some a, time) ∷ rounds) = some (some a)
public_addr timeout ((none, time) ∷ rounds) =
    let rest = public_addr timeout rounds in if leb timeout time then some none else rest

abbrev pub keys : Dict NewConnection → List ℕ
keys [] = []
keys ((k, nc) ∷ d) = k ∷ keys d

drain_lem :
    (joins : ℕ → Bool) (s : ProxyState) (d : Dict NewConnection) (told : List ℕ)
    → ((drain joins s d told).proxy ≡ s)
      × ((drain joins s d told).result ≡ ok → (drain joins s d told).told ≡ told ++ keys d)
      × (((k : ℕ) → joins k ≡ true) → (drain joins s d told).result ≡ ok)
unfolding drain
drain_lem joins s [] told = (refl, λ e. sym (append-nil told), λ h. refl)
drain_lem joins s ((k, nc) ∷ d) told =
    let (a, b, c) = drain_lem joins s d (told ++ k ∷ []) in
    elim (Bool-cases (joins k)) [
      | inl e ↦ rw (e) (a, λ q. b q ∙ append_assoc told (k ∷ []) (keys d), c)
      | inr e ↦ rw (e) (refl, λ q. ground arith, λ h. ground (arith, h k))
    ]

-- When `shutdown` succeeds, every connection has been told to shut down, each once, and none is
-- left; and it does succeed if the listener ends well and no connection's task panics. With a
-- listener that ends in any other way no connection is told and all stay in the map.
pub shutdown_closes_connections :
    (listener : ListenerEnd) (joins : ℕ → Bool) (s : ProxyState)
    → let o = shutdown listener joins s in
      (o.result ≡ ok → (o.told ≡ keys s.connections) × (o.proxy.connections ≡ []))
      × (listener ≡ ends_well → ((k : ℕ) → joins k ≡ true) → o.result ≡ ok)
      × (listener ≢ ends_well → (o.told ≡ []) × (o.proxy ≡ s) × (o.result ≢ ok))
unfolding shutdown
shutdown_closes_connections has_quit joins s = ground arith
shutdown_closes_connections ends_panicking joins s = ground arith
shutdown_closes_connections ends_badly joins s = ground arith
shutdown_closes_connections ends_well joins s =
    let (a, b, c) = drain_lem joins (record s { connections = [] }) s.connections [] in
    (λ q. (b q, ap (λ p. p.connections) a), λ e h. c h, λ n. absurd (n refl))

-- A round that neither finds an address nor comes after the timeout.
abbrev pub Waits : ℕ → Option (String × ℕ) × ℕ → Type 0
Waits timeout (o, time) = (o ≡ none) × (time < timeout)

abbrev pub answer : Option (String × ℕ) × ℕ → Option (String × ℕ)
answer (o, time) = o

-- The first round of `public_addr` that finds an address, or comes after the timeout, gives its
-- result: the address that it finds, or none. An address wins over the timeout.
public_addr_answers :
    (timeout : ℕ) (early later : List (Option (String × ℕ) × ℕ)) (r : Option (String × ℕ) × ℕ)
    → All (Waits timeout) early
    → ¬ Waits timeout r
    → public_addr timeout (early ++ r ∷ later) ≡ some (answer r)
unfolding public_addr
public_addr_answers timeout [] later (some a, time) h n = refl
public_addr_answers timeout [] later (none, time) h n = ground arith
public_addr_answers timeout ((some a, time) ∷ early) later r h n = ground arith
public_addr_answers timeout ((none, time) ∷ early) later r (w, h) n =
    ground (arith, public_addr_answers timeout early later r h n)
