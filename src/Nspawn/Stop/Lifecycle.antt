-- ===== src/Nspawn/Stop/Lifecycle.antt =====
-- What `stop_job` reports and leaves behind, and that it comes to an end.
use siplane.Base.{
  ℕ, zero, suc, String, ◌≡◌, refl, subst, ◌≢◌, ◌⊎◌, inl, inr, Bool, true, false, Option, none, some,
  List, [], ◌∷◌, ◌++◌, append-nil, arith, Bool-cases, is_some,
}
use siplane.Base.Flow.{value, returned, panicked, Flow, emit, after, ◌>>◌}
use siplane.Api.Coord.{StopJobMessage, stopping, finished}
use siplane.Connector.Lifecycle.{is_ready, is_stopping, has_finished, has_failed}
use siplane.Nspawn.Config.{Config, Proxy, Job}
use siplane.Nspawn.World.{
  World, still_running, Action, post, close_control_socket, stop_console_streamer, stop_proxy,
}
use siplane.Nspawn.Reports.{seen, Any, Reports, Reports-after, Reports-bind}
use siplane.Nspawn.Start.{Outcome}
use siplane.Nspawn.Stop.{
  Ending, reap, unmount, tear_down, ask_to_exit, around, unless_stuck, stop_taken, stopped?,
  stop_proxies, stop_job, unless_panic,
}

module _ (w : World) (cfg : Config) (x : Ending) (msg : StopJobMessage) where
  abbrev id : ℕ
  id = msg.job_id

  abbrev Quiet : Option (Flow Action (Unit {0})) → Type 0
  Quiet none = Unit {0}
  Quiet (some m) = Reports id is_stopping Any is_stopping is_stopping m

  reap-Quiet : (fuel n pid : ℕ) → Quiet (reap w cfg x msg fuel n pid)
  unfolding reap
  reap-Quiet zero n pid = tt
  reap-Quiet (suc fuel) n pid = ground (arith, reap-Quiet fuel (suc n) pid)

  unless_stuck-Quiet :
      (r : Option (Flow Action (Unit {0}))) → Quiet r → Quiet (unless_stuck w cfg x msg r)
  unfolding unless_stuck
  unless_stuck-Quiet none h = tt
  unless_stuck-Quiet (some (t, value u)) h = elim (Bool-cases x.socket_returns) [
    | inl e ↦ rw e h
    | inr e ↦ rw e tt
  ]
  unless_stuck-Quiet (some (t, returned)) h = h
  unless_stuck-Quiet (some (t, panicked)) h = h

  -- A kill waits for the process, so the next poll finds it gone.
  abbrev pub KillWaits : Type 0
  KillWaits = (n : ℕ) → x.kill_succeeds n ≡ true → x.poll (suc n) ≢ still_running

  reap_returns :
      (fuel pid : ℕ) → KillWaits → is_some (reap w cfg x msg (suc (suc fuel)) 0 pid) ≡ true
  unfolding reap
  reap_returns fuel pid h = ground (arith, h 0)

  -- `stop_job` ends, whatever `current_job` is, if its two waits can end: a kill waits for the process,
  -- so that the next poll no longer finds it running, and `shutdown` of the control socket returns,
  -- whose task may not wait for the lock that `stop_job` holds. The loop that kills the process takes
  -- two rounds at most. The other calls that it awaits are taken to return.
  pub stop_job_returns :
      (fuel : ℕ) (current : Option Job)
      → KillWaits
      → x.socket_returns ≡ true
      → is_some (stop_job w cfg x msg (suc (suc fuel)) current) ≡ true
  unfolding stop_job
  stop_job_returns fuel none h g = refl
  stop_job_returns fuel (some job) h g = ground (arith, reap_returns fuel job.nspawn_proc h)

  unless_panic-Quiet : (b : Bool) → Quiet (some (unless_panic w cfg x msg b))
  unless_panic-Quiet b = ground arith

  unmount-Quiet : (m : Option String) → Quiet (some (unmount w cfg x msg m))
  unfolding unmount
  unmount-Quiet m = ground arith

  abbrev Ends : Flow Action (Unit {0}) → Type 0
  Ends = Reports id is_stopping Any is_stopping has_finished

  Quiet-then : (m k : Flow Action (Unit {0})) → Quiet (some m) → Ends k → Ends (m >> k)
  Quiet-then m k h e =
      Reports-bind id is_stopping Any Any is_stopping is_stopping has_finished m (λ _. k) h
        (λ _ _. e)

  silent_then :
      (t : List Action) (k : Flow Action (Unit {0}))
      → ((u : List Action) → seen id is_stopping (t ++ u) ≡ seen id is_stopping u)
      → Ends k
      → Ends (after t k)
  silent_then t k h e =
      Reports-after id is_stopping Any is_stopping is_stopping has_finished t k h e

  stop_proxies-Quiet : (ps : List Proxy) → Quiet (some (stop_proxies w cfg x msg ps))
  unfolding stop_proxies
  stop_proxies-Quiet [] = (λ u. refl, tt)
  stop_proxies-Quiet (p ∷ ps) =
      let rest = stop_proxies w cfg x msg ps in
      let shut = unless_panic w cfg x msg (x.proxy_shuts p) in
      Reports-after id is_stopping Any is_stopping is_stopping is_stopping (stop_proxy p ∷ [])
        (shut >> rest) (λ u. refl)
        (Reports-bind id is_stopping Any Any is_stopping is_stopping is_stopping shut (λ _. rest)
          (unless_panic-Quiet (x.proxy_shuts p)) (λ _ _. stop_proxies-Quiet ps))

  tear_down-Reports : (job : Job) → Ends (tear_down w cfg x msg job)
  unfolding tear_down
  tear_down-Reports job =
      let panics = unless_panic w cfg x msg in
      let proxies = stop_proxies w cfg x msg job.ssh_rendezvous_proxies in
      let last : Flow Action (Unit {0}) = emit (post id (finished none)) in
      let unmounted : Flow Action (Unit {0}) = unmount w cfg x msg job.root_fs_mountpoint >> last in
      let joined : Flow Action (Unit {0}) = panics x.streamer_joins >> (proxies >> unmounted) in
      let told : Flow Action (Unit {0}) = panics x.streamer_listens >> joined in
      let closed : Flow Action (Unit {0}) =
        panics x.socket_closes >> after (stop_console_streamer job.job_id ∷ []) told in
      silent_then (close_control_socket job.control_socket ∷ []) closed (λ u. refl)
        (Quiet-then (panics x.socket_closes) (after (stop_console_streamer job.job_id ∷ []) told)
          (unless_panic-Quiet x.socket_closes)
          (silent_then (stop_console_streamer job.job_id ∷ []) told (λ u. refl)
            (Quiet-then (panics x.streamer_listens) joined (unless_panic-Quiet x.streamer_listens) (
              Quiet-then (panics x.streamer_joins) (proxies >> unmounted)
                (unless_panic-Quiet x.streamer_joins)
                (Quiet-then proxies unmounted (stop_proxies-Quiet job.ssh_rendezvous_proxies) (
                  Quiet-then (unmount w cfg x msg job.root_fs_mountpoint) last
                    (unmount-Quiet job.root_fs_mountpoint) (λ u. ground arith, tt)))))))

  abbrev IfReturns : Option (Flow Action (Unit {0})) → Type 0
  IfReturns none = Unit {0}
  IfReturns (some m) = Reports id is_stopping Any is_ready has_finished m

  ask_to_exit-silent :
      (job : Job) (u : List Action)
      → seen id is_stopping (ask_to_exit w cfg x msg job ++ u) ≡ seen id is_stopping u
  ask_to_exit-silent job u = ground arith

  around-Reports :
      (job : Job) (r : Option (Flow Action (Unit {0})))
      → Quiet r
      → IfReturns (around w cfg x msg job r)
  unfolding around
  around-Reports job none h = tt
  around-Reports job (some reaped) h =
      let asked = ask_to_exit w cfg x msg job in
      let torn = tear_down w cfg x msg job in
      Reports-after id is_stopping Any is_ready is_stopping has_finished
        (post id (stopping none) ∷ []) (after asked (reaped >> torn)) (λ u. ground arith)
        (silent_then asked (reaped >> torn) (ask_to_exit-silent job)
          (Quiet-then reaped torn h (tear_down-Reports job)))

  taken-Reports : (fuel : ℕ) (job : Job) → IfReturns (stop_taken w cfg x msg fuel job)
  unfolding stop_taken
  taken-Reports fuel job =
      around-Reports job _ (unless_stuck-Quiet _ (reap-Quiet fuel 0 job.nspawn_proc))

  -- The outcomes of stopping the job that runs.
  abbrev StopsIt : Option Outcome → Type 0
  StopsIt none = Unit {0}
  StopsIt (some o) =
      (o.current ≡ none)
      × (((seen id is_ready o.trace ≡ some has_finished) × (o.panicked ≡ false))
          ⊎ ((seen id is_ready o.trace ≡ some has_failed) × (o.panicked ≡ false))
          ⊎ ((seen id is_ready o.trace ≡ some is_stopping) × (o.panicked ≡ true)))

  stopped-StopsIt :
      (r : Option (Flow Action (Unit {0}))) → IfReturns r → StopsIt (stopped? w cfg x msg r)
  unfolding stopped?
  stopped-StopsIt none h = tt
  stopped-StopsIt (some (t, value u)) (h, _) = (refl, inl (rw (append-nil t) at (h []), refl))
  stopped-StopsIt (some (t, returned)) h = (refl, inr (inl (h, refl)))
  stopped-StopsIt (some (t, panicked)) h = (refl, inr (inr (h, refl)))

  -- If the connector takes every report, stopping the job that runs reports on it alone, from
  -- `Ready` on in an order that a coordinator may see, and leaves no current job: whenever the call
  -- ends, the last report is `Finished`, or it is `Failed` and the call returned early, or the call
  -- panicked after `Stopping`.
  pub stop_job_reports :
      (fuel : ℕ) (job : Job) (o : Outcome)
      → job.job_id ≡ msg.job_id
      → stop_job w cfg x msg fuel (some job) ≡ some o
      → (o.current ≡ none)
        × (((seen id is_ready o.trace ≡ some has_finished) × (o.panicked ≡ false))
            ⊎ ((seen id is_ready o.trace ≡ some has_failed) × (o.panicked ≡ false))
            ⊎ ((seen id is_ready o.trace ≡ some is_stopping) × (o.panicked ≡ true)))
  unfolding stop_job
  stop_job_reports fuel job o own e =
      let r = stop_taken w cfg x msg fuel job in
      let e' : stopped? w cfg x msg r ≡ some o = ground arith in
      subst StopsIt e' (stopped-StopsIt r (taken-Reports fuel job))
