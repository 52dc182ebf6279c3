-- ===== src/Netboot/Stop/Reporting.antt =====
-- What `stop_job` of the netboot runner tells the coordinator, and what it leaves running.
use siplane.Base.{
  ℕ, ◌≡◌, refl, ap, ◌⊎◌, inl, inr, Bool, true, false, none, some, List, [], ◌∷◌, ◌++◌, append-nil,
  arith, if◌then◌else◌,
}
use siplane.Base.Flow.{value, returned, panicked, Flow, emit, after, ◌>>◌}
use siplane.Api.Coord.{StopJobMessage, stopping, finished}
use siplane.Connector.Lifecycle.{is_ready, is_stopping, has_finished, has_failed}
use siplane.Connector.Reports.{seen_by, ReportsTo, ReportsTo-after, ReportsTo-bind}
use siplane.Nspawn.Config.{Proxy}
use siplane.Netboot.Config.{
  Config, Job, World, Action, post, open_control_socket, start_proxy, run_script, open_serial_port,
  start_console_streamer, close_control_socket, stop_console_streamer, stop_proxy, report,
}
use siplane.Netboot.Stop.{
  Ending, unless_panic, stop_proxies, stop_console, tear_down, stopped, stop_job,
}

-- the proxies that are told to stop, in order
abbrev pub stopped_proxies : List Action → List Proxy
stopped_proxies [] = []
stopped_proxies (stop_proxy p ∷ t) = p ∷ stopped_proxies t
stopped_proxies (_ ∷ t) = stopped_proxies t

module _ (w : World) (cfg : Config) (x : Ending) (msg : StopJobMessage) where
  abbrev id : ℕ
  id = msg.job_id

  -- a part after `Stopping` without a report
  abbrev Quiet : Flow Action (Unit {0}) → Type 0
  Quiet = ReportsTo report id is_stopping (λ u. Unit {0}) is_stopping is_stopping

  stop_proxies-Quiet : (ps : List Proxy) → Quiet (stop_proxies w cfg x msg ps)
  unfolding stop_proxies unless_panic
  stop_proxies-Quiet [] = (λ u. refl, tt)
  stop_proxies-Quiet (p ∷ ps) = ground (arith, stop_proxies-Quiet ps)

  stop_console-Quiet :
      (b : Bool) (job_id : ℕ) (ps : List Proxy) → Quiet (stop_console w cfg x msg b job_id ps)
  unfolding stop_console unless_panic
  stop_console-Quiet false job_id ps = (λ u. refl, tt)
  stop_console-Quiet true job_id ps = ground (arith, stop_proxies-Quiet ps)

  abbrev Ends : Flow Action (Unit {0}) → Type 0
  Ends = ReportsTo report id is_stopping (λ u. Unit {0}) is_ready has_finished

  unless_panic-Quiet : (b : Bool) → Quiet (unless_panic w cfg x msg b)
  unfolding unless_panic
  unless_panic-Quiet true = (λ u. refl, tt)
  unless_panic-Quiet false = refl

  abbrev last : Flow Action (Unit {0})
  last = emit (post msg.job_id (finished none))

  Quiet-then :
      (m k : Flow Action (Unit {0}))
      → Quiet m
      → ReportsTo report id is_stopping (λ u. Unit {0}) is_stopping has_finished k
      → ReportsTo report id is_stopping (λ u. Unit {0}) is_stopping has_finished (m >> k)
  Quiet-then m k h g =
      ReportsTo-bind report id is_stopping (λ u. Unit {0}) (λ u. Unit {0}) is_stopping is_stopping
        has_finished m (λ _. k) h (λ _ _. g)

  tear_down-Ends : (job : Job) → Ends (tear_down w cfg x msg job)
  unfolding tear_down
  tear_down-Ends job =
      let console =
        stop_console w cfg x msg job.console_streamer job.job_id job.ssh_rendezvous_proxies in
      let rest : Flow Action (Unit {0}) = console >> last in
      let closes : Flow Action (Unit {0}) = unless_panic w cfg x msg x.socket_closes >> rest in
      ReportsTo-after report id is_stopping (λ u. Unit {0}) is_ready is_stopping has_finished
        (post msg.job_id (stopping none) ∷ [])
        (after (close_control_socket job.control_socket ∷ []) closes) (λ u. ground arith)
        (ReportsTo-after report id is_stopping (λ u. Unit {0}) is_stopping is_stopping has_finished
          (close_control_socket job.control_socket ∷ []) closes (λ u. refl)
          (Quiet-then (unless_panic w cfg x msg x.socket_closes) rest
            (unless_panic-Quiet x.socket_closes)
            (Quiet-then console last
              (stop_console-Quiet job.console_streamer job.job_id job.ssh_rendezvous_proxies)
              (λ u. ground arith, tt))))

  -- The proxies of a part that does not panic.
  abbrev Stops : List Proxy → Flow Action (Unit {0}) → Type 0
  Stops ps (t, value u) = stopped_proxies t ≡ ps
  Stops ps (t, returned) = ⊥
  Stops ps (t, panicked) = Unit {0}

  stop_proxies-Stops : (ps : List Proxy) → Stops ps (stop_proxies w cfg x msg ps)
  unfolding stop_proxies unless_panic
  stop_proxies-Stops [] = refl
  stop_proxies-Stops (p ∷ ps) = ground (arith, stop_proxies-Stops ps)

  stop_console-Stops :
      (b : Bool) (job_id : ℕ) (ps : List Proxy)
      → Stops (if b then ps else []) (stop_console w cfg x msg b job_id ps)
  unfolding stop_console unless_panic
  stop_console-Stops false job_id ps = refl
  stop_console-Stops true job_id ps = ground (arith, stop_proxies-Stops ps)

  stopped_proxies-append :
      (t u : List Action) → stopped_proxies (t ++ u) ≡ stopped_proxies t ++ stopped_proxies u
  stopped_proxies-append [] u = refl
  stopped_proxies-append (stop_proxy p ∷ t) u = ap (λ ps. p ∷ ps) (stopped_proxies-append t u)
  stopped_proxies-append (post j s ∷ t) u = stopped_proxies-append t u
  stopped_proxies-append (open_control_socket j a ∷ t) u = stopped_proxies-append t u
  stopped_proxies-append (start_proxy p ∷ t) u = stopped_proxies-append t u
  stopped_proxies-append (run_script a b ∷ t) u = stopped_proxies-append t u
  stopped_proxies-append (open_serial_port a b ∷ t) u = stopped_proxies-append t u
  stopped_proxies-append (start_console_streamer j ∷ t) u = stopped_proxies-append t u
  stopped_proxies-append (close_control_socket a ∷ t) u = stopped_proxies-append t u
  stopped_proxies-append (stop_console_streamer j ∷ t) u = stopped_proxies-append t u

  tear_down-Stops :
      (job : Job)
      → Stops
          (if job.console_streamer then job.ssh_rendezvous_proxies else [])
          (tear_down w cfg x msg job)
  unfolding tear_down unless_panic
  tear_down-Stops job =
      let console =
        stop_console w cfg x msg job.console_streamer job.job_id job.ssh_rendezvous_proxies in
      ground (
        arith,
        stop_console-Stops job.console_streamer job.job_id job.ssh_rendezvous_proxies,
        stopped_proxies-append console.0 (post msg.job_id (finished none) ∷ []),
        append-nil (stopped_proxies console.0),
      )

  stopped-Ends :
      (m : Flow Action (Unit {0}))
      → Ends m
      → let o = stopped w cfg x msg m in
        (o.current ≡ none)
        × (((seen_by report id is_ready o.trace ≡ some has_finished) × (o.panicked ≡ false))
            ⊎ ((seen_by report id is_ready o.trace ≡ some has_failed) × (o.panicked ≡ false))
            ⊎ ((seen_by report id is_ready o.trace ≡ some is_stopping) × (o.panicked ≡ true)))
  unfolding stopped
  stopped-Ends (t, value u) (h, _) = (refl, inl (rw (append-nil t) at (h []), refl))
  stopped-Ends (t, returned) h = (refl, inr (inl (h, refl)))
  stopped-Ends (t, panicked) h = (refl, inr (inr (h, refl)))

  stopped-Stops :
      (ps : List Proxy) (m : Flow Action (Unit {0}))
      → Stops ps m
      → (stopped w cfg x msg m).panicked ≡ false
      → (stopped_proxies (stopped w cfg x msg m).trace ≡ ps)
        × ((stopped w cfg x msg m).current ≡ none)
  unfolding stopped
  stopped-Stops ps (t, value u) h e = (h, refl)
  stopped-Stops ps (t, returned) h e = absurd h
  stopped-Stops ps (t, panicked) h e = ground arith

  module _ (job : Job) (own : job.job_id ≡ msg.job_id) where
    stop_own : stop_job w cfg x msg (some job) ≡ stopped w cfg x msg (tear_down w cfg x msg job)
    unfolding stop_job
    stop_own = ground arith

    -- If the connector takes every report: when the netboot runner stops the job that runs, it
    -- reports on it alone, from `Ready` on in an order that a coordinator may see, and is left
    -- without a job. The last report is `Finished`, unless the call panicked after `Stopping`.
    pub netboot_stop_reports :
        let o = stop_job w cfg x msg (some job) in
        (o.current ≡ none)
        × (((seen_by report id is_ready o.trace ≡ some has_finished) × (o.panicked ≡ false))
            ⊎ ((seen_by report id is_ready o.trace ≡ some has_failed) × (o.panicked ≡ false))
            ⊎ ((seen_by report id is_ready o.trace ≡ some is_stopping) × (o.panicked ≡ true)))
    netboot_stop_reports =
        rw stop_own (stopped-Ends (tear_down w cfg x msg job) (tear_down-Ends job))

    -- When the netboot runner has stopped a job without a panic, it has told all the proxies of the
    -- job to stop if the job has a console streamer, and none of them if it has not; the job is
    -- forgotten in either case.
    pub proxies_stop_with_console :
        (stop_job w cfg x msg (some job)).panicked ≡ false
        → (stopped_proxies (stop_job w cfg x msg (some job)).trace
            ≡ (if job.console_streamer then job.ssh_rendezvous_proxies else []))
          × ((stop_job w cfg x msg (some job)).current ≡ none)
    proxies_stop_with_console = rw stop_own (
        stopped-Stops (if job.console_streamer then job.ssh_rendezvous_proxies else [])
          (tear_down w cfg x msg job) (tear_down-Stops job))
