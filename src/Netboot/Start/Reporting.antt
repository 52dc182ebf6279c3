-- ===== src/Netboot/Start/Reporting.antt =====
-- What `start_job` of the netboot runner tells the coordinator.
use siplane.Base.{
  ℕ, String, ◌≡◌, refl, ◌⊎◌, inl, inr, true, false, Option, none, some, List, [], ◌∷◌, ◌++◌, map,
  append-nil, arith,
}
use siplane.Base.Flow.{value, returned, panicked, Flow, ◌>>=◌, ◌>>◌}
use siplane.Api.Coord.{StartJobMessage}
use siplane.Connector.Lifecycle.{Phase, requested, is_ready, has_failed}
use siplane.Connector.Reports.{seen_by, ReportsTo, ReportsTo-after, ReportsTo-bind}
use siplane.Nspawn.Config.{SocketAddr, Proxy}
use siplane.Netboot.Config.{
  EnvironmentConfig, Config, Job, World, Action, start_proxy, report, ssh_socket_addr,
}
use siplane.Netboot.Start.{
  start_job, check_idle, find_environment, open_socket, script, announce, start_body, settle,
  proxies_to, console_actions, has_console,
}

abbrev Any {ℓ} : {A : Type ℓ} → A → Type 0
Any a = Unit {0}

seen-proxies :
    (id : ℕ) (p : Phase) (ps : List Proxy) (t : List Action)
    → seen_by report id p (map start_proxy ps ++ t) ≡ seen_by report id p t
seen-proxies id p [] t = refl
seen-proxies id p (x ∷ ps) t = seen-proxies id p ps t

module _ (w : World) (cfg : Config) (msg : StartJobMessage) where
  abbrev id : ℕ
  id = msg.job_id

  -- A part before the first report on the way to a job.
  abbrev Quiet {ℓ} : {A : Type ℓ} → Flow Action A → Type 0
  Quiet = ReportsTo report id requested Any requested requested

  abbrev IsOwn : Job → Type 0
  IsOwn job = (job.job_id ≡ msg.job_id) × (job.ssh_keys ≡ msg.ssh_keys)

  abbrev Starts : Flow Action Job → Type 0
  Starts = ReportsTo report id requested IsOwn requested is_ready

  Quiet-then {ℓ} :
      {A : Type ℓ} (m : Flow Action A) (k : A → Flow Action Job)
      → Quiet m
      → ((a : A) → Starts (k a))
      → Starts (m >>= k)
  Quiet-then m k h g =
      ReportsTo-bind report id requested Any IsOwn requested requested is_ready m k h (λ a _. g a)

  check_idle-Quiet : (current : Option Job) → Quiet (check_idle w cfg msg current)
  unfolding check_idle
  check_idle-Quiet none = (λ u. refl, tt)
  check_idle-Quiet (some job) = ground arith

  find_environment-Quiet : Quiet (find_environment w cfg msg)
  unfolding find_environment
  find_environment-Quiet = ground arith

  open_socket-Quiet : (addr : SocketAddr) → Quiet (open_socket w cfg msg addr)
  unfolding open_socket
  open_socket-Quiet addr = ground arith

  script-Quiet : (path : Option String) → Quiet (script w cfg msg path)
  unfolding script
  script-Quiet none = (λ u. refl, tt)
  script-Quiet (some path) = ground arith

  announce-Starts :
      (env : EnvironmentConfig) (proxies : List Proxy) → Starts (announce w cfg msg env proxies)
  unfolding announce console_actions has_console
  announce-Starts env proxies = ground arith

  body-Starts : (current : Option Job) → Starts (start_body w cfg msg current)
  unfolding start_body
  body-Starts current = Quiet-then (check_idle w cfg msg current) _ (check_idle-Quiet current) λ _.
      Quiet-then (find_environment w cfg msg) _ find_environment-Quiet λ env.
        let proxies = proxies_to w cfg msg (ssh_socket_addr env) in
        let announced : Flow Action Job = announce w cfg msg env proxies in
        let started : Flow Action Job = script w cfg msg env.start_script >> announced in
        let scripts : Flow Action Job = script w cfg msg env.init_script >> started in
        Quiet-then (open_socket w cfg msg env.tcp_control_socket_addr) _
          (open_socket-Quiet env.tcp_control_socket_addr)
          λ _.
            ReportsTo-after report id requested IsOwn requested requested is_ready
              (map start_proxy proxies) scripts (seen-proxies id requested proxies)
              (Quiet-then (script w cfg msg env.init_script) (λ _. started)
                (script-Quiet env.init_script)
                λ _.
                  Quiet-then (script w cfg msg env.start_script) (λ _. announced)
                    (script-Quiet env.start_script) λ _. announce-Starts env proxies)

  settle-Starts :
      (current : Option Job) (m : Flow Action Job)
      → Starts m
      → let o = settle w cfg msg current m in
        ((seen_by report id requested o.trace ≡ some is_ready)
          × (o.panicked ≡ false)
          × ((job : Job) × (o.current ≡ some job) × (job.job_id ≡ msg.job_id)))
        ⊎ ((seen_by report id requested o.trace ≡ some has_failed)
            × (o.panicked ≡ false)
            × (o.current ≡ current))
        ⊎ ((seen_by report id requested o.trace ≡ some requested)
            × (o.panicked ≡ true)
            × (o.current ≡ current))
  unfolding settle
  settle-Starts current (t, value job) (h, (own, keys)) =
      inl (rw (append-nil t) at (h []), refl, (job, refl, own))
  settle-Starts current (t, returned) h = inr (inl (h, refl, refl))
  settle-Starts current (t, panicked) h = inr (inr (h, refl, refl))

  settle-own :
      (m : Flow Action Job) (job : Job)
      → Starts m
      → (settle w cfg msg none m).current ≡ some job
      → (job.job_id ≡ msg.job_id) × (job.ssh_keys ≡ msg.ssh_keys)
  unfolding settle
  settle-own (t, value own) job (h, (i, keys)) e = (ground arith, ground arith)
  settle-own (t, returned) job h e = absurd (ground arith)
  settle-own (t, panicked) job h e = absurd (ground arith)

  -- The job that a start leaves has the identifier and the keys of the message.
  pub start_job-own :
      (job : Job)
      → (start_job w cfg msg none).current ≡ some job
      → (job.job_id ≡ msg.job_id) × (job.ssh_keys ≡ msg.ssh_keys)
  unfolding start_job
  start_job-own job e = settle-own (start_body w cfg msg none) job (body-Starts none) e

  -- If the connector takes every report, and whatever sockets, scripts and the serial port do: the
  -- netboot runner reports on the job of its message alone and in an order that a coordinator may
  -- see. Either the last report is `Ready` and the job is the current one; or it is `Failed` and
  -- `current_job` is as before; or the call panicked before any report, and `current_job` is as
  -- before.
  pub netboot_start_reports :
      (current : Option Job)
      → let o = start_job w cfg msg current in
        ((seen_by report id requested o.trace ≡ some is_ready)
          × (o.panicked ≡ false)
          × ((job : Job) × (o.current ≡ some job) × (job.job_id ≡ msg.job_id)))
        ⊎ ((seen_by report id requested o.trace ≡ some has_failed)
            × (o.panicked ≡ false)
            × (o.current ≡ current))
        ⊎ ((seen_by report id requested o.trace ≡ some requested)
            × (o.panicked ≡ true)
            × (o.current ≡ current))
  unfolding start_job
  netboot_start_reports current =
      settle-Starts current (start_body w cfg msg current) (body-Starts current)
