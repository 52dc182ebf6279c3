-- ===== src/Nspawn/Start/Lifecycle.antt =====
-- What `start_job` reports, and what it leaves in `current_job`.
use siplane.Base.{
  ℕ, String, ◌≡◌, refl, ◌⊎◌, inl, inr, true, false, Option, none, some, List, [], ◌∷◌, map,
  append-nil, arith, Bool-cases, Option-cases, Sum-cases, lookup,
}
use siplane.Base.Flow.{value, returned, panicked, Flow, after, ◌>>=◌}
use siplane.Base.FilePath.{starts_with, unrooted}
use siplane.Base.FilePath.Join.{join-starts_with, unrooted-is_relative}
use siplane.Api.Coord.{StartJobMessage, starting, allocating, booting}
use siplane.Connector.Lifecycle.{
  Phase, requested, allocating_root, is_booting, is_ready, has_failed,
}
use siplane.Nspawn.Config.{ZfsRootConfig, EnvironmentConfig, Config, Proxy, Job, ssh_socket_addr}
use siplane.Nspawn.World.{World, Action, post, start_proxy, fail}
use siplane.Nspawn.Reports.{seen, seen-proxies, Any, Reports, Reports-after, Reports-bind}
use siplane.Nspawn.Zfs.{allocate_zfs_root, or_else}
use siplane.Nspawn.Args.{run_args}
use siplane.Nspawn.Start.{
  start_job, check_idle, find_environment, allocate_root, open_socket, start_body, settle,
  control_socket_path, launch, proxies_to, root_of, root_or_fail, spawn_container, announce,
}

-- The configured path can never fail the assertion that it lies in the container.
pub control_socket_path_below_root :
    (w : World) (cfg : Config) (msg : StartJobMessage) (env : EnvironmentConfig) (at : String)
    → starts_with (control_socket_path w cfg msg env at) at ≡ true
control_socket_path_below_root w cfg msg env at =
    join-starts_with at (unrooted env.control_socket_path)
      (unrooted-is_relative env.control_socket_path)

module _ (w : World) (cfg : Config) (msg : StartJobMessage) where
  abbrev id : ℕ
  id = msg.job_id

  fail-Reports {ℓ} :
      {A : Type ℓ} (V : A → Type 0) (q : Phase) (text : String)
      → Reports id allocating_root V allocating_root q (fail id text)
        × Reports id allocating_root V requested q (fail id text)
        × Reports id allocating_root V is_booting q (fail id text)
  fail-Reports V q text = (ground arith, ground arith, ground arith)

  check_idle-Reports :
      (current : Option Job)
      → Reports id allocating_root Any requested requested (check_idle w cfg msg current)
  unfolding check_idle
  check_idle-Reports none = (λ u. refl, tt)
  check_idle-Reports (some job) = ground arith

  find_environment-Reports :
      Reports id allocating_root Any requested requested (find_environment w cfg msg)
  unfolding find_environment
  find_environment-Reports = elim (Option-cases (lookup msg.environment_id cfg.environments)) [
    | inl e ↦ rw e (ground arith)
    | inr (env, e) ↦ rw e (λ u. refl, tt)
  ]

  or_else-Reports {ℓ} :
      {A : Type ℓ} (p : Phase) (o : Option String) (m : Flow Action (String ⊎ A))
      → Reports id allocating_root Any p p m
      → Reports id allocating_root Any p p (or_else o m)
  or_else-Reports p none m h = h
  or_else-Reports p (some e) m h = (λ u. refl, tt)

  zfs-Reports :
      (zfs : ZfsRootConfig) (p : Phase)
      → Reports id allocating_root Any p p (allocate_zfs_root w id zfs)
  unfolding allocate_zfs_root
  zfs-Reports zfs p = ground arith

  root_of-Reports :
      (zfs : Option ZfsRootConfig)
      → Reports id allocating_root Any allocating_root allocating_root (root_of w cfg msg zfs)
  unfolding root_of
  root_of-Reports (some zfs) = zfs-Reports zfs allocating_root
  root_of-Reports none = (λ u. refl, tt)

  root_or_fail-Reports :
      (r : String ⊎ (String × String))
      → Reports id allocating_root Any allocating_root allocating_root (root_or_fail w cfg msg r)
  unfolding root_or_fail
  root_or_fail-Reports (inl e) = (fail-Reports {A = String × Option String} Any allocating_root e).0
  root_or_fail-Reports (inr (at, fs)) = (λ u. refl, tt)

  allocate_root-Reports :
      (env : EnvironmentConfig)
      → Reports id allocating_root Any allocating_root allocating_root (allocate_root w cfg msg env)
  unfolding allocate_root
  allocate_root-Reports env =
      Reports-bind id allocating_root Any Any allocating_root allocating_root allocating_root
        (root_of w cfg msg env.zfsroot) (root_or_fail w cfg msg) (root_of-Reports env.zfsroot)
        (λ r _. root_or_fail-Reports r)

  open_socket-Reports :
      (env : EnvironmentConfig) (at : String)
      → Reports id allocating_root Any allocating_root allocating_root
          (open_socket w cfg msg at (control_socket_path w cfg msg env at))
  unfolding open_socket
  open_socket-Reports env at =
      rw (control_socket_path_below_root w cfg msg env at)
        (elim (Bool-cases (w.control_socket_opens (control_socket_path w cfg msg env at))) [
          | inl e ↦ rw e (λ u. refl, tt)
          | inr e ↦ rw e refl
        ])

  spawn_container-Reports :
      (args : List String)
      → Reports id allocating_root Any is_booting is_booting (spawn_container w cfg msg args)
  unfolding spawn_container
  spawn_container-Reports args = elim (Sum-cases (w.spawned args)) [
    | inl (pid, e) ↦ rw e (λ u. refl, tt)
    | inr (text, e) ↦ rw e (ground arith)
  ]

  abbrev IsOwn : Job → Type 0
  IsOwn job = (job.job_id ≡ msg.job_id) × (job.ssh_keys ≡ msg.ssh_keys)

  announce-Reports :
      (env : EnvironmentConfig) (root : String × Option String) (path : String)
      (proxies : List Proxy) (pid : ℕ)
      → Reports id allocating_root IsOwn is_booting is_ready
          (announce w cfg msg env root path proxies pid)
  unfolding announce
  announce-Reports env (at, fs) path proxies pid = (λ u. ground arith, (refl, refl))

  launch-Reports :
      (env : EnvironmentConfig) (root : String × Option String)
      → Reports id allocating_root IsOwn allocating_root is_ready (launch w cfg msg env root)
  unfolding launch
  launch-Reports env (at, fs) =
      let proxies = proxies_to w cfg msg (ssh_socket_addr env) in
      let args = run_args w env at in
      let announced = λ (path : String). announce w cfg msg env (at, fs) path proxies in
      let spawned =
        λ (path : String). ◌>>=◌ {B = Job} (spawn_container w cfg msg args) (announced path) in
      Reports-bind id allocating_root Any IsOwn allocating_root allocating_root is_ready
        (open_socket w cfg msg at (control_socket_path w cfg msg env at)) _
        (open_socket-Reports env at)
        λ path _.
          Reports-after id allocating_root IsOwn allocating_root allocating_root is_ready
            (map start_proxy proxies) (after (post id (starting booting none) ∷ []) (spawned path))
            (seen-proxies id allocating_root proxies)
            (Reports-after id allocating_root IsOwn allocating_root is_booting is_ready
              (post id (starting booting none) ∷ []) (spawned path) (λ u. ground arith)
              (Reports-bind id allocating_root Any IsOwn is_booting is_booting is_ready
                (spawn_container w cfg msg args) (announced path) (spawn_container-Reports args)
                λ pid _. announce-Reports env (at, fs) path proxies pid))

  body-Reports :
      (current : Option Job)
      → Reports id allocating_root IsOwn requested is_ready (start_body w cfg msg current)
  unfolding start_body
  body-Reports current =
      Reports-bind id allocating_root Any IsOwn requested requested is_ready
        (check_idle w cfg msg current) _ (check_idle-Reports current)
        λ _ _.
          Reports-bind id allocating_root Any IsOwn requested requested is_ready
            (find_environment w cfg msg) _ find_environment-Reports
            λ env _.
              Reports-after id allocating_root IsOwn requested allocating_root is_ready
                (post id (starting allocating none) ∷ [])
                (◌>>=◌ {B = Job} (allocate_root w cfg msg env) (launch w cfg msg env))
                (λ u. ground arith)
                (Reports-bind id allocating_root Any IsOwn allocating_root allocating_root is_ready
                  (allocate_root w cfg msg env) (launch w cfg msg env) (allocate_root-Reports env)
                  λ root _. launch-Reports env root)

  settle-Reports :
      (current : Option Job) (m : Flow Action Job)
      → Reports id allocating_root IsOwn requested is_ready m
      → let o = settle w cfg msg current m in
        ((seen id requested o.trace ≡ some is_ready)
          × (o.panicked ≡ false)
          × ((job : Job) × (o.current ≡ some job) × (job.job_id ≡ msg.job_id)))
        ⊎ ((seen id requested o.trace ≡ some has_failed)
            × (o.panicked ≡ false)
            × (o.current ≡ current))
        ⊎ ((seen id requested o.trace ≡ some allocating_root)
            × (o.panicked ≡ true)
            × (o.current ≡ current))
  unfolding settle
  settle-Reports current (t, value job) (h, (own, keys)) =
      inl (rw (append-nil t) at (h []), refl, (job, refl, own))
  settle-Reports current (t, returned) h = inr (inl (h, refl, refl))
  settle-Reports current (t, panicked) h = inr (inr (h, refl, refl))

  settle-own :
      (m : Flow Action Job) (job : Job)
      → Reports id allocating_root IsOwn requested is_ready m
      → (settle w cfg msg none m).current ≡ some job
      → (job.job_id ≡ msg.job_id) × (job.ssh_keys ≡ msg.ssh_keys)
  unfolding settle
  settle-own (t, value own) job (h, (i, keys)) e = (ground arith, ground arith)
  settle-own (t, returned) job h e = absurd (ground arith)
  settle-own (t, panicked) job h e = absurd (ground arith)

  -- The job that a start leaves has the identifier and the keys of the message.
  pub start_job-own :
      (job : Job)
      → (start_job w cfg msg none).current ≡ some job
      → (job.job_id ≡ msg.job_id) × (job.ssh_keys ≡ msg.ssh_keys)
  unfolding start_job
  start_job-own job e = settle-own (start_body w cfg msg none) job (body-Reports none) e

  -- If the connector takes every report, and whatever commands, files and processes answer:
  -- `start_job` reports on the job of its message alone and in an order that a coordinator may see,
  -- and its reports and `current_job` agree. Either the last report is `Ready` and the job is the
  -- current one; or the last report is `Failed` and `current_job` is as before; or the call panicked
  -- after it had reported that it allocates the root, and `current_job` is as before.
  pub start_job_reports :
      (current : Option Job)
      → let o = start_job w cfg msg current in
        ((seen id requested o.trace ≡ some is_ready)
          × (o.panicked ≡ false)
          × ((job : Job) × (o.current ≡ some job) × (job.job_id ≡ msg.job_id)))
        ⊎ ((seen id requested o.trace ≡ some has_failed)
            × (o.panicked ≡ false)
            × (o.current ≡ current))
        ⊎ ((seen id requested o.trace ≡ some allocating_root)
            × (o.panicked ≡ true)
            × (o.current ≡ current))
  unfolding start_job
  start_job_reports current =
      settle-Reports current (start_body w cfg msg current) (body-Reports current)
