-- ===== src/Nspawn/Start/Acquires.antt =====
-- What `start_job` has taken from the host once it has a job.
use siplane.Base.{
  ℕ, String, ◌≡◌, refl, ◌⊎◌, inl, inr, Option, none, some, List, [], ◌∷◌, ◌++◌, map, arith,
}
use siplane.Base.Flow.{value, returned, panicked, Flow, after, ◌>>=◌}
use siplane.Api.Coord.{StartJobMessage, starting, booting, allocating}
use siplane.Nspawn.Config.{ZfsRootConfig, EnvironmentConfig, Config, Proxy, Job, ssh_socket_addr}
use siplane.Nspawn.World.{World, Action, post, start_proxy}
use siplane.Nspawn.Zfs.{allocate_zfs_root}
use siplane.Nspawn.Args.{run_args}
use siplane.Nspawn.Resources.{
  Resource, mounted, socket, proxy, acquires, all_of, all_of-proxies, held_by, Takes, Takes-after,
  Takes-bind,
}
use siplane.Nspawn.Start.{
  start_job, check_idle, find_environment, allocate_root, open_socket, start_body, settle,
  control_socket_path, launch, proxies_to, root_of, root_or_fail, spawn_container, announce,
  environment_or_fail, spawned_or_fail,
}

module _ (w : World) (cfg : Config) (msg : StartJobMessage) where
  abbrev Nothing {ℓ} : {A : Type ℓ} → A → List Resource → Type 0
  Nothing a r = r ≡ []

  abbrev Root : String × Option String → List Resource → Type 0
  Root root r = r ≡ mounted root.0 ∷ []

  abbrev Mounted : String ⊎ (String × String) → List Resource → Type 0
  Mounted (inl e) r = Unit
  Mounted (inr (at, fs)) r = r ≡ mounted at ∷ []

  check_idle-Takes : (current : Option Job) → Takes Nothing (check_idle w cfg msg current)
  unfolding check_idle all_of
  check_idle-Takes none = refl
  check_idle-Takes (some job) = tt

  find_environment-Takes : Takes Nothing (find_environment w cfg msg)
  unfolding find_environment environment_or_fail all_of
  find_environment-Takes = ground arith

  zfs-Takes : (zfs : ZfsRootConfig) → Takes Mounted (allocate_zfs_root w msg.job_id zfs)
  unfolding allocate_zfs_root all_of acquires
  zfs-Takes zfs = ground arith

  root_of-Takes : (zfs : Option ZfsRootConfig) → Takes Mounted (root_of w cfg msg zfs)
  unfolding root_of
  root_of-Takes none = tt
  root_of-Takes (some zfs) = zfs-Takes zfs

  allocate_root-Takes : (env : EnvironmentConfig) → Takes Root (allocate_root w cfg msg env)
  unfolding allocate_root root_or_fail all_of
  allocate_root-Takes env =
      Takes-bind Mounted Root (root_of w cfg msg env.zfsroot) (root_or_fail w cfg msg)
        (root_of-Takes env.zfsroot) (elim [ inl e ↦ λ r h. tt | inr (at, fs) ↦ λ r h. rw (h) refl ])

  Socket : String → List Resource → Type 0
  Socket path r = r ≡ socket path ∷ []

  open_socket-Takes : (at path : String) → Takes Socket (open_socket w cfg msg at path)
  unfolding open_socket all_of acquires Socket
  open_socket-Takes at path = ground arith

  spawn_container-Takes : (args : List String) → Takes Nothing (spawn_container w cfg msg args)
  unfolding spawn_container spawned_or_fail all_of acquires
  spawn_container-Takes args = ground arith

  -- From `start` on, with what has been taken before.
  abbrev Completes : List Resource → Job → List Resource → Type 0
  Completes before job r = before ++ r ≡ held_by job

  announce-Takes :
      (env : EnvironmentConfig) (root : String × Option String) (path : String)
      (proxies : List Proxy) (pid : ℕ)
      → Takes
          (Completes (mounted root.0 ∷ socket path ∷ map proxy proxies))
          (announce w cfg msg env root path proxies pid)
  unfolding announce all_of acquires held_by
  announce-Takes env (at, fs) path proxies pid = refl

  spawned-Takes :
      (env : EnvironmentConfig) (root : String × Option String) (path : String)
      (proxies : List Proxy) (args : List String)
      → Takes (Completes (mounted root.0 ∷ socket path ∷ map proxy proxies)) (
          ◌>>=◌ {B = Job}
            (spawn_container w cfg msg args)
            (announce w cfg msg env root path proxies))
  spawned-Takes env root path proxies args =
      Takes-bind Nothing (Completes (mounted root.0 ∷ socket path ∷ map proxy proxies))
        (spawn_container w cfg msg args) (announce w cfg msg env root path proxies)
        (spawn_container-Takes args) (λ pid r e. rw (e) (announce-Takes env root path proxies pid))

  started-Takes :
      (env : EnvironmentConfig) (root : String × Option String) (path : String)
      (proxies : List Proxy) (args : List String)
      → Takes (Completes (mounted root.0 ∷ socket path ∷ [])) (
          after (map start_proxy proxies) (
            after (post msg.job_id (starting booting none) ∷ []) (
              ◌>>=◌ {B = Job}
                (spawn_container w cfg msg args)
                (announce w cfg msg env root path proxies))))
  unfolding all_of acquires
  started-Takes env root path proxies args =
      let spawned =
        ◌>>=◌ {B = Job} (spawn_container w cfg msg args)
          (announce w cfg msg env root path proxies) in
      Takes-after (Completes (mounted root.0 ∷ socket path ∷ [])) (map start_proxy proxies)
        (after (post msg.job_id (starting booting none) ∷ []) spawned)
        (rw ((all_of-proxies w proxies).0) (
          Takes-after
            (λ job r. Completes (mounted root.0 ∷ socket path ∷ []) job (map proxy proxies ++ r))
            (post msg.job_id (starting booting none) ∷ []) spawned
            (spawned-Takes env root path proxies args)))

  launch-Takes :
      (env : EnvironmentConfig) (root : String × Option String)
      → Takes (Completes (mounted root.0 ∷ [])) (launch w cfg msg env root)
  unfolding launch Socket
  launch-Takes env (at, fs) =
      let proxies = proxies_to w cfg msg (ssh_socket_addr env) in
      Takes-bind Socket (Completes (mounted at ∷ []))
        (open_socket w cfg msg at (control_socket_path w cfg msg env at)) _
        (open_socket-Takes at (control_socket_path w cfg msg env at))
        λ path r h. rw (h) (started-Takes env (at, fs) path proxies (run_args w env at))

  body-Takes : (current : Option Job) → Takes (Completes []) (start_body w cfg msg current)
  unfolding start_body all_of acquires
  body-Takes current =
      Takes-bind Nothing (Completes []) (check_idle w cfg msg current) _ (check_idle-Takes current)
        λ u r h. rw (h) (
          Takes-bind Nothing (Completes []) (find_environment w cfg msg) _ find_environment-Takes
            λ env r' h'. rw (h') (
              Takes-after (Completes []) (post msg.job_id (starting allocating none) ∷ [])
                (◌>>=◌ {B = Job} (allocate_root w cfg msg env) (launch w cfg msg env))
                (Takes-bind Root (Completes []) (allocate_root w cfg msg env) (launch w cfg msg env)
                  (allocate_root-Takes env) λ root r'' h''. rw (h'') (launch-Takes env root))))

  settle-Takes :
      (current : Option Job) (m : Flow Action Job) (job : Job)
      → Takes (Completes []) m
      → (settle w cfg msg none m).current ≡ some job
      → all_of acquires (settle w cfg msg none m).trace ≡ held_by job
  unfolding settle
  settle-Takes current (t, value j) job h e = ground (arith, h)
  settle-Takes current (t, returned) job h e = ground arith
  settle-Takes current (t, panicked) job h e = ground arith

  -- When `start_job` begins without a job and ends with one, it has taken just what the job holds.
  pub start_job-held_by :
      (job : Job)
      → (start_job w cfg msg none).current ≡ some job
      → all_of acquires (start_job w cfg msg none).trace ≡ held_by job
  unfolding start_job
  start_job-held_by job = settle-Takes none (start_body w cfg msg none) job (body-Takes none)
