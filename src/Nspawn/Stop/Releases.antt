-- ===== src/Nspawn/Stop/Releases.antt =====
-- What `stop_job` gives back to the host: all that `start_job` has taken for the job.
use siplane.Base.{
  ℕ, zero, suc, String, ◌≡◌, refl, sym, subst, ◌⊎◌, inl, inr, Bool, true, false, Option, none, some,
  List, [], ◌∷◌, ◌++◌, map, append-nil, arith, Bool-cases,
}
use siplane.Base.Flow.{value, returned, panicked, Flow, emit, after, ◌>>◌}
use mathlib.Core.List.Perm
use mathlib.Core.List.{Perm, perm_middle}
use siplane.Api.Coord.{StartJobMessage, StopJobMessage, stopping, finished}
use siplane.Nspawn.Config.{Config, Proxy, Job}
use siplane.Nspawn.World.{
  World, Output, exited, io_error, Action, post, close_control_socket, stop_console_streamer,
}
use siplane.Nspawn.Resources.{
  Resource, mounted, socket, streamer, proxy, acquires, releases, all_of, all_of-append, mount_of,
  held_by, still_mounted, unmounted_by,
}
use siplane.Nspawn.Start.{Outcome, start_job}
use siplane.Nspawn.Start.Acquires.{start_job-held_by}
use siplane.Nspawn.Stop.{
  Ending, reap, unmount, tear_down, ask_to_exit, around, unless_stuck, stop_taken, stopped?,
  stop_proxies, stop_job, unless_panic,
}

Output-cases :
    (r : Output)
    → ((code : String) × (stdout : String) × (stderr : String) × (r
          ≡ exited true code stdout stderr))
      ⊎ ((code : String) × (stdout : String) × (stderr : String) × (r
            ≡ exited false code stdout stderr))
      ⊎ ((e : String) × (r ≡ io_error e))
Output-cases (exited true code stdout stderr) = inl (code, stdout, stderr, refl)
Output-cases (exited false code stdout stderr) = inr (inl (code, stdout, stderr, refl))
Output-cases (io_error e) = inr (inr (e, refl))

reorder :
    (m : Option String) (k s : Resource) (ps : List Resource)
    → Perm (mount_of m ++ (k ∷ (ps ++ s ∷ []))) (k ∷ s ∷ (ps ++ mount_of m))
reorder none k s ps = Perm.cons k (perm_middle ps [])
reorder (some at) k s ps = Perm.trans (Perm.swap k (mounted at) (ps ++ s ∷ [])) (
    Perm.cons k (
      Perm.trans (Perm.cons (mounted at) (perm_middle ps [])) (
        Perm.trans (Perm.swap s (mounted at) (ps ++ []))
          (Perm.cons s (Perm.symm (perm_middle ps []))))))

module _ (w : World) (cfg : Config) (x : Ending) (msg : StopJobMessage) where
  -- A part that does not panic gives back `r`.
  abbrev Gives : List Resource → Flow Action (Unit {0}) → Type 0
  Gives r (t, panicked) = Unit {0}
  Gives r (t, _) = all_of (releases w) t ≡ r

  Gives-after :
      (s r : List Resource) (t : List Action) (m : Flow Action (Unit {0}))
      → all_of (releases w) t ≡ s
      → Gives r m
      → Gives (s ++ r) (after t m)
  Gives-after s r t (u, value a) e h = rw (all_of-append (releases w) t u, e, h) refl
  Gives-after s r t (u, returned) e h = rw (all_of-append (releases w) t u, e, h) refl
  Gives-after s r t (u, panicked) e h = tt

  -- A part that gives nothing back and does not return early may stand in front.
  abbrev Silent : Flow Action (Unit {0}) → Type 0
  Silent (t, value a) = all_of (releases w) t ≡ []
  Silent (t, returned) = ⊥
  Silent (t, panicked) = Unit {0}

  Silent-then :
      (r : List Resource) (m k : Flow Action (Unit {0})) → Silent m → Gives r k → Gives r (m >> k)
  Silent-then r (t, value a) k h g = Gives-after [] r t k h g
  Silent-then r (t, returned) k h g = absurd h
  Silent-then r (t, panicked) k h g = tt

  unless_panic-Silent : (b : Bool) → Silent (unless_panic w cfg x msg b)
  unfolding all_of
  unless_panic-Silent true = refl
  unless_panic-Silent false = tt

  abbrev last : Flow Action (Unit {0})
  last = emit (post msg.job_id (finished none))

  unmount-Gives : (m : Option String) → Gives (unmounted_by w m) (unmount w cfg x msg m >> last)
  unfolding unmount all_of releases unmounted_by
  unmount-Gives m = ground arith

  given_back : Job → List Resource
  given_back job =
      socket job.control_socket
      ∷ streamer job.job_id
      ∷ (map proxy job.ssh_rendezvous_proxies ++ unmounted_by w job.root_fs_mountpoint)

  -- A part that gives back `r`, and does not return early.
  abbrev Hands : List Resource → Flow Action (Unit {0}) → Type 0
  Hands r (t, value a) = all_of (releases w) t ≡ r
  Hands r (t, returned) = ⊥
  Hands r (t, panicked) = Unit {0}

  Hands-then :
      (s r : List Resource) (m k : Flow Action (Unit {0}))
      → Hands s m
      → Gives r k
      → Gives (s ++ r) (m >> k)
  Hands-then s r (t, value a) k h g = Gives-after s r t k h g
  Hands-then s r (t, returned) k h g = absurd h
  Hands-then s r (t, panicked) k h g = tt

  stop_proxies-Hands : (ps : List Proxy) → Hands (map proxy ps) (stop_proxies w cfg x msg ps)
  unfolding stop_proxies all_of releases
  stop_proxies-Hands [] = refl
  stop_proxies-Hands (p ∷ ps) = ground (arith, stop_proxies-Hands ps)

  tear_down-Gives : (job : Job) → Gives (given_back job) (tear_down w cfg x msg job)
  unfolding tear_down all_of releases given_back
  tear_down-Gives job =
      let panics = unless_panic w cfg x msg in
      let mount = unmounted_by w job.root_fs_mountpoint in
      let proxies = map proxy job.ssh_rendezvous_proxies in
      let unmounted : Flow Action (Unit {0}) = unmount w cfg x msg job.root_fs_mountpoint >> last in
      let stopped : Flow Action (Unit {0}) =
        stop_proxies w cfg x msg job.ssh_rendezvous_proxies >> unmounted in
      let joined : Flow Action (Unit {0}) = panics x.streamer_joins >> stopped in
      let told : Flow Action (Unit {0}) = panics x.streamer_listens >> joined in
      let closed = after (stop_console_streamer job.job_id ∷ []) told in
      let stopped-Gives =
        Hands-then proxies mount (stop_proxies w cfg x msg job.ssh_rendezvous_proxies) unmounted
          (stop_proxies-Hands job.ssh_rendezvous_proxies) (unmount-Gives job.root_fs_mountpoint) in
      let told-Gives =
        Silent-then (proxies ++ mount) (panics x.streamer_listens) joined
          (unless_panic-Silent x.streamer_listens)
          (Silent-then (proxies ++ mount) (panics x.streamer_joins) stopped
            (unless_panic-Silent x.streamer_joins) stopped-Gives) in
      Gives-after (socket job.control_socket ∷ []) (streamer job.job_id ∷ (proxies ++ mount))
        (close_control_socket job.control_socket ∷ []) (panics x.socket_closes >> closed) refl
        (Silent-then (streamer job.job_id ∷ (proxies ++ mount)) (panics x.socket_closes) closed
          (unless_panic-Silent x.socket_closes)
          (Gives-after (streamer job.job_id ∷ []) (proxies ++ mount)
            (stop_console_streamer job.job_id ∷ []) told refl told-Gives))

  abbrev SilentIfReturns : Option (Flow Action (Unit {0})) → Type 0
  SilentIfReturns none = Unit
  SilentIfReturns (some m) = Silent m

  reap-Silent : (fuel n pid : ℕ) → SilentIfReturns (reap w cfg x msg fuel n pid)
  unfolding reap all_of releases
  reap-Silent zero n pid = tt
  reap-Silent (suc fuel) n pid = ground (arith, reap-Silent fuel (suc n) pid)

  unless_stuck-Silent :
      (r : Option (Flow Action (Unit {0})))
      → SilentIfReturns r
      → SilentIfReturns (unless_stuck w cfg x msg r)
  unfolding unless_stuck
  unless_stuck-Silent none h = tt
  unless_stuck-Silent (some (t, value u)) h = elim (Bool-cases x.socket_returns) [
    | inl e ↦ rw e h
    | inr e ↦ rw e tt
  ]
  unless_stuck-Silent (some (t, returned)) h = h
  unless_stuck-Silent (some (t, panicked)) h = h

  abbrev GivesIfReturns : List Resource → Option (Flow Action (Unit {0})) → Type 0
  GivesIfReturns r none = Unit
  GivesIfReturns r (some m) = Gives r m

  ask_to_exit-silent : (job : Job) → all_of (releases w) (ask_to_exit w cfg x msg job) ≡ []
  unfolding all_of releases
  ask_to_exit-silent job = ground arith

  around-Gives :
      (job : Job) (m : Option (Flow Action (Unit {0})))
      → SilentIfReturns m
      → GivesIfReturns (given_back job) (around w cfg x msg job m)
  unfolding around all_of releases
  around-Gives job none h = tt
  around-Gives job (some reaped) h =
      let torn = tear_down w cfg x msg job in
      Gives-after [] (given_back job) (post msg.job_id (stopping none) ∷ [])
        (after (ask_to_exit w cfg x msg job) (reaped >> torn)) refl
        (Gives-after [] (given_back job) (ask_to_exit w cfg x msg job) (reaped >> torn)
          (ask_to_exit-silent job)
          (Silent-then (given_back job) reaped torn h (tear_down-Gives job)))

  taken-Gives :
      (fuel : ℕ) (job : Job) → GivesIfReturns (given_back job) (stop_taken w cfg x msg fuel job)
  unfolding stop_taken
  taken-Gives fuel job =
      let reaped = reap w cfg x msg fuel 0 job.nspawn_proc in
      around-Gives job (unless_stuck w cfg x msg reaped)
        (unless_stuck-Silent reaped (reap-Silent fuel 0 job.nspawn_proc))

  stopped-Gives :
      (r : List Resource) (m : Option (Flow Action (Unit {0}))) (o : Outcome)
      → GivesIfReturns r m
      → stopped? w cfg x msg m ≡ some o
      → o.panicked ≡ false
      → all_of (releases w) o.trace ≡ r
  unfolding stopped?
  stopped-Gives r none o h e p = ground arith
  stopped-Gives r (some (t, value u)) o h e p = ground (arith, h)
  stopped-Gives r (some (t, returned)) o h e p = ground (arith, h)
  stopped-Gives r (some (t, panicked)) o h e p = ground arith

  stop_job-given_back :
      (fuel : ℕ) (job : Job) (o : Outcome)
      → job.job_id ≡ msg.job_id
      → stop_job w cfg x msg fuel (some job) ≡ some o
      → o.panicked ≡ false
      → all_of (releases w) o.trace ≡ given_back job
  unfolding stop_job
  stop_job-given_back fuel job o own e p =
      let r = stop_taken w cfg x msg fuel job in
      let e' : stopped? w cfg x msg r ≡ some o = ground arith in
      stopped-Gives (given_back job) r o (taken-Gives fuel job) e' p

  mount_of-split :
      (m : Option String) (xs : List Resource)
      → xs ++ mount_of m ≡ (xs ++ unmounted_by w m) ++ still_mounted w m
  unfolding unmounted_by still_mounted
  mount_of-split none xs = sym (append-nil (xs ++ []))
  mount_of-split (some at) xs = elim (Output-cases (w.run "umount" (at ∷ []))) [
    | inl (code, stdout, stderr, e) ↦ rw e (sym (append-nil (xs ++ mounted at ∷ [])))
    | inr (inl (code, stdout, stderr, e)) ↦ rw e (rw (append-nil xs) refl)
    | inr (inr (text, e)) ↦ rw e (rw (append-nil xs) refl)
  ]

  held-Perm :
      (job : Job) → Perm (held_by job) (given_back job ++ still_mounted w job.root_fs_mountpoint)
  unfolding held_by given_back
  held-Perm job =
      let k = socket job.control_socket in
      let s = streamer job.job_id in
      let ps = map proxy job.ssh_rendezvous_proxies in
      subst (λ xs. Perm (held_by job) (k ∷ s ∷ xs)) (mount_of-split job.root_fs_mountpoint ps)
        (reorder job.root_fs_mountpoint k s ps)

  -- Whenever `stop_job` does not panic, it gives back each thing once that `start_job` has taken for
  -- the job: the control socket, the console streamer, all proxies, and the mount if the command to
  -- unmount it succeeds. If that fails, just the file system of the job stays mounted. The world may
  -- answer differently by then.
  pub stop_releases_what_start_acquired :
      (w' : World) (start : StartJobMessage) (fuel : ℕ) (job : Job) (o : Outcome)
      → (start_job w' cfg start none).current ≡ some job
      → job.job_id ≡ msg.job_id
      → stop_job w cfg x msg fuel (some job) ≡ some o
      → o.panicked ≡ false
      → Perm
          (all_of acquires (start_job w' cfg start none).trace)
          (all_of (releases w) o.trace ++ still_mounted w job.root_fs_mountpoint)
  stop_releases_what_start_acquired w' start fuel job o began own e p =
      rw (start_job-held_by w' cfg start job began, stop_job-given_back fuel job o own e p)
        (held-Perm job)
