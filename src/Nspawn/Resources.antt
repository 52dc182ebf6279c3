-- ===== src/Nspawn/Resources.antt =====
-- What the actions of a handler take from the host and give back: the mounted root file system, the
-- control socket, the console streamer and the rendezvous proxies. What Rust drops is not among them.
use siplane.Base.{
  ℕ, String, ◌≡◌, refl, sym, ap, Bool, true, false, Option, none, some, List, [], ◌∷◌, ◌++◌, map,
  append_assoc, if◌then◌else◌,
}
use siplane.Base.Flow.{value, returned, panicked, Flow, after, ◌>>=◌}
use text.Mathlib.Text.{◌==◌ as str_eq}
use siplane.Nspawn.Config.{Proxy, Job}
use siplane.Nspawn.World.{
  World, Output, exited, Action, output, open_control_socket, start_proxy, start_console_streamer,
  close_control_socket, stop_console_streamer, stop_proxy,
}

pub data Resource : Type 0 where
  mounted : (mountpoint : String) → Resource
  socket : (path : String) → Resource
  streamer : (job_id : ℕ) → Resource
  proxy : Proxy → Resource

-- the mount point in the arguments of `mount -t zfs fs mountpoint`
abbrev mount_arg : List String → List Resource
mount_arg (t ∷ zfs ∷ fs ∷ at ∷ []) = mounted at ∷ []
mount_arg _ = []

abbrev succeeds : Output → Bool
succeeds (exited true code stdout stderr) = true
succeeds _ = false

-- what a successful `umount mountpoint` gives back
abbrev umount_arg : World → List String → List Resource
umount_arg w (at ∷ []) = if succeeds (w.run "umount" (at ∷ [])) then mounted at ∷ [] else []
umount_arg w _ = []

unfoldable pub acquires : Action → List Resource
acquires (output program args) = if str_eq program "mount" then mount_arg args else []
acquires (open_control_socket job_id path) = socket path ∷ []
acquires (start_proxy p) = proxy p ∷ []
acquires (start_console_streamer job_id) = streamer job_id ∷ []
acquires _ = []

unfoldable pub releases : World → Action → List Resource
releases w (output program args) = if str_eq program "umount" then umount_arg w args else []
releases w (close_control_socket path) = socket path ∷ []
releases w (stop_proxy p) = proxy p ∷ []
releases w (stop_console_streamer job_id) = streamer job_id ∷ []
releases w _ = []

unfoldable pub all_of : (Action → List Resource) → List Action → List Resource
all_of f [] = []
all_of f (a ∷ t) = f a ++ all_of f t

pub all_of-append :
    (f : Action → List Resource) (t u : List Action) → all_of f (t ++ u) ≡ all_of f t ++ all_of f u
unfolding all_of
all_of-append f [] u = refl
all_of-append f (a ∷ t) u = rw (all_of-append f t u) (sym (append_assoc (f a) _ _))

pub all_of-proxies :
    (w : World) (ps : List Proxy)
    → (all_of acquires (map start_proxy ps) ≡ map proxy ps)
      × (all_of (releases w) (map stop_proxy ps) ≡ map proxy ps)
unfolding all_of acquires releases
all_of-proxies w [] = (refl, refl)
all_of-proxies w (p ∷ ps) =
    let (a, r) = all_of-proxies w ps in (ap (λ t. proxy p ∷ t) a, ap (λ t. proxy p ∷ t) r)

abbrev pub mount_of : Option String → List Resource
mount_of none = []
mount_of (some at) = mounted at ∷ []

-- the file system that a job keeps mounted when `umount` fails
unfoldable pub still_mounted : World → Option String → List Resource
still_mounted w none = []
still_mounted w (some at) = if succeeds (w.run "umount" (at ∷ [])) then [] else mounted at ∷ []

-- what is unmounted
unfoldable pub unmounted_by : World → Option String → List Resource
unmounted_by w none = []
unmounted_by w (some at) = if succeeds (w.run "umount" (at ∷ [])) then mounted at ∷ [] else []

-- What belongs to a job, in the order in which `start_job` takes it.
unfoldable pub held_by : Job → List Resource
held_by job =
    mount_of job.root_fs_mountpoint
    ++ (socket job.control_socket
        ∷ (map proxy job.ssh_rendezvous_proxies ++ streamer job.job_id ∷ []))

-- A part that ends with a value has taken what `P` says.
abbrev pub Takes {ℓ} : {A : Type ℓ} → (A → List Resource → Type 0) → Flow Action A → Type 0
Takes P (t, value a) = P a (all_of acquires t)
Takes P (t, _) = Unit {0}

pub Takes-after {ℓ} :
    {A : Type ℓ} (P : A → List Resource → Type 0) (t : List Action) (m : Flow Action A)
    → Takes (λ a r. P a (all_of acquires t ++ r)) m
    → Takes P (after t m)
Takes-after P t (u, value a) h = rw (all_of-append acquires t u) h
Takes-after P t (u, returned) h = tt
Takes-after P t (u, panicked) h = tt

pub Takes-bind {ℓ κ} :
    {A : Type ℓ} {B : Type κ} (P : A → List Resource → Type 0) (Q : B → List Resource → Type 0)
    (m : Flow Action A) (f : A → Flow Action B)
    → Takes P m
    → ((a : A) (r : List Resource) → P a r → Takes (λ b u. Q b (r ++ u)) (f a))
    → Takes Q (m >>= f)
Takes-bind P Q (t, value a) f h k = Takes-after Q t (f a) (k a (all_of acquires t) h)
Takes-bind P Q (t, returned) f h k = tt
Takes-bind P Q (t, panicked) f h k = tt
