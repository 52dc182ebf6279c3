-- ===== src/Nspawn/Zfs.antt =====
-- `allocate_zfs_root` and `destroy_zfs_root`. A failure is the text of its `Err`.
use siplane.Base.{
  ℕ, String, ◌⊎◌, inl, inr, true, false, Option, none, some, List, [], ◌∷◌, ◌++◌, if◌then◌else◌,
  is_some, format,
}
use siplane.Base.Flow.{Flow, pure, emit, ◌>>◌}
use siplane.Nspawn.Config.{ZfsRootConfig}
use siplane.Nspawn.World.{World, Action, output, create_dir_all, Output, exited, io_error}

abbrev quota_args : Option String → List String
quota_args none = []
quota_args (some quota) = "-o" ∷ format ("quota=" ∷ quota ∷ []) ∷ []

abbrev source_args : Option String → List String
source_args none = []
source_args (some source_fs) = source_fs ∷ []

-- `zfs_fs`
unfoldable pub zfs_fs : World → ZfsRootConfig → ℕ → String
zfs_fs w cfg job_id = format (cfg.parent ∷ "/" ∷ w.show_uuid job_id ∷ [])

unfoldable pub mountpoint : World → ZfsRootConfig → ℕ → String
mountpoint w cfg job_id = format (cfg.mount_base ∷ "/" ∷ w.show_uuid job_id ∷ [])

-- `zfs_create_cmd`
unfoldable pub zfs_create_cmd : World → ZfsRootConfig → ℕ → List String
zfs_create_cmd w cfg job_id =
    (if is_some cfg.clone_from then "clone" else "create")
    ∷ "-o"
    ∷ "mountpoint=legacy"
    ∷ (quota_args cfg.quota ++ (source_args cfg.clone_from ++ zfs_fs w cfg job_id ∷ []))

-- The result of a command, with the text of its error.
abbrev pub outcome :
    Output → (String → String → String → String) → (String → String) → Option String
outcome (exited true code stdout stderr) on_status on_error = none
outcome (exited false code stdout stderr) on_status on_error = some (on_status code stdout stderr)
outcome (io_error e) on_status on_error = some (on_error e)

pub create_failure : World → List String → Option String
create_failure w cmd =
    outcome (w.run "zfs" cmd)
      (λ code stdout stderr. format (
        "Creating root filesystem through \"zfs "
        ∷ w.show_texts cmd
        ∷ "\" failed with exit-status "
        ∷ code
        ∷ ". Stdout: "
        ∷ stdout
        ∷ ", Stderr: "
        ∷ stderr
        ∷ []))
      (λ e.
        format
          ("Creating root filesystem through \"zfs " ∷ w.show_texts cmd ∷ "\" failed: " ∷ e ∷ []))

-- the arguments of `mount`
abbrev pub mount_cmd : String → String → List String
mount_cmd fs at = "-t" ∷ "zfs" ∷ fs ∷ at ∷ []

pub mount_failure : World → List String → Option String
mount_failure w cmd =
    outcome (w.run "mount" cmd)
      (λ code stdout stderr. format (
        "Mounting ZFS root filesystem failed with exit-status " ∷ code ∷ ". Stdout: " ∷ stdout
        ∷ ", Stderr: " ∷ stderr ∷ []))
      (λ e. format ("Mounting ZFS root filesystem failed: " ∷ e ∷ []))

pub dir_failure : World → String → Option String
dir_failure w at = elim (w.create_dir at) [
  | none ↦ none
  | some e ↦ some (format ("Failed to create root mountpoint " ∷ w.show_text at ∷ ": " ∷ e ∷ []))
]

-- `return Err(e)`
abbrev pub or_else {ℓ} :
    {A : Type ℓ} → Option String → Flow Action (String ⊎ A) → Flow Action (String ⊎ A)
or_else (some e) rest = pure (inl e)
or_else none rest = rest

-- The mount point and the file system, or the error.
unfoldable pub allocate_zfs_root :
    World → ℕ → ZfsRootConfig → Flow Action (String ⊎ (String × String))
unfolding zfs_fs mountpoint zfs_create_cmd create_failure dir_failure mount_failure
allocate_zfs_root w job_id cfg =
    let cmd = zfs_create_cmd w cfg job_id in
    let fs = zfs_fs w cfg job_id in
    let at = mountpoint w cfg job_id in
    do
      emit (output "zfs" cmd)
      or_else (create_failure w cmd) (do
        emit (create_dir_all at)
        or_else (dir_failure w at) (do
          emit (output "mount" (mount_cmd fs at))
          or_else (mount_failure w (mount_cmd fs at)) (pure (inr (at, fs)))))

destroy_failure : World → List String → Option String
destroy_failure w cmd =
    outcome (w.run "zfs" cmd)
      (λ code stdout stderr. format (
        "Destroying ZFS root filesystem failed with exit-status " ∷ code ∷ ". Stdout: " ∷ stdout
        ∷ ", Stderr: " ∷ stderr ∷ []))
      (λ e. format ("Destroying ZFS filesystem failed with error: " ∷ e ∷ []))

-- `none` is its `Ok(())`.
unfoldable pub destroy_zfs_root : World → String → Flow Action (Option String)
unfolding destroy_failure
destroy_zfs_root w fs =
    let cmd : List String = "destroy" ∷ "-v" ∷ fs ∷ [] in
    do emit (output "zfs" cmd); pure (destroy_failure w cmd)
