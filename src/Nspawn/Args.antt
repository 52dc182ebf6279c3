-- ===== src/Nspawn/Args.antt =====
-- The arguments of `systemd-run` in `start_job`.
use siplane.Base.{
  String, Bool, true, false, ◌||◌, Option, none, some, List, [], ◌∷◌, ◌++◌, map, if◌then◌else◌,
  format,
}
use siplane.Nspawn.Config.{
  MountConfig, AddMount, no_mount, read_write, read_only, DeviceConfig, VethConfig,
  EnvironmentConfig,
}
use siplane.Nspawn.World.{World}

-- Some permission is asked for.
abbrev pub has_permission : DeviceConfig → Bool
has_permission d = d.read || (d.write || d.create)

resolved : Bool → Option String → String → String
resolved true (some canon) node = canon
resolved true none node = node
resolved false c node = node

-- `device_node` in the loop
unfoldable pub device_node : World → DeviceConfig → String
unfolding resolved
device_node w d = resolved d.resolve_symlink (w.canonicalize d.device_node) d.device_node

abbrev added_mount : AddMount → String → List MountConfig
added_mount no_mount node = []
added_mount read_only node = record { src = node; dst = node; readonly = true } ∷ []
added_mount read_write node = record { src = node; dst = node; readonly = false } ∷ []

abbrev flag : Bool → String → String
flag true s = s
flag false s = ""

unfoldable pub device_allow : World → DeviceConfig → String
unfolding device_node
device_allow w d = format (
    "--property=DeviceAllow="
    ∷ device_node w d
    ∷ " "
    ∷ flag d.read "r"
    ∷ flag d.write "w"
    ∷ flag d.create "m"
    ∷ [])

-- The loop over the devices: what it pushes to `run_args` and to `device_mounts`.
unfoldable pub add_devices : World → List DeviceConfig → List String × List MountConfig
unfolding device_allow
add_devices w [] = ([], [])
add_devices w (d ∷ ds) =
    let (args, mounts) = add_devices w ds in
    if has_permission d
    then (device_allow w d ∷ args, added_mount d.add_mount (device_node w d) ++ mounts)
    else (args, mounts)

abbrev pub veth_args : List VethConfig → List String
veth_args [] = []
veth_args (v ∷ vs) =
    format ("--network-veth-extra=" ∷ v.ifname_host ∷ ":" ∷ v.ifname_container ∷ []) ∷ veth_args vs

abbrev pub bind_arg : MountConfig → String
bind_arg m = format ((if m.readonly then "--bind-ro=" else "--bind=") ∷ m.src ∷ ":" ∷ m.dst ∷ [])

abbrev pub init_args : Option String → List String
init_args (some init_cmd) = "--kill-signal=SIGRTMIN+3" ∷ init_cmd ∷ []
init_args none = "--boot" ∷ []

abbrev pub fixed_args : String → List String
fixed_args root =
    "--" ∷ "systemd-nspawn" ∷ "-D" ∷ root ∷ "--keep-unit" ∷ "--private-users=pick"
    ∷ "--private-network" ∷ []

-- `run_args`
unfoldable pub run_args : World → EnvironmentConfig → String → List String
unfolding add_devices
run_args w e root =
    let (device_args, device_mounts) = add_devices w e.device in
    "--scope"
    ∷ "--property=DevicePolicy=closed"
    ∷ (device_args
        ++ (fixed_args root
            ++ (veth_args e.veth ++ (map bind_arg (e.mount ++ device_mounts) ++ init_args e.init))))
