-- ===== src/Puppet/Main/Ready.antt =====
-- When the puppet reports that it is ready.
use siplane.Base.{
  ℕ, suc, String, ◌≡◌, ◌≢◌, ◌⊎◌, Option, none, some, List, [], ◌∷◌, ◌++◌, if◌then◌else◌,
}
use siplane.Base.Flow.{value, returned, panicked, Flow}
use siplane.Base.Split.{join}
use siplane.Api.Puppet.{PuppetReq, PuppetEvent}
use siplane.Puppet.Client.{ssh_keys_of, network_config_of}
use siplane.Puppet.Client.System.{Transport, unix_seqpacket, tcp}
use siplane.Puppet.Network.{script_env}
use siplane.Puppet.Main.{
  PuppetArgs, Action, connect_unix, connect_tcp, request, create_parent_dirs, write_file,
  spawn_script, await_script, send_event, World, newline,
}

-- how often the puppet reports that it is ready
abbrev pub readies : List Action → ℕ
readies [] = 0
readies (send_event PuppetEvent.ready ∷ t) = suc (readies t)
readies (_ ∷ t) = readies t

module _ (w : World) (args : PuppetArgs) where
  -- What is to be done before, where an option or a response that is missing asks for nothing.
  abbrev pub connection : Transport → List Action
  connection unix_seqpacket = elim args.unix_seqpacket_control_socket [
    | none ↦ []
    | some path ↦ connect_unix path ∷ []
  ]
  connection tcp = elim args.tcp_control_socket_addr [
    | none ↦ []
    | some addr ↦ connect_tcp addr ∷ []
  ]

  abbrev pub keys_file : Option String → List Action
  keys_file none = []
  keys_file (some path) = elim (ssh_keys_of (w.response PuppetReq.ssh_keys)) [
    | none ↦ []
    | some keys ↦
        request PuppetReq.ssh_keys
        ∷ create_parent_dirs path
        ∷ write_file path (join newline keys)
        ∷ []
  ]

  abbrev pub network_script : Option String → List Action
  network_script none = []
  network_script (some script) = elim (network_config_of (w.response PuppetReq.network_config)) [
    | none ↦ []
    | some nc ↦
        request PuppetReq.network_config
        ∷ spawn_script script (script_env w.printing nc)
        ∷ (if w.spawns script then await_script script ∷ [] else [])
  ]

  abbrev pub setup : List Action
  setup =
      connection args.transport
      ++ keys_file args.authorized_keys_file
      ++ network_script args.network_config_script

  -- A part that does the actions `e` where it goes on, and reports nothing in any case.
  abbrev Does : List Action → Flow Action (Unit {0}) → Type 0
  Does e (t, value u) = (t ≡ e) × (readies t ≡ 0)
  Does e (t, returned) = readies t ≡ 0
  Does e (t, panicked) = readies t ≡ 0

  -- The outcomes of a part of `main` up to its end, where `e` is still to be done.
  abbrev Outcome : List Action → Flow Action (Unit {0}) → Type 0
  Outcome e (t, r) =
      ((readies t ≡ 0) × (r ≢ value tt))
      ⊎ ((after_it : List Action) × (t ≡ e ++ send_event PuppetEvent.ready ∷ after_it)
          × (readies after_it ≡ 0))
