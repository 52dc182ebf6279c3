-- ===== src/Keys/Tests.antt =====
-- A job with one key in a container, and its puppet.
use siplane.Base.{◌≡◌, refl, none, some, [], ◌∷◌}
use siplane.Base.FilePath.{has_parent}
use siplane.Puppet.Client.{Client, handle_message, poll}
use siplane.Puppet.Main.{write_keys}
use siplane.Puppet.Main.Tests.{world, args}
use siplane.Puppet.Main.Written.{written}
use siplane.Nspawn.Query as NspawnQuery
use siplane.Nspawn.Start.Tests as Container
use siplane.ControlSocket.Unix
use siplane.Keys.Journey.{lines, keys_arrive_in_container}

-- the first request of a client
abbrev client : Client
client = record { counter = 1; responses = (0, none) ∷ [] }

keys_arrive_in_container_example :
    lines (written (write_keys world args (some "/root/.ssh/authorized_keys")).0)
    ≡ some ("key" ∷ [])
unfolding has_parent handle_message poll Unix.answer_to NspawnQuery.runner
keys_arrive_in_container_example =
    keys_arrive_in_container Container.start_msg "key" [] refl (refl, tt) 0 client refl world args
      "/root/.ssh/authorized_keys" refl refl refl Container.world Container.config Container.job
      Container.starts refl
