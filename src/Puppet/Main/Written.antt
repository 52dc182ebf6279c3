-- ===== src/Puppet/Main/Written.antt =====
-- What the puppet writes into the file of authorized keys.
use siplane.Base.{String, ◌≡◌, refl, true, Option, none, some, List, [], ◌∷◌}
use siplane.Base.FilePath.{has_parent}
use siplane.Base.Split.{join}
use siplane.Api.Puppet.{PuppetReq, RunnerResp}
use siplane.Puppet.Client.{ssh_keys_of}
use siplane.Puppet.Main.{
  PuppetArgs, Action, write_file, World, newline, write_keys, get_ssh_keys, ask, or_panic,
  unless_panic,
}

-- the contents of the first file that is written
abbrev pub written : List Action → Option String
written [] = none
written (write_file path contents ∷ t) = some contents
written (_ ∷ t) = written t

pub write_keys-written :
    (w : World) (args : PuppetArgs) (path : String) (keys : List String)
    → w.response PuppetReq.ssh_keys ≡ RunnerResp.ssh_keys_resp keys
    → w.sends_request PuppetReq.ssh_keys ≡ true
    → has_parent path ≡ true
    → w.creates_dirs path ≡ true
    → written (write_keys w args (some path)).0 ≡ some (join newline keys)
unfolding write_keys get_ssh_keys ask or_panic unless_panic ssh_keys_of
write_keys-written w args path keys r s p d = rw (s, r, p, d) refl
