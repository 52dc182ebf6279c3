-- ===== src/Keys/Journey.antt =====
-- One request for the keys, from the puppet's client to the runner and back.
use siplane.Base.{
  ℕ, String, ◌≡◌, sym, ap, ◌∙◌, true, Option, none, some, List, ◌∷◌, arith, All, lookup,
  lookup-insert,
}
use siplane.Base.Split.{split, lacks, split-join}
use siplane.Api.Coord.{StartJobMessage}
use siplane.Api.Puppet.{PuppetReq, PuppetMsg, RunnerMsg, RunnerResp}
use siplane.ControlSocket.{Decoded, message, Runner}
use siplane.ControlSocket.Unix
use siplane.ControlSocket.Tcp
use siplane.Puppet.Client.{Client, handle_message, Poll, missing, pending, done, poll}
use siplane.Base.FilePath.{has_parent}
use siplane.Puppet.Main as PuppetMain
use siplane.Puppet.Main.{newline}
use siplane.Puppet.Main.Written.{written, write_keys-written}
use siplane.Nspawn.World as NspawnWorld
use siplane.Nspawn.Config as NspawnConfig
use siplane.Nspawn.Start as NspawnStart
use siplane.Nspawn.Start.Lifecycle as NspawnLifecycle
use siplane.Nspawn.Query as NspawnQuery
use siplane.Netboot.Config as NetbootConfig
use siplane.Netboot.Start as NetbootStart
use siplane.Netboot.Start.Reporting as NetbootReporting
use siplane.Netboot.Query as NetbootQuery

-- what a call of `request` returns when the client's task has handled the message
abbrev polled : Poll → Option RunnerResp
polled missing = none
polled pending = none
polled (done resp c) = some resp

abbrev pub received : Option RunnerMsg → ℕ → Client → Option RunnerResp
received none id c = none
received (some m) id c = polled (poll id (handle_message m c).0)

abbrev pub lines : Option String → Option (List String)
lines none = none
lines (some text) = some (split newline text)

abbrev pub ssh_keys_request : ℕ → Decoded
ssh_keys_request id = message (PuppetMsg.request id PuppetReq.ssh_keys)

-- An answer that comes in while its request waits is what the call returns.
received_response :
    (id : ℕ) (keys : List String) (c : Client)
    → lookup id c.responses ≡ some none
    → received (some (RunnerMsg.response id (RunnerResp.ssh_keys_resp keys))) id c
      ≡ some (RunnerResp.ssh_keys_resp keys)
unfolding handle_message poll
received_response id keys c h =
    ground (arith, lookup-insert id id (some (RunnerResp.ssh_keys_resp keys)) c.responses)

module _ (id job_id : ℕ) (r : Runner) (keys : List String)
    (own : r.ssh_keys job_id ≡ some keys) where
  unix_answer :
      Unix.answer_to (ssh_keys_request id) job_id r
      ≡ some (RunnerMsg.response id (RunnerResp.ssh_keys_resp keys))
  unfolding Unix.answer_to
  unix_answer = ground arith

  tcp_answer :
      Tcp.answer_to (ssh_keys_request id) job_id r
      ≡ some (RunnerMsg.response id (RunnerResp.ssh_keys_resp keys))
  unfolding Tcp.answer_to
  tcp_answer = ground arith

-- A puppet whose request has returned these keys.
lines-keys :
    (p : PuppetMain.World) (args : PuppetMain.PuppetArgs) (path k : String) (ks keys : List String)
    → some (RunnerResp.ssh_keys_resp keys) ≡ some (p.response PuppetReq.ssh_keys)
    → keys ≡ k ∷ ks
    → All (λ t. lacks newline t ≡ true) (k ∷ ks)
    → p.sends_request PuppetReq.ssh_keys ≡ true
    → has_parent path ≡ true
    → p.creates_dirs path ≡ true
    → lines (written (PuppetMain.write_keys p args (some path)).0) ≡ some (k ∷ ks)
lines-keys p args path k ks keys r e h s f d =
    rw (write_keys-written p args path keys (ground arith) s f d, e)
      (ap some (split-join newline k ks h))

module _ (msg : StartJobMessage) (k : String) (ks : List String) (has : msg.ssh_keys ≡ k ∷ ks)
    (whole : All (λ t. lacks newline t ≡ true) (k ∷ ks)) (id : ℕ) (c : Client)
    (waits : lookup id c.responses ≡ some none) (p : PuppetMain.World)
    (args : PuppetMain.PuppetArgs) (path : String)
    (sends : p.sends_request PuppetReq.ssh_keys ≡ true) (parent : has_parent path ≡ true)
    (dirs : p.creates_dirs path ≡ true) where
  -- The keys of the message that has started a container's job come to the file of its puppet. If there
  -- are keys and none of them contains a line break, if the puppet's request is what the control socket
  -- of that job answers while the job runs, and if the directory of the file can be made, then the lines
  -- of what the puppet writes are the keys in their order.
  pub keys_arrive_in_container :
      (w : NspawnWorld.World) (cfg : NspawnConfig.Config) (job : NspawnConfig.Job)
      → (NspawnStart.start_job w cfg msg none).current ≡ some job
      → received
          (Unix.answer_to (ssh_keys_request id) msg.job_id (NspawnQuery.runner w (some job)))
          id
          c
        ≡ some (p.response PuppetReq.ssh_keys)
      → lines (written (PuppetMain.write_keys p args (some path)).0) ≡ some (k ∷ ks)
  unfolding NspawnQuery.runner
  keys_arrive_in_container w cfg job started answered =
      let (own, keys) = NspawnLifecycle.start_job-own w cfg msg job started in
      let r = NspawnQuery.runner w (some job) in
      lines-keys p args path k ks job.ssh_keys
        (sym (received_response id job.ssh_keys c waits)
          ∙ ap (λ m. received m id c)
              (sym (unix_answer id msg.job_id r job.ssh_keys (ground arith)))
          ∙ answered)
        (keys ∙ has) whole sends parent dirs

  -- The same of a job of the netboot runner, whose puppet asks over TCP.
  keys_arrive_on_board :
      (w : NetbootConfig.World) (cfg : NetbootConfig.Config) (job : NetbootConfig.Job)
      → (NetbootStart.start_job w cfg msg none).current ≡ some job
      → received
          (Tcp.answer_to (ssh_keys_request id) msg.job_id (NetbootQuery.runner w (some job)))
          id
          c
        ≡ some (p.response PuppetReq.ssh_keys)
      → lines (written (PuppetMain.write_keys p args (some path)).0) ≡ some (k ∷ ks)
  unfolding NetbootQuery.runner
  keys_arrive_on_board w cfg job started answered =
      let (own, keys) = NetbootReporting.start_job-own w cfg msg job started in
      let r = NetbootQuery.runner w (some job) in
      lines-keys p args path k ks job.ssh_keys
        (sym (received_response id job.ssh_keys c waits)
          ∙ ap (λ m. received m id c) (sym (tcp_answer id msg.job_id r job.ssh_keys (ground arith)))
          ∙ answered)
        (keys ∙ has) whole sends parent dirs
