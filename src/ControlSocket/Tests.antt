-- ===== src/ControlSocket/Tests.antt =====
-- A session with one broken connection, on both transports.
use siplane.Base.{ℕ, ◌≡◌, refl, ◌↔◌, none, some, List, [], ◌∷◌, arith, ◌==◌, if◌then◌else◌}
use siplane.Api.Puppet.{PuppetMsg, PuppetReq, RunnerMsg, RunnerResp}
use siplane.ControlSocket.Defs.{
  Runner, Decoded, message, malformed, Sent, accepting, serving, Input, accept, received, Answer,
  Runs, stop, more,
}
use siplane.ControlSocket.Unix
use siplane.ControlSocket.Tcp
use siplane.ControlSocket.Laws.{NoEnd, transports_agree}
use siplane.ControlSocket.Ending.{response_ids, one_response_each}

-- one byte: the number of the request; 9 is no message
abbrev decode : List ℕ → Decoded
decode [] = malformed "EOF"
decode (b ∷ bs) =
    if b == 9 then malformed "bad" else message (PuppetMsg.request b PuppetReq.ssh_keys)

abbrev runner : Runner
runner = record {
  ssh_keys = λ j. if j == 1 then some ("key" ∷ []) else none;
  network_config = λ j. none;
}

abbrev session : List Input
session =
    accept 7
    ∷ received (4 ∷ []) Sent.ok
    ∷ received (9 ∷ []) Sent.broken_pipe
    ∷ accept 8
    ∷ received (5 ∷ []) Sent.other_error
    ∷ []

session-NoEnd : NoEnd decode 1 runner session
session-NoEnd = ground arith

abbrev keys_resp : RunnerResp
keys_resp = RunnerResp.ssh_keys_resp ("key" ∷ [])

abbrev answers : List Answer
answers =
    (7, RunnerMsg.response 4 keys_resp)
    ∷ (7, RunnerMsg.error "bad")
    ∷ (8, RunnerMsg.response 5 keys_resp)
    ∷ []

abbrev last_state : Unix.State
last_state = record { place = serving 8; client = some 8 }

unix_session : Runs (Unix.step decode 1 runner) Unix.start session last_state answers
unfolding Unix.start Unix.step
unix_session = more {o = []} refl (
    more {o = (7, RunnerMsg.response 4 keys_resp) ∷ []} refl (
      more {o = (7, RunnerMsg.error "bad") ∷ []} refl
        (more {o = []} refl (more {o = (8, RunnerMsg.response 5 keys_resp) ∷ []} refl stop))))

tcp_session : Runs (Tcp.step decode 1 runner) accepting session (serving 8) answers
unfolding Unix.start
tcp_session =
    (transports_agree decode 1 runner Unix.start (serving 8) session answers session-NoEnd).0
      (last_state, unix_session, refl)

transports_agree_example :
    ((t : Unix.State) × Runs (Unix.step decode 1 runner) Unix.start session t answers
      × (t.place ≡ serving 8))
    ↔ Runs (Tcp.step decode 1 runner) Unix.start.place session (serving 8) answers
transports_agree_example =
    transports_agree decode 1 runner Unix.start (serving 8) session answers session-NoEnd

one_response_each_example : response_ids answers ≡ 4 ∷ 5 ∷ []
one_response_each_example = one_response_each decode 1 runner tcp_session
