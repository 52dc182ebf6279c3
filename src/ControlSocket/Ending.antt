-- ===== src/ControlSocket/Ending.antt =====
-- How many answers a control socket gives.
use siplane.Base.{ℕ, ◌≡◌, refl, sym, some, List, [], ◌∷◌, ◌++◌, append_assoc, arith}
use siplane.Api.Puppet.{PuppetMsg, RunnerMsg}
use siplane.ControlSocket.Defs.{
  Runner, Decoded, message, Place, Input, received, Answer, Runs, stop, more,
}
use siplane.ControlSocket.Tcp

abbrev response_id_of : RunnerMsg → List ℕ
response_id_of (RunnerMsg.response i r) = i ∷ []
response_id_of _ = []

abbrev pub response_ids : List Answer → List ℕ
response_ids [] = []
response_ids ((c, m) ∷ out) = response_id_of m ++ response_ids out

response_ids-append :
    (xs ys : List Answer) → response_ids (xs ++ ys) ≡ response_ids xs ++ response_ids ys
response_ids-append [] ys = refl
response_ids-append ((c, m) ∷ xs) ys =
    rw (response_ids-append xs ys) (sym (append_assoc (response_id_of m) _ _))

module _ (decode : List ℕ → Decoded) (job_id : ℕ) (runner : Runner) where
  abbrev request_id_of : Decoded → List ℕ
  request_id_of (message (PuppetMsg.request i r)) = i ∷ []
  request_id_of _ = []

  -- The identifiers of the requests that the inputs bring.
  abbrev pub request_ids : List Input → List ℕ
  request_ids [] = []
  request_ids (received bytes sent ∷ is) = request_id_of (decode bytes) ++ request_ids is
  request_ids (_ ∷ is) = request_ids is

  abbrev ids_in : Input → List ℕ
  ids_in (received bytes sent) = request_id_of (decode bytes)
  ids_in _ = []

  request_ids-cons :
      (i : Input) (is : List Input) → request_ids (i ∷ is) ≡ ids_in i ++ request_ids is
  request_ids-cons i is = ground arith

  step_ids :
      (p : Place) (i : Input) (q : Place) (o : List Answer)
      → Tcp.step decode job_id runner p i ≡ some (q, o)
      → response_ids o ≡ ids_in i
  unfolding Tcp.step
  step_ids p i q o e = ground arith

  -- Over any run of the TCP control socket, the responses carry the identifiers of the requests
  -- received, each exactly once and in their order.
  pub one_response_each :
      {p q : Place} {is : List Input} {out : List Answer}
      → Runs (Tcp.step decode job_id runner) p is q out
      → response_ids out ≡ request_ids is
  one_response_each stop = refl
  one_response_each {p = p} (more {u = u} {i = i} {is = is} {o = o} {outs = outs} e r) =
      rw
        (request_ids-cons i is, response_ids-append o outs, step_ids p i u o e, one_response_each r)
