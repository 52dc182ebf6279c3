-- ===== src/Puppet/Client/Invariant.antt =====
-- What holds of the client after any steps.
use siplane.Base.{
  ℕ, ◌≤◌, ◌<◌, ◌≡◌, refl, Option, none, some, List, [], ◌∷◌, arith, ◌==◌, if◌then◌else◌, is_some,
  Dict, lookup, lookup-insert, lookup-erase,
}
use siplane.Api.Puppet.{RunnerResp, RunnerMsg}
use siplane.Puppet.Client.{u64_mod, begin_request, poll, handle_message}
use siplane.Puppet.Client.System.{
  Transport, unix_seqpacket, tcp, Phase, sending, looking, parked, panicked, wake, wake_all, System,
  init, Label, began, delivered, hand_over, deliver, Step, begin, send, send_fails, park, complete,
  send_event, send_event_fails, receive, forward, lose, task_ends, Reach, here, next,
}

-- The last response to request `k` among the labels, the latest first, since that request began.
abbrev pub last_response : ℕ → List Label → Option RunnerResp
last_response k [] = none
last_response k (began j req ∷ ls) = if j == k then none else last_response k ls
last_response k (delivered (RunnerMsg.response j resp) ∷ ls) =
    if j == k then some resp else last_response k ls
last_response k (_ ∷ ls) = last_response k ls

abbrev pub began_ids : List Label → List ℕ
began_ids [] = []
began_ids (began j req ∷ ls) = j ∷ began_ids ls
began_ids (_ ∷ ls) = began_ids ls

-- The numbers fall along the list, from below `n`.
abbrev pub Falls : ℕ → List ℕ → Type 0
Falls n [] = Unit {0}
Falls n (j ∷ js) = (j < n) × Falls j js

Falls-mono : {m n : ℕ} (js : List ℕ) → m ≤ n → Falls m js → Falls n js
Falls-mono [] h f = tt
Falls-mono (j ∷ js) h f = (omega arith, f.1)

abbrev pub woken : Option Phase → Option Phase
woken none = none
woken (some p) = some (wake p)

pub lookup-wake_all : (k : ℕ) (d : Dict Phase) → lookup k (wake_all d) ≡ woken (lookup k d)
unfolding wake_all
lookup-wake_all k [] = refl
lookup-wake_all k ((j, p) ∷ d) = ground (arith, lookup-wake_all k d)

-- What holds of one identifier `k`.
pub record At (k : ℕ) (ls : List Label) (s : System) : Type 0 where
  pub registered : is_some (lookup k s.client.responses) ≡ is_some (lookup k s.calls)
  pub fresh : s.client.counter ≤ k → lookup k s.client.responses ≡ none
  pub unanswered : lookup k s.calls ≡ some parked → lookup k s.client.responses ≡ some none
  pub latest :
      {e : Option RunnerResp} → lookup k s.client.responses ≡ some e → e ≡ last_response k ls

pub record Inv (ls : List Label) (s : System) : Type 0 where
  pub fits : s.client.counter < u64_mod
  pub ids : Falls s.client.counter (began_ids ls)
  pub at : (k : ℕ) → At k ls s

-- Each step keeps what holds of each identifier.
Step-At :
    (tr : Transport) {ls : List Label} {s t : System} {l : Label} (k : ℕ)
    → Step tr s l t
    → Inv ls s
    → At k (l ∷ ls) t
unfolding begin_request poll handle_message hand_over deliver
Step-At tr {s = s} k (begin req {id} {c} e) inv = ground (
  arith,
  inv.at k,
  inv.at s.client.counter,
  lookup-insert s.client.counter k none s.client.responses,
  lookup-insert s.client.counter k (sending req) s.calls,
)
Step-At unix_seqpacket {s = s} k (send id e can) inv =
    ground (arith, inv.at k, lookup-insert id k looking s.calls)
Step-At tcp {s = s} k (send id e can) inv =
    ground (arith, inv.at k, lookup-insert id k looking s.calls)
Step-At tr {s = s} k (send_fails id e) inv =
    ground (arith, inv.at k, lookup-insert id k panicked s.calls)
Step-At tr {s = s} k (park id e w) inv = ground (arith, inv.at k, lookup-insert id k parked s.calls)
Step-At tr {s = s} k (complete id e w) inv =
    ground (arith, inv.at k, lookup-erase id k s.client.responses, lookup-erase id k s.calls)
Step-At unix_seqpacket k (send_event ev e can) inv = ground (arith, inv.at k)
Step-At tcp k (send_event ev e can) inv = ground (arith, inv.at k)
Step-At tr k (send_event_fails ev e) inv = ground (arith, inv.at k)
Step-At tr {s = s} k (receive (RunnerMsg.response j r) e) inv = ground (
  arith,
  inv.at k,
  inv.at j,
  lookup-insert j k (some r) s.client.responses,
  lookup-wake_all k s.calls,
)
Step-At tr k (receive (RunnerMsg.event j r) e) inv = ground (arith, inv.at k)
Step-At tr k (receive (RunnerMsg.error j) e) inv = ground (arith, inv.at k)
Step-At tr k (forward e w) inv = ground (arith, inv.at k)
Step-At tr k (lose e w) inv = ground (arith, inv.at k)
Step-At tr k (task_ends e) inv = ground (arith, inv.at k)

-- Each step keeps the counter in its range and the identifiers apart.
Step-ids :
    (tr : Transport) {ls : List Label} {s t : System} {l : Label}
    → Step tr s l t
    → Inv ls s
    → (t.client.counter < u64_mod) × Falls t.client.counter (began_ids (l ∷ ls))
unfolding begin_request poll handle_message hand_over deliver
Step-ids tr {ls = ls} (begin req {id} {c} e) inv = ground (arith, inv.fits, inv.ids)
Step-ids unix_seqpacket (send id e can) inv = (inv.fits, inv.ids)
Step-ids tcp (send id e can) inv = (inv.fits, inv.ids)
Step-ids tr (send_fails id e) inv = (inv.fits, inv.ids)
Step-ids tr (park id e w) inv = (inv.fits, inv.ids)
Step-ids tr (complete id e w) inv = ground (arith, inv.fits, inv.ids)
Step-ids unix_seqpacket (send_event ev e can) inv = (inv.fits, inv.ids)
Step-ids tcp (send_event ev e can) inv = (inv.fits, inv.ids)
Step-ids tr (send_event_fails ev e) inv = (inv.fits, inv.ids)
Step-ids tr (receive (RunnerMsg.response j r) e) inv = ground (arith, inv.fits, inv.ids)
Step-ids tr (receive (RunnerMsg.event j r) e) inv = (inv.fits, inv.ids)
Step-ids tr (receive (RunnerMsg.error j) e) inv = (inv.fits, inv.ids)
Step-ids tr (forward e w) inv = (inv.fits, inv.ids)
Step-ids tr (lose e w) inv = (inv.fits, inv.ids)
Step-ids tr (task_ends e) inv = (inv.fits, inv.ids)

Step-Inv :
    {tr : Transport} {ls : List Label} {s t : System} {l : Label}
    → Step tr s l t
    → Inv ls s
    → Inv (l ∷ ls) t
Step-Inv {tr = tr} st inv =
    let (fits, ids) = Step-ids tr st inv in
    record { fits = fits; ids = ids; at = λ k. Step-At tr k st inv }

init-Inv : Inv [] init
unfolding init
init-Inv = record { fits = omega arith; ids = tt; at = λ k. ground arith }

-- The invariant holds in every reachable state.
pub Reach-Inv : {tr : Transport} {ls : List Label} {s : System} → Reach tr ls s → Inv ls s
Reach-Inv here = init-Inv
Reach-Inv (next r st) = Step-Inv st (Reach-Inv r)
