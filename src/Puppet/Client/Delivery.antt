-- ===== src/Puppet/Client/Delivery.antt =====
-- What a caller of `request` can rely on, whatever the other calls and the task do in between.
use siplane.Base.{ℕ, ◌-◌, ◌≡◌, ◌≢◌, ◌↔◌, none, some, List, arith, lookup, erase, lookup-insert}
use siplane.Api.Puppet.{RunnerResp, RunnerMsg}
use siplane.Puppet.Client.{u64_mod, begin_request, missing, done, poll, handle_message}
use siplane.Puppet.Client.System.{
  Transport, looking, parked, System, Label, completed, deliver, Step, complete, Reach,
}
use siplane.Puppet.Client.Invariant.{last_response, began_ids, Falls, Reach-Inv, lookup-wake_all}

module _ {tr : Transport} {ls : List Label} {s : System} (r : Reach tr ls s) where
  -- In every reachable state, what `request` does with the counter and the map panics only on
  -- overflow: giving out an identifier fails exactly when the counter holds the last value of a u64,
  -- and a call that looks at the map finds its key there. A failed send panics as well, and is no
  -- part of this.
  pub bookkeeping_panics_only_on_overflow :
      ((begin_request s.client ≡ none) ↔ (s.client.counter ≡ u64_mod - 1))
      × ((id : ℕ) → lookup id s.calls ≡ some looking → poll id s.client ≢ missing)
  unfolding begin_request poll
  bookkeeping_panics_only_on_overflow = (
    (
      λ e. ground (arith, (Reach-Inv r).fits, ((Reach-Inv r).at s.client.counter).fresh),
      λ e. ground arith,
    ),
    λ id h. ground (arith, (Reach-Inv r).at id),
  )

  -- No two requests have the same identifier: along the run they grow, and all are below the
  -- counter.
  ids_never_repeat : Falls s.client.counter (began_ids ls)
  ids_never_repeat = (Reach-Inv r).ids

  -- What a call of `request` returns is the last response to its own identifier that has come in
  -- since the call began.
  pub completed_with_own_response :
      {id : ℕ} {resp : RunnerResp} {t : System}
      → Step tr s (completed id resp) t
      → last_response id ls ≡ some resp
  unfolding poll
  completed_with_own_response {resp = resp} (complete id e w) =
      let a = (Reach-Inv r).at id in ground (arith, a.latest {e = some resp})

  -- No wake-up is lost: while a call waits for a notification, no response to it has come in since
  -- it began.
  pub no_lost_wakeup : (id : ℕ) → lookup id s.calls ≡ some parked → last_response id ls ≡ none
  no_lost_wakeup id h =
      let a = (Reach-Inv r).at id in ground (arith, a.unanswered, a.latest {e = none})

  -- A response that comes in for a call that waits lets that very call return with it: the call is
  -- awake afterwards and finds this response.
  pub response_wakes_its_call :
      (id : ℕ) (resp : RunnerResp)
      → lookup id s.calls ≡ some parked
      → let t = deliver (RunnerMsg.response id resp) s in
        (lookup id t.calls ≡ some looking)
        × (poll id t.client
            ≡ done resp (record t.client { responses = erase id t.client.responses }))
  unfolding deliver handle_message poll
  response_wakes_its_call id resp h = ground (
    arith,
    (Reach-Inv r).at id,
    lookup-wake_all id s.calls,
    lookup-insert id id (some resp) s.client.responses,
  )
