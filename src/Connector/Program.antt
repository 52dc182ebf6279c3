-- ===== src/Connector/Program.antt =====
-- A runner's program: the runner with one of the two connectors, as `main` of both runners sets it up.
use siplane.Base.{ℕ, ◌≡◌, sym, ap, ◌∙◌, subst, ◌≢◌, Option, none, some, List}
use siplane.Api.Coord.{StopJobMessage, JobState}
use siplane.Connector.Runner.{Handled, JobRunner}
use siplane.Connector.Runner.Slot.{track}
use siplane.Connector.Sse.{Parse, Connector, Input, start, Runs}
use siplane.Connector.Sse.Jobs.{AllApart, one_job_at_a_time}
use siplane.Connector.Dummy.{run, dummy_leaves_nothing}

module _ (r : JobRunner) (idle : r.State) (test_env : Option ℕ) (parse : Parse)
    (keepalive_timeout : ℕ) where
  -- What the program has come to: the runner, and what it has reported. With a test environment the
  -- connector is the one that starts a job there and stops it, and the program ends with it. Without
  -- one it is the connector to the coordinator, whose messages `parse` reads, at any time of its run.
  pub data Program : r.State → List (ℕ × JobState) → Type 0 where
    tested :
        {env : ℕ} {h : Handled r.State} (job_id : ℕ) (at_start at_stop : r.Answers)
        (waiting : List (StopJobMessage × r.Answers))
        → test_env ≡ some env
        → run r env job_id at_start at_stop waiting idle ≡ h
        → Program h.state h.reports
    served :
        {c : Connector r} {is : List (Input r)} {out : List (ℕ × JobState)}
        → test_env ≡ none
        → Runs r parse keepalive_timeout (start r idle) is c out
        → Program c.runner out

  -- With a coordinator: none of its messages starts the job that the runner has when it comes.
  abbrev pub NeverAgain : {s : r.State} {out : List (ℕ × JobState)} → Program s out → Type 0
  NeverAgain (tested job_id at_start at_stop waiting e ends) = Unit
  NeverAgain (served e ran) = AllApart r parse keepalive_timeout ran

  pub Program-reports :
      (s : r.State) (out : List (ℕ × JobState))
      → r.job_of idle ≡ none
      → (ran : Program s out) → NeverAgain ran
      → (track none out ≡ some (r.job_of s)) × (test_env ≢ none → r.job_of s ≡ none)
  Program-reports s out i (tested {env = env} {h = h} job_id at_start at_stop waiting e ends) w =
      let (gone, told) =
        subst (λ k. (r.job_of k.state ≡ none) × (track none k.reports ≡ some none)) ends
          (dummy_leaves_nothing r job_id at_start at_stop waiting env idle i) in
      (told ∙ ap some (sym gone), λ n. gone)
  Program-reports s out i (served {c = c} {is = is} e ran) w =
      (one_job_at_a_time r parse keepalive_timeout idle c is out i ran w, λ n. absurd (n e))
