-- ===== src/Connector/Runner.antt =====
-- treadmill-rs/src/connector.rs: the trait `Runner`, with what a connector may rely on.
pub mod Reported
pub mod Slot
use siplane.Base.{
  ℕ, String, ◌≡◌, ◌≢◌, Bool, false, Option, none, some, List, [], ◌∷◌, ◌==◌, if◌then◌else◌,
}
use siplane.Api.Coord.{StartJobMessage, StopJobMessage, JobState, failed}
use siplane.Connector.Lifecycle.{Phase, requested, is_ready, is_stopping, advance}

-- The phase of job `id` after the reports, if all are about it and each may come when it does.
abbrev pub follow : ℕ → Phase → List (ℕ × JobState) → Option Phase
follow id p [] = some p
follow id p ((j, s) ∷ rs) =
    let rest = λ (q : Phase). follow id q rs in
    elim (advance p s) [ none ↦ none | some q ↦ if j == id then rest q else none ]

-- What a call of a handler leaves: the runner, the reports, and whether it panicked.
pub record Handled (S : Type 0) : Type 0 where
  pub state : S
  pub reports : List (ℕ × JobState)
  pub panicked : Bool

-- The outcomes of starting job `id`, where `before` and `after` are the jobs that run: only without
-- a job can it start, and else the request fails and the job that runs is left alone.
pub data StartServed (id : ℕ) (before : Option ℕ) (reports : List (ℕ × JobState)) (panicked : Bool)
    (after : Option ℕ) : Type 0 where
  started :
      before ≡ none
      → follow id requested reports ≡ some is_ready
      → after ≡ some id
      → panicked ≡ false
      → StartServed id before reports panicked after
  not_started :
      (p : Phase)
      → before ≡ none
      → follow id requested reports ≡ some p
      → p ≢ is_ready
      → p ≢ is_stopping
      → after ≡ none
      → StartServed id before reports panicked after
  busy :
      (text : Option String)
      → before ≢ none
      → reports ≡ (id, failed text) ∷ []
      → after ≡ before
      → panicked ≡ false
      → StartServed id before reports panicked after

-- The outcomes of stopping job `id`: if it runs it is given up in any case, and else the request
-- fails and nothing changes.
pub data StopServed (id : ℕ) (before : Option ℕ) (reports : List (ℕ × JobState)) (panicked : Bool)
    (after : Option ℕ) : Type 0 where
  given_up :
      (p : Phase)
      → before ≡ some id
      → follow id is_ready reports ≡ some p
      → p ≢ is_ready
      → after ≡ none
      → StopServed id before reports panicked after
  not_running :
      (text : Option String)
      → before ≢ some id
      → reports ≡ (id, failed text) ∷ []
      → after ≡ before
      → panicked ≡ false
      → StopServed id before reports panicked after

-- A runner: its handlers, which use what their surroundings answer, and the outcomes that they may
-- have.
pub record JobRunner : Type 1 where
  pub State : Type 0
  pub Answers : Type 0
  pub job_of : State → Option ℕ
  pub start_job : Answers → StartJobMessage → State → Handled State
  pub stop_job : Answers → StopJobMessage → State → Handled State
  pub start_served :
      (a : Answers) (msg : StartJobMessage) (s : State)
      → let h = start_job a msg s in
        StartServed msg.job_id (job_of s) h.reports h.panicked (job_of h.state)
  pub stop_served :
      (a : Answers) (msg : StopJobMessage) (s : State)
      → let h = stop_job a msg s in
        StopServed msg.job_id (job_of s) h.reports h.panicked (job_of h.state)
