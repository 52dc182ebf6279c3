-- ===== src/Connector/Dummy.antt =====
-- treadmill-rs/src/dummy_connector.rs: the connector that starts one job and stops it again. `main`
-- holds the runner while it runs.
use siplane.Base.{
  ℕ, ◌≡◌, refl, ap, ◌∙◌, subst, ◌⊎◌, inl, inr, Bool, true, false, none, some, List, [], ◌∷◌, ◌++◌,
  append-nil, append_assoc, arith, if◌then◌else◌,
}
use siplane.Api.Coord.{StartJobMessage, StopJobMessage, JobState}
use siplane.Connector.Runner.{Handled, started, not_started, busy, given_up, not_running, JobRunner}
use siplane.Connector.Runner.Slot.{track, StartServed-track, StopServed-track}

first_message : (environment_id job_id : ℕ) → StartJobMessage
first_message env id = record {
  job_id = id;
  environment_id = env;
  ssh_keys = "mytestsshkey" ∷ [];
  ssh_rendezvous_servers = [];
  job_parameters = [];
  board_parameters = [];
  environment_parameters = [];
  board_environment_parameters = [];
}

module _ (r : JobRunner) where
  open r use {State, Answers, job_of, start_job, stop_job, start_served, stop_served}

  -- While `run` waits for a signal, tasks of the runner's own may call `stop_job`.
  task_stops : List (StopJobMessage × Answers) → State → Handled State
  task_stops [] s = record { state = s; reports = []; panicked = false }
  task_stops ((msg, a) ∷ ms) s =
      let h = stop_job a msg s in
      let k = task_stops ms h.state in record k { reports = h.reports ++ k.reports }

  pub run :
      (environment_id job_id : ℕ)
      → (at_start at_stop : Answers) → List (StopJobMessage × Answers)
      → State
      → Handled State
  unfolding first_message task_stops
  run env id at_start at_stop waiting s =
      let h = start_job at_start (first_message env id) s in
      let k = task_stops waiting h.state in
      let m = stop_job at_stop (record { job_id = id }) k.state in
      if h.panicked then h else record m { reports = h.reports ++ k.reports ++ m.reports }

  stop_job-cases :
      (a : Answers) (msg : StopJobMessage) (s : State)
      → let t = (stop_job a msg s).state in (job_of t ≡ job_of s) ⊎ (job_of t ≡ none)
  stop_job-cases a msg s = elim (stop_served a msg s) [
    | given_up p b f n e ↦ inr e
    | not_running text b f e n ↦ inl e
  ]

  task_stops-cases :
      (ms : List (StopJobMessage × Answers)) (s : State)
      → let t = (task_stops ms s).state in (job_of t ≡ job_of s) ⊎ (job_of t ≡ none)
  unfolding task_stops
  task_stops-cases [] s = inl refl
  task_stops-cases ((msg, a) ∷ ms) s =
      let t = (stop_job a msg s).state in
      elim (task_stops-cases ms t) [
        | inr n ↦ inr n
        | inl e ↦ elim (stop_job-cases a msg s) [ inl f ↦ inl (e ∙ f) | inr n ↦ inr (e ∙ n) ]
      ]

  task_stops-track :
      (ms : List (StopJobMessage × Answers)) (s : State) (u : List (ℕ × JobState))
      → let k = task_stops ms s in track (job_of s) (k.reports ++ u) ≡ track (job_of k.state) u
  unfolding task_stops
  task_stops-track [] s u = refl
  task_stops-track ((msg, a) ∷ ms) s u =
      let h = stop_job a msg s in
      let k = task_stops ms h.state in
      rw append_assoc (
        StopServed-track msg.job_id (stop_served a msg s) (k.reports ++ u)
        ∙ task_stops-track ms h.state u)

  -- Stopping a job that may run leaves none.
  stop_job-none :
      (id : ℕ) (a : Answers) (s : State)
      → (job_of s ≡ some id) ⊎ (job_of s ≡ none)
      → job_of (stop_job a (record { job_id = id }) s).state ≡ none
  stop_job-none id a s c = elim (stop_served a (record { job_id = id }) s) [
    | given_up p b f n e ↦ e
    | not_running text b f e n ↦ elim c [ inl i ↦ absurd (b i) | inr i ↦ e ∙ i ]
  ]

  -- Starting on no job leaves the job or none, and a panic leaves none.
  start_job-cases :
      (a : Answers) (msg : StartJobMessage) (s : State)
      → job_of s ≡ none
      → let h = start_job a msg s in
        ((job_of h.state ≡ some msg.job_id) × (h.panicked ≡ false)) ⊎ (job_of h.state ≡ none)
  start_job-cases a msg s i = elim (start_served a msg s) [
    | started b f e n ↦ inl (e, n)
    | not_started p b f x y e ↦ inr e
    | busy text b f e n ↦ absurd (b i)
  ]

  abbrev LeavesNothing : Handled State → Type 0
  LeavesNothing h = (job_of h.state ≡ none) × (track none h.reports ≡ some none)

  if-LeavesNothing :
      (b : Bool) (h k : Handled State)
      → (b ≡ true → LeavesNothing h)
      → (b ≡ false → LeavesNothing k)
      → LeavesNothing (if b then h else k)
  if-LeavesNothing true h k x y = x refl
  if-LeavesNothing false h k x y = y refl

  module _ (id : ℕ) (at_start at_stop : Answers) (waiting : List (StopJobMessage × Answers)) where
    module _ (msg : StartJobMessage) (own : msg.job_id ≡ id) (s : State)
        (idle : job_of s ≡ none) where
      abbrev h : Handled State
      h = start_job at_start msg s

      abbrev k : Handled State
      k = task_stops waiting h.state

      abbrev m : Handled State
      m = stop_job at_stop (record { job_id = id }) k.state

      start-track :
          (u : List (ℕ × JobState)) → track none (h.reports ++ u) ≡ track (job_of h.state) u
      start-track u =
          subst (λ j. track j (h.reports ++ u) ≡ track (job_of h.state) u) idle
            (StartServed-track msg.job_id (start_served at_start msg s) (λ e. ground arith) u)

      panic-none : h.panicked ≡ true → job_of h.state ≡ none
      panic-none p = elim (start_job-cases at_start msg s idle) [
        | inl (e, n) ↦ absurd (ground arith)
        | inr n ↦ n
      ]

      waits-cases : (job_of k.state ≡ some id) ⊎ (job_of k.state ≡ none)
      waits-cases = elim (task_stops-cases waiting h.state) [
        | inr n ↦ inr n
        | inl e ↦ elim (start_job-cases at_start msg s idle) [
          | inl (f, n) ↦ inl (e ∙ f ∙ ap some own)
          | inr n ↦ inr (e ∙ n)
        ]
      ]

      all-track : track none (h.reports ++ k.reports ++ m.reports) ≡ some (job_of m.state)
      all-track = rw append_assoc (
          start-track (k.reports ++ m.reports)
          ∙ task_stops-track waiting h.state m.reports
          ∙ (rw (append-nil m.reports) at
              (StopServed-track id (stop_served at_stop (record { job_id = id }) k.state) [])))

      leaves :
          LeavesNothing
            (if h.panicked then h else record m { reports = h.reports ++ k.reports ++ m.reports })
      leaves =
          if-LeavesNothing h.panicked h (record m { reports = h.reports ++ k.reports ++ m.reports })
            (λ p. (
              panic-none p,
              (rw (append-nil h.reports) at (start-track [])) ∙ ap some (panic-none p),
            ))
            (λ n.
              let gone = stop_job-none id at_stop k.state waits-cases in
              (gone, all-track ∙ ap some gone))

    -- However the start ends and whatever tasks of the runner stop in the meantime, a run that finds no
    -- job leaves none, and its reports tell no job ready that is not stopped.
    pub dummy_leaves_nothing :
        (env : ℕ) (s : State)
        → job_of s ≡ none
        → let h = run env id at_start at_stop waiting s in
          (job_of h.state ≡ none) × (track none h.reports ≡ some none)
    unfolding run first_message
    dummy_leaves_nothing env s idle = leaves (first_message env id) refl s idle
