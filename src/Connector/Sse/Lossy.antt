-- ===== src/Connector/Sse/Lossy.antt =====
-- sse-connector/src/lib.rs: `post_job_state`, where the coordinator may be out of reach.
use siplane.Base.{
  ℕ, suc, ◌≡◌, refl, sym, ◌∙◌, inl, inr, Bool, true, false, Option, none, some, List, [], ◌∷◌,
  arith, ◌==◌, if◌then◌else◌, Bool-cases, Option-cases,
}
use siplane.Api.Coord.{JobState}
use siplane.Connector.Lifecycle.{Phase, advance}
use siplane.Connector.Reports.{seen_by}

-- `reaches n` says whether the `n`-th request of a handler gets an answer. If it does not, the
-- `unwrap` panics, and the handler goes no further.
module _ {Act : Type 0} (report : Act → Option (ℕ × JobState)) (reaches : ℕ → Bool) where
  -- the actions that are done, and whether all are
  abbrev pub taken : ℕ → List Act → List Act × Bool
  taken n [] = ([], true)
  taken n (a ∷ t) =
      let same = taken n t in
      let next = taken (suc n) t in
      elim (report a) [
        | none ↦ (a ∷ same.0, same.1)
        | some r ↦ if reaches n then (a ∷ next.0, next.1) else ([], false)
      ]

  quiet_seen :
      (id : ℕ) (p : Phase) (a : Act) (t : List Act)
      → report a ≡ none
      → seen_by report id p (a ∷ t) ≡ seen_by report id p t
  quiet_seen id p a t h = ground arith

  reported :
      (id : ℕ) (p m : Phase) (a : Act) (j : ℕ) (s : JobState) (t : List Act)
      → report a ≡ some (j, s)
      → advance p s ≡ some m
      → (j == id) ≡ true
      → seen_by report id p (a ∷ t) ≡ seen_by report id m t
  reported id p m a j s t h f o = ground arith

  reported_before :
      (id : ℕ) (p q : Phase) (a : Act) (j : ℕ) (s : JobState) (t : List Act)
      → report a ≡ some (j, s)
      → seen_by report id p (a ∷ t) ≡ some q
      → (m : Phase) × (advance p s ≡ some m) × ((j == id) ≡ true) × (seen_by report id m t ≡ some q)
  reported_before id p q a j s t h e = elim (Option-cases (advance p s)) [
    | inl f ↦ absurd (ground arith)
    | inr (m, f) ↦ elim (Bool-cases (j == id)) [
      | inl o ↦ (m, f, o, sym (reported id p m a j s t h f o) ∙ e)
      | inr o ↦ absurd (ground arith)
    ]
  ]

  taken_quiet :
      (n : ℕ) (a : Act) (t : List Act) → report a ≡ none → (taken n (a ∷ t)).0 ≡ a ∷ (taken n t).0
  taken_quiet n a t h = ground arith

  taken-report :
      (n : ℕ) (a : Act) (r : ℕ × JobState) (t : List Act)
      → report a ≡ some r
      → reaches n ≡ true
      → (taken n (a ∷ t)).0 ≡ a ∷ (taken (suc n) t).0
  taken-report n a r t h f = ground arith

  pub taken_lost :
      (n : ℕ) (a : Act) (r : ℕ × JobState) (t : List Act)
      → report a ≡ some r
      → reaches n ≡ false
      → taken n (a ∷ t) ≡ ([], false)
  taken_lost n a r t h f = ground arith

  -- What the coordinator sees then is in order if it would be with all reports.
  pub taken-seen :
      (id n : ℕ) (p q : Phase) (t : List Act)
      → seen_by report id p t ≡ some q
      → (m : Phase) × (seen_by report id p (taken n t).0 ≡ some m)
  taken-seen id n p q [] e = (p, refl)
  taken-seen id n p q (a ∷ t) e = elim (Option-cases (report a)) [
    | inl h ↦
        let (m, f) = taken-seen id n p q t (sym (quiet_seen id p a t h) ∙ e) in
        (m, rw (taken_quiet n a t h) (quiet_seen id p a (taken n t).0 h ∙ f))
    | inr ((j, s), h) ↦
        let (m, f, o, g) = reported_before id p q a j s t h e in
        elim (Bool-cases (reaches n)) [
          | inr l ↦ (p, rw (taken_lost n a (j, s) t h l) refl)
          | inl l ↦
              let (k, y) = taken-seen id (suc n) m q t g in
              (
                k,
                rw (taken-report n a (j, s) t h l)
                    (reported id p m a j s (taken (suc n) t).0 h f o ∙ y),
              )
        ]
  ]
