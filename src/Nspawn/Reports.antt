-- ===== src/Nspawn/Reports.antt =====
-- The reports among the actions of a handler of the nspawn runner.
use siplane.Base.{ℕ, ◌≡◌, refl, Option, none, some, List, [], ◌∷◌, ◌++◌, map}
use siplane.Api.Coord.{JobState}
use siplane.Connector.Lifecycle.{Phase}
use siplane.Connector.Reports.{seen_by, ReportsTo, ReportsTo-after, ReportsTo-bind}
use siplane.Nspawn.Config.{Proxy}
use siplane.Nspawn.World.{Action, post, start_proxy}
use siplane.Base.Flow.{Flow, after, ◌>>=◌}

abbrev pub report : Action → Option (ℕ × JobState)
report (post job_id s) = some (job_id, s)
report _ = none

abbrev pub seen : ℕ → Phase → List Action → Option Phase
seen = seen_by report

pub seen-proxies :
    (id : ℕ) (p : Phase) (ps : List Proxy) (t : List Action)
    → seen id p (map start_proxy ps ++ t) ≡ seen id p t
seen-proxies id p [] t = refl
seen-proxies id p (x ∷ ps) t = seen-proxies id p ps t

abbrev pub Any {ℓ} : {A : Type ℓ} → A → Type 0
Any a = Unit {0}

module _ (id : ℕ) (at_panic : Phase) where
  abbrev pub Reports {ℓ} : {A : Type ℓ} → (A → Type 0) → Phase → Phase → Flow Action A → Type 0
  Reports = ReportsTo report id at_panic

  pub Reports-after {ℓ} :
      {A : Type ℓ} (V : A → Type 0) (p q r : Phase) (t : List Action) (m : Flow Action A)
      → ((u : List Action) → seen id p (t ++ u) ≡ seen id q u)
      → Reports V q r m
      → Reports V p r (after t m)
  Reports-after = ReportsTo-after report id at_panic

  pub Reports-bind {ℓ κ} :
      {A : Type ℓ} {B : Type κ} (V : A → Type 0) (W : B → Type 0) (p q r : Phase)
      (m : Flow Action A) (f : A → Flow Action B)
      → Reports V p q m
      → ((a : A) → V a → Reports W q r (f a))
      → Reports W p r (m >>= f)
  Reports-bind = ReportsTo-bind report id at_panic
