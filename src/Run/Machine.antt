-- ===== src/Run/Machine.antt =====
-- What the state machine of domain/run.py allows: a request is a target status and a time.
use literature_research_agen.Base.{
  ℕ, ◌≡◌, ◌⊎◌, inl, inr, refl, true, false, not, List, [], ◌∷◌, arith,
}
use literature_research_agen.Run.{
  Run, RunStatus, queued, running, succeeded, failed, retry_wait, waiting_input, waiting_dependency,
  cancel_requested, cancelled, is_final, is_active, transition_to, contains_status, transitions,
  same_status,
}
use literature_research_agen.Run.Errors.{Error, Result, ok, err}

-- A run after a list of requests, where a refused request changes nothing.
abbrev pub after_request : Run → Result Run → Run
after_request r (ok r') = r'
after_request r (err e) = r

pub walk : Run → List (RunStatus × ℕ) → Run
walk r [] = r
walk r ((s, now) ∷ requests) = walk (after_request r (transition_to r s now)) requests

-- A transition that is accepted sets the status and the time of update and nothing else, starts
-- from a status that is not final, and is listed in the table.
pub transition_to_ok :
    (r : Run) (s : RunStatus) (now : ℕ) (r' : Run)
    → transition_to r s now ≡ ok r'
    → (r' ≡ record r { status = s; updated_at = now })
      × (is_final r.status ≡ false)
      × (contains_status (transitions r.status) s ≡ true)
unfolding transition_to
transition_to_ok r s now r' h = ground arith

-- The other way round: a listed transition is accepted.
pub transition_to_listed :
    (r : Run) (s : RunStatus) (now : ℕ)
    → contains_status (transitions r.status) s ≡ true
    → transition_to r s now ≡ ok (record r { status = s; updated_at = now })
unfolding transition_to is_final transitions
transition_to_listed r s now h = ground arith

abbrev pub IsEnded : RunStatus → Type 0
IsEnded s = (s ≡ succeeded) ⊎ ((s ≡ failed) ⊎ (s ≡ cancelled))

-- Every request is refused.
abbrev pub RefusesAll : Run → Type 0
RefusesAll r = (s : RunStatus) (now : ℕ) → (e : Error) × (transition_to r s now ≡ err e)

-- Some request is accepted, at every time.
abbrev pub AcceptsOne : Run → Type 0
AcceptsOne r =
    (s : RunStatus) × ((now : ℕ)
      → transition_to r s now ≡ ok (record r { status = s; updated_at = now }))

accepts_listed :
    (r : Run) (s : RunStatus) → contains_status (transitions r.status) s ≡ true → AcceptsOne r
accepts_listed r s listed = (s, λ now. transition_to_listed r s now listed)

refuses_final : (r : Run) → is_final r.status ≡ true → RefusesAll r
unfolding transition_to
refuses_final r h s now = rw h (_, refl)

-- A run that has succeeded, failed or been cancelled refuses every request, and any other run
-- accepts one at least.
pub transition_to_lem :
    (r : Run) → (IsEnded r.status × RefusesAll r) ⊎ ((¬ IsEnded r.status) × AcceptsOne r)
unfolding is_final transitions contains_status same_status
transition_to_lem r = by_status r.status refl
  where
    by_status :
        (s : RunStatus)
        → r.status ≡ s
        → (IsEnded r.status × RefusesAll r) ⊎ ((¬ IsEnded r.status) × AcceptsOne r)
    by_status succeeded q = inl (inl q, refuses_final r (rw q refl))
    by_status failed q = inl (inr (inl q), refuses_final r (rw q refl))
    by_status cancelled q = inl (inr (inr q), refuses_final r (rw q refl))
    by_status queued q = inr (λ h. ground (arith, h, q), accepts_listed r running (rw q refl))
    by_status running q = inr (λ h. ground (arith, h, q), accepts_listed r failed (rw q refl))
    by_status retry_wait q = inr (λ h. ground (arith, h, q), accepts_listed r queued (rw q refl))
    by_status waiting_input q = inr (λ h. ground (arith, h, q), accepts_listed r queued (rw q refl))
    by_status waiting_dependency q =
        inr (λ h. ground (arith, h, q), accepts_listed r queued (rw q refl))
    by_status cancel_requested q =
        inr (λ h. ground (arith, h, q), accepts_listed r cancelled (rw q refl))

-- A status is active exactly if it is not final, and if it is active then the requests for
-- CANCEL_REQUESTED and CANCELLED, each refused or accepted, bring the run to CANCELLED.
pub active_cancellable :
    (r : Run) (now : ℕ)
    → (is_active r.status ≡ not (is_final r.status))
      × (is_active r.status ≡ true
          → (walk r ((cancel_requested, now) ∷ (cancelled, now) ∷ [])).status ≡ cancelled)
unfolding is_active is_final transition_to transitions walk
active_cancellable r now = ground arith
