-- ===== src/Run/Status.antt =====
-- `RunStatus`, `_TRANSITIONS`, `_FINAL_STATES` and `ACTIVE_RUN_STATUSES` of domain/run.py.
use literature_research_agen.Base.{
  ℕ, String, ◌≡◌, Bool, true, false, ◌||◌, List, [], ◌∷◌, arith, ◌==◌,
}

pub data RunStatus : Type 0 where
  queued running succeeded failed retry_wait waiting_input waiting_dependency : RunStatus
  cancel_requested cancelled : RunStatus

abbrev pub status_code : RunStatus → ℕ
status_code queued = 0
status_code running = 1
status_code succeeded = 2
status_code failed = 3
status_code retry_wait = 4
status_code waiting_input = 5
status_code waiting_dependency = 6
status_code cancel_requested = 7
status_code cancelled = 8

-- `RunStatus.value`
unfoldable pub status_value : RunStatus → String
status_value queued = "queued"
status_value running = "running"
status_value succeeded = "succeeded"
status_value failed = "failed"
status_value retry_wait = "retry_wait"
status_value waiting_input = "waiting_input"
status_value waiting_dependency = "waiting_dependency"
status_value cancel_requested = "cancel_requested"
status_value cancelled = "cancelled"

-- `==` on statuses.
unfoldable pub same_status : RunStatus → RunStatus → Bool
same_status a b = status_code a == status_code b

pub same_status_refl : (s : RunStatus) → same_status s s ≡ true
unfolding same_status
same_status_refl s = ground arith

pub same_status_eq : (a b : RunStatus) → same_status a b ≡ true → a ≡ b
unfolding same_status
same_status_eq a b h = ground arith

-- `status in {…}`
unfoldable pub contains_status : List RunStatus → RunStatus → Bool
unfolding same_status
contains_status [] s = false
contains_status (x ∷ xs) s = same_status s x || contains_status xs s

-- `_TRANSITIONS.get(status, set())`
unfoldable pub transitions : RunStatus → List RunStatus
transitions queued = running ∷ cancelled ∷ []
transitions running =
    succeeded ∷ failed ∷ retry_wait ∷ waiting_input ∷ waiting_dependency ∷ cancel_requested ∷ []
transitions retry_wait = queued ∷ cancelled ∷ []
transitions waiting_input = queued ∷ cancelled ∷ []
transitions waiting_dependency = queued ∷ failed ∷ cancelled ∷ []
transitions cancel_requested = cancelled ∷ []
transitions _ = []

abbrev pub final_states : List RunStatus
final_states = succeeded ∷ failed ∷ cancelled ∷ []

abbrev pub active_run_statuses : List RunStatus
active_run_statuses =
    queued ∷ running ∷ retry_wait ∷ waiting_input ∷ waiting_dependency ∷ cancel_requested ∷ []

-- `status in _FINAL_STATES`
unfoldable pub is_final : RunStatus → Bool
unfolding contains_status
is_final = contains_status final_states

-- `status in ACTIVE_RUN_STATUSES`
unfoldable pub is_active : RunStatus → Bool
unfolding contains_status
is_active = contains_status active_run_statuses
