-- ===== src/Control.antt =====
-- The control of runtime executions: the table of
-- backend/src/literature_agent/infrastructure/persistence/runtime_execution_repository.py, and the
-- errors of backend/src/literature_agent/application/runtime_execution_control.py. The table has one
-- row per turn.
pub mod Service
pub mod Rows
pub mod Evolution
pub mod Claims
pub mod Refinement
pub mod Ownership
use literature_research_agen.Base.{
  ℕ, ◌+◌, Bool, true, false, ◌&&◌, not, Option, none, some, List, [], ◌∷◌, ◌++◌, ◌==◌,
  if◌then◌else◌, is_some, count_where, update_where,
}
use literature_research_agen.Runtime.Texts.{Text, same_text}
use literature_research_agen.Runtime.{
  RuntimeExecution, RuntimeExecutionError, RuntimeControlState, running, interrupted, succeeded,
  failed, cancelled,
}

-- `RuntimeExecutionControlError` by its code, with `temporary` where a code has both; an error of the
-- domain that is not caught; and the database's refusal of a second row with one execution id.
pub data ControlError : Type 0 where
  turn_not_found turn_cancelled attempt_not_running version_incompatible : ControlError
  execution_leased lease_lost cancel_not_authorized integrity_error : ControlError
  turn_not_running execution_conflict : Bool → ControlError
  uncaught : RuntimeExecutionError → ControlError

abbrev pub Executions : Type 0
Executions = List RuntimeExecution

-- How a session ends: with an answer and the committed table, or with an error that leaves the table.
pub data Reply (A : Type 0) : Type 0 where
  answered : A → Executions → Reply A
  raised : ControlError → Reply A

abbrev pub has_turn : Text → RuntimeExecution → Bool
has_turn turn x = same_text x.turn_run_id turn

-- `get` and `get_for_update`
unfoldable pub get_execution : Text → Executions → Option RuntimeExecution
get_execution turn [] = none
get_execution turn (x ∷ rest) = if has_turn turn x then some x else get_execution turn rest

abbrev pub has_execution_id : Text → RuntimeExecution → Bool
has_execution_id id x = same_text x.runtime_execution_id id

pub data Added : Type 0 where
  added : Executions → Added
  present id_taken : Added

-- `add_if_absent`
unfoldable pub add_if_absent : RuntimeExecution → Executions → Added
unfolding get_execution
add_if_absent x table =
    if is_some (get_execution x.turn_run_id table)
    then present
    else if not (count_where (has_execution_id x.runtime_execution_id) table == 0)
    then id_taken
    else added (table ++ x ∷ [])

abbrev pub state_code : RuntimeControlState → ℕ
state_code running = 0
state_code interrupted = 1
state_code succeeded = 2
state_code failed = 3
state_code cancelled = 4

-- A column compared with a value that may be `None`, which reads as `IS NULL`.
unfoldable pub same_optional : Option Text → Option Text → Bool
same_optional none none = true
same_optional (some s) (some t) = same_text s t
same_optional _ _ = false

-- The condition of the update in `save`.
unfoldable pub is_expected : Text → RuntimeExecution → RuntimeExecution → Bool
unfolding same_optional
is_expected turn expected x =
    same_text x.turn_run_id turn
    && (state_code x.state == state_code expected.state
        && (x.fencing_token == expected.fencing_token
            && (same_optional x.current_attempt_id expected.current_attempt_id
                && same_optional x.lease_owner_id expected.lease_owner_id)))

-- `save`: the row count is compared with one, and the table is the one after the update.
abbrev pub is_saved : RuntimeExecution → RuntimeExecution → Executions → Bool
is_saved x expected table = count_where (is_expected x.turn_run_id expected) table == 1

unfoldable pub save_execution : RuntimeExecution → RuntimeExecution → Executions → Executions
unfolding is_expected
save_execution x expected table = update_where (is_expected x.turn_run_id expected) (λ _. x) table
