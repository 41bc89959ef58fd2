-- ===== src/Control/Service.antt =====
-- `RuntimeExecutionControlService` of application/runtime_execution_control.py. `text` gives the
-- text of an identifier, and each time that is read is an argument.
use literature_research_agen.Base.{
  ℕ, ◌+◌, Bool, true, false, ◌&&◌, Option, none, some, List, [], ◌∷◌, if◌then◌else◌, select_where,
}
use literature_research_agen.Run.{
  Run, RunStatus, same_status, contains_status, retry_wait, cancel_requested,
}
use literature_research_agen.Attempt.{RunAttempt, AttemptStatus, same_attempt_status}
use literature_research_agen.Db.{Db}
use literature_research_agen.Db.Attempts.{latest_of}
use literature_research_agen.Runtime.Texts.{Text, same_text}
use literature_research_agen.Runtime.{
  RuntimeExecution, RuntimeExecutionPermit, RuntimeExecutionError, Checked, valid, refused,
  and_then, is_running, is_orphaned, version_conflict, still_owned, claim, renew, cancel,
  validate_permit, record_checkpoint, succeed, fail, record_temporary_error,
}
use literature_research_agen.Runtime.Create.{Request, require_compatible, create_runtime_execution}
use literature_research_agen.Control.{
  ControlError, turn_not_found, turn_cancelled, turn_not_running, attempt_not_running,
  execution_conflict, version_incompatible, execution_leased, lease_lost, cancel_not_authorized,
  integrity_error, uncaught, Executions, Reply, answered, raised, get_execution, Added, added,
  present, id_taken, add_if_absent, is_saved, save_execution,
}

-- How `claim` reports an error of the domain.
abbrev pub claim_error : RuntimeExecutionError → ControlError
claim_error version_conflict = version_incompatible
claim_error still_owned = execution_leased
claim_error e = execution_conflict false

-- The row is saved, or the error is raised.
unfoldable pub save_or :
    ControlError → RuntimeExecution → RuntimeExecution → Executions → Reply RuntimeExecution
unfolding save_execution
save_or e x expected table =
    if is_saved x expected table then answered x (save_execution x expected table) else raised e

-- `claim` of an execution that is there.
unfoldable pub take_over :
    Executions → Request → Text → Text → ℕ → ℕ → RuntimeExecution → Reply RuntimeExecution
unfolding require_compatible claim save_or
take_over table request attempt_id owner_id expires now x =
    saved (and_then (require_compatible x request) λ _. claim x attempt_id owner_id expires now)
  where
    saved : Checked RuntimeExecution → Reply RuntimeExecution
    saved (refused e) = raised (claim_error e)
    saved (valid claimed) = save_or (execution_conflict true) claimed x table

unfoldable pub take_over_found :
    Executions → Request → Text → Text → ℕ → ℕ → Option RuntimeExecution → Reply RuntimeExecution
unfolding take_over
take_over_found table request attempt_id owner_id expires now none =
    raised (execution_conflict true)
take_over_found table request attempt_id owner_id expires now (some x) =
    take_over table request attempt_id owner_id expires now x

-- A new execution; where another claim has added the row since, that one is taken over.
unfoldable pub create_execution :
    Executions → Text → Request → Text → Text → ℕ → ℕ → Reply RuntimeExecution
unfolding create_runtime_execution add_if_absent take_over_found get_execution
create_execution table turn request attempt_id owner_id expires now =
    created (create_runtime_execution turn request attempt_id owner_id expires now)
  where
    inserted : RuntimeExecution → Added → Reply RuntimeExecution
    inserted proposed (added table') = answered proposed table'
    inserted proposed id_taken = raised integrity_error
    inserted proposed present =
        take_over_found table request attempt_id owner_id expires now (get_execution turn table)

    created : Checked RuntimeExecution → Reply RuntimeExecution
    created (refused e) = raised (uncaught e)
    created (valid proposed) = inserted proposed (add_if_absent proposed table)

-- `late` says that the first query came before the row that another claim added; from then on the
-- row is locked.
unfoldable pub claim_execution :
    Executions → Bool → Text → Request → Text → Text → ℕ → ℕ → Reply RuntimeExecution
unfolding create_execution take_over get_execution
claim_execution table late turn request attempt_id owner_id expires now =
    found (if late then none else get_execution turn table)
  where
    found : Option RuntimeExecution → Reply RuntimeExecution
    found none = create_execution table turn request attempt_id owner_id expires now
    found (some x) = take_over table request attempt_id owner_id expires now x

-- `renew`, `record_checkpoint`, `succeed`, `temporary_error` and `fail`
pub data Mutation : Type 0 where
  to_renew : Mutation
  to_record_checkpoint to_succeed : Text → Mutation
  to_release to_fail : Text → Text → Mutation

unfoldable pub mutate :
    ℕ → RuntimeExecutionPermit → Mutation → RuntimeExecution → ℕ → Checked RuntimeExecution
unfolding renew record_checkpoint succeed fail record_temporary_error
mutate lease p to_renew x now = renew x p (now + lease) now
mutate lease p (to_record_checkpoint checkpoint_id) x now =
    record_checkpoint x p.owner_id p.attempt_id p.fencing_token checkpoint_id now
mutate lease p (to_succeed checkpoint_id) x now =
    succeed x p.owner_id p.attempt_id p.fencing_token checkpoint_id now
mutate lease p (to_release code message) x now =
    record_temporary_error x p.owner_id p.attempt_id p.fencing_token code message now
mutate lease p (to_fail code message) x now = fail x p code message now

-- The end of `cancel_for_business`, for the row that it has locked.
unfoldable pub cancel_locked :
    Executions → ℕ → Option RuntimeExecution → Reply (Option RuntimeExecution)
unfolding save_execution cancel
cancel_locked table now none = answered none table
cancel_locked table now (some x) =
    if is_running x.state then saved (cancel x now) else answered (some x) table
  where
    saved : Checked RuntimeExecution → Reply (Option RuntimeExecution)
    saved (refused e) = raised (uncaught e)
    saved (valid y) =
        if is_saved y x table
        then answered (some y) (save_execution y x table)
        else raised (execution_conflict true)

module _ (text : ℕ → Text) where
  -- `get_by_id`, and `get_by_id_for_update` with the owner that was read.
  unfoldable pub run_named : Text → List Run → Option Run
  run_named turn [] = none
  run_named turn (r ∷ rest) = if same_text (text r.run_id) turn then some r else run_named turn rest

  -- `get_latest_by_run`
  unfoldable pub latest_attempt : Text → Db → Option RunAttempt
  unfolding latest_of select_where
  latest_attempt turn db =
      latest_of (select_where (λ a. same_text (text a.run_id) turn) db.attempts)

  abbrev pub runs_run : Option Run → Bool
  runs_run none = false
  runs_run (some r) = same_status r.status RunStatus.running

  abbrev pub runs_attempt : Option RunAttempt → Bool
  runs_attempt none = false
  runs_attempt (some a) = same_attempt_status a.status AttemptStatus.running

  abbrev pub is_attempt_named : Text → Option RunAttempt → Bool
  is_attempt_named id none = false
  is_attempt_named id (some a) = same_text (text a.attempt_id) id

  -- `claim` for a running turn, with its latest attempt.
  unfoldable pub claim_bound :
      Executions → Bool → Text → Request → Text → ℕ → ℕ → Option RunAttempt → Reply RuntimeExecution
  unfolding claim_execution
  claim_bound table late turn request owner_id lease now none = raised attempt_not_running
  claim_bound table late turn request owner_id lease now (some a) =
      if same_attempt_status a.status AttemptStatus.running
      then claim_execution table late turn request (text a.attempt_id) owner_id (now + lease) now
      else raised attempt_not_running

  -- `claim`
  unfoldable pub claim_turn :
      Db → Executions → Bool → Text → Request → Text → ℕ → ℕ → Reply RuntimeExecution
  unfolding claim_bound run_named latest_attempt
  claim_turn db table late turn request owner_id lease now = located (run_named turn db.runs)
    where
      located : Option Run → Reply RuntimeExecution
      located none = raised turn_not_found
      located (some r) =
          if same_status r.status cancel_requested
          then raised turn_cancelled
          else if same_status r.status RunStatus.running
          then claim_bound table late turn request owner_id lease now (latest_attempt turn db)
          else raised (turn_not_running (same_status r.status retry_wait))

  -- `can_recover`
  unfoldable pub can_recover : Db → Executions → Text → ℕ → Bool
  unfolding run_named latest_attempt get_execution
  can_recover db table turn now =
      runs_run (run_named turn db.runs)
      && runs_attempt (latest_attempt turn db)
      && orphaned (get_execution turn table)
    where
      orphaned : Option RuntimeExecution → Bool
      orphaned none = false
      orphaned (some x) = is_orphaned x now

  -- The turn is running, and the permit's attempt is its latest, and running.
  unfoldable pub is_permit_current : Db → RuntimeExecutionPermit → Bool
  unfolding run_named latest_attempt
  is_permit_current db permit =
      runs_run (run_named permit.turn_run_id db.runs)
      && (is_attempt_named permit.attempt_id (latest_attempt permit.turn_run_id db)
          && runs_attempt (latest_attempt permit.turn_run_id db))

  -- `assert_active`
  unfoldable pub assert_active :
      Db → Executions → RuntimeExecutionPermit → ℕ → Reply RuntimeExecution
  unfolding is_permit_current get_execution
  assert_active db table permit now =
      if is_permit_current db permit
      then stored (get_execution permit.turn_run_id table)
      else raised lease_lost
    where
      checked : RuntimeExecution → Checked RuntimeExecution → Reply RuntimeExecution
      checked x (refused e) = raised lease_lost
      checked x (valid y) = answered x table

      stored : Option RuntimeExecution → Reply RuntimeExecution
      stored none = raised lease_lost
      stored (some x) = checked x (validate_permit x permit now)

  -- The second session of `_mutate_owned`.
  unfoldable pub mutate_locked :
      Db → Executions → ℕ → RuntimeExecutionPermit → Mutation → ℕ → Reply RuntimeExecution
  unfolding is_permit_current get_execution mutate save_or validate_permit
  mutate_locked db table lease permit mutation now =
      if is_permit_current db permit
      then stored (get_execution permit.turn_run_id table)
      else raised lease_lost
    where
      saved : RuntimeExecution → Checked RuntimeExecution → Reply RuntimeExecution
      saved x (refused e) = raised lease_lost
      saved x (valid y) = save_or lease_lost y x table

      stored : Option RuntimeExecution → Reply RuntimeExecution
      stored none = raised lease_lost
      stored (some x) =
          saved x (and_then (validate_permit x permit now) λ _. mutate lease permit mutation x now)

  -- `_mutate_owned`: `db0`, `table0` and `now0` are what `assert_active` reads in a session before.
  unfoldable pub mutate_owned :
      Db
      → Executions
      → ℕ
      → Db
      → Executions
      → ℕ
      → RuntimeExecutionPermit
      → Mutation
      → ℕ
      → Reply RuntimeExecution
  unfolding assert_active mutate_locked
  mutate_owned db0 table0 now0 db table lease permit mutation now =
      go_on (assert_active db0 table0 permit now0)
    where
      go_on : Reply RuntimeExecution → Reply RuntimeExecution
      go_on (raised e) = raised e
      go_on (answered x t) = mutate_locked db table lease permit mutation now

  -- `cancel_for_business`
  unfoldable pub cancel_for_business : Db → Executions → Text → ℕ → Reply (Option RuntimeExecution)
  unfolding run_named get_execution cancel_locked
  cancel_for_business db table turn now = located (run_named turn db.runs)
    where
      located : Option Run → Reply (Option RuntimeExecution)
      located none = raised turn_not_found
      located (some r) =
          if contains_status (cancel_requested ∷ RunStatus.cancelled ∷ []) r.status
          then cancel_locked table now (get_execution turn table)
          else raised cancel_not_authorized
