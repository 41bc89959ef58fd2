-- ===== src/Lifecycle/Execution.antt =====
-- backend/src/literature_agent/application/run_execution_service.py: a worker claims a run, runs its
-- executor and records how it ended. Logging, metrics and the terminal callback are left out.
use literature_research_agen.Base.{
  ℕ, ◌+◌, Bool, true, false, Option, none, some, number, payload_of, if◌then◌else◌,
}
use literature_research_agen.Run.{
  Run, RunStatus, queued, running, succeeded, retry_wait, waiting_input, waiting_dependency,
  cancel_requested, cancelled, same_status,
}
use literature_research_agen.Run.Errors.{ok}
use literature_research_agen.Event.{run_started, system, CorrelationId, Stamp}
use literature_research_agen.Attempt.{RunAttempt, AttemptStatus, create_run_attempt}
use literature_research_agen.Db.{
  Db, Action, Outcome, commit, rollback, pure, transaction, ◌>>=◌, ◌>>◌,
}
use literature_research_agen.Db.Runs.{get_by_id, get_by_id_for_update}
use literature_research_agen.Db.Attempts.{
  add_attempt, count_by_run, touch_heartbeat, finish_if_running,
}
use literature_research_agen.Lifecycle.Advance.{change_status, append_event}
use literature_research_agen.Lifecycle.Failure.{Failure, FailureOutcome, apply_run_failure}

-- The worker's part of a claim: the attempt's identifier, the worker, and the event's stamp.
pub record Claim : Type 0 where
  pub attempt_id : ℕ
  pub worker_id : ℕ
  pub stamp : Stamp
  pub correlation_id : CorrelationId

abbrev pub claimed_run : Run → ℕ → Run
claimed_run run now = record run {
  status = running;
  event_sequence = run.event_sequence + 1;
  updated_at = now;
}

-- What `_start` does after the conditional update has counted its one row.
unfoldable pub record_attempt : Claim → Run → Action (Outcome (Option (Run × Option RunAttempt)))
record_attempt claim run = do
  used ← count_by_run run.run_id
  let attempt =
      create_run_attempt claim.attempt_id claim.stamp.now run.run_id (used + 1) claim.worker_id
  add_attempt attempt
  append_event run claim.stamp run_started system claim.correlation_id
      (payload_of "attempt" (number (used + 1)))
  pure (commit (some (claimed_run run claim.stamp.now, some attempt)))

-- `_start` from a row that was read without a lock, which may be old by now.
unfoldable pub claim_row : Claim → Option Run → Action (Outcome (Option (Run × Option RunAttempt)))
unfolding record_attempt
claim_row claim none = pure (rollback none)
claim_row claim (some run) =
    if same_status run.status queued
    then (do
      claimed ← change_status run queued running claim.stamp.now
      if claimed then record_attempt claim run else pure (rollback (some (run, none))))
    else pure (rollback (some (run, none)))

-- `RunExecutionService._start`
unfoldable pub start : Claim → ℕ → Action (Option (Run × Option RunAttempt))
unfolding claim_row
start claim run_id = transaction do claim_row claim (← get_by_id run_id)

-- One round of `_heartbeat_loop`.
unfoldable pub beat : ℕ → ℕ → Action Bool
beat attempt_id now = transaction do pure (commit (← touch_heartbeat attempt_id now))

-- The mapping in `_close_attempt`.
unfoldable pub closing_status : Option RunStatus → AttemptStatus
closing_status (some succeeded) = AttemptStatus.succeeded
closing_status (some waiting_input) = AttemptStatus.paused
closing_status (some waiting_dependency) = AttemptStatus.paused
closing_status (some cancelled) = AttemptStatus.cancelled
closing_status _ = AttemptStatus.failed

-- `RunExecutionService._close_attempt`
unfoldable pub close_attempt : ℕ → Option RunStatus → ℕ → Action Bool
unfolding closing_status
close_attempt attempt_id final_status now =
    transaction
      do pure (commit (← finish_if_running attempt_id (closing_status final_status) now none))

-- `RunExecutionService._get_status`
unfoldable pub get_status : ℕ → Action (Option RunStatus)
get_status run_id = do pure (status_of (← get_by_id run_id))
  where
    status_of : Option Run → Option RunStatus
    status_of none = none
    status_of (some run) = some run.status

-- `ExecutionOutcome`
pub data ExecutionOutcome : Type 0 where
  completed failed retry_scheduled paused missing skipped : ExecutionOutcome

-- The locked row in `_fail`, with whether a cancellation is pending.
unfoldable pub fail_row :
    ℕ → ℕ → Stamp → Failure → CorrelationId → Option Run → Action (Outcome (FailureOutcome × Bool))
fail_row max_run_attempts now stamp failure correlation_id none =
    pure (commit (FailureOutcome.skipped, false))
fail_row max_run_attempts now stamp failure correlation_id (some run) =
    if same_status run.status running
    then (do
      outcome ← apply_run_failure max_run_attempts now stamp run failure correlation_id
      pure (commit (outcome, false)))
    else pure (commit (FailureOutcome.skipped, same_status run.status cancel_requested))

-- The row of `get_by_id`, read again with a lock.
unfoldable pub lock_found : ℕ → Option Run → Action (Option Run)
lock_found run_id none = pure none
lock_found run_id (some owner) = get_by_id_for_update run_id owner.owner_id

-- The first transaction of `_fail`.
unfoldable pub fail_locked :
    ℕ → ℕ → Stamp → Failure → CorrelationId → ℕ → Action (FailureOutcome × Bool)
unfolding lock_found fail_row
fail_locked max_run_attempts now stamp failure correlation_id run_id = transaction do
  owner ← get_by_id run_id
  run ← lock_found run_id owner
  fail_row max_run_attempts now stamp failure correlation_id run

abbrev pub failed_attempt_status : FailureOutcome → AttemptStatus
failed_attempt_status FailureOutcome.skipped = AttemptStatus.cancelled
failed_attempt_status _ = AttemptStatus.failed

abbrev pub failed_outcome : FailureOutcome → ExecutionOutcome
failed_outcome FailureOutcome.retry_scheduled = ExecutionOutcome.retry_scheduled
failed_outcome FailureOutcome.run_ended = ExecutionOutcome.failed
failed_outcome FailureOutcome.skipped = ExecutionOutcome.skipped

-- The second transaction of `_fail`; a pending cancellation leaves the attempt to the reconciler.
unfoldable pub close_failed : ℕ → Failure → ℕ → FailureOutcome × Bool → Action ExecutionOutcome
close_failed attempt_id failure now (outcome, true) = pure ExecutionOutcome.skipped
close_failed attempt_id failure now (outcome, false) = do
  transaction (do
    done ← finish_if_running attempt_id (failed_attempt_status outcome) now (some failure.error)
    pure (commit done))
  pure (failed_outcome outcome)

-- `RunExecutionService._fail`
unfoldable pub fail_execution :
    ℕ → ℕ → Stamp → Failure → CorrelationId → ℕ → ℕ → Action ExecutionOutcome
unfolding fail_locked close_failed
fail_execution max_run_attempts now stamp failure correlation_id run_id attempt_id = do
  result ← fail_locked max_run_attempts now stamp failure correlation_id run_id
  close_failed attempt_id failure now result

-- The outcome of an execution that returned, by the run's status.
unfoldable pub outcome_of : Option RunStatus → ExecutionOutcome
outcome_of (some succeeded) = ExecutionOutcome.completed
outcome_of (some RunStatus.failed) = ExecutionOutcome.failed
outcome_of (some retry_wait) = ExecutionOutcome.retry_scheduled
outcome_of (some waiting_input) = ExecutionOutcome.paused
outcome_of (some waiting_dependency) = ExecutionOutcome.paused
outcome_of _ = ExecutionOutcome.skipped

-- An executor runs transactions of its own, and returns or raises.
pub data Ending : Type 0 where
  returned : Ending
  raised : Failure → Ending

abbrev pub Executor : Type 0
Executor = Run → CorrelationId → Db → Ending × Db

-- The times and identifiers that an execution draws after its executor has ended.
pub record Closing : Type 0 where
  pub max_run_attempts : ℕ
  pub now : ℕ
  pub stamp : Stamp

unfoldable pub after_executor : Closing → Claim → ℕ → ℕ → Ending → Action ExecutionOutcome
unfolding fail_execution close_attempt
after_executor closing claim run_id attempt_id (raised failure) =
    fail_execution closing.max_run_attempts closing.now closing.stamp failure claim.correlation_id
      run_id attempt_id
after_executor closing claim run_id attempt_id returned = do
  final_status ← get_status run_id
  close_attempt attempt_id final_status closing.now
  pure (outcome_of final_status)

-- What `execute` does with the result of `_start`.
unfoldable pub run_started_attempt :
    Executor → Closing → Claim → ℕ → Option (Run × Option RunAttempt) → Action ExecutionOutcome
run_started_attempt executor closing claim run_id none db = (ok ExecutionOutcome.missing, db)
run_started_attempt executor closing claim run_id (some (run, none)) db =
    (ok ExecutionOutcome.skipped, db)
run_started_attempt executor closing claim run_id (some (run, some attempt)) db =
    if same_status run.status running
    then (let (ending, db') = executor run claim.correlation_id db in
        after_executor closing claim run_id attempt.attempt_id ending db')
    else (ok ExecutionOutcome.skipped, db)

-- `RunExecutionService.execute`
unfoldable pub execute : Executor → Closing → Claim → ℕ → Action ExecutionOutcome
unfolding start run_started_attempt
execute executor closing claim run_id = do
  started ← start claim run_id
  run_started_attempt executor closing claim run_id started
