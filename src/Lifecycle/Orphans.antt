-- ===== src/Lifecycle/Orphans.antt =====
-- The second half of backend/src/literature_agent/application/run_reconcile_service.py: attempts that
-- are still marked as running although their run has gone on without them.
use literature_research_agen.Base.{
  ℕ, Bool, true, false, ◌&&◌, ◌||◌, not, Option, none, some, List, [], ◌∷◌, take, ◌==◌, ltb, leb,
  min, if◌then◌else◌, find_row, select_where, count_where,
}
use literature_research_agen.Run.{
  Run, RunStatus, succeeded, failed, cancelled, waiting_input, waiting_dependency,
}
use literature_research_agen.Event.{
  Event, dependency_wait_started, human_input_requested, run_retry_scheduled, run_failed,
  run_cancelled,
}
use literature_research_agen.Attempt.{RunAttempt, AttemptStatus, same_attempt_status}
use literature_research_agen.Db.{Db, Action, Outcome, commit, rollback, pure, transaction, ◌>>=◌}
use literature_research_agen.Db.Runs.{run_key, get_by_id}
use literature_research_agen.Db.Events.{list_by_run}
use literature_research_agen.Db.Attempts.{
  attempt_key, attempt_of, is_executing, order_by, list_attempts, get_latest_by_run, latest_of,
  finish_if_running,
}
use literature_research_agen.Lifecycle.Execution.{lock_found}
use literature_research_agen.Lifecycle.Reconcile.{count_if}

-- `min(… for item in attempts if item.attempt_number > candidate.attempt_number)`
unfoldable pub next_started_at : RunAttempt → List RunAttempt → Option ℕ
next_started_at candidate [] = none
next_started_at candidate (item ∷ rest) =
    let later = next_started_at candidate rest in
    if ltb candidate.attempt_number item.attempt_number
    then elim later [ none ↦ some item.started_at | some t ↦ some (min item.started_at t) ]
    else later

abbrev pub before_next : ℕ → Option ℕ → Bool
before_next at none = true
before_next at (some next) = ltb at next

-- The events of the attempt's time.
abbrev pub is_within : ℕ → Option ℕ → Event → Bool
is_within started_at next e = leb started_at e.occurred_at && before_next e.occurred_at next

abbrev pub pauses : Event → Bool
pauses e = elim e.event_type [
  | dependency_wait_started ↦ true
  | human_input_requested ↦ true
  | _ ↦ false
]

abbrev pub fails_run : Event → Bool
fails_run e = elim e.event_type [ run_retry_scheduled ↦ true | run_failed ↦ true | _ ↦ false ]

abbrev pub cancels_run : Event → Bool
cancels_run e = elim e.event_type [ run_cancelled ↦ true | _ ↦ false ]

-- By the status of the run, where no event of the attempt's time decides.
abbrev pub status_of_run : RunStatus → Option AttemptStatus
status_of_run succeeded = some AttemptStatus.succeeded
status_of_run failed = some AttemptStatus.failed
status_of_run cancelled = some AttemptStatus.cancelled
status_of_run waiting_input = some AttemptStatus.paused
status_of_run waiting_dependency = some AttemptStatus.paused
status_of_run _ = none

unfoldable pub status_by_events : RunStatus → List Event → Option AttemptStatus
status_by_events run_status events =
    if leb 1 (count_where pauses events)
    then some AttemptStatus.paused
    else if leb 1 (count_where fails_run events)
    then some AttemptStatus.failed
    else if leb 1 (count_where cancels_run events)
    then some AttemptStatus.cancelled
    else status_of_run run_status

-- `_orphan_terminal_status`
unfoldable pub orphan_terminal_status : ℕ → ℕ → RunStatus → Db → Option AttemptStatus
unfolding next_started_at status_by_events
orphan_terminal_status run_id attempt_id run_status db =
    let attempts = list_attempts run_id db in
    elim (find_row attempt_key attempt_id attempts) [
      | none ↦ none
      | some candidate ↦ status_by_events run_status (
          select_where (is_within candidate.started_at (next_started_at candidate attempts))
            (list_by_run run_id db))
    ]

-- `_close_orphan` from the call of `finish_if_running` on.
unfoldable pub close_with : ℕ → ℕ → Option AttemptStatus → Action (Outcome Bool)
close_with attempt_id now none = pure (rollback false)
close_with attempt_id now (some status) = do
  changed ← finish_if_running attempt_id status now none
  pure (if changed then commit true else rollback false)

-- The run's latest attempt is left alone while the run is executing.
abbrev pub is_current : ℕ → Run → Option RunAttempt → Bool
is_current attempt_id run none = true
is_current attempt_id run (some latest) = latest.attempt_id == attempt_id && is_executing run.status

unfoldable pub close_locked : ℕ → ℕ → Option Run → Action (Outcome Bool)
unfolding close_with orphan_terminal_status
close_locked attempt_id now none = pure (rollback false)
close_locked attempt_id now (some run) = do
  latest ← get_latest_by_run run.run_id
  if is_current attempt_id run latest then pure (rollback false) else λ db.
      close_with attempt_id now (orphan_terminal_status run.run_id attempt_id run.status db) db

-- `RunReconcileService._close_orphan`
unfoldable pub close_orphan : ℕ → ℕ → ℕ → Action Bool
unfolding close_locked lock_found
close_orphan run_id attempt_id now =
    transaction
      do owner ← get_by_id run_id; run ← lock_found run_id owner; close_locked attempt_id now run

-- The join and the `WHERE` clause of `list_orphaned_running`.
unfoldable pub is_orphan : Db → RunAttempt → Bool
is_orphan db a =
    same_attempt_status a.status AttemptStatus.running && elim (find_row run_key a.run_id db.runs) [
      | none ↦ false
      | some run ↦
          not (is_executing run.status)
          || is_older a (latest_of (select_where (attempt_of a.run_id) db.attempts))
    ]
  where
    is_older : RunAttempt → Option RunAttempt → Bool
    is_older a none = false
    is_older a (some latest) = ltb a.attempt_number latest.attempt_number

-- `list_orphaned_running`
unfoldable pub list_orphaned_running : ℕ → Db → List RunAttempt
unfolding is_orphan
list_orphaned_running limit db = take limit (
    order_by (λ a. a.started_at)
      (order_by (λ a. a.attempt_number) (select_where (is_orphan db) db.attempts)))

-- The loop of `reconcile_orphaned_attempts`.
unfoldable pub close_all : ℕ → List RunAttempt → Action ℕ
close_all now [] = pure 0
close_all now (candidate ∷ candidates) = do
  done ← close_orphan candidate.run_id candidate.attempt_id now
  closed ← close_all now candidates
  pure (count_if done closed)

-- `RunReconcileService.reconcile_orphaned_attempts`
unfoldable pub reconcile_orphaned_attempts : ℕ → ℕ → Action ℕ
unfolding close_all
reconcile_orphaned_attempts batch_size now db =
    close_all now (list_orphaned_running batch_size db) db
