-- ===== src/Lifecycle/Reconcile.antt =====
-- backend/src/literature_agent/application/run_reconcile_service.py: runs whose worker has stopped
-- its heartbeat are taken back.
use literature_research_agen.Base.{
  ℕ, ◌+◌, ◌-◌, Bool, true, false, ◌&&◌, Option, none, some, List, [], ◌∷◌, Json, empty_payload,
  object, field, end, text, ◌==◌, ltb, if◌then◌else◌,
}
use literature_research_agen.Run.{Run, cancel_requested, cancelled, same_status}
use literature_research_agen.Run.Errors.{run_concurrent_modification}
use literature_research_agen.Event.{run_cancelled, system, reconcile, Stamp}
use literature_research_agen.Attempt.{RunAttempt, AttemptStatus, same_attempt_status}
use literature_research_agen.Db.{
  Action, Outcome, commit, rollback, pure, require, transaction, ◌>>=◌, ◌>>◌,
}
use literature_research_agen.Db.Runs.{get_by_id, get_by_id_for_update}
use literature_research_agen.Db.Attempts.{
  is_executing, finish_if_running, get_latest_by_run, list_expired_running,
}
use literature_research_agen.Lifecycle.Advance.{change_status, append_event}
use literature_research_agen.Lifecycle.Failure.{Failure, apply_run_failure}

-- `_WORKER_CRASHED_ERROR`
abbrev pub worker_crashed_error : Json
worker_crashed_error =
    object
      (field "type" (text "worker_crashed") (field "message" (text "Worker lease 过期，执行被收回") end))

-- A crashed worker is a temporary failure without an exception.
abbrev pub worker_crashed : Failure
worker_crashed = record { exc = none; error = worker_crashed_error; digest = 0 }

-- The second check of the attempt, with the run locked.
unfoldable pub still_expired : ℕ → ℕ → Option RunAttempt → Bool
still_expired attempt_id cutoff none = false
still_expired attempt_id cutoff (some latest) =
    latest.attempt_id == attempt_id
    && (same_attempt_status latest.status AttemptStatus.running && ltb latest.heartbeat_at cutoff)

-- `_recover` where a cancellation was requested.
unfoldable pub finish_cancellation : ℕ → ℕ → Stamp → Run → Action (Outcome Bool)
finish_cancellation attempt_id now stamp run_row = do
  changed ← finish_if_running attempt_id AttemptStatus.cancelled now none
  if changed
      then (do
        updated ← change_status run_row cancel_requested cancelled stamp.now
        require updated (run_concurrent_modification run_row.run_id)
        append_event run_row stamp run_cancelled system (reconcile attempt_id) empty_payload
        pure (commit true))
      else pure (rollback false)

-- `_recover` where the run is running.
unfoldable pub fail_crashed : ℕ → ℕ → ℕ → Stamp → Run → Action (Outcome Bool)
fail_crashed max_run_attempts attempt_id now stamp run_row = do
  finish_if_running attempt_id AttemptStatus.failed now (some worker_crashed_error)
  apply_run_failure max_run_attempts now stamp run_row worker_crashed (reconcile attempt_id)
  pure (commit true)

unfoldable pub recover_checked :
    ℕ → ℕ → ℕ → ℕ → Stamp → Run → Option RunAttempt → Action (Outcome Bool)
unfolding finish_cancellation fail_crashed still_expired
recover_checked max_run_attempts attempt_id cutoff now stamp run_row latest =
    if still_expired attempt_id cutoff latest
    then (if same_status run_row.status cancel_requested
        then finish_cancellation attempt_id now stamp run_row
        else fail_crashed max_run_attempts attempt_id now stamp run_row)
    else pure (rollback false)

unfoldable pub recover_locked : ℕ → ℕ → ℕ → ℕ → Stamp → Option Run → Action (Outcome Bool)
unfolding recover_checked
recover_locked max_run_attempts attempt_id cutoff now stamp none = pure (rollback false)
recover_locked max_run_attempts attempt_id cutoff now stamp (some run_row) =
    if is_executing run_row.status
    then (do
      latest ← get_latest_by_run run_row.run_id
      recover_checked max_run_attempts attempt_id cutoff now stamp run_row latest)
    else pure (rollback false)

unfoldable pub recover_read : ℕ → ℕ → ℕ → ℕ → ℕ → Stamp → Option Run → Action (Outcome Bool)
unfolding recover_locked
recover_read max_run_attempts run_id attempt_id cutoff now stamp none = pure (rollback false)
recover_read max_run_attempts run_id attempt_id cutoff now stamp (some run) =
    if is_executing run.status
    then (do
      run_row ← get_by_id_for_update run_id run.owner_id
      recover_locked max_run_attempts attempt_id cutoff now stamp run_row)
    else pure (rollback false)

-- `RunReconcileService._recover`
unfoldable pub recover : ℕ → ℕ → ℕ → ℕ → ℕ → Stamp → Action Bool
unfolding recover_read
recover max_run_attempts run_id attempt_id cutoff now stamp =
    transaction do
      run ← get_by_id run_id
      recover_read max_run_attempts run_id attempt_id cutoff now stamp run

abbrev pub count_if : Bool → ℕ → ℕ
count_if true n = n + 1
count_if false n = n

-- The loop of `reconcile_expired`; each recovery has a stamp of its own.
unfoldable pub recover_all : ℕ → ℕ → ℕ → (ℕ → Stamp) → List RunAttempt → Action ℕ
recover_all max_run_attempts cutoff now stamps [] = pure 0
recover_all max_run_attempts cutoff now stamps (candidate ∷ candidates) = do
  done ←
      recover max_run_attempts candidate.run_id candidate.attempt_id cutoff now
        (stamps candidate.attempt_id)
  recovered ← recover_all max_run_attempts cutoff now stamps candidates
  pure (count_if done recovered)

-- `RunReconcileService.reconcile_expired`
unfoldable pub reconcile_expired : ℕ → ℕ → ℕ → ℕ → (ℕ → Stamp) → Action ℕ
unfolding recover_all
reconcile_expired max_run_attempts lease_seconds batch_size now stamps db =
    let cutoff = now - lease_seconds in
    recover_all max_run_attempts cutoff now stamps (list_expired_running cutoff batch_size db) db
