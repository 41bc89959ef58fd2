-- ===== src/Lifecycle/Failure.antt =====
-- backend/src/literature_agent/application/failure_policy.py: a failed execution is retried or ends
-- the run.
use literature_research_agen.Base.{
  ℕ, ◌+◌, Bool, true, false, ◌&&◌, not, Option, Json, object, field, end, number, payload_of, ltb,
  if◌then◌else◌,
}
use literature_research_agen.Run.{Run, RunStatus, running, failed, retry_wait, same_status}
use literature_research_agen.Run.Errors.{run_concurrent_modification}
use literature_research_agen.Event.{
  EventType, run_failed, run_retry_scheduled, system, CorrelationId, Stamp,
}
use literature_research_agen.Retry.{Exception, is_permanent_failure, compute_failure_retry_delay}
use literature_research_agen.Db.{Action, pure, lift, require, ◌>>=◌, ◌>>◌}
use literature_research_agen.Db.Attempts.{count_by_run}
use literature_research_agen.Db.Outboxes.{reset_for_retry}
use literature_research_agen.Lifecycle.Advance.{change_status, append_event}

-- `RunFailureOutcome`
pub data FailureOutcome : Type 0 where
  run_ended retry_scheduled skipped : FailureOutcome

-- A failure as the policy sees it: the exception (none for a crashed worker), its summary, and the
-- first two bytes of the hash that spreads the retries.
pub record Failure : Type 0 where
  pub exc : Option Exception
  pub error : Json
  pub digest : ℕ

unfoldable pub retry_payload : Json → ℕ → ℕ → Json
retry_payload error attempt next_at = object (
    field "error" error
      (field "attempt" (number attempt) (field "next_retry_at" (number next_at) end)))

-- `retryable and await outbox_repo.reset_for_retry(…)`
unfoldable pub schedule_retry : Bool → ℕ → ℕ → ℕ → Action Bool
schedule_retry true now run_id next_at = reset_for_retry now run_id next_at
schedule_retry false now run_id next_at = pure false

-- The end of `apply_run_failure`, from `run.transition_to(target)` on.
unfoldable pub conclude_failure :
    Stamp
    → Run
    → CorrelationId
    → RunStatus
    → EventType
    → Json
    → FailureOutcome
    → Action FailureOutcome
conclude_failure stamp run correlation_id target event_type payload outcome = do
  updated ← change_status run running target stamp.now
  require updated (run_concurrent_modification run.run_id)
  append_event run stamp event_type system correlation_id payload
  pure outcome

unfoldable pub retry_or_end :
    Stamp → Run → Failure → CorrelationId → ℕ → ℕ → Bool → Action FailureOutcome
unfolding conclude_failure
retry_or_end stamp run failure correlation_id attempts_used next_at scheduled =
    if scheduled
    then conclude_failure stamp run correlation_id retry_wait run_retry_scheduled
        (retry_payload failure.error attempts_used next_at) retry_scheduled
    else conclude_failure stamp run correlation_id failed run_failed
        (payload_of "error" failure.error) run_ended

-- The body of `apply_run_failure` for a run that is running.
unfoldable pub fail_running : ℕ → ℕ → Stamp → Run → Failure → CorrelationId → Action FailureOutcome
unfolding schedule_retry retry_or_end
fail_running max_run_attempts now stamp run failure correlation_id = do
  attempts_used ← count_by_run run.run_id
  let retryable = not (is_permanent_failure failure.exc) && ltb attempts_used max_run_attempts
  delay ← lift (compute_failure_retry_delay failure.digest attempts_used failure.exc)
  scheduled ← schedule_retry retryable stamp.now run.run_id (now + delay)
  retry_or_end stamp run failure correlation_id attempts_used (now + delay) scheduled

-- `apply_run_failure`
unfoldable pub apply_run_failure :
    ℕ → ℕ → Stamp → Run → Failure → CorrelationId → Action FailureOutcome
unfolding fail_running
apply_run_failure max_run_attempts now stamp run failure correlation_id =
    if same_status run.status running
    then fail_running max_run_attempts now stamp run failure correlation_id
    else pure skipped
