-- ===== src/Invariant/Failure.antt =====
-- The failure policy keeps the invariant.
use literature_research_agen.Base.{
  ℕ, ◌+◌, ◌≡◌, refl, Bool, true, false, some, Json, payload_of, if◌then◌else◌,
}
use literature_research_agen.Run.{Run, RunStatus, running, failed, retry_wait, same_status}
use literature_research_agen.Run.Errors.{Result, ok, err, run_concurrent_modification}
use literature_research_agen.Event.{
  EventType, run_failed, run_retry_scheduled, system, CorrelationId, Stamp,
}
use literature_research_agen.Retry.{compute_failure_retry_delay}
use literature_research_agen.Db.{Db, pure, lift, ◌>>=◌}
use literature_research_agen.Db.Hoare.{Ensures, Ensures-bind}
use literature_research_agen.Db.Attempts.{count_by_run}
use literature_research_agen.Db.Outboxes.{reset_for_retry}
use literature_research_agen.Lifecycle.Failure.{
  Failure, FailureOutcome, run_ended, retry_scheduled, skipped, retry_payload, schedule_retry,
  conclude_failure, retry_or_end, fail_running, apply_run_failure,
}
use literature_research_agen.History.Replay.{status_after}
use literature_research_agen.History.Sound.{IsPast, IsLogged}
use literature_research_agen.Invariant.Sound.{IsSound, advance_then}
use literature_research_agen.Invariant.Actions.{reset_for_retry-Holds}

module _ (max_run_attempts now : ℕ) (stamp : Stamp) (run : Run) (failure : Failure)
    (correlation : CorrelationId) where
  -- The invariant, for a past row.
  abbrev Ready : Db → Type 0
  Ready db = IsSound db × IsPast run db.runs

  conclude_failure-IsSound :
      (target : RunStatus) (t : EventType) (payload : Json) (outcome : FailureOutcome) (db : Db)
      → Ready db
      → status_after t (some running) ≡ some target
      → Ensures (λ _. IsSound) (conclude_failure stamp run correlation target t payload outcome db)
  unfolding conclude_failure
  conclude_failure-IsSound target t payload outcome db h type =
      advance_then run running target stamp t system correlation payload (λ _. IsSound)
        (pure outcome) (run_concurrent_modification run.run_id) db h.0 h.1 type (λ db' s. s)

  retry_or_end-IsSound :
      (used next_at : ℕ) (scheduled : Bool) (db : Db)
      → Ready db
      → Ensures
          (λ _. IsSound)
          (retry_or_end stamp run failure correlation used next_at scheduled db)
  unfolding retry_or_end
  retry_or_end-IsSound used next_at true db h =
      conclude_failure-IsSound retry_wait run_retry_scheduled
        (retry_payload failure.error used next_at) retry_scheduled db h refl
  retry_or_end-IsSound used next_at false db h =
      conclude_failure-IsSound failed run_failed (payload_of "error" failure.error) run_ended db h
        refl

  schedule_retry-Ready :
      (retryable : Bool) (next_at : ℕ) (db : Db)
      → Ready db
      → Ensures (λ _. Ready) (schedule_retry retryable stamp.now run.run_id next_at db)
  unfolding schedule_retry reset_for_retry
  schedule_retry-Ready true next_at db h =
      (reset_for_retry-Holds IsLogged db h.0 stamp.now run.run_id next_at, h.1)
  schedule_retry-Ready false next_at db h = h

  fail_running-IsSound :
      (db : Db)
      → Ready db
      → Ensures (λ _. IsSound) (fail_running max_run_attempts now stamp run failure correlation db)
  unfolding fail_running count_by_run
  fail_running-IsSound db h = delayed _ _ (compute_failure_retry_delay failure.digest _ failure.exc)
    where
      delayed :
          (used : ℕ) (retryable : Bool) (delay : Result ℕ)
          → Ensures
              (λ _. IsSound)
              ((lift delay >>= λ d.
                  schedule_retry retryable stamp.now run.run_id (now + d) >>= λ scheduled.
                  retry_or_end stamp run failure correlation used (now + d) scheduled)
                db)
      delayed used retryable (err e) = tt
      delayed used retryable (ok d) =
          Ensures-bind (λ _. Ready) (λ _. IsSound)
            (schedule_retry retryable stamp.now run.run_id (now + d))
            (λ scheduled. retry_or_end stamp run failure correlation used (now + d) scheduled) db
            (schedule_retry-Ready retryable (now + d) db h)
            (λ scheduled db' r. retry_or_end-IsSound used (now + d) scheduled db' r)

  pub apply_run_failure-IsSound :
      (db : Db)
      → IsSound db
      → IsPast run db.runs
      → Ensures
          (λ _. IsSound)
          (apply_run_failure max_run_attempts now stamp run failure correlation db)
  unfolding apply_run_failure
  apply_run_failure-IsSound db h past = checked (same_status run.status running)
    where
      checked :
          (is_running : Bool)
          → Ensures
              (λ _. IsSound)
              ((if is_running
                  then fail_running max_run_attempts now stamp run failure correlation
                  else pure skipped)
                db)
      checked true = fail_running-IsSound db (h, past)
      checked false = h
