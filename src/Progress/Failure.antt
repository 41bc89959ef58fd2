-- ===== src/Progress/Failure.antt =====
-- What the failure policy decides, with everything it writes.
use literature_research_agen.Base.{
  ℕ, ◌+◌, ◌≤◌, ◌≡◌, refl, ◌∙◌, ap, subst, Bool, true, false, ◌&&◌, not, none, some, arith, Json,
  payload_of, ltb, ◌==◌, if◌then◌else◌, count_where, update_where, update_where_none, find_row,
  count_where-and-le, List,
}
use literature_research_agen.Run.{
  Run, RunStatus, running, failed, retry_wait, same_status, same_status_refl, contains_status,
  transitions,
}
use literature_research_agen.Run.Errors.{Result, ok, run_concurrent_modification}
use literature_research_agen.Event.{
  Event, EventType, run_failed, run_retry_scheduled, system, CorrelationId, Stamp, create_event,
}
use literature_research_agen.Retry.{is_permanent_failure, compute_failure_retry_delay}
use literature_research_agen.Retry.Delay.{compute_failure_retry_delay_returns}
use literature_research_agen.Outbox.{QueueOutbox, pending, dispatched, same_outbox_status}
use literature_research_agen.Lifecycle.Advance.{change_status, append_event}
use literature_research_agen.Db.{Db, pure, require, ◌>>=◌, ◌>>◌}
use literature_research_agen.Db.Returns.{bind_ok}
use literature_research_agen.Db.Runs.{run_key}
use literature_research_agen.Db.Attempts.{attempt_of, count_by_run}
use literature_research_agen.Db.Outboxes.{is_dispatched_for, reset_for_retry, outbox_run}
use literature_research_agen.Lifecycle.Failure.{
  Failure, FailureOutcome, run_ended, retry_scheduled, retry_payload, schedule_retry,
  conclude_failure, retry_or_end, fail_running, apply_run_failure,
}
use literature_research_agen.Invariant.Sound.{IsSound}
use literature_research_agen.Progress.Step.{stepped_db, step_then}

module _ (max_run_attempts now : ℕ) (stamp : Stamp) (run : Run) (failure : Failure)
    (correlation : CorrelationId) (db : Db) where
  -- The attempts of the run, and whether the policy would retry it.
  abbrev pub attempts_used : ℕ
  attempts_used = count_where (attempt_of run.run_id) db.attempts

  abbrev pub is_retryable : Bool
  is_retryable = not (is_permanent_failure failure.exc) && ltb attempts_used max_run_attempts

  -- The outcomes: the record is reset to the retry's time, or the run ends.
  abbrev pub failed_event : Event
  failed_event =
      create_event stamp run.run_id run.event_sequence run_failed system correlation
        (payload_of "error" failure.error)

  abbrev pub retried_event : ℕ → Event
  retried_event next_at =
      create_event stamp run.run_id run.event_sequence run_retry_scheduled system correlation
        (retry_payload failure.error attempts_used next_at)

  pub record CanFail : Type 0 where
    pub sound : IsSound db
    pub stored : find_row run_key run.run_id db.runs ≡ some run
    pub executing : run.status ≡ running
    pub fresh : find_row (λ (e : Event). e.event_id) stamp.fresh_id db.events ≡ none
    pub few : attempts_used ≤ 1024

  -- The database with the outbox record waiting for the retry.
  abbrev pub rescheduled_db : ℕ → Db
  rescheduled_db next_at = record db {
    outbox =
        update_where (is_dispatched_for run.run_id)
          (λ o. record o {
            status = pending;
            attempt_count = o.attempt_count + 1;
            scheduled_at = next_at;
            dispatched_at = none;
            updated_at = stamp.now;
          })
          db.outbox;
  }

  -- A retry needs a failure that may be retried and a dispatched record to reset.
  abbrev pub is_retried : Bool
  is_retried = is_retryable && count_where (is_dispatched_for run.run_id) db.outbox == 1

  abbrev decided : ℕ → Bool → Result FailureOutcome × Db
  decided next_at retried =
      if retried
      then (
        ok retry_scheduled,
        stepped_db run retry_wait (retried_event next_at) (rescheduled_db next_at),
      )
      else (ok run_ended, stepped_db run failed failed_event db)

  not_one : (n : ℕ) → n ≤ 1 → (n == 1) ≡ false → n ≡ 0
  not_one n h k = ground arith

  module _ (can : CanFail) where
    conclude_failure_returns :
        (target : RunStatus) (t : EventType) (payload : Json) (outcome : FailureOutcome)
        (outbox : List QueueOutbox)
        → contains_status (transitions running) target ≡ true
        → conclude_failure stamp run correlation target t payload outcome
            (record db { outbox = outbox })
          ≡ (
            ok outcome,
            stepped_db run target
                (create_event stamp run.run_id run.event_sequence t system correlation payload)
                (record db { outbox = outbox }),
          )
    unfolding conclude_failure
    conclude_failure_returns target t payload outcome outbox listed =
        subst
          (λ s.
            (change_status run s target stamp.now >>= λ updated.
            require updated (run_concurrent_modification run.run_id)
            >> (append_event run stamp t system correlation payload >> pure outcome))
              (record db { outbox = outbox })
            ≡ (
              ok outcome,
              stepped_db run target
                  (create_event stamp run.run_id run.event_sequence t system correlation payload)
                  (record db { outbox = outbox }),
            ))
          can.executing
          (step_then run target stamp t system correlation payload
            (run_concurrent_modification run.run_id) (pure outcome) (record db { outbox = outbox })
            (record {
              logged = can.sound.log;
              stored = can.stored;
              listed = ap (λ s. contains_status (transitions s) target) can.executing ∙ listed;
              fresh = can.fresh;
            }))

    schedule_retry_returns :
        (next_at : ℕ) (retryable one : Bool)
        → (count_where (is_dispatched_for run.run_id) db.outbox == 1) ≡ one
        → schedule_retry retryable stamp.now run.run_id next_at db
          ≡ (ok (retryable && one), (if retryable && one then rescheduled_db next_at else db))
    unfolding schedule_retry reset_for_retry
    schedule_retry_returns next_at false one q = refl
    schedule_retry_returns next_at true true q = rw q refl
    schedule_retry_returns next_at true false q =
        rw
          (
            q,
            update_where_none (is_dispatched_for run.run_id) _ db.outbox
                (not_one (count_where (is_dispatched_for run.run_id) db.outbox) at_most q),
          )
          refl
      where
        at_most : count_where (is_dispatched_for run.run_id) db.outbox ≤ 1
        at_most = omega (
          arith,
          can.sound.scheduled.one_per_run run.run_id,
          count_where-and-le outbox_run run.run_id (λ o. same_outbox_status o.status dispatched)
              db.outbox,
        )

    retry_or_end_returns :
        (next_at : ℕ) (retried : Bool)
        → retry_or_end stamp run failure correlation attempts_used next_at retried
            (if retried then rescheduled_db next_at else db)
          ≡ decided next_at retried
    unfolding retry_or_end transitions contains_status same_status
    retry_or_end_returns next_at true =
        conclude_failure_returns retry_wait run_retry_scheduled
          (retry_payload failure.error attempts_used next_at) retry_scheduled
          (rescheduled_db next_at).outbox refl
    retry_or_end_returns next_at false =
        conclude_failure_returns failed run_failed (payload_of "error" failure.error) run_ended
          db.outbox refl

    fail_running_returns :
        (delay : ℕ)
        → compute_failure_retry_delay failure.digest attempts_used failure.exc ≡ ok delay
        → fail_running max_run_attempts now stamp run failure correlation db
          ≡ decided (now + delay) is_retried
    unfolding fail_running count_by_run
    fail_running_returns delay q = rw q (
        bind_ok (schedule_retry is_retryable stamp.now run.run_id (now + delay))
          (λ scheduled.
            retry_or_end stamp run failure correlation attempts_used (now + delay) scheduled)
          db (if is_retried then rescheduled_db (now + delay) else db) is_retried
          (schedule_retry_returns (now + delay) is_retryable
            (count_where (is_dispatched_for run.run_id) db.outbox == 1) refl)
        ∙ retry_or_end_returns (now + delay) is_retried)

-- A failure of a stored running run always ends in a decision (up to 1024 attempts, with a fresh
-- event identifier and in a database that satisfies the invariant): if it may be retried and the
-- run's outbox record is dispatched, the run waits in RETRY_WAIT and the record is pending at the
-- time of the retry; else the run is FAILED and the outbox stays as it is. In both cases the event
-- is written and nothing else changes.
pub apply_run_failure_returns :
    (max_run_attempts now : ℕ) (stamp : Stamp) (run : Run) (failure : Failure)
    (correlation : CorrelationId) (db : Db)
    → CanFail max_run_attempts now stamp run failure correlation db
    → (delay : ℕ) × (compute_failure_retry_delay failure.digest
          (count_where (attempt_of run.run_id) db.attempts)
          failure.exc
        ≡ ok delay)
      × (apply_run_failure max_run_attempts now stamp run failure correlation db ≡ (
          if is_retried max_run_attempts now stamp run failure correlation db
          then (
            ok retry_scheduled,
            stepped_db run retry_wait
                (retried_event max_run_attempts now stamp run failure correlation db (now + delay))
                (rescheduled_db max_run_attempts now stamp run failure correlation db
                  (now + delay)),
          )
          else (
            ok run_ended,
            stepped_db run failed
                (failed_event max_run_attempts now stamp run failure correlation db)
                db,
          )))
unfolding apply_run_failure
apply_run_failure_returns max_run_attempts now stamp run failure correlation db can =
    let (delay, q, _, _, _) =
      compute_failure_retry_delay_returns failure.digest
        (count_where (attempt_of run.run_id) db.attempts) failure.exc can.few in
    (
      delay,
      q,
      rw is_running
          (fail_running_returns max_run_attempts now stamp run failure correlation db can delay q),
    )
  where
    is_running : same_status run.status running ≡ true
    is_running = ap (λ s. same_status s running) can.executing ∙ same_status_refl running
