-- ===== src/Invariant/Execution.antt =====
-- Claims, heartbeats and the ends of executions, and the invariant.
use literature_research_agen.Base.{
  ℕ, ◌+◌, ◌≡◌, refl, Bool, true, false, Option, none, some, number, payload_of, find_row,
  count_where, if◌then◌else◌,
}
use literature_research_agen.Run.{Run, RunStatus, queued, running, cancel_requested, same_status}
use literature_research_agen.Event.{run_started, system, CorrelationId, Stamp}
use literature_research_agen.Attempt.{RunAttempt, create_run_attempt}
use literature_research_agen.Db.{
  Db, Action, Outcome, commit, rollback, pure, transaction, ◌>>=◌, ◌>>◌,
}
use literature_research_agen.Db.Hoare.{
  Ensures, Ensures-bind, Leaves, Leaves-transaction, Leaves-bind,
}
use literature_research_agen.Db.Runs.{run_key, owned_by, get_by_id, get_by_id_for_update}
use literature_research_agen.Db.Attempts.{
  attempt_of, add_attempt, count_by_run, touch_heartbeat, finish_if_running,
}
use literature_research_agen.Lifecycle.Advance.{change_status, append_event}
use literature_research_agen.Lifecycle.Failure.{Failure, FailureOutcome, apply_run_failure}
use literature_research_agen.Lifecycle.Execution.{
  Claim, claimed_run, record_attempt, claim_row, start, beat, closing_status, close_attempt,
  fail_row, lock_found, fail_locked, failed_attempt_status, close_failed, fail_execution,
}
use literature_research_agen.History.Sound.{IsPast, IsLogged, IsAdvanced}
use literature_research_agen.Invariant.Sound.{
  Holds, IsSound, Moving, change_status-Holds, append_then,
}
use literature_research_agen.Invariant.Actions.{
  add_attempt-Holds, touch_heartbeat-Holds, finish_if_running-Holds, read-IsPast, locked-IsPast,
}
use literature_research_agen.Invariant.Service.{Sound}
use literature_research_agen.Invariant.Failure.{apply_run_failure-IsSound}

module _ (claim : Claim) (run : Run) where
  abbrev next_attempt : ℕ → RunAttempt
  next_attempt used =
      create_run_attempt claim.attempt_id claim.stamp.now run.run_id (used + 1) claim.worker_id

  record_attempt-IsSound :
      (db : Db)
      → Holds (IsAdvanced run queued running) db
      → Ensures Sound (record_attempt claim run db)
  unfolding record_attempt count_by_run create_run_attempt
  record_attempt-IsSound db h =
      let used = count_where (attempt_of run.run_id) db.attempts in
      let done : Action (Outcome (Option (Run × Option RunAttempt))) =
        pure (commit (some (claimed_run run claim.stamp.now, some (next_attempt used)))) in
      Ensures-bind (λ _. Holds (IsAdvanced run queued running)) Sound
        (add_attempt (next_attempt used))
        (λ _.
          append_event run claim.stamp run_started system claim.correlation_id
            (payload_of "attempt" (number (used + 1)))
          >> done)
        db (add_attempt-Holds (IsAdvanced run queued running) db h (next_attempt used) refl)
        λ _ db' h'.
          append_then run queued running claim.stamp run_started system claim.correlation_id
            (payload_of "attempt" (number (used + 1))) Sound done db' h' refl (λ db2 s. s)

  -- A claim that commits, from a row that was read before, leaves the invariant. What was read must
  -- not be past the stored row.
  claim_row-IsSound :
      (db : Db) → IsSound db → IsPast run db.runs → Ensures Sound (claim_row claim (some run) db)
  unfolding claim_row
  claim_row-IsSound db h past = checked (same_status run.status queued)
    where
      decided :
          (changed : Bool) (db' : Db)
          → Moving run queued running changed db'
          → Ensures Sound (
              (if changed then record_attempt claim run else pure (rollback (some (run, none))))
                db')
      decided true db' m = record_attempt-IsSound db' (m.0 refl)
      decided false db' m = tt

      checked :
          (is_queued : Bool)
          → Ensures Sound (
              (if is_queued
                  then (change_status run queued running claim.stamp.now >>= λ changed.
                      if changed
                      then record_attempt claim run
                      else pure (rollback (some (run, none))))
                  else pure (rollback (some (run, none))))
                db)
      checked true =
          Ensures-bind (Moving run queued running) Sound
            (change_status run queued running claim.stamp.now)
            (λ changed.
              if changed then record_attempt claim run else pure (rollback (some (run, none))))
            db (change_status-Holds run queued running claim.stamp.now db h past) decided
      checked false = tt

claim_read-IsSound :
    (claim : Claim) (read : Option Run) (db : Db)
    → IsSound db
    → ((run : Run) → read ≡ some run → IsPast run db.runs)
    → Ensures Sound (claim_row claim read db)
unfolding claim_row
claim_read-IsSound claim none db h past = tt
claim_read-IsSound claim (some run) db h past = claim_row-IsSound claim run db h (past run refl)

module _ (run_id : ℕ) (db : Db) (h : IsSound db) where
  found-IsPast : (run : Run) → find_row run_key run_id db.runs ≡ some run → IsPast run db.runs
  found-IsPast run e = read-IsPast run_id run db.runs db.events h.log e

  pub start-IsSound : (claim : Claim) → Leaves IsSound (start claim run_id db)
  unfolding start get_by_id
  start-IsSound claim =
      Leaves-transaction IsSound (get_by_id run_id >>= claim_row claim) db h
        (claim_read-IsSound claim (find_row run_key run_id db.runs) db h found-IsPast)

pub beat-IsSound :
    (attempt_id now : ℕ) (db : Db) → IsSound db → Leaves IsSound (beat attempt_id now db)
unfolding beat touch_heartbeat
beat-IsSound attempt_id now db h =
    Leaves-transaction IsSound (touch_heartbeat attempt_id now >>= λ b. pure (commit b)) db h
      (touch_heartbeat-Holds IsLogged db h attempt_id now)

pub close_attempt-IsSound :
    (attempt_id : ℕ) (final_status : Option RunStatus) (now : ℕ) (db : Db)
    → IsSound db
    → Leaves IsSound (close_attempt attempt_id final_status now db)
unfolding close_attempt finish_if_running
close_attempt-IsSound attempt_id final_status now db h =
    Leaves-transaction IsSound
      (finish_if_running attempt_id (closing_status final_status) now none >>= λ b. pure (commit b))
      db h (finish_if_running-Holds IsLogged db h attempt_id (closing_status final_status) now none)

module _ (max_run_attempts now : ℕ) (stamp : Stamp) (failure : Failure)
    (correlation : CorrelationId) where
  fail_row-IsSound :
      (read : Option Run) (db : Db)
      → IsSound db
      → ((run : Run) → read ≡ some run → IsPast run db.runs)
      → Ensures Sound (fail_row max_run_attempts now stamp failure correlation read db)
  unfolding fail_row
  fail_row-IsSound none db h past = h
  fail_row-IsSound (some run) db h past = checked (same_status run.status running)
    where
      checked :
          (is_running : Bool)
          → Ensures (Sound {A = FailureOutcome × Bool}) (
              (if is_running
                  then (apply_run_failure max_run_attempts now stamp run failure correlation
                      >>= λ outcome. pure (commit (outcome, false)))
                  else pure
                      (commit (FailureOutcome.skipped, same_status run.status cancel_requested)))
                db)
      checked true =
          Ensures-bind (λ _. IsSound) Sound
            (apply_run_failure max_run_attempts now stamp run failure correlation)
            (λ outcome. pure (commit (outcome, false))) db
            (apply_run_failure-IsSound max_run_attempts now stamp run failure correlation db h
              (past run refl))
            (λ outcome db' s. s)
      checked false = h

  locked-IsSound :
      (run_id : ℕ) (owner : Option Run) (db : Db)
      → IsSound db
      → Ensures Sound
          ((lock_found run_id owner >>= fail_row max_run_attempts now stamp failure correlation) db)
  unfolding lock_found get_by_id_for_update
  locked-IsSound run_id none db h = fail_row-IsSound none db h (λ run e. cc)
  locked-IsSound run_id (some o) db h =
      fail_row-IsSound (owned_by o.owner_id (find_row run_key run_id db.runs)) db h
        λ run e. locked-IsPast run_id o.owner_id run db.runs db.events h.log e

  fail_locked-IsSound :
      (run_id : ℕ) (db : Db)
      → IsSound db
      → Leaves IsSound (fail_locked max_run_attempts now stamp failure correlation run_id db)
  unfolding fail_locked get_by_id
  fail_locked-IsSound run_id db h =
      Leaves-transaction IsSound
        (get_by_id run_id >>= λ owner.
          lock_found run_id owner >>= fail_row max_run_attempts now stamp failure correlation)
        db h (locked-IsSound run_id (find_row run_key run_id db.runs) db h)

  close_failed-IsSound :
      (attempt_id : ℕ) (result : FailureOutcome × Bool) (db : Db)
      → IsSound db
      → Leaves IsSound (close_failed attempt_id failure now result db)
  unfolding close_failed finish_if_running transaction
  close_failed-IsSound attempt_id (outcome, true) db h = h
  close_failed-IsSound attempt_id (outcome, false) db h =
      finish_if_running-Holds IsLogged db h attempt_id (failed_attempt_status outcome) now
        (some failure.error)

  pub fail_execution-IsSound :
      (run_id attempt_id : ℕ) (db : Db)
      → IsSound db
      → Leaves IsSound
          (fail_execution max_run_attempts now stamp failure correlation run_id attempt_id db)
  unfolding fail_execution
  fail_execution-IsSound run_id attempt_id db h =
      Leaves-bind IsSound (fail_locked max_run_attempts now stamp failure correlation run_id)
        (λ result. close_failed attempt_id failure now result) db (fail_locked-IsSound run_id db h)
        (λ result db' s. close_failed-IsSound attempt_id result db' s)
