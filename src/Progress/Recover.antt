-- ===== src/Progress/Recover.antt =====
-- Runs whose worker has stopped its heartbeat, and runs whose worker has not.
use literature_research_agen.Base.{
  ℕ, ◌+◌, ◌≤◌, ◌≡◌, ◌≢◌, ◌⊎◌, refl, ◌∙◌, ap, Bool, true, false, Option, some, arith, ==_iff,
  if◌then◌else◌, find_row, select_where, count_where, update_where, count_where-update_where,
}
use literature_research_agen.Run.{
  Run, RunStatus, running, retry_wait, failed, cancel_requested, same_status, contains_status,
}
use literature_research_agen.Run.Errors.{Result, ok}
use literature_research_agen.Event.{reconcile, Stamp}
use literature_research_agen.Attempt.{RunAttempt, AttemptStatus, finish, same_attempt_status}
use literature_research_agen.Db.{Db, Outcome, commit, rollback, pure, ◌>>=◌}
use literature_research_agen.Db.Returns.{bind_ok, transaction_commit, transaction_rollback}
use literature_research_agen.Db.Runs.{run_key, set_status, get_by_id, get_by_id_for_update}
use literature_research_agen.Db.Attempts.{
  attempt_of, is_executing, is_running_attempt, finish_if_running, get_latest_by_run, latest_of,
}
use literature_research_agen.Lifecycle.Failure.{
  apply_run_failure, FailureOutcome, retry_scheduled, run_ended,
}
use literature_research_agen.Lifecycle.Reconcile.{
  worker_crashed, worker_crashed_error, still_expired, fail_crashed, recover_checked,
  recover_locked, recover_read, recover,
}
use literature_research_agen.Invariant.Attempts.{updated-IsTried}
use literature_research_agen.Progress.Step.{moved_db, stepped_db, found_moved}
use literature_research_agen.Progress.Failure.{
  CanFail, is_retried, retried_event, failed_event, rescheduled_db, apply_run_failure_returns,
}

module _ (max_run_attempts attempt_id cutoff now : ℕ) (stamp : Stamp) (run : Run) (db : Db) where
  -- The latest attempt of a run, as `_recover` reads it.
  abbrev pub latest : Option RunAttempt
  latest = latest_of (select_where (attempt_of run.run_id) db.attempts)

  -- `_recover` of a stored run that is executing is the decision on its latest attempt.
  recover_reaches :
      (b : Outcome Bool) (db' : Db)
      → find_row run_key run.run_id db.runs ≡ some run
      → is_executing run.status ≡ true
      → recover_checked max_run_attempts attempt_id cutoff now stamp run latest db ≡ (ok b, db')
      → (get_by_id run.run_id
            >>= recover_read max_run_attempts run.run_id attempt_id cutoff now stamp)
          db
        ≡ (ok b, db')
  unfolding recover_read recover_locked get_by_id get_by_id_for_update get_latest_by_run
  recover_reaches b db' stored executing checked =
      rw (stored, executing, stored, (==_iff run.owner_id run.owner_id).1 refl, executing) checked

alive_unexpired :
    (attempt_id cutoff : ℕ) (a : RunAttempt)
    → (a.attempt_id ≢ attempt_id) ⊎ ((a.status ≢ AttemptStatus.running) ⊎ (cutoff ≤ a.heartbeat_at))
    → still_expired attempt_id cutoff (some a) ≡ false
unfolding still_expired same_attempt_status
alive_unexpired attempt_id cutoff a alive = ground arith

-- A stored run that is executing is left alone if its latest attempt is another one, is not
-- running, or has had a heartbeat at the cutoff or later: the answer is no, and nothing changes.
pub recover_alive :
    (max_run_attempts attempt_id cutoff now : ℕ) (stamp : Stamp) (run : Run) (db : Db)
    (a : RunAttempt)
    → find_row run_key run.run_id db.runs ≡ some run
    → is_executing run.status ≡ true
    → latest_of (select_where (attempt_of run.run_id) db.attempts) ≡ some a
    → (a.attempt_id ≢ attempt_id) ⊎ ((a.status ≢ AttemptStatus.running) ⊎ (cutoff ≤ a.heartbeat_at))
    → recover max_run_attempts run.run_id attempt_id cutoff now stamp db ≡ (ok false, db)
unfolding recover recover_checked
recover_alive max_run_attempts attempt_id cutoff now stamp run db a stored executing last alive =
    transaction_rollback
      (get_by_id run.run_id
        >>= recover_read max_run_attempts run.run_id attempt_id cutoff now stamp)
      db db false
      (recover_reaches max_run_attempts attempt_id cutoff now stamp run db (rollback false) db
        stored executing (rw (last, alive_unexpired attempt_id cutoff a alive) refl))

module _ (max_run_attempts attempt_id now : ℕ) (stamp : Stamp) (run : Run) (db : Db) where
  -- The database after the attempt has been closed as crashed.
  abbrev pub crashed_db : Db
  crashed_db = record db {
    attempts =
        update_where (is_running_attempt attempt_id)
          (λ a. finish a AttemptStatus.failed now (some worker_crashed_error)) db.attempts;
  }

  same_used :
      count_where (attempt_of run.run_id) crashed_db.attempts
      ≡ count_where (attempt_of run.run_id) db.attempts
  unfolding finish
  same_used =
      count_where-update_where (λ (a : RunAttempt). a.run_id) (is_running_attempt attempt_id)
        (λ a. finish a AttemptStatus.failed now (some worker_crashed_error)) run.run_id db.attempts
        (λ a. refl)

  crashed-CanFail :
      CanFail max_run_attempts now stamp run worker_crashed (reconcile attempt_id) db
      → CanFail max_run_attempts now stamp run worker_crashed (reconcile attempt_id) crashed_db
  unfolding finish
  crashed-CanFail can = record {
    sound = record {
      log = can.sound.log;
      tried = updated-IsTried _ _ db.attempts (λ a. (refl, refl, refl)) can.sound.tried;
      scheduled = can.sound.scheduled;
    };
    stored = can.stored;
    executing = can.executing;
    fresh = can.fresh;
    few = omega (arith, same_used, can.few);
  }

  abbrev decision : ℕ → Bool → Result FailureOutcome × Db
  decision delay retried =
      if retried
      then (
        ok retry_scheduled,
        stepped_db run retry_wait
            (retried_event max_run_attempts now stamp run worker_crashed (reconcile attempt_id)
              crashed_db (now + delay))
            (rescheduled_db max_run_attempts now stamp run worker_crashed (reconcile attempt_id)
              crashed_db (now + delay)),
      )
      else (
        ok run_ended,
        stepped_db run failed
            (failed_event max_run_attempts now stamp run worker_crashed (reconcile attempt_id)
              crashed_db)
            crashed_db,
      )

  -- What the policy decides of a crash.
  abbrev pub crash_target : RunStatus
  crash_target =
      if is_retried max_run_attempts now stamp run worker_crashed (reconcile attempt_id) crashed_db
      then retry_wait
      else failed

  crash_decided :
      CanFail max_run_attempts now stamp run worker_crashed (reconcile attempt_id) crashed_db
      → (db' : Db) × (outcome : FailureOutcome) × (apply_run_failure max_run_attempts now stamp run
            worker_crashed
            (reconcile attempt_id)
            crashed_db
          ≡ (ok outcome, db'))
        × (db'.runs ≡ (moved_db run crash_target crashed_db).runs)
        × (db'.attempts ≡ crashed_db.attempts)
  crash_decided can =
      let (delay, _, returns) =
        apply_run_failure_returns max_run_attempts now stamp run worker_crashed
          (reconcile attempt_id) crashed_db can in
      split delay
        (is_retried max_run_attempts now stamp run worker_crashed (reconcile attempt_id) crashed_db)
        returns
    where
      split :
          (delay : ℕ) (retried : Bool)
          → apply_run_failure max_run_attempts now stamp run worker_crashed
              (reconcile attempt_id)
              crashed_db
            ≡ decision delay retried
          → (db' : Db) × (outcome : FailureOutcome) × (apply_run_failure max_run_attempts now stamp
                run worker_crashed
                (reconcile attempt_id)
                crashed_db
              ≡ (ok outcome, db'))
            × (db'.runs ≡ (moved_db run (if retried then retry_wait else failed) crashed_db).runs)
            × (db'.attempts ≡ crashed_db.attempts)
      split delay true q = (_, _, q, refl, refl)
      split delay false q = (_, _, q, refl, refl)

  module _ (cutoff : ℕ) (executing : run.status ≡ running) where
    is_taken : is_executing run.status ≡ true
    unfolding contains_status same_status
    is_taken = rw executing refl

    not_cancelling : same_status run.status cancel_requested ≡ false
    unfolding same_status
    not_cancelling = rw executing refl

    crashed_checked :
        (db' : Db) (outcome : FailureOutcome)
        → still_expired attempt_id cutoff
            (latest_of (select_where (attempt_of run.run_id) db.attempts))
          ≡ true
        → apply_run_failure max_run_attempts now stamp run worker_crashed
            (reconcile attempt_id)
            crashed_db
          ≡ (ok outcome, db')
        → recover_checked max_run_attempts attempt_id cutoff now stamp run
            (latest_of (select_where (attempt_of run.run_id) db.attempts))
            db
          ≡ (ok (commit true), db')
    unfolding recover_checked fail_crashed finish_if_running
    crashed_checked db' outcome expired q =
        rw (expired, not_cancelling)
          (bind_ok
            (apply_run_failure max_run_attempts now stamp run worker_crashed (reconcile attempt_id))
            (λ _. pure (commit true)) crashed_db db' outcome q)

  row_released : (b : Bool) → is_executing (if b then retry_wait else failed) ≡ false
  unfolding contains_status same_status
  row_released true = refl
  row_released false = refl

-- A stored running run whose latest attempt is running with a heartbeat before the cutoff is taken
-- back, up to 1024 attempts, with a fresh event identifier and in a database that satisfies the
-- invariant: the answer is yes, the attempt is closed as failed, and the row is in RETRY_WAIT or
-- FAILED as the failure policy decides, so that the run is no longer executing.
pub recover_crashed :
    (max_run_attempts attempt_id cutoff now : ℕ) (stamp : Stamp) (run : Run) (db : Db)
    → CanFail max_run_attempts now stamp run worker_crashed (reconcile attempt_id) db
    → still_expired attempt_id cutoff (latest_of (select_where (attempt_of run.run_id) db.attempts))
      ≡ true
    → (db' : Db) × (row : Run) × (recover max_run_attempts run.run_id attempt_id cutoff now stamp db
        ≡ (ok true, db'))
      × (find_row run_key run.run_id db'.runs ≡ some row)
      × (is_executing row.status ≡ false)
      × (row.status ≡ crash_target max_run_attempts attempt_id now stamp run db)
      × (db'.attempts ≡ (crashed_db max_run_attempts attempt_id now stamp run db).attempts)
unfolding recover
recover_crashed max_run_attempts attempt_id cutoff now stamp run db can expired =
    let (db', outcome, q, rows, attempts) =
      crash_decided max_run_attempts attempt_id now stamp run db
        (crashed-CanFail max_run_attempts attempt_id now stamp run db can) in
    (
      db',
      set_status target (run.event_sequence + 1) run,
      transaction_commit
          (get_by_id run.run_id
            >>= recover_read max_run_attempts run.run_id attempt_id cutoff now stamp)
          db db' true
          (recover_reaches max_run_attempts attempt_id cutoff now stamp run db (commit true) db'
            can.stored (is_taken max_run_attempts attempt_id now stamp run db cutoff can.executing)
            (crashed_checked max_run_attempts attempt_id now stamp run db cutoff can.executing db'
              outcome expired q)),
      ap (find_row run_key run.run_id) rows ∙ found_moved run target db can.stored,
      row_released max_run_attempts attempt_id now stamp run db _,
      refl,
      attempts,
    )
  where
    target : RunStatus
    target = crash_target max_run_attempts attempt_id now stamp run db
