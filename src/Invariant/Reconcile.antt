-- ===== src/Invariant/Reconcile.antt =====
-- The reconciler keeps the invariant.
use literature_research_agen.Base.{
  ℕ, ◌-◌, ◌≡◌, refl, Bool, true, false, Option, none, some, List, [], ◌∷◌, Json, empty_payload,
  find_row, if◌then◌else◌,
}
use literature_research_agen.Run.{Run, cancel_requested, cancelled, same_status}
use literature_research_agen.Run.Errors.{run_concurrent_modification}
use literature_research_agen.Event.{run_cancelled, system, reconcile, Stamp}
use literature_research_agen.Attempt.{RunAttempt, AttemptStatus}
use literature_research_agen.Db.{Db, Action, Outcome, commit, rollback, pure, require, ◌>>=◌, ◌>>◌}
use literature_research_agen.Db.Hoare.{
  Ensures, Ensures-bind, Leaves, Leaves-transaction, Leaves-bind,
}
use literature_research_agen.Db.Runs.{run_key, owned_by, get_by_id, get_by_id_for_update}
use literature_research_agen.Db.Attempts.{
  is_executing, finish_if_running, get_latest_by_run, list_expired_running,
}
use literature_research_agen.Lifecycle.Advance.{change_status, append_event}
use literature_research_agen.Lifecycle.Failure.{apply_run_failure}
use literature_research_agen.Lifecycle.Reconcile.{
  worker_crashed, worker_crashed_error, still_expired, finish_cancellation, fail_crashed,
  recover_checked, recover_locked, recover_read, recover, count_if, recover_all, reconcile_expired,
}
use literature_research_agen.History.Sound.{IsPast, IsLogged}
use literature_research_agen.Invariant.Sound.{IsSound, advance_then}
use literature_research_agen.Invariant.Actions.{finish_if_running-Holds, locked-IsPast}
use literature_research_agen.Invariant.Service.{Sound}
use literature_research_agen.Invariant.Failure.{apply_run_failure-IsSound}

module _ (max_run_attempts attempt_id cutoff now : ℕ) (stamp : Stamp) (run : Run) where
  abbrev Ready : Db → Type 0
  Ready db = IsSound db × IsPast run db.runs

  finish_if_running-Ready :
      (status : AttemptStatus) (error : Option Json) (db : Db)
      → Ready db
      → Ensures (λ _. Ready) (finish_if_running attempt_id status now error db)
  unfolding finish_if_running
  finish_if_running-Ready status error db h =
      (finish_if_running-Holds IsLogged db h.0 attempt_id status now error, h.1)

  finish_cancellation-IsSound :
      (db : Db) → Ready db → Ensures Sound (finish_cancellation attempt_id now stamp run db)
  unfolding finish_cancellation
  finish_cancellation-IsSound db h =
      Ensures-bind (λ _. Ready) Sound
        (finish_if_running attempt_id AttemptStatus.cancelled now none)
        (λ changed. if changed then cancelled_step else pure (rollback false)) db
        (finish_if_running-Ready AttemptStatus.cancelled none db h) decided
    where
      cancelled_step : Action (Outcome Bool)
      cancelled_step = change_status run cancel_requested cancelled stamp.now >>= λ updated.
          require updated (run_concurrent_modification run.run_id)
          >> (append_event run stamp run_cancelled system (reconcile attempt_id) empty_payload
              >> pure (commit true))

      decided :
          (changed : Bool) (db' : Db)
          → Ready db'
          → Ensures Sound ((if changed then cancelled_step else pure (rollback false)) db')
      decided true db' r =
          advance_then run cancel_requested cancelled stamp run_cancelled system
            (reconcile attempt_id) empty_payload Sound (pure (commit true))
            (run_concurrent_modification run.run_id) db' r.0 r.1 refl (λ db2 s. s)
      decided false db' r = tt

  fail_crashed-IsSound :
      (db : Db)
      → Ready db
      → Ensures Sound (fail_crashed max_run_attempts attempt_id now stamp run db)
  unfolding fail_crashed
  fail_crashed-IsSound db h =
      Ensures-bind (λ _. Ready) Sound
        (finish_if_running attempt_id AttemptStatus.failed now (some worker_crashed_error))
        (λ _.
          apply_run_failure max_run_attempts now stamp run worker_crashed (reconcile attempt_id)
          >> pure (commit true))
        db (finish_if_running-Ready AttemptStatus.failed (some worker_crashed_error) db h)
        λ _ db' r.
          Ensures-bind (λ _. IsSound) Sound
            (apply_run_failure max_run_attempts now stamp run worker_crashed (reconcile attempt_id))
            (λ _. pure (commit true)) db'
            (apply_run_failure-IsSound max_run_attempts now stamp run worker_crashed
              (reconcile attempt_id) db' r.0 r.1)
            (λ _ db2 s. s)

  recover_checked-IsSound :
      (latest : Option RunAttempt) (db : Db)
      → Ready db
      → Ensures Sound (recover_checked max_run_attempts attempt_id cutoff now stamp run latest db)
  unfolding recover_checked
  recover_checked-IsSound latest db h = expired (still_expired attempt_id cutoff latest)
    where
      by_status :
          (cancelling : Bool)
          → Ensures Sound (
              (if cancelling
                  then finish_cancellation attempt_id now stamp run
                  else fail_crashed max_run_attempts attempt_id now stamp run)
                db)
      by_status true = finish_cancellation-IsSound db h
      by_status false = fail_crashed-IsSound db h

      expired :
          (is_expired : Bool)
          → Ensures Sound (
              (if is_expired
                  then (if same_status run.status cancel_requested
                      then finish_cancellation attempt_id now stamp run
                      else fail_crashed max_run_attempts attempt_id now stamp run)
                  else pure (rollback false))
                db)
      expired true = by_status (same_status run.status cancel_requested)
      expired false = tt

module _ (max_run_attempts attempt_id cutoff now : ℕ) (stamp : Stamp) (db : Db)
    (h : IsSound db) where
  recover_locked-IsSound :
      (read : Option Run)
      → ((run : Run) → read ≡ some run → IsPast run db.runs)
      → Ensures Sound (recover_locked max_run_attempts attempt_id cutoff now stamp read db)
  unfolding recover_locked get_latest_by_run
  recover_locked-IsSound none past = tt
  recover_locked-IsSound (some run) past = checked (is_executing run.status)
    where
      checked :
          (executing : Bool)
          → Ensures Sound (
              (if executing
                  then (get_latest_by_run run.run_id
                      >>= recover_checked max_run_attempts attempt_id cutoff now stamp run)
                  else pure (rollback false))
                db)
      checked true =
          recover_checked-IsSound max_run_attempts attempt_id cutoff now stamp run _ db
            (h, past run refl)
      checked false = tt

  recover_read-IsSound :
      (run_id : ℕ) (read : Option Run)
      → Ensures Sound (recover_read max_run_attempts run_id attempt_id cutoff now stamp read db)
  unfolding recover_read get_by_id_for_update
  recover_read-IsSound run_id none = tt
  recover_read-IsSound run_id (some run) = checked (is_executing run.status)
    where
      checked :
          (executing : Bool)
          → Ensures Sound (
              (if executing
                  then (get_by_id_for_update run_id run.owner_id
                      >>= recover_locked max_run_attempts attempt_id cutoff now stamp)
                  else pure (rollback false))
                db)
      checked true =
          recover_locked-IsSound (owned_by run.owner_id (find_row run_key run_id db.runs))
            λ r e. locked-IsPast run_id run.owner_id r db.runs db.events h.log e
      checked false = tt

  pub recover-IsSound :
      (run_id : ℕ) → Leaves IsSound (recover max_run_attempts run_id attempt_id cutoff now stamp db)
  unfolding recover get_by_id
  recover-IsSound run_id =
      Leaves-transaction IsSound
        (get_by_id run_id >>= recover_read max_run_attempts run_id attempt_id cutoff now stamp) db h
        (recover_read-IsSound run_id (find_row run_key run_id db.runs))

module _ (max_run_attempts cutoff now : ℕ) (stamps : ℕ → Stamp) where
  recover_all-IsSound :
      (candidates : List RunAttempt) (db : Db)
      → IsSound db
      → Leaves IsSound (recover_all max_run_attempts cutoff now stamps candidates db)
  unfolding recover_all
  recover_all-IsSound [] db h = h
  recover_all-IsSound (c ∷ candidates) db h =
      Leaves-bind IsSound
        (recover max_run_attempts c.run_id c.attempt_id cutoff now (stamps c.attempt_id))
        (λ done. recover_all max_run_attempts cutoff now stamps candidates >>= λ recovered.
          pure (count_if done recovered))
        db
        (recover-IsSound max_run_attempts c.attempt_id cutoff now (stamps c.attempt_id) db h
          c.run_id)
        λ done db' s.
          Leaves-bind IsSound (recover_all max_run_attempts cutoff now stamps candidates)
            (λ recovered. pure (count_if done recovered)) db' (recover_all-IsSound candidates db' s)
            (λ recovered db2 s2. s2)

pub reconcile_expired-IsSound :
    (max_run_attempts lease_seconds batch_size now : ℕ) (stamps : ℕ → Stamp) (db : Db)
    → IsSound db
    → Leaves IsSound (reconcile_expired max_run_attempts lease_seconds batch_size now stamps db)
unfolding reconcile_expired
reconcile_expired-IsSound max_run_attempts lease_seconds batch_size now stamps db h =
    recover_all-IsSound max_run_attempts (now - lease_seconds) now stamps
      (list_expired_running (now - lease_seconds) batch_size db) db h
