-- ===== src/Invariant/Execute.antt =====
-- A whole execution keeps the invariant if its executor does, and the dispatcher by run type is such
-- an executor.
use literature_research_agen.Base.{
  ℕ, ◌≡◌, refl, sym, subst, Bool, true, false, Option, none, some, payload_of, find_row,
  if◌then◌else◌,
}
use literature_research_agen.Run.{
  Run, RunStatus, RunType, running, failed, same_status, parse_run_type,
}
use literature_research_agen.Run.Errors.{Result, ok, err, run_concurrent_modification}
use literature_research_agen.Event.{run_failed, system, CorrelationId, Stamp}
use literature_research_agen.Attempt.{RunAttempt}
use literature_research_agen.Db.{Db, commit, pure, require, ◌>>=◌, ◌>>◌}
use literature_research_agen.Db.Hoare.{Ensures, Leaves, Leaves-transaction, Leaves-bind}
use literature_research_agen.Db.Runs.{run_key, owned_by, get_by_id, get_by_id_for_update}
use literature_research_agen.Lifecycle.Advance.{change_status, append_event}
use literature_research_agen.Lifecycle.Failure.{Failure}
use literature_research_agen.Lifecycle.Execution.{
  Claim, start, close_attempt, get_status, Ending, returned, raised, Executor, Closing,
  after_executor, run_started_attempt, execute, ExecutionOutcome, outcome_of,
}
use literature_research_agen.Lifecycle.Unknown.{
  unknown_run_type, fail_unknown_row, fail_unknown, ending_of, chosen, dispatch_run,
}
use literature_research_agen.History.Sound.{IsPast}
use literature_research_agen.Invariant.Sound.{IsSound, advance_then}
use literature_research_agen.Invariant.Actions.{locked-IsPast}
use literature_research_agen.Invariant.Service.{Sound}
use literature_research_agen.Invariant.Execution.{
  start-IsSound, close_attempt-IsSound, fail_execution-IsSound,
}

-- An executor that keeps the invariant, however it ends.
abbrev pub KeepsSound : Executor → Type 0
KeepsSound executor =
    (run : Run) (correlation : CorrelationId) (db : Db)
    → IsSound db
    → IsSound (executor run correlation db).1

after_executor-IsSound :
    (closing : Closing) (claim : Claim) (run_id attempt_id : ℕ) (ending : Ending) (db : Db)
    → IsSound db
    → Leaves IsSound (after_executor closing claim run_id attempt_id ending db)
unfolding after_executor get_status get_by_id
after_executor-IsSound closing claim run_id attempt_id (raised failure) db h =
    fail_execution-IsSound closing.max_run_attempts closing.now closing.stamp failure
      claim.correlation_id run_id attempt_id db h
after_executor-IsSound closing claim run_id attempt_id returned db h =
    closed (get_status run_id db).0
  where
    closed :
        (status : Result (Option RunStatus))
        → Leaves IsSound (
            ((λ db'. (status, db')) >>= λ final_status.
            close_attempt attempt_id final_status closing.now >> pure (outcome_of final_status))
              db)
    closed (ok final_status) =
        Leaves-bind IsSound (close_attempt attempt_id final_status closing.now)
          (λ _. pure (outcome_of final_status)) db
          (close_attempt-IsSound attempt_id final_status closing.now db h) (λ _ db' s. s)
    closed (err e) = h

run_started_attempt-IsSound :
    (executor : Executor) (closing : Closing) (claim : Claim) (run_id : ℕ)
    (started : Option (Run × Option RunAttempt)) (db : Db)
    → KeepsSound executor
    → IsSound db
    → Leaves IsSound (run_started_attempt executor closing claim run_id started db)
unfolding run_started_attempt
run_started_attempt-IsSound executor closing claim run_id none db keeps h = h
run_started_attempt-IsSound executor closing claim run_id (some (run, none)) db keeps h = h
run_started_attempt-IsSound executor closing claim run_id (some (run, some attempt)) db keeps h =
    checked (same_status run.status running)
  where
    checked :
        (is_running : Bool)
        → Leaves {A = ExecutionOutcome} IsSound (
            if is_running
            then after_executor closing claim run_id attempt.attempt_id
                (executor run claim.correlation_id db).0
                (executor run claim.correlation_id db).1
            else (ok ExecutionOutcome.skipped, db))
    checked true =
        after_executor-IsSound closing claim run_id attempt.attempt_id _ _
          (keeps run claim.correlation_id db h)
    checked false = h

pub execute-IsSound :
    (executor : Executor) (closing : Closing) (claim : Claim) (run_id : ℕ) (db : Db)
    → KeepsSound executor
    → IsSound db
    → Leaves IsSound (execute executor closing claim run_id db)
unfolding execute
execute-IsSound executor closing claim run_id db keeps h =
    Leaves-bind IsSound (start claim run_id) (run_started_attempt executor closing claim run_id) db
      (start-IsSound run_id db h claim)
      (λ started db' s.
        run_started_attempt-IsSound executor closing claim run_id started db' keeps s)

module _ (stamp : Stamp) (correlation : CorrelationId) (db : Db) (h : IsSound db) where
  fail_unknown_row-IsSound :
      (run_id : ℕ) (read : Option Run)
      → ((run : Run) → read ≡ some run → IsPast run db.runs)
      → Ensures Sound (fail_unknown_row stamp correlation run_id read db)
  unfolding fail_unknown_row
  fail_unknown_row-IsSound run_id none past = tt
  fail_unknown_row-IsSound run_id (some run) past = checked (same_status run.status running)
    where
      checked :
          (is_running : Bool)
          → Ensures (Sound {A = Unit {0}}) (
              (if is_running
                  then (change_status run running failed stamp.now >>= λ updated.
                      require updated (run_concurrent_modification run.run_id)
                      >> (append_event run stamp run_failed system correlation
                            (payload_of "error" unknown_run_type)
                          >> pure (commit tt)))
                  else pure (commit tt))
                db)
      checked true =
          advance_then run running failed stamp run_failed system correlation
            (payload_of "error" unknown_run_type) Sound (pure (commit tt))
            (run_concurrent_modification run.run_id) db h (past run refl) refl (λ db' s. s)
      checked false = h

  fail_unknown-IsSound : (run : Run) → Leaves IsSound (fail_unknown stamp run correlation db)
  unfolding fail_unknown get_by_id_for_update
  fail_unknown-IsSound run =
      Leaves-transaction IsSound
        (get_by_id_for_update run.run_id run.owner_id
          >>= fail_unknown_row stamp correlation run.run_id)
        db h
        (fail_unknown_row-IsSound run.run_id
          (owned_by run.owner_id (find_row run_key run.run_id db.runs))
          λ r e. locked-IsPast run.run_id run.owner_id r db.runs db.events h.log e)

pub ending_of-db : (failure : Failure) (p : Result (Unit {0}) × Db) → (ending_of failure p).1 ≡ p.1
ending_of-db failure (ok done, db) = refl
ending_of-db failure (err e, db) = refl

-- The dispatcher keeps the invariant if every registered executor does.
pub dispatch_run-KeepsSound :
    (executors : RunType → Option Executor) (stamp : Stamp) (failure : Failure)
    → ((t : RunType) (executor : Executor) → executors t ≡ some executor → KeepsSound executor)
    → KeepsSound (dispatch_run executors stamp failure)
unfolding dispatch_run
dispatch_run-KeepsSound executors stamp failure all run correlation db h =
    by_type (parse_run_type run.run_type)
  where
    to_chosen :
        (choice : Option Executor)
        → ((executor : Executor) → choice ≡ some executor → KeepsSound executor)
        → IsSound
            (elim choice as (λ _. Ending × Db) [
              | none ↦ ending_of failure (fail_unknown stamp run correlation db)
              | some executor ↦ executor run correlation db
            ]).1
    to_chosen none k =
        subst IsSound (sym (ending_of-db failure (fail_unknown stamp run correlation db)))
          (fail_unknown-IsSound stamp correlation db h run)
    to_chosen (some executor) k = k executor refl run correlation db h

    by_type :
        (t : Option RunType)
        → IsSound
            (elim (chosen executors t) as (λ _. Ending × Db) [
              | none ↦ ending_of failure (fail_unknown stamp run correlation db)
              | some executor ↦ executor run correlation db
            ]).1
    by_type none = to_chosen none (λ executor e. cc)
    by_type (some t) = to_chosen (executors t) (all t)
