-- ===== src/Progress/Claim.antt =====
-- Of several workers that read the same queued run, one claims it.
use literature_research_agen.Base.{
  ℕ, suc, ◌+◌, ◌≤◌, ◌≡◌, refl, ◌∙◌, ap, subst, Bool, true, false, Option, none, some, List, [], ◌∷◌,
  ◌++◌, length, arith, number, payload_of, ◌==◌, if◌then◌else◌, select_where, count_where, find_row,
  count_where_found, count_where-select_where, update_where-IsUnique, update_where_none, IsUnique,
}
use literature_research_agen.Run.{
  Run, RunStatus, queued, running, same_status, same_status_refl, contains_status, transitions,
}
use literature_research_agen.Run.Errors.{ok}
use literature_research_agen.Run.Machine.{transition_to_listed}
use literature_research_agen.Event.{Event, run_started, system, create_event}
use literature_research_agen.Attempt.{RunAttempt, create_run_attempt}
use literature_research_agen.Db.{Db, commit, rollback, pure, transaction, ◌>>◌}
use literature_research_agen.Db.Returns.{bind_ok, transaction_commit, transaction_rollback}
use literature_research_agen.Db.Runs.{run_key, has_status, set_status, update_status}
use literature_research_agen.Db.Attempts.{
  attempt_key, attempt_of, same_number, add_attempt, count_by_run,
}
use literature_research_agen.Lifecycle.Advance.{change_status, append_event}
use literature_research_agen.Lifecycle.Execution.{Claim, claimed_run, record_attempt, claim_row}
use literature_research_agen.Invariant.Attempts.{NumberedAttempts, length-select_where}
use literature_research_agen.Invariant.Sound.{IsSound}
use literature_research_agen.Progress.Step.{
  CanStep, found_moved, moved_db, stepped_db, change_status_returns, append_event_returns,
}

has_number : ℕ → RunAttempt → Bool
has_number n a = a.attempt_number == n

NumberedAttempts-free :
    (n s : ℕ) (xs : List RunAttempt)
    → NumberedAttempts n xs
    → n + length xs ≤ s
    → count_where (has_number s) xs ≡ 0
unfolding count_where has_number
NumberedAttempts-free n s [] h hi = refl
NumberedAttempts-free n s (x ∷ xs) h hi = ground (arith, NumberedAttempts-free (suc n) s xs h.1)

module _ (claim : Claim) (run : Run) (db : Db) where
  -- The attempt that a claim records, and the database with it and the event of the start.
  abbrev pub claimed_attempt : RunAttempt
  claimed_attempt =
      create_run_attempt claim.attempt_id claim.stamp.now run.run_id
        (count_where (attempt_of run.run_id) db.attempts + 1) claim.worker_id

  abbrev pub start_event : Event
  start_event =
      create_event claim.stamp run.run_id run.event_sequence run_started system claim.correlation_id
        (payload_of "attempt" (number (count_where (attempt_of run.run_id) db.attempts + 1)))

  abbrev tried_db : Db
  tried_db = record db { attempts = db.attempts ++ claimed_attempt ∷ [] }

  abbrev pub claimed_db : Db
  claimed_db = stepped_db run running start_event tried_db

  abbrev claim_result : Option (Run × Option RunAttempt)
  claim_result = some (claimed_run run claim.stamp.now, some claimed_attempt)

  -- A stored queued run, and identifiers for the attempt and the event that are not in use.
  pub record CanClaim : Type 0 where
    pub sound : IsSound db
    pub stored : find_row run_key run.run_id db.runs ≡ some run
    pub waiting : run.status ≡ queued
    pub fresh_event : find_row (λ (e : Event). e.event_id) claim.stamp.fresh_id db.events ≡ none
    pub fresh_attempt : find_row attempt_key claim.attempt_id db.attempts ≡ none

  module _ (can : CanClaim) where
    listed : contains_status (transitions run.status) running ≡ true
    unfolding transitions contains_status
    listed = rw can.waiting refl

    step : CanStep run running claim.stamp tried_db
    step = record {
      logged = can.sound.log;
      stored = can.stored;
      listed = listed;
      fresh = can.fresh_event;
    }

    number_free : count_where (same_number claimed_attempt) db.attempts ≡ 0
    unfolding has_number create_run_attempt
    number_free =
        count_where-select_where (attempt_of run.run_id)
          (has_number (count_where (attempt_of run.run_id) db.attempts + 1)) db.attempts
        ∙ NumberedAttempts-free 1 (count_where (attempt_of run.run_id) db.attempts + 1)
            (select_where (attempt_of run.run_id) db.attempts) (can.sound.tried.numbered run.run_id)
            (omega (arith, length-select_where (attempt_of run.run_id) db.attempts))

    add_attempt_returns :
        add_attempt claimed_attempt (moved_db run running db)
        ≡ (ok claimed_attempt, moved_db run running tried_db)
    unfolding add_attempt create_run_attempt
    add_attempt_returns = rw (can.fresh_attempt, number_free) refl

    record_attempt_returns :
        record_attempt claim run (moved_db run running db) ≡ (ok (commit claim_result), claimed_db)
    unfolding record_attempt count_by_run
    record_attempt_returns =
        bind_ok (add_attempt claimed_attempt)
          (λ _.
            append_event run claim.stamp run_started system claim.correlation_id
              (payload_of "attempt" (number (count_where (attempt_of run.run_id) db.attempts + 1)))
            >> pure (commit claim_result))
          (moved_db run running db) (moved_db run running tried_db) claimed_attempt
          add_attempt_returns
        ∙ bind_ok
            (append_event run claim.stamp run_started system claim.correlation_id
              (payload_of "attempt" (number (count_where (attempt_of run.run_id) db.attempts + 1))))
            (λ _. pure (commit claim_result)) (moved_db run running tried_db) claimed_db start_event
            (append_event_returns run running claim.stamp run_started system claim.correlation_id
              (payload_of "attempt" (number (count_where (attempt_of run.run_id) db.attempts + 1)))
              tried_db step)

    is_queued : same_status run.status queued ≡ true
    is_queued = ap (λ s. same_status s queued) can.waiting ∙ same_status_refl queued

    claim_returns : claim_row claim (some run) db ≡ (ok (commit claim_result), claimed_db)
    unfolding claim_row
    claim_returns = rw is_queued (
        bind_ok (change_status run queued running claim.stamp.now)
          (λ claimed.
            if claimed then record_attempt claim run else pure (rollback (some (run, none))))
          db (moved_db run running db) true
          (subst
            (λ s.
              change_status run s running claim.stamp.now db ≡ (ok true, moved_db run running db))
            can.waiting
            (change_status_returns run running claim.stamp.now db can.sound.log can.stored listed))
        ∙ record_attempt_returns)

-- A conditional update from a status that the row has left counts no row and changes none.
change_status_lost :
    (run row : Run) (target : RunStatus) (now : ℕ) (db : Db)
    → IsUnique run_key db.runs
    → find_row run_key run.run_id db.runs ≡ some row
    → same_status row.status run.status ≡ false
    → contains_status (transitions run.status) target ≡ true
    → change_status run run.status target now db ≡ (ok false, db)
unfolding change_status update_status
change_status_lost run row target now db unique stored left listed =
    rw
      (
        transition_to_listed run target now listed,
        none_counted,
        update_where_none (has_status run.run_id run.status)
            (set_status target (run.event_sequence + 1)) db.runs none_counted,
      )
      refl
  where
    none_counted : count_where (has_status run.run_id run.status) db.runs ≡ 0
    none_counted =
        count_where_found run_key run.run_id (λ r. same_status r.status run.status) db.runs row
          (unique run.run_id) stored
        ∙ ap (λ b. if b then 1 else 0) left

not_running : same_status running queued ≡ false
unfolding same_status
not_running = refl

module _ (claim other : Claim) (run : Run) (db : Db) (can : CanClaim claim run db) where
  claim_lost :
      claim_row other (some run) (claimed_db claim run db)
      ≡ (ok (rollback (some (run, none))), claimed_db claim run db)
  unfolding claim_row
  claim_lost = rw (is_queued claim run db can) (
      bind_ok (change_status run queued running other.stamp.now)
        (λ claimed.
          if claimed then record_attempt other run else pure (rollback (some (run, none))))
        (claimed_db claim run db) (claimed_db claim run db) false
        (subst
          (λ s.
            change_status run s running other.stamp.now (claimed_db claim run db)
            ≡ (ok false, claimed_db claim run db))
          can.waiting
          (change_status_lost run (set_status running (run.event_sequence + 1) run) running
            other.stamp.now (claimed_db claim run db)
            (update_where-IsUnique run_key (has_status run.run_id run.status)
              (set_status running (run.event_sequence + 1)) db.runs (λ r. refl)
              can.sound.log.unique)
            (found_moved run running db can.stored)
            (ap (same_status running) can.waiting ∙ not_running) (listed claim run db can))))

-- The first claim of a stored queued run, with identifiers that are not in use and in a database
-- that satisfies the invariant, returns the running run and its attempt, numbered one past the
-- attempts before, and commits the row, the attempt and the event. Any second claim from the same
-- reading of the row gets no attempt and changes nothing.
pub claim_row_once :
    (claim other : Claim) (run : Run) (db : Db)
    → CanClaim claim run db
    → (transaction (claim_row claim (some run)) db ≡ (
      ok (some (claimed_run run claim.stamp.now, some (claimed_attempt claim run db))),
      claimed_db claim run db,
    ))
      × (transaction (claim_row other (some run)) (claimed_db claim run db)
          ≡ (ok (some (run, none)), claimed_db claim run db))
claim_row_once claim other run db can = (
  transaction_commit (claim_row claim (some run)) db (claimed_db claim run db)
      (claim_result claim run db) (claim_returns claim run db can),
  transaction_rollback (claim_row other (some run)) (claimed_db claim run db)
      (claimed_db claim run db) (some (run, none)) (claim_lost claim other run db can),
)
