-- ===== src/Progress/Stale.antt =====
-- Claims and requeues from a row that has moved on since it was read.
use literature_research_agen.Base.{
  ℕ, ◌+◌, ◌≤◌, ◌<◌, ◌≡◌, refl, ap, subst, ◌⊎◌, inl, inr, Bool, true, false, ◌||◌, Option, none,
  some, number, payload_of, empty_payload, Json, arith, leb, if◌then◌else◌, find_row, select_where,
  count_where, count_where-select_where, ◌==◌, ◌&&◌, sym, is_some, not, ◌++◌, [], ◌∷◌,
}
use literature_research_agen.Run.{
  Run, RunStatus, queued, running, retry_wait, same_status, contains_status, transition_to,
}
use literature_research_agen.Run.Errors.{Error, Result, ok, err, integrity_error}
use literature_research_agen.Event.{
  Event, EventType, ActorType, CorrelationId, Stamp, create_event, run_started, run_requeued,
  system, outbox,
}
use literature_research_agen.Attempt.{RunAttempt, create_run_attempt}
use literature_research_agen.Outbox.{QueueOutbox}
use literature_research_agen.Db.{
  Db, Action, Outcome, commit, rollback, pure, lift, transaction, ◌>>=◌, ◌>>◌,
}
use literature_research_agen.Db.Hoare.{Ensures, Ensures-unless, Ensures-bind}
use literature_research_agen.Db.Runs.{run_key, update_status}
use literature_research_agen.Db.Events.{of_run, clashes, add_event}
use literature_research_agen.Db.Attempts.{
  attempt_of, add_attempt, count_by_run, attempt_key, same_number,
}
use literature_research_agen.Lifecycle.Advance.{change_status, append_event}
use literature_research_agen.Lifecycle.Execution.{Claim, claimed_run, record_attempt, claim_row}
use literature_research_agen.Lifecycle.Dispatch.{
  Preparation, dispatch, skipped, prepare_row, is_droppable,
}
use literature_research_agen.History.Replay.{has_sequence, Numbered-taken}
use literature_research_agen.History.Sound.{IsLogged, Faithful}

-- The action does not commit, and its answer is `a` unless it raises.
abbrev Aborts : {A : Type 0} → A → Outcome A → Db → Type 0
Aborts a (commit b) db = ⊥
Aborts a (rollback b) db = b ≡ a

-- What is left of a transaction that does not commit.
abbrev pub Unchanged : {A : Type 0} → Action (Outcome A) → A → Db → Type 0
Unchanged m a db =
    (transaction m db ≡ (ok a, db)) ⊎ ((e : Error) × (transaction m db ≡ (err e, db)))

aborted_result :
    {A : Type 0} (p : Result (Outcome A) × Db) (a : A) (db : Db)
    → Ensures (Aborts a) p
    → Unchanged (λ _. p) a db
unfolding transaction
aborted_result (ok (commit b), db') a db h = absurd h
aborted_result (ok (rollback b), db') a db h = inl (ap (λ x. (ok x, db)) h)
aborted_result (err e, db') a db h = inr (e, refl)

aborted :
    {A : Type 0} (m : Action (Outcome A)) (a : A) (db : Db)
    → Ensures (Aborts a) (m db)
    → Unchanged m a db
unfolding transaction
aborted m a db h = aborted_result (m db) a db h

taken_refused : (a b : Bool) (n : ℕ) → 1 ≤ n → (a || (leb 1 n || b)) ≡ false → ⊥
taken_refused a b n h q = ground arith

module _ (run row : Run) (db : Db) (logged : IsLogged db.runs db.events)
    (stored : find_row run_key run.run_id db.runs ≡ some row) (lo : 1 ≤ run.event_sequence)
    (stale : run.event_sequence < row.event_sequence) where
  number_taken :
      1
      ≤ count_where
          (λ (e : Event). e.run_id == run.run_id && e.sequence == run.event_sequence)
          db.events
  number_taken =
      let log = select_where (of_run run.run_id) db.events in
      let f = subst (λ o. Faithful o log) stored (logged.faithful run.run_id) in
      let taken = Numbered-taken 1 run.event_sequence log f.0 lo (omega (arith, f.1, stale)) in
      omega (
        arith,
        taken,
        count_where-select_where (of_run run.run_id) (has_sequence run.event_sequence) db.events,
      )

  append_refused :
      (stamp : Stamp) (t : EventType) (actor : ActorType) (correlation : CorrelationId)
      (payload : Json) (db' : Db)
      → db'.events ≡ db.events
      → Ensures (λ _ _. ⊥) (append_event run stamp t actor correlation payload db')
  unfolding append_event add_event create_event
  append_refused stamp t actor correlation payload db' same =
      Ensures-unless (λ (_ : Event) _. ⊥)
        (is_some (find_row (λ (e : Event). e.event_id) event.event_id db'.events)
          || (leb 1 (count_where (clashes event) db'.events)
              || not (is_some (find_row run_key event.run_id db'.runs))))
        integrity_error db' event (record db' { events = db'.events ++ event ∷ [] })
        (taken_refused _ _ _
          (subst (λ es. 1 ≤ count_where (clashes event) es) (sym same) number_taken))
    where
      event : Event
      event = create_event stamp run.run_id run.event_sequence t actor correlation payload

  change_status_events :
      (expected target : RunStatus) (now : ℕ)
      → Ensures (λ _ db'. db'.events ≡ db.events) (change_status run expected target now db)
  unfolding change_status update_status
  change_status_events expected target now = by_result (transition_to run target now)
    where
      by_result :
          (moved : Result Run)
          → Ensures
              (λ (_ : Bool) db'. db'.events ≡ db.events)
              ((lift moved >> update_status run.run_id expected target (run.event_sequence + 1)) db)
      by_result (err e) = tt
      by_result (ok r) = refl

  module _ (claim : Claim) where
    abbrev next_attempt : ℕ → RunAttempt
    next_attempt used =
        create_run_attempt claim.attempt_id claim.stamp.now run.run_id (used + 1) claim.worker_id

    add_attempt_events :
        (a : RunAttempt) (db' : Db)
        → db'.events ≡ db.events
        → Ensures (λ _ db2. db2.events ≡ db.events) (add_attempt a db')
    unfolding add_attempt
    add_attempt_events a db' same =
        Ensures-unless (λ (_ : RunAttempt) db2. db2.events ≡ db.events)
          (is_some (find_row attempt_key a.attempt_id db'.attempts)
            || leb 1 (count_where (same_number a) db'.attempts))
          integrity_error db' a (record db' { attempts = db'.attempts ++ a ∷ [] }) (λ _. same)

    record_attempt_refused :
        (db' : Db)
        → db'.events ≡ db.events
        → Ensures (Aborts (some (run, none))) (record_attempt claim run db')
    unfolding record_attempt count_by_run create_run_attempt
    record_attempt_refused db' same =
        let used = count_where (attempt_of run.run_id) db'.attempts in
        let done : Action (Outcome (Option (Run × Option RunAttempt))) =
          pure (commit (some (claimed_run run claim.stamp.now, some (next_attempt used)))) in
        let append =
          append_event run claim.stamp run_started system claim.correlation_id
            (payload_of "attempt" (number (used + 1))) in
        Ensures-bind (λ _ db2. db2.events ≡ db.events) (Aborts (some (run, none)))
          (add_attempt (next_attempt used)) (λ _. append >> done) db'
          (add_attempt_events (next_attempt used) db' same)
          λ _ db2 q.
            Ensures-bind (λ _ _. ⊥) (Aborts (some (run, none))) append (λ _. done) db2
              (append_refused claim.stamp run_started system claim.correlation_id
                (payload_of "attempt" (number (used + 1))) db2 q)
              (λ _ _ no. absurd no)

    claim_row-Aborts : Ensures (Aborts (some (run, none))) (claim_row claim (some run) db)
    unfolding claim_row
    claim_row-Aborts = checked (same_status run.status queued)
      where
        decided :
            (changed : Bool) (db' : Db)
            → db'.events ≡ db.events
            → Ensures (Aborts (some (run, none))) (
                (if changed then record_attempt claim run else pure (rollback (some (run, none))))
                  db')
        decided true db' same = record_attempt_refused db' same
        decided false db' same = refl

        checked :
            (is_queued : Bool)
            → Ensures (Aborts (some (run, none))) (
                (if is_queued
                    then (change_status run queued running claim.stamp.now >>= λ changed.
                        if changed
                        then record_attempt claim run
                        else pure (rollback (some (run, none))))
                    else pure (rollback (some (run, none))))
                  db)
        checked true =
            Ensures-bind (λ _ db'. db'.events ≡ db.events) (Aborts (some (run, none)))
              (change_status run queued running claim.stamp.now)
              (λ changed.
                if changed then record_attempt claim run else pure (rollback (some (run, none))))
              db (change_status_events queued running claim.stamp.now) decided
        checked false = refl

  module _ (now : ℕ) (stamp : Stamp) (entry : QueueOutbox) (waiting : run.status ≡ retry_wait) where
    abbrev requeue : Action (Outcome Preparation)
    requeue = change_status run retry_wait queued stamp.now >>= λ updated.
        if updated
        then (append_event run stamp run_requeued system (outbox entry.outbox_id) empty_payload
            >> pure (commit dispatch))
        else pure (rollback skipped)

    requeue-Aborts : Ensures (Aborts skipped) (requeue db)
    requeue-Aborts =
        Ensures-bind (λ _ db'. db'.events ≡ db.events) (Aborts skipped)
          (change_status run retry_wait queued stamp.now)
          (λ updated.
            if updated
            then (append_event run stamp run_requeued system (outbox entry.outbox_id) empty_payload
                >> pure (commit dispatch))
            else pure (rollback skipped))
          db (change_status_events retry_wait queued stamp.now) decided
      where
        decided :
            (updated : Bool) (db' : Db)
            → db'.events ≡ db.events
            → Ensures (Aborts skipped) (
                (if updated
                    then (append_event run stamp run_requeued system
                          (outbox entry.outbox_id)
                          empty_payload
                        >> pure (commit dispatch))
                    else pure (rollback skipped))
                  db')
        decided true db' same =
            Ensures-bind (λ _ _. ⊥) (Aborts skipped)
              (append_event run stamp run_requeued system (outbox entry.outbox_id) empty_payload)
              (λ _. pure (commit dispatch)) db'
              (append_refused stamp run_requeued system (outbox entry.outbox_id) empty_payload db'
                same)
              (λ _ _ no. absurd no)
        decided false db' same = refl

    not_dropped : is_droppable run.status ≡ false
    unfolding is_droppable contains_status same_status
    not_dropped = rw waiting refl

    is_waiting : same_status run.status retry_wait ≡ true
    unfolding same_status
    is_waiting = rw waiting refl

    prepare_row-Aborts : Ensures (Aborts skipped) (prepare_row now stamp entry (some run) db)
    unfolding prepare_row
    prepare_row-Aborts = rw (not_dropped, is_waiting) requeue-Aborts

-- A claim from a row that the run has left since it was read, so that the stored row has a larger
-- number, starts nothing: it gets no attempt or raises, and the database is as before. The rows
-- must agree with their events.
pub claim_row_stale :
    (run row : Run) (db : Db) (claim : Claim)
    → IsLogged db.runs db.events
    → find_row run_key run.run_id db.runs ≡ some row
    → 1 ≤ run.event_sequence
    → run.event_sequence < row.event_sequence
    → Unchanged (claim_row claim (some run)) (some (run, none)) db
claim_row_stale run row db claim logged stored lo stale =
    aborted (claim_row claim (some run)) (some (run, none)) db
      (claim_row-Aborts run row db logged stored lo stale claim)

-- A requeue of a run that was read in RETRY_WAIT, whose stored row has a larger number by now,
-- does nothing: the entry is skipped or the transaction raises, and the database is as before. The
-- rows must agree with their events.
pub prepare_row_stale :
    (run row : Run) (db : Db) (now : ℕ) (stamp : Stamp) (entry : QueueOutbox)
    → IsLogged db.runs db.events
    → find_row run_key run.run_id db.runs ≡ some row
    → 1 ≤ run.event_sequence
    → run.event_sequence < row.event_sequence
    → run.status ≡ retry_wait
    → Unchanged (prepare_row now stamp entry (some run)) skipped db
prepare_row_stale run row db now stamp entry logged stored lo stale waiting =
    aborted (prepare_row now stamp entry (some run)) skipped db
      (prepare_row-Aborts run row db logged stored lo stale now stamp entry waiting)
