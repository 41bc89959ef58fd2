-- ===== src/Invariant/Dispatch.antt =====
-- The outbox dispatcher and the invariant.
use literature_research_agen.Base.{
  ℕ, ◌+◌, ◌≡◌, refl, Bool, true, false, Option, none, some, List, [], ◌∷◌, empty_payload, find_row,
  if◌then◌else◌,
}
use literature_research_agen.Run.{Run, queued, retry_wait, same_status}
use literature_research_agen.Run.Errors.{Result, ok, err}
use literature_research_agen.Event.{run_requeued, system, outbox, Stamp}
use literature_research_agen.Outbox.{QueueOutbox, record_dispatch_failure}
use literature_research_agen.Db.{Db, Action, Outcome, commit, rollback, pure, lift, ◌>>=◌, ◌>>◌}
use literature_research_agen.Db.Hoare.{
  Ensures, Ensures-bind, Leaves, Leaves-transaction, Leaves-bind,
}
use literature_research_agen.Db.Runs.{run_key, get_by_id}
use literature_research_agen.Db.Outboxes.{try_mark_dispatched, save, list_due_pending}
use literature_research_agen.Lifecycle.Advance.{change_status, append_event}
use literature_research_agen.Lifecycle.Dispatch.{
  Preparation, dispatch, dropped, skipped, is_droppable, drop_entry, prepare_row, prepare_run,
  mark_entry, record_failure, deliver, Round, dispatch_entry, dispatch_all, dispatch_pending,
}
use literature_research_agen.History.Sound.{IsPast, IsLogged}
use literature_research_agen.Invariant.Sound.{IsSound, Moving, change_status-Holds, append_then}
use literature_research_agen.Invariant.Actions.{try_mark_dispatched-Holds, save-Holds, read-IsPast}
use literature_research_agen.Invariant.Service.{Sound}

module _ (now : ℕ) (stamp : Stamp) (entry : QueueOutbox) (db : Db) (h : IsSound db) where
  drop_entry-IsSound : Ensures Sound (drop_entry now entry db)
  unfolding drop_entry try_mark_dispatched
  drop_entry-IsSound = try_mark_dispatched-Holds IsLogged db h entry.outbox_id now

  requeue : Run → Action (Outcome Preparation)
  requeue run = change_status run retry_wait queued stamp.now >>= λ updated.
      if updated
      then (append_event run stamp run_requeued system (outbox entry.outbox_id) empty_payload
          >> pure (commit dispatch))
      else pure (rollback skipped)

  requeue-IsSound : (run : Run) → IsPast run db.runs → Ensures Sound (requeue run db)
  unfolding requeue
  requeue-IsSound run past =
      Ensures-bind (Moving run retry_wait queued) Sound
        (change_status run retry_wait queued stamp.now)
        (λ updated.
          if updated
          then (append_event run stamp run_requeued system (outbox entry.outbox_id) empty_payload
              >> pure (commit dispatch))
          else pure (rollback skipped))
        db (change_status-Holds run retry_wait queued stamp.now db h past) decided
    where
      decided :
          (updated : Bool) (db' : Db)
          → Moving run retry_wait queued updated db'
          → Ensures Sound (
              (if updated
                  then (append_event run stamp run_requeued system
                        (outbox entry.outbox_id)
                        empty_payload
                      >> pure (commit dispatch))
                  else pure (rollback skipped))
                db')
      decided true db' m =
          append_then run retry_wait queued stamp run_requeued system (outbox entry.outbox_id)
            empty_payload Sound (pure (commit dispatch)) db' (m.0 refl) refl (λ db2 s. s)
      decided false db' m = tt

  -- A preparation that commits, from a row that was read before, leaves the invariant. What was read
  -- must not be past the stored row.
  prepare_row-IsSound :
      (read : Option Run)
      → ((run : Run) → read ≡ some run → IsPast run db.runs)
      → Ensures Sound (prepare_row now stamp entry read db)
  unfolding prepare_row requeue
  prepare_row-IsSound none past = drop_entry-IsSound
  prepare_row-IsSound (some run) past = droppable (is_droppable run.status)
    where
      waiting :
          (is_waiting : Bool)
          → Ensures Sound ((if is_waiting then requeue run else pure (rollback dispatch)) db)
      waiting true = requeue-IsSound run (past run refl)
      waiting false = tt

      droppable :
          (dropping : Bool)
          → Ensures Sound (
              (if dropping
                  then drop_entry now entry
                  else if same_status run.status retry_wait
                  then requeue run
                  else pure (rollback dispatch))
                db)
      droppable true = drop_entry-IsSound
      droppable false = waiting (same_status run.status retry_wait)

  prepare_run-IsSound : Leaves IsSound (prepare_run now stamp entry db)
  unfolding prepare_run get_by_id
  prepare_run-IsSound =
      Leaves-transaction IsSound (get_by_id entry.run_id >>= prepare_row now stamp entry) db h (
        prepare_row-IsSound (find_row run_key entry.run_id db.runs)
          λ run e. read-IsPast entry.run_id run db.runs db.events h.log e)

mark_entry-IsSound :
    (now : ℕ) (entry : QueueOutbox) (db : Db)
    → IsSound db
    → Leaves IsSound (mark_entry now entry db)
unfolding mark_entry try_mark_dispatched
mark_entry-IsSound now entry db h =
    Leaves-transaction IsSound (try_mark_dispatched entry.outbox_id now >>= λ b. pure (commit b)) db
      h (try_mark_dispatched-Holds IsLogged db h entry.outbox_id now)

record_failure-IsSound :
    (max_attempts now : ℕ) (entry : QueueOutbox) (db : Db)
    → IsSound db
    → Leaves IsSound (record_failure max_attempts now entry db)
unfolding record_failure
record_failure-IsSound max_attempts now entry db h =
    Leaves-transaction IsSound
      (lift (record_dispatch_failure entry now max_attempts) >>= λ e. save e >> pure (commit tt)) db
      h (saved (record_dispatch_failure entry now max_attempts))
  where
    saved :
        (failed : Result QueueOutbox)
        → Ensures Sound ((lift failed >>= λ e. save e >> pure (commit tt)) db)
    saved (err e) = tt
    saved (ok e) =
        Ensures-bind (λ _. IsSound) Sound (save e) (λ _. pure (commit tt)) db
          (save-Holds IsLogged db h e) (λ _ db' s. s)

deliver-IsSound :
    (max_attempts now : ℕ) (accepted : Bool) (entry : QueueOutbox) (p : Preparation) (db : Db)
    → IsSound db
    → Leaves IsSound (deliver max_attempts now accepted entry p db)
unfolding deliver
deliver-IsSound max_attempts now accepted entry dropped db h = h
deliver-IsSound max_attempts now accepted entry skipped db h = h
deliver-IsSound max_attempts now true entry dispatch db h =
    Leaves-bind IsSound (mark_entry now entry) (λ marked. pure (if marked then 1 else 0)) db
      (mark_entry-IsSound now entry db h) (λ marked db' s. s)
deliver-IsSound max_attempts now false entry dispatch db h =
    Leaves-bind IsSound (record_failure max_attempts now entry) (λ _. pure 0) db
      (record_failure-IsSound max_attempts now entry db h) (λ _ db' s. s)

module _ (round : Round) where
  dispatch_entry-IsSound :
      (entry : QueueOutbox) (db : Db) → IsSound db → Leaves IsSound (dispatch_entry round entry db)
  unfolding dispatch_entry
  dispatch_entry-IsSound entry db h =
      Leaves-bind IsSound (prepare_run round.now (round.stamps entry.outbox_id) entry)
        (deliver round.max_attempts round.now (round.accepts entry.run_id) entry) db
        (prepare_run-IsSound round.now (round.stamps entry.outbox_id) entry db h)
        (λ p db' s.
          deliver-IsSound round.max_attempts round.now (round.accepts entry.run_id) entry p db' s)

  dispatch_all-IsSound :
      (entries : List QueueOutbox) (db : Db)
      → IsSound db
      → Leaves IsSound (dispatch_all round entries db)
  unfolding dispatch_all
  dispatch_all-IsSound [] db h = h
  dispatch_all-IsSound (entry ∷ entries) db h =
      Leaves-bind IsSound (dispatch_entry round entry)
        (λ count. dispatch_all round entries >>= λ rest. pure (count + rest)) db
        (dispatch_entry-IsSound entry db h)
        λ count db' s.
          Leaves-bind IsSound (dispatch_all round entries) (λ rest. pure (count + rest)) db'
            (dispatch_all-IsSound entries db' s) (λ rest db2 s2. s2)

  pub dispatch_pending-IsSound :
      (batch_size : ℕ) (db : Db)
      → IsSound db
      → Leaves IsSound (dispatch_pending round batch_size db)
  unfolding dispatch_pending
  dispatch_pending-IsSound batch_size db h =
      dispatch_all-IsSound (list_due_pending round.now batch_size db) db h
