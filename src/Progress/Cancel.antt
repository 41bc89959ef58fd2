-- ===== src/Progress/Cancel.antt =====
-- `RunService.cancel_run` on every status.
use literature_research_agen.Base.{
  ℕ, ◌≡◌, refl, sym, subst, true, false, Option, none, some, arith, ◌==◌, find_row, ==_iff,
  empty_payload, if◌then◌else◌,
}
use literature_research_agen.Run.{
  Run, RunStatus, cancelled, cancel_requested, is_active, is_final, contains_status, transitions,
  transition_to, same_status,
}
use literature_research_agen.Run.Errors.{ok, err, run_not_found, invalid_run_transition}
use literature_research_agen.Event.{Event, user, CorrelationId, Stamp, create_event}
use literature_research_agen.Db.{Db, Action, pure, lift, Outcome, commit, rollback, ◌>>=◌}
use literature_research_agen.Db.Returns.{bind_ok, transaction_commit, transaction_err}
use literature_research_agen.Db.Runs.{run_key, get_by_id_for_update}
use literature_research_agen.Lifecycle.Service.{
  cancel_run, cancel_row, cancel_target, cancel_event, execute_transition, advanced,
}
use literature_research_agen.History.Sound.{IsLogged}
use literature_research_agen.Progress.Step.{stepped_db, execute_transition_returns}

-- An active run is cancelled, or asked to stop where it is running.
abbrev pub cancel_goal : Run → RunStatus
cancel_goal run = if same_status run.status RunStatus.running then cancel_requested else cancelled

cancel_target_active :
    (run : Run)
    → is_active run.status ≡ true
    → (cancel_target run.status ≡ some (cancel_goal run))
      × (contains_status (transitions run.status) (cancel_goal run) ≡ true)
unfolding is_active cancel_target transitions
cancel_target_active run h = ground arith

cancel_target_final :
    (run : Run) (now : ℕ)
    → is_active run.status ≡ false
    → (cancel_target run.status ≡ none)
      × (transition_to run cancelled now
          ≡ err (invalid_run_transition run.run_id run.status cancelled))
unfolding is_active cancel_target transition_to is_final
cancel_target_final run now h = ground arith

abbrev pub cancelling : Stamp → CorrelationId → Run → Event
cancelling stamp correlation run =
    create_event stamp run.run_id run.event_sequence (cancel_event (cancel_goal run)) user
      correlation empty_payload

-- `cancel_row` by the target that was chosen.
abbrev cancel_chosen : Stamp → CorrelationId → Run → Option RunStatus → Action (Outcome Run)
cancel_chosen stamp correlation run target = elim target [
  | none ↦ (do new_run ← lift (transition_to run cancelled stamp.now); pure (rollback new_run))
  | some target ↦ (do
    done ←
        execute_transition stamp run target (cancel_event target) user correlation empty_payload
          none
    pure (commit done))
]

-- The owner of an active run cancels it: a running run is asked to stop, any other is cancelled at
-- once, and the row and its event are committed. Needs a fresh event identifier and a database
-- whose rows agree with their events.
pub cancel_run_returns :
    (stamp : Stamp) (run : Run) (correlation : CorrelationId) (db : Db)
    → IsLogged db.runs db.events
    → find_row run_key run.run_id db.runs ≡ some run
    → find_row (λ (e : Event). e.event_id) stamp.fresh_id db.events ≡ none
    → is_active run.status ≡ true
    → cancel_run stamp run.owner_id run.run_id correlation db ≡ (
      ok (advanced (record run { status = cancel_goal run; updated_at = stamp.now })),
      stepped_db run (cancel_goal run) (cancelling stamp correlation run) db,
    )
unfolding cancel_run cancel_row get_by_id_for_update
cancel_run_returns stamp run correlation db logged stored fresh active =
    transaction_commit
      (get_by_id_for_update run.run_id run.owner_id >>= cancel_row stamp run.run_id correlation) db
      after result (rw (stored, (==_iff run.owner_id run.owner_id).1 refl) returns)
  where
    result : Run
    result = advanced (record run { status = cancel_goal run; updated_at = stamp.now })

    after : Db
    after = stepped_db run (cancel_goal run) (cancelling stamp correlation run) db

    returns : cancel_row stamp run.run_id correlation (some run) db ≡ (ok (commit result), after)
    returns =
        subst (λ c. cancel_chosen stamp correlation run c db ≡ (ok (commit result), after))
          (sym (cancel_target_active run active).0)
          (bind_ok
            (execute_transition stamp run (cancel_goal run) (cancel_event (cancel_goal run)) user
              correlation empty_payload none)
            (λ done. pure (commit done)) db after result
            (execute_transition_returns stamp run (cancel_goal run) (cancel_event (cancel_goal run))
              user correlation empty_payload none db
              (record {
                logged = logged;
                stored = stored;
                listed = (cancel_target_active run active).1;
                fresh = fresh;
              })))

-- A cancellation of a run that has ended, of a run of another owner, or of a missing run is
-- refused with the error that says so, and nothing changes.
pub cancel_run_refused :
    (stamp : Stamp) (owner_id run_id : ℕ) (correlation : CorrelationId) (db : Db)
    → ((run : Run)
        → find_row run_key run_id db.runs ≡ some run
        → run.owner_id ≡ owner_id
        → is_active run.status ≡ false
        → cancel_run stamp owner_id run_id correlation db
          ≡ (err (invalid_run_transition run.run_id run.status cancelled), db))
      × ((run : Run)
          → find_row run_key run_id db.runs ≡ some run
          → (run.owner_id == owner_id) ≡ false
          → cancel_run stamp owner_id run_id correlation db ≡ (err (run_not_found run_id), db))
      × (find_row run_key run_id db.runs ≡ none
          → cancel_run stamp owner_id run_id correlation db ≡ (err (run_not_found run_id), db))
unfolding cancel_run cancel_row get_by_id_for_update
cancel_run_refused stamp owner_id run_id correlation db = (
  λ run stored own ended. transaction_err locked db db _ (
      rw (stored, (==_iff run.owner_id owner_id).1 own)
        (subst
          (λ c.
            cancel_chosen stamp correlation run c db
            ≡ (err (invalid_run_transition run.run_id run.status cancelled), db))
          (sym (cancel_target_final run stamp.now ended).0)
          (rw ((cancel_target_final run stamp.now ended).1) refl))),
  λ run stored other. transaction_err locked db db _ (rw (stored, other) refl),
  λ missing. transaction_err locked db db _ (rw missing refl),
)
  where
    locked : Action (Outcome Run)
    locked = get_by_id_for_update run_id owner_id >>= cancel_row stamp run_id correlation
