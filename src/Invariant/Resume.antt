-- ===== src/Invariant/Resume.antt =====
-- A resumption keeps the invariant.
use literature_research_agen.Base.{
  ℕ, ◌≡◌, refl, Bool, true, false, Option, none, some, Json, ◌==◌, find_row, if◌then◌else◌,
}
use literature_research_agen.Run.{Run, queued, same_status}
use literature_research_agen.Run.Errors.{
  Error, run_not_found, run_concurrent_modification, run_scheduling,
}
use literature_research_agen.Event.{CorrelationId, Stamp}
use literature_research_agen.Db.{Db, Action, commit, pure, raise, require, ◌>>=◌, ◌>>◌}
use literature_research_agen.Db.Hoare.{Ensures, Ensures-bind, Leaves, Leaves-transaction}
use literature_research_agen.Db.Runs.{run_key, owned_by, get_by_id_for_update}
use literature_research_agen.Db.Outboxes.{schedule_again}
use literature_research_agen.Lifecycle.Advance.{change_status, append_event}
use literature_research_agen.Lifecycle.Resume.{
  ResumeReason, dependency_completed, input_submitted, waited_for, resume_event, resume_actor,
  resumed_run, resume_waiting, resume_row, resume_in_session, resume,
}
use literature_research_agen.History.Replay.{status_after}
use literature_research_agen.History.Sound.{IsPast, IsLogged}
use literature_research_agen.Invariant.Sound.{IsSound, advance_then}
use literature_research_agen.Invariant.Actions.{schedule_again-Holds, locked-IsPast}
use literature_research_agen.Invariant.Service.{Sound}

module _ (stamp : Stamp) (reason : ResumeReason) (correlation : CorrelationId)
    (payload : Json) where
  resume_type :
      (r : ResumeReason) → status_after (resume_event r) (some (waited_for r)) ≡ some queued
  unfolding resume_event
  resume_type dependency_completed = refl
  resume_type input_submitted = refl

  -- The outbox is rescheduled, and the run is returned if that was possible.
  rescheduled : Run → Action Run
  rescheduled run = schedule_again stamp.now run.run_id >>= λ scheduled.
      require scheduled (run_scheduling run.run_id) >> pure (resumed_run run stamp.now)

  required :
      (e : Error) (b : Bool) (run : Run) (db : Db)
      → IsSound db
      → Ensures (λ _. IsSound) ((require b e >> pure run) db)
  required e true run db h = h
  required e false run db h = tt

  rescheduled-IsSound :
      (run : Run) (db : Db) → IsSound db → Ensures (λ _. IsSound) (rescheduled run db)
  unfolding rescheduled
  rescheduled-IsSound run db h =
      Ensures-bind (λ _. IsSound) (λ _. IsSound) (schedule_again stamp.now run.run_id)
        (λ scheduled.
          require scheduled (run_scheduling run.run_id) >> pure (resumed_run run stamp.now))
        db (schedule_again-Holds IsLogged db h stamp.now run.run_id)
        (λ b db' s. required (run_scheduling run.run_id) b (resumed_run run stamp.now) db' s)

  resume_waiting-IsSound :
      (run : Run) (db : Db)
      → IsSound db
      → IsPast run db.runs
      → Ensures (λ _. IsSound) (resume_waiting stamp reason correlation payload run db)
  unfolding resume_waiting rescheduled
  resume_waiting-IsSound run db h past = checked (same_status run.status (waited_for reason))
    where
      checked :
          (is_waiting : Bool)
          → Ensures
              (λ _. IsSound)
              ((require is_waiting (run_concurrent_modification run.run_id)
                  >> (change_status run (waited_for reason) queued stamp.now >>= λ updated.
                      require updated (run_concurrent_modification run.run_id)
                      >> (append_event run stamp
                            (resume_event reason)
                            (resume_actor reason)
                            correlation
                            payload
                          >> rescheduled run)))
                db)
      checked true =
          advance_then run (waited_for reason) queued stamp (resume_event reason)
            (resume_actor reason) correlation payload (λ _. IsSound) (rescheduled run)
            (run_concurrent_modification run.run_id) db h past (resume_type reason)
            (λ db' s. rescheduled-IsSound run db' s)
      checked false = tt

  resume_row-IsSound :
      (run_id project_id : ℕ) (read : Option Run) (db : Db)
      → IsSound db
      → ((run : Run) → read ≡ some run → IsPast run db.runs)
      → Ensures
          (λ _. IsSound)
          (resume_row stamp run_id project_id reason correlation payload read db)
  unfolding resume_row
  resume_row-IsSound run_id project_id none db h past = tt
  resume_row-IsSound run_id project_id (some run) db h past =
      in_project (run.project_id == project_id)
    where
      in_project :
          (same : Bool)
          → Ensures
              (λ _. IsSound)
              ((if same
                  then resume_waiting stamp reason correlation payload run
                  else raise (run_not_found run_id))
                db)
      in_project true = resume_waiting-IsSound run db h (past run refl)
      in_project false = tt

  pub resume-IsSound :
      (run_id owner_id project_id : ℕ) (db : Db)
      → IsSound db
      → Leaves IsSound (resume stamp run_id owner_id project_id reason correlation payload db)
  unfolding resume
  resume-IsSound run_id owner_id project_id db h =
      Leaves-transaction IsSound
        (resume_in_session stamp run_id owner_id project_id reason correlation payload
          >>= λ resumed. pure (commit resumed))
        db h
        (Ensures-bind (λ _. IsSound) Sound
          (resume_in_session stamp run_id owner_id project_id reason correlation payload)
          (λ resumed. pure (commit resumed)) db locked (λ resumed db' s. s))
    where
      locked :
          Ensures
            (λ _. IsSound)
            (resume_in_session stamp run_id owner_id project_id reason correlation payload db)
      locked =
          unfold resume_in_session get_by_id_for_update in
          resume_row-IsSound run_id project_id (owned_by owner_id (find_row run_key run_id db.runs))
            db h (λ run e. locked-IsPast run_id owner_id run db.runs db.events h.log e)
