-- ===== src/System/Sound.antt =====
-- The invariant over every history of calls.
use literature_research_agen.Base.{
  ◌≡◌, refl, Option, some, List, [], ◌∷◌, arith, find_row, select_where, count_where,
}
use literature_research_agen.Run.{RunType}
use literature_research_agen.Db.{Db}
use literature_research_agen.Lifecycle.Execution.{Executor}
use literature_research_agen.Lifecycle.Unknown.{dispatch_run}
use literature_research_agen.Invariant.Sound.{IsSound}
use literature_research_agen.Invariant.Service.{
  start_run-IsSound, complete_run-IsSound, fail_run-IsSound, cancel_run-IsSound,
}
use literature_research_agen.Invariant.Create.{submit_run-IsSound}
use literature_research_agen.Invariant.Execution.{beat-IsSound}
use literature_research_agen.Invariant.Execute.{
  KeepsSound, execute-IsSound, dispatch_run-KeepsSound,
}
use literature_research_agen.Invariant.Reconcile.{reconcile_expired-IsSound}
use literature_research_agen.Invariant.Orphans.{reconcile_orphaned_attempts-IsSound}
use literature_research_agen.Invariant.Dispatch.{dispatch_pending-IsSound}
use literature_research_agen.Invariant.Resume.{resume-IsSound}
use literature_research_agen.System.Calls.{
  Call, submits, starts, completes, fails, cancels, executes, beats, reconciles, closes_orphans,
  dispatches, resumes, perform, perform_all, empty_db,
}

-- The executors keep the invariant by the transactions that they commit.
abbrev pub AllKeepSound : (RunType → Option Executor) → Type 0
AllKeepSound executors =
    (t : RunType) (executor : Executor) → executors t ≡ some executor → KeepsSound executor

pub empty_db-IsSound : IsSound empty_db
unfolding find_row select_where count_where
empty_db-IsSound = record {
  log = record { unique = λ k. omega arith; faithful = λ k. refl };
  tried = record { unique = λ k. omega arith; numbered = λ k. tt };
  scheduled = record { unique = λ k. omega arith; one_per_run = λ k. omega arith };
}

module _ (executors : RunType → Option Executor) (keep : AllKeepSound executors) where
  perform-IsSound : (call : Call) (db : Db) → IsSound db → IsSound (perform executors call db)
  unfolding perform
  perform-IsSound (submits run_id owner_id project_id stamp run_type payload correlation) db h =
      submit_run-IsSound run_id owner_id project_id stamp run_type payload correlation db h
  perform-IsSound (starts owner_id run_id stamp correlation) db h =
      start_run-IsSound stamp run_id owner_id correlation db h
  perform-IsSound (completes owner_id run_id stamp result correlation) db h =
      complete_run-IsSound stamp run_id owner_id correlation db h result
  perform-IsSound (fails owner_id run_id stamp error correlation) db h =
      fail_run-IsSound stamp run_id owner_id correlation db h error
  perform-IsSound (cancels owner_id run_id stamp correlation) db h =
      cancel_run-IsSound stamp run_id owner_id correlation db h
  perform-IsSound (executes run_id claim closing stamp failure) db h =
      execute-IsSound (dispatch_run executors stamp failure) closing claim run_id db
        (dispatch_run-KeepsSound executors stamp failure keep) h
  perform-IsSound (beats attempt_id now) db h = beat-IsSound attempt_id now db h
  perform-IsSound (reconciles max_run_attempts lease_seconds batch_size now stamps) db h =
      reconcile_expired-IsSound max_run_attempts lease_seconds batch_size now stamps db h
  perform-IsSound (closes_orphans batch_size now) db h =
      reconcile_orphaned_attempts-IsSound batch_size now db h
  perform-IsSound (dispatches batch_size round) db h =
      dispatch_pending-IsSound round batch_size db h
  perform-IsSound (resumes run_id owner_id project_id stamp reason correlation payload) db h =
      resume-IsSound stamp reason correlation payload run_id owner_id project_id db h

  perform_all-IsSound :
      (calls : List Call) (db : Db) → IsSound db → IsSound (perform_all executors calls db)
  unfolding perform_all
  perform_all-IsSound [] db h = h
  perform_all-IsSound (call ∷ calls) db h =
      perform_all-IsSound calls (perform executors call db) (perform-IsSound call db h)

-- Over every list of calls of the services, in any order and on any runs, from a database that
-- satisfies it the invariant holds: in each run's log the events are numbered 1, 2, 3, … without a
-- gap, the row's event_sequence is the next number, replaying the events gives the row's status, a
-- missing run has no events, the attempts of each run are numbered without a gap, each run has one
-- outbox record at most, and ids are unique. The executors are assumed to keep the invariant
-- themselves.
pub lifecycle_IsSound :
    (executors : RunType → Option Executor) (calls : List Call) (db : Db)
    → AllKeepSound executors
    → IsSound db
    → IsSound (perform_all executors calls db)
lifecycle_IsSound executors calls db keep h = perform_all-IsSound executors keep calls db h
