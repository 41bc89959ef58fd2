-- ===== src/Lifecycle/Unknown.antt =====
-- backend/src/literature_agent/application/run_dispatcher.py: a run goes to the executor of its
-- type, and fails if there is none.
use literature_research_agen.Base.{
  ℕ, Option, none, some, Json, object, field, end, text, payload_of, if◌then◌else◌,
}
use literature_research_agen.Run.{Run, RunType, running, failed, same_status, parse_run_type}
use literature_research_agen.Run.Errors.{Result, ok, err, run_concurrent_modification}
use literature_research_agen.Event.{run_failed, system, CorrelationId, Stamp}
use literature_research_agen.Db.{
  Db, Action, Outcome, commit, pure, raise, require, transaction, ◌>>=◌, ◌>>◌,
}
use literature_research_agen.Db.Runs.{get_by_id_for_update}
use literature_research_agen.Lifecycle.Failure.{Failure}
use literature_research_agen.Lifecycle.Execution.{Ending, returned, raised, Executor}
use literature_research_agen.Lifecycle.Advance.{change_status, append_event}

-- The error of an unknown type. Its message, which joins a text and the type, is left out.
abbrev pub unknown_run_type : Json
unknown_run_type = object (field "type" (text "unknown_run_type") end)

unfoldable pub fail_unknown_row :
    Stamp → CorrelationId → ℕ → Option Run → Action (Outcome (Unit {0}))
fail_unknown_row stamp correlation_id run_id none = raise (run_concurrent_modification run_id)
fail_unknown_row stamp correlation_id run_id (some run_row) =
    if same_status run_row.status running
    then (do
      updated ← change_status run_row running failed stamp.now
      require updated (run_concurrent_modification run_row.run_id)
      append_event run_row stamp run_failed system correlation_id
          (payload_of "error" unknown_run_type)
      pure (commit tt))
    else pure (commit tt)

-- `RunDispatcher._fail_unknown`
unfoldable pub fail_unknown : Stamp → Run → CorrelationId → Action (Unit {0})
unfolding fail_unknown_row
fail_unknown stamp run correlation_id = transaction do
  run_row ← get_by_id_for_update run.run_id run.owner_id
  fail_unknown_row stamp correlation_id run.run_id run_row

-- A raise inside `_fail_unknown` is an unlisted exception to the caller.
abbrev pub ending_of : Failure → Result (Unit {0}) × Db → Ending × Db
ending_of failure (ok done, db) = (returned, db)
ending_of failure (err e, db) = (raised failure, db)

abbrev pub chosen : (RunType → Option Executor) → Option RunType → Option Executor
chosen executors none = none
chosen executors (some run_type) = executors run_type

-- `RunDispatcher.execute`; the failure is the one that a raise of `_fail_unknown` becomes.
unfoldable pub dispatch_run : (RunType → Option Executor) → Stamp → Failure → Executor
unfolding fail_unknown
dispatch_run executors stamp failure run correlation_id db =
    elim (chosen executors (parse_run_type run.run_type)) [
      | none ↦ ending_of failure (fail_unknown stamp run correlation_id db)
      | some executor ↦ executor run correlation_id db
    ]
