-- ===== src/Lifecycle/Finish.antt =====
-- How an executor ends its run: `_finish_run`, `_finalize_if_cancelled`, `_lock_run` and the last
-- transaction `_commit_answer` of
-- backend/src/literature_agent/application/rag_answer_executor.py, as far as they touch the run and
-- its events. The executors of the ingestion and of the indexing have the same `_finish_run`.
use literature_research_agen.Base.{
  Bool, true, false, Option, none, some, Json, empty_payload, if◌then◌else◌,
}
use literature_research_agen.Run.{
  Run, RunStatus, succeeded, cancelled, cancel_requested, same_status,
}
use literature_research_agen.Run.Errors.{run_concurrent_modification}
use literature_research_agen.Event.{
  EventType, run_cancelled, answer_committed, system, CorrelationId, Stamp,
}
use literature_research_agen.Db.{
  Action, Outcome, commit, pure, raise, require, transaction, ◌>>=◌, ◌>>◌,
}
use literature_research_agen.Db.Runs.{get_by_id_for_update}
use literature_research_agen.Lifecycle.Advance.{change_status, append_event}

module _ (stamp : Stamp) (correlation_id : CorrelationId) where
  -- `_finish_run`
  unfoldable pub finish_run : Run → RunStatus → EventType → Json → Action (Unit {0})
  finish_run run_row target event_type payload = do
    updated ← change_status run_row run_row.status target stamp.now
    require updated (run_concurrent_modification run_row.run_id)
    append_event run_row stamp event_type system correlation_id payload
    pure tt

  -- `_finalize_if_cancelled`
  unfoldable pub finalize_if_cancelled : Run → Action Bool
  unfolding finish_run
  finalize_if_cancelled run_row =
      if same_status run_row.status cancel_requested
      then (finish_run run_row cancelled run_cancelled empty_payload >> pure true)
      else pure false

  -- `_commit_answer` from the locked row on; `payload` counts the claims.
  unfoldable pub commit_answer_row : Run → Json → Option Run → Action (Outcome (Unit {0}))
  unfolding finalize_if_cancelled
  commit_answer_row run payload none = raise (run_concurrent_modification run.run_id)
  commit_answer_row run payload (some run_row) = do
    finalized ← finalize_if_cancelled run_row
    if finalized
        then pure (commit tt)
        else (finish_run run_row succeeded answer_committed payload >> pure (commit tt))

  -- `_commit_answer`
  unfoldable pub commit_answer : Run → Json → Action (Unit {0})
  unfolding commit_answer_row
  commit_answer run payload = transaction do
    run_row ← get_by_id_for_update run.run_id run.owner_id
    commit_answer_row run payload run_row
