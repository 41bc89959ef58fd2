-- ===== src/Lifecycle/Dispatch.antt =====
-- backend/src/literature_agent/application/outbox_dispatch_service.py, with the run and event
-- repositories that worker.py gives it. The queue is outside: whether it takes a job is an argument.
use literature_research_agen.Base.{
  ℕ, ◌+◌, Bool, true, false, Option, none, some, List, [], ◌∷◌, empty_payload, if◌then◌else◌,
}
use literature_research_agen.Run.{
  Run, RunStatus, queued, succeeded, failed, retry_wait, cancel_requested, cancelled, same_status,
  contains_status,
}
use literature_research_agen.Event.{run_requeued, system, outbox, Stamp}
use literature_research_agen.Outbox.{QueueOutbox, record_dispatch_failure}
use literature_research_agen.Db.{
  Action, Outcome, commit, rollback, pure, lift, transaction, ◌>>=◌, ◌>>◌,
}
use literature_research_agen.Db.Runs.{get_by_id}
use literature_research_agen.Db.Outboxes.{try_mark_dispatched, save, list_due_pending}
use literature_research_agen.Lifecycle.Advance.{change_status, append_event}

-- What `_prepare_run` returns.
pub data Preparation : Type 0 where
  dispatch dropped skipped : Preparation

-- `run.status in _DROPPABLE_STATUSES`
unfoldable pub is_droppable : RunStatus → Bool
unfolding contains_status
is_droppable = contains_status (succeeded ∷ failed ∷ cancelled ∷ cancel_requested ∷ [])

-- The record of a run that is gone or has ended is marked and dropped.
unfoldable pub drop_entry : ℕ → QueueOutbox → Action (Outcome Preparation)
drop_entry now entry = do
  marked ← try_mark_dispatched entry.outbox_id now
  pure (commit (if marked then dropped else skipped))

-- `_prepare_run` from a row that was read without a lock, which may be old by now.
unfoldable pub prepare_row : ℕ → Stamp → QueueOutbox → Option Run → Action (Outcome Preparation)
unfolding drop_entry is_droppable
prepare_row now stamp entry none = drop_entry now entry
prepare_row now stamp entry (some run) =
    if is_droppable run.status
    then drop_entry now entry
    else if same_status run.status retry_wait
    then (do
      updated ← change_status run retry_wait queued stamp.now
      if updated
          then (do
            append_event run stamp run_requeued system (outbox entry.outbox_id) empty_payload
            pure (commit dispatch))
          else pure (rollback skipped))
    else pure (rollback dispatch)

-- `OutboxDispatchService._prepare_run`
unfoldable pub prepare_run : ℕ → Stamp → QueueOutbox → Action Preparation
unfolding prepare_row
prepare_run now stamp entry = transaction do prepare_row now stamp entry (← get_by_id entry.run_id)

-- `OutboxDispatchService._mark_dispatched`
unfoldable pub mark_entry : ℕ → QueueOutbox → Action Bool
mark_entry now entry = transaction do pure (commit (← try_mark_dispatched entry.outbox_id now))

-- `OutboxDispatchService._record_failure`: the entry as it was read is written back.
unfoldable pub record_failure : ℕ → ℕ → QueueOutbox → Action (Unit {0})
record_failure max_attempts now entry = transaction do
  failed_entry ← lift (record_dispatch_failure entry now max_attempts)
  save failed_entry
  pure (commit tt)

-- The loop's body after `_prepare_run`: 1 if the entry was delivered and marked.
unfoldable pub deliver : ℕ → ℕ → Bool → QueueOutbox → Preparation → Action ℕ
unfolding mark_entry record_failure
deliver max_attempts now accepted entry dropped = pure 0
deliver max_attempts now accepted entry skipped = pure 0
deliver max_attempts now true entry dispatch = do
  marked ← mark_entry now entry
  pure (if marked then 1 else 0)
deliver max_attempts now false entry dispatch = do record_failure max_attempts now entry; pure 0

-- The environment of one round: the stamp of each entry's event and the queue's answer to each run.
pub record Round : Type 0 where
  pub max_attempts : ℕ
  pub now : ℕ
  pub stamps : ℕ → Stamp
  pub accepts : ℕ → Bool

unfoldable pub dispatch_entry : Round → QueueOutbox → Action ℕ
unfolding prepare_run deliver
dispatch_entry round entry = do
  preparation ← prepare_run round.now (round.stamps entry.outbox_id) entry
  deliver round.max_attempts round.now (round.accepts entry.run_id) entry preparation

unfoldable pub dispatch_all : Round → List QueueOutbox → Action ℕ
unfolding dispatch_entry
dispatch_all round [] = pure 0
dispatch_all round (entry ∷ entries) = do
  count ← dispatch_entry round entry
  rest ← dispatch_all round entries
  pure (count + rest)

-- `OutboxDispatchService.dispatch_pending`
unfoldable pub dispatch_pending : Round → ℕ → Action ℕ
unfolding dispatch_all
dispatch_pending round batch_size db =
    dispatch_all round (list_due_pending round.now batch_size db) db
