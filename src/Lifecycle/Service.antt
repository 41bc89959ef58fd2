-- ===== src/Lifecycle/Service.antt =====
-- backend/src/literature_agent/application/run_service.py. The notification and the terminal
-- callback that follow a commit are best effort, catch every exception and do not touch these
-- tables, so they are left out.
use literature_research_agen.Base.{
  ℕ, ◌+◌, Option, none, some, List, String, Json, payload_of, empty_payload, text, ◌==◌,
  if◌then◌else◌,
}
use literature_research_agen.Run.{
  Run, RunStatus, queued, running, succeeded, failed, retry_wait, waiting_input, waiting_dependency,
  cancel_requested, cancelled, same_status, status_value, transition_to, create_run,
}
use literature_research_agen.Run.Errors.{ok, run_not_found, run_concurrent_modification}
use literature_research_agen.Event.{
  Event, EventType, run_created, run_started, run_completed, run_failed, run_cancel_requested,
  run_cancelled, ActorType, user, system, CorrelationId, Stamp, create_event,
}
use literature_research_agen.Db.{
  Action, Outcome, commit, rollback, pure, raise, lift, require, transaction, ◌>>=◌, ◌>>◌,
}
use literature_research_agen.Db.Runs.{add_run, get_by_id, get_by_id_for_update}
use literature_research_agen.Db.Events.{add_event, list_after}
use literature_research_agen.Lifecycle.Advance.{change_status, append_event}

abbrev pub advanced : Run → Run
advanced run = record run { event_sequence = run.event_sequence + 1 }

-- The transaction of `RunService.create_run` over the run that `create_run` made.
unfoldable pub insert_run : Run → Stamp → CorrelationId → Action Run
insert_run run stamp correlation_id = transaction do
  let updated_run = record run { event_sequence = 2 }
  let created_event =
      create_event stamp run.run_id 1 run_created user correlation_id
        (payload_of "status" (text (status_value run.status)))
  add_run updated_run
  add_event created_event
  pure (commit updated_run)

-- `RunService.create_run`
unfoldable pub submit_run : ℕ → Stamp → ℕ → ℕ → String → Json → CorrelationId → Action Run
unfolding insert_run
submit_run run_id stamp owner_id project_id run_type input_payload correlation_id = do
  run ← lift (create_run run_id project_id owner_id run_type (some input_payload) stamp.now)
  insert_run run stamp correlation_id

abbrev pub visible_to : ℕ → ℕ → Option Run → Action Run
visible_to owner_id run_id none = raise (run_not_found run_id)
visible_to owner_id run_id (some run) =
    if run.owner_id == owner_id then pure run else raise (run_not_found run_id)

-- `RunService.get_run`
unfoldable pub get_run : ℕ → ℕ → Action Run
get_run owner_id run_id = do visible_to owner_id run_id (← get_by_id run_id)

-- `RunService.list_events`
unfoldable pub list_events : ℕ → ℕ → ℕ → ℕ → Action (List Event)
unfolding get_run
list_events owner_id run_id after_sequence limit = do
  get_run owner_id run_id
  λ db. (ok (list_after run_id after_sequence limit db), db)

abbrev pub with_result : Option Json → Run → Run
with_result none run = run
with_result (some result) run = record run { result_payload = result }

-- `RunService._execute_transition`: the result payload goes into the returned run; `update_status`
-- writes the status and the sequence only.
unfoldable pub execute_transition :
    Stamp
    → Run
    → RunStatus
    → EventType
    → ActorType
    → CorrelationId
    → Json
    → Option Json
    → Action Run
execute_transition stamp run target event_type actor_type correlation_id payload result = do
  new_run ← lift (transition_to run target stamp.now)
  success ← change_status run run.status target stamp.now
  require success (run_concurrent_modification run.run_id)
  append_event run stamp event_type actor_type correlation_id payload
  pure (advanced (with_result result new_run))

-- What `_transition` does with the locked row.
unfoldable pub transition_row :
    Stamp
    → ℕ
    → RunStatus
    → RunStatus
    → EventType
    → ActorType
    → CorrelationId
    → Json
    → Option Json
    → Option Run
    → Action (Outcome Run)
unfolding execute_transition
transition_row stamp run_id expected target event_type actor_type correlation_id payload result
      none =
    raise (run_not_found run_id)
transition_row stamp run_id expected target event_type actor_type correlation_id payload result
      (some run) =
    if same_status run.status expected
    then (do
      done ← execute_transition stamp run target event_type actor_type correlation_id payload result
      pure (commit done))
    else raise (run_concurrent_modification run_id)

-- `RunService._transition`
unfoldable pub transition_run :
    Stamp
    → ℕ
    → ℕ
    → RunStatus
    → RunStatus
    → EventType
    → ActorType
    → CorrelationId
    → Json
    → Option Json
    → Action Run
unfolding transition_row
transition_run stamp owner_id run_id expected target event_type actor_type correlation_id payload
      result =
    transaction do
      run ← get_by_id_for_update run_id owner_id
      transition_row stamp run_id expected target event_type actor_type correlation_id payload
          result run

-- `RunService.start_run`
unfoldable pub start_run : Stamp → ℕ → ℕ → CorrelationId → Action Run
unfolding transition_run
start_run stamp owner_id run_id correlation_id =
    transition_run stamp owner_id run_id queued running run_started system correlation_id
      empty_payload none

-- `RunService.complete_run`
unfoldable pub complete_run : Stamp → ℕ → ℕ → Json → CorrelationId → Action Run
unfolding transition_run
complete_run stamp owner_id run_id result_payload correlation_id =
    transition_run stamp owner_id run_id running succeeded run_completed system correlation_id
      (payload_of "result" result_payload) (some result_payload)

-- `RunService.fail_run`
unfoldable pub fail_run : Stamp → ℕ → ℕ → Json → CorrelationId → Action Run
unfolding transition_run
fail_run stamp owner_id run_id error_payload correlation_id =
    transition_run stamp owner_id run_id running failed run_failed system correlation_id
      (payload_of "error" error_payload) none

-- The target that `cancel_run` chooses: `none` where `transition_to` raises.
unfoldable pub cancel_target : RunStatus → Option RunStatus
cancel_target cancel_requested = some cancelled
cancel_target queued = some cancelled
cancel_target retry_wait = some cancelled
cancel_target waiting_input = some cancelled
cancel_target waiting_dependency = some cancelled
cancel_target running = some cancel_requested
cancel_target _ = none

abbrev pub cancel_event : RunStatus → EventType
cancel_event target =
    if same_status target cancel_requested then run_cancel_requested else run_cancelled

unfoldable pub cancel_row : Stamp → ℕ → CorrelationId → Option Run → Action (Outcome Run)
unfolding cancel_target execute_transition
cancel_row stamp run_id correlation_id none = raise (run_not_found run_id)
cancel_row stamp run_id correlation_id (some run) = elim (cancel_target run.status) [
  | none ↦ (do new_run ← lift (transition_to run cancelled stamp.now); pure (rollback new_run))
  | some target ↦ (do
    done ←
        execute_transition stamp run target (cancel_event target) user correlation_id empty_payload
          none
    pure (commit done))
]

-- `RunService.cancel_run`
unfoldable pub cancel_run : Stamp → ℕ → ℕ → CorrelationId → Action Run
unfolding cancel_row
cancel_run stamp owner_id run_id correlation_id =
    transaction
      do run ← get_by_id_for_update run_id owner_id; cancel_row stamp run_id correlation_id run
