-- ===== src/Event.antt =====
-- backend/src/literature_agent/domain/event.py. The event types are the texts that the modelled code
-- writes or reads, and those with which other code sets the status of a run; `other` is any other
-- type, such as that of an executor's progress.
use literature_research_agen.Base.{ℕ, String, Json}

pub data EventType : Type 0 where
  run_created run_started run_completed run_succeeded run_failed run_retry_scheduled : EventType
  run_requeued run_cancel_requested run_cancelled : EventType
  dependency_wait_started dependency_wait_completed : EventType
  human_input_requested human_input_submitted review_source_selection_requested : EventType
  review_run_created result_committed indexing_completed answer_committed : EventType
  agent_turn_succeeded : EventType
  other : String → EventType

pub data ActorType : Type 0 where
  user system : ActorType

-- A request's identifier, or the texts `reconcile:{attempt_id}`, `outbox:{outbox_id}`,
-- `model:{turn_run_id}:{ordinal}` and `tool:{turn_run_id}:{invocation_id}`.
pub data CorrelationId : Type 0 where
  request reconcile outbox : ℕ → CorrelationId
  model_call tool_call : ℕ → ℕ → CorrelationId

pub record Event : Type 0 where
  pub event_id : ℕ
  pub event_version : String
  pub event_type : EventType
  pub run_id : ℕ
  pub sequence : ℕ
  pub occurred_at : ℕ
  pub actor_type : ActorType
  pub correlation_id : CorrelationId
  pub payload : Json

-- The identifier that `uuid4` draws and the time that `datetime.now` reads for a new row.
pub record Stamp : Type 0 where
  pub fresh_id : ℕ
  pub now : ℕ

-- `create_event`
unfoldable pub create_event : Stamp → ℕ → ℕ → EventType → ActorType → CorrelationId → Json → Event
create_event stamp run_id sequence event_type actor_type correlation_id payload = record {
  event_id = stamp.fresh_id;
  event_version = "1.0";
  event_type = event_type;
  run_id = run_id;
  sequence = sequence;
  occurred_at = stamp.now;
  actor_type = actor_type;
  correlation_id = correlation_id;
  payload = payload;
}
