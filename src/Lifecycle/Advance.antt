-- ===== src/Lifecycle/Advance.antt =====
-- The step that every service of the run lifecycle makes inside its transaction: the domain check,
-- the conditional update of the row, and the event with the row's old sequence number.
use literature_research_agen.Base.{ℕ, ◌+◌, Bool, Json}
use literature_research_agen.Run.{Run, RunStatus, transition_to}
use literature_research_agen.Event.{Event, EventType, ActorType, CorrelationId, Stamp, create_event}
use literature_research_agen.Db.{Action, lift, ◌>>◌}
use literature_research_agen.Db.Runs.{update_status}
use literature_research_agen.Db.Events.{add_event}

-- `run.transition_to(target)`, then `run_repo.update_status(expected, target, event_sequence + 1)`.
unfoldable pub change_status : Run → RunStatus → RunStatus → ℕ → Action Bool
change_status run expected target now = do
  lift (transition_to run target now)
  update_status run.run_id expected target (run.event_sequence + 1)

-- `event_repo.add(create_event(run_id, sequence=run.event_sequence, …))`
unfoldable pub append_event :
    Run → Stamp → EventType → ActorType → CorrelationId → Json → Action Event
append_event run stamp event_type actor_type correlation_id payload =
    add_event (
      create_event stamp run.run_id run.event_sequence event_type actor_type correlation_id payload)
