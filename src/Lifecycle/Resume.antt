-- ===== src/Lifecycle/Resume.antt =====
-- backend/src/literature_agent/application/waiting_run_resume_service.py: a waiting run goes back to
-- the queue for a business reason.
use literature_research_agen.Base.{ℕ, ◌+◌, Option, none, some, Json, ◌==◌, if◌then◌else◌}
use literature_research_agen.Run.{
  Run, RunStatus, queued, waiting_input, waiting_dependency, same_status,
}
use literature_research_agen.Run.Errors.{run_not_found, run_concurrent_modification, run_scheduling}
use literature_research_agen.Event.{
  EventType, dependency_wait_completed, human_input_submitted, ActorType, user, system,
  CorrelationId, Stamp,
}
use literature_research_agen.Db.{Action, commit, pure, raise, require, transaction, ◌>>=◌, ◌>>◌}
use literature_research_agen.Db.Runs.{get_by_id_for_update}
use literature_research_agen.Db.Outboxes.{schedule_again}
use literature_research_agen.Lifecycle.Advance.{change_status, append_event}

-- `ResumeReason`
pub data ResumeReason : Type 0 where
  dependency_completed input_submitted : ResumeReason

-- `_RESUME_POLICIES`
unfoldable pub waited_for : ResumeReason → RunStatus
waited_for dependency_completed = waiting_dependency
waited_for input_submitted = waiting_input

unfoldable pub resume_event : ResumeReason → EventType
resume_event dependency_completed = dependency_wait_completed
resume_event input_submitted = human_input_submitted

unfoldable pub resume_actor : ResumeReason → ActorType
resume_actor dependency_completed = system
resume_actor input_submitted = user

abbrev pub resumed_run : Run → ℕ → Run
resumed_run run now = record run {
  status = queued;
  event_sequence = run.event_sequence + 1;
  updated_at = now;
}

-- `resume_in_session` from the status check on.
unfoldable pub resume_waiting : Stamp → ResumeReason → CorrelationId → Json → Run → Action Run
unfolding waited_for resume_event resume_actor
resume_waiting stamp reason correlation_id payload run = do
  require (same_status run.status (waited_for reason)) (run_concurrent_modification run.run_id)
  updated ← change_status run (waited_for reason) queued stamp.now
  require updated (run_concurrent_modification run.run_id)
  append_event run stamp (resume_event reason) (resume_actor reason) correlation_id payload
  scheduled ← schedule_again stamp.now run.run_id
  require scheduled (run_scheduling run.run_id)
  pure (resumed_run run stamp.now)

unfoldable pub resume_row :
    Stamp → ℕ → ℕ → ResumeReason → CorrelationId → Json → Option Run → Action Run
unfolding resume_waiting
resume_row stamp run_id project_id reason correlation_id payload none = raise (run_not_found run_id)
resume_row stamp run_id project_id reason correlation_id payload (some run) =
    if run.project_id == project_id
    then resume_waiting stamp reason correlation_id payload run
    else raise (run_not_found run_id)

-- `WaitingRunResumeService.resume_in_session`
unfoldable pub resume_in_session :
    Stamp → ℕ → ℕ → ℕ → ResumeReason → CorrelationId → Json → Action Run
unfolding resume_row
resume_in_session stamp run_id owner_id project_id reason correlation_id payload = do
  run ← get_by_id_for_update run_id owner_id
  resume_row stamp run_id project_id reason correlation_id payload run

-- `WaitingRunResumeService.resume`
unfoldable pub resume : Stamp → ℕ → ℕ → ℕ → ResumeReason → CorrelationId → Json → Action Run
unfolding resume_in_session
resume stamp run_id owner_id project_id reason correlation_id payload = transaction do
  resumed ← resume_in_session stamp run_id owner_id project_id reason correlation_id payload
  pure (commit resumed)
