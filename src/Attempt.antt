-- ===== src/Attempt.antt =====
-- backend/src/literature_agent/domain/run_attempt.py: one execution of a run by a worker.
use literature_research_agen.Base.{ℕ, Bool, Option, none, some, Json, ◌==◌}

pub data AttemptStatus : Type 0 where
  running paused succeeded failed cancelled : AttemptStatus

abbrev pub attempt_code : AttemptStatus → ℕ
attempt_code running = 0
attempt_code paused = 1
attempt_code succeeded = 2
attempt_code failed = 3
attempt_code cancelled = 4

-- `==` on attempt statuses.
unfoldable pub same_attempt_status : AttemptStatus → AttemptStatus → Bool
same_attempt_status a b = attempt_code a == attempt_code b

pub record RunAttempt : Type 0 where
  pub attempt_id : ℕ
  pub run_id : ℕ
  pub attempt_number : ℕ
  pub worker_id : ℕ
  pub status : AttemptStatus
  pub started_at : ℕ
  pub heartbeat_at : ℕ
  pub finished_at : Option ℕ
  pub error : Option Json

-- `RunAttempt.record_heartbeat`
unfoldable pub record_heartbeat : RunAttempt → ℕ → RunAttempt
record_heartbeat self now = record self { heartbeat_at = now }

-- `RunAttempt.finish`
unfoldable pub finish : RunAttempt → AttemptStatus → ℕ → Option Json → RunAttempt
finish self status now error = record self {
  status = status;
  heartbeat_at = now;
  finished_at = some now;
  error = error;
}

-- `create_run_attempt`, with the identifier and the time that it draws.
unfoldable pub create_run_attempt : ℕ → ℕ → ℕ → ℕ → ℕ → RunAttempt
create_run_attempt attempt_id now run_id attempt_number worker_id = record {
  attempt_id = attempt_id;
  run_id = run_id;
  attempt_number = attempt_number;
  worker_id = worker_id;
  status = running;
  started_at = now;
  heartbeat_at = now;
  finished_at = none;
  error = none;
}
