-- ===== src/System/Calls.antt =====
-- One constructor for each public operation of the services, and what it does to the database.
use literature_research_agen.Base.{ℕ, String, Json, List, [], ◌∷◌, Option}
use literature_research_agen.Run.{RunType}
use literature_research_agen.Event.{CorrelationId, Stamp}
use literature_research_agen.Db.{Db}
use literature_research_agen.Lifecycle.Service.{
  submit_run, start_run, complete_run, fail_run, cancel_run,
}
use literature_research_agen.Lifecycle.Failure.{Failure}
use literature_research_agen.Lifecycle.Execution.{Claim, Closing, Executor, beat, execute}
use literature_research_agen.Lifecycle.Reconcile.{reconcile_expired}
use literature_research_agen.Lifecycle.Orphans.{reconcile_orphaned_attempts}
use literature_research_agen.Lifecycle.Dispatch.{Round, dispatch_pending}
use literature_research_agen.Lifecycle.Resume.{ResumeReason, resume}
use literature_research_agen.Lifecycle.Unknown.{dispatch_run}

pub data Call : Type 0 where
  submits : (run_id owner_id project_id : ℕ) → Stamp → String → Json → CorrelationId → Call
  starts : (owner_id run_id : ℕ) → Stamp → CorrelationId → Call
  completes fails : (owner_id run_id : ℕ) → Stamp → Json → CorrelationId → Call
  cancels : (owner_id run_id : ℕ) → Stamp → CorrelationId → Call
  executes : (run_id : ℕ) → Claim → Closing → (dispatch_stamp : Stamp) → Failure → Call
  beats : (attempt_id now : ℕ) → Call
  reconciles : (max_run_attempts lease_seconds batch_size now : ℕ) → (ℕ → Stamp) → Call
  closes_orphans : (batch_size now : ℕ) → Call
  dispatches : (batch_size : ℕ) → Round → Call
  resumes : (run_id owner_id project_id : ℕ) → Stamp → ResumeReason → CorrelationId → Json → Call

-- The executors of the run types stand outside: a table of functions.
module _ (executors : RunType → Option Executor) where
  unfoldable pub perform : Call → Db → Db
  perform (submits run_id owner_id project_id stamp run_type payload correlation) db =
      (submit_run run_id stamp owner_id project_id run_type payload correlation db).1
  perform (starts owner_id run_id stamp correlation) db =
      (start_run stamp owner_id run_id correlation db).1
  perform (completes owner_id run_id stamp result correlation) db =
      (complete_run stamp owner_id run_id result correlation db).1
  perform (fails owner_id run_id stamp error correlation) db =
      (fail_run stamp owner_id run_id error correlation db).1
  perform (cancels owner_id run_id stamp correlation) db =
      (cancel_run stamp owner_id run_id correlation db).1
  perform (executes run_id claim closing stamp failure) db =
      (execute (dispatch_run executors stamp failure) closing claim run_id db).1
  perform (beats attempt_id now) db = (beat attempt_id now db).1
  perform (reconciles max_run_attempts lease_seconds batch_size now stamps) db =
      (reconcile_expired max_run_attempts lease_seconds batch_size now stamps db).1
  perform (closes_orphans batch_size now) db = (reconcile_orphaned_attempts batch_size now db).1
  perform (dispatches batch_size round) db = (dispatch_pending round batch_size db).1
  perform (resumes run_id owner_id project_id stamp reason correlation payload) db =
      (resume stamp run_id owner_id project_id reason correlation payload db).1

  unfoldable pub perform_all : List Call → Db → Db
  perform_all [] db = db
  perform_all (call ∷ calls) db = perform_all calls (perform call db)

abbrev pub empty_db : Db
empty_db = record { runs = []; events = []; attempts = []; outbox = [] }
