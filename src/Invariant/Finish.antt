-- ===== src/Invariant/Finish.antt =====
-- The last transaction of an executor and the invariant.
use literature_research_agen.Base.{
  ◌≡◌, refl, Bool, true, false, Option, none, some, Json, empty_payload, find_row, if◌then◌else◌,
}
use literature_research_agen.Run.{
  Run, RunStatus, succeeded, cancelled, cancel_requested, same_status,
}
use literature_research_agen.Run.Errors.{run_concurrent_modification}
use literature_research_agen.Event.{
  EventType, run_cancelled, answer_committed, system, CorrelationId, Stamp,
}
use literature_research_agen.Db.{Db, commit, pure, ◌>>=◌, ◌>>◌}
use literature_research_agen.Db.Hoare.{Ensures, Ensures-bind, Leaves, Leaves-transaction}
use literature_research_agen.Db.Runs.{run_key, owned_by, get_by_id_for_update}
use literature_research_agen.Lifecycle.Finish.{
  finish_run, finalize_if_cancelled, commit_answer_row, commit_answer,
}
use literature_research_agen.History.Replay.{status_after}
use literature_research_agen.History.Sound.{IsPast}
use literature_research_agen.Invariant.Sound.{IsSound, advance_then}
use literature_research_agen.Invariant.Actions.{locked-IsPast}
use literature_research_agen.Invariant.Service.{Sound}

-- Where the run goes on, its row is still as it was read.
abbrev Finalized : Run → Bool → Db → Type 0
Finalized run finalized db' = IsSound db' × (finalized ≡ false → IsPast run db'.runs)

module _ (stamp : Stamp) (correlation : CorrelationId) (db : Db) (h : IsSound db) where
  -- A run is finished by an event that says its new status.
  pub finish_run-IsSound :
      (run : Run) (target : RunStatus) (t : EventType) (payload : Json)
      → IsPast run db.runs
      → status_after t (some run.status) ≡ some target
      → Ensures (λ _. IsSound) (finish_run stamp correlation run target t payload db)
  unfolding finish_run
  finish_run-IsSound run target t payload past type =
      advance_then run run.status target stamp t system correlation payload (λ _. IsSound) (pure tt)
        (run_concurrent_modification run.run_id) db h past type (λ db' s. s)

  finalize-IsSound :
      (run : Run)
      → IsPast run db.runs
      → Ensures (Finalized run) (finalize_if_cancelled stamp correlation run db)
  unfolding finalize_if_cancelled
  finalize-IsSound run past = decided (same_status run.status cancel_requested)
    where
      decided :
          (asked : Bool)
          → Ensures (Finalized run) (
              (if asked
                  then (finish_run stamp correlation run cancelled run_cancelled empty_payload
                      >> pure true)
                  else pure false)
                db)
      decided true =
          Ensures-bind (λ _. IsSound) (Finalized run)
            (finish_run stamp correlation run cancelled run_cancelled empty_payload)
            (λ _. pure true) db
            (finish_run-IsSound run cancelled run_cancelled empty_payload past refl)
            (λ _ db' s. (s, λ q. cc))
      decided false = (h, λ q. past)

module _ (stamp : Stamp) (correlation : CorrelationId) (payload : Json) where
  commit_answer_then :
      (run : Run) (finalized : Bool) (db : Db)
      → Finalized run finalized db
      → Ensures (Sound {A = Unit {0}}) (
          (if finalized
              then pure (commit tt)
              else (finish_run stamp correlation run succeeded answer_committed payload
                  >> pure (commit tt)))
            db)
  commit_answer_then run true db h = h.0
  commit_answer_then run false db h =
      Ensures-bind (λ _. IsSound) Sound
        (finish_run stamp correlation run succeeded answer_committed payload)
        (λ _. pure (commit tt)) db
        (finish_run-IsSound stamp correlation db h.0 run succeeded answer_committed payload
          (h.1 refl) refl)
        (λ _ db' s. s)

  commit_answer_row-IsSound :
      (run : Run) (read : Option Run) (db : Db)
      → IsSound db
      → ((r : Run) → read ≡ some r → IsPast r db.runs)
      → Ensures Sound (commit_answer_row stamp correlation run payload read db)
  unfolding commit_answer_row
  commit_answer_row-IsSound run none db h past = tt
  commit_answer_row-IsSound run (some r) db h past =
      Ensures-bind (Finalized r) Sound (finalize_if_cancelled stamp correlation r)
        (λ finalized.
          if finalized
          then pure (commit tt)
          else (finish_run stamp correlation r succeeded answer_committed payload
              >> pure (commit tt)))
        db (finalize-IsSound stamp correlation db h r (past r refl))
        (λ finalized db' m. commit_answer_then r finalized db' m)

  -- The last transaction of a question's executor keeps the invariant, whether it finds a
  -- cancellation, ends the run in SUCCEEDED by the event answer_committed, or raises: the row and
  -- the event that says its new status are written together or not at all.
  pub commit_answer-IsSound :
      (run : Run) (db : Db)
      → IsSound db
      → Leaves IsSound (commit_answer stamp correlation run payload db)
  unfolding commit_answer get_by_id_for_update
  commit_answer-IsSound run db h =
      Leaves-transaction IsSound
        (get_by_id_for_update run.run_id run.owner_id
          >>= commit_answer_row stamp correlation run payload)
        db h
        (commit_answer_row-IsSound run (owned_by run.owner_id (find_row run_key run.run_id db.runs))
          db h λ r e. locked-IsPast run.run_id run.owner_id r db.runs db.events h.log e)
