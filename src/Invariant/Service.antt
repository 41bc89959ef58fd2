-- ===== src/Invariant/Service.antt =====
-- `RunService` keeps the invariant.
use literature_research_agen.Base.{
  ℕ, ◌≡◌, refl, sym, subst, Bool, true, false, Option, none, some, Json, empty_payload, payload_of,
  arith, find_row, if◌then◌else◌,
}
use literature_research_agen.Run.{
  Run, RunStatus, queued, running, succeeded, failed, cancelled, same_status, same_status_eq,
  transition_to,
}
use literature_research_agen.Run.Errors.{Result, ok, err, run_concurrent_modification}
use literature_research_agen.Event.{
  EventType, ActorType, CorrelationId, Stamp, run_started, run_completed, run_failed, user, system,
}
use literature_research_agen.Db.{
  Db, Action, Outcome, commit, rollback, pure, raise, lift, require, ◌>>=◌, ◌>>◌,
}
use literature_research_agen.Db.Hoare.{Ensures, Ensures-bind, Leaves, Leaves-transaction, Commits}
use literature_research_agen.Db.Runs.{run_key, owned_by, get_by_id_for_update}
use literature_research_agen.Lifecycle.Advance.{change_status, append_event}
use literature_research_agen.Lifecycle.Service.{
  advanced, with_result, cancel_event, execute_transition, transition_row, transition_run,
  start_run, complete_run, fail_run, cancel_target, cancel_row, cancel_run,
}
use literature_research_agen.History.Replay.{status_after}
use literature_research_agen.History.Sound.{IsPast}
use literature_research_agen.Invariant.Sound.{IsSound, advance_then}
use literature_research_agen.Invariant.Actions.{locked-IsPast}

-- What a transaction that commits must leave.
abbrev pub Sound : {A : Type 0} → Outcome A → Db → Type 0
Sound = Commits (λ _. IsSound)

module _ (stamp : Stamp) (run : Run) (target : RunStatus) (t : EventType) (actor : ActorType)
    (correlation : CorrelationId) (payload : Json) (result : Option Json) where
  pub execute_transition-IsSound :
      (db : Db)
      → IsSound db
      → IsPast run db.runs
      → status_after t (some run.status) ≡ some target
      → Ensures
          (λ _. IsSound)
          (execute_transition stamp run target t actor correlation payload result db)
  unfolding execute_transition
  execute_transition-IsSound db h past type = checked (transition_to run target stamp.now)
    where
      checked :
          (moved : Result Run)
          → Ensures
              (λ _. IsSound)
              ((lift moved >>= λ new_run.
                  change_status run run.status target stamp.now >>= λ success.
                  require success (run_concurrent_modification run.run_id)
                  >> (append_event run stamp t actor correlation payload
                      >> pure (advanced (with_result result new_run))))
                db)
      checked (ok new_run) =
          advance_then run run.status target stamp t actor correlation payload (λ _. IsSound)
            (pure (advanced (with_result result new_run))) (run_concurrent_modification run.run_id)
            db h past type (λ db' s. s)
      checked (err e) = tt

module _ (stamp : Stamp) (run_id : ℕ) (expected target : RunStatus) (t : EventType)
    (actor : ActorType) (correlation : CorrelationId) (payload : Json) (result : Option Json)
    (type : status_after t (some expected) ≡ some target) where
  committed :
      (run : Run) (db : Db) (allowed : Bool)
      → same_status run.status expected ≡ allowed
      → IsSound db
      → IsPast run db.runs
      → Ensures Sound (
          (if allowed
              then (execute_transition stamp run target t actor correlation payload result
                  >>= λ done. pure (commit done))
              else raise (run_concurrent_modification run_id))
            db)
  committed run db true e h past =
      Ensures-bind (λ _. IsSound) Sound
        (execute_transition stamp run target t actor correlation payload result)
        (λ done. pure (commit done)) db
        (execute_transition-IsSound stamp run target t actor correlation payload result db h past
          (subst (λ s. status_after t (some s) ≡ some target) (sym (same_status_eq _ _ e)) type))
        (λ done db' s. s)
  committed run db false e h past = tt

  transition_row-IsSound :
      (read : Option Run) (db : Db)
      → IsSound db
      → ((run : Run) → read ≡ some run → IsPast run db.runs)
      → Ensures Sound
          (transition_row stamp run_id expected target t actor correlation payload result read db)
  unfolding transition_row
  transition_row-IsSound none db h past = tt
  transition_row-IsSound (some run) db h past =
      committed run db (same_status run.status expected) refl h (past run refl)

  -- Every transition that `RunService` offers for one expected status.
  pub transition_run-IsSound :
      (owner_id : ℕ) (db : Db)
      → IsSound db
      → Leaves IsSound (
          transition_run stamp owner_id run_id expected target t actor correlation payload result
            db)
  unfolding transition_run get_by_id_for_update
  transition_run-IsSound owner_id db h =
      Leaves-transaction IsSound
        (get_by_id_for_update run_id owner_id
          >>= transition_row stamp run_id expected target t actor correlation payload result)
        db h
        (transition_row-IsSound (owned_by owner_id (find_row run_key run_id db.runs)) db h
          λ run e. locked-IsPast run_id owner_id run db.runs db.events h.log e)

module _ (stamp : Stamp) (run_id owner_id : ℕ) (correlation : CorrelationId) (db : Db)
    (h : IsSound db) where
  pub start_run-IsSound : Leaves IsSound (start_run stamp owner_id run_id correlation db)
  unfolding start_run
  start_run-IsSound =
      transition_run-IsSound stamp run_id queued running run_started system correlation
        empty_payload none refl owner_id db h

  pub complete_run-IsSound :
      (result : Json) → Leaves IsSound (complete_run stamp owner_id run_id result correlation db)
  unfolding complete_run
  complete_run-IsSound result =
      transition_run-IsSound stamp run_id running succeeded run_completed system correlation
        (payload_of "result" result) (some result) refl owner_id db h

  pub fail_run-IsSound :
      (error : Json) → Leaves IsSound (fail_run stamp owner_id run_id error correlation db)
  unfolding fail_run
  fail_run-IsSound error =
      transition_run-IsSound stamp run_id running failed run_failed system correlation
        (payload_of "error" error) none refl owner_id db h

  cancel_type :
      (s target : RunStatus)
      → cancel_target s ≡ some target
      → status_after (cancel_event target) (some s) ≡ some target
  unfolding cancel_target same_status
  cancel_type s target e = ground arith

  cancel_chosen :
      (run : Run) (choice : Option RunStatus)
      → cancel_target run.status ≡ choice
      → IsPast run db.runs
      → Ensures Sound (
          (elim choice as (λ _. Action (Outcome Run)) [
            | none ↦
                lift (transition_to run cancelled stamp.now) >>= λ new_run. pure (rollback new_run)
            | some target ↦
                execute_transition stamp run target
                  (cancel_event target)
                  user
                  correlation
                  empty_payload
                  none
                >>= λ done. pure (commit done)
          ])
            db)
  cancel_chosen run none e past = refused (transition_to run cancelled stamp.now)
    where
      refused :
          (moved : Result Run)
          → Ensures Sound ((lift moved >>= λ new_run. pure (rollback new_run)) db)
      refused (ok r) = tt
      refused (err e) = tt
  cancel_chosen run (some target) e past =
      Ensures-bind (λ _. IsSound) Sound
        (execute_transition stamp run target (cancel_event target) user correlation empty_payload
          none)
        (λ done. pure (commit done)) db
        (execute_transition-IsSound stamp run target (cancel_event target) user correlation
          empty_payload none db h past (cancel_type run.status target e))
        (λ done db' s. s)

  cancel_row-IsSound :
      (read : Option Run)
      → ((run : Run) → read ≡ some run → IsPast run db.runs)
      → Ensures Sound (cancel_row stamp run_id correlation read db)
  unfolding cancel_row
  cancel_row-IsSound none past = tt
  cancel_row-IsSound (some run) past =
      cancel_chosen run (cancel_target run.status) refl (past run refl)

  pub cancel_run-IsSound : Leaves IsSound (cancel_run stamp owner_id run_id correlation db)
  unfolding cancel_run get_by_id_for_update
  cancel_run-IsSound =
      Leaves-transaction IsSound
        (get_by_id_for_update run_id owner_id >>= cancel_row stamp run_id correlation) db h
        (cancel_row-IsSound (owned_by owner_id (find_row run_key run_id db.runs))
          λ run e. locked-IsPast run_id owner_id run db.runs db.events h.log e)
