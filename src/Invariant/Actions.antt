-- ===== src/Invariant/Actions.antt =====
-- The actions on attempts and outbox records keep the invariant, within a step too, and a row that
-- the transaction has just read is a past row.
use literature_research_agen.Base.{
  ℕ, ◌+◌, ◌≤◌, ◌≡◌, refl, sym, subst, Bool, true, false, ◌||◌, Option, none, some, is_some, List,
  Json, arith, count_where, update_where, ◌++◌, [], ◌∷◌, find_row, if◌then◌else◌, ◌==◌,
  find_row_key,
}
use literature_research_agen.Run.{Run}
use literature_research_agen.Run.Errors.{ok, err, no_result_found}
use literature_research_agen.Event.{Event}
use literature_research_agen.Attempt.{RunAttempt, AttemptStatus, finish, record_heartbeat}
use literature_research_agen.Outbox.{QueueOutbox, mark_dispatched}
use literature_research_agen.Db.{Db}
use literature_research_agen.Db.Hoare.{Ensures, Ensures-unless}
use literature_research_agen.Db.Runs.{run_key, owned_by}
use literature_research_agen.Db.Attempts.{
  attempt_of, add_attempt, finish_if_running, touch_heartbeat,
}
use literature_research_agen.Db.Outboxes.{
  outbox_key, save_over, try_mark_dispatched, save, reset_for_retry, schedule_again,
}
use literature_research_agen.History.Sound.{IsLogged, IsPast, Faithful}
use literature_research_agen.Invariant.Attempts.{updated-IsTried, appended-IsTried}
use literature_research_agen.Invariant.Outboxes.{updated-IsScheduled}
use literature_research_agen.Invariant.Sound.{Holds}

module _ (L : List Run → List Event → Type 0) (db : Db) (h : Holds L db) where
  pub finish_if_running-Holds :
      (attempt_id : ℕ) (status : AttemptStatus) (now : ℕ) (error : Option Json)
      → Ensures (λ _. Holds L) (finish_if_running attempt_id status now error db)
  unfolding finish_if_running finish
  finish_if_running-Holds attempt_id status now error = record {
    log = h.log;
    tried =
        updated-IsTried _ (λ a. finish a status now error) db.attempts (λ a. (refl, refl, refl))
          h.tried;
    scheduled = h.scheduled;
  }

  pub touch_heartbeat-Holds :
      (attempt_id now : ℕ) → Ensures (λ _. Holds L) (touch_heartbeat attempt_id now db)
  unfolding touch_heartbeat record_heartbeat
  touch_heartbeat-Holds attempt_id now = record {
    log = h.log;
    tried =
        updated-IsTried _ (λ a. record_heartbeat a now) db.attempts (λ a. (refl, refl, refl))
          h.tried;
    scheduled = h.scheduled;
  }

  pub try_mark_dispatched-Holds :
      (outbox_id at : ℕ) → Ensures (λ _. Holds L) (try_mark_dispatched outbox_id at db)
  unfolding try_mark_dispatched mark_dispatched
  try_mark_dispatched-Holds outbox_id at = record {
    log = h.log;
    tried = h.tried;
    scheduled =
        updated-IsScheduled _ (λ o. mark_dispatched o at) db.outbox (λ o. (refl, refl)) h.scheduled;
  }

  pub reset_for_retry-Holds :
      (now run_id scheduled_at : ℕ)
      → Ensures (λ _. Holds L) (reset_for_retry now run_id scheduled_at db)
  unfolding reset_for_retry
  reset_for_retry-Holds now run_id scheduled_at = record {
    log = h.log;
    tried = h.tried;
    scheduled = updated-IsScheduled _ _ db.outbox (λ o. (refl, refl)) h.scheduled;
  }

  pub schedule_again-Holds :
      (now run_id : ℕ) → Ensures (λ _. Holds L) (schedule_again now run_id db)
  unfolding schedule_again
  schedule_again-Holds now run_id = record {
    log = h.log;
    tried = h.tried;
    scheduled = updated-IsScheduled _ _ db.outbox (λ o. (refl, refl)) h.scheduled;
  }

  found_or_refused :
      (entry : QueueOutbox) (found : Bool)
      → Ensures
          (λ (_ : Unit {0}). Holds L)
          (if found
            then (
              ok tt,
              record db {
                outbox =
                    update_where (λ o. o.outbox_id == entry.outbox_id) (save_over entry) db.outbox;
              },
            )
            else (err no_result_found, db))
  found_or_refused entry true = record {
    log = h.log;
    tried = h.tried;
    scheduled = updated-IsScheduled _ (save_over entry) db.outbox (λ o. (refl, refl)) h.scheduled;
  }
  found_or_refused entry false = tt

  pub save-Holds : (entry : QueueOutbox) → Ensures (λ _. Holds L) (save entry db)
  unfolding save
  save-Holds entry =
      found_or_refused entry (is_some (find_row outbox_key entry.outbox_id db.outbox))

  is_new : (o : Option RunAttempt) (b : Bool) → (is_some o || b) ≡ false → o ≡ none
  is_new none b h = refl
  is_new (some a) b h = cc

  pub add_attempt-Holds :
      (a : RunAttempt)
      → a.attempt_number ≡ count_where (attempt_of a.run_id) db.attempts + 1
      → Ensures (λ _. Holds L) (add_attempt a db)
  unfolding add_attempt
  add_attempt-Holds a number =
      Ensures-unless (λ _. Holds L) _ _ db a (record db { attempts = db.attempts ++ a ∷ [] })
        λ free. record {
          log = h.log;
          tried = appended-IsTried db.attempts a h.tried (is_new _ _ free) number;
          scheduled = h.scheduled;
        }

owned_by-some :
    (owner_id : ℕ) (o : Option Run) (run : Run) → owned_by owner_id o ≡ some run → o ≡ some run
owned_by-some owner_id none run h = cc
owned_by-some owner_id (some r) run h = ground arith

row_number :
    (o : Option Run) (log : List Event) (run : Run)
    → Faithful o log
    → o ≡ some run
    → 1 ≤ run.event_sequence
row_number none log run h e = cc
row_number (some r) log run h e = ground arith

-- The stored row itself.
pub stored-IsPast :
    (run : Run) (runs : List Run) (events : List Event)
    → IsLogged runs events
    → find_row run_key run.run_id runs ≡ some run
    → IsPast run runs
stored-IsPast run runs events h e r f = ground (arith, row_number _ _ run (h.faithful run.run_id) e)

pub read-IsPast :
    (run_id : ℕ) (run : Run) (runs : List Run) (events : List Event)
    → IsLogged runs events
    → find_row run_key run_id runs ≡ some run
    → IsPast run runs
read-IsPast run_id run runs events h e = stored-IsPast run runs events h (
    subst (λ k. find_row run_key k runs ≡ some run) (sym (find_row_key run_key run_id runs run e))
      e)

pub locked-IsPast :
    (run_id owner_id : ℕ) (run : Run) (runs : List Run) (events : List Event)
    → IsLogged runs events
    → owned_by owner_id (find_row run_key run_id runs) ≡ some run
    → IsPast run runs
locked-IsPast run_id owner_id run runs events h e =
    read-IsPast run_id run runs events h (owned_by-some owner_id _ run e)
