-- ===== src/Progress/Step.antt =====
-- The step that the services share returns in a sound database.
use mathlib.Core.Option
use literature_research_agen.Base.{
  ℕ, ◌+◌, ◌≡◌, refl, sym, ◌∙◌, ap, subst, true, Option, none, some, List, [], ◌∷◌, ◌++◌, arith,
  Json, if◌then◌else◌, select_where, count_where, update_where, find_row, is_some,
  count_where_found, find_row-update_where, count_where-select_where, ==_iff,
}
use literature_research_agen.Run.{
  Run, RunStatus, same_status, same_status_refl, contains_status, transitions,
}
use literature_research_agen.Run.Errors.{Error, ok, run_concurrent_modification}
use literature_research_agen.Run.Machine.{transition_to_listed}
use literature_research_agen.Event.{Event, EventType, ActorType, CorrelationId, Stamp, create_event}
use literature_research_agen.Db.{Db, Action, pure, require, ◌>>=◌, ◌>>◌}
use literature_research_agen.Db.Returns.{bind_ok}
use literature_research_agen.Db.Runs.{run_key, has_status, set_status, update_status}
use literature_research_agen.Db.Events.{of_run, clashes, add_event}
use literature_research_agen.Lifecycle.Advance.{change_status, append_event}
use literature_research_agen.Lifecycle.Service.{execute_transition, with_result, advanced}
use literature_research_agen.History.Replay.{has_sequence, Numbered-free}
use literature_research_agen.History.Sound.{IsLogged, Faithful}

-- The run as it stands in its table, a target that the table of transitions lists, and an event
-- identifier that is not in use.
pub record CanStep (run : Run) (target : RunStatus) (stamp : Stamp) (db : Db) : Type 0 where
  pub logged : IsLogged db.runs db.events
  pub stored : find_row run_key run.run_id db.runs ≡ some run
  pub listed : contains_status (transitions run.status) target ≡ true
  pub fresh : find_row (λ (e : Event). e.event_id) stamp.fresh_id db.events ≡ none

-- The database after the conditional update of the row, and then with the event.
abbrev pub moved_db : Run → RunStatus → Db → Db
moved_db run target db = record db {
  runs =
      update_where (has_status run.run_id run.status) (set_status target (run.event_sequence + 1))
        db.runs;
}

abbrev pub logged_db : Event → Db → Db
logged_db event db = record db { events = db.events ++ event ∷ [] }

pub change_status_returns :
    (run : Run) (target : RunStatus) (now : ℕ) (db : Db)
    → IsLogged db.runs db.events
    → find_row run_key run.run_id db.runs ≡ some run
    → contains_status (transitions run.status) target ≡ true
    → change_status run run.status target now db ≡ (ok true, moved_db run target db)
unfolding change_status update_status
change_status_returns run target now db logged stored listed =
    rw (transition_to_listed run target now listed, one) refl
  where
    one : count_where (has_status run.run_id run.status) db.runs ≡ 1
    one =
        count_where_found run_key run.run_id (λ r. same_status r.status run.status) db.runs run
          (logged.unique run.run_id) stored
        ∙ ap (λ b. if b then 1 else 0) (same_status_refl run.status)

-- The number of the stored row is free.
number_free :
    (run : Run) (e : Event) (db : Db)
    → IsLogged db.runs db.events
    → find_row run_key run.run_id db.runs ≡ some run
    → e.run_id ≡ run.run_id
    → e.sequence ≡ run.event_sequence
    → count_where (clashes e) db.events ≡ 0
number_free run e db logged stored own number =
    count_where-select_where (of_run e.run_id) (has_sequence e.sequence) db.events
    ∙ Numbered-free 1 e.sequence log faithful.0 (omega (arith, faithful.1))
  where
    log : List Event
    log = select_where (of_run e.run_id) db.events

    faithful : Faithful (some run) log
    faithful =
        subst (λ k. Faithful (some run) (select_where (of_run k) db.events)) (sym own)
          (subst (λ r. Faithful r (select_where (of_run run.run_id) db.events)) stored
            (logged.faithful run.run_id))

-- The row of a run whose status has changed.
pub found_moved :
    (run : Run) (target : RunStatus) (db : Db)
    → find_row run_key run.run_id db.runs ≡ some run
    → find_row run_key run.run_id (moved_db run target db).runs
      ≡ some (set_status target (run.event_sequence + 1) run)
found_moved run target db stored =
    find_row-update_where run_key (has_status run.run_id run.status)
      (set_status target (run.event_sequence + 1)) run.run_id db.runs (λ r. refl)
    ∙ ap (Option.map _) stored
    ∙ rw ((==_iff run.run_id run.run_id).1 refl, same_status_refl run.status) refl

found_after :
    (run : Run) (target : RunStatus) (db : Db)
    → find_row run_key run.run_id db.runs ≡ some run
    → is_some (find_row run_key run.run_id (moved_db run target db).runs) ≡ true
found_after run target db stored = ap is_some (
    find_row-update_where run_key (has_status run.run_id run.status)
      (set_status target (run.event_sequence + 1)) run.run_id db.runs (λ r. refl)
    ∙ ap (Option.map _) stored)

pub append_event_returns :
    (run : Run) (target : RunStatus) (stamp : Stamp) (t : EventType) (actor : ActorType)
    (correlation : CorrelationId) (payload : Json) (db : Db)
    → CanStep run target stamp db
    → append_event run stamp t actor correlation payload (moved_db run target db) ≡ (
      ok (create_event stamp run.run_id run.event_sequence t actor correlation payload),
      logged_db
          (create_event stamp run.run_id run.event_sequence t actor correlation payload)
          (moved_db run target db),
    )
unfolding append_event add_event create_event
append_event_returns run target stamp t actor correlation payload db can =
    rw
      (
        can.fresh,
        number_free run event db can.logged can.stored refl refl,
        found_after run target db can.stored,
      )
      refl
  where
    event : Event
    event = create_event stamp run.run_id run.event_sequence t actor correlation payload

-- What a step makes of the database: the row has the target's status and the next number, and the
-- log has the event under the row's old number.
abbrev pub stepped_db : Run → RunStatus → Event → Db → Db
stepped_db run target event db = logged_db event (moved_db run target db)

-- The step, before whatever follows it in the transaction.
pub step_then :
    {B : Type 0} (run : Run) (target : RunStatus) (stamp : Stamp) (t : EventType)
    (actor : ActorType) (correlation : CorrelationId) (payload : Json) (e : Error) (k : Action B)
    (db : Db)
    → CanStep run target stamp db
    → (change_status run run.status target stamp.now >>= λ changed.
          require changed e >> (append_event run stamp t actor correlation payload >> k))
        db
      ≡ k (
          stepped_db run target
            (create_event stamp run.run_id run.event_sequence t actor correlation payload)
            db)
step_then run target stamp t actor correlation payload e k db can =
    bind_ok (change_status run run.status target stamp.now)
      (λ changed. require changed e >> (append_event run stamp t actor correlation payload >> k)) db
      (moved_db run target db) true
      (change_status_returns run target stamp.now db can.logged can.stored can.listed)
    ∙ bind_ok (append_event run stamp t actor correlation payload) (λ _. k) (moved_db run target db)
        (stepped_db run target event db) event
        (append_event_returns run target stamp t actor correlation payload db can)
  where
    event : Event
    event = create_event stamp run.run_id run.event_sequence t actor correlation payload

-- With a stored row, a target that its status allows, a fresh event identifier and rows that agree
-- with their events, `_execute_transition` raises nothing: it returns the run in the target's
-- status with the next number, and the database has the moved row and, under the old number, its
-- event.
pub execute_transition_returns :
    (stamp : Stamp) (run : Run) (target : RunStatus) (t : EventType) (actor : ActorType)
    (correlation : CorrelationId) (payload : Json) (result : Option Json) (db : Db)
    → CanStep run target stamp db
    → execute_transition stamp run target t actor correlation payload result db ≡ (
      ok (advanced (with_result result (record run { status = target; updated_at = stamp.now }))),
      stepped_db run target
          (create_event stamp run.run_id run.event_sequence t actor correlation payload)
          db,
    )
unfolding execute_transition
execute_transition_returns stamp run target t actor correlation payload result db can =
    rw (transition_to_listed run target stamp.now can.listed) (
      step_then run target stamp t actor correlation payload
        (run_concurrent_modification run.run_id)
        (pure
          (advanced (with_result result (record run { status = target; updated_at = stamp.now }))))
        db can)
