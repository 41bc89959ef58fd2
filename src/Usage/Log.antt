-- ===== src/Usage/Log.antt =====
-- The events of the budget and the logs of the runs.
use literature_research_agen.Base.{
  ℕ, ◌≡◌, refl, inl, inr, Bool, true, false, not, Option, List, ◌==◌, if◌then◌else◌, Bool-cases,
  arith,
}
use literature_research_agen.Usage.{
  record_tokens, Guarded, passed, stopped, AgentTurnUsage, start_usage,
}
use literature_research_agen.Usage.ToolCall.{AgentToolCall}
use literature_research_agen.Usage.Tables.{UsageDb, get_tool_call, save_usage, save_model_call}
use literature_research_agen.Usage.Rows.{Then, holds, stops, Then-passed, Then-bind, found_or_found}
use literature_research_agen.Usage.Service.{
  record_model_usage, adds_tokens, start_turn, reserve_model_call, count_model_call,
}
use literature_research_agen.Usage.Tools.{
  reserve_tool_call, count_tool_call, is_replay, ToolCallReservationRequest,
}
use literature_research_agen.Usage.Budget.{Guarded-cases}
use literature_research_agen.Usage.Calls.{UsageCall, apply_usages}
use literature_research_agen.Base.{leb, find_row, count_where, is_some, ◌||◌, Option-cases, ◌+◌}
use literature_research_agen.Usage.Tables.{add_model_call, add_tool_call, get_model_call}
use literature_research_agen.Usage.{tool_reservation_conflict}
use literature_research_agen.Run.{Run}
use literature_research_agen.Event.{Event, Stamp, CorrelationId, create_event, other, system}
use literature_research_agen.Db.{Db}
use literature_research_agen.Db.Runs.{run_key, update_status, has_status}
use literature_research_agen.Db.Events.{add_event, clashes}
use literature_research_agen.History.Sound.{IsLogged, IsPast, updated-IsAdvanced}
use literature_research_agen.History.Append.{appended-IsLogged}
use literature_research_agen.Invariant.Actions.{locked-IsPast}
use literature_research_agen.Usage.Service.{
  append_budget_event, load_locked_closure, budget_payload,
}
use literature_research_agen.Usage.Kept.{apply_usages_kept}

abbrev pub IsLoggedDb : Db → Type 0
IsLoggedDb db = IsLogged db.runs db.events

unclashed : (a b : Bool) (n : ℕ) → (a || (leb 1 n || b)) ≡ false → n ≡ 0
unclashed a b n h = ground arith

append_budget_event-IsLoggedDb :
    (logs : Bool) (stamp : Stamp) (run : Run) (correlation : CorrelationId) (usage : AgentTurnUsage)
    (db : Db)
    → IsLoggedDb db
    → IsPast run db.runs
    → Then IsLoggedDb (append_budget_event logs stamp run correlation usage db)
unfolding append_budget_event add_event update_status create_event
append_budget_event-IsLoggedDb false stamp run correlation usage db h past = holds db h
append_budget_event-IsLoggedDb true stamp run correlation usage db h past =
    elim (Bool-cases taken) [
      | inl refused_key ↦ rw refused_key (stops _)
      | inr free ↦
          rw free (elim (Bool-cases (count_where (has_status run.run_id run.status) db.runs == 1)) [
            | inr lost ↦ rw lost (stops _)
            | inl counted ↦ rw counted (
                holds _ (
                  appended-IsLogged run run.status run.status event _ db.events
                    (updated-IsAdvanced run run.status run.status db.runs db.events h past counted)
                    refl refl refl (no_clash free)))
          ])
    ]
  where
    event : Event
    event =
        create_event stamp run.run_id run.event_sequence (other "agent_budget_updated") system
          correlation (budget_payload usage)

    taken : Bool
    taken =
        is_some (find_row (λ (e : Event). e.event_id) event.event_id db.events)
        || (leb 1 (count_where (clashes event) db.events)
            || not (is_some (find_row run_key event.run_id db.runs)))

    no_clash : taken ≡ false → count_where (clashes event) db.events ≡ 0
    no_clash free =
        unclashed (is_some (find_row (λ (e : Event). e.event_id) event.event_id db.events))
          (not (is_some (find_row run_key event.run_id db.runs)))
          (count_where (clashes event) db.events) free

-- The run of a closure is the stored one.
load_locked_closure-IsPast :
    (allow : Bool) (turn : ℕ) (db : UsageDb)
    → IsLoggedDb db.db
    → Then (λ c. IsPast c.run db.db.runs) (load_locked_closure allow turn db)
unfolding load_locked_closure
load_locked_closure-IsPast allow turn db h = Then-bind _ _ λ usage _. Then-bind _ _ λ run q.
    Then-bind _ _ λ _ _. Then-bind _ _ λ _ _. Then-bind _ _ λ t _. Then-bind _ _ λ s _.
      Then-bind _ _ λ c _. Then-bind _ _ λ p _. Then-bind _ _ λ _ _.
        holds _ (
          locked-IsPast turn usage.owner_id run db.db.runs db.db.events h
            (found_or_found _ _ run q))

-- What a transaction keeps.
abbrev pub KeepsLog : {A : Type 0} → Guarded (A × UsageDb) → Type 0
KeepsLog m = Then (λ r. IsLoggedDb r.1.db) m

start_turn-KeepsLog :
    (turn now : ℕ) (db : UsageDb) → IsLoggedDb db.db → KeepsLog (start_turn turn now db)
unfolding start_turn save_usage
start_turn-KeepsLog turn now db h = Then-bind _ _ λ c _.
    Then-bind _ _ λ _ _. holds _ (same (is_some c.usage.started_at) (start_usage c.usage now))
  where
    same : (b : Bool) (v : AgentTurnUsage) → IsLoggedDb (if b then db else save_usage v db).db
    same true v = h
    same false v = h

reserve_model_call-KeepsLog :
    (logs : Bool) (stamp : Stamp) (turn ordinal tokens now : ℕ) (db : UsageDb)
    → IsLoggedDb db.db
    → KeepsLog (reserve_model_call logs stamp turn ordinal tokens now db)
unfolding reserve_model_call count_model_call save_usage add_model_call
reserve_model_call-KeepsLog logs stamp turn ordinal tokens now db h = Then-bind _ _ λ c loaded.
    Then-bind _ _ λ _ _. Then-bind _ _ λ _ _. Then-bind _ _ λ _ _.
      elim (Option-cases (get_model_call turn ordinal db.model_calls)) [
        | inr (call, there) ↦ rw there (holds _ h)
        | inl missing ↦ rw missing (
            Then-bind _ _ λ _ _. Then-bind _ _ λ lifecycle q. holds _ (
              Then-passed _ _ lifecycle
                (append_budget_event-IsLoggedDb logs stamp c.run _
                  (record (start_usage c.usage now) {
                    model_calls_reserved = (start_usage c.usage now).model_calls_reserved + 1;
                    updated_at = now;
                  })
                  db.db h (Then-passed _ _ c (load_locked_closure-IsPast false turn db h) loaded))
                q))
      ]

record_model_usage-IsLoggedDb :
    (turn ordinal : ℕ) (input output : Option ℕ) (now later : ℕ) (db : UsageDb)
    → IsLoggedDb db.db
    → Then (λ db'. IsLoggedDb db'.db) (record_model_usage turn ordinal input output now later db)
unfolding record_model_usage save_usage save_model_call
record_model_usage-IsLoggedDb turn ordinal input output now later db h = Then-bind _ _ λ c _.
    Then-bind _ _ λ call _. elim (Guarded-cases (record_tokens call input output now)) [
      | inr (e, q) ↦ rw q (stops _)
      | inl (changed, q) ↦ rw q (elim (Bool-cases (adds_tokens call input output)) [
        | inr kept ↦ rw kept (holds _ h)
        | inl more ↦ rw more (holds _ h)
      ])
    ]

reserve_tool_call-KeepsLog :
    (logs : Bool) (stamp : Stamp) (turn : ℕ) (request : ToolCallReservationRequest) (now : ℕ)
    (db : UsageDb)
    → IsLoggedDb db.db
    → KeepsLog (reserve_tool_call logs stamp turn request now db)
unfolding reserve_tool_call count_tool_call save_usage add_tool_call
reserve_tool_call-KeepsLog logs stamp turn request now db h = Then-bind _ _ λ c loaded.
    Then-bind _ _ λ _ _. Then-bind _ _ λ _ _. Then-bind _ _ λ _ _. Then-bind _ _ λ _ _.
      Then-bind _ _ λ proposed _.
        elim (Option-cases (get_tool_call turn request.invocation_id db.tool_calls)) [
          | inr (call, there) ↦ rw there (replayed call (is_replay call proposed))
          | inl missing ↦ rw missing (
              Then-bind _ _ λ _ _. Then-bind _ _ λ _ _. Then-bind _ _ λ lifecycle q. holds _ (
                Then-passed _ _ lifecycle
                  (append_budget_event-IsLoggedDb logs stamp c.run _
                    (record (start_usage c.usage now) {
                      tool_calls_reserved = (start_usage c.usage now).tool_calls_reserved + 1;
                      updated_at = now;
                    })
                    db.db h (Then-passed _ _ c (load_locked_closure-IsPast false turn db h) loaded))
                  q))
        ]
  where
    replayed :
        (call : AgentToolCall) (same : Bool)
        → Then
            (λ (r : AgentToolCall × UsageDb). IsLoggedDb r.1.db)
            (if same then passed (call, db) else stopped tool_reservation_conflict)
    replayed call true = holds _ h
    replayed call false = stops _

-- When the events of every run are numbered without a gap up to the run's counter and retell its
-- history, they still are and do after any list of requests to the budget service, whose own
-- events take their number from that counter.
pub apply_usages-IsLoggedDb :
    (ms : ℕ → ℕ) (calls : List UsageCall) (db : UsageDb)
    → IsLoggedDb db.db
    → IsLoggedDb (apply_usages ms calls db).db
apply_usages-IsLoggedDb =
    apply_usages_kept (λ db. IsLoggedDb db.db) (λ db calls h. h) start_turn-KeepsLog
      reserve_model_call-KeepsLog record_model_usage-IsLoggedDb reserve_tool_call-KeepsLog
