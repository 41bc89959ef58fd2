-- ===== src/Usage/Service.antt =====
-- `AgentUsageService` of application/agent_usage_service.py. Each method is one transaction: it
-- answers with the database that is committed, or stops and leaves it. The clock's readings are
-- arguments.
use text.Mathlib.Text.{◌==◌ as str_eq}
use literature_research_agen.Base.{
  ℕ, ◌+◌, Bool, true, false, ◌&&◌, ◌||◌, not, Option, none, some, ◌==◌, ltb, leb, if◌then◌else◌,
  is_some, find_row, Json, object, field, end, number,
}
use literature_research_agen.Run.{
  Run, RunStatus, same_status, cancel_requested, run_type_value, agent_turn,
}
use literature_research_agen.Run.Errors.{Result, ok, err}
use literature_research_agen.Event.{
  Event, Stamp, create_event, other, system, CorrelationId, model_call,
}
use literature_research_agen.Db.{Db}
use literature_research_agen.Db.Runs.{run_key, owned_by, update_status}
use literature_research_agen.Db.Events.{add_event}
use literature_research_agen.Usage.{
  UsageError, usage_missing, scope_invalid, turn_cancelled, turn_not_running, deadline_exceeded,
  input_token_budget_exceeded, model_budget_exceeded, model_reservation_missing,
  model_usage_conflict, budget_event_conflict, invalid_value, database_error, Guarded, passed,
  stopped, ◌>>=◌, check, AgentModelCallReservation, record_tokens, Limits, AgentTurnUsage,
  start_usage,
}
use literature_research_agen.Usage.Tables.{
  AgentTurnRun, AgentSession, ContextSnapshot, PolicySnapshot, UsageDb, usage_key,
  get_session_scoped, get_turn_scoped, save_usage, get_model_call, add_model_call, save_model_call,
}

abbrev pub found_or : {A : Type 0} → UsageError → Option A → Guarded A
found_or e none = stopped e
found_or e (some a) = passed a

abbrev pub same_limits : Limits → Limits → Bool
same_limits p u =
    p.max_model_calls == u.max_model_calls
    && p.max_tool_calls == u.max_tool_calls
    && p.wall_clock_limit_seconds == u.wall_clock_limit_seconds
    && p.tool_timeout_seconds == u.tool_timeout_seconds
    && p.execute_timeout_seconds == u.execute_timeout_seconds
    && p.max_tool_output_bytes == u.max_tool_output_bytes
    && p.max_repeated_tool_calls == u.max_repeated_tool_calls
    && p.max_input_tokens_per_model_call == u.max_input_tokens_per_model_call
    && p.max_output_tokens_per_model_call == u.max_output_tokens_per_model_call

-- The long condition of `_load_locked_closure`.
unfoldable pub is_bound :
    ℕ → Run → AgentTurnUsage → AgentTurnRun → AgentSession → ContextSnapshot → PolicySnapshot → Bool
is_bound turn run usage t s c p =
    run.owner_id == usage.owner_id
    && run.project_id == usage.project_id
    && t.session_id == usage.session_id
    && t.policy_snapshot_id == usage.policy_snapshot_id
    && s.project_id == usage.project_id
    && c.owner_id == usage.owner_id
    && c.project_id == usage.project_id
    && c.session_id == usage.session_id
    && c.turn_run_id == turn
    && p.owner_id == usage.owner_id
    && p.project_id == usage.project_id
    && p.session_id == usage.session_id
    && p.turn_run_id == turn
    && same_limits p.limits usage.limits

-- `_require_running`
abbrev pub require_running_run : Run → Guarded (Unit {0})
require_running_run run =
    if same_status run.status cancel_requested
    then stopped turn_cancelled
    else check (same_status run.status RunStatus.running) turn_not_running

pub record Closure : Type 0 where
  pub usage : AgentTurnUsage
  pub policy : PolicySnapshot
  pub run : Run

-- `_load_locked_closure`; the second query of the usage finds the row of the first, and locks it.
unfoldable pub load_locked_closure : Bool → ℕ → UsageDb → Guarded Closure
unfolding get_session_scoped get_turn_scoped is_bound
load_locked_closure allow_cancelled turn db =
    found_or usage_missing (find_row usage_key turn db.usages) >>= λ usage.
    found_or scope_invalid (owned_by usage.owner_id (find_row run_key turn db.db.runs)) >>= λ run.
    check (str_eq run.run_type (run_type_value agent_turn)) scope_invalid >>= λ _.
    (if allow_cancelled then passed tt else require_running_run run) >>= λ _.
    found_or scope_invalid (get_turn_scoped turn usage.owner_id db) >>= λ t.
    found_or scope_invalid (get_session_scoped t.session_id usage.owner_id db.sessions) >>= λ s.
    found_or scope_invalid (find_row context_key t.context_snapshot_id db.contexts) >>= λ c.
    found_or scope_invalid (find_row policy_key t.policy_snapshot_id db.policies) >>= λ p.
    check (is_bound turn run usage t s c p) scope_invalid >>= λ _.
    passed (record { usage = usage; policy = p; run = run })
  where
    context_key : ContextSnapshot → ℕ
    context_key c = c.snapshot_id

    policy_key : PolicySnapshot → ℕ
    policy_key p = p.snapshot_id

-- `_require_before_deadline`
abbrev pub require_before_deadline : AgentTurnUsage → ℕ → Guarded (Unit {0})
require_before_deadline usage now = before usage.deadline_at
  where
    before : Option ℕ → Guarded (Unit {0})
    before none = passed tt
    before (some deadline) = check (ltb now deadline) deadline_exceeded

abbrev pub budget_payload : AgentTurnUsage → Json
budget_payload u = object (
    field "model_calls_reserved" (number u.model_calls_reserved) (
      field "max_model_calls" (number u.limits.max_model_calls) (
        field "tool_calls_reserved" (number u.tool_calls_reserved)
          (field "max_tool_calls" (number u.limits.max_tool_calls) end))))

-- `_append_budget_event`; `logs` says that the service has a repository of events.
unfoldable pub append_budget_event :
    Bool → Stamp → Run → CorrelationId → AgentTurnUsage → Db → Guarded Db
unfolding create_event add_event update_status
append_budget_event logs stamp run correlation usage db =
    if logs then added (add_event event db) else passed db
  where
    event : Event
    event =
        create_event stamp run.run_id run.event_sequence (other "agent_budget_updated") system
          correlation (budget_payload usage)

    moved : Result Bool → Db → Guarded Db
    moved (err e) db' = stopped (database_error e)
    moved (ok true) db' = passed db'
    moved (ok false) db' = stopped budget_event_conflict

    added : Result Event × Db → Guarded Db
    added (err e, db') = stopped (database_error e)
    added (ok event, db') =
        let (r, db'') =
          update_status run.run_id run.status run.status (run.event_sequence + 1) db' in
        moved r db''

-- `start_turn`, with the answer as the usage that it is read from
unfoldable pub start_turn : ℕ → ℕ → UsageDb → Guarded (AgentTurnUsage × UsageDb)
unfolding load_locked_closure start_usage save_usage
start_turn turn now db = load_locked_closure false turn db >>= λ c.
    require_before_deadline (start_usage c.usage now) now >>= λ _. passed (
      start_usage c.usage now,
      if is_some c.usage.started_at then db else save_usage (start_usage c.usage now) db,
    )

abbrev pub new_model_call : ℕ → ℕ → ℕ → AgentModelCallReservation
new_model_call turn ordinal now = record {
  turn_run_id = turn;
  ordinal = ordinal;
  input_tokens = none;
  output_tokens = none;
  created_at = now;
  updated_at = now;
}

-- A call that has not been reserved before is counted.
unfoldable pub count_model_call :
    Bool → Stamp → ℕ → ℕ → ℕ → Run → AgentTurnUsage → UsageDb → Guarded (AgentTurnUsage × UsageDb)
unfolding add_model_call save_usage append_budget_event
count_model_call logs stamp turn ordinal now run usage db =
    check (ltb usage.model_calls_reserved usage.limits.max_model_calls) model_budget_exceeded
    >>= λ _.
        append_budget_event logs stamp run (model_call turn ordinal) updated db.db >>= λ lifecycle.
        passed (
          updated,
          save_usage updated
              (add_model_call (new_model_call turn ordinal now) (record db { db = lifecycle })),
        )
  where
    updated : AgentTurnUsage
    updated = record usage {
      model_calls_reserved = usage.model_calls_reserved + 1;
      updated_at = now;
    }

-- `reserve_model_call`
unfoldable pub reserve_model_call :
    Bool → Stamp → ℕ → ℕ → ℕ → ℕ → UsageDb → Guarded (AgentTurnUsage × UsageDb)
unfolding load_locked_closure start_usage count_model_call get_model_call
reserve_model_call logs stamp turn ordinal approximate_tokens now db =
    load_locked_closure false turn db >>= λ c.
    require_before_deadline (start_usage c.usage now) now >>= λ _.
    check (leb approximate_tokens c.usage.limits.max_input_tokens_per_model_call)
      input_token_budget_exceeded
    >>= λ _. check (not (ordinal == 0)) invalid_value >>= λ _.
        existing (start_usage c.usage now) c.run (get_model_call turn ordinal db.model_calls)
  where
    existing :
        AgentTurnUsage → Run → Option AgentModelCallReservation → Guarded (AgentTurnUsage × UsageDb)
    existing usage run (some call) = passed (usage, db)
    existing usage run none = count_model_call logs stamp turn ordinal now run usage db

-- `_add_optional`
abbrev pub add_optional : Option ℕ → Option ℕ → Option ℕ
add_optional current none = current
add_optional none (some n) = some n
add_optional (some m) (some n) = some (m + n)

abbrev pub delta : Option ℕ → Option ℕ → Option ℕ
delta none tokens = tokens
delta (some n) tokens = none

-- `recorded != reservation`
unfoldable pub adds_tokens : AgentModelCallReservation → Option ℕ → Option ℕ → Bool
adds_tokens call input output =
    not (is_some call.input_tokens) && is_some input
    || not (is_some call.output_tokens) && is_some output

-- `record_model_usage`; `now` is read for the call, and `later` for the usage.
unfoldable pub record_model_usage : ℕ → ℕ → Option ℕ → Option ℕ → ℕ → ℕ → UsageDb → Guarded UsageDb
unfolding load_locked_closure get_model_call record_tokens save_model_call save_usage adds_tokens
record_model_usage turn ordinal input output now later db =
    load_locked_closure false turn db >>= λ c.
    found_or model_reservation_missing (get_model_call turn ordinal db.model_calls) >>= λ call.
    recorded c.usage call (record_tokens call input output now)
  where
    recorded :
        AgentTurnUsage
        → AgentModelCallReservation
        → Guarded AgentModelCallReservation
        → Guarded UsageDb
    recorded usage call (stopped e) = stopped model_usage_conflict
    recorded usage call (passed changed) =
        if adds_tokens call input output
        then passed (
            save_usage
              (record usage {
                input_tokens = add_optional usage.input_tokens (delta call.input_tokens input);
                output_tokens = add_optional usage.output_tokens (delta call.output_tokens output);
                updated_at = later;
              })
              (save_model_call changed db))
        else passed db
