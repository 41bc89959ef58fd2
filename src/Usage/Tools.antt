-- ===== src/Usage/Tools.antt =====
-- The tool calls of application/agent_usage_service.py, from the reservation to the result.
use literature_research_agen.Base.{
  ℕ, ◌+◌, Bool, true, false, ◌&&◌, ◌||◌, not, Option, none, some, List, [], ◌∷◌, ◌==◌, ltb, leb,
  if◌then◌else◌,
}
use literature_research_agen.Run.{Run}
use literature_research_agen.Event.{Stamp, tool_call}
use literature_research_agen.Runtime.Texts.{Text, same_text}
use literature_research_agen.Control.{same_optional}
use literature_research_agen.Usage.{
  UsageError, tool_not_allowed, tool_contract_missing, tool_schema_drift, tool_reservation_conflict,
  tool_budget_exceeded, tool_loop_rejected, tool_effect_in_progress, tool_effect_terminal,
  tool_claim_conflict, tool_output_too_large, tool_result_conflict, tool_complete_conflict,
  tool_error_conflict, tool_reservation_missing, Guarded, passed, stopped, ◌>>=◌, check,
  AgentToolCallStatus, reserved, running, call_code, AgentTurnUsage, start_usage, same_count,
}
use literature_research_agen.Usage.ToolCall.{
  AgentToolCall, built, start_call, succeed_call, fail_call,
}
use literature_research_agen.Usage.Tables.{
  ToolPolicyRef, UsageDb, save_usage, get_tool_call, add_tool_call, count_tool_calls_by_signature,
  is_call_saved, save_tool_call,
}
use literature_research_agen.Usage.Service.{
  found_or, load_locked_closure, require_before_deadline, append_budget_event,
}

pub record ToolCallReservationRequest : Type 0 where
  pub invocation_id : ℕ
  pub tool_name : Text
  pub input_schema_hash : Text
  pub args_hash : Text
  pub input_size_bytes : ℕ
  pub input_preview : Option Text
  pub input_preview_truncated : Bool

-- `tool_name in allowed_tool_names`
unfoldable pub is_allowed : Text → List Text → Bool
is_allowed name [] = false
is_allowed name (t ∷ rest) = same_text t name || is_allowed name rest

-- `{ref.name: ref for ref in tool_refs}.get(name)`: the last one of a name.
unfoldable pub ref_named : Text → List ToolPolicyRef → Option ToolPolicyRef
ref_named name [] = none
ref_named name (r ∷ rest) =
    let later = ref_named name rest in
    elim later [ some q ↦ some q | none ↦ if same_text r.name name then some r else none ]

-- The call that `create_agent_tool_call` builds.
abbrev pub new_tool_call : ℕ → ToolCallReservationRequest → Text → ℕ → AgentToolCall
new_tool_call turn request version now = record {
  turn_run_id = turn;
  invocation_id = request.invocation_id;
  tool_name = request.tool_name;
  tool_version = version;
  input_schema_hash = request.input_schema_hash;
  args_hash = request.args_hash;
  status = reserved;
  input_size_bytes = request.input_size_bytes;
  output_size_bytes = none;
  result_hash = none;
  error_code = none;
  safe_message = none;
  duration_ms = none;
  started_at = none;
  completed_at = none;
  created_at = now;
  updated_at = now;
  input_preview = request.input_preview;
  input_preview_truncated = request.input_preview_truncated;
  output_preview = none;
  output_preview_truncated = false;
}

abbrev pub same_flag : Bool → Bool → Bool
same_flag true b = b
same_flag false b = not b

-- A replay asks for the same call.
unfoldable pub is_replay : AgentToolCall → AgentToolCall → Bool
unfolding same_optional
is_replay c proposed =
    same_text c.tool_name proposed.tool_name
    && same_text c.input_schema_hash proposed.input_schema_hash
    && same_text c.args_hash proposed.args_hash
    && c.input_size_bytes == proposed.input_size_bytes
    && same_optional c.input_preview proposed.input_preview
    && same_flag c.input_preview_truncated proposed.input_preview_truncated

-- A call that has not been reserved before is counted.
unfoldable pub count_tool_call :
    Bool
    → Stamp
    → ℕ
    → AgentToolCall
    → Run
    → AgentTurnUsage
    → UsageDb
    → Guarded (AgentToolCall × UsageDb)
unfolding count_tool_calls_by_signature append_budget_event save_usage add_tool_call
count_tool_call logs stamp now proposed run usage db =
    check (ltb usage.tool_calls_reserved usage.limits.max_tool_calls) tool_budget_exceeded >>= λ _.
    check
      (ltb
        (count_tool_calls_by_signature proposed.turn_run_id proposed.tool_name proposed.args_hash
          db)
        usage.limits.max_repeated_tool_calls)
      tool_loop_rejected
    >>= λ _.
        append_budget_event logs stamp run (tool_call proposed.turn_run_id proposed.invocation_id)
          updated db.db
        >>= λ lifecycle.
            passed
              (proposed, save_usage updated (add_tool_call proposed (record db { db = lifecycle })))
  where
    updated : AgentTurnUsage
    updated = record usage { tool_calls_reserved = usage.tool_calls_reserved + 1; updated_at = now }

-- `reserve_tool_call`
unfoldable pub reserve_tool_call :
    Bool → Stamp → ℕ → ToolCallReservationRequest → ℕ → UsageDb → Guarded (AgentToolCall × UsageDb)
unfolding load_locked_closure start_usage is_allowed ref_named built get_tool_call is_replay
    count_tool_call
reserve_tool_call logs stamp turn request now db = load_locked_closure false turn db >>= λ c.
    require_before_deadline (start_usage c.usage now) now >>= λ _.
    check (is_allowed request.tool_name c.policy.allowed_tool_names) tool_not_allowed >>= λ _.
    found_or tool_contract_missing (ref_named request.tool_name c.policy.tool_refs) >>= λ expected.
    check (same_text request.input_schema_hash expected.input_schema_hash) tool_schema_drift
    >>= λ _. built (new_tool_call turn request expected.version now) >>= λ proposed.
        existing (start_usage c.usage now) c.run proposed
          (get_tool_call turn request.invocation_id db.tool_calls)
  where
    existing :
        AgentTurnUsage
        → Run
        → AgentToolCall
        → Option AgentToolCall
        → Guarded (AgentToolCall × UsageDb)
    existing usage run proposed (some call) =
        if is_replay call proposed then passed (call, db) else stopped tool_reservation_conflict
    existing usage run proposed none = count_tool_call logs stamp now proposed run usage db

-- `_require_tool_call`, for the key of `key_turn` and `invocation`
abbrev pub require_tool_call : ℕ → ℕ → ℕ → UsageDb → Guarded AgentToolCall
require_tool_call turn key_turn invocation db =
    found_or tool_reservation_missing (get_tool_call key_turn invocation db.tool_calls) >>= λ call.
    check (call.turn_run_id == turn) tool_reservation_missing >>= λ _. passed call

-- The row is saved if it has the expected status, or the error is raised.
unfoldable pub save_call_or :
    UsageError → AgentToolCall → AgentToolCallStatus → UsageDb → Guarded (AgentToolCall × UsageDb)
unfolding is_call_saved save_tool_call
save_call_or e call expected db =
    check (is_call_saved call expected db) e >>= λ _. passed (call, save_tool_call call expected db)

-- `start_tool_call`; `now` is read for the deadline, and `later` for the call.
unfoldable pub start_tool_call : ℕ → ℕ → ℕ → ℕ → ℕ → UsageDb → Guarded (AgentToolCall × UsageDb)
unfolding load_locked_closure get_tool_call start_call save_call_or
start_tool_call turn key_turn invocation now later db = load_locked_closure false turn db >>= λ c.
    require_before_deadline c.usage now >>= λ _.
    require_tool_call turn key_turn invocation db >>= λ call.
    check (not (call_code call.status == 1)) tool_effect_in_progress >>= λ _.
    check (not (ltb 1 (call_code call.status))) tool_effect_terminal >>= λ _.
    start_call call later >>= λ started. save_call_or tool_claim_conflict started reserved db

module _ (ms : ℕ → ℕ) where
  -- `succeed_tool_call`
  unfoldable pub succeed_tool_call :
      ℕ → ℕ → ℕ → ℕ → Text → Option Text → Bool → ℕ → UsageDb → Guarded (AgentToolCall × UsageDb)
  unfolding load_locked_closure get_tool_call succeed_call save_call_or same_optional
  succeed_tool_call turn key_turn invocation size hash preview truncated now db =
      load_locked_closure false turn db >>= λ c.
      check (leb size c.usage.limits.max_tool_output_bytes) tool_output_too_large >>= λ _.
      require_tool_call turn key_turn invocation db >>= λ call.
      if call_code call.status == 2
      then (check
            (same_count call.output_size_bytes (some size)
              && same_optional call.result_hash (some hash)
              && same_optional call.output_preview preview
              && same_flag call.output_preview_truncated truncated)
            tool_result_conflict
          >>= λ _. passed (call, db))
      else (check (call_code call.status == 1) tool_complete_conflict >>= λ _.
          succeed_call ms call size hash preview truncated now >>= λ done.
          save_call_or tool_complete_conflict done running db)

  -- `fail_tool_call`
  unfoldable pub fail_tool_call :
      ℕ → ℕ → ℕ → Text → Text → Option Text → Bool → ℕ → UsageDb → Guarded (AgentToolCall × UsageDb)
  unfolding load_locked_closure get_tool_call fail_call save_call_or same_optional
  fail_tool_call turn key_turn invocation code message preview truncated now db =
      load_locked_closure true turn db >>= λ c.
      require_tool_call turn key_turn invocation db >>= λ call.
      if call_code call.status == 3
      then (check
            (same_optional call.error_code (some code)
              && same_optional call.safe_message (some message)
              && same_optional call.output_preview preview
              && same_flag call.output_preview_truncated truncated)
            tool_error_conflict
          >>= λ _. passed (call, db))
      else (check (call_code call.status == 1) tool_complete_conflict >>= λ _.
          fail_call ms call code message preview truncated now >>= λ done.
          save_call_or tool_complete_conflict done running db)
