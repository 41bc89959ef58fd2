-- ===== src/Usage/Tables.antt =====
-- The tables behind the budget: those of infrastructure/persistence/agent_usage_repository.py, and
-- the rows of infrastructure/persistence/agent_repository.py that bind a turn to its session, its
-- context and its policy.
use literature_research_agen.Base.{
  ℕ, Bool, ◌&&◌, Option, none, some, List, [], ◌∷◌, ◌++◌, ◌==◌, if◌then◌else◌, find_row,
  count_where, update_where,
}
use literature_research_agen.Db.{Db}
use literature_research_agen.Runtime.Texts.{Text, same_text}
use literature_research_agen.Usage.{
  Limits, AgentTurnUsage, AgentModelCallReservation, AgentToolCallStatus, call_code,
}
use literature_research_agen.Usage.ToolCall.{AgentToolCall}

pub record AgentTurnRun : Type 0 where
  pub turn_run_id : ℕ
  pub session_id : ℕ
  pub context_snapshot_id : ℕ
  pub policy_snapshot_id : ℕ

pub record AgentSession : Type 0 where
  pub session_id : ℕ
  pub owner_id : ℕ
  pub project_id : ℕ

pub record ContextSnapshot : Type 0 where
  pub snapshot_id : ℕ
  pub owner_id : ℕ
  pub project_id : ℕ
  pub session_id : ℕ
  pub turn_run_id : ℕ

pub record ToolPolicyRef : Type 0 where
  pub name : Text
  pub version : Text
  pub input_schema_hash : Text

pub record PolicySnapshot : Type 0 where
  pub snapshot_id : ℕ
  pub owner_id : ℕ
  pub project_id : ℕ
  pub session_id : ℕ
  pub turn_run_id : ℕ
  pub limits : Limits
  pub allowed_tool_names : List Text
  pub tool_refs : List ToolPolicyRef

pub record UsageDb : Type 0 where
  pub db : Db
  pub turns : List AgentTurnRun
  pub sessions : List AgentSession
  pub contexts : List ContextSnapshot
  pub policies : List PolicySnapshot
  pub usages : List AgentTurnUsage
  pub model_calls : List AgentModelCallReservation
  pub tool_calls : List AgentToolCall

abbrev pub usage_key : AgentTurnUsage → ℕ
usage_key u = u.turn_run_id

-- `get_session_scoped`
unfoldable pub get_session_scoped : ℕ → ℕ → List AgentSession → Option AgentSession
get_session_scoped session owner [] = none
get_session_scoped session owner (s ∷ rest) =
    if s.session_id == session && s.owner_id == owner
    then some s
    else get_session_scoped session owner rest

-- `get_turn_scoped`, the join with the session of the owner
unfoldable pub get_turn_scoped : ℕ → ℕ → UsageDb → Option AgentTurnRun
unfolding get_session_scoped
get_turn_scoped run_id owner db = of_owner (find_row turn_key run_id db.turns)
  where
    turn_key : AgentTurnRun → ℕ
    turn_key t = t.turn_run_id

    joined : AgentTurnRun → Option AgentSession → Option AgentTurnRun
    joined t none = none
    joined t (some s) = some t

    of_owner : Option AgentTurnRun → Option AgentTurnRun
    of_owner none = none
    of_owner (some t) = joined t (get_session_scoped t.session_id owner db.sessions)

-- `save_usage`
abbrev pub saved_usage : AgentTurnUsage → AgentTurnUsage → AgentTurnUsage
saved_usage value row = record row {
  model_calls_reserved = value.model_calls_reserved;
  tool_calls_reserved = value.tool_calls_reserved;
  input_tokens = value.input_tokens;
  output_tokens = value.output_tokens;
  started_at = value.started_at;
  deadline_at = value.deadline_at;
  updated_at = value.updated_at;
}

unfoldable pub save_usage : AgentTurnUsage → UsageDb → UsageDb
save_usage value db = record db {
  usages = update_where (λ u. u.turn_run_id == value.turn_run_id) (saved_usage value) db.usages;
}

-- `get_model_call` by its key
abbrev pub is_model_call : ℕ → ℕ → AgentModelCallReservation → Bool
is_model_call turn ordinal c = c.turn_run_id == turn && c.ordinal == ordinal

unfoldable pub get_model_call :
    ℕ → ℕ → List AgentModelCallReservation → Option AgentModelCallReservation
get_model_call turn ordinal [] = none
get_model_call turn ordinal (c ∷ rest) =
    if is_model_call turn ordinal c then some c else get_model_call turn ordinal rest

-- `add_model_call`
unfoldable pub add_model_call : AgentModelCallReservation → UsageDb → UsageDb
add_model_call c db = record db { model_calls = db.model_calls ++ c ∷ [] }

-- `save_model_call`
unfoldable pub save_model_call : AgentModelCallReservation → UsageDb → UsageDb
save_model_call c db = record db {
  model_calls =
      update_where (is_model_call c.turn_run_id c.ordinal)
        (λ row. record row {
          input_tokens = c.input_tokens;
          output_tokens = c.output_tokens;
          updated_at = c.updated_at;
        })
        db.model_calls;
}

-- `get_tool_call` by its key
abbrev pub is_tool_call : ℕ → ℕ → AgentToolCall → Bool
is_tool_call turn invocation c = c.turn_run_id == turn && c.invocation_id == invocation

unfoldable pub get_tool_call : ℕ → ℕ → List AgentToolCall → Option AgentToolCall
get_tool_call turn invocation [] = none
get_tool_call turn invocation (c ∷ rest) =
    if is_tool_call turn invocation c then some c else get_tool_call turn invocation rest

-- `add_tool_call`
unfoldable pub add_tool_call : AgentToolCall → UsageDb → UsageDb
add_tool_call c db = record db { tool_calls = db.tool_calls ++ c ∷ [] }

-- `count_tool_calls_by_signature`
abbrev pub has_signature : ℕ → Text → Text → AgentToolCall → Bool
has_signature turn name args c =
    c.turn_run_id == turn && (same_text c.tool_name name && same_text c.args_hash args)

unfoldable pub count_tool_calls_by_signature : ℕ → Text → Text → UsageDb → ℕ
count_tool_calls_by_signature turn name args db =
    count_where (has_signature turn name args) db.tool_calls

-- `save_tool_call`: the row count is compared with one.
abbrev pub is_expected_call : AgentToolCall → AgentToolCallStatus → AgentToolCall → Bool
is_expected_call value expected c =
    is_tool_call value.turn_run_id value.invocation_id c && call_code c.status == call_code expected

abbrev pub saved_call : AgentToolCall → AgentToolCall → AgentToolCall
saved_call value row = record row {
  status = value.status;
  output_size_bytes = value.output_size_bytes;
  output_preview = value.output_preview;
  output_preview_truncated = value.output_preview_truncated;
  result_hash = value.result_hash;
  error_code = value.error_code;
  safe_message = value.safe_message;
  duration_ms = value.duration_ms;
  started_at = value.started_at;
  completed_at = value.completed_at;
  updated_at = value.updated_at;
}

unfoldable pub is_call_saved : AgentToolCall → AgentToolCallStatus → UsageDb → Bool
is_call_saved value expected db = count_where (is_expected_call value expected) db.tool_calls == 1

unfoldable pub save_tool_call : AgentToolCall → AgentToolCallStatus → UsageDb → UsageDb
save_tool_call value expected db = record db {
  tool_calls = update_where (is_expected_call value expected) (saved_call value) db.tool_calls;
}
