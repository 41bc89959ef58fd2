-- ===== src/Usage.antt =====
-- backend/src/literature_agent/domain/agent_usage.py: the budget of an agent's turn and the calls of
-- models and tools that are counted against it. Identifiers are numbers, and a reservation key, which
-- is the text `model:{turn_run_id}:{ordinal}` or `tool:{turn_run_id}:{invocation_id}`, is the pair of
-- its numbers. Other texts are lists of code points.
pub mod ToolCall
pub mod Tables
pub mod Service
pub mod Tools
pub mod Rows
pub mod Budget
pub mod ModelBudget
pub mod ToolBudget
pub mod Calls
pub mod Effects
pub mod Once
pub mod Kept
pub mod Log
pub mod Deadline
use literature_research_agen.Base.{
  ℕ, ◌+◌, ◌-◌, ◌*◌, ◌/◌, Bool, true, false, ◌&&◌, ◌||◌, not, Option, none, some, List, [], ◌∷◌,
  length, ◌==◌, ltb, leb, if◌then◌else◌, is_some,
}
use literature_research_agen.Run.Errors.{Error}
use literature_research_agen.Runtime.Texts.{Text, same_text}
use literature_research_agen.Runtime.Create.{all_hex}
use literature_research_agen.Chunking.Units.{is_blank}

-- The codes of `AgentUsageError`, a ValueError of the domain, and an error of the tables of the runs.
pub data UsageError : Type 0 where
  usage_missing scope_invalid turn_cancelled turn_not_running deadline_exceeded : UsageError
  input_token_budget_exceeded model_budget_exceeded model_reservation_missing : UsageError
  model_usage_conflict tool_not_allowed tool_contract_missing tool_schema_drift : UsageError
  tool_reservation_conflict tool_budget_exceeded tool_loop_rejected : UsageError
  tool_effect_in_progress tool_effect_terminal tool_claim_conflict tool_output_too_large :
      UsageError
  tool_result_conflict tool_complete_conflict tool_error_conflict : UsageError
  tool_reservation_missing budget_event_conflict invalid_value : UsageError
  database_error : Error → UsageError

pub data Guarded (A : Type 0) : Type 0 where
  passed : A → Guarded A
  stopped : UsageError → Guarded A

infixl 5 ◌>>=◌
unfoldable pub ◌>>=◌ : {A B : Type 0} → Guarded A → (A → Guarded B) → Guarded B
passed a >>= f = f a
stopped e >>= f = stopped e

-- `if not ok: raise e`
abbrev pub check : Bool → UsageError → Guarded (Unit {0})
check true e = passed tt
check false e = stopped e

-- `AgentToolCallStatus`
pub data AgentToolCallStatus : Type 0 where
  reserved running succeeded failed : AgentToolCallStatus

abbrev pub call_code : AgentToolCallStatus → ℕ
call_code reserved = 0
call_code running = 1
call_code succeeded = 2
call_code failed = 3

pub record AgentModelCallReservation : Type 0 where
  pub turn_run_id : ℕ
  pub ordinal : ℕ
  pub input_tokens : Option ℕ
  pub output_tokens : Option ℕ
  pub created_at : ℕ
  pub updated_at : ℕ

-- `a is not None and b is not None and a != b`
abbrev pub conflicts : Option ℕ → Option ℕ → Bool
conflicts none b = false
conflicts (some a) none = false
conflicts (some a) (some b) = not (a == b)

-- `a if a is not None else b`
abbrev pub or_else : Option ℕ → Option ℕ → Option ℕ
or_else none b = b
or_else (some a) b = some a

abbrev pub same_count : Option ℕ → Option ℕ → Bool
same_count none none = true
same_count (some a) (some b) = a == b
same_count _ _ = false

-- `AgentModelCallReservation.record_tokens`
unfoldable pub record_tokens :
    AgentModelCallReservation → Option ℕ → Option ℕ → ℕ → Guarded AgentModelCallReservation
record_tokens self input output now =
    if conflicts self.input_tokens input || conflicts self.output_tokens output
    then stopped invalid_value
    else if same_count (or_else self.input_tokens input) self.input_tokens
        && same_count (or_else self.output_tokens output) self.output_tokens
    then passed self
    else passed (record self {
      input_tokens = or_else self.input_tokens input;
      output_tokens = or_else self.output_tokens output;
      updated_at = now;
    })

-- The limits that the usage of a turn shares with its policy snapshot.
pub record Limits : Type 0 where
  pub max_model_calls : ℕ
  pub max_tool_calls : ℕ
  pub wall_clock_limit_seconds : ℕ
  pub tool_timeout_seconds : ℕ
  pub execute_timeout_seconds : ℕ
  pub max_tool_output_bytes : ℕ
  pub max_repeated_tool_calls : ℕ
  pub max_input_tokens_per_model_call : ℕ
  pub max_output_tokens_per_model_call : ℕ

-- Times are in microseconds.
pub record AgentTurnUsage : Type 0 where
  pub turn_run_id : ℕ
  pub owner_id : ℕ
  pub project_id : ℕ
  pub session_id : ℕ
  pub policy_snapshot_id : ℕ
  pub limits : Limits
  pub model_calls_reserved : ℕ
  pub tool_calls_reserved : ℕ
  pub input_tokens : Option ℕ
  pub output_tokens : Option ℕ
  pub started_at : Option ℕ
  pub deadline_at : Option ℕ
  pub created_at : ℕ
  pub updated_at : ℕ

-- `AgentTurnUsage.__post_init__`, for a usage that is not negative.
unfoldable pub is_valid_usage : AgentTurnUsage → Bool
is_valid_usage u =
    not (u.limits.wall_clock_limit_seconds == 0)
    && not (u.limits.tool_timeout_seconds == 0)
    && not (u.limits.execute_timeout_seconds == 0)
    && not (u.limits.max_tool_output_bytes == 0)
    && not (u.limits.max_repeated_tool_calls == 0)
    && not (u.limits.max_input_tokens_per_model_call == 0)
    && not (u.limits.max_output_tokens_per_model_call == 0)
    && leb u.model_calls_reserved u.limits.max_model_calls
    && leb u.tool_calls_reserved u.limits.max_tool_calls
    && clock u.started_at u.deadline_at
  where
    clock : Option ℕ → Option ℕ → Bool
    clock none none = true
    clock (some started) (some deadline) = ltb started deadline
    clock _ _ = false

-- `create_agent_turn_usage`
unfoldable pub create_agent_turn_usage : ℕ → ℕ → ℕ → ℕ → ℕ → Limits → ℕ → Guarded AgentTurnUsage
unfolding is_valid_usage
create_agent_turn_usage turn owner project session policy limits now =
    if is_valid_usage new_usage then passed new_usage else stopped invalid_value
  where
    new_usage : AgentTurnUsage
    new_usage = record {
      turn_run_id = turn;
      owner_id = owner;
      project_id = project;
      session_id = session;
      policy_snapshot_id = policy;
      limits = limits;
      model_calls_reserved = 0;
      tool_calls_reserved = 0;
      input_tokens = none;
      output_tokens = none;
      started_at = none;
      deadline_at = none;
      created_at = now;
      updated_at = now;
    }

-- `AgentTurnUsage.start`
unfoldable pub start_usage : AgentTurnUsage → ℕ → AgentTurnUsage
start_usage self now = if is_some self.started_at then self else record self {
  started_at = some now;
  deadline_at = some (now + self.limits.wall_clock_limit_seconds * 1_000_000);
  updated_at = now;
}
