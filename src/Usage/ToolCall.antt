-- ===== src/Usage/ToolCall.antt =====
-- The tool calls of backend/src/literature_agent/domain/agent_usage.py.
use literature_research_agen.Base.{
  ℕ, ◌+◌, ◌-◌, Bool, true, ◌&&◌, ◌||◌, not, Option, none, some, [], ◌∷◌, length, ◌==◌, ltb, leb,
  if◌then◌else◌, is_some,
}
use literature_research_agen.Runtime.Texts.{Text}
use literature_research_agen.Runtime.Create.{all_hex}
use literature_research_agen.Chunking.Units.{is_blank}
use literature_research_agen.Usage.{
  invalid_value, Guarded, passed, stopped, ◌>>=◌, AgentToolCallStatus, reserved, running, succeeded,
  failed, call_code,
}

pub record AgentToolCall : Type 0 where
  pub turn_run_id : ℕ
  pub invocation_id : ℕ
  pub tool_name : Text
  pub tool_version : Text
  pub input_schema_hash : Text
  pub args_hash : Text
  pub status : AgentToolCallStatus
  pub input_size_bytes : ℕ
  pub output_size_bytes : Option ℕ
  pub result_hash : Option Text
  pub error_code : Option Text
  pub safe_message : Option Text
  pub duration_ms : Option ℕ
  pub started_at : Option ℕ
  pub completed_at : Option ℕ
  pub created_at : ℕ
  pub updated_at : ℕ
  pub input_preview : Option Text
  pub input_preview_truncated : Bool
  pub output_preview : Option Text
  pub output_preview_truncated : Bool

-- `_SHA256_PATTERN.fullmatch`
unfoldable pub is_sha256 : Text → Bool
unfolding all_hex
is_sha256 t = length t == 64 && all_hex t

-- `len(preview.encode("utf-8"))`
unfoldable pub utf8_length : Text → ℕ
utf8_length [] = 0
utf8_length (c ∷ t) =
    (if ltb c 128 then 1 else if ltb c 2048 then 2 else if ltb c 65_536 then 3 else 4)
    + utf8_length t

-- `_validate_preview`
unfoldable pub is_preview : Option Text → Bool → ℕ → Bool
unfolding utf8_length is_blank
is_preview none truncated maximum = not truncated
is_preview (some t) truncated maximum = not (is_blank t) && leb (utf8_length t) maximum

-- A text that is missing, or not blank and at most as long.
abbrev pub is_safe_text : Option Text → ℕ → Bool
is_safe_text none maximum = true
is_safe_text (some t) maximum = not (is_blank t) && leb (length t) maximum

abbrev pub is_named : Text → Bool
is_named t = not (is_blank t) && leb (length t) 100

abbrev pub is_unfinished : AgentToolCallStatus → Bool
is_unfinished s = ltb (call_code s) 2

-- `_validate_state`
unfoldable pub has_valid_state : AgentToolCall → Bool
has_valid_state c = by_status c.status
  where
    result_missing : Bool
    result_missing =
        not (is_some c.completed_at)
        && not (is_some c.output_size_bytes)
        && not (is_some c.result_hash)
        && not (is_some c.error_code)
        && not (is_some c.safe_message)
        && not (is_some c.duration_ms)

    finished : Bool
    finished = is_some c.started_at && is_some c.completed_at && is_some c.duration_ms

    by_status : AgentToolCallStatus → Bool
    by_status reserved = not (is_some c.started_at) && result_missing
    by_status running = is_some c.started_at && result_missing
    by_status succeeded =
        finished
        && is_some c.output_size_bytes
        && is_some c.result_hash
        && not (is_some c.error_code)
        && not (is_some c.safe_message)
    by_status failed =
        finished
        && is_some c.error_code
        && is_some c.safe_message
        && not (is_some c.output_size_bytes)
        && not (is_some c.result_hash)

-- `AgentToolCall.__post_init__`
unfoldable pub is_valid_call : AgentToolCall → Bool
unfolding is_sha256 is_preview has_valid_state
is_valid_call c =
    is_named c.tool_name
    && is_named c.tool_version
    && is_sha256 c.input_schema_hash
    && is_sha256 c.args_hash
    && bounded_output c.output_size_bytes
    && hashed c.result_hash
    && is_safe_text c.error_code 100
    && is_safe_text c.safe_message 500
    && is_preview c.input_preview c.input_preview_truncated 8192
    && is_preview c.output_preview c.output_preview_truncated 16_384
    && not (is_unfinished c.status && (is_some c.output_preview || c.output_preview_truncated))
    && has_valid_state c
  where
    bounded_output : Option ℕ → Bool
    bounded_output none = true
    bounded_output (some n) = leb n 65_536

    hashed : Option Text → Bool
    hashed none = true
    hashed (some t) = is_sha256 t

-- Every tool call that is built is checked.
unfoldable pub built : AgentToolCall → Guarded AgentToolCall
unfolding is_valid_call
built c = if is_valid_call c then passed c else stopped invalid_value

-- `AgentToolCall.start`
unfoldable pub start_call : AgentToolCall → ℕ → Guarded AgentToolCall
unfolding built
start_call self now =
    if call_code self.status == 1
    then passed self
    else if not (call_code self.status == 0)
    then stopped invalid_value
    else built (record self { status = running; started_at = some now; updated_at = now })

-- The values that a result replaces.
abbrev pub with_success : AgentToolCall → ℕ → Text → Option Text → Bool → ℕ → ℕ → AgentToolCall
with_success self output_size result_hash preview truncated duration now = record self {
  status = succeeded;
  output_size_bytes = some output_size;
  result_hash = some result_hash;
  output_preview = preview;
  output_preview_truncated = truncated;
  duration_ms = some duration;
  completed_at = some now;
  updated_at = now;
}

abbrev pub with_failure : AgentToolCall → Text → Text → Option Text → Bool → ℕ → ℕ → AgentToolCall
with_failure self error_code message preview truncated duration now = record self {
  status = failed;
  error_code = some error_code;
  safe_message = some message;
  output_preview = preview;
  output_preview_truncated = truncated;
  duration_ms = some duration;
  completed_at = some now;
  updated_at = now;
}

-- `ms` is `int(duration.total_seconds() * 1_000)`, for a duration in microseconds.
module _ (ms : ℕ → ℕ) where
  -- `_duration_ms`
  unfoldable pub duration_ms : Option ℕ → ℕ → Guarded ℕ
  duration_ms none completed_at = stopped invalid_value
  duration_ms (some started_at) completed_at =
      if ltb completed_at started_at
      then stopped invalid_value
      else passed (ms (completed_at - started_at))

  -- `AgentToolCall.succeed`; a running call has `started_at`.
  unfoldable pub succeed_call :
      AgentToolCall → ℕ → Text → Option Text → Bool → ℕ → Guarded AgentToolCall
  unfolding duration_ms built
  succeed_call self output_size result_hash preview truncated now =
      if not (call_code self.status == 1)
      then stopped invalid_value
      else duration_ms self.started_at now >>= λ duration.
          built (with_success self output_size result_hash preview truncated duration now)

  -- `AgentToolCall.fail`
  unfoldable pub fail_call :
      AgentToolCall → Text → Text → Option Text → Bool → ℕ → Guarded AgentToolCall
  unfolding duration_ms built is_blank
  fail_call self error_code message preview truncated now =
      if not (call_code self.status == 1)
      then stopped invalid_value
      else if is_blank error_code || is_blank message
      then stopped invalid_value
      else duration_ms self.started_at now >>= λ duration.
          built (with_failure self error_code message preview truncated duration now)
