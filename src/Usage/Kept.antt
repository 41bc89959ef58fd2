-- ===== src/Usage/Kept.antt =====
-- Properties of the database that do not read the tool calls, over lists of requests.
use literature_research_agen.Base.{ℕ, Bool, true, false, Option, List, [], ◌∷◌, ◌==◌, if◌then◌else◌}
use literature_research_agen.Event.{Stamp}
use literature_research_agen.Runtime.Texts.{Text}
use literature_research_agen.Usage.{
  UsageError, Guarded, passed, ◌>>=◌, check, AgentToolCallStatus, reserved, running, call_code,
}
use literature_research_agen.Usage.ToolCall.{AgentToolCall}
use literature_research_agen.Usage.Tables.{UsageDb, save_tool_call}
use literature_research_agen.Usage.Rows.{Then, holds, stops, Then-bind}
use literature_research_agen.Usage.Service.{start_turn, reserve_model_call, record_model_usage}
use literature_research_agen.Usage.Tools.{
  ToolCallReservationRequest, reserve_tool_call, save_call_or, start_tool_call, succeed_tool_call,
  fail_tool_call,
}
use literature_research_agen.Usage.Calls.{
  UsageCall, starts_turn, reserves_model, records_usage, reserves_tool, starts_tool, succeeds_tool,
  fails_tool, after, after_alone, apply_usage, apply_usages,
}

module _ (P : UsageDb → Type 0)
    (tools : (db : UsageDb) (calls : List AgentToolCall)
      → P db
      → P (record db { tool_calls = calls })) where
  -- What a transaction keeps.
  abbrev pub Keeps : {A : Type 0} → Guarded (A × UsageDb) → Type 0
  Keeps m = Then (λ r. P r.1) m

  save_call_or-Keeps :
      (e : UsageError) (call : AgentToolCall) (expected : AgentToolCallStatus) (db : UsageDb)
      → P db
      → Keeps (save_call_or e call expected db)
  unfolding save_call_or save_tool_call
  save_call_or-Keeps e call expected db h = Then-bind _ _ λ _ _. holds _ (tools db _ h)

  start_tool_call-Keeps :
      (t key_turn i now later : ℕ) (db : UsageDb)
      → P db
      → Keeps (start_tool_call t key_turn i now later db)
  unfolding start_tool_call
  start_tool_call-Keeps t key_turn i now later db h = Then-bind _ _ λ c _. Then-bind _ _ λ _ _.
      Then-bind _ _ λ call _. Then-bind _ _ λ _ _.
        Then-bind _ _ λ _ _. Then-bind _ _ λ begun _. save_call_or-Keeps _ begun reserved db h

  replay_or-Keeps :
      (replay matches : Bool) (e : UsageError) (call : AgentToolCall) (db : UsageDb)
      (m : Guarded (AgentToolCall × UsageDb))
      → P db
      → Keeps m
      → Then
          (λ (r : AgentToolCall × UsageDb). P r.1)
          (if replay then (check matches e >>= λ _. passed (call, db)) else m)
  replay_or-Keeps true matches e call db m h k = Then-bind _ _ λ _ _. holds _ h
  replay_or-Keeps false matches e call db m h k = k

  succeed_tool_call-Keeps :
      (ms : ℕ → ℕ) (t key_turn i size : ℕ) (hash : Text) (preview : Option Text) (truncated : Bool)
      (now : ℕ) (db : UsageDb)
      → P db
      → Keeps (succeed_tool_call ms t key_turn i size hash preview truncated now db)
  unfolding succeed_tool_call
  succeed_tool_call-Keeps ms t key_turn i size hash preview truncated now db h =
      Then-bind _ _ λ c _. Then-bind _ _ λ _ _. Then-bind _ _ λ call _.
        replay_or-Keeps (call_code call.status == 2) _ _ call db _ h
          (Then-bind _ _ λ _ _. Then-bind _ _ λ over _. save_call_or-Keeps _ over running db h)

  fail_tool_call-Keeps :
      (ms : ℕ → ℕ) (t key_turn i : ℕ) (code message : Text) (preview : Option Text)
      (truncated : Bool) (now : ℕ) (db : UsageDb)
      → P db
      → Keeps (fail_tool_call ms t key_turn i code message preview truncated now db)
  unfolding fail_tool_call
  fail_tool_call-Keeps ms t key_turn i code message preview truncated now db h =
      Then-bind _ _ λ c _. Then-bind _ _ λ call _.
        replay_or-Keeps (call_code call.status == 3) _ _ call db _ h
          (Then-bind _ _ λ _ _. Then-bind _ _ λ over _. save_call_or-Keeps _ over running db h)

  after_kept :
      {A : Type 0} (m : Guarded (A × UsageDb)) (db : UsageDb) → P db → Keeps m → P (after m db)
  unfolding after
  after_kept _ db h (holds (a, db') k) = k
  after_kept _ db h (stops e) = h

  after_alone_kept :
      (m : Guarded UsageDb) (db : UsageDb) → P db → Then (λ db'. P db') m → P (after_alone m db)
  unfolding after_alone
  after_alone_kept _ db h (holds db' k) = k
  after_alone_kept _ db h (stops e) = h

  module _ (turns : (t now : ℕ) (db : UsageDb) → P db → Keeps (start_turn t now db))
      (models : (logs : Bool) (stamp : Stamp) (t ordinal tokens now : ℕ) (db : UsageDb)
        → P db
        → Keeps (reserve_model_call logs stamp t ordinal tokens now db))
      (usages : (t ordinal : ℕ) (input output : Option ℕ) (now later : ℕ) (db : UsageDb)
        → P db
        → Then P (record_model_usage t ordinal input output now later db))
      (calls_of : (logs : Bool) (stamp : Stamp) (t : ℕ) (request : ToolCallReservationRequest)
          (now : ℕ) (db : UsageDb)
        → P db
        → Keeps (reserve_tool_call logs stamp t request now db)) where
    apply_usage_kept :
        (ms : ℕ → ℕ) (call : UsageCall) (db : UsageDb) → P db → P (apply_usage ms call db)
    unfolding apply_usage
    apply_usage_kept ms (starts_turn t now) db h = after_kept _ db h (turns t now db h)
    apply_usage_kept ms (reserves_model logs stamp t ordinal tokens now) db h =
        after_kept _ db h (models logs stamp t ordinal tokens now db h)
    apply_usage_kept ms (records_usage t ordinal input output now later) db h =
        after_alone_kept _ db h (usages t ordinal input output now later db h)
    apply_usage_kept ms (reserves_tool logs stamp t request now) db h =
        after_kept _ db h (calls_of logs stamp t request now db h)
    apply_usage_kept ms (starts_tool t key_turn i now later) db h =
        after_kept _ db h (start_tool_call-Keeps t key_turn i now later db h)
    apply_usage_kept ms (succeeds_tool t key_turn i size hash preview truncated now) db h =
        after_kept _ db h
          (succeed_tool_call-Keeps ms t key_turn i size hash preview truncated now db h)
    apply_usage_kept ms (fails_tool t key_turn i code message preview truncated now) db h =
        after_kept _ db h
          (fail_tool_call-Keeps ms t key_turn i code message preview truncated now db h)

    pub apply_usages_kept :
        (ms : ℕ → ℕ) (calls : List UsageCall) (db : UsageDb) → P db → P (apply_usages ms calls db)
    unfolding apply_usages
    apply_usages_kept ms [] db h = h
    apply_usages_kept ms (call ∷ calls) db h =
        apply_usages_kept ms calls (apply_usage ms call db) (apply_usage_kept ms call db h)
