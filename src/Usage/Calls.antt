-- ===== src/Usage/Calls.antt =====
-- Lists of requests to the service.
use literature_research_agen.Base.{ℕ, Bool, Option, List, [], ◌∷◌}
use literature_research_agen.Event.{Stamp}
use literature_research_agen.Runtime.Texts.{Text}
use literature_research_agen.Usage.{Guarded, passed, stopped}
use literature_research_agen.Usage.Tables.{UsageDb}
use literature_research_agen.Usage.Rows.{Then, holds, stops}
use literature_research_agen.Usage.Service.{start_turn, reserve_model_call, record_model_usage}
use literature_research_agen.Usage.Tools.{
  ToolCallReservationRequest, reserve_tool_call, start_tool_call, succeed_tool_call, fail_tool_call,
}
use literature_research_agen.Usage.Budget.{IsBudgeted}
use literature_research_agen.Usage.ModelBudget.{
  start_turn-IsBudgeted, reserve_model_call-IsBudgeted, record_model_usage-IsBudgeted,
}
use literature_research_agen.Usage.ToolBudget.{
  reserve_tool_call-IsBudgeted, start_tool_call-IsBudgeted, succeed_tool_call-IsBudgeted,
  fail_tool_call-IsBudgeted,
}

-- A request to the service.
pub data UsageCall : Type 0 where
  starts_turn : (turn now : ℕ) → UsageCall
  reserves_model : (logs : Bool) (stamp : Stamp) (turn ordinal tokens now : ℕ) → UsageCall
  records_usage : (turn ordinal : ℕ) (input output : Option ℕ) (now later : ℕ) → UsageCall
  reserves_tool :
      (logs : Bool) (stamp : Stamp) (turn : ℕ) (request : ToolCallReservationRequest) (now : ℕ)
      → UsageCall
  starts_tool : (turn key_turn invocation now later : ℕ) → UsageCall
  succeeds_tool :
      (turn key_turn invocation size : ℕ) (hash : Text) (preview : Option Text) (truncated : Bool)
      (now : ℕ)
      → UsageCall
  fails_tool :
      (turn key_turn invocation : ℕ) (code message : Text) (preview : Option Text)
      (truncated : Bool) (now : ℕ)
      → UsageCall

-- The database after a transaction.
unfoldable pub after : {A : Type 0} → Guarded (A × UsageDb) → UsageDb → UsageDb
after (passed (a, db')) db = db'
after (stopped e) db = db

unfoldable pub after_alone : Guarded UsageDb → UsageDb → UsageDb
after_alone (passed db') db = db'
after_alone (stopped e) db = db

module _ (ms : ℕ → ℕ) where
  unfoldable pub apply_usage : UsageCall → UsageDb → UsageDb
  apply_usage (starts_turn turn now) db = after (start_turn turn now db) db
  apply_usage (reserves_model logs stamp turn ordinal tokens now) db =
      after (reserve_model_call logs stamp turn ordinal tokens now db) db
  apply_usage (records_usage turn ordinal input output now later) db =
      after_alone (record_model_usage turn ordinal input output now later db) db
  apply_usage (reserves_tool logs stamp turn request now) db =
      after (reserve_tool_call logs stamp turn request now db) db
  apply_usage (starts_tool turn key_turn invocation now later) db =
      after (start_tool_call turn key_turn invocation now later db) db
  apply_usage (succeeds_tool turn key_turn invocation size hash preview truncated now) db =
      after (succeed_tool_call ms turn key_turn invocation size hash preview truncated now db) db
  apply_usage (fails_tool turn key_turn invocation code message preview truncated now) db =
      after (fail_tool_call ms turn key_turn invocation code message preview truncated now db) db

  unfoldable pub apply_usages : List UsageCall → UsageDb → UsageDb
  unfolding apply_usage
  apply_usages [] db = db
  apply_usages (call ∷ calls) db = apply_usages calls (apply_usage call db)

after-IsBudgeted :
    {A : Type 0} (m : Guarded (A × UsageDb)) (db : UsageDb)
    → IsBudgeted db
    → Then (λ r. IsBudgeted r.1) m
    → IsBudgeted (after m db)
unfolding after
after-IsBudgeted _ db h (holds (a, db') k) = k
after-IsBudgeted _ db h (stops e) = h

after_alone-IsBudgeted :
    (m : Guarded UsageDb) (db : UsageDb)
    → IsBudgeted db
    → Then IsBudgeted m
    → IsBudgeted (after_alone m db)
unfolding after_alone
after_alone-IsBudgeted _ db h (holds db' k) = k
after_alone-IsBudgeted _ db h (stops e) = h

apply_usage-IsBudgeted :
    (ms : ℕ → ℕ) (call : UsageCall) (db : UsageDb)
    → IsBudgeted db
    → IsBudgeted (apply_usage ms call db)
unfolding apply_usage
apply_usage-IsBudgeted ms (starts_turn turn now) db h =
    after-IsBudgeted _ db h (start_turn-IsBudgeted turn now db h)
apply_usage-IsBudgeted ms (reserves_model logs stamp turn ordinal tokens now) db h =
    after-IsBudgeted _ db h (reserve_model_call-IsBudgeted logs stamp turn ordinal tokens now db h)
apply_usage-IsBudgeted ms (records_usage turn ordinal input output now later) db h =
    after_alone-IsBudgeted _ db h
      (record_model_usage-IsBudgeted turn ordinal input output now later db h)
apply_usage-IsBudgeted ms (reserves_tool logs stamp turn request now) db h =
    after-IsBudgeted _ db h (reserve_tool_call-IsBudgeted logs stamp turn request now db h)
apply_usage-IsBudgeted ms (starts_tool turn key_turn invocation now later) db h =
    after-IsBudgeted _ db h (start_tool_call-IsBudgeted turn key_turn invocation now later db h)
apply_usage-IsBudgeted ms (succeeds_tool turn key_turn invocation size hash preview truncated now)
      db h =
    after-IsBudgeted _ db h (
      succeed_tool_call-IsBudgeted ms turn key_turn invocation size hash preview truncated now db h)
apply_usage-IsBudgeted ms (fails_tool turn key_turn invocation code message preview truncated now)
      db h =
    after-IsBudgeted _ db h (
      fail_tool_call-IsBudgeted ms turn key_turn invocation code message preview truncated now db h)

-- Over every list of requests to the service of the budget, from a database that satisfies it the
-- invariant holds: for each turn with a usage, the model calls and the tool calls in the tables
-- are as many as the usage counts, these counts are within its limits, and no tool is reserved
-- with the same arguments more often than its limit of repetitions.
pub apply_usages-IsBudgeted :
    (ms : ℕ → ℕ) (calls : List UsageCall) (db : UsageDb)
    → IsBudgeted db
    → IsBudgeted (apply_usages ms calls db)
unfolding apply_usages
apply_usages-IsBudgeted ms [] db h = h
apply_usages-IsBudgeted ms (call ∷ calls) db h =
    apply_usages-IsBudgeted ms calls (apply_usage ms call db) (apply_usage-IsBudgeted ms call db h)
