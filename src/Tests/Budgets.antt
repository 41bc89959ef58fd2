-- ===== src/Tests/Budgets.antt =====
-- Tests and witnesses of the budget of an agent's turn.
use literature_research_agen.Base.{
  ℕ, ◌≡◌, refl, subst, false, inl, inr, none, some, List, [], ◌∷◌, ◌==◌, find_row, count_where,
  update_where, Bool-cases, arith, true, select_where,
}
use literature_research_agen.Run.{Run, running, run_type_value, agent_turn, same_status}
use literature_research_agen.Runtime.Texts.{Text}
use literature_research_agen.Usage.{
  Limits, AgentTurnUsage, reserved, passed, stopped, UsageError, ◌>>=◌, create_agent_turn_usage,
}
use literature_research_agen.Usage.ToolCall.{AgentToolCall}
use literature_research_agen.Usage.Tables.{UsageDb, usage_key}
use literature_research_agen.Usage.Tools.{start_tool_call}
use literature_research_agen.Usage.Budget.{IsBudgeted, IsWithin}
use literature_research_agen.Usage.Calls.{
  UsageCall, reserves_model, starts_turn, apply_usages, apply_usages-IsBudgeted,
}
use literature_research_agen.Usage.Once.{start_tool_call_once}
use literature_research_agen.Usage.Deadline.{apply_usages_clock}
use literature_research_agen.Usage.Log.{IsLoggedDb, apply_usages-IsLoggedDb}
use literature_research_agen.History.Replay.{replay, replay_from}
use literature_research_agen.Tests.Fixtures.{run_at, created, started}

abbrev small_limits : Limits
small_limits = record {
  max_model_calls = 2;
  max_tool_calls = 3;
  wall_clock_limit_seconds = 300;
  tool_timeout_seconds = 60;
  execute_timeout_seconds = 60;
  max_tool_output_bytes = 1000;
  max_repeated_tool_calls = 2;
  max_input_tokens_per_model_call = 100;
  max_output_tokens_per_model_call = 100;
}

abbrev fresh_usage : AgentTurnUsage
fresh_usage = record {
  turn_run_id = 1;
  owner_id = 9;
  project_id = 7;
  session_id = 4;
  policy_snapshot_id = 6;
  limits = small_limits;
  model_calls_reserved = 0;
  tool_calls_reserved = 0;
  input_tokens = none;
  output_tokens = none;
  started_at = none;
  deadline_at = none;
  created_at = 10;
  updated_at = 10;
}

fresh_usage_test : create_agent_turn_usage 1 9 7 4 6 small_limits 10 ≡ passed fresh_usage
unfolding create_agent_turn_usage
fresh_usage_test = refl

abbrev agent_run : Run
agent_run = record (run_at running 3) { run_type = run_type_value agent_turn }

abbrev turn_db : List AgentToolCall → UsageDb
turn_db calls = record {
  db = record { runs = agent_run ∷ []; events = []; attempts = []; outbox = [] };
  turns =
      record { turn_run_id = 1; session_id = 4; context_snapshot_id = 5; policy_snapshot_id = 6 }
      ∷ [];
  sessions = record { session_id = 4; owner_id = 9; project_id = 7 } ∷ [];
  contexts =
      record { snapshot_id = 5; owner_id = 9; project_id = 7; session_id = 4; turn_run_id = 1 }
      ∷ [];
  policies =
      record {
        snapshot_id = 6;
        owner_id = 9;
        project_id = 7;
        session_id = 4;
        turn_run_id = 1;
        limits = small_limits;
        allowed_tool_names = [];
        tool_refs = [];
      }
      ∷ [];
  usages = fresh_usage ∷ [];
  model_calls = [];
  tool_calls = calls;
}

turn_db-IsBudgeted : IsBudgeted (turn_db [])
unfolding find_row count_where
turn_db-IsBudgeted turn u q = elim (Bool-cases (1 == turn)) [
  | inl here ↦
      subst (λ r. IsWithin turn r [] []) (row (rw here at q))
        (refl, omega arith, refl, omega arith, λ name args. omega arith)
  | inr elsewhere ↦ absurd (missing (rw elsewhere at q))
]
  where
    row : some fresh_usage ≡ some u → fresh_usage ≡ u
    row k = cc

    missing : none ≡ some u → ⊥
    missing k = cc

abbrev three_calls : List UsageCall
three_calls =
    reserves_model false (record { fresh_id = 1; now = 20 }) 1 1 50 20
    ∷ reserves_model false (record { fresh_id = 2; now = 21 }) 1 2 50 21
    ∷ reserves_model false (record { fresh_id = 3; now = 22 }) 1 3 50 22
    ∷ []

abbrev thousandth : ℕ → ℕ
thousandth n = n

apply_usages-IsBudgeted_example : IsBudgeted (apply_usages thousandth three_calls (turn_db []))
apply_usages-IsBudgeted_example =
    apply_usages-IsBudgeted thousandth three_calls (turn_db []) turn_db-IsBudgeted

abbrev call_hash : Text
call_hash =
    97 ∷ 48 ∷ 97 ∷ 48 ∷ 97 ∷ 48 ∷ 97 ∷ 48 ∷ 97 ∷ 48 ∷ 97 ∷ 48 ∷ 97 ∷ 48 ∷ 97 ∷ 48 ∷ 97 ∷ 48 ∷ 97
    ∷ 48 ∷ 97 ∷ 48 ∷ 97 ∷ 48 ∷ 97 ∷ 48 ∷ 97 ∷ 48 ∷ 97 ∷ 48 ∷ 97 ∷ 48 ∷ 97 ∷ 48 ∷ 97 ∷ 48 ∷ 97 ∷ 48
    ∷ 97 ∷ 48 ∷ 97 ∷ 48 ∷ 97 ∷ 48 ∷ 97 ∷ 48 ∷ 97 ∷ 48 ∷ 97 ∷ 48 ∷ 97 ∷ 48 ∷ 97 ∷ 48 ∷ 97 ∷ 48 ∷ 97
    ∷ 48 ∷ 97 ∷ 48 ∷ 97 ∷ 48 ∷ 97 ∷ 48 ∷ []

abbrev reserved_call : AgentToolCall
reserved_call = record {
  turn_run_id = 1;
  invocation_id = 8;
  tool_name = 115 ∷ [];
  tool_version = 49 ∷ [];
  input_schema_hash = call_hash;
  args_hash = call_hash;
  status = reserved;
  input_size_bytes = 3;
  output_size_bytes = none;
  result_hash = none;
  error_code = none;
  safe_message = none;
  duration_ms = none;
  started_at = none;
  completed_at = none;
  created_at = 20;
  updated_at = 20;
  input_preview = none;
  input_preview_truncated = false;
  output_preview = none;
  output_preview_truncated = false;
}

abbrev started_call : AgentToolCall
started_call = record reserved_call {
  status = literature_research_agen.Usage.running;
  started_at = some 31;
  updated_at = 31;
}

start_test :
    start_tool_call 1 1 8 30 31 (turn_db (reserved_call ∷ []))
    ≡ passed (started_call, turn_db (started_call ∷ []))
unfolding start_tool_call ◌>>=◌ find_row run_type_value same_status count_where update_where
start_test = refl

start_tool_call_once_example :
    (e : UsageError) × (start_tool_call 1 1 8 40 41
        (apply_usages thousandth three_calls (turn_db (started_call ∷ [])))
      ≡ stopped e)
start_tool_call_once_example =
    start_tool_call_once thousandth 1 1 8 30 31 (turn_db (reserved_call ∷ []))
      (turn_db (started_call ∷ [])) started_call three_calls 1 40 41 start_test

-- The run of `turn_db` with its two events.
abbrev started_db : UsageDb
started_db = record (turn_db []) {
  db = record {
    runs = agent_run ∷ [];
    events = created ∷ started ∷ [];
    attempts = [];
    outbox = [];
  };
}

started_db-IsLoggedDb : IsLoggedDb started_db.db
unfolding find_row select_where count_where replay replay_from run_type_value
started_db-IsLoggedDb = record {
  unique = λ k. ground arith;
  faithful = λ k. elim (Bool-cases (1 == k)) [
    | inl own ↦ rw own ((refl, (refl, tt)), refl, refl)
    | inr other ↦ rw other refl
  ];
}

abbrev two_logged_calls : List UsageCall
two_logged_calls =
    reserves_model true (record { fresh_id = 102; now = 20 }) 1 1 50 20
    ∷ reserves_model true (record { fresh_id = 103; now = 21 }) 1 2 50 21
    ∷ []

apply_usages-IsLoggedDb_example :
    IsLoggedDb (apply_usages thousandth two_logged_calls started_db).db
apply_usages-IsLoggedDb_example =
    apply_usages-IsLoggedDb thousandth two_logged_calls started_db started_db-IsLoggedDb

-- A turn whose clock has started at 15.
abbrev ticking_usage : AgentTurnUsage
ticking_usage = record fresh_usage { started_at = some 15; deadline_at = some 300000015 }

abbrev ticking_db : UsageDb
ticking_db = record (turn_db []) { usages = ticking_usage ∷ [] }

ticking_test : find_row usage_key 1 ticking_db.usages ≡ some ticking_usage
unfolding find_row
ticking_test = refl

apply_usages_clock_example :
    (v : AgentTurnUsage) × (find_row usage_key 1
        (apply_usages thousandth (starts_turn 1 40 ∷ three_calls) ticking_db).usages
      ≡ some v)
    × ((v.started_at ≡ some 15) × (v.deadline_at ≡ some 300000015))
apply_usages_clock_example =
    apply_usages_clock thousandth (starts_turn 1 40 ∷ three_calls) ticking_db 1 ticking_usage
      ticking_test refl
