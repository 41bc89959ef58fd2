-- ===== src/Usage/Budget.antt =====
-- The calls of a turn and its budget.
use literature_research_agen.Base.{
  ℕ, ◌≤◌, ◌≡◌, refl, sym, ◌∙◌, subst, ◌⊎◌, inl, inr, Bool, false, some, List, ◌==◌, ==_iff, is_some,
  Bool-cases, Option-cases, find_row, count_where, update_where, apply_if, find_row-update_where,
  find_row_key, arith,
}
use mathlib.Core.Option.{map as map_option}
use literature_research_agen.Runtime.Texts.{Text}
use literature_research_agen.Usage.{
  UsageError, Guarded, passed, stopped, AgentTurnUsage, AgentModelCallReservation, start_usage,
}
use literature_research_agen.Usage.ToolCall.{AgentToolCall}
use literature_research_agen.Usage.Tables.{
  UsageDb, usage_key, saved_usage, save_usage, has_signature,
}
use literature_research_agen.Usage.Rows.{Then-passed, load_found}
use literature_research_agen.Usage.Service.{load_locked_closure, Closure}

abbrev pub model_of : ℕ → AgentModelCallReservation → Bool
model_of turn c = c.turn_run_id == turn

abbrev pub tool_of : ℕ → AgentToolCall → Bool
tool_of turn c = c.turn_run_id == turn

-- The calls in the tables are those that the usage counts, and within its limits.
abbrev pub IsWithin :
    ℕ → AgentTurnUsage → List AgentModelCallReservation → List AgentToolCall → Type 0
IsWithin turn u models tools =
    (count_where (model_of turn) models ≡ u.model_calls_reserved)
    × (u.model_calls_reserved ≤ u.limits.max_model_calls)
    × (count_where (tool_of turn) tools ≡ u.tool_calls_reserved)
    × (u.tool_calls_reserved ≤ u.limits.max_tool_calls)
    × ((name args : Text)
        → count_where (has_signature turn name args) tools ≤ u.limits.max_repeated_tool_calls)

abbrev pub IsBudgeted : UsageDb → Type 0
IsBudgeted db =
    (turn : ℕ) (u : AgentTurnUsage)
    → find_row usage_key turn db.usages ≡ some u
    → IsWithin turn u db.model_calls db.tool_calls

-- The calls of a turn are as many as before.
abbrev pub AreSame :
    ℕ
    → List AgentModelCallReservation
    → List AgentModelCallReservation
    → List AgentToolCall
    → List AgentToolCall
    → Type 0
AreSame turn models models' tools tools' =
    (count_where (model_of turn) models' ≡ count_where (model_of turn) models)
    × (count_where (tool_of turn) tools' ≡ count_where (tool_of turn) tools)
    × ((name args : Text)
        → count_where (has_signature turn name args) tools'
          ≡ count_where (has_signature turn name args) tools)

pub IsWithin-same :
    (turn : ℕ) (u : AgentTurnUsage) (models models' : List AgentModelCallReservation)
    (tools tools' : List AgentToolCall)
    → AreSame turn models models' tools tools'
    → IsWithin turn u models tools
    → IsWithin turn u models' tools'
IsWithin-same turn u models models' tools tools' s h = (
  omega (arith, s.0, h.0),
  h.1,
  omega (arith, s.1, h.2),
  h.3,
  λ name args. omega (arith, s.2 name args, h.4 name args),
)

-- A usage is saved, and only calls of its turn are added.
pub saved-IsBudgeted :
    (db : UsageDb) (u v : AgentTurnUsage) (models' : List AgentModelCallReservation)
    (tools' : List AgentToolCall)
    → IsBudgeted db
    → find_row usage_key v.turn_run_id db.usages ≡ some u
    → IsWithin v.turn_run_id (saved_usage v u) models' tools'
    → ((turn : ℕ)
        → (v.turn_run_id == turn) ≡ false
        → AreSame turn db.model_calls models' db.tool_calls tools')
    → (turn : ℕ) (w : AgentTurnUsage)
    → find_row usage_key turn
        (update_where (λ r. r.turn_run_id == v.turn_run_id) (saved_usage v) db.usages)
      ≡ some w
    → IsWithin turn w models' tools'
saved-IsBudgeted db u v models' tools' h found own others turn w q =
    elim (Bool-cases (v.turn_run_id == turn)) [
      | inl here ↦
          let same : v.turn_run_id ≡ turn = (==_iff v.turn_run_id turn).0 here in
          subst (λ r. IsWithin turn r models' tools') (sym (is_saved same))
            (subst (λ t. IsWithin t (saved_usage v u) models' tools') same own)
      | inr elsewhere ↦
          IsWithin-same turn w db.model_calls models' db.tool_calls tools' (others turn elsewhere)
            (h turn w (kept elsewhere))
    ]
  where
    updated :
        find_row usage_key turn
          (update_where (λ r. r.turn_run_id == v.turn_run_id) (saved_usage v) db.usages)
        ≡ map_option
            (apply_if (λ r. r.turn_run_id == v.turn_run_id) (saved_usage v))
            (find_row usage_key turn db.usages)
    updated =
        find_row-update_where usage_key (λ r. r.turn_run_id == v.turn_run_id) (saved_usage v) turn
          db.usages (λ r. refl)

    is_saved : v.turn_run_id ≡ turn → w ≡ saved_usage v u
    is_saved same = saved_row (subst (λ t. find_row usage_key t db.usages ≡ some u) same found)
      where
        saved_row : find_row usage_key turn db.usages ≡ some u → w ≡ saved_usage v u
        saved_row f = ground (arith, q, updated, f, find_row_key usage_key turn db.usages u f)

    kept : (v.turn_run_id == turn) ≡ false → find_row usage_key turn db.usages ≡ some w
    kept elsewhere = elim (Option-cases (find_row usage_key turn db.usages)) [
      | inl missing ↦ ground (arith, q, updated, missing)
      | inr (r, f) ↦ ground (arith, q, updated, f, find_row_key usage_key turn db.usages r f)
    ]

pub AreSame-refl :
    (turn : ℕ) (models : List AgentModelCallReservation) (tools : List AgentToolCall)
    → AreSame turn models models tools tools
AreSame-refl turn models tools = (refl, refl, λ name args. refl)

-- Starting the clock leaves the counts and the limits.
pub started :
    (u : AgentTurnUsage) (now : ℕ)
    → ((start_usage u now).turn_run_id ≡ u.turn_run_id)
      × ((start_usage u now).limits ≡ u.limits)
      × ((start_usage u now).model_calls_reserved ≡ u.model_calls_reserved)
      × ((start_usage u now).tool_calls_reserved ≡ u.tool_calls_reserved)
unfolding start_usage
started u now = elim (Bool-cases (is_some u.started_at)) [
  | inl b ↦ rw b (refl, refl, refl, refl)
  | inr b ↦ rw b (refl, refl, refl, refl)
]

pub save_usage-IsBudgeted :
    (db : UsageDb) (u v : AgentTurnUsage)
    → IsBudgeted db
    → find_row usage_key v.turn_run_id db.usages ≡ some u
    → v.model_calls_reserved ≡ u.model_calls_reserved
    → v.tool_calls_reserved ≡ u.tool_calls_reserved
    → IsBudgeted (save_usage v db)
unfolding save_usage
save_usage-IsBudgeted db u v h found m t =
    let w = h v.turn_run_id u found in
    saved-IsBudgeted db u v db.model_calls db.tool_calls h found
      (
        omega (arith, w.0, m),
        omega (arith, w.1, m),
        omega (arith, w.2, t),
        omega (arith, w.3, t),
        w.4,
      )
      (λ turn _. AreSame-refl turn db.model_calls db.tool_calls)

-- The row of a loaded closure.
pub loaded_row :
    (allow : Bool) (turn : ℕ) (db : UsageDb) (c : Closure)
    → load_locked_closure allow turn db ≡ passed c
    → (find_row usage_key turn db.usages ≡ some c.usage) × (c.usage.turn_run_id ≡ turn)
loaded_row allow turn db c loaded =
    let found = Then-passed _ _ c (load_found allow turn db) loaded in
    (found, find_row_key usage_key turn db.usages c.usage found)

-- The row of a closure, under the turn of its usage once that has been started.
pub started_row :
    (turn now : ℕ) (db : UsageDb) (c : Closure)
    → load_locked_closure false turn db ≡ passed c
    → (start_usage c.usage now).turn_run_id ≡ turn
started_row turn now db c loaded = (started c.usage now).0 ∙ (loaded_row false turn db c loaded).1

pub Guarded-cases :
    {A : Type 0} (m : Guarded A) → ((a : A) × (m ≡ passed a)) ⊎ ((e : UsageError) × (m ≡ stopped e))
Guarded-cases (passed a) = inl (a, refl)
Guarded-cases (stopped e) = inr (e, refl)
