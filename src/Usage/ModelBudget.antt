-- ===== src/Usage/ModelBudget.antt =====
-- The start of a turn and its model calls, and the budget.
use literature_research_agen.Base.{
  ℕ, ◌+◌, ◌≡◌, refl, sym, ◌∙◌, subst, inl, inr, Bool, true, false, Option, some, [], ◌∷◌, ◌++◌,
  if◌then◌else◌, is_some, Bool-cases, Option-cases, find_row, count_where-append, arith,
}
use literature_research_agen.Run.{Run}
use literature_research_agen.Event.{Stamp}
use literature_research_agen.Usage.{
  passed, AgentTurnUsage, AgentModelCallReservation, start_usage, record_tokens,
}
use literature_research_agen.Usage.Tables.{
  UsageDb, usage_key, save_usage, get_model_call, add_model_call, save_model_call,
}
use literature_research_agen.Usage.Rows.{Then, holds, stops, Then-bind, count_where-kept}
use literature_research_agen.Usage.Service.{
  load_locked_closure, Closure, start_turn, count_model_call, reserve_model_call,
  record_model_usage, new_model_call, adds_tokens, add_optional, delta,
}
use literature_research_agen.Usage.Budget.{
  model_of, IsWithin, IsBudgeted, IsWithin-same, saved-IsBudgeted, save_usage-IsBudgeted, started,
  loaded_row, started_row, Guarded-cases,
}

pub start_turn-IsBudgeted :
    (turn now : ℕ) (db : UsageDb)
    → IsBudgeted db
    → Then (λ r. IsBudgeted r.1) (start_turn turn now db)
unfolding start_turn
start_turn-IsBudgeted turn now db h =
    Then-bind _ _
      λ c loaded. Then-bind _ _ λ _ _. holds _ (decided c loaded (is_some c.usage.started_at))
  where
    row :
        (c : Closure)
        → load_locked_closure false turn db ≡ passed c
        → find_row usage_key (start_usage c.usage now).turn_run_id db.usages ≡ some c.usage
    row c loaded =
        subst (λ t. find_row usage_key t db.usages ≡ some c.usage)
          (sym ((started c.usage now).0 ∙ (loaded_row false turn db c loaded).1))
          (loaded_row false turn db c loaded).0

    decided :
        (c : Closure)
        → load_locked_closure false turn db ≡ passed c
        → (before : Bool)
        → IsBudgeted (if before then db else save_usage (start_usage c.usage now) db)
    decided c loaded true = h
    decided c loaded false =
        save_usage-IsBudgeted db c.usage (start_usage c.usage now) h (row c loaded)
          (started c.usage now).2 (started c.usage now).3

count_model_call-IsBudgeted :
    (logs : Bool) (stamp : Stamp) (turn ordinal now : ℕ) (run : Run) (u v : AgentTurnUsage)
    (db : UsageDb)
    → IsBudgeted db
    → find_row usage_key turn db.usages ≡ some u
    → v.turn_run_id ≡ turn
    → v.limits ≡ u.limits
    → v.model_calls_reserved ≡ u.model_calls_reserved
    → v.tool_calls_reserved ≡ u.tool_calls_reserved
    → Then (λ r. IsBudgeted r.1) (count_model_call logs stamp turn ordinal now run v db)
unfolding count_model_call save_usage add_model_call
count_model_call-IsBudgeted logs stamp turn ordinal now run u v db h found own limits m t =
    Then-bind _ _ λ _ room. Then-bind _ _ λ lifecycle _. holds _ (
      saved-IsBudgeted db u
        (record v { model_calls_reserved = v.model_calls_reserved + 1; updated_at = now })
        (db.model_calls ++ new_model_call turn ordinal now ∷ []) db.tool_calls h
        (subst (λ k. find_row usage_key k db.usages ≡ some u) (sym own) found)
        (
          ground (
            arith,
            count_where-append (model_of v.turn_run_id) db.model_calls
                (new_model_call turn ordinal now),
            w.0,
            own,
            m,
          ),
          ground (arith, room, limits),
          ground (arith, w.2, own, t),
          ground (arith, w.3, t),
          λ name args. ground (arith, w.4 name args, own),
        )
        (λ k other. (
          ground (
            arith,
            count_where-append (model_of k) db.model_calls (new_model_call turn ordinal now),
            own,
            other,
          ),
          refl,
          λ name args. refl,
        )))
  where
    w : IsWithin v.turn_run_id u db.model_calls db.tool_calls
    w = h v.turn_run_id u (subst (λ k. find_row usage_key k db.usages ≡ some u) (sym own) found)

pub reserve_model_call-IsBudgeted :
    (logs : Bool) (stamp : Stamp) (turn ordinal tokens now : ℕ) (db : UsageDb)
    → IsBudgeted db
    → Then (λ r. IsBudgeted r.1) (reserve_model_call logs stamp turn ordinal tokens now db)
unfolding reserve_model_call
reserve_model_call-IsBudgeted logs stamp turn ordinal tokens now db h = Then-bind _ _ λ c loaded.
    Then-bind _ _ λ _ _. Then-bind _ _ λ _ _. Then-bind _ _ λ _ _.
      elim (Option-cases (get_model_call turn ordinal db.model_calls)) [
        | inr (call, there) ↦ rw there (holds _ h)
        | inl missing ↦ rw missing (
            count_model_call-IsBudgeted logs stamp turn ordinal now c.run c.usage
              (start_usage c.usage now) db h (loaded_row false turn db c loaded).0
              (started_row turn now db c loaded) (started c.usage now).1 (started c.usage now).2
              (started c.usage now).3)
      ]

save_model_call-IsBudgeted :
    (call : AgentModelCallReservation) (db : UsageDb)
    → IsBudgeted db
    → IsBudgeted (save_model_call call db)
unfolding save_model_call
save_model_call-IsBudgeted call db h turn u found =
    IsWithin-same turn u db.model_calls _ db.tool_calls db.tool_calls
      (count_where-kept (model_of turn) _ _ db.model_calls (λ x. refl), refl, λ name args. refl)
      (h turn u found)

pub record_model_usage-IsBudgeted :
    (turn ordinal : ℕ) (input output : Option ℕ) (now later : ℕ) (db : UsageDb)
    → IsBudgeted db
    → Then IsBudgeted (record_model_usage turn ordinal input output now later db)
unfolding record_model_usage
record_model_usage-IsBudgeted turn ordinal input output now later db h = Then-bind _ _ λ c loaded.
    Then-bind _ _ λ call _. elim (Guarded-cases (record_tokens call input output now)) [
      | inr (e, q) ↦ rw q (stops _)
      | inl (changed, q) ↦ rw q (elim (Bool-cases (adds_tokens call input output)) [
        | inr kept ↦ rw kept (holds _ h)
        | inl more ↦ rw more (
            holds _ (
              save_usage-IsBudgeted (save_model_call changed db) c.usage
                (record c.usage {
                  input_tokens = add_optional c.usage.input_tokens (delta call.input_tokens input);
                  output_tokens =
                      add_optional c.usage.output_tokens (delta call.output_tokens output);
                  updated_at = later;
                })
                (save_model_call-IsBudgeted changed db h) (row c loaded) refl refl))
      ])
    ]
  where
    row :
        (c : Closure)
        → load_locked_closure false turn db ≡ passed c
        → find_row usage_key c.usage.turn_run_id db.usages ≡ some c.usage
    row c loaded =
        subst (λ k. find_row usage_key k db.usages ≡ some c.usage)
          (sym (loaded_row false turn db c loaded).1) (loaded_row false turn db c loaded).0
