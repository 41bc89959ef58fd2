-- ===== src/Usage/Deadline.antt =====
-- The clock of a turn, over lists of requests.
use literature_research_agen.Base.{
  ℕ, ◌+◌, ◌≡◌, refl, sym, ◌∙◌, ap, subst, inl, inr, Bool, true, false, Option, some, List, ◌==◌,
  ==_iff, if◌then◌else◌, is_some, Bool-cases, Option-cases, find_row, update_where, apply_if,
  find_row-update_where, find_row_key, arith,
}
use mathlib.Core.Option.{map as map_option}
use literature_research_agen.Event.{Stamp}
use literature_research_agen.Usage.{
  Guarded, passed, stopped, AgentTurnUsage, start_usage, record_tokens, tool_reservation_conflict,
}
use literature_research_agen.Usage.ToolCall.{AgentToolCall}
use literature_research_agen.Usage.Tables.{
  UsageDb, usage_key, saved_usage, save_usage, get_model_call, add_model_call, save_model_call,
  get_tool_call, add_tool_call,
}
use literature_research_agen.Usage.Rows.{Then, holds, stops, Then-bind}
use literature_research_agen.Usage.Service.{
  load_locked_closure, Closure, start_turn, count_model_call, reserve_model_call,
  record_model_usage, adds_tokens, add_optional, delta,
}
use literature_research_agen.Usage.Tools.{
  ToolCallReservationRequest, count_tool_call, reserve_tool_call, is_replay,
}
use literature_research_agen.Usage.Budget.{started, loaded_row, Guarded-cases}
use literature_research_agen.Usage.Calls.{UsageCall, apply_usages}
use literature_research_agen.Usage.Kept.{apply_usages_kept}

module _ (turn : ℕ) (start deadline : Option ℕ) (live : is_some start ≡ true) where
  -- The usage has these two times.
  abbrev HasClock : AgentTurnUsage → Type 0
  HasClock u = (u.started_at ≡ start) × (u.deadline_at ≡ deadline)

  -- The turn's row is there and has these two times.
  abbrev IsFrozen : List AgentTurnUsage → Type 0
  IsFrozen usages = (u : AgentTurnUsage) × (find_row usage_key turn usages ≡ some u) × HasClock u

  saved-IsFrozen :
      (v : AgentTurnUsage) (usages : List AgentTurnUsage)
      → IsFrozen usages
      → (v.turn_run_id ≡ turn → HasClock v)
      → IsFrozen (update_where (λ r. r.turn_run_id == v.turn_run_id) (saved_usage v) usages)
  saved-IsFrozen v usages h clock = (
    apply_if (λ r. r.turn_run_id == v.turn_run_id) (saved_usage v) h.0,
    find_row-update_where usage_key (λ r. r.turn_run_id == v.turn_run_id) (saved_usage v) turn
          usages (λ r. refl)
        ∙ ap (map_option (apply_if (λ r. r.turn_run_id == v.turn_run_id) (saved_usage v))) h.1,
    elim (Bool-cases (h.0.turn_run_id == v.turn_run_id)) [
      | inr other ↦ rw other h.2
      | inl own ↦ rw own (
          clock (
            sym ((==_iff h.0.turn_run_id v.turn_run_id).0 own)
            ∙ find_row_key usage_key turn usages h.0 h.1))
    ],
  )

  -- Neither the loaded usage nor its start has another clock.
  loaded-HasClock :
      (allow : Bool) (t : ℕ) (db : UsageDb) (c : Closure)
      → IsFrozen db.usages
      → load_locked_closure allow t db ≡ passed c
      → c.usage.turn_run_id ≡ turn
      → HasClock c.usage
  loaded-HasClock allow t db c h loaded own =
      subst HasClock
        (same h.1 (loaded_row allow t db c loaded).0 (sym (loaded_row allow t db c loaded).1 ∙ own))
        h.2
    where
      same :
          find_row usage_key turn db.usages ≡ some h.0
          → find_row usage_key t db.usages ≡ some c.usage
          → t ≡ turn
          → h.0 ≡ c.usage
      same f g k = ground (arith, f, g, k)

  started-HasClock :
      (u : AgentTurnUsage) (now : ℕ)
      → (u.turn_run_id ≡ turn → HasClock u)
      → (start_usage u now).turn_run_id ≡ turn
      → HasClock (start_usage u now)
  unfolding start_usage
  started-HasClock u now clock own =
      let k = clock (sym (started u now).0 ∙ own) in rw (ap is_some k.0 ∙ live) k

  abbrev KeepsClock : {A : Type 0} → Guarded (A × UsageDb) → Type 0
  KeepsClock m = Then (λ r. IsFrozen r.1.usages) m

  start_turn-KeepsClock :
      (t now : ℕ) (db : UsageDb) → IsFrozen db.usages → KeepsClock (start_turn t now db)
  unfolding start_turn save_usage
  start_turn-KeepsClock t now db h = Then-bind _ _ λ c loaded. Then-bind _ _ λ _ _. holds _ (
      kept (is_some c.usage.started_at) (start_usage c.usage now)
        (started-HasClock c.usage now (loaded-HasClock false t db c h loaded)))
    where
      kept :
          (b : Bool) (v : AgentTurnUsage)
          → (v.turn_run_id ≡ turn → HasClock v)
          → IsFrozen (if b then db else save_usage v db).usages
      kept true v clock = h
      kept false v clock = saved-IsFrozen v db.usages h clock

  reserve_model_call-KeepsClock :
      (logs : Bool) (stamp : Stamp) (t ordinal tokens now : ℕ) (db : UsageDb)
      → IsFrozen db.usages
      → KeepsClock (reserve_model_call logs stamp t ordinal tokens now db)
  unfolding reserve_model_call count_model_call save_usage add_model_call
  reserve_model_call-KeepsClock logs stamp t ordinal tokens now db h = Then-bind _ _ λ c loaded.
      Then-bind _ _ λ _ _. Then-bind _ _ λ _ _. Then-bind _ _ λ _ _.
        elim (Option-cases (get_model_call t ordinal db.model_calls)) [
          | inr (call, there) ↦ rw there (holds _ h)
          | inl missing ↦ rw missing (
              Then-bind _ _ λ _ _. Then-bind _ _ λ lifecycle _. holds _ (
                saved-IsFrozen
                  (record (start_usage c.usage now) {
                    model_calls_reserved = (start_usage c.usage now).model_calls_reserved + 1;
                    updated_at = now;
                  })
                  db.usages h
                  (started-HasClock c.usage now (loaded-HasClock false t db c h loaded))))
        ]

  record_model_usage-KeepsClock :
      (t ordinal : ℕ) (input output : Option ℕ) (now later : ℕ) (db : UsageDb)
      → IsFrozen db.usages
      → Then (λ db'. IsFrozen db'.usages) (record_model_usage t ordinal input output now later db)
  unfolding record_model_usage save_usage save_model_call
  record_model_usage-KeepsClock t ordinal input output now later db h = Then-bind _ _ λ c loaded.
      Then-bind _ _ λ call _. elim (Guarded-cases (record_tokens call input output now)) [
        | inr (e, q) ↦ rw q (stops _)
        | inl (changed, q) ↦ rw q (elim (Bool-cases (adds_tokens call input output)) [
          | inr kept ↦ rw kept (holds _ h)
          | inl more ↦ rw more (
              holds _ (
                saved-IsFrozen
                  (record c.usage {
                    input_tokens =
                        add_optional c.usage.input_tokens (delta call.input_tokens input);
                    output_tokens =
                        add_optional c.usage.output_tokens (delta call.output_tokens output);
                    updated_at = later;
                  })
                  db.usages h (loaded-HasClock false t db c h loaded)))
        ])
      ]

  reserve_tool_call-KeepsClock :
      (logs : Bool) (stamp : Stamp) (t : ℕ) (request : ToolCallReservationRequest) (now : ℕ)
      (db : UsageDb)
      → IsFrozen db.usages
      → KeepsClock (reserve_tool_call logs stamp t request now db)
  unfolding reserve_tool_call count_tool_call save_usage add_tool_call
  reserve_tool_call-KeepsClock logs stamp t request now db h = Then-bind _ _ λ c loaded.
      Then-bind _ _ λ _ _. Then-bind _ _ λ _ _. Then-bind _ _ λ _ _. Then-bind _ _ λ _ _.
        Then-bind _ _ λ proposed _.
          elim (Option-cases (get_tool_call t request.invocation_id db.tool_calls)) [
            | inr (call, there) ↦ rw there (replayed call (is_replay call proposed))
            | inl missing ↦ rw missing (
                Then-bind _ _ λ _ _. Then-bind _ _ λ _ _. Then-bind _ _ λ lifecycle _. holds _ (
                  saved-IsFrozen
                    (record (start_usage c.usage now) {
                      tool_calls_reserved = (start_usage c.usage now).tool_calls_reserved + 1;
                      updated_at = now;
                    })
                    db.usages h
                    (started-HasClock c.usage now (loaded-HasClock false t db c h loaded))))
          ]
    where
      replayed :
          (call : AgentToolCall) (same : Bool)
          → Then
              (λ (r : AgentToolCall × UsageDb). IsFrozen r.1.usages)
              (if same then passed (call, db) else stopped tool_reservation_conflict)
      replayed call true = holds _ h
      replayed call false = stops _

-- Once the clock of a turn has started, its row stays and its start and its deadline never change
-- again, whatever requests come to the budget service.
pub apply_usages_clock :
    (ms : ℕ → ℕ) (calls : List UsageCall) (db : UsageDb) (turn : ℕ) (u : AgentTurnUsage)
    → find_row usage_key turn db.usages ≡ some u
    → is_some u.started_at ≡ true
    → (v : AgentTurnUsage) × (find_row usage_key turn (apply_usages ms calls db).usages ≡ some v)
      × ((v.started_at ≡ u.started_at) × (v.deadline_at ≡ u.deadline_at))
apply_usages_clock ms calls db turn u found live =
    apply_usages_kept (λ db'. IsFrozen turn u.started_at u.deadline_at live db'.usages)
      (λ db' calls' h. h) (start_turn-KeepsClock turn u.started_at u.deadline_at live)
      (reserve_model_call-KeepsClock turn u.started_at u.deadline_at live)
      (record_model_usage-KeepsClock turn u.started_at u.deadline_at live)
      (reserve_tool_call-KeepsClock turn u.started_at u.deadline_at live) ms calls db
      (u, found, (refl, refl))
