-- ===== src/Usage/Once.antt =====
-- Starts of one tool call, with other requests in between.
use literature_research_agen.Base.{
  ℕ, ◌≤◌, ◌≡◌, refl, subst, inl, inr, Bool, true, false, not, Option, some, List, [], ◌∷◌, ◌==◌,
  ltb, if◌then◌else◌, Bool-cases, apply_if, arith,
}
use literature_research_agen.Runtime.Texts.{Text}
use literature_research_agen.Usage.{
  UsageError, record_tokens, Guarded, passed, stopped, ◌>>=◌, check, call_code, reserved, running,
}
use literature_research_agen.Usage.ToolCall.{AgentToolCall, start_call}
use literature_research_agen.Usage.Tables.{
  UsageDb, get_tool_call, is_expected_call, saved_call, save_tool_call, save_usage, save_model_call,
}
use literature_research_agen.Usage.Rows.{
  Then, holds, stops, Then-passed, Then-bind, checked, found_or_found,
}
use literature_research_agen.Usage.Service.{record_model_usage, adds_tokens}
use literature_research_agen.Usage.Tools.{
  save_call_or, start_tool_call, succeed_tool_call, fail_tool_call, require_tool_call,
}
use literature_research_agen.Usage.Budget.{Guarded-cases}
use literature_research_agen.Usage.Calls.{
  UsageCall, starts_turn, reserves_model, records_usage, reserves_tool, starts_tool, succeeds_tool,
  fails_tool, after, after_alone, apply_usage, apply_usages,
}
use literature_research_agen.Usage.Effects.{
  IsBegun, get-update, start_call_begun, start_call_key, succeed_call_begun, fail_call_begun,
  StillBegun, save_call_or-StillBegun, start_turn-StillBegun, reserve_model_call-StillBegun,
  reserve_tool_call-StillBegun,
}

module _ (turn invocation : ℕ) where
  record_model_usage-IsBegun :
      (t ordinal : ℕ) (input output : Option ℕ) (now later : ℕ) (db : UsageDb)
      → IsBegun turn invocation db.tool_calls
      → Then
          (λ db'. IsBegun turn invocation db'.tool_calls)
          (record_model_usage t ordinal input output now later db)
  unfolding record_model_usage save_usage save_model_call
  record_model_usage-IsBegun t ordinal input output now later db h = Then-bind _ _ λ c _.
      Then-bind _ _ λ call _. elim (Guarded-cases (record_tokens call input output now)) [
        | inr (e, q) ↦ rw q (stops _)
        | inl (changed, q) ↦ rw q (elim (Bool-cases (adds_tokens call input output)) [
          | inr kept ↦ rw kept (holds _ h)
          | inl more ↦ rw more (holds _ h)
        ])
      ]

  start_tool_call-StillBegun :
      (t key_turn i now later : ℕ) (db : UsageDb)
      → IsBegun turn invocation db.tool_calls
      → StillBegun turn invocation (start_tool_call t key_turn i now later db)
  unfolding start_tool_call
  start_tool_call-StillBegun t key_turn i now later db h = Then-bind _ _ λ c _. Then-bind _ _ λ _ _.
      Then-bind _ _ λ call _. Then-bind _ _ λ _ _. Then-bind _ _ λ _ _. Then-bind _ _ λ begun q.
        save_call_or-StillBegun turn invocation _ begun reserved db
          (start_call_begun call begun later q) h

  replay_or-StillBegun :
      (replay matches : Bool) (e : UsageError) (call : AgentToolCall) (db : UsageDb)
      (m : Guarded (AgentToolCall × UsageDb))
      → IsBegun turn invocation db.tool_calls
      → StillBegun turn invocation m
      → Then
          (λ (r : AgentToolCall × UsageDb). IsBegun turn invocation r.1.tool_calls)
          (if replay then (check matches e >>= λ _. passed (call, db)) else m)
  replay_or-StillBegun true matches e call db m h k = Then-bind _ _ λ _ _. holds _ h
  replay_or-StillBegun false matches e call db m h k = k

  succeed_tool_call-StillBegun :
      (ms : ℕ → ℕ) (t key_turn i size : ℕ) (hash : Text) (preview : Option Text) (truncated : Bool)
      (now : ℕ) (db : UsageDb)
      → IsBegun turn invocation db.tool_calls
      → StillBegun turn invocation
          (succeed_tool_call ms t key_turn i size hash preview truncated now db)
  unfolding succeed_tool_call
  succeed_tool_call-StillBegun ms t key_turn i size hash preview truncated now db h =
      Then-bind _ _ λ c _. Then-bind _ _ λ _ _. Then-bind _ _ λ call _.
        replay_or-StillBegun (call_code call.status == 2) _ _ call db _ h (
          Then-bind _ _ λ _ _. Then-bind _ _ λ over q.
            save_call_or-StillBegun turn invocation _ over running db
              (succeed_call_begun ms call over size hash preview truncated now q) h)

  fail_tool_call-StillBegun :
      (ms : ℕ → ℕ) (t key_turn i : ℕ) (code message : Text) (preview : Option Text)
      (truncated : Bool) (now : ℕ) (db : UsageDb)
      → IsBegun turn invocation db.tool_calls
      → StillBegun turn invocation
          (fail_tool_call ms t key_turn i code message preview truncated now db)
  unfolding fail_tool_call
  fail_tool_call-StillBegun ms t key_turn i code message preview truncated now db h =
      Then-bind _ _ λ c _. Then-bind _ _ λ call _.
        replay_or-StillBegun (call_code call.status == 3) _ _ call db _ h (
          Then-bind _ _ λ _ _. Then-bind _ _ λ over q.
            save_call_or-StillBegun turn invocation _ over running db
              (fail_call_begun ms call over code message preview truncated now q) h)

  after-IsBegun :
      {A : Type 0} (m : Guarded (A × UsageDb)) (db : UsageDb)
      → IsBegun turn invocation db.tool_calls
      → StillBegun turn invocation m
      → IsBegun turn invocation (after m db).tool_calls
  unfolding after
  after-IsBegun _ db h (holds (a, db') k) = k
  after-IsBegun _ db h (stops e) = h

  after_alone-IsBegun :
      (m : Guarded UsageDb) (db : UsageDb)
      → IsBegun turn invocation db.tool_calls
      → Then (λ db'. IsBegun turn invocation db'.tool_calls) m
      → IsBegun turn invocation (after_alone m db).tool_calls
  unfolding after_alone
  after_alone-IsBegun _ db h (holds db' k) = k
  after_alone-IsBegun _ db h (stops e) = h

  apply_usage-IsBegun :
      (ms : ℕ → ℕ) (call : UsageCall) (db : UsageDb)
      → IsBegun turn invocation db.tool_calls
      → IsBegun turn invocation (apply_usage ms call db).tool_calls
  unfolding apply_usage
  apply_usage-IsBegun ms (starts_turn t now) db h =
      after-IsBegun _ db h (start_turn-StillBegun turn invocation t now db h)
  apply_usage-IsBegun ms (reserves_model logs stamp t ordinal tokens now) db h =
      after-IsBegun _ db h
        (reserve_model_call-StillBegun turn invocation logs stamp t ordinal tokens now db h)
  apply_usage-IsBegun ms (records_usage t ordinal input output now later) db h =
      after_alone-IsBegun _ db h (record_model_usage-IsBegun t ordinal input output now later db h)
  apply_usage-IsBegun ms (reserves_tool logs stamp t request now) db h =
      after-IsBegun _ db h
        (reserve_tool_call-StillBegun turn invocation logs stamp t request now db h)
  apply_usage-IsBegun ms (starts_tool t key_turn i now later) db h =
      after-IsBegun _ db h (start_tool_call-StillBegun t key_turn i now later db h)
  apply_usage-IsBegun ms (succeeds_tool t key_turn i size hash preview truncated now) db h =
      after-IsBegun _ db h
        (succeed_tool_call-StillBegun ms t key_turn i size hash preview truncated now db h)
  apply_usage-IsBegun ms (fails_tool t key_turn i code message preview truncated now) db h =
      after-IsBegun _ db h
        (fail_tool_call-StillBegun ms t key_turn i code message preview truncated now db h)

  apply_usages-IsBegun :
      (ms : ℕ → ℕ) (calls : List UsageCall) (db : UsageDb)
      → IsBegun turn invocation db.tool_calls
      → IsBegun turn invocation (apply_usages ms calls db).tool_calls
  unfolding apply_usages
  apply_usages-IsBegun ms [] db h = h
  apply_usages-IsBegun ms (call ∷ calls) db h =
      apply_usages-IsBegun ms calls (apply_usage ms call db) (apply_usage-IsBegun ms call db h)

  required :
      (t : ℕ) (db : UsageDb) (call : AgentToolCall)
      → require_tool_call t turn invocation db ≡ passed call
      → get_tool_call turn invocation db.tool_calls ≡ some call
  required t db call there =
      Then-passed _ _ call
        (Then-bind _ _ λ c found. Then-bind _ _ λ _ _. holds c (found_or_found _ _ c found)) there

  -- A call that has been started is not started again.
  begun_refused :
      (t now later : ℕ) (db : UsageDb)
      → IsBegun turn invocation db.tool_calls
      → Then (λ _. ⊥) (start_tool_call t turn invocation now later db)
  unfolding start_tool_call
  begun_refused t now later db h = Then-bind _ _ λ c _. Then-bind _ _ λ _ _.
      Then-bind _ _ λ call there. Then-bind _ _ λ _ free.
        Then-bind _ _
          λ _ fresh. absurd (clash call (checked _ _ free) (checked _ _ fresh) (same call there))
    where
      same :
          (call : AgentToolCall) → require_tool_call t turn invocation db ≡ passed call → h.0 ≡ call
      same call there = ground (arith, h.1, required t db call there)

      clash :
          (call : AgentToolCall)
          → not (call_code call.status == 1) ≡ true
          → not (ltb 1 (call_code call.status)) ≡ true
          → h.0 ≡ call
          → ⊥
      clash call free fresh q =
          let k : 1 ≤ call_code call.status =
            subst (λ (c : AgentToolCall). 1 ≤ call_code c.status) q h.2 in
          ground (arith, k, free, fresh)

  -- A call that starts has been started.
  start_tool_call-IsBegun :
      (t now later : ℕ) (db : UsageDb)
      → Then
          (λ r. IsBegun turn invocation r.1.tool_calls)
          (start_tool_call t turn invocation now later db)
  unfolding start_tool_call save_call_or save_tool_call
  start_tool_call-IsBegun t now later db = Then-bind _ _ λ c _. Then-bind _ _ λ _ _.
      Then-bind _ _ λ call there. Then-bind _ _ λ _ free. Then-bind _ _ λ _ fresh.
        Then-bind _ _ λ begun q. Then-bind _ _ λ _ _. holds _ (
          apply_if (is_expected_call begun reserved) (saved_call begun) call,
          get-update turn invocation begun reserved db.tool_calls call (required t db call there),
          rw (hit call begun (checked _ _ free) (checked _ _ fresh) q)
              (start_call_begun call begun later q),
        )
    where
      hit :
          (call begun : AgentToolCall)
          → not (call_code call.status == 1) ≡ true
          → not (ltb 1 (call_code call.status)) ≡ true
          → start_call call later ≡ passed begun
          → is_expected_call begun reserved call ≡ true
      hit call begun free fresh q =
          let k = start_call_key call begun later q in ground (arith, k.0, k.1, free, fresh)

refused_answer : {A : Type 0} (m : Guarded A) → Then (λ _. ⊥) m → (e : UsageError) × (m ≡ stopped e)
refused_answer _ (stops e) = (e, refl)
refused_answer _ (holds a h) = absurd h

-- Once a tool call has been started, it is never started again: every later start under its key is
-- refused, whatever requests to the service come in between, so that its effect is claimed at most
-- once.
pub start_tool_call_once :
    (ms : ℕ → ℕ) (turn key_turn invocation now later : ℕ) (db db' : UsageDb) (c : AgentToolCall)
    (calls : List UsageCall) (turn' now' later' : ℕ)
    → start_tool_call turn key_turn invocation now later db ≡ passed (c, db')
    → (e : UsageError) × (start_tool_call turn' key_turn invocation now' later'
          (apply_usages ms calls db')
        ≡ stopped e)
start_tool_call_once ms turn key_turn invocation now later db db' c calls turn' now' later' q =
    refused_answer _ (
      begun_refused key_turn invocation turn' now' later' (apply_usages ms calls db') (
        apply_usages-IsBegun key_turn invocation ms calls db' (
          Then-passed _ _ (c, db') (start_tool_call-IsBegun key_turn invocation turn now later db)
            q)))
