-- ===== src/Usage/ToolBudget.antt =====
-- The tool calls of a turn, and the budget.
use literature_research_agen.Base.{
  ℕ, ◌+◌, ◌≤◌, ◌<◌, ◌≡◌, refl, sym, ◌∙◌, ap, subst, inl, inr, Bool, true, false, Option, some, List,
  [], ◌∷◌, ◌++◌, ◌==◌, ==_iff, if◌then◌else◌, Bool-cases, Option-cases, find_row, count_where,
  count_where-append, arith,
}
use literature_research_agen.Run.{Run}
use literature_research_agen.Event.{Stamp}
use literature_research_agen.Runtime.Texts.{Text, same_text_eq}
use literature_research_agen.Usage.{
  UsageError, Guarded, passed, stopped, ◌>>=◌, check, AgentTurnUsage, AgentToolCallStatus,
  start_usage, call_code, reserved, running, tool_reservation_conflict,
}
use literature_research_agen.Usage.ToolCall.{AgentToolCall, built, is_valid_call}
use literature_research_agen.Usage.Tables.{
  UsageDb, usage_key, has_signature, save_tool_call, save_usage, add_tool_call, get_tool_call,
  count_tool_calls_by_signature,
}
use literature_research_agen.Usage.Rows.{Then, holds, stops, Then-bind, count_where-kept}
use literature_research_agen.Usage.Tools.{
  ToolCallReservationRequest, count_tool_call, reserve_tool_call, is_replay, save_call_or,
  start_tool_call, succeed_tool_call, fail_tool_call, new_tool_call,
}
use literature_research_agen.Usage.Budget.{
  tool_of, IsWithin, IsBudgeted, IsWithin-same, saved-IsBudgeted, started, loaded_row, started_row,
}

-- What has been built is what was given.
pub built_same : (c d : AgentToolCall) → built c ≡ passed d → c ≡ d
unfolding built
built_same c d h = elim (Bool-cases (is_valid_call c)) [
  | inl good ↦ ground (arith, h, good)
  | inr bad ↦ ground (arith, h, bad)
]

-- One more call of a signature, where there was room for it.
signature_room :
    (turn limit : ℕ) (name args : Text) (c : AgentToolCall) (tools : List AgentToolCall)
    → count_where (has_signature c.turn_run_id c.tool_name c.args_hash) tools < limit
    → count_where (has_signature turn name args) tools ≤ limit
    → count_where (has_signature turn name args) (tools ++ c ∷ []) ≤ limit
signature_room turn limit name args c tools room h =
    elim (Bool-cases (has_signature turn name args c)) [
      | inr other ↦ ground (arith, count_where-append (has_signature turn name args) tools c, other)
      | inl same ↦ omega (arith, count_where-append_same same, room_here same)
    ]
  where
    count_where-append_same :
        has_signature turn name args c ≡ true
        → count_where (has_signature turn name args) (tools ++ c ∷ [])
          ≡ count_where (has_signature turn name args) tools + 1
    count_where-append_same same =
        count_where-append (has_signature turn name args) tools c ∙ rw same refl

    room_here :
        has_signature turn name args c ≡ true
        → count_where (has_signature turn name args) tools < limit
    room_here same =
        let t : c.turn_run_id ≡ turn = (==_iff c.turn_run_id turn).0 (ground arith) in
        let n : c.tool_name ≡ name = same_text_eq c.tool_name name (ground arith) in
        let a : c.args_hash ≡ args = same_text_eq c.args_hash args (ground arith) in
        subst (λ k. count_where (has_signature k name args) tools < limit) t
          (subst (λ m. count_where (has_signature c.turn_run_id m args) tools < limit) n
            (subst (λ g. count_where (has_signature c.turn_run_id c.tool_name g) tools < limit) a
              room))

count_tool_call-IsBudgeted :
    (logs : Bool) (stamp : Stamp) (now : ℕ) (proposed : AgentToolCall) (run : Run)
    (u v : AgentTurnUsage) (db : UsageDb)
    → IsBudgeted db
    → find_row usage_key v.turn_run_id db.usages ≡ some u
    → proposed.turn_run_id ≡ v.turn_run_id
    → v.limits ≡ u.limits
    → v.model_calls_reserved ≡ u.model_calls_reserved
    → v.tool_calls_reserved ≡ u.tool_calls_reserved
    → Then (λ r. IsBudgeted r.1) (count_tool_call logs stamp now proposed run v db)
unfolding count_tool_call save_usage add_tool_call count_tool_calls_by_signature
count_tool_call-IsBudgeted logs stamp now proposed run u v db h found own limits m t =
    Then-bind _ _ λ _ room. Then-bind _ _ λ _ loop. Then-bind _ _ λ lifecycle _. holds _ (
      saved-IsBudgeted db u
        (record v { tool_calls_reserved = v.tool_calls_reserved + 1; updated_at = now })
        db.model_calls (db.tool_calls ++ proposed ∷ []) h found
        (
          omega (arith, w.0, m),
          omega (arith, w.1, m),
          ground (
            arith,
            count_where-append (tool_of v.turn_run_id) db.tool_calls proposed,
            w.2,
            own,
            t,
          ),
          ground (arith, room, limits),
          λ name args.
              signature_room v.turn_run_id u.limits.max_repeated_tool_calls name args proposed
                db.tool_calls (ground (arith, loop, limits)) (w.4 name args),
        )
        (λ k other. (
          refl,
          ground (arith, count_where-append (tool_of k) db.tool_calls proposed, own, other),
          λ name args. ground (
            arith,
            count_where-append (has_signature k name args) db.tool_calls proposed,
            own,
            other,
          ),
        )))
  where
    w : IsWithin v.turn_run_id u db.model_calls db.tool_calls
    w = h v.turn_run_id u found

pub reserve_tool_call-IsBudgeted :
    (logs : Bool) (stamp : Stamp) (turn : ℕ) (request : ToolCallReservationRequest) (now : ℕ)
    (db : UsageDb)
    → IsBudgeted db
    → Then (λ r. IsBudgeted r.1) (reserve_tool_call logs stamp turn request now db)
unfolding reserve_tool_call
reserve_tool_call-IsBudgeted logs stamp turn request now db h = Then-bind _ _ λ c loaded.
    Then-bind _ _ λ _ _. Then-bind _ _ λ _ _. Then-bind _ _ λ expected _. Then-bind _ _ λ _ _.
      Then-bind _ _ λ proposed made.
        elim (Option-cases (get_tool_call turn request.invocation_id db.tool_calls)) [
          | inr (call, there) ↦ rw there (replayed proposed call (is_replay call proposed))
          | inl missing ↦ rw missing (
              count_tool_call-IsBudgeted logs stamp now proposed c.run c.usage
                (start_usage c.usage now) db h
                (subst (λ k. find_row usage_key k db.usages ≡ some c.usage)
                  (sym (started_row turn now db c loaded)) (loaded_row false turn db c loaded).0)
                (proposed_turn expected.version proposed made
                  ∙ sym (started_row turn now db c loaded))
                (started c.usage now).1 (started c.usage now).2 (started c.usage now).3)
        ]
  where
    proposed_turn :
        (version : Text) (proposed : AgentToolCall)
        → built (new_tool_call turn request version now) ≡ passed proposed
        → proposed.turn_run_id ≡ turn
    proposed_turn version proposed made = sym (
        ap (λ c. c.turn_run_id) (built_same (new_tool_call turn request version now) proposed made))

    replayed :
        (proposed call : AgentToolCall) (same : Bool)
        → Then
            (λ (r : AgentToolCall × UsageDb). IsBudgeted r.1)
            (if same then passed (call, db) else stopped tool_reservation_conflict)
    replayed proposed call true = holds _ h
    replayed proposed call false = stops _

save_call_or-IsBudgeted :
    (e : UsageError) (call : AgentToolCall) (expected : AgentToolCallStatus) (db : UsageDb)
    → IsBudgeted db
    → Then (λ r. IsBudgeted r.1) (save_call_or e call expected db)
unfolding save_call_or save_tool_call
save_call_or-IsBudgeted e call expected db h = Then-bind _ _ λ _ _. holds _ (λ turn u found.
    IsWithin-same turn u db.model_calls db.model_calls db.tool_calls _
      (
        refl,
        count_where-kept (tool_of turn) _ _ db.tool_calls (λ x. refl),
        λ name args. count_where-kept (has_signature turn name args) _ _ db.tool_calls (λ x. refl),
      )
      (h turn u found))

-- The replay of a result, or the change of a running call.
replay_or :
    (replay matches : Bool) (e : UsageError) (call : AgentToolCall) (db : UsageDb)
    (m : Guarded (AgentToolCall × UsageDb))
    → IsBudgeted db
    → Then (λ r. IsBudgeted r.1) m
    → Then
        (λ (r : AgentToolCall × UsageDb). IsBudgeted r.1)
        (if replay then (check matches e >>= λ _. passed (call, db)) else m)
replay_or true matches e call db m h k = Then-bind _ _ λ _ _. holds _ h
replay_or false matches e call db m h k = k

pub start_tool_call-IsBudgeted :
    (turn key_turn invocation now later : ℕ) (db : UsageDb)
    → IsBudgeted db
    → Then (λ r. IsBudgeted r.1) (start_tool_call turn key_turn invocation now later db)
unfolding start_tool_call
start_tool_call-IsBudgeted turn key_turn invocation now later db h = Then-bind _ _ λ c _.
    Then-bind _ _ λ _ _. Then-bind _ _ λ call _. Then-bind _ _ λ _ _.
      Then-bind _ _ λ _ _. Then-bind _ _ λ begun _. save_call_or-IsBudgeted _ begun reserved db h

module _ (ms : ℕ → ℕ) where
  pub succeed_tool_call-IsBudgeted :
      (turn key_turn invocation size : ℕ) (hash : Text) (preview : Option Text) (truncated : Bool)
      (now : ℕ) (db : UsageDb)
      → IsBudgeted db
      → Then
          (λ r. IsBudgeted r.1)
          (succeed_tool_call ms turn key_turn invocation size hash preview truncated now db)
  unfolding succeed_tool_call
  succeed_tool_call-IsBudgeted turn key_turn invocation size hash preview truncated now db h =
      Then-bind _ _ λ c _. Then-bind _ _ λ _ _. Then-bind _ _ λ call _.
        replay_or (call_code call.status == 2) _ _ call db _ h
          (Then-bind _ _ λ _ _. Then-bind _ _ λ over _. save_call_or-IsBudgeted _ over running db h)

  pub fail_tool_call-IsBudgeted :
      (turn key_turn invocation : ℕ) (code message : Text) (preview : Option Text)
      (truncated : Bool) (now : ℕ) (db : UsageDb)
      → IsBudgeted db
      → Then
          (λ r. IsBudgeted r.1)
          (fail_tool_call ms turn key_turn invocation code message preview truncated now db)
  unfolding fail_tool_call
  fail_tool_call-IsBudgeted turn key_turn invocation code message preview truncated now db h =
      Then-bind _ _ λ c _. Then-bind _ _ λ call _.
        replay_or (call_code call.status == 3) _ _ call db _ h
          (Then-bind _ _ λ _ _. Then-bind _ _ λ over _. save_call_or-IsBudgeted _ over running db h)
