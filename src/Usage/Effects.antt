-- ===== src/Usage/Effects.antt =====
-- Tool calls that have been started.
use literature_research_agen.Base.{
  ℕ, ◌≤◌, ◌≡◌, refl, sym, ◌∙◌, ap, subst, inl, inr, Bool, true, false, ◌||◌, not, Option, some,
  List, [], ◌∷◌, ◌++◌, ◌==◌, if◌then◌else◌, is_some, Bool-cases, Option-cases, update_where,
  apply_if, arith,
}
use literature_research_agen.Runtime.Texts.{Text}
use literature_research_agen.Event.{Stamp}
use literature_research_agen.Chunking.Units.{is_blank}
use literature_research_agen.Usage.{
  UsageError, tool_reservation_conflict, AgentTurnUsage, start_usage, Guarded, passed, stopped,
  ◌>>=◌, AgentToolCallStatus, call_code, running, invalid_value,
}
use literature_research_agen.Usage.ToolCall.{
  with_success, with_failure, AgentToolCall, built, is_valid_call, start_call, succeed_call,
  fail_call, duration_ms,
}
use literature_research_agen.Usage.Tables.{
  UsageDb, is_tool_call, get_tool_call, is_expected_call, saved_call, save_tool_call, save_usage,
  add_tool_call, add_model_call, get_model_call,
}
use literature_research_agen.Usage.Rows.{Then, holds, stops, Then-passed, Then-bind}
use literature_research_agen.Usage.Service.{start_turn, reserve_model_call, count_model_call}
use literature_research_agen.Usage.Tools.{
  count_tool_call, reserve_tool_call, save_call_or, is_replay, ToolCallReservationRequest,
}
use literature_research_agen.Usage.ToolBudget.{built_same}

module _ (turn invocation : ℕ) where
  -- The call of the key has been started.
  abbrev pub IsBegun : List AgentToolCall → Type 0
  IsBegun tools =
      (c : AgentToolCall) × (get_tool_call turn invocation tools ≡ some c)
      × (1 ≤ call_code c.status)

  first :
      (x c : AgentToolCall) (tools : List AgentToolCall)
      → is_tool_call turn invocation x ≡ true
      → get_tool_call turn invocation (x ∷ tools) ≡ some c
      → x ≡ c
  unfolding get_tool_call
  first x c tools here h = ground (arith, h, here)

  pub get-update :
      (v : AgentToolCall) (expected : AgentToolCallStatus) (tools : List AgentToolCall)
      (c : AgentToolCall)
      → get_tool_call turn invocation tools ≡ some c
      → get_tool_call turn invocation
          (update_where (is_expected_call v expected) (saved_call v) tools)
        ≡ some (apply_if (is_expected_call v expected) (saved_call v) c)
  unfolding get_tool_call update_where
  get-update v expected [] c h = cc
  get-update v expected (x ∷ tools) c h = elim (Bool-cases (is_tool_call turn invocation x)) [
    | inl here ↦ rw (key (is_expected_call v expected x) ∙ here) (
        ap (λ y. some (apply_if (is_expected_call v expected) (saved_call v) y))
          (first x c tools here h))
    | inr elsewhere ↦
        rw (key (is_expected_call v expected x) ∙ elsewhere)
          (get-update v expected tools c (ground (arith, h, elsewhere)))
  ]
    where
      key :
          (b : Bool)
          → is_tool_call turn invocation (if b then saved_call v x else x)
            ≡ is_tool_call turn invocation x
      key true = refl
      key false = refl

  pub get-append_found :
      (x : AgentToolCall) (tools : List AgentToolCall) (c : AgentToolCall)
      → get_tool_call turn invocation tools ≡ some c
      → get_tool_call turn invocation (tools ++ x ∷ []) ≡ some c
  unfolding get_tool_call
  get-append_found x [] c h = cc
  get-append_found x (y ∷ tools) c h = ground (arith, h, get-append_found x tools c)

  pub save-IsBegun :
      (v : AgentToolCall) (expected : AgentToolCallStatus) (db : UsageDb)
      → 1 ≤ call_code v.status
      → IsBegun db.tool_calls
      → IsBegun (save_tool_call v expected db).tool_calls
  unfolding save_tool_call
  save-IsBegun v expected db begun (c, found, h) = (
    apply_if (is_expected_call v expected) (saved_call v) c,
    get-update v expected db.tool_calls c found,
    either (is_expected_call v expected c),
  )
    where
      either : (b : Bool) → 1 ≤ call_code (if b then saved_call v c else c).status
      either true = begun
      either false = h

not_passed : (e : UsageError) (c : AgentToolCall) → stopped e ≡ passed c → ⊥
not_passed e c h = cc

-- A call that is built has the status that was given.
built_ended :
    (c : AgentToolCall)
    → 1 ≤ call_code c.status
    → Then (λ (d : AgentToolCall). 1 ≤ call_code d.status) (built c)
unfolding built
built_ended c h = decided (is_valid_call c)
  where
    decided :
        (b : Bool)
        → Then
            (λ (d : AgentToolCall). 1 ≤ call_code d.status)
            (if b then passed c else stopped invalid_value)
    decided true = holds c h
    decided false = stops _

pub start_call_begun :
    (c d : AgentToolCall) (now : ℕ) → start_call c now ≡ passed d → 1 ≤ call_code d.status
unfolding start_call
start_call_begun c d now h = elim (Bool-cases (call_code c.status == 1)) [
  | inl runs ↦ ground (arith, h, runs)
  | inr other ↦ elim (Bool-cases (call_code c.status == 0)) [
    | inl fresh ↦
        subst (λ s. 1 ≤ call_code s)
          (ap (λ (e : AgentToolCall). e.status)
            (built_same (record c { status = running; started_at = some now; updated_at = now }) d
              (rw (other, fresh) at h)))
          (omega arith)
    | inr ended ↦ absurd (not_passed invalid_value d (rw (other, ended) at h))
  ]
]

pub start_call_key :
    (c d : AgentToolCall) (now : ℕ)
    → start_call c now ≡ passed d
    → (d.turn_run_id ≡ c.turn_run_id) × (d.invocation_id ≡ c.invocation_id)
unfolding start_call
start_call_key c d now h = elim (Bool-cases (call_code c.status == 1)) [
  | inl runs ↦
      let q : c ≡ d = same_call (rw runs at h) in
      (
        ap (λ (e : AgentToolCall). e.turn_run_id) (sym q),
        ap (λ (e : AgentToolCall). e.invocation_id) (sym q),
      )
  | inr other ↦ elim (Bool-cases (call_code c.status == 0)) [
    | inl fresh ↦
        let q =
          built_same (record c { status = running; started_at = some now; updated_at = now }) d
            (rw (other, fresh) at h) in
        (
          ap (λ (e : AgentToolCall). e.turn_run_id) (sym q),
          ap (λ (e : AgentToolCall). e.invocation_id) (sym q),
        )
    | inr ended ↦ absurd (not_passed invalid_value d (rw (other, ended) at h))
  ]
]
  where
    same_call : passed c ≡ passed d → c ≡ d
    same_call q = cc

pub succeed_call_begun :
    (ms : ℕ → ℕ) (c d : AgentToolCall) (size : ℕ) (hash : Text) (preview : Option Text)
    (truncated : Bool) (now : ℕ)
    → succeed_call ms c size hash preview truncated now ≡ passed d
    → 1 ≤ call_code d.status
unfolding succeed_call
succeed_call_begun ms c d size hash preview truncated now h =
    Then-passed (λ e. 1 ≤ call_code e.status) _ d ended h
  where
    finished :
        (b : Bool)
        → Then
            (λ (e : AgentToolCall). 1 ≤ call_code e.status)
            (if b
              then stopped invalid_value
              else (duration_ms ms c.started_at now >>= λ duration.
                  built (with_success c size hash preview truncated duration now)))
    finished true = stops _
    finished false = Then-bind _ _ λ duration _.
        built_ended (with_success c size hash preview truncated duration now) (omega arith)

    ended : Then (λ e. 1 ≤ call_code e.status) (succeed_call ms c size hash preview truncated now)
    ended = finished (not (call_code c.status == 1))

pub fail_call_begun :
    (ms : ℕ → ℕ) (c d : AgentToolCall) (code message : Text) (preview : Option Text)
    (truncated : Bool) (now : ℕ)
    → fail_call ms c code message preview truncated now ≡ passed d
    → 1 ≤ call_code d.status
unfolding fail_call
fail_call_begun ms c d code message preview truncated now h =
    Then-passed (λ e. 1 ≤ call_code e.status) _ d ended h
  where
    finished :
        (a b : Bool)
        → Then
            (λ (e : AgentToolCall). 1 ≤ call_code e.status)
            (if a
              then stopped invalid_value
              else if b
              then stopped invalid_value
              else (duration_ms ms c.started_at now >>= λ duration.
                  built (with_failure c code message preview truncated duration now)))
    finished true b = stops _
    finished false true = stops _
    finished false false = Then-bind _ _ λ duration _.
        built_ended (with_failure c code message preview truncated duration now) (omega arith)

    ended : Then (λ e. 1 ≤ call_code e.status) (fail_call ms c code message preview truncated now)
    ended = finished (not (call_code c.status == 1)) (is_blank code || is_blank message)

module _ (turn invocation : ℕ) where
  abbrev pub StillBegun : {A : Type 0} → Guarded (A × UsageDb) → Type 0
  StillBegun m = Then (λ r. IsBegun turn invocation r.1.tool_calls) m

  pub save_call_or-StillBegun :
      (e : UsageError) (call : AgentToolCall) (expected : AgentToolCallStatus) (db : UsageDb)
      → 1 ≤ call_code call.status
      → IsBegun turn invocation db.tool_calls
      → StillBegun (save_call_or e call expected db)
  unfolding save_call_or
  save_call_or-StillBegun e call expected db begun h =
      Then-bind _ _ λ _ _. holds _ (save-IsBegun turn invocation call expected db begun h)

  pub start_turn-StillBegun :
      (t now : ℕ) (db : UsageDb)
      → IsBegun turn invocation db.tool_calls
      → StillBegun (start_turn t now db)
  unfolding start_turn save_usage
  start_turn-StillBegun t now db h = Then-bind _ _ λ c _.
      Then-bind _ _ λ _ _. holds _ (same (is_some c.usage.started_at) (start_usage c.usage now))
    where
      same :
          (b : Bool) (v : AgentTurnUsage)
          → IsBegun turn invocation (if b then db else save_usage v db).tool_calls
      same true v = h
      same false v = h

  pub reserve_model_call-StillBegun :
      (logs : Bool) (stamp : Stamp) (t ordinal tokens now : ℕ) (db : UsageDb)
      → IsBegun turn invocation db.tool_calls
      → StillBegun (reserve_model_call logs stamp t ordinal tokens now db)
  unfolding reserve_model_call count_model_call save_usage add_model_call
  reserve_model_call-StillBegun logs stamp t ordinal tokens now db h = Then-bind _ _ λ c _.
      Then-bind _ _ λ _ _. Then-bind _ _ λ _ _. Then-bind _ _ λ _ _.
        elim (Option-cases (get_model_call t ordinal db.model_calls)) [
          | inr (call, there) ↦ rw there (holds _ h)
          | inl missing ↦ rw missing (Then-bind _ _ λ _ _. Then-bind _ _ λ _ _. holds _ h)
        ]

  pub reserve_tool_call-StillBegun :
      (logs : Bool) (stamp : Stamp) (t : ℕ) (request : ToolCallReservationRequest) (now : ℕ)
      (db : UsageDb)
      → IsBegun turn invocation db.tool_calls
      → StillBegun (reserve_tool_call logs stamp t request now db)
  unfolding reserve_tool_call count_tool_call save_usage add_tool_call
  reserve_tool_call-StillBegun logs stamp t request now db h = Then-bind _ _ λ c _.
      Then-bind _ _ λ _ _. Then-bind _ _ λ _ _. Then-bind _ _ λ _ _. Then-bind _ _ λ _ _.
        Then-bind _ _ λ proposed _.
          elim (Option-cases (get_tool_call t request.invocation_id db.tool_calls)) [
            | inr (call, there) ↦ rw there (replayed call (is_replay call proposed))
            | inl missing ↦ rw missing (
                Then-bind _ _ λ _ _. Then-bind _ _ λ _ _. Then-bind _ _ λ _ _.
                  holds _
                    (h.0, get-append_found turn invocation proposed db.tool_calls h.0 h.1, h.2))
          ]
    where
      replayed :
          (call : AgentToolCall) (same : Bool)
          → Then
              (λ (r : AgentToolCall × UsageDb). IsBegun turn invocation r.1.tool_calls)
              (if same then passed (call, db) else stopped tool_reservation_conflict)
      replayed call true = holds _ h
      replayed call false = stops _
