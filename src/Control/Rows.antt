-- ===== src/Control/Rows.antt =====
-- What `save` and `add_if_absent` change: the row of one turn.
use literature_research_agen.Base.{
  ◌≡◌, refl, sym, ◌∙◌, ap, subst, inl, inr, Bool, true, false, Option, none, some, [], ◌∷◌, ◌++◌,
  if◌then◌else◌, Bool-cases, is_some, update_where, arith,
}
use literature_research_agen.Runtime.Texts.{Text, same_text, same_text_refl, same_text_eq}
use literature_research_agen.Runtime.{RuntimeExecution}
use literature_research_agen.Control.{
  Executions, has_turn, get_execution, added, add_if_absent, same_optional, is_expected,
  save_execution,
}

pub get_execution_turn :
    (turn : Text) (table : Executions) (x : RuntimeExecution)
    → get_execution turn table ≡ some x
    → x.turn_run_id ≡ turn
unfolding get_execution
get_execution_turn turn [] x h = cc
get_execution_turn turn (r ∷ rest) x h = elim (Bool-cases (has_turn turn r)) [
  | inl found ↦ ground (arith, same_text_eq r.turn_run_id turn)
  | inr other ↦ get_execution_turn turn rest x (ground arith)
]

same_optional_refl : (t : Option Text) → same_optional t t ≡ true
unfolding same_optional
same_optional_refl none = refl
same_optional_refl (some t) = same_text_refl t

-- A row meets its own conditions.
is_expected_refl : (x : RuntimeExecution) → is_expected x.turn_run_id x x ≡ true
unfolding is_expected
is_expected_refl x = ground (
  arith,
  same_text_refl x.turn_run_id,
  same_optional_refl x.current_attempt_id,
  same_optional_refl x.lease_owner_id,
)

is_expected_turn :
    (turn : Text) (x r : RuntimeExecution) → is_expected turn x r ≡ true → r.turn_run_id ≡ turn
unfolding is_expected
is_expected_turn turn x r h = same_text_eq r.turn_run_id turn (ground arith)

module _ (x y : RuntimeExecution) (same : y.turn_run_id ≡ x.turn_run_id) where
  -- The rows of other turns stay.
  get-save_execution_other :
      (turn : Text) (table : Executions)
      → same_text x.turn_run_id turn ≡ false
      → get_execution turn (save_execution y x table) ≡ get_execution turn table
  unfolding save_execution update_where get_execution
  get-save_execution_other turn [] h = refl
  get-save_execution_other turn (r ∷ rest) h = elim (Bool-cases (is_expected y.turn_run_id x r)) [
    | inl hit ↦
        let t : r.turn_run_id ≡ x.turn_run_id = is_expected_turn y.turn_run_id x r hit ∙ same in
        rw (hit, t, same, h) (get-save_execution_other turn rest h)
    | inr miss ↦
        rw miss
          (ap (λ o. if has_turn turn r then some r else o) (get-save_execution_other turn rest h))
  ]

  -- The row that was read is replaced.
  get-save_execution_same :
      (table : Executions)
      → get_execution x.turn_run_id table ≡ some x
      → get_execution x.turn_run_id (save_execution y x table) ≡ some y
  unfolding save_execution update_where get_execution
  get-save_execution_same [] h = cc
  get-save_execution_same (r ∷ rest) h = elim (Bool-cases (has_turn x.turn_run_id r)) [
    | inl found ↦ first (r_is_x found)
    | inr other ↦ elim (Bool-cases (is_expected y.turn_run_id x r)) [
      | inl hit ↦ absurd (clash (is_expected_turn y.turn_run_id x r hit ∙ same) other)
      | inr miss ↦ rw (miss, other) (get-save_execution_same rest (ground arith))
    ]
  ]
    where
      r_is_x : has_turn x.turn_run_id r ≡ true → r ≡ x
      r_is_x found = ground arith

      clash : r.turn_run_id ≡ x.turn_run_id → has_turn x.turn_run_id r ≡ false → ⊥
      clash t other = ground (arith, same_text_refl x.turn_run_id)

      expected : r ≡ x → is_expected y.turn_run_id x r ≡ true
      expected q = rw (q, same) (is_expected_refl x)

      named : has_turn x.turn_run_id y ≡ true
      named = rw same (same_text_refl x.turn_run_id)

      first : r ≡ x → get_execution x.turn_run_id (save_execution y x (r ∷ rest)) ≡ some y
      first q = rw (expected q, named) refl

-- After a save_execution, in one equation.
pub get-save_execution :
    (x y : RuntimeExecution) (turn asked : Text) (table : Executions)
    → get_execution turn table ≡ some x
    → y.turn_run_id ≡ x.turn_run_id
    → get_execution asked (save_execution y x table)
      ≡ (if same_text turn asked then some y else get_execution asked table)
get-save_execution x y turn asked table h same = elim (Bool-cases (same_text turn asked)) [
  | inl here ↦ rw here (
      subst (λ t. get_execution t (save_execution y x table) ≡ some y)
        (own ∙ same_text_eq turn asked here)
        (get-save_execution_same x y same table
          (subst (λ t. get_execution t table ≡ some x) (sym own) h)))
  | inr elsewhere ↦
      rw elsewhere (
        get-save_execution_other x y same asked table (ap (λ t. same_text t asked) own ∙ elsewhere))
]
  where
    own : x.turn_run_id ≡ turn
    own = get_execution_turn turn table x h

get-append :
    (asked : Text) (table : Executions) (x : RuntimeExecution)
    → get_execution asked (table ++ x ∷ []) ≡ (
        if is_some (get_execution asked table)
        then get_execution asked table
        else if same_text x.turn_run_id asked
        then some x
        else none)
unfolding get_execution
get-append asked [] x = refl
get-append asked (r ∷ rest) x = elim (Bool-cases (has_turn asked r)) [
  | inl found ↦ rw found refl
  | inr other ↦ rw other (get-append asked rest x)
]

-- After a row has been added, there was none of its turn, and there is now this one.
pub get-add_if_absent :
    (x : RuntimeExecution) (asked : Text) (table table' : Executions)
    → add_if_absent x table ≡ added table'
    → (get_execution x.turn_run_id table ≡ none)
      × (get_execution asked table'
          ≡ (if same_text x.turn_run_id asked then some x else get_execution asked table))
unfolding add_if_absent
get-add_if_absent x asked table table' h =
    (absent, rw (sym grown) (get-append asked table x ∙ cases (same_text x.turn_run_id asked) refl))
  where
    absent : get_execution x.turn_run_id table ≡ none
    absent = ground arith

    grown : table ++ x ∷ [] ≡ table'
    grown = ground arith

    cases :
        (b : Bool)
        → same_text x.turn_run_id asked ≡ b
        → (if is_some (get_execution asked table)
            then get_execution asked table
            else if b
            then some x
            else none)
          ≡ (if b then some x else get_execution asked table)
    cases true q =
        rw (ap (λ t. get_execution t table) (sym (same_text_eq x.turn_run_id asked q)) ∙ absent)
          refl
    cases false q = ground arith
