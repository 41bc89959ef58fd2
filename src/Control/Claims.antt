-- ===== src/Control/Claims.antt =====
-- `claim` lets the execution of its turn evolve, and no other.
use literature_research_agen.Base.{
  ℕ, ◌≡◌, refl, sym, ◌∙◌, ap, subst, ◌⊎◌, inl, inr, Bool, true, false, some, if◌then◌else◌,
  Option-cases,
}
use literature_research_agen.Runtime.Texts.{Text, same_text, same_text_eq}
use literature_research_agen.Runtime.{RuntimeExecution, valid, and_then, claim}
use literature_research_agen.Runtime.Create.{Request, require_compatible, create_runtime_execution}
use literature_research_agen.Runtime.Steps.{claims, stay}
use literature_research_agen.Control.{
  Executions, get_execution, Added, added, present, id_taken, add_if_absent, execution_conflict,
}
use literature_research_agen.Control.Rows.{get-add_if_absent}
use literature_research_agen.Control.Service.{
  take_over, take_over_found, create_execution, claim_execution,
}
use literature_research_agen.Control.Evolution.{
  Evolves, TableEvolves, table_after, unchanged, save_or-TableEvolves, and_then_valid,
  Checked-cases, Evolves-refl, created,
}

take_over-TableEvolves :
    (table : Executions) (turn : Text) (request : Request) (attempt_id owner_id : Text)
    (expires now : ℕ) (x : RuntimeExecution)
    → get_execution turn table ≡ some x
    → TableEvolves table
        (table_after (take_over table request attempt_id owner_id expires now x) table)
unfolding take_over
take_over-TableEvolves table turn request attempt_id owner_id expires now x h =
    elim (Checked-cases
      (and_then (require_compatible x request) λ _. claim x attempt_id owner_id expires now)) [
        | inl (y, q) ↦ rw q (
            save_or-TableEvolves (execution_conflict true) turn x y table h
              (claims attempt_id owner_id expires now (and_then_valid _ _ y q)))
        | inr (e, q) ↦ rw q (unchanged table)
      ]

take_over_found-TableEvolves :
    (table : Executions) (turn : Text) (request : Request) (attempt_id owner_id : Text)
    (expires now : ℕ)
    → TableEvolves table (
        table_after
          (take_over_found table request attempt_id owner_id expires now (get_execution turn table))
          table)
unfolding take_over_found
take_over_found-TableEvolves table turn request attempt_id owner_id expires now =
    elim (Option-cases (get_execution turn table)) [
      | inl missing ↦ rw missing (unchanged table)
      | inr (x, found) ↦
          subst
            (λ o.
              TableEvolves table (
                table_after (take_over_found table request attempt_id owner_id expires now o)
                  table))
            (sym found)
            (take_over-TableEvolves table turn request attempt_id owner_id expires now x found)
    ]

added-TableEvolves :
    (table table' : Executions) (turn : Text) (request : Request) (attempt_id owner_id : Text)
    (expires now : ℕ) (x : RuntimeExecution)
    → create_runtime_execution turn request attempt_id owner_id expires now ≡ valid x
    → add_if_absent x table ≡ added table'
    → TableEvolves table table'
added-TableEvolves table table' turn request attempt_id owner_id expires now x made h asked =
    rw (get-add_if_absent x asked table table' h).1 (decided (same_text x.turn_run_id asked) refl)
  where
    decided :
        (here : Bool)
        → same_text x.turn_run_id asked ≡ here
        → Evolves (get_execution asked table) (if here then some x else get_execution asked table)
    decided true q =
        rw
          (ap (λ t. get_execution t table) (sym (same_text_eq x.turn_run_id asked q))
            ∙ (get-add_if_absent x asked table table' h).0)
          (created turn request attempt_id owner_id expires now x x made (stay x))
    decided false q = Evolves-refl (get_execution asked table)

Added-cases : (a : Added) → ((t : Executions) × (a ≡ added t)) ⊎ ((a ≡ present) ⊎ (a ≡ id_taken))
Added-cases (added t) = inl (t, refl)
Added-cases present = inr (inl refl)
Added-cases id_taken = inr (inr refl)

create_execution-TableEvolves :
    (table : Executions) (turn : Text) (request : Request) (attempt_id owner_id : Text)
    (expires now : ℕ)
    → TableEvolves table
        (table_after (create_execution table turn request attempt_id owner_id expires now) table)
unfolding create_execution
create_execution-TableEvolves table turn request attempt_id owner_id expires now =
    elim (Checked-cases (create_runtime_execution turn request attempt_id owner_id expires now)) [
      | inr (e, q) ↦ rw q (unchanged table)
      | inl (x, q) ↦ rw q (elim (Added-cases (add_if_absent x table)) [
        | inl (t, a) ↦
            rw a (added-TableEvolves table t turn request attempt_id owner_id expires now x q a)
        | inr (inl there) ↦
            rw there
              (take_over_found-TableEvolves table turn request attempt_id owner_id expires now)
        | inr (inr taken) ↦ rw taken (unchanged table)
      ])
    ]

pub claim_execution-TableEvolves :
    (table : Executions) (late : Bool) (turn : Text) (request : Request)
    (attempt_id owner_id : Text) (expires now : ℕ)
    → TableEvolves table (
        table_after (claim_execution table late turn request attempt_id owner_id expires now) table)
unfolding claim_execution
claim_execution-TableEvolves table true turn request attempt_id owner_id expires now =
    create_execution-TableEvolves table turn request attempt_id owner_id expires now
claim_execution-TableEvolves table false turn request attempt_id owner_id expires now =
    elim (Option-cases (get_execution turn table)) [
      | inl missing ↦
          rw missing
            (create_execution-TableEvolves table turn request attempt_id owner_id expires now)
      | inr (x, found) ↦
          rw found
            (take_over-TableEvolves table turn request attempt_id owner_id expires now x found)
    ]
