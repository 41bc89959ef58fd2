-- ===== src/Control/Refinement.antt =====
-- The service refines the lease of domain/runtime_execution.py.
use literature_research_agen.Base.{
  ℕ, ◌+◌, ◌≡◌, sym, subst, inl, inr, Bool, Option, none, some, List, [], ◌∷◌, Bool-cases,
  Option-cases,
}
use literature_research_agen.Run.{same_status, contains_status, RunStatus, cancel_requested}
use literature_research_agen.Attempt.{RunAttempt, AttemptStatus, same_attempt_status}
use literature_research_agen.Db.{Db}
use literature_research_agen.Runtime.Texts.{Text}
use literature_research_agen.Runtime.{
  RuntimeExecution, RuntimeExecutionPermit, valid, and_then, is_running, validate_permit, cancel,
}
use literature_research_agen.Runtime.Create.{Request}
use literature_research_agen.Runtime.Steps.{
  Step, renews, checkpoints, succeeds, fails, releases, cancels,
}
use literature_research_agen.Control.{Executions, get_execution, is_saved, lease_lost}
use literature_research_agen.Control.Service.{
  claim_bound, cancel_locked, claim_turn, latest_attempt, run_named, Mutation, to_renew,
  to_record_checkpoint, to_succeed, to_release, to_fail, mutate, mutate_locked, mutate_owned,
  assert_active, is_permit_current, cancel_for_business,
}
use literature_research_agen.Control.Evolution.{
  Evolves, TableEvolves, table_after, unchanged, saved-TableEvolves, save_or-TableEvolves,
  and_then_valid, Checked-cases, Reply-cases, Evolves-refl, Evolves-trans,
}
use literature_research_agen.Control.Claims.{claim_execution-TableEvolves}

pub mutate-Step :
    (lease : ℕ) (permit : RuntimeExecutionPermit) (mutation : Mutation) (x y : RuntimeExecution)
    (now : ℕ)
    → mutate lease permit mutation x now ≡ valid y
    → Step x y
unfolding mutate
mutate-Step lease p to_renew x y now h = renews p (now + lease) now h
mutate-Step lease p (to_record_checkpoint id) x y now h =
    checkpoints p.owner_id p.attempt_id p.fencing_token id now h
mutate-Step lease p (to_succeed id) x y now h =
    succeeds p.owner_id p.attempt_id p.fencing_token id now h
mutate-Step lease p (to_release code message) x y now h =
    releases p.owner_id p.attempt_id p.fencing_token code message now h
mutate-Step lease p (to_fail code message) x y now h = fails p code message now h

cancel_locked-TableEvolves :
    (table : Executions) (turn : Text) (now : ℕ)
    → TableEvolves table (table_after (cancel_locked table now (get_execution turn table)) table)
unfolding cancel_locked
cancel_locked-TableEvolves table turn now = elim (Option-cases (get_execution turn table)) [
  | inl missing ↦ rw missing (unchanged table)
  | inr (x, found) ↦
      subst (λ o. TableEvolves table (table_after (cancel_locked table now o) table)) (sym found)
        (elim (Checked-cases (cancel x now)) [
          | inl (y, q) ↦ cancelling x found y q
          | inr (e, q) ↦ rw q (elim (Bool-cases (is_running x.state)) [
            | inr over ↦ rw over (unchanged table)
            | inl runs ↦ rw runs (unchanged table)
          ])
        ])
]
  where
    cancelling :
        (x : RuntimeExecution)
        → get_execution turn table ≡ some x
        → (y : RuntimeExecution) → cancel x now ≡ valid y
        → TableEvolves table (table_after (cancel_locked table now (some x)) table)
    cancelling x found y q = rw q (elim (Bool-cases (is_running x.state)) [
      | inr over ↦ rw over (unchanged table)
      | inl runs ↦ rw runs (elim (Bool-cases (is_saved y x table)) [
        | inl hit ↦ rw hit (saved-TableEvolves turn x y table found (cancels now q))
        | inr miss ↦ rw miss (unchanged table)
      ])
    ])

module _ (text : ℕ → Text) where
  claim_bound-TableEvolves :
      (table : Executions) (late : Bool) (turn : Text) (request : Request) (owner_id : Text)
      (lease now : ℕ) (a : Option RunAttempt)
      → TableEvolves table
          (table_after (claim_bound text table late turn request owner_id lease now a) table)
  unfolding claim_bound
  claim_bound-TableEvolves table late turn request owner_id lease now none = unchanged table
  claim_bound-TableEvolves table late turn request owner_id lease now (some a) =
      elim (Bool-cases (same_attempt_status a.status AttemptStatus.running)) [
        | inl alive ↦ rw alive (
            claim_execution-TableEvolves table late turn request (text a.attempt_id) owner_id
              (now + lease) now)
        | inr ended ↦ rw ended (unchanged table)
      ]

  pub claim_turn-TableEvolves :
      (db : Db) (table : Executions) (late : Bool) (turn : Text) (request : Request)
      (owner_id : Text) (lease now : ℕ)
      → TableEvolves table
          (table_after (claim_turn text db table late turn request owner_id lease now) table)
  unfolding claim_turn
  claim_turn-TableEvolves db table late turn request owner_id lease now =
      elim (Option-cases (run_named text turn db.runs)) [
        | inl missing ↦ rw missing (unchanged table)
        | inr (r, found) ↦ rw found (elim (Bool-cases (same_status r.status cancel_requested)) [
          | inl asked ↦ rw asked (unchanged table)
          | inr free ↦ rw free (elim (Bool-cases (same_status r.status RunStatus.running)) [
            | inl runs ↦ rw runs (
                claim_bound-TableEvolves table late turn request owner_id lease now
                  (latest_attempt text turn db))
            | inr stopped ↦ rw stopped (unchanged table)
          ])
        ])
      ]

  mutate_locked-TableEvolves :
      (db : Db) (table : Executions) (lease : ℕ) (permit : RuntimeExecutionPermit)
      (mutation : Mutation) (now : ℕ)
      → TableEvolves table
          (table_after (mutate_locked text db table lease permit mutation now) table)
  unfolding mutate_locked
  mutate_locked-TableEvolves db table lease permit mutation now =
      elim (Bool-cases (is_permit_current text db permit)) [
        | inr lost ↦ rw lost (unchanged table)
        | inl current ↦ rw current (elim (Option-cases (get_execution permit.turn_run_id table)) [
          | inl missing ↦ rw missing (unchanged table)
          | inr (x, found) ↦
              rw found
                (elim (Checked-cases (
                  and_then (validate_permit x permit now)
                    λ _. mutate lease permit mutation x now)) [
                      | inl (y, q) ↦ rw q (
                          save_or-TableEvolves lease_lost permit.turn_run_id x y table found
                            (mutate-Step lease permit mutation x y now (and_then_valid _ _ y q)))
                      | inr (e, q) ↦ rw q (unchanged table)
                    ])
        ])
      ]

  pub mutate_owned-TableEvolves :
      (db0 : Db) (table0 : Executions) (now0 : ℕ) (db : Db) (table : Executions) (lease : ℕ)
      (permit : RuntimeExecutionPermit) (mutation : Mutation) (now : ℕ)
      → TableEvolves table
          (table_after (mutate_owned text db0 table0 now0 db table lease permit mutation now) table)
  unfolding mutate_owned
  mutate_owned-TableEvolves db0 table0 now0 db table lease permit mutation now =
      elim (Reply-cases (assert_active text db0 table0 permit now0)) [
        | inl (x, t, q) ↦ rw q (mutate_locked-TableEvolves db table lease permit mutation now)
        | inr (e, q) ↦ rw q (unchanged table)
      ]

  pub cancel_for_business-TableEvolves :
      (db : Db) (table : Executions) (turn : Text) (now : ℕ)
      → TableEvolves table (table_after (cancel_for_business text db table turn now) table)
  unfolding cancel_for_business
  cancel_for_business-TableEvolves db table turn now =
      elim (Option-cases (run_named text turn db.runs)) [
        | inl missing ↦ rw missing (unchanged table)
        | inr (r, found) ↦
            rw found
              (elim (Bool-cases
                (contains_status (cancel_requested ∷ RunStatus.cancelled ∷ []) r.status)) [
                  | inr unasked ↦ rw unasked (unchanged table)
                  | inl asked ↦ rw asked (cancel_locked-TableEvolves table turn now)
                ])
      ]

-- A call of the service that may write, with what it reads from the other tables.
pub data ControlCall : Type 0 where
  claims_turn :
      (db : Db) (late : Bool) (turn : Text) (request : Request) (owner_id : Text) (lease now : ℕ)
      → ControlCall
  mutates :
      (db0 : Db) (table0 : Executions) (now0 : ℕ) (db : Db) (lease : ℕ)
      (permit : RuntimeExecutionPermit) (mutation : Mutation) (now : ℕ)
      → ControlCall
  cancels_turn : (db : Db) (turn : Text) (now : ℕ) → ControlCall

module _ (text : ℕ → Text) where
  unfoldable pub perform_control : ControlCall → Executions → Executions
  perform_control (claims_turn db late turn request owner_id lease now) table =
      table_after (claim_turn text db table late turn request owner_id lease now) table
  perform_control (mutates db0 table0 now0 db lease permit mutation now) table =
      table_after (mutate_owned text db0 table0 now0 db table lease permit mutation now) table
  perform_control (cancels_turn db turn now) table =
      table_after (cancel_for_business text db table turn now) table

  unfoldable pub perform_controls : List ControlCall → Executions → Executions
  unfolding perform_control
  perform_controls [] table = table
  perform_controls (call ∷ calls) table = perform_controls calls (perform_control call table)

  perform_control-TableEvolves :
      (call : ControlCall) (table : Executions) → TableEvolves table (perform_control call table)
  unfolding perform_control
  perform_control-TableEvolves (claims_turn db late turn request owner_id lease now) table =
      claim_turn-TableEvolves text db table late turn request owner_id lease now
  perform_control-TableEvolves (mutates db0 table0 now0 db lease permit mutation now) table =
      mutate_owned-TableEvolves text db0 table0 now0 db table lease permit mutation now
  perform_control-TableEvolves (cancels_turn db turn now) table =
      cancel_for_business-TableEvolves text db table turn now

-- Over every list of calls of the service that may write, with any reads of the other tables and
-- at any times, the row of each turn follows the lease of the domain: it does not appear unless
-- `create_runtime_execution` accepts it, it never disappears, and every change of it is a history
-- of accepted operations of `RuntimeExecution`.
pub perform_controls_refines :
    (text : ℕ → Text) (calls : List ControlCall) (table : Executions) (turn : Text)
    → Evolves (get_execution turn table) (get_execution turn (perform_controls text calls table))
unfolding perform_controls
perform_controls_refines text [] table turn = Evolves-refl (get_execution turn table)
perform_controls_refines text (call ∷ calls) table turn =
    Evolves-trans _ _ _ (perform_control-TableEvolves text call table turn)
      (perform_controls_refines text calls (perform_control text call table) turn)
