-- ===== src/Control/Evolution.antt =====
-- How the execution of a turn may evolve, and that a saved operation of the lease is one step of it.
use literature_research_agen.Base.{
  ℕ, ◌≡◌, refl, sym, ◌∙◌, ap, ◌⊎◌, inl, inr, Bool, true, false, Option, none, some, if◌then◌else◌,
  Bool-cases, arith,
}
use literature_research_agen.Runtime.Texts.{Text, same_text, same_text_eq}
use literature_research_agen.Runtime.{
  RuntimeExecution, RuntimeExecutionError, Checked, valid, refused, and_then, claim, renew,
  record_checkpoint, succeed, fail, record_temporary_error, cancel, require_permit, require_running,
  finish, bounded,
}
use literature_research_agen.Runtime.Create.{Request, create_runtime_execution}
use literature_research_agen.Runtime.Steps.{
  Step, claims, renews, checkpoints, succeeds, fails, releases, cancels, Steps, stay, more,
}
use literature_research_agen.Control.{
  ControlError, Executions, Reply, answered, raised, get_execution, is_saved, save_execution,
}
use literature_research_agen.Control.Rows.{get-save_execution}
use literature_research_agen.Control.Service.{save_or}

-- What may happen to the execution of a turn: it is created once, and then only the accepted
-- operations of the lease change it.
pub data Evolves : Option RuntimeExecution → Option RuntimeExecution → Type 0 where
  absent : Evolves none none
  created :
      (turn : Text) (request : Request) (attempt_id owner_id : Text) (expires now : ℕ)
      (x y : RuntimeExecution)
      → create_runtime_execution turn request attempt_id owner_id expires now ≡ valid x
      → Steps x y
      → Evolves none (some y)
  evolved : (x y : RuntimeExecution) → Steps x y → Evolves (some x) (some y)

pub Steps-trans : (x y z : RuntimeExecution) → Steps x y → Steps y z → Steps x z
Steps-trans _ _ z (stay x) later = later
Steps-trans _ _ z (more x y y' step steps) later = more x y z step (Steps-trans y y' z steps later)

pub Evolves-refl : (o : Option RuntimeExecution) → Evolves o o
Evolves-refl none = absent
Evolves-refl (some x) = evolved x x (stay x)

pub Evolves-trans : (a b c : Option RuntimeExecution) → Evolves a b → Evolves b c → Evolves a c
Evolves-trans _ _ c absent later = later
Evolves-trans _ _ _ (created turn request attempt owner expires now x y made steps)
      (evolved _ z later) =
    created turn request attempt owner expires now x z made (Steps-trans x y z steps later)
Evolves-trans _ _ _ (evolved x y steps) (evolved _ z later) =
    evolved x z (Steps-trans x y z steps later)

-- The same of every turn.
abbrev pub TableEvolves : Executions → Executions → Type 0
TableEvolves table table' =
    (turn : Text) → Evolves (get_execution turn table) (get_execution turn table')

abbrev pub table_after : {A : Type 0} → Reply A → Executions → Executions
table_after (answered a table') table = table'
table_after (raised e) table = table

pub unchanged : (table : Executions) → TableEvolves table table
unchanged table turn = Evolves-refl (get_execution turn table)

-- An operation leaves the turn of the execution alone.
pub Step-turn : (x y : RuntimeExecution) → Step x y → y.turn_run_id ≡ x.turn_run_id
unfolding claim renew record_checkpoint succeed fail record_temporary_error cancel require_permit
    require_running finish bounded
Step-turn x y (claims attempt owner expires now h) = ground arith
Step-turn x y (renews permit expires now h) = ground arith
Step-turn x y (checkpoints owner attempt token checkpoint now h) = ground arith
Step-turn x y (succeeds owner attempt token checkpoint now h) = ground arith
Step-turn x y (fails permit code message now h) = ground arith
Step-turn x y (releases owner attempt token code message now h) = ground arith
Step-turn x y (cancels now h) = ground arith

pub saved-TableEvolves :
    (turn : Text) (x y : RuntimeExecution) (table : Executions)
    → get_execution turn table ≡ some x
    → Step x y
    → TableEvolves table (save_execution y x table)
saved-TableEvolves turn x y table h step asked =
    rw (get-save_execution x y turn asked table h (Step-turn x y step))
      (decided (same_text turn asked) refl)
  where
    decided :
        (here : Bool)
        → same_text turn asked ≡ here
        → Evolves (get_execution asked table) (if here then some y else get_execution asked table)
    decided true q =
        rw (ap (λ t. get_execution t table) (sym (same_text_eq turn asked q)) ∙ h)
          (evolved x y (more x y y step (stay y)))
    decided false q = Evolves-refl (get_execution asked table)

pub save_or-TableEvolves :
    (e : ControlError) (turn : Text) (x y : RuntimeExecution) (table : Executions)
    → get_execution turn table ≡ some x
    → Step x y
    → TableEvolves table (table_after (save_or e y x table) table)
unfolding save_or
save_or-TableEvolves e turn x y table h step = elim (Bool-cases (is_saved y x table)) [
  | inl hit ↦ rw hit (saved-TableEvolves turn x y table h step)
  | inr miss ↦ rw miss (unchanged table)
]

pub and_then_valid :
    (r : Checked RuntimeExecution) (s : Checked RuntimeExecution) (y : RuntimeExecution)
    → and_then r (λ _. s) ≡ valid y
    → s ≡ valid y
and_then_valid (valid a) s y h = h
and_then_valid (refused e) s y h = cc

pub Checked-cases :
    (r : Checked RuntimeExecution)
    → ((y : RuntimeExecution) × (r ≡ valid y)) ⊎ ((e : RuntimeExecutionError) × (r ≡ refused e))
Checked-cases (valid y) = inl (y, refl)
Checked-cases (refused e) = inr (e, refl)

pub Reply-cases :
    (r : Reply RuntimeExecution)
    → ((x : RuntimeExecution) × (t : Executions) × (r ≡ answered x t))
      ⊎ ((e : ControlError) × (r ≡ raised e))
Reply-cases (answered x t) = inl (x, t, refl)
Reply-cases (raised e) = inr (e, refl)
