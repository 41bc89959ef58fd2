-- ===== src/Control/Ownership.antt =====
-- Who may write: the permits of the service.
use literature_research_agen.Base.{
  ℕ, ◌<◌, ◌≡◌, refl, sym, ◌∙◌, ap, subst, inl, inr, Bool, true, false, Option, none, some, List,
  Bool-cases, Option-cases, if◌then◌else◌, arith,
}
use literature_research_agen.Db.{Db}
use literature_research_agen.Runtime.Texts.{Text, same_text}
use literature_research_agen.Runtime.{
  RuntimeExecution, RuntimeExecutionPermit, RuntimeExecutionError, Checked, valid, refused,
  and_then, has_expired, validate_permit, require_permit, require_running,
}
use literature_research_agen.Runtime.Steps.{Steps-token, is_holder}
use literature_research_agen.Control.{
  Executions, Reply, answered, raised, get_execution, save_execution, lease_lost, ControlError,
}
use literature_research_agen.Control.Rows.{get-save_execution}
use literature_research_agen.Control.Evolution.{
  Evolves, evolved, Checked-cases, Step-turn, Reply-cases,
}
use literature_research_agen.Control.Service.{
  Mutation, mutate, save_or, is_permit_current, assert_active, mutate_locked, mutate_owned,
}
use literature_research_agen.Control.Refinement.{
  ControlCall, perform_controls, perform_controls_refines, mutate-Step,
}

-- The row of a turn is there, and its token is past that of the permit.
abbrev pub IsSuperseded : RuntimeExecutionPermit → Option RuntimeExecution → Type 0
IsSuperseded permit none = ⊥
IsSuperseded permit (some x) = permit.fencing_token < x.fencing_token

IsSuperseded-stays :
    (permit : RuntimeExecutionPermit) (a b : Option RuntimeExecution)
    → Evolves a b
    → IsSuperseded permit a
    → IsSuperseded permit b
IsSuperseded-stays permit _ _ (evolved x y steps) h = omega (arith, h, Steps-token x y steps)
IsSuperseded-stays permit none b e h = absurd h

superseded_refused :
    (permit : RuntimeExecutionPermit) (x : RuntimeExecution) (now : ℕ)
    → permit.fencing_token < x.fencing_token
    → (e : RuntimeExecutionError) × (validate_permit x permit now ≡ refused e)
unfolding validate_permit require_permit require_running
superseded_refused permit x now h = elim (Checked-cases (validate_permit x permit now)) [
  | inr found ↦ found
  | inl (y, q) ↦ absurd (ground arith)
]

lost_either_way :
    (b : Bool) (r : Reply RuntimeExecution)
    → r ≡ raised lease_lost
    → (if b then r else raised lease_lost) ≡ raised lease_lost
lost_either_way true r q = q
lost_either_way false r q = refl

module _ (text : ℕ → Text) where
  mutate_locked_superseded :
      (db : Db) (table : Executions) (lease : ℕ) (permit : RuntimeExecutionPermit)
      (mutation : Mutation) (now : ℕ)
      → IsSuperseded permit (get_execution permit.turn_run_id table)
      → mutate_locked text db table lease permit mutation now ≡ raised lease_lost
  unfolding mutate_locked
  mutate_locked_superseded db table lease permit mutation now h =
      elim (Option-cases (get_execution permit.turn_run_id table)) [
        | inl missing ↦ absurd (subst (IsSuperseded permit) missing h)
        | inr (x, found) ↦
            let (e, q) = superseded_refused permit x now (subst (IsSuperseded permit) found h) in
            rw (found, q)
              (lost_either_way (is_permit_current text db permit) (raised lease_lost) refl)
      ]

  assert_active_raises :
      (db : Db) (table : Executions) (permit : RuntimeExecutionPermit) (now : ℕ) (e : ControlError)
      → assert_active text db table permit now ≡ raised e
      → e ≡ lease_lost
  unfolding assert_active
  assert_active_raises db table permit now e h =
      elim (Bool-cases (is_permit_current text db permit)) [
        | inr lost ↦ ground (arith, h, lost)
        | inl current ↦ elim (Option-cases (get_execution permit.turn_run_id table)) [
          | inl missing ↦ ground (arith, h, current, missing)
          | inr (x, found) ↦ ground (arith, h, current, found)
        ]
      ]

  mutate_owned_superseded :
      (db0 : Db) (table0 : Executions) (now0 : ℕ) (db : Db) (table : Executions) (lease : ℕ)
      (permit : RuntimeExecutionPermit) (mutation : Mutation) (now : ℕ)
      → IsSuperseded permit (get_execution permit.turn_run_id table)
      → mutate_owned text db0 table0 now0 db table lease permit mutation now ≡ raised lease_lost
  unfolding mutate_owned
  mutate_owned_superseded db0 table0 now0 db table lease permit mutation now h =
      elim (Reply-cases (assert_active text db0 table0 permit now0)) [
        | inl (x, t, q) ↦ rw q (mutate_locked_superseded db table lease permit mutation now h)
        | inr (e, q) ↦ rw q (ap raised (assert_active_raises db0 table0 permit now0 e q))
      ]

-- Once the stored token of a turn has passed that of a permit, every renewal, checkpoint, success,
-- release or failure under the permit is refused as a lost lease, whatever calls of the service
-- come between and whatever `assert_active` has read.
pub mutate_owned_fenced :
    (text : ℕ → Text) (table : Executions) (calls : List ControlCall)
    (permit : RuntimeExecutionPermit) (db0 : Db) (table0 : Executions) (now0 : ℕ) (db : Db)
    (lease : ℕ) (mutation : Mutation) (now : ℕ)
    → IsSuperseded permit (get_execution permit.turn_run_id table)
    → mutate_owned text db0 table0 now0 db
        (perform_controls text calls table)
        lease
        permit
        mutation
        now
      ≡ raised lease_lost
mutate_owned_fenced text table calls permit db0 table0 now0 db lease mutation now h =
    mutate_owned_superseded text db0 table0 now0 db (perform_controls text calls table) lease permit
      mutation now
      (IsSuperseded-stays permit _ _ (perform_controls_refines text calls table permit.turn_run_id)
        h)

-- What a committed write says.
abbrev pub IsOwnWrite :
    (ℕ → Text)
    → Db
    → Executions
    → ℕ
    → RuntimeExecutionPermit
    → Mutation
    → ℕ
    → RuntimeExecution
    → Executions
    → Type 0
IsOwnWrite text db table lease permit mutation now y table' =
    (x : RuntimeExecution) × (get_execution permit.turn_run_id table ≡ some x)
    × (is_permit_current text db permit ≡ true)
    × (is_holder x permit ≡ true)
    × (has_expired x.lease_expires_at now ≡ false)
    × (mutate lease permit mutation x now ≡ valid y)
    × ((asked : Text)
        → get_execution asked table'
          ≡ (if same_text permit.turn_run_id asked then some y else get_execution asked table))

validated :
    (x : RuntimeExecution) (permit : RuntimeExecutionPermit) (now : ℕ)
    (s : Checked RuntimeExecution) (y : RuntimeExecution)
    → and_then (validate_permit x permit now) (λ _. s) ≡ valid y
    → (is_holder x permit ≡ true) × (has_expired x.lease_expires_at now ≡ false) × (s ≡ valid y)
unfolding validate_permit require_permit require_running
validated x permit now s y h = ground arith

impossible :
    (e : ControlError) (y : RuntimeExecution) (t : Executions) → raised e ≡ answered y t → ⊥
impossible e y t h = cc

save_or_answered :
    (e : ControlError) (x y z : RuntimeExecution) (table table' : Executions)
    → save_or e z x table ≡ answered y table'
    → (z ≡ y) × (save_execution z x table ≡ table')
unfolding save_or
save_or_answered e x y z table table' h = ground arith

mutate_locked_own :
    (text : ℕ → Text) (db : Db) (table : Executions) (lease : ℕ) (permit : RuntimeExecutionPermit)
    (mutation : Mutation) (now : ℕ) (y : RuntimeExecution) (table' : Executions)
    → mutate_locked text db table lease permit mutation now ≡ answered y table'
    → IsOwnWrite text db table lease permit mutation now y table'
unfolding mutate_locked
mutate_locked_own text db table lease permit mutation now y table' h =
    elim (Bool-cases (is_permit_current text db permit)) [
      | inr lost ↦ absurd (impossible lease_lost y table' (rw lost at h))
      | inl current ↦ elim (Option-cases (get_execution permit.turn_run_id table)) [
        | inl missing ↦ absurd (impossible lease_lost y table' (rw (current, missing) at h))
        | inr (x, found) ↦
            elim (Checked-cases
              (and_then (validate_permit x permit now) λ _. mutate lease permit mutation x now)) [
                | inr (e, q) ↦ absurd (impossible lease_lost y table' (rw (current, found, q) at h))
                | inl (z, q) ↦
                    let v = validated x permit now (mutate lease permit mutation x now) z q in
                    let w =
                      save_or_answered lease_lost x y z table table'
                        (rw (current, found, q) at h) in
                    let m : mutate lease permit mutation x now ≡ valid y = v.2 ∙ ap valid w.0 in
                    (
                      x,
                      found,
                      current,
                      v.0,
                      v.1,
                      m,
                      λ asked.
                          ap (get_execution asked) (sym w.1)
                          ∙ ap (λ o. get_execution asked (save_execution o x table)) w.0
                          ∙ get-save_execution x y permit.turn_run_id asked table found
                              (Step-turn x y (mutate-Step lease permit mutation x y now m)),
                    )
              ]
      ]
    ]

-- A write under a permit is committed only if, in the session that commits it, the turn is
-- running, the permit's attempt is the latest and running, the permit is that of the stored
-- holder, the lease has not expired, and the operation of the domain accepts it. It then replaces
-- the row of the turn, and no other row changes.
pub mutate_owned_own :
    (text : ℕ → Text) (db0 : Db) (table0 : Executions) (now0 : ℕ) (db : Db) (table : Executions)
    (lease : ℕ) (permit : RuntimeExecutionPermit) (mutation : Mutation) (now : ℕ)
    (y : RuntimeExecution) (table' : Executions)
    → mutate_owned text db0 table0 now0 db table lease permit mutation now ≡ answered y table'
    → IsOwnWrite text db table lease permit mutation now y table'
unfolding mutate_owned
mutate_owned_own text db0 table0 now0 db table lease permit mutation now y table' h =
    elim (Reply-cases (assert_active text db0 table0 permit now0)) [
      | inl (x, t, q) ↦
          mutate_locked_own text db table lease permit mutation now y table' (rw q at h)
      | inr (e, q) ↦ absurd (impossible e y table' (rw q at h))
    ]
