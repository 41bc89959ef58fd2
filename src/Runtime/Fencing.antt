-- ===== src/Runtime/Fencing.antt =====
-- What the fencing token guarantees over every history of a runtime execution.
use literature_research_agen.Base.{
  ℕ, ◌+◌, ◌≤◌, ◌≡◌, refl, sym, ◌∙◌, Bool, true, false, ◌&&◌, Option, none, some, arith, ==_iff,
}
use literature_research_agen.Runtime.Texts.{Text, is_empty, same_text_eq, same_text_refl, is_text}
use literature_research_agen.Runtime.{
  RuntimeExecution, RuntimeExecutionPermit, RuntimeExecutionError, Checked, valid, refused,
  is_running, require_running, require_permit, claim, is_orphaned,
}
use literature_research_agen.Runtime.Steps.{
  Step, Steps, stay, more, is_holder, require_permit_ok, Step-Keeps, Steps-token, Steps-holder,
}

same_permit :
    (p q : RuntimeExecutionPermit)
    → p.turn_run_id ≡ q.turn_run_id
    → p.owner_id ≡ q.owner_id
    → p.attempt_id ≡ q.attempt_id
    → p.fencing_token ≡ q.fencing_token
    → p ≡ q
same_permit p q a b c d =
    λ i. record { turn_run_id = a i; owner_id = b i; attempt_id = c i; fencing_token = d i }

older_refused :
    (x y : RuntimeExecution) (permit : RuntimeExecutionPermit)
    → permit.fencing_token + 1 ≤ x.fencing_token
    → require_permit x permit ≡ valid y
    → ⊥
unfolding require_permit require_running
older_refused x y permit older h = ground arith

is_text_eq : (o : Option Text) (s t : Text) → is_text o s ≡ true → is_text o t ≡ true → s ≡ t
is_text_eq none s t h k = cc
is_text_eq (some r) s t h k = sym (same_text_eq r s h) ∙ same_text_eq r t k

and_split : (a b : Bool) → (a && b) ≡ true → (a ≡ true) × (b ≡ true)
and_split a b h = ground arith

same_holder :
    (x : RuntimeExecution) (p q : RuntimeExecutionPermit)
    → is_holder x p ≡ true
    → is_holder x q ≡ true
    → p ≡ q
same_holder x p q hp hq =
    let (pt, pr) = and_split _ _ hp in
    let (po, ps) = and_split _ _ pr in
    let (pa, pf) = and_split _ _ ps in
    let (qt, qr) = and_split _ _ hq in
    let (qo, qs) = and_split _ _ qr in
    let (qa, qf) = and_split _ _ qs in
    same_permit p q
      (same_text_eq p.turn_run_id x.turn_run_id pt ∙ sym (same_text_eq q.turn_run_id _ qt))
      (is_text_eq x.lease_owner_id p.owner_id q.owner_id po qo)
      (is_text_eq x.current_attempt_id p.attempt_id q.attempt_id pa qa)
      ((==_iff p.fencing_token x.fencing_token).0 pf
        ∙ sym ((==_iff q.fencing_token x.fencing_token).0 qf))

holder_token :
    (x : RuntimeExecution) (p : RuntimeExecutionPermit)
    → is_holder x p ≡ true
    → p.fencing_token ≡ x.fencing_token
holder_token x p h = ground arith

-- Two permits of one token that pass `_require_permit`, at any two moments of an execution's
-- history, are the same permit: under one fencing token there is one owner with one attempt.
pub permit_unique :
    (x y : RuntimeExecution) (p q : RuntimeExecutionPermit)
    → Steps x y
    → require_permit x p ≡ valid x
    → require_permit y q ≡ valid y
    → p.fencing_token ≡ q.fencing_token
    → p ≡ q
permit_unique x y p q steps hp hq same =
    let (p_holds, _, _) = require_permit_ok x x p hp in
    let (q_holds, _, _) = require_permit_ok y y q hq in
    same_holder x p q p_holds (
      Steps-holder x y q steps (sym (holder_token x p p_holds) ∙ same ∙ holder_token y q q_holds)
        q_holds)

claim_raises :
    (x y : RuntimeExecution) (attempt_id owner_id : Text) (expires now : ℕ)
    → is_orphaned x now ≡ true
    → claim x attempt_id owner_id expires now ≡ valid y
    → y.fencing_token ≡ x.fencing_token + 1
unfolding claim require_running is_orphaned
claim_raises x y attempt_id owner_id expires now orphaned h = ground arith

-- Once an orphaned execution has been claimed anew, a permit that was good before is refused for
-- good, whatever operations follow.
pub permit_fenced :
    (x y z : RuntimeExecution) (permit : RuntimeExecutionPermit) (attempt_id owner_id : Text)
    (expires now : ℕ)
    → require_permit x permit ≡ valid x
    → is_orphaned x now ≡ true
    → claim x attempt_id owner_id expires now ≡ valid y
    → Steps y z
    → (e : RuntimeExecutionError) × (require_permit z permit ≡ refused e)
permit_fenced x y z permit attempt_id owner_id expires now held orphaned claimed steps =
    inverted (require_permit z permit) refl
  where
    older : permit.fencing_token + 1 ≤ z.fencing_token
    older = omega (
      arith,
      holder_token x permit (require_permit_ok x x permit held).0,
      claim_raises x y attempt_id owner_id expires now orphaned claimed,
      Steps-token y z steps,
    )

    inverted :
        (r : Checked RuntimeExecution)
        → require_permit z permit ≡ r
        → (e : RuntimeExecutionError) × (require_permit z permit ≡ refused e)
    inverted (refused e) q = (e, q)
    inverted (valid v) q = absurd (older_refused z v permit older q)

-- An execution that is not running accepts no operation.
final_refused : (x y : RuntimeExecution) → is_running x.state ≡ false → Step x y → ⊥
final_refused x y h step = ground (arith, (Step-Keeps x y step).from_running)

-- An execution that has ended, in whatever state, stays exactly as it is.
pub ended_final : (x y : RuntimeExecution) → is_running x.state ≡ false → Steps x y → y ≡ x
ended_final _ _ h (stay x) = refl
ended_final _ _ h (more x y z step steps) = absurd (final_refused x y h step)

abbrev claimed_by : RuntimeExecution → Text → Text → ℕ → ℕ → RuntimeExecution
claimed_by x attempt_id owner_id expires now = record x {
  current_attempt_id = some attempt_id;
  lease_owner_id = some owner_id;
  lease_expires_at = some expires;
  fencing_token = x.fencing_token + 1;
  updated_at = now;
}

claim_accepted :
    (x : RuntimeExecution) (attempt_id owner_id : Text) (expires now : ℕ)
    → is_orphaned x now ≡ true
    → is_empty attempt_id ≡ false
    → is_empty owner_id ≡ false
    → now + 1 ≤ expires
    → claim x attempt_id owner_id expires now ≡ valid (claimed_by x attempt_id owner_id expires now)
unfolding claim require_running is_orphaned
claim_accepted x attempt_id owner_id expires now orphaned has_attempt has_owner later = ground arith

-- An orphaned execution can always be claimed: by a holder whose names are not empty, for a lease
-- that ends after now. The claimant's permit then passes the comparison with the holder, and the
-- token has risen by one.
pub claim_returns :
    (x : RuntimeExecution) (attempt_id owner_id : Text) (expires now : ℕ)
    → is_orphaned x now ≡ true
    → is_empty attempt_id ≡ false
    → is_empty owner_id ≡ false
    → now + 1 ≤ expires
    → (y : RuntimeExecution) × (claim x attempt_id owner_id expires now ≡ valid y)
      × (y.fencing_token ≡ x.fencing_token + 1)
      × (is_holder y (record {
        turn_run_id = x.turn_run_id;
        owner_id = owner_id;
        attempt_id = attempt_id;
        fencing_token = x.fencing_token + 1;
      })
          ≡ true)
claim_returns x attempt_id owner_id expires now orphaned has_attempt has_owner later = (
  claimed_by x attempt_id owner_id expires now,
  claim_accepted x attempt_id owner_id expires now orphaned has_attempt has_owner later,
  refl,
  rw
      (
        same_text_refl x.turn_run_id,
        same_text_refl owner_id,
        same_text_refl attempt_id,
        (==_iff (x.fencing_token + 1) (x.fencing_token + 1)).1 refl,
      )
      refl,
)
