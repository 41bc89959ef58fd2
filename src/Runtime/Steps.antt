-- ===== src/Runtime/Steps.antt =====
-- Histories of a runtime execution, and what every operation does to the lease and its token.
use literature_research_agen.Base.{ℕ, ◌≤◌, ◌≡◌, refl, Bool, true, ◌&&◌, arith, ◌==◌}
use literature_research_agen.Runtime.Texts.{Text, same_text, is_text}
use literature_research_agen.Runtime.{
  RuntimeExecution, RuntimeExecutionPermit, RuntimeControlState, Checked, valid, refused, and_then,
  is_running, require_running, require_permit, finish, claim, renew, record_checkpoint, succeed,
  fail, record_temporary_error, cancel, bounded,
}

-- One operation that was accepted.
pub data Step (x y : RuntimeExecution) : Type 0 where
  claims :
      (attempt_id owner_id : Text) (expires now : ℕ)
      → claim x attempt_id owner_id expires now ≡ valid y
      → Step x y
  renews :
      (permit : RuntimeExecutionPermit) (expires now : ℕ)
      → renew x permit expires now ≡ valid y
      → Step x y
  checkpoints :
      (owner_id attempt_id : Text) (token : ℕ) (checkpoint_id : Text) (now : ℕ)
      → record_checkpoint x owner_id attempt_id token checkpoint_id now ≡ valid y
      → Step x y
  succeeds :
      (owner_id attempt_id : Text) (token : ℕ) (checkpoint_id : Text) (now : ℕ)
      → succeed x owner_id attempt_id token checkpoint_id now ≡ valid y
      → Step x y
  fails :
      (permit : RuntimeExecutionPermit) (code message : Text) (now : ℕ)
      → fail x permit code message now ≡ valid y
      → Step x y
  releases :
      (owner_id attempt_id : Text) (token : ℕ) (code message : Text) (now : ℕ)
      → record_temporary_error x owner_id attempt_id token code message now ≡ valid y
      → Step x y
  cancels : (now : ℕ) → cancel x now ≡ valid y → Step x y

-- Any number of operations, by anyone.
pub data Steps : RuntimeExecution → RuntimeExecution → Type 0 where
  stay : (x : RuntimeExecution) → Steps x x
  more : (x y z : RuntimeExecution) → Step x y → Steps y z → Steps x z

-- Who holds the lease: the fields that a permit is compared with.
abbrev pub is_holder : RuntimeExecution → RuntimeExecutionPermit → Bool
is_holder x permit =
    same_text permit.turn_run_id x.turn_run_id
    && (is_text x.lease_owner_id permit.owner_id
        && (is_text x.current_attempt_id permit.attempt_id
            && permit.fencing_token == x.fencing_token))

pub require_permit_ok :
    (x y : RuntimeExecution) (permit : RuntimeExecutionPermit)
    → require_permit x permit ≡ valid y
    → (is_holder x permit ≡ true) × (is_running x.state ≡ true) × (y ≡ x)
unfolding require_permit require_running
require_permit_ok x y permit h = ground arith

-- What an operation does to the lease: it runs from a running execution, never lowers the token, and
-- a holder under an unchanged token was the holder before.
pub record Keeps (x y : RuntimeExecution) : Type 0 where
  pub from_running : is_running x.state ≡ true
  pub token : x.fencing_token ≤ y.fencing_token
  pub holder :
      (permit : RuntimeExecutionPermit)
      → x.fencing_token ≡ y.fencing_token
      → is_holder y permit ≡ true
      → is_holder x permit ≡ true

claim-Keeps :
    (x y : RuntimeExecution) (attempt_id owner_id : Text) (expires now : ℕ)
    → claim x attempt_id owner_id expires now ≡ valid y
    → Keeps x y
unfolding claim require_running
claim-Keeps x y attempt_id owner_id expires now h = record {
  from_running = ground arith;
  token = ground arith;
  holder = λ permit q k. ground arith;
}

renew-Keeps :
    (x y : RuntimeExecution) (permit : RuntimeExecutionPermit) (expires now : ℕ)
    → renew x permit expires now ≡ valid y
    → Keeps x y
unfolding renew require_permit require_running
renew-Keeps x y permit expires now h = record {
  from_running = ground arith;
  token = ground arith;
  holder = λ permit q k. ground arith;
}

record_checkpoint-Keeps :
    (x y : RuntimeExecution) (owner_id attempt_id : Text) (token : ℕ) (checkpoint_id : Text)
    (now : ℕ)
    → record_checkpoint x owner_id attempt_id token checkpoint_id now ≡ valid y
    → Keeps x y
unfolding record_checkpoint require_permit require_running
record_checkpoint-Keeps x y owner_id attempt_id token checkpoint_id now h = record {
  from_running = ground arith;
  token = ground arith;
  holder = λ permit q k. ground arith;
}

-- Nobody holds a lease that has been given up.
finish-Keeps :
    (x y : RuntimeExecution) (state : RuntimeControlState) (now : ℕ)
    → finish x state now ≡ valid y
    → Keeps x y
unfolding finish require_running
finish-Keeps x y state now h = record {
  from_running = ground arith;
  token = ground arith;
  holder = λ permit q k. ground arith;
}

record_temporary_error-Keeps :
    (x y : RuntimeExecution) (owner_id attempt_id : Text) (token : ℕ) (code message : Text)
    (now : ℕ)
    → record_temporary_error x owner_id attempt_id token code message now ≡ valid y
    → Keeps x y
unfolding record_temporary_error require_permit require_running bounded
record_temporary_error-Keeps x y owner_id attempt_id token code message now h = record {
  from_running = ground arith;
  token = ground arith;
  holder = λ permit q k. ground arith;
}

fail-Keeps :
    (x y : RuntimeExecution) (permit : RuntimeExecutionPermit) (code message : Text) (now : ℕ)
    → fail x permit code message now ≡ valid y
    → Keeps x y
unfolding fail require_permit require_running bounded finish
fail-Keeps x y permit code message now h = record {
  from_running = ground arith;
  token = ground arith;
  holder = λ permit q k. ground arith;
}

Keeps-trans : (x y z : RuntimeExecution) → Keeps x y → Keeps y z → Keeps x z
Keeps-trans x y z a b = record {
  from_running = a.from_running;
  token = omega (arith, a.token, b.token);
  holder = λ permit q k.
      a.holder permit (omega (arith, q, a.token, b.token))
        (b.holder permit (omega (arith, q, a.token, b.token)) k);
}

succeed-Keeps :
    (x y : RuntimeExecution) (owner_id attempt_id : Text) (token : ℕ) (checkpoint_id : Text)
    (now : ℕ)
    → succeed x owner_id attempt_id token checkpoint_id now ≡ valid y
    → Keeps x y
unfolding succeed
succeed-Keeps x y owner_id attempt_id token checkpoint_id now h =
    inverted (record_checkpoint x owner_id attempt_id token checkpoint_id now) refl h
  where
    inverted :
        (r : Checked RuntimeExecution)
        → record_checkpoint x owner_id attempt_id token checkpoint_id now ≡ r
        → and_then r (λ updated. finish updated RuntimeControlState.succeeded now) ≡ valid y
        → Keeps x y
    inverted (valid u) q k =
        Keeps-trans x u y
          (record_checkpoint-Keeps x u owner_id attempt_id token checkpoint_id now q)
          (finish-Keeps u y RuntimeControlState.succeeded now k)
    inverted (refused e) q k = cc

cancel-Keeps : (x y : RuntimeExecution) (now : ℕ) → cancel x now ≡ valid y → Keeps x y
unfolding cancel require_running finish
cancel-Keeps x y now h = record {
  from_running = ground arith;
  token = ground arith;
  holder = λ permit q k. ground arith;
}

pub Step-Keeps : (x y : RuntimeExecution) → Step x y → Keeps x y
Step-Keeps x y (claims attempt_id owner_id expires now h) =
    claim-Keeps x y attempt_id owner_id expires now h
Step-Keeps x y (renews permit expires now h) = renew-Keeps x y permit expires now h
Step-Keeps x y (checkpoints owner_id attempt_id token checkpoint_id now h) =
    record_checkpoint-Keeps x y owner_id attempt_id token checkpoint_id now h
Step-Keeps x y (succeeds owner_id attempt_id token checkpoint_id now h) =
    succeed-Keeps x y owner_id attempt_id token checkpoint_id now h
Step-Keeps x y (fails permit code message now h) = fail-Keeps x y permit code message now h
Step-Keeps x y (releases owner_id attempt_id token code message now h) =
    record_temporary_error-Keeps x y owner_id attempt_id token code message now h
Step-Keeps x y (cancels now h) = cancel-Keeps x y now h

-- The token never falls over a history.
pub Steps-token : (x y : RuntimeExecution) → Steps x y → x.fencing_token ≤ y.fencing_token
Steps-token _ _ (stay x) = omega arith
Steps-token _ _ (more x y z step steps) =
    omega (arith, (Step-Keeps x y step).token, Steps-token y z steps)

-- A holder at the end of a history that leaves the token alone was the holder at its start.
pub Steps-holder :
    (x y : RuntimeExecution) (permit : RuntimeExecutionPermit)
    → Steps x y
    → x.fencing_token ≡ y.fencing_token
    → is_holder y permit ≡ true
    → is_holder x permit ≡ true
Steps-holder _ _ permit (stay x) q h = h
Steps-holder _ _ permit (more x y z step steps) q h =
    (Step-Keeps x y step).holder permit
      (omega (arith, q, (Step-Keeps x y step).token, Steps-token y z steps))
      (Steps-holder y z permit steps
        (omega (arith, q, (Step-Keeps x y step).token, Steps-token y z steps)) h)
