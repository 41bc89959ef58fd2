-- ===== src/Runtime.antt =====
-- backend/src/literature_agent/domain/runtime_execution.py: the lease of a runtime execution and its
-- fencing token. A text is the list of its code points, a time a number.
pub mod Texts
pub mod Steps
pub mod Fencing
pub mod Create
use literature_research_agen.Base.{
  ℕ, ◌+◌, Bool, true, false, ◌&&◌, ◌||◌, not, Option, none, some, ◌==◌, leb, if◌then◌else◌,
}
use literature_research_agen.Runtime.Texts.{
  Text, same_text, is_empty, is_text, is_bounded, permanent_kind, temporary_kind,
}

-- `RuntimeControlState`
pub data RuntimeControlState : Type 0 where
  running interrupted succeeded failed cancelled : RuntimeControlState

abbrev pub is_running : RuntimeControlState → Bool
is_running running = true
is_running _ = false

-- The messages of `RuntimeExecutionError`.
pub data RuntimeExecutionError : Type 0 where
  no_lease identity_conflict request_conflict version_conflict : RuntimeExecutionError
  empty_holder lease_not_later still_owned lease_expired empty_checkpoint : RuntimeExecutionError
  not_running fencing_failed not_bounded not_sha256 : RuntimeExecutionError

pub data Checked {ℓ} (A : Type ℓ) : Type ℓ where
  valid : A → Checked A
  refused : RuntimeExecutionError → Checked A

module _ {A B : Type 0} where
  abbrev pub and_then : Checked A → (A → Checked B) → Checked B
  and_then (valid a) f = f a
  and_then (refused e) f = refused e

-- `RuntimeExecutionPermit`
pub record RuntimeExecutionPermit : Type 0 where
  pub turn_run_id : Text
  pub owner_id : Text
  pub attempt_id : Text
  pub fencing_token : ℕ

pub record RuntimeExecution : Type 0 where
  pub turn_run_id : Text
  pub session_id : Text
  pub runtime_execution_id : Text
  pub request_hash : Text
  pub runtime_revision : Text
  pub graph_revision : Text
  pub deepagents_version : Text
  pub langgraph_version : Text
  pub state : RuntimeControlState
  pub fencing_token : ℕ
  pub current_attempt_id : Option Text
  pub lease_owner_id : Option Text
  pub lease_expires_at : Option ℕ
  pub last_checkpoint_id : Option Text
  pub last_error_kind : Option Text
  pub last_error_code : Option Text
  pub last_safe_message : Option Text
  pub started_at : ℕ
  pub updated_at : ℕ
  pub finished_at : Option ℕ

-- `permit`
unfoldable pub permit : RuntimeExecution → Checked RuntimeExecutionPermit
permit self = elim self.lease_owner_id [
  | none ↦ refused no_lease
  | some owner ↦ elim self.current_attempt_id [
    | none ↦ refused no_lease
    | some attempt ↦ valid (record {
      turn_run_id = self.turn_run_id;
      owner_id = owner;
      attempt_id = attempt;
      fencing_token = self.fencing_token;
    })
  ]
]

abbrev pub is_none : Option Text → Bool
is_none none = true
is_none (some t) = false

-- `lease_expires_at is None or lease_expires_at <= now`
abbrev pub has_expired : Option ℕ → ℕ → Bool
has_expired none now = true
has_expired (some expires) now = leb expires now

-- `is_orphaned`
unfoldable pub is_orphaned : RuntimeExecution → ℕ → Bool
is_orphaned self now =
    is_running self.state
    && (is_none self.lease_owner_id
        || (is_none self.current_attempt_id || has_expired self.lease_expires_at now))

-- `_require_running`
unfoldable pub require_running : RuntimeExecution → Checked RuntimeExecution
require_running self = if is_running self.state then valid self else refused not_running

-- `_require_permit`
unfoldable pub require_permit : RuntimeExecution → RuntimeExecutionPermit → Checked RuntimeExecution
unfolding require_running
require_permit self permit = and_then (require_running self) λ _.
    if not (same_text permit.turn_run_id self.turn_run_id)
      || (not (is_text self.lease_owner_id permit.owner_id)
          || (not (is_text self.current_attempt_id permit.attempt_id)
              || not (permit.fencing_token == self.fencing_token)))
    then refused fencing_failed
    else valid self

-- `_finish`
unfoldable pub finish : RuntimeExecution → RuntimeControlState → ℕ → Checked RuntimeExecution
unfolding require_running
finish self state now = and_then (require_running self) λ _. valid (record self {
  state = state;
  current_attempt_id = none;
  lease_owner_id = none;
  lease_expires_at = none;
  updated_at = now;
  finished_at = some now;
})

-- `claim`
unfoldable pub claim : RuntimeExecution → Text → Text → ℕ → ℕ → Checked RuntimeExecution
unfolding require_running is_orphaned
claim self attempt_id lease_owner_id lease_expires_at now = and_then (require_running self) λ _.
    if is_empty attempt_id || is_empty lease_owner_id
    then refused empty_holder
    else if leb lease_expires_at now
    then refused lease_not_later
    else if is_text self.lease_owner_id lease_owner_id
        && (is_text self.current_attempt_id attempt_id
            && not (has_expired self.lease_expires_at now))
    then valid (record self { lease_expires_at = some lease_expires_at; updated_at = now })
    else if not (is_orphaned self now)
    then refused still_owned
    else valid (record self {
      current_attempt_id = some attempt_id;
      lease_owner_id = some lease_owner_id;
      lease_expires_at = some lease_expires_at;
      fencing_token = self.fencing_token + 1;
      updated_at = now;
    })

-- `renew`
unfoldable pub renew : RuntimeExecution → RuntimeExecutionPermit → ℕ → ℕ → Checked RuntimeExecution
unfolding require_permit
renew self permit lease_expires_at now = and_then (require_permit self permit) λ _.
    if leb lease_expires_at now
    then refused lease_not_later
    else valid (record self { lease_expires_at = some lease_expires_at; updated_at = now })

-- `validate_permit`
unfoldable pub validate_permit :
    RuntimeExecution → RuntimeExecutionPermit → ℕ → Checked RuntimeExecution
unfolding require_permit
validate_permit self permit now =
    and_then (require_permit self permit)
      λ _. if has_expired self.lease_expires_at now then refused lease_expired else valid self

-- `record_checkpoint`, with the holder's fields as a permit whose `turn_run_id` is set aside.
unfoldable pub record_checkpoint :
    RuntimeExecution → Text → Text → ℕ → Text → ℕ → Checked RuntimeExecution
unfolding require_permit
record_checkpoint self owner_id attempt_id fencing_token checkpoint_id now =
    and_then
      (require_permit self (record {
        turn_run_id = self.turn_run_id;
        owner_id = owner_id;
        attempt_id = attempt_id;
        fencing_token = fencing_token;
      }))
      λ _.
        if is_empty checkpoint_id
        then refused empty_checkpoint
        else valid (record self { last_checkpoint_id = some checkpoint_id; updated_at = now })

-- `succeed`
unfoldable pub succeed : RuntimeExecution → Text → Text → ℕ → Text → ℕ → Checked RuntimeExecution
unfolding record_checkpoint finish
succeed self owner_id attempt_id fencing_token checkpoint_id now =
    and_then (record_checkpoint self owner_id attempt_id fencing_token checkpoint_id now)
      λ updated. finish updated succeeded now

-- `_bounded`
unfoldable pub bounded : Text → ℕ → Checked Text
bounded value maximum = if is_bounded value maximum then valid value else refused not_bounded

-- `fail`
unfoldable pub fail :
    RuntimeExecution → RuntimeExecutionPermit → Text → Text → ℕ → Checked RuntimeExecution
unfolding require_permit bounded finish
fail self permit error_code safe_message now = and_then (require_permit self permit) λ _.
    and_then (bounded error_code 100) λ code. and_then (bounded safe_message 500) λ message.
      finish
        (record self {
          last_error_kind = some permanent_kind;
          last_error_code = some code;
          last_safe_message = some message;
        })
        failed now

-- `record_temporary_error`
unfoldable pub record_temporary_error :
    RuntimeExecution → Text → Text → ℕ → Text → Text → ℕ → Checked RuntimeExecution
unfolding require_permit bounded
record_temporary_error self owner_id attempt_id fencing_token error_code safe_message now =
    and_then
      (require_permit self (record {
        turn_run_id = self.turn_run_id;
        owner_id = owner_id;
        attempt_id = attempt_id;
        fencing_token = fencing_token;
      }))
      λ _. and_then (bounded error_code 100) λ code. and_then (bounded safe_message 500) λ message.
        valid (record self {
          current_attempt_id = none;
          lease_owner_id = none;
          lease_expires_at = none;
          last_error_kind = some temporary_kind;
          last_error_code = some code;
          last_safe_message = some message;
          updated_at = now;
        })

-- `cancel`
unfoldable pub cancel : RuntimeExecution → ℕ → Checked RuntimeExecution
unfolding finish require_running
cancel self now = and_then (require_running self) λ _. finish self cancelled now
