-- ===== src/Runtime/Create.antt =====
-- How a runtime execution begins, and which requests may take it up again: `create_runtime_execution`
-- and `require_compatible` of domain/runtime_execution.py.
use literature_research_agen.Base.{
  ℕ, ◌+◌, ◌≤◌, ◌≡◌, refl, subst, Bool, true, false, ◌&&◌, ◌||◌, not, none, some, List, [], ◌∷◌,
  length, arith, ◌==◌, leb, if◌then◌else◌,
}
use literature_research_agen.Runtime.Texts.{
  Text, same_text, same_text_refl, same_text_eq, is_bounded,
}
use literature_research_agen.Runtime.{
  RuntimeExecution, running, Checked, valid, refused, identity_conflict, request_conflict,
  version_conflict, not_bounded, not_sha256, lease_not_later, is_orphaned,
}
use literature_research_agen.Runtime.Steps.{is_holder}

-- What identifies a request: the run, the session, the execution, the hash and the versions.
pub record Request : Type 0 where
  pub session_id : Text
  pub runtime_execution_id : Text
  pub request_hash : Text
  pub runtime_revision : Text
  pub graph_revision : Text
  pub deepagents_version : Text
  pub langgraph_version : Text

-- `require_compatible`
unfoldable pub require_compatible : RuntimeExecution → Request → Checked RuntimeExecution
require_compatible self request =
    if not (same_text self.session_id request.session_id)
      || not (same_text self.runtime_execution_id request.runtime_execution_id)
    then refused identity_conflict
    else if not (same_text self.request_hash request.request_hash)
    then refused request_conflict
    else if not (
        same_text self.runtime_revision request.runtime_revision
        && (same_text self.graph_revision request.graph_revision
            && (same_text self.deepagents_version request.deepagents_version
                && same_text self.langgraph_version request.langgraph_version)))
    then refused version_conflict
    else valid self

-- `ch in "0123456789abcdef"`
abbrev pub is_hex : ℕ → Bool
is_hex c = leb 48 c && leb c 57 || leb 97 c && leb c 102

unfoldable pub all_hex : Text → Bool
all_hex [] = true
all_hex (c ∷ t) = is_hex c && all_hex t

-- The loop of `_bounded` over the named values.
unfoldable pub all_bounded : List Text → ℕ → Bool
all_bounded [] maximum = true
all_bounded (t ∷ rest) maximum = is_bounded t maximum && all_bounded rest maximum

-- The execution that `create_runtime_execution` builds.
abbrev pub new_execution : Text → Request → Text → Text → ℕ → ℕ → RuntimeExecution
new_execution turn_run_id request attempt_id lease_owner_id lease_expires_at now = record {
  turn_run_id = turn_run_id;
  session_id = request.session_id;
  runtime_execution_id = request.runtime_execution_id;
  request_hash = request.request_hash;
  runtime_revision = request.runtime_revision;
  graph_revision = request.graph_revision;
  deepagents_version = request.deepagents_version;
  langgraph_version = request.langgraph_version;
  state = running;
  fencing_token = 1;
  current_attempt_id = some attempt_id;
  lease_owner_id = some lease_owner_id;
  lease_expires_at = some lease_expires_at;
  last_checkpoint_id = none;
  last_error_kind = none;
  last_error_code = none;
  last_safe_message = none;
  started_at = now;
  updated_at = now;
  finished_at = none;
}

-- `create_runtime_execution`
unfoldable pub create_runtime_execution :
    Text → Request → Text → Text → ℕ → ℕ → Checked RuntimeExecution
unfolding all_bounded all_hex
create_runtime_execution turn_run_id request attempt_id lease_owner_id lease_expires_at now =
    if not (
      all_bounded
        (turn_run_id ∷ request.session_id ∷ request.runtime_execution_id ∷ request.runtime_revision
          ∷ request.graph_revision ∷ request.deepagents_version ∷ request.langgraph_version
          ∷ attempt_id ∷ lease_owner_id ∷ [])
        255)
    then refused not_bounded
    else if not (length request.request_hash == 64) || not (all_hex request.request_hash)
    then refused not_sha256
    else if leb lease_expires_at now
    then refused lease_not_later
    else valid (new_execution turn_run_id request attempt_id lease_owner_id lease_expires_at now)

created_inversion :
    (turn_run_id : Text) (request : Request) (attempt_id lease_owner_id : Text) (expires now : ℕ)
    (x : RuntimeExecution)
    → create_runtime_execution turn_run_id request attempt_id lease_owner_id expires now ≡ valid x
    → (new_execution turn_run_id request attempt_id lease_owner_id expires now ≡ x)
      × (now + 1 ≤ expires)
unfolding create_runtime_execution
created_inversion turn_run_id request attempt_id lease_owner_id expires now x h = ground arith

same_request :
    (p q : Request)
    → p.session_id ≡ q.session_id
    → p.runtime_execution_id ≡ q.runtime_execution_id
    → p.request_hash ≡ q.request_hash
    → p.runtime_revision ≡ q.runtime_revision
    → p.graph_revision ≡ q.graph_revision
    → p.deepagents_version ≡ q.deepagents_version
    → p.langgraph_version ≡ q.langgraph_version
    → p ≡ q
same_request p q a b c d e f g = λ i. record {
  session_id = a i;
  runtime_execution_id = b i;
  request_hash = c i;
  runtime_revision = d i;
  graph_revision = e i;
  deepagents_version = f i;
  langgraph_version = g i;
}

module _ (turn_run_id : Text) (request : Request) (attempt_id lease_owner_id : Text)
    (expires now : ℕ) where
  abbrev fresh : RuntimeExecution
  fresh = new_execution turn_run_id request attempt_id lease_owner_id expires now

  compatible_self : require_compatible fresh request ≡ valid fresh
  unfolding require_compatible
  compatible_self =
      rw
        (
          same_text_refl request.session_id,
          same_text_refl request.runtime_execution_id,
          same_text_refl request.request_hash,
          same_text_refl request.runtime_revision,
          same_text_refl request.graph_revision,
          same_text_refl request.deepagents_version,
          same_text_refl request.langgraph_version,
        )
        refl

  compatible_tests :
      (other : Request) (y : RuntimeExecution)
      → require_compatible fresh other ≡ valid y
      → (same_text request.session_id other.session_id ≡ true)
        × (same_text request.runtime_execution_id other.runtime_execution_id ≡ true)
        × (same_text request.request_hash other.request_hash ≡ true)
        × (same_text request.runtime_revision other.runtime_revision ≡ true)
        × (same_text request.graph_revision other.graph_revision ≡ true)
        × (same_text request.deepagents_version other.deepagents_version ≡ true)
        × (same_text request.langgraph_version other.langgraph_version ≡ true)
  unfolding require_compatible
  compatible_tests other y h = ground arith

  compatible_only :
      (other : Request) (y : RuntimeExecution)
      → require_compatible fresh other ≡ valid y
      → request ≡ other
  compatible_only other y h =
      let (a, b, c, d, e, f, g) = compatible_tests other y h in
      same_request request other (same_text_eq _ _ a) (same_text_eq _ _ b) (same_text_eq _ _ c)
        (same_text_eq _ _ d) (same_text_eq _ _ e) (same_text_eq _ _ f) (same_text_eq _ _ g)

-- An execution that has been created is held by its first attempt under token 1, with a lease that
-- has not expired, and can be resumed by the request that created it and by no other.
pub create_runtime_execution_held :
    (turn_run_id : Text) (request : Request) (attempt_id lease_owner_id : Text) (expires now : ℕ)
    (x : RuntimeExecution)
    → create_runtime_execution turn_run_id request attempt_id lease_owner_id expires now ≡ valid x
    → (is_holder x (record {
      turn_run_id = turn_run_id;
      owner_id = lease_owner_id;
      attempt_id = attempt_id;
      fencing_token = 1;
    })
        ≡ true)
      × (is_orphaned x now ≡ false)
      × (require_compatible x request ≡ valid x)
      × ((other : Request) (y : RuntimeExecution)
          → require_compatible x other ≡ valid y
          → request ≡ other)
unfolding is_orphaned
create_runtime_execution_held turn_run_id request attempt_id lease_owner_id expires now x h =
    let (q, later) =
      created_inversion turn_run_id request attempt_id lease_owner_id expires now x h in
    subst
      (λ x.
        (is_holder x (record {
          turn_run_id = turn_run_id;
          owner_id = lease_owner_id;
          attempt_id = attempt_id;
          fencing_token = 1;
        })
          ≡ true)
        × (is_orphaned x now ≡ false)
        × (require_compatible x request ≡ valid x)
        × ((other : Request) (y : RuntimeExecution)
            → require_compatible x other ≡ valid y
            → request ≡ other))
      q
      (
        rw (same_text_refl turn_run_id, same_text_refl lease_owner_id, same_text_refl attempt_id)
            refl,
        ground arith,
        compatible_self turn_run_id request attempt_id lease_owner_id expires now,
        compatible_only turn_run_id request attempt_id lease_owner_id expires now,
      )
