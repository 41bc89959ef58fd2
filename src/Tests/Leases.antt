-- ===== src/Tests/Leases.antt =====
-- The theorems on the lease of a runtime execution, applied.
use literature_research_agen.Base.{◌+◌, ◌≡◌, refl, true, false, some, [], ◌∷◌, arith}
use literature_research_agen.Runtime.Texts.{Text, same_text, is_bounded}
use literature_research_agen.Runtime.{
  RuntimeExecution, RuntimeExecutionPermit, RuntimeExecutionError, RuntimeControlState, valid,
  refused, require_running, require_permit, claim, is_orphaned, renew,
}
use literature_research_agen.Runtime.Steps.{Steps, stay, more, renews, is_holder}
use literature_research_agen.Runtime.Fencing.{
  permit_unique, permit_fenced, ended_final, claim_returns,
}
use literature_research_agen.Runtime.Create.{
  Request, new_execution, create_runtime_execution, require_compatible, all_bounded, all_hex,
  create_runtime_execution_held,
}

abbrev hash : Text
hash =
    97 ∷ 48 ∷ 97 ∷ 48 ∷ 97 ∷ 48 ∷ 97 ∷ 48 ∷ 97 ∷ 48 ∷ 97 ∷ 48 ∷ 97 ∷ 48 ∷ 97 ∷ 48 ∷ 97 ∷ 48 ∷ 97
    ∷ 48 ∷ 97 ∷ 48 ∷ 97 ∷ 48 ∷ 97 ∷ 48 ∷ 97 ∷ 48 ∷ 97 ∷ 48 ∷ 97 ∷ 48 ∷ 97 ∷ 48 ∷ 97 ∷ 48 ∷ 97 ∷ 48
    ∷ 97 ∷ 48 ∷ 97 ∷ 48 ∷ 97 ∷ 48 ∷ 97 ∷ 48 ∷ 97 ∷ 48 ∷ 97 ∷ 48 ∷ 97 ∷ 48 ∷ 97 ∷ 48 ∷ 97 ∷ 48 ∷ 97
    ∷ 48 ∷ 97 ∷ 48 ∷ 97 ∷ 48 ∷ 97 ∷ 48 ∷ []

abbrev request : Request
request = record {
  session_id = 115 ∷ [];
  runtime_execution_id = 120 ∷ [];
  request_hash = hash;
  runtime_revision = 49 ∷ [];
  graph_revision = 50 ∷ [];
  deepagents_version = 51 ∷ [];
  langgraph_version = 52 ∷ [];
}

-- Held by owner o with attempt a until 50; then by owner p with attempt b until 90.
abbrev held : RuntimeExecution
held = new_execution (116 ∷ []) request (97 ∷ []) (111 ∷ []) 50 10

abbrev first_permit : RuntimeExecutionPermit
first_permit = record {
  turn_run_id = 116 ∷ [];
  owner_id = 111 ∷ [];
  attempt_id = 97 ∷ [];
  fencing_token = 1;
}

abbrev renewed : RuntimeExecution
renewed = record held { lease_expires_at = some 70; updated_at = 40 }

abbrev taken_over : RuntimeExecution
taken_over = record held {
  current_attempt_id = some (98 ∷ []);
  lease_owner_id = some (112 ∷ []);
  lease_expires_at = some 90;
  fencing_token = 2;
  updated_at = 60;
}

held_passes : require_permit held first_permit ≡ valid held
unfolding require_permit require_running same_text
held_passes = refl

renewed_passes : require_permit renewed first_permit ≡ valid renewed
unfolding require_permit require_running same_text
renewed_passes = refl

renewing : Steps held renewed
unfolding renew require_permit require_running same_text
renewing = more held renewed renewed (renews first_permit 70 40 refl) (stay renewed)

permit_unique_example : first_permit ≡ first_permit
permit_unique_example =
    permit_unique held renewed first_permit first_permit renewing held_passes renewed_passes refl

held_orphaned : is_orphaned held 60 ≡ true
unfolding is_orphaned
held_orphaned = refl

held_claimed : claim held (98 ∷ []) (112 ∷ []) 90 60 ≡ valid taken_over
unfolding claim require_running same_text is_orphaned
held_claimed = refl

permit_fenced_example :
    (e : RuntimeExecutionError) × (require_permit taken_over first_permit ≡ refused e)
permit_fenced_example =
    permit_fenced held taken_over taken_over first_permit (98 ∷ []) (112 ∷ []) 90 60 held_passes
      held_orphaned held_claimed (stay taken_over)

abbrev ended : RuntimeExecution
ended = record held { state = RuntimeControlState.succeeded }

ended_final_example : ended ≡ ended
ended_final_example = ended_final ended ended refl (stay ended)

claim_returns_example :
    (y : RuntimeExecution) × (claim held (98 ∷ []) (112 ∷ []) 90 60 ≡ valid y)
    × (y.fencing_token ≡ 1 + 1)
    × (is_holder y (record {
      turn_run_id = 116 ∷ [];
      owner_id = 112 ∷ [];
      attempt_id = 98 ∷ [];
      fencing_token = 1 + 1;
    })
        ≡ true)
claim_returns_example =
    claim_returns held (98 ∷ []) (112 ∷ []) 90 60 held_orphaned refl refl (omega arith)

held_created : create_runtime_execution (116 ∷ []) request (97 ∷ []) (111 ∷ []) 50 10 ≡ valid held
unfolding create_runtime_execution all_bounded all_hex is_bounded
held_created = refl

create_example :
    (is_holder held first_permit ≡ true)
    × (is_orphaned held 10 ≡ false)
    × (require_compatible held request ≡ valid held)
    × ((other : Request) (y : RuntimeExecution)
        → require_compatible held other ≡ valid y
        → request ≡ other)
create_example =
    create_runtime_execution_held (116 ∷ []) request (97 ∷ []) (111 ∷ []) 50 10 held held_created
