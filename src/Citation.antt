-- ===== src/Citation.antt =====
-- backend/src/literature_agent/domain/citation_validator.py: the citations of an answer are checked
-- against the evidence that its run has fixed. Identifiers are numbers.
pub mod Specification
use literature_research_agen.Base.{
  ℕ, suc, String, ◌+◌, Bool, true, false, ◌||◌, not, Option, none, some, List, [], ◌∷◌, ◌++◌,
  length, ◌==◌, if◌then◌else◌,
}

-- `AnswerStatus`
pub data AnswerStatus : Type 0 where
  answered insufficient_evidence : AnswerStatus

-- What the validator reads of an evidence, of a claim and of an answer.
pub record Evidence : Type 0 where
  pub evidence_id : ℕ
  pub run_id : ℕ

pub record ClaimDraft : Type 0 where
  pub text : String
  pub evidence_ids : List ℕ

pub record RagAnswerOutput : Type 0 where
  pub answer_status : AnswerStatus
  pub claims : List ClaimDraft

-- `CitationFailureReason`
pub data CitationFailureReason : Type 0 where
  empty_claims status_mismatch uncited_claim : CitationFailureReason
  fabricated_evidence cross_run_evidence duplicate_citation : CitationFailureReason

pub record CitationFailure : Type 0 where
  pub reason : CitationFailureReason
  pub claim_index : Option ℕ

pub record CitationValidationResult : Type 0 where
  pub passed : Bool
  pub failures : List CitationFailure

-- `{e.evidence_id: e for e in evidence}.get(…)`: of equal identifiers the last one counts.
unfoldable pub evidence_by_id : List Evidence → ℕ → Option Evidence
evidence_by_id [] id = none
evidence_by_id (e ∷ rest) id =
    let later = evidence_by_id rest id in
    elim later [ some found ↦ some found | none ↦ if e.evidence_id == id then some e else none ]

unfoldable pub member : ℕ → List ℕ → Bool
member id [] = false
member id (x ∷ rest) = x == id || member id rest

-- `dict.fromkeys(ids)`, with the keys that have been seen; `set(ids)` has as many.
unfoldable pub fromkeys : List ℕ → List ℕ → List ℕ
unfolding member
fromkeys seen [] = []
fromkeys seen (id ∷ rest) =
    if member id seen then fromkeys seen rest else id ∷ fromkeys (id ∷ seen) rest

-- The check of one cited identifier.
unfoldable pub check_found : ℕ → ℕ → Option Evidence → List CitationFailure
check_found run_id index none =
    record { reason = fabricated_evidence; claim_index = some index } ∷ []
check_found run_id index (some found) =
    if found.run_id == run_id
    then []
    else record { reason = cross_run_evidence; claim_index = some index } ∷ []

unfoldable pub check_ids : List Evidence → ℕ → ℕ → List ℕ → List CitationFailure
unfolding check_found evidence_by_id
check_ids evidence run_id index [] = []
check_ids evidence run_id index (id ∷ rest) =
    check_found run_id index (evidence_by_id evidence id) ++ check_ids evidence run_id index rest

-- The body of the loop over the claims.
unfoldable pub check_claim : List Evidence → ℕ → ℕ → ClaimDraft → List CitationFailure
unfolding fromkeys check_ids
check_claim evidence run_id index claim = elim claim.evidence_ids [
  | [] ↦ record { reason = uncited_claim; claim_index = some index } ∷ []
  | id ∷ rest ↦
      (if length (fromkeys [] claim.evidence_ids) == length claim.evidence_ids
        then []
        else record { reason = duplicate_citation; claim_index = some index } ∷ [])
      ++ check_ids evidence run_id index (fromkeys [] claim.evidence_ids)
]

unfoldable pub check_claims : List Evidence → ℕ → ℕ → List ClaimDraft → List CitationFailure
unfolding check_claim
check_claims evidence run_id index [] = []
check_claims evidence run_id index (claim ∷ rest) =
    check_claim evidence run_id index claim ++ check_claims evidence run_id (suc index) rest

abbrev pub is_nil : {A : Type 0} → List A → Bool
is_nil [] = true
is_nil (x ∷ rest) = false

-- `passed=not failures`
abbrev pub result_of : List CitationFailure → CitationValidationResult
result_of failures = record { passed = is_nil failures; failures = failures }

-- `validate_citations`
unfoldable pub validate_citations : RagAnswerOutput → List Evidence → ℕ → CitationValidationResult
unfolding check_claims
validate_citations output evidence run_id = elim output.answer_status [
  | insufficient_evidence ↦ result_of (
      if is_nil output.claims
      then []
      else record { reason = status_mismatch; claim_index = none } ∷ [])
  | answered ↦
      if is_nil output.claims
      then result_of (record { reason = empty_claims; claim_index = none } ∷ [])
      else result_of (check_claims evidence run_id 0 output.claims)
]
