-- ===== src/Tests/Citations.antt =====
-- The citation check on an answer that cites one evidence twice.
use literature_research_agen.Base.{◌≡◌, List, [], ◌∷◌}
use literature_research_agen.Citation.{answered, Evidence, RagAnswerOutput, validate_citations}
use literature_research_agen.Citation.Specification.{is_acceptable, validate_citations_accepts}

abbrev evidence : List Evidence
evidence = record { evidence_id = 1; run_id = 5 } ∷ record { evidence_id = 2; run_id = 6 } ∷ []

abbrev output : RagAnswerOutput
output = record {
  answer_status = answered;
  claims =
      record { text = "a"; evidence_ids = 1 ∷ [] }
      ∷ record { text = "b"; evidence_ids = 1 ∷ 1 ∷ [] }
      ∷ [];
}

citations_example : (validate_citations output evidence 5).passed ≡ is_acceptable evidence 5 output
citations_example = validate_citations_accepts output evidence 5
