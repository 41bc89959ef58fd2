-- ===== src/Citation/Specification.antt =====
-- Which answers pass the citation check, described apart from how it looks for failures.
use mathlib.Core.Path.{ap₂}
use literature_research_agen.Base.{
  ℕ, suc, ◌≤◌, ◌≡◌, refl, sym, ◌∙◌, ap, Bool, true, false, ◌&&◌, not, Option, none, some, List, [],
  ◌∷◌, ◌++◌, length, arith, ◌==◌, ==_iff, Bool-cases, inl, inr, if◌then◌else◌, last?, select_where,
  count_where,
}
use literature_research_agen.Citation.{
  AnswerStatus, answered, insufficient_evidence, Evidence, ClaimDraft, RagAnswerOutput,
  CitationFailure, evidence_by_id, member, fromkeys, check_found, check_ids, check_claim,
  check_claims, is_nil, validate_citations,
}

abbrev pub has_id : ℕ → Evidence → Bool
has_id id e = e.evidence_id == id

-- The last evidence with the identifier.
abbrev pub last_with : List Evidence → ℕ → Option Evidence
last_with evidence id = last? (select_where (has_id id) evidence)

last?-cons :
    (e : Evidence) (es : List Evidence)
    → last? (e ∷ es) ≡ elim (last? es) [ some found ↦ some found | none ↦ some e ]
last?-cons e [] = refl
last?-cons e (f ∷ []) = refl
last?-cons e (f ∷ (g ∷ es)) = rw (last?-cons g es) (chosen (last? es))
  where
    chosen :
        (o : Option Evidence)
        → elim o as (λ _. Option Evidence) [ some found ↦ some found | none ↦ some g ]
          ≡ elim (elim o as (λ _. Option Evidence) [ some found ↦ some found | none ↦ some g ])
              as (λ _. Option Evidence) [ some found ↦ some found | none ↦ some e ]
    chosen none = refl
    chosen (some found) = refl

same_found :
    (o : Option Evidence)
    → elim o as (λ _. Option Evidence) [ some found ↦ some found | none ↦ none ] ≡ o
same_found none = refl
same_found (some found) = refl

evidence_step :
    (own : Bool) (e : Evidence) (es : List Evidence)
    → elim (last? es) as (λ _. Option Evidence) [
      | some found ↦ some found
      | none ↦ if own then some e else none
    ]
      ≡ last? (if own then e ∷ es else es)
evidence_step true e es = sym (last?-cons e es)
evidence_step false e es = same_found (last? es)

evidence_by_id_lem :
    (evidence : List Evidence) (id : ℕ) → evidence_by_id evidence id ≡ last_with evidence id
unfolding evidence_by_id select_where
evidence_by_id_lem [] id = refl
evidence_by_id_lem (e ∷ rest) id =
    rw (evidence_by_id_lem rest id)
      (evidence_step (e.evidence_id == id) e (select_where (has_id id) rest))

member_lem : (id : ℕ) (xs : List ℕ) → member id xs ≡ not (count_where (λ x. x == id) xs == 0)
unfolding member count_where
member_lem id [] = refl
member_lem id (x ∷ xs) = ground (arith, member_lem id xs)

-- An identifier is good if its evidence is there and belongs to the run.
abbrev pub is_good : ℕ → Option Evidence → Bool
is_good run_id none = false
is_good run_id (some e) = e.run_id == run_id

unfoldable pub all_good : List Evidence → ℕ → List ℕ → Bool
unfolding select_where
all_good evidence run_id [] = true
all_good evidence run_id (id ∷ rest) =
    is_good run_id (last_with evidence id) && all_good evidence run_id rest

-- No identifier occurs twice.
unfoldable pub all_distinct : List ℕ → Bool
unfolding count_where
all_distinct [] = true
all_distinct (id ∷ rest) = count_where (λ x. x == id) rest == 0 && all_distinct rest

abbrev pub is_cited : List Evidence → ℕ → ClaimDraft → Bool
is_cited evidence run_id claim =
    not (is_nil claim.evidence_ids)
    && (all_distinct claim.evidence_ids && all_good evidence run_id claim.evidence_ids)

unfoldable pub all_cited : List Evidence → ℕ → List ClaimDraft → Bool
unfolding all_distinct all_good
all_cited evidence run_id [] = true
all_cited evidence run_id (claim ∷ rest) =
    is_cited evidence run_id claim && all_cited evidence run_id rest

abbrev pub is_acceptable : List Evidence → ℕ → RagAnswerOutput → Bool
is_acceptable evidence run_id output = elim output.answer_status [
  | insufficient_evidence ↦ is_nil output.claims
  | answered ↦ not (is_nil output.claims) && all_cited evidence run_id output.claims
]

is_nil-++ : {A : Type 0} (xs ys : List A) → is_nil (xs ++ ys) ≡ (is_nil xs && is_nil ys)
is_nil-++ [] ys = refl
is_nil-++ (x ∷ xs) ys = refl

is_nil-check_found :
    (run_id index : ℕ) (o : Option Evidence)
    → is_nil (check_found run_id index o) ≡ is_good run_id o
unfolding check_found
is_nil-check_found run_id index none = refl
is_nil-check_found run_id index (some e) = ground arith

is_nil-check_ids :
    (evidence : List Evidence) (run_id index : ℕ) (ids : List ℕ)
    → is_nil (check_ids evidence run_id index ids) ≡ all_good evidence run_id ids
unfolding check_ids all_good
is_nil-check_ids evidence run_id index [] = refl
is_nil-check_ids evidence run_id index (id ∷ rest) =
    is_nil-++ (check_found run_id index (evidence_by_id evidence id))
      (check_ids evidence run_id index rest)
    ∙ rw
        (
          is_nil-check_found run_id index (evidence_by_id evidence id),
          evidence_by_id_lem evidence id,
          is_nil-check_ids evidence run_id index rest,
        )
        refl

member_good :
    (evidence : List Evidence) (run_id id : ℕ) (seen : List ℕ)
    → member id seen ≡ true
    → all_good evidence run_id seen ≡ true
    → is_good run_id (last_with evidence id) ≡ true
unfolding member all_good
member_good evidence run_id id [] m g = cc
member_good evidence run_id id (x ∷ seen) m g = elim (Bool-cases (x == id)) [
  | inl same ↦
      ap (λ k. is_good run_id (last_with evidence k)) (sym ((==_iff x id).0 same)) ∙ ground arith
  | inr other ↦ member_good evidence run_id id seen (ground arith) (ground arith)
]

all_good-fromkeys :
    (evidence : List Evidence) (run_id : ℕ) (seen ids : List ℕ)
    → all_good evidence run_id seen ≡ true
    → all_good evidence run_id (fromkeys seen ids) ≡ all_good evidence run_id ids
unfolding fromkeys all_good
all_good-fromkeys evidence run_id seen [] g = refl
all_good-fromkeys evidence run_id seen (id ∷ rest) g = ground (
  arith,
  member_good evidence run_id id seen,
  all_good-fromkeys evidence run_id seen rest g,
  all_good-fromkeys evidence run_id (id ∷ seen) rest,
)

-- None of the identifiers has been seen.
unfoldable none_seen : List ℕ → List ℕ → Bool
unfolding member
none_seen seen [] = true
none_seen seen (id ∷ rest) = not (member id seen) && none_seen seen rest

none_seen-cons :
    (x : ℕ) (seen ids : List ℕ)
    → none_seen (x ∷ seen) ids ≡ (not (member x ids) && none_seen seen ids)
unfolding none_seen member
none_seen-cons x seen [] = refl
none_seen-cons x seen (id ∷ rest) = ground (arith, none_seen-cons x seen rest)

length-fromkeys_le : (seen ids : List ℕ) → length (fromkeys seen ids) ≤ length ids
unfolding fromkeys
length-fromkeys_le seen [] = omega arith
length-fromkeys_le seen (id ∷ rest) =
    ground (arith, length-fromkeys_le seen rest, length-fromkeys_le (id ∷ seen) rest)

length-fromkeys :
    (seen ids : List ℕ)
    → (length (fromkeys seen ids) == length ids) ≡ (all_distinct ids && none_seen seen ids)
unfolding fromkeys all_distinct none_seen
length-fromkeys seen [] = ground arith
length-fromkeys seen (id ∷ rest) = ground (
  arith,
  length-fromkeys_le seen rest,
  length-fromkeys (id ∷ seen) rest,
  none_seen-cons id seen rest,
  member_lem id rest,
)

none_seen-nil : (ids : List ℕ) → none_seen [] ids ≡ true
unfolding none_seen
none_seen-nil [] = refl
none_seen-nil (id ∷ rest) = none_seen-nil rest

distinct_lem : (ids : List ℕ) → (length (fromkeys [] ids) == length ids) ≡ all_distinct ids
distinct_lem ids = length-fromkeys [] ids ∙ ground (arith, none_seen-nil ids)

good_lem :
    (evidence : List Evidence) (run_id index : ℕ) (ids : List ℕ)
    → is_nil (check_ids evidence run_id index (fromkeys [] ids)) ≡ all_good evidence run_id ids
unfolding all_good
good_lem evidence run_id index ids =
    is_nil-check_ids evidence run_id index (fromkeys [] ids)
    ∙ all_good-fromkeys evidence run_id [] ids refl

duplicate_free : (b : Bool) (f : CitationFailure) → is_nil (if b then [] else f ∷ []) ≡ b
duplicate_free true f = refl
duplicate_free false f = refl

is_nil-check_claim :
    (evidence : List Evidence) (run_id index : ℕ) (claim : ClaimDraft)
    → is_nil (check_claim evidence run_id index claim) ≡ is_cited evidence run_id claim
unfolding check_claim
is_nil-check_claim evidence run_id index claim = by_ids claim.evidence_ids
  where
    by_ids :
        (ids : List ℕ)
        → is_nil (check_claim evidence run_id index (record claim { evidence_ids = ids }))
          ≡ is_cited evidence run_id (record claim { evidence_ids = ids })
    by_ids [] = refl
    by_ids (id ∷ rest) =
        is_nil-++ _ (check_ids evidence run_id index (fromkeys [] (id ∷ rest)))
        ∙ ap₂ ◌&&◌ (duplicate_free _ _ ∙ distinct_lem (id ∷ rest))
            (good_lem evidence run_id index (id ∷ rest))

is_nil-check_claims :
    (evidence : List Evidence) (run_id index : ℕ) (claims : List ClaimDraft)
    → is_nil (check_claims evidence run_id index claims) ≡ all_cited evidence run_id claims
unfolding check_claims all_cited
is_nil-check_claims evidence run_id index [] = refl
is_nil-check_claims evidence run_id index (claim ∷ rest) =
    is_nil-++ (check_claim evidence run_id index claim)
      (check_claims evidence run_id (suc index) rest)
    ∙ ap₂ ◌&&◌ (is_nil-check_claim evidence run_id index claim)
        (is_nil-check_claims evidence run_id (suc index) rest)

-- The check passes exactly the acceptable answers: an answer without enough evidence makes no
-- claims; any other makes at least one, and each of its claims cites at least one evidence, none
-- twice, and only evidence that is there and belongs to the run.
pub validate_citations_accepts :
    (output : RagAnswerOutput) (evidence : List Evidence) (run_id : ℕ)
    → (validate_citations output evidence run_id).passed ≡ is_acceptable evidence run_id output
unfolding validate_citations
validate_citations_accepts output evidence run_id = by_status output.answer_status
  where
    by_status :
        (status : AnswerStatus)
        → (validate_citations (record output { answer_status = status }) evidence run_id).passed
          ≡ is_acceptable evidence run_id (record output { answer_status = status })
    by_status insufficient_evidence = duplicate_free (is_nil output.claims) _
    by_status answered = by_claims output.claims
      where
        by_claims :
            (claims : List ClaimDraft)
            → (validate_citations
                (record { answer_status = answered; claims = claims })
                evidence
                run_id).passed
              ≡ is_acceptable evidence run_id (record { answer_status = answered; claims = claims })
        by_claims [] = refl
        by_claims (claim ∷ rest) = is_nil-check_claims evidence run_id 0 (claim ∷ rest)
