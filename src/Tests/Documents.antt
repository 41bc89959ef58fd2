-- ===== src/Tests/Documents.antt =====
-- Tests and witnesses of the retrieval and of the chunks.
use literature_research_agen.Base.{
  ℕ, ◌≤◌, ◌≡◌, ◌⊎◌, refl, Bool, true, ◌||◌, Option, none, some, List, [], ◌∷◌, length, map, take,
  arith, if◌then◌else◌, IsSublist, All, select_where, count_where, pos, negsuc, IsSortedBy,
}
use literature_research_agen.Run.Errors.{Result, ok, err, value_error}
use literature_research_agen.Runtime.Texts.{Text, same_text}
use literature_research_agen.Retrieval.{
  ScoredChunk, RankedCandidate, rrf_merge, apply_per_paper_limit, apply_token_budget, rrf_k,
}
use literature_research_agen.Retrieval.Arithmetic.{billionths}
use literature_research_agen.Retrieval.Ranking.{InOrder}
use literature_research_agen.Retrieval.Fusion.{rrf_merge_ranked, has_chunk, IsScored, lists}
use literature_research_agen.Retrieval.PerPaper.{apply_per_paper_limit_first, of_paper}
use literature_research_agen.Retrieval.Budget.{
  apply_token_budget_greedy, kept_tokens, IsKeptOrTooLarge,
}
use literature_research_agen.Chunking.{
  paragraph, section_heading, table, caption, DocumentElement, ElementSourceLocation, ChunkProfile,
  create_profile, get_token_counter, offline_tokenizer, ElementType,
}
use literature_research_agen.Chunking.Units.{build_units, sort_elements, sequence_leq}
use literature_research_agen.Chunking.Builder.{ChunkDraft, elements_of, id_of, total_tokens}
use literature_research_agen.Chunking.Counting.{build_chunks}
use literature_research_agen.Chunking.Follows.{IsCount}
use literature_research_agen.Chunking.Content.{build_units_complete, content_of, units_of, IsWhole}
use literature_research_agen.Chunking.Shape.{AreChunks}
use literature_research_agen.Chunking.Complete.{
  build_chunks_shape, rejoin-build_chunks, rejoin, CounterRaises,
}

abbrev scored : ℕ → ℕ → ℕ → ScoredChunk
scored chunk paper tokens = record { chunk_id = chunk; paper_id = paper; token_count = tokens }

abbrev by_meaning : List ScoredChunk
by_meaning = scored 1 7 30 ∷ scored 2 7 40 ∷ scored 3 8 50 ∷ []

abbrev by_words : List ScoredChunk
by_words = scored 3 8 50 ∷ scored 4 7 20 ∷ []

rrf_merge_example :
    (out : List (RankedCandidate ℕ)) × (rrf_merge billionths by_meaning by_words rrf_k ≡ ok out)
    × InOrder billionths out
    × ((id : ℕ)
        → count_where (has_chunk billionths 60 by_meaning by_words id) out
          ≡ (if lists id by_meaning || lists id by_words then 1 else 0))
    × All (IsScored billionths 60 by_meaning by_words) out
rrf_merge_example = rrf_merge_ranked billionths 60 by_meaning by_words (omega arith)

abbrev candidate : ℕ → ℕ → ℕ → RankedCandidate ℕ
candidate chunk paper tokens = record {
  chunk_id = chunk;
  paper_id = paper;
  token_count = tokens;
  semantic_rank = some chunk;
  fts_rank = none;
  rrf_score = 10;
}

abbrev four_candidates : List (RankedCandidate ℕ)
four_candidates = candidate 1 7 30 ∷ candidate 2 7 40 ∷ candidate 3 7 50 ∷ candidate 4 8 20 ∷ []

apply_per_paper_limit_example :
    (kept : List (RankedCandidate ℕ)) × (apply_per_paper_limit four_candidates (pos 2) ≡ ok kept)
    × IsSublist kept four_candidates
    × ((p : ℕ)
        → select_where (of_paper p) kept ≡ take 2 (select_where (of_paper p) four_candidates))
apply_per_paper_limit_example = apply_per_paper_limit_first four_candidates 2 (omega arith)

apply_token_budget_example :
    ((kept : List (RankedCandidate ℕ)) × (apply_token_budget four_candidates (pos 90) ≡ ok kept)
      × IsSublist kept four_candidates
      × (kept_tokens kept ≤ 90)
      × All (IsKeptOrTooLarge 90 0 kept) four_candidates)
    × (apply_token_budget four_candidates (negsuc 3) ≡ err value_error)
apply_token_budget_example = apply_token_budget_greedy four_candidates 90 3

abbrev element : ℕ → ElementType → Option ℕ → Text → DocumentElement
element n kind parent text = record {
  element_id = n;
  element_type = kind;
  sequence = n;
  parent_element_id = parent;
  section_path = none;
  text = some text;
  cells = none;
}

-- A heading, two paragraphs and a table with its caption, out of order.
abbrev paper_elements : List DocumentElement
paper_elements =
    element 3 paragraph none (99 ∷ 100 ∷ [])
    ∷ element 1 section_heading none (97 ∷ [])
    ∷ element 5 caption (some 4) (103 ∷ [])
    ∷ element 2 paragraph none (98 ∷ [])
    ∷ element 4 table none (101 ∷ 102 ∷ [])
    ∷ []

abbrev paper_locations : List ElementSourceLocation
paper_locations = record { element_id = 2; page = 1 } ∷ record { element_id = 4; page = 2 } ∷ []

abbrev small_profile : ChunkProfile
small_profile = record {
  max_tokens = 5;
  overlap_tokens = 2;
  tokenizer = offline_tokenizer;
  include_section_prefix = true;
}

abbrev no_encodings : Text → Option (Text → Result ℕ)
no_encodings name = none

abbrev own_length : Text → Result ℕ
own_length t = ok (length t)

own_length-IsCount : IsCount own_length length
own_length-IsCount t n q = cc

-- An encoding that refuses every text.
abbrev refusing : Text → Option (Text → Result ℕ)
refusing name = some (λ t. err value_error)

abbrev own_text : Text → Text
own_text t = t

small_profile_test : create_profile (pos 5) (pos 2) offline_tokenizer true ≡ ok small_profile
unfolding create_profile
small_profile_test = refl

abbrev counted : get_token_counter length no_encodings offline_tokenizer ≡ ok own_length
unfolding get_token_counter same_text
counted = refl

build_units_example :
    (elements_of (units_of (build_units length paper_elements))
      ≡ content_of (sort_elements paper_elements))
    × All (IsWhole length) (units_of (build_units length paper_elements))
    × IsSortedBy sequence_leq (sort_elements paper_elements)
    × ((p : DocumentElement → Bool)
        → count_where p (sort_elements paper_elements) ≡ count_where p paper_elements)
build_units_example = build_units_complete length paper_elements

build_chunks_shape_example :
    ((drafts : List ChunkDraft) × (build_chunks length no_encodings own_text paper_elements
          paper_locations small_profile
        ≡ ok drafts)
      × AreChunks length own_text paper_locations small_profile 1 none []
          (build_units length paper_elements)
          drafts)
    ⊎ CounterRaises length no_encodings own_text paper_elements paper_locations small_profile
        own_length counted
build_chunks_shape_example =
    build_chunks_shape length no_encodings own_text paper_elements paper_locations small_profile
      own_length counted length own_length-IsCount

rejoin-build_chunks_example :
    ((drafts : List ChunkDraft) × (build_chunks length no_encodings own_text paper_elements
          paper_locations small_profile
        ≡ ok drafts)
      × (overlaps : List ℕ) × (rejoin overlaps drafts
          ≡ map id_of (content_of (sort_elements paper_elements))))
    ⊎ CounterRaises length no_encodings own_text paper_elements paper_locations small_profile
        own_length counted
rejoin-build_chunks_example =
    rejoin-build_chunks length no_encodings own_text paper_elements paper_locations small_profile
      own_length counted

abbrev ids : ChunkDraft → List ℕ
ids d = d.element_ids

abbrev drafted : Result (List ChunkDraft) → List (List ℕ)
drafted (ok drafts) = map ids drafts
drafted (err e) = []

-- The caption is with its table; the table alone is too large, and it is not cut.
chunks_test :
    drafted (build_chunks length no_encodings own_text paper_elements paper_locations small_profile)
    ≡ ((2 ∷ 3 ∷ []) ∷ (3 ∷ 4 ∷ 5 ∷ []) ∷ [])
unfolding build_chunks same_text total_tokens
chunks_test = refl

-- What the encoding raises ends `build_chunks`.
refused_test :
    build_chunks length refusing own_text paper_elements paper_locations
      (record small_profile { tokenizer = 120 ∷ [] })
    ≡ err value_error
unfolding build_chunks same_text
refused_test = refl
