-- ===== src/Retrieval.antt =====
-- backend/src/literature_agent/domain/retrieval.py: two ranked lists of chunks are fused, and the
-- result is cut per paper and by a budget of tokens. Identifiers are numbers, in the order of `<`.
pub mod Arithmetic
pub mod Sorting
pub mod Ranking
pub mod Fusion
pub mod PerPaper
pub mod Budget
use literature_research_agen.Base.{
  ℕ, suc, ◌+◌, ◌&&◌, ◌||◌, Bool, true, false, not, Option, none, some, List, [], ◌∷◌, ◌++◌, length,
  map, ◌==◌, ltb, leb, if◌then◌else◌, ℤ, pos, negsuc, is_some, find_row, sort_by,
}
use literature_research_agen.Run.Errors.{Result, ok, err, value_error}
use literature_research_agen.Retrieval.Arithmetic.{Scores}

-- `RRF_K`
abbrev pub rrf_k : ℤ
rrf_k = pos 60

pub record ScoredChunk : Type 0 where
  pub chunk_id : ℕ
  pub paper_id : ℕ
  pub token_count : ℕ

-- A candidate with its score in the arithmetic `S`.
pub record RankedCandidate (S : Type 0) : Type 0 where
  pub chunk_id : ℕ
  pub paper_id : ℕ
  pub token_count : ℕ
  pub semantic_rank : Option ℕ
  pub fts_rank : Option ℕ
  pub rrf_score : S

abbrev pub chunk_key : ScoredChunk → ℕ
chunk_key c = c.chunk_id

-- `info.setdefault(item.chunk_id, item)` for each item: the first one stays, in the order of arrival.
unfoldable pub set_default : List ScoredChunk → List ScoredChunk → List ScoredChunk
set_default info [] = info
set_default info (item ∷ rest) =
    set_default
      (if is_some (find_row chunk_key item.chunk_id info) then info else info ++ item ∷ []) rest

-- `ranks[item.chunk_id] = rank` for each item from `rank` on: the last one stays.
unfoldable pub rank_of : ℕ → ℕ → List ScoredChunk → Option ℕ
rank_of id rank [] = none
rank_of id rank (item ∷ rest) =
    let later = rank_of id (suc rank) rest in
    elim later [ some r ↦ some r | none ↦ if item.chunk_id == id then some rank else none ]

module _ (scores : Scores) where
  -- `1 / (k + rank) if ranked else 0.0`
  abbrev pub part : ℕ → Option ℕ → scores.Score
  part k none = scores.zero
  part k (some rank) = scores.reciprocal (k + rank)

  unfoldable pub candidate_of :
      ℕ → List ScoredChunk → List ScoredChunk → ScoredChunk → RankedCandidate scores.Score
  unfolding rank_of
  candidate_of k semantic fts item = record {
    chunk_id = item.chunk_id;
    paper_id = item.paper_id;
    token_count = item.token_count;
    semantic_rank = rank_of item.chunk_id 1 semantic;
    fts_rank = rank_of item.chunk_id 1 fts;
    rrf_score =
        scores.plus (part k (rank_of item.chunk_id 1 semantic))
          (part k (rank_of item.chunk_id 1 fts));
  }

  -- A rank, or a place behind the end of its list.
  abbrev pub rank_or : ℕ → Option ℕ → ℕ
  rank_or n none = n + 1
  rank_or n (some rank) = rank

  -- The keys of `candidates.sort` in the order of tuples: `m` and `n` are the lengths of the lists.
  unfoldable pub sorts_before :
      ℕ → ℕ → RankedCandidate scores.Score → RankedCandidate scores.Score → Bool
  sorts_before m n c d =
      if not (scores.at_most d.rrf_score c.rrf_score)
      then false
      else if not (scores.at_most c.rrf_score d.rrf_score)
      then true
      else if ltb (rank_or m c.semantic_rank) (rank_or m d.semantic_rank)
      then true
      else if ltb (rank_or m d.semantic_rank) (rank_or m c.semantic_rank)
      then false
      else if ltb (rank_or n c.fts_rank) (rank_or n d.fts_rank)
      then true
      else if ltb (rank_or n d.fts_rank) (rank_or n c.fts_rank)
      then false
      else leb c.chunk_id d.chunk_id

  -- A stable sort by the keys.
  unfoldable pub sort_ranked :
      ℕ → ℕ → List (RankedCandidate scores.Score) → List (RankedCandidate scores.Score)
  unfolding sorts_before sort_by
  sort_ranked m n candidates = sort_by (sorts_before m n) candidates

  -- `rrf_merge`
  unfoldable pub rrf_merge :
      List ScoredChunk → List ScoredChunk → ℤ → Result (List (RankedCandidate scores.Score))
  unfolding set_default candidate_of sort_ranked
  rrf_merge semantic fts (negsuc k) = err value_error
  rrf_merge semantic fts (pos k) =
      if k == 0
      then err value_error
      else ok (
          sort_ranked (length semantic) (length fts)
            (map (candidate_of k semantic fts) (set_default (set_default [] semantic) fts)))

-- `counts[paper] = count + 1`
abbrev pub count_one_more : (ℕ → ℕ) → ℕ → ℕ → ℕ
count_one_more counts paper p = if p == paper then counts p + 1 else counts p

module _ {S : Type 0} where
  unfoldable pub keep_per_paper : ℕ → (ℕ → ℕ) → List (RankedCandidate S) → List (RankedCandidate S)
  keep_per_paper limit counts [] = []
  keep_per_paper limit counts (c ∷ rest) = elim (leb limit (counts c.paper_id)) [
    | true ↦ keep_per_paper limit counts rest
    | false ↦ c ∷ keep_per_paper limit (count_one_more counts c.paper_id) rest
  ]

  -- `apply_per_paper_limit`
  unfoldable pub apply_per_paper_limit :
      List (RankedCandidate S) → ℤ → Result (List (RankedCandidate S))
  unfolding keep_per_paper
  apply_per_paper_limit candidates (negsuc limit) = err value_error
  apply_per_paper_limit candidates (pos limit) =
      if limit == 0 then err value_error else ok (keep_per_paper limit (λ _. 0) candidates)

  unfoldable pub keep_within : ℕ → ℕ → List (RankedCandidate S) → List (RankedCandidate S)
  keep_within budget used [] = []
  keep_within budget used (c ∷ rest) = elim (ltb budget (used + c.token_count)) [
    | true ↦ keep_within budget used rest
    | false ↦ c ∷ keep_within budget (used + c.token_count) rest
  ]

  -- `apply_token_budget`
  unfoldable pub apply_token_budget :
      List (RankedCandidate S) → ℤ → Result (List (RankedCandidate S))
  unfolding keep_within
  apply_token_budget candidates (negsuc budget) = err value_error
  apply_token_budget candidates (pos budget) = ok (keep_within budget 0 candidates)
