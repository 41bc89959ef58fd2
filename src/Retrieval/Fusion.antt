-- ===== src/Retrieval/Fusion.antt =====
-- What the fusion of two ranked lists returns.
use literature_research_agen.Base.{
  ℕ, ◌≤◌, ◌≡◌, refl, ◌∙◌, ap, subst, Bool, true, ◌||◌, inl, inr, none, some, List, [], ◌∷◌, ◌++◌,
  length, map, arith, ◌==◌, ==_iff, if◌then◌else◌, Bool-cases, Option-cases, is_some, find_row,
  count_where, All, pos, has_key, find_row_absent, find_row-none, find_row-append,
  find_row-append_found, IsUnique, append-IsUnique,
}
use literature_research_agen.Base.{Option, All-append, All-weaken, sym, false}
use literature_research_agen.Retrieval.Ranking.{
  IsRank, rank_of-IsRankFrom, IsRank-Within, IsPart, unranked, of_rank, InOrder, HasRanks,
  sorted-InOrder,
}
use literature_research_agen.Run.Errors.{ok}
use literature_research_agen.Retrieval.Arithmetic.{Scores}
use literature_research_agen.Retrieval.PerPaper.{not_zero}
use literature_research_agen.Retrieval.Sorting.{
  Candidate, sort_ranked-All, sort_ranked-IsRankedList, count-sort_ranked,
}
use literature_research_agen.Retrieval.{
  ScoredChunk, RankedCandidate, chunk_key, set_default, rank_of, candidate_of, sort_ranked,
  rrf_merge, part,
}

abbrev pub lists : ℕ → List ScoredChunk → Bool
lists id chunks = is_some (find_row chunk_key id chunks)

count_listed :
    (id : ℕ) (chunks : List ScoredChunk)
    → count_where (has_key chunk_key id) chunks ≤ 1
    → count_where (has_key chunk_key id) chunks ≡ (if lists id chunks then 1 else 0)
count_listed id chunks h = elim (Option-cases (find_row chunk_key id chunks)) [
  | inl absent ↦ ground (arith, find_row-none chunk_key id chunks absent)
  | inr found ↦ ground (arith, found.1, find_row_absent chunk_key id chunks)
]

lists-append :
    (id : ℕ) (chunks : List ScoredChunk) (x : ScoredChunk)
    → lists id (chunks ++ x ∷ []) ≡ (lists id chunks || x.chunk_id == id)
lists-append id chunks x = elim (Option-cases (find_row chunk_key id chunks)) [
  | inl absent ↦ rw (find_row-append chunk_key id chunks x absent, absent) (is_some_if x)
  | inr found ↦ rw (find_row-append_found chunk_key id chunks x found.0 found.1, found.1) refl
]
  where
    is_some_if :
        (x : ScoredChunk) → is_some (if x.chunk_id == id then some x else none) ≡ (x.chunk_id == id)
    is_some_if x = ground arith

-- The entry of an item in the dictionary, as one of two.
abbrev with_default : List ScoredChunk → ScoredChunk → List ScoredChunk
with_default info x = if is_some (find_row chunk_key x.chunk_id info) then info else info ++ x ∷ []

lists-with_default :
    (id : ℕ) (info : List ScoredChunk) (x : ScoredChunk)
    → lists id (with_default info x) ≡ (lists id info || x.chunk_id == id)
lists-with_default id info x = elim (Bool-cases (lists x.chunk_id info)) [
  | inl there ↦ rw there (already there)
  | inr missing ↦ rw missing (lists-append id info x)
]
  where
    already : lists x.chunk_id info ≡ true → lists id info ≡ (lists id info || x.chunk_id == id)
    already there = elim (Bool-cases (x.chunk_id == id)) [
      | inl same ↦ rw same (
          subst (λ k. lists k info ≡ (lists k info || true)) ((==_iff x.chunk_id id).0 same)
            (rw there refl))
      | inr other ↦ rw other (ground arith)
    ]

with_default-IsUnique :
    (info : List ScoredChunk) (x : ScoredChunk)
    → IsUnique chunk_key info
    → IsUnique chunk_key (with_default info x)
with_default-IsUnique info x u = elim (Option-cases (find_row chunk_key x.chunk_id info)) [
  | inl absent ↦ rw absent (append-IsUnique chunk_key info x u absent)
  | inr found ↦ rw found.1 u
]

count-set_default :
    (id : ℕ) (info items : List ScoredChunk)
    → IsUnique chunk_key info
    → count_where (has_key chunk_key id) (set_default info items)
      ≡ (if lists id info || lists id items then 1 else 0)
unfolding set_default find_row
count-set_default id info [] u = count_listed id info (u id) ∙ ground arith
count-set_default id info (x ∷ rest) u =
    count-set_default id (with_default info x) rest (with_default-IsUnique info x u)
    ∙ rw (lists-with_default id info x) (ground arith)

lists-set_default :
    (id : ℕ) (info items : List ScoredChunk)
    → lists id (set_default info items) ≡ (lists id info || lists id items)
unfolding set_default find_row
lists-set_default id info [] = ground arith
lists-set_default id info (x ∷ rest) =
    lists-set_default id (with_default info x) rest
    ∙ rw (lists-with_default id info x) (ground arith)

from_empty : (id : ℕ) (items : List ScoredChunk) → lists id (set_default [] items) ≡ lists id items
unfolding find_row
from_empty id items = lists-set_default id [] items

none-IsUnique : IsUnique chunk_key []
unfolding count_where
none-IsUnique k = omega arith

set_default-IsUnique : (items : List ScoredChunk) → IsUnique chunk_key (set_default [] items)
set_default-IsUnique items k = ground (arith, count-set_default k [] items none-IsUnique)

-- The first of two, where it is there.
abbrev first_of : Option ScoredChunk → Option ScoredChunk → Option ScoredChunk
first_of none o = o
first_of (some x) o = some x

-- The entry of an identifier is its first item among `all`.
abbrev pub IsFirst : List ScoredChunk → ScoredChunk → Type 0
IsFirst all x = find_row chunk_key x.chunk_id all ≡ some x

-- The dictionary and the items to come together find what `all` finds.
abbrev Covers : List ScoredChunk → List ScoredChunk → List ScoredChunk → Type 0
Covers all info rest =
    (id : ℕ)
    → find_row chunk_key id all ≡ first_of (find_row chunk_key id info) (find_row chunk_key id rest)

set_default-IsFirst :
    (all info rest : List ScoredChunk)
    → Covers all info rest
    → All (IsFirst all) info
    → All (IsFirst all) (set_default info rest)
unfolding set_default find_row
set_default-IsFirst all info [] covers h = h
set_default-IsFirst all info (x ∷ rest) covers h =
    elim (Option-cases (find_row chunk_key x.chunk_id info)) [
      | inr found ↦ rw found.1 (set_default-IsFirst all info rest (kept found.0 found.1) h)
      | inl absent ↦ rw absent (
          set_default-IsFirst all (info ++ x ∷ []) rest (added absent)
            (All-append (IsFirst all) info (x ∷ []) h (first absent, tt)))
    ]
  where
    kept : (y : ScoredChunk) → find_row chunk_key x.chunk_id info ≡ some y → Covers all info rest
    kept y found id = elim (Bool-cases (x.chunk_id == id)) [
      | inr other ↦ covers id ∙ rw other refl
      | inl same ↦ covers id ∙ found_first id ((==_iff x.chunk_id id).0 same)
    ]
      where
        found_first :
            (id : ℕ)
            → x.chunk_id ≡ id
            → first_of
                (find_row chunk_key id info)
                (if x.chunk_id == id then some x else find_row chunk_key id rest)
              ≡ first_of (find_row chunk_key id info) (find_row chunk_key id rest)
        found_first id q = rw (ap (λ j. find_row chunk_key j info) (sym q) ∙ found) refl

    first : find_row chunk_key x.chunk_id info ≡ none → IsFirst all x
    first absent = covers x.chunk_id ∙ rw (absent, (==_iff x.chunk_id x.chunk_id).1 refl) refl

    added : find_row chunk_key x.chunk_id info ≡ none → Covers all (info ++ x ∷ []) rest
    added absent id = elim (Option-cases (find_row chunk_key id info)) [
      | inr there ↦
          covers id ∙ rw (there.1, find_row-append_found chunk_key id info x there.0 there.1) refl
      | inl missing ↦
          covers id
          ∙ rw (missing, find_row-append chunk_key id info x missing)
              (either (x.chunk_id == id) (find_row chunk_key id rest))
    ]
      where
        either :
            (b : Bool) (o : Option ScoredChunk)
            → (if b then some x else o) ≡ first_of (if b then some x else none) o
        either true o = refl
        either false o = refl

set_default-append :
    (info xs ys : List ScoredChunk)
    → set_default info (xs ++ ys) ≡ set_default (set_default info xs) ys
unfolding set_default
set_default-append info [] ys = refl
set_default-append info (x ∷ xs) ys =
    set_default-append
      (if is_some (find_row chunk_key x.chunk_id info) then info else info ++ x ∷ []) xs ys

info-IsFirst :
    (semantic fts : List ScoredChunk)
    → All (IsFirst (semantic ++ fts)) (set_default (set_default [] semantic) fts)
unfolding find_row
info-IsFirst semantic fts =
    subst (All (IsFirst (semantic ++ fts))) (set_default-append [] semantic fts)
      (set_default-IsFirst (semantic ++ fts) [] (semantic ++ fts) (λ id. refl) tt)

module _ (scores : Scores) (k : ℕ) (semantic fts : List ScoredChunk) where
  abbrev pub has_chunk : ℕ → Candidate scores (length semantic) (length fts) → Bool
  has_chunk id c = c.chunk_id == id

  -- The paper and the size are those of the first item with the identifier, the ranks are its places
  -- in the two lists, and the score is the sum of what they add.
  abbrev pub IsScored : Candidate scores (length semantic) (length fts) → Type 0
  IsScored c =
      ((x : ScoredChunk) × (find_row chunk_key c.chunk_id (semantic ++ fts) ≡ some x)
        × (c.paper_id ≡ x.paper_id)
        × (c.token_count ≡ x.token_count))
      × IsRank c.chunk_id semantic c.semantic_rank
      × IsRank c.chunk_id fts c.fts_rank
      × ((a b : scores.Score) × IsPart scores k c.semantic_rank a
          × IsPart scores k c.fts_rank b
          × (c.rrf_score ≡ scores.plus a b))

  part-IsPart : (o : Option ℕ) → IsPart scores k o (part scores k o)
  part-IsPart none = unranked
  part-IsPart (some r) = of_rank r

  candidates-IsScored :
      (info : List ScoredChunk)
      → All (IsFirst (semantic ++ fts)) info
      → All IsScored (map (candidate_of scores k semantic fts) info)
  unfolding candidate_of
  candidates-IsScored [] h = tt
  candidates-IsScored (x ∷ rest) h = (
    (
      (x, h.0, refl, refl),
      rank_of-IsRankFrom x.chunk_id 1 semantic,
      rank_of-IsRankFrom x.chunk_id 1 fts,
      (
        part scores k (rank_of x.chunk_id 1 semantic),
        part scores k (rank_of x.chunk_id 1 fts),
        part-IsPart (rank_of x.chunk_id 1 semantic),
        part-IsPart (rank_of x.chunk_id 1 fts),
        refl,
      ),
    ),
    candidates-IsScored rest h.1,
  )

  scored-HasRanks :
      (c : Candidate scores (length semantic) (length fts))
      → IsScored c
      → HasRanks scores (length semantic) (length fts) c
  scored-HasRanks c h = (
    IsRank-Within c.chunk_id semantic c.semantic_rank h.1,
    IsRank-Within c.chunk_id fts c.fts_rank h.2,
  )

  count-candidates :
      (id : ℕ) (info : List ScoredChunk)
      → count_where (has_chunk id) (map (candidate_of scores k semantic fts) info)
        ≡ count_where (has_key chunk_key id) info
  unfolding candidate_of count_where
  count-candidates id [] = refl
  count-candidates id (x ∷ rest) = omega (arith, count-candidates id rest)

-- With `k` at least one, the fusion returns each chunk of the two lists once and no other. It has
-- the paper and the size of the first item with its identifier, as its ranks the places in the two
-- lists, counted from 1, of the last such item, and as its score the sum of `1 / (k + rank)` for
-- each rank and zero for a missing one. The larger score comes first, then the better rank in the
-- first list, where a missing one is last, then the better rank in the second, then the smaller
-- identifier.
pub rrf_merge_ranked :
    (scores : Scores) (k : ℕ) (semantic fts : List ScoredChunk)
    → 1 ≤ k
    → (out : List (RankedCandidate scores.Score)) × (rrf_merge scores semantic fts (pos k) ≡ ok out)
      × InOrder scores out
      × ((id : ℕ)
          → count_where (has_chunk scores k semantic fts id) out
            ≡ (if lists id semantic || lists id fts then 1 else 0))
      × All (IsScored scores k semantic fts) out
unfolding rrf_merge
rrf_merge_ranked scores k semantic fts h = (
  sort_ranked scores (length semantic) (length fts) candidates,
  rw (not_zero k h) refl,
  sorted-InOrder scores (length semantic) (length fts)
      (sort_ranked scores (length semantic) (length fts) candidates)
      (sort_ranked-IsRankedList scores (length semantic) (length fts) candidates)
      (All-weaken (IsScored scores k semantic fts) _ _ (scored-HasRanks scores k semantic fts)
        scored),
  λ id.
      count-sort_ranked scores (length semantic) (length fts) (has_chunk scores k semantic fts id)
        candidates
      ∙ count-candidates scores k semantic fts id info
      ∙ count-set_default id (set_default [] semantic) fts (set_default-IsUnique semantic)
      ∙ ap (λ b. if b || lists id fts then 1 else 0) (from_empty id semantic),
  scored,
)
  where
    info : List ScoredChunk
    info = set_default (set_default [] semantic) fts

    candidates : List (RankedCandidate scores.Score)
    candidates = map (candidate_of scores k semantic fts) info

    scored :
        All
          (IsScored scores k semantic fts)
          (sort_ranked scores (length semantic) (length fts) candidates)
    scored =
        sort_ranked-All scores (length semantic) (length fts) (IsScored scores k semantic fts)
          candidates (candidates-IsScored scores k semantic fts info (info-IsFirst semantic fts))
