-- ===== src/Retrieval/Sorting.antt =====
-- The order in which the fusion returns its candidates.
use literature_research_agen.Base.{
  ℕ, ◌≡◌, Bool, true, false, List, arith, count_where, All, IsSortedBy, sort_by-All,
  sort_by-IsSortedBy, count-sort_by,
}
use literature_research_agen.Retrieval.Arithmetic.{Scores}
use literature_research_agen.Retrieval.{RankedCandidate, sorts_before, sort_ranked}

module _ (scores : Scores) (m n : ℕ) where
  abbrev pub Candidate : Type 0
  Candidate = RankedCandidate scores.Score

  sorts_before_total :
      (c d : Candidate) → sorts_before scores m n c d ≡ false → sorts_before scores m n d c ≡ true
  unfolding sorts_before
  sorts_before_total c d h = ground (arith, scores.total c.rrf_score d.rrf_score)

  sorts_before_trans :
      (a b c : Candidate)
      → sorts_before scores m n a b ≡ true
      → sorts_before scores m n b c ≡ true
      → sorts_before scores m n a c ≡ true
  unfolding sorts_before
  sorts_before_trans a b c h k = ground (
    arith,
    scores.trans a.rrf_score b.rrf_score c.rrf_score,
    scores.trans c.rrf_score b.rrf_score a.rrf_score,
    scores.trans b.rrf_score a.rrf_score c.rrf_score,
    scores.trans a.rrf_score c.rrf_score b.rrf_score,
    scores.trans b.rrf_score c.rrf_score a.rrf_score,
    scores.trans c.rrf_score a.rrf_score b.rrf_score,
  )

  abbrev pub IsRankedList : List Candidate → Type 0
  IsRankedList = IsSortedBy (sorts_before scores m n)

  pub sort_ranked-All :
      (P : Candidate → Type 0) (cs : List Candidate) → All P cs → All P (sort_ranked scores m n cs)
  unfolding sort_ranked
  sort_ranked-All = sort_by-All (sorts_before scores m n)

  pub sort_ranked-IsRankedList : (cs : List Candidate) → IsRankedList (sort_ranked scores m n cs)
  unfolding sort_ranked
  sort_ranked-IsRankedList =
      sort_by-IsSortedBy (sorts_before scores m n) sorts_before_total sorts_before_trans

  pub count-sort_ranked :
      (p : Candidate → Bool) (cs : List Candidate)
      → count_where p (sort_ranked scores m n cs) ≡ count_where p cs
  unfolding sort_ranked
  count-sort_ranked = count-sort_by (sorts_before scores m n)
