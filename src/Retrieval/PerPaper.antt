-- ===== src/Retrieval/PerPaper.antt =====
-- The limit per paper keeps the first candidates of each.
use literature_research_agen.Base.{
  ℕ, zero, suc, ◌-◌, ◌≤◌, ◌≡◌, refl, Bool, true, false, List, [], ◌∷◌, take, arith, ◌==◌, leb,
  select_where, IsSublist, stop, keep, leave, pos,
}
use literature_research_agen.Run.Errors.{ok}
use literature_research_agen.Retrieval.{
  RankedCandidate, count_one_more, keep_per_paper, apply_per_paper_limit,
}

pub not_zero : (n : ℕ) → 1 ≤ n → (n == 0) ≡ false
not_zero n h = ground arith

module _ {S : Type 0} where
  abbrev pub of_paper : ℕ → RankedCandidate S → Bool
  of_paper p c = c.paper_id == p

  keep_per_paper-IsSublist :
      (limit : ℕ) (counts : ℕ → ℕ) (cs : List (RankedCandidate S))
      → IsSublist (keep_per_paper limit counts cs) cs
  unfolding keep_per_paper
  keep_per_paper-IsSublist limit counts [] = stop
  keep_per_paper-IsSublist limit counts (c ∷ rest) =
      decided (leb limit (counts c.paper_id)) (keep_per_paper-IsSublist limit counts rest)
        (keep_per_paper-IsSublist limit (count_one_more counts c.paper_id) rest)
    where
      decided :
          (full : Bool)
          → IsSublist (keep_per_paper limit counts rest) rest
          → IsSublist (keep_per_paper limit (count_one_more counts c.paper_id) rest) rest
          → IsSublist
              (elim full as (λ _. List (RankedCandidate S)) [
                | true ↦ keep_per_paper limit counts rest
                | false ↦ c ∷ keep_per_paper limit (count_one_more counts c.paper_id) rest
              ])
              (c ∷ rest)
      decided true skipped kept = leave c _ rest skipped
      decided false skipped kept = keep c _ rest kept

  select-keep_per_paper :
      (limit p k : ℕ) (counts : ℕ → ℕ) (cs : List (RankedCandidate S))
      → k ≡ limit - counts p
      → select_where (of_paper p) (keep_per_paper limit counts cs)
        ≡ take k (select_where (of_paper p) cs)
  unfolding keep_per_paper select_where
  select-keep_per_paper limit p zero counts [] q = refl
  select-keep_per_paper limit p (suc k) counts [] q = refl
  select-keep_per_paper limit p zero counts (c ∷ rest) q = ground (
    arith,
    select-keep_per_paper limit p zero counts rest,
    select-keep_per_paper limit p zero (count_one_more counts c.paper_id) rest,
  )
  select-keep_per_paper limit p (suc k) counts (c ∷ rest) q = ground (
    arith,
    select-keep_per_paper limit p (suc k) counts rest,
    select-keep_per_paper limit p (suc k) (count_one_more counts c.paper_id) rest,
    select-keep_per_paper limit p k (count_one_more counts c.paper_id) rest,
  )

-- With a limit of at least one, the result keeps the order of the candidates, and of each paper it
-- has exactly the first `limit` candidates.
pub apply_per_paper_limit_first :
    {S : Type 0} (candidates : List (RankedCandidate S)) (limit : ℕ)
    → 1 ≤ limit
    → (kept : List (RankedCandidate S)) × (apply_per_paper_limit candidates (pos limit) ≡ ok kept)
      × IsSublist kept candidates
      × ((p : ℕ)
          → select_where (of_paper p) kept ≡ take limit (select_where (of_paper p) candidates))
unfolding apply_per_paper_limit
apply_per_paper_limit_first candidates limit h = (
  keep_per_paper limit (λ _. 0) candidates,
  rw (not_zero limit h) refl,
  keep_per_paper-IsSublist limit (λ _. 0) candidates,
  λ p. select-keep_per_paper limit p limit (λ _. 0) candidates (omega arith),
)
