-- ===== src/Retrieval/Budget.antt =====
-- The budget of tokens is filled greedily.
use literature_research_agen.Base.{
  ℕ, ◌+◌, ◌≤◌, ◌<◌, ◌≡◌, ◌⊎◌, refl, Bool, true, false, inl, inr, List, [], ◌∷◌, arith, ltb, All,
  All-weaken, IsSublist, stop, keep, leave, pos, negsuc,
}
use literature_research_agen.Run.Errors.{ok, err, value_error}
use literature_research_agen.Retrieval.{RankedCandidate, keep_within, apply_token_budget}

module _ {S : Type 0} where
  unfoldable pub kept_tokens : List (RankedCandidate S) → ℕ
  kept_tokens [] = 0
  kept_tokens (c ∷ rest) = c.token_count + kept_tokens rest

  keep_within-IsSublist :
      (budget used : ℕ) (cs : List (RankedCandidate S)) → IsSublist (keep_within budget used cs) cs
  unfolding keep_within
  keep_within-IsSublist budget used [] = stop
  keep_within-IsSublist budget used (c ∷ rest) =
      decided (ltb budget (used + c.token_count)) (keep_within-IsSublist budget used rest)
        (keep_within-IsSublist budget (used + c.token_count) rest)
    where
      decided :
          (over : Bool)
          → IsSublist (keep_within budget used rest) rest
          → IsSublist (keep_within budget (used + c.token_count) rest) rest
          → IsSublist
              (elim over as (λ _. List (RankedCandidate S)) [
                | true ↦ keep_within budget used rest
                | false ↦ c ∷ keep_within budget (used + c.token_count) rest
              ])
              (c ∷ rest)
      decided true skipped kept = leave c _ rest skipped
      decided false skipped kept = keep c _ rest kept

  kept_tokens-keep_within :
      (budget used : ℕ) (cs : List (RankedCandidate S))
      → used ≤ budget
      → used + kept_tokens (keep_within budget used cs) ≤ budget
  unfolding keep_within kept_tokens
  kept_tokens-keep_within budget used [] h = omega arith
  kept_tokens-keep_within budget used (c ∷ rest) h = ground (
    arith,
    kept_tokens-keep_within budget used rest,
    kept_tokens-keep_within budget (used + c.token_count) rest,
  )

  -- A candidate that is in the list.
  unfoldable pub IsIn : RankedCandidate S → List (RankedCandidate S) → Type 0
  IsIn c [] = ⊥
  IsIn c (d ∷ rest) = (c ≡ d) ⊎ IsIn c rest

  -- A candidate is kept, or even the final sum, from `used` on, has no room for it.
  abbrev pub IsKeptOrTooLarge : ℕ → ℕ → List (RankedCandidate S) → RankedCandidate S → Type 0
  IsKeptOrTooLarge budget used kept c =
      IsIn c kept ⊎ (budget < used + kept_tokens kept + c.token_count)

  one_more :
      (budget used : ℕ) (c : RankedCandidate S) (kept : List (RankedCandidate S))
      (d : RankedCandidate S)
      → IsKeptOrTooLarge budget (used + c.token_count) kept d
      → IsKeptOrTooLarge budget used (c ∷ kept) d
  unfolding IsIn kept_tokens
  one_more budget used c kept d (inl found) = inl (inr found)
  one_more budget used c kept d (inr large) = inr (omega arith)

  keep_within_maximal :
      (budget used : ℕ) (cs : List (RankedCandidate S))
      → All (IsKeptOrTooLarge budget used (keep_within budget used cs)) cs
  unfolding keep_within IsIn
  keep_within_maximal budget used [] = tt
  keep_within_maximal budget used (c ∷ rest) =
      decided (ltb budget (used + c.token_count)) refl (keep_within_maximal budget used rest)
        (keep_within_maximal budget (used + c.token_count) rest)
    where
      decided :
          (over : Bool)
          → ltb budget (used + c.token_count) ≡ over
          → All (IsKeptOrTooLarge budget used (keep_within budget used rest)) rest
          → All
              (IsKeptOrTooLarge budget
                (used + c.token_count)
                (keep_within budget (used + c.token_count) rest))
              rest
          → All
              (IsKeptOrTooLarge budget used (elim over as (λ _. List (RankedCandidate S)) [
                | true ↦ keep_within budget used rest
                | false ↦ c ∷ keep_within budget (used + c.token_count) rest
              ]))
              (c ∷ rest)
      decided true q skipped kept = (inr (ground arith), skipped)
      decided false q skipped kept =
          (inl (inl refl), All-weaken _ _ rest (one_more budget used c _) kept)

-- With a budget that is not negative, the result keeps the order of the candidates, its tokens are
-- within the budget, and each candidate that is left out would not have fitted beside it. A
-- negative budget is refused.
pub apply_token_budget_greedy :
    {S : Type 0} (candidates : List (RankedCandidate S)) (budget n : ℕ)
    → ((kept : List (RankedCandidate S)) × (apply_token_budget candidates (pos budget) ≡ ok kept)
        × IsSublist kept candidates
        × (kept_tokens kept ≤ budget)
        × All (IsKeptOrTooLarge budget 0 kept) candidates)
      × (apply_token_budget candidates (negsuc n) ≡ err value_error)
unfolding apply_token_budget
apply_token_budget_greedy candidates budget n = (
  (
    keep_within budget 0 candidates,
    refl,
    keep_within-IsSublist budget 0 candidates,
    omega (arith, kept_tokens-keep_within budget 0 candidates (omega arith)),
    keep_within_maximal budget 0 candidates,
  ),
  refl,
)
