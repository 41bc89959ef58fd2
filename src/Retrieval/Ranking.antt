-- ===== src/Retrieval/Ranking.antt =====
-- An independent description of ranks, scores and the order of the fused candidates.
use literature_research_agen.Base.{
  ℕ, suc, ◌+◌, ◌≤◌, ◌<◌, ◌≡◌, refl, ap, true, false, Option, none, some, inl, inr, List, [], ◌∷◌,
  ◌++◌, length, length-append, arith, ◌==◌, ltb, if◌then◌else◌, Bool-cases, find_row, All,
  IsSortedBy,
}
use literature_research_agen.Retrieval.Arithmetic.{Scores}
use literature_research_agen.Retrieval.{
  ScoredChunk, RankedCandidate, chunk_key, rank_of, rank_or, sorts_before,
}

-- The place of the last item with the identifier, counted from `n`.
pub data IsRankFrom (id n : ℕ) : List ScoredChunk → Option ℕ → Type 0 where
  missing : (xs : List ScoredChunk) → find_row chunk_key id xs ≡ none → IsRankFrom id n xs none
  at :
      (before : List ScoredChunk) (x : ScoredChunk) (later : List ScoredChunk) (r : ℕ)
      → x.chunk_id ≡ id
      → find_row chunk_key id later ≡ none
      → r ≡ n + length before
      → IsRankFrom id n (before ++ x ∷ later) (some r)

-- Ranks count from 1.
abbrev pub IsRank : ℕ → List ScoredChunk → Option ℕ → Type 0
IsRank id = IsRankFrom id 1

rank_later :
    (id n : ℕ) (x : ScoredChunk) (xs : List ScoredChunk) (later : Option ℕ)
    → IsRankFrom id (suc n) xs later
    → IsRankFrom id n
        (x ∷ xs)
        (elim later [ some r ↦ some r | none ↦ if x.chunk_id == id then some n else none ])
unfolding find_row
rank_later id n x _ _ (missing xs h) = elim (Bool-cases (x.chunk_id == id)) [
  | inl own ↦ rw own (at [] x xs n (ground arith) h (omega arith))
  | inr other ↦ rw other (missing (x ∷ xs) (rw other h))
]
rank_later id n x _ _ (at before y later r own h q) = at (x ∷ before) y later r own h (omega arith)

pub rank_of-IsRankFrom : (id n : ℕ) (xs : List ScoredChunk) → IsRankFrom id n xs (rank_of id n xs)
unfolding rank_of find_row
rank_of-IsRankFrom id n [] = missing [] refl
rank_of-IsRankFrom id n (x ∷ xs) =
    rank_later id n x xs (rank_of id (suc n) xs) (rank_of-IsRankFrom id (suc n) xs)

-- A rank within a list of `m` items.
abbrev pub Within : ℕ → Option ℕ → Type 0
Within m none = Unit
Within m (some r) = r ≤ m

pub IsRank-Within :
    (id : ℕ) (xs : List ScoredChunk) (o : Option ℕ) → IsRank id xs o → Within (length xs) o
IsRank-Within id _ _ (missing xs h) = tt
IsRank-Within id _ _ (at before x later r own h q) = omega (arith, length-append before (x ∷ later))

-- A rank comes before each larger one, and before none.
pub data RankBefore : Option ℕ → Option ℕ → Type 0 where
  lower : (m n : ℕ) → m < n → RankBefore (some m) (some n)
  ranked : (m : ℕ) → RankBefore (some m) none

rank_before :
    (m : ℕ) (a b : Option ℕ) (scores : Scores)
    → Within m a
    → Within m b
    → ltb (rank_or scores m a) (rank_or scores m b) ≡ true
    → RankBefore a b
rank_before m (some a) (some b) scores h k q = lower a b (ground arith)
rank_before m (some a) none scores h k q = ranked a
rank_before m none (some b) scores h k q = absurd (ground arith)
rank_before m none none scores h k q = absurd (ground arith)

same_rank :
    (m : ℕ) (a b : Option ℕ) (scores : Scores)
    → Within m a
    → Within m b
    → ltb (rank_or scores m a) (rank_or scores m b) ≡ false
    → ltb (rank_or scores m b) (rank_or scores m a) ≡ false
    → a ≡ b
same_rank m (some a) (some b) scores h k q r = ap some (ground arith)
same_rank m (some a) none scores h k q r = absurd (ground arith)
same_rank m none (some b) scores h k q r = absurd (ground arith)
same_rank m none none scores h k q r = refl

module _ (scores : Scores) where
  -- What a rank adds to the score.
  pub data IsPart (k : ℕ) : Option ℕ → scores.Score → Type 0 where
    unranked : IsPart k none scores.zero
    of_rank : (r : ℕ) → IsPart k (some r) (scores.reciprocal (k + r))

  abbrev pub IsTied : RankedCandidate scores.Score → RankedCandidate scores.Score → Type 0
  IsTied c d =
      (scores.at_most c.rrf_score d.rrf_score ≡ true)
      × (scores.at_most d.rrf_score c.rrf_score ≡ true)

  -- The larger score comes first, then the better rank in the first list, then in the second, then
  -- the smaller identifier.
  pub data Precedes (c d : RankedCandidate scores.Score) : Type 0 where
    by_score : scores.at_most c.rrf_score d.rrf_score ≡ false → Precedes c d
    by_semantic : IsTied c d → RankBefore c.semantic_rank d.semantic_rank → Precedes c d
    by_fts :
        IsTied c d
        → c.semantic_rank ≡ d.semantic_rank
        → RankBefore c.fts_rank d.fts_rank
        → Precedes c d
    by_id :
        IsTied c d
        → c.semantic_rank ≡ d.semantic_rank
        → c.fts_rank ≡ d.fts_rank
        → c.chunk_id ≤ d.chunk_id
        → Precedes c d

  abbrev pub InOrder : List (RankedCandidate scores.Score) → Type 0
  InOrder [] = Unit
  InOrder (c ∷ rest) = All (Precedes c) rest × InOrder rest

  module _ (m n : ℕ) where
    abbrev pub HasRanks : RankedCandidate scores.Score → Type 0
    HasRanks c = Within m c.semantic_rank × Within n c.fts_rank

    sorts_before-Precedes :
        (c d : RankedCandidate scores.Score)
        → HasRanks c
        → HasRanks d
        → sorts_before scores m n c d ≡ true
        → Precedes c d
    unfolding sorts_before
    sorts_before-Precedes c d hc hd q = elim (Bool-cases (scores.at_most c.rrf_score d.rrf_score)) [
      | inr more ↦ by_score more
      | inl up ↦ elim (Bool-cases (scores.at_most d.rrf_score c.rrf_score)) [
        | inr less ↦ absurd (ground (arith, q, less))
        | inl down ↦ tied (up, down)
      ]
    ]
      where
        by_ids :
            IsTied c d
            → c.semantic_rank ≡ d.semantic_rank
            → ltb (rank_or scores m c.semantic_rank) (rank_or scores m d.semantic_rank) ≡ false
            → ltb (rank_or scores m d.semantic_rank) (rank_or scores m c.semantic_rank) ≡ false
            → Precedes c d
        by_ids t same s1 s2 =
            elim (Bool-cases (ltb (rank_or scores n c.fts_rank) (rank_or scores n d.fts_rank))) [
              | inl better ↦
                  by_fts t same (rank_before n c.fts_rank d.fts_rank scores hc.1 hd.1 better)
              | inr f1 ↦
                  elim (Bool-cases
                    (ltb (rank_or scores n d.fts_rank) (rank_or scores n c.fts_rank))) [
                      | inl worse ↦ absurd (ground (arith, q, t.0, t.1, s1, s2, f1, worse))
                      | inr f2 ↦
                          by_id t same (same_rank n c.fts_rank d.fts_rank scores hc.1 hd.1 f1 f2)
                            (ground (arith, q, t.0, t.1, s1, s2, f1, f2))
                    ]
            ]

        tied : IsTied c d → Precedes c d
        tied t =
            elim (Bool-cases
              (ltb (rank_or scores m c.semantic_rank) (rank_or scores m d.semantic_rank))) [
                | inl better ↦
                    by_semantic t
                      (rank_before m c.semantic_rank d.semantic_rank scores hc.0 hd.0 better)
                | inr s1 ↦
                    elim (Bool-cases
                      (ltb (rank_or scores m d.semantic_rank) (rank_or scores m c.semantic_rank))) [
                        | inl worse ↦ absurd (ground (arith, q, t.0, t.1, s1, worse))
                        | inr s2 ↦
                            by_ids t
                              (same_rank m c.semantic_rank d.semantic_rank scores hc.0 hd.0 s1 s2)
                              s1 s2
                      ]
              ]

    first-Precedes :
        (c : RankedCandidate scores.Score) (rest : List (RankedCandidate scores.Score))
        → HasRanks c
        → All HasRanks rest
        → All (λ d. sorts_before scores m n c d ≡ true) rest
        → All (Precedes c) rest
    first-Precedes c [] h k s = tt
    first-Precedes c (d ∷ rest) h k s =
        (sorts_before-Precedes c d h k.0 s.0, first-Precedes c rest h k.1 s.1)

    pub sorted-InOrder :
        (cs : List (RankedCandidate scores.Score))
        → IsSortedBy (sorts_before scores m n) cs
        → All HasRanks cs
        → InOrder cs
    sorted-InOrder [] s h = tt
    sorted-InOrder (c ∷ rest) s h = (first-Precedes c rest h.0 h.1 s.0, sorted-InOrder rest s.1 h.1)
