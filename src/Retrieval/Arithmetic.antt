-- ===== src/Retrieval/Arithmetic.antt =====
-- The floating point numbers that the fusion of domain/retrieval.py computes with, as an interface.
use literature_research_agen.Base.{ℕ, ◌+◌, ◌/◌, ◌≡◌, Bool, true, ◌||◌, leb, arith}

-- Zero, reciprocals of positive numbers and their sums, with `<=`. None of these is a NaN, so `<=` is
-- total and transitive.
pub record Scores : Type 1 where
  pub Score : Type 0
  pub zero : Score
  pub reciprocal : ℕ → Score
  pub plus : Score → Score → Score
  pub at_most : Score → Score → Bool
  pub total : (a b : Score) → (at_most a b || at_most b a) ≡ true
  pub trans : (a b c : Score) → at_most a b ≡ true → at_most b c ≡ true → at_most a c ≡ true

pub leb_total : (a b : ℕ) → (leb a b || leb b a) ≡ true
leb_total a b = ground arith

pub leb_trans : (a b c : ℕ) → leb a b ≡ true → leb b c ≡ true → leb a c ≡ true
leb_trans a b c h k = ground arith

-- An instance: billionths, rounded down.
abbrev pub billionths : Scores
billionths = record {
  Score = ℕ;
  zero = 0;
  reciprocal = λ n. 1_000_000_000 / n;
  plus = λ a b. a + b;
  at_most = leb;
  total = leb_total;
  trans = leb_trans;
}
