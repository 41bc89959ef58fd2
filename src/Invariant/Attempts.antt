-- ===== src/Invariant/Attempts.antt =====
-- The attempts of a run are numbered 1, 2, 3, … in the order of their rows, and ids are unique.
use mathlib.Core.List.{append-nil}
use literature_research_agen.Base.{
  ℕ, suc, ◌+◌, ◌≡◌, refl, sym, subst, inl, inr, Bool, none, List, [], ◌∷◌, ◌++◌, length, arith,
  ◌==◌, ==_iff, if◌then◌else◌, count_where, select_where, update_where, find_row, IsUnique,
  update_where-IsUnique, append-IsUnique, select_where-append, Bool-cases,
}
use literature_research_agen.Attempt.{RunAttempt}
use literature_research_agen.Db.Attempts.{attempt_key, attempt_of}

abbrev pub NumberedAttempts : ℕ → List RunAttempt → Type 0
NumberedAttempts n [] = Unit
NumberedAttempts n (a ∷ rest) = (a.attempt_number ≡ n) × NumberedAttempts (suc n) rest

pub record IsTried (attempts : List RunAttempt) : Type 0 where
  pub unique : IsUnique attempt_key attempts
  pub numbered : (k : ℕ) → NumberedAttempts 1 (select_where (attempt_of k) attempts)

NumberedAttempts-append :
    (n : ℕ) (xs : List RunAttempt) (a : RunAttempt)
    → NumberedAttempts n xs
    → a.attempt_number ≡ n + length xs
    → NumberedAttempts n (xs ++ a ∷ [])
NumberedAttempts-append n [] a h q = (omega arith, tt)
NumberedAttempts-append n (x ∷ xs) a h q =
    (h.0, NumberedAttempts-append (suc n) xs a h.1 (omega arith))

pub length-select_where :
    (p : RunAttempt → Bool) (xs : List RunAttempt) → length (select_where p xs) ≡ count_where p xs
unfolding select_where count_where
length-select_where p [] = refl
length-select_where p (x ∷ xs) = ground (arith, length-select_where p xs)

-- An update that leaves the identity of an attempt alone.
abbrev pub KeepsIdentity : (RunAttempt → RunAttempt) → Type 0
KeepsIdentity f =
    (a : RunAttempt)
    → ((f a).attempt_id ≡ a.attempt_id)
      × ((f a).run_id ≡ a.run_id)
      × ((f a).attempt_number ≡ a.attempt_number)

updated-NumberedAttempts :
    (p : RunAttempt → Bool) (f : RunAttempt → RunAttempt) (k n : ℕ) (xs : List RunAttempt)
    → KeepsIdentity f
    → NumberedAttempts n (select_where (attempt_of k) xs)
    → NumberedAttempts n (select_where (attempt_of k) (update_where p f xs))
unfolding select_where update_where
updated-NumberedAttempts p f k n [] keeps h = tt
updated-NumberedAttempts p f k n (x ∷ xs) keeps h = ground (
  arith,
  keeps x,
  updated-NumberedAttempts p f k n xs keeps,
  updated-NumberedAttempts p f k (suc n) xs keeps,
)

pub updated-IsTried :
    (p : RunAttempt → Bool) (f : RunAttempt → RunAttempt) (attempts : List RunAttempt)
    → KeepsIdentity f
    → IsTried attempts
    → IsTried (update_where p f attempts)
updated-IsTried p f attempts keeps h = record {
  unique = update_where-IsUnique attempt_key p f attempts (λ a. (keeps a).0) h.unique;
  numbered = λ k. updated-NumberedAttempts p f k 1 attempts keeps (h.numbered k);
}

-- A new attempt with a new id, numbered one past those of its run.
pub appended-IsTried :
    (attempts : List RunAttempt) (a : RunAttempt)
    → IsTried attempts
    → find_row attempt_key a.attempt_id attempts ≡ none
    → a.attempt_number ≡ count_where (attempt_of a.run_id) attempts + 1
    → IsTried (attempts ++ a ∷ [])
appended-IsTried attempts a h new number = record {
  unique = append-IsUnique attempt_key attempts a h.unique new;
  numbered = λ k.
      subst (NumberedAttempts 1) (sym (select_where-append (attempt_of k) attempts a)) (extended k);
}
  where
    extended :
        (k : ℕ)
        → NumberedAttempts 1
            (select_where (attempt_of k) attempts ++ (if attempt_of k a then a ∷ [] else []))
    extended k = elim (Bool-cases (a.run_id == k)) [
      | inl own ↦ rw own (
          NumberedAttempts-append 1 (select_where (attempt_of k) attempts) a (h.numbered k)
            (number_of k ((==_iff a.run_id k).0 own)))
      | inr other ↦ rw (other, append-nil) (h.numbered k)
    ]
      where
        number_of :
            (k : ℕ)
            → a.run_id ≡ k
            → a.attempt_number ≡ 1 + length (select_where (attempt_of k) attempts)
        number_of k own =
            rw (length-select_where (attempt_of k) attempts, ← own) (omega (arith, number))
