-- ===== src/Usage/Rows.antt =====
-- Reasoning about guarded transactions, and what the updates of the tables keep.
use literature_research_agen.Base.{
  ℕ, ◌≡◌, refl, subst, Bool, true, false, Option, none, some, List, [], ◌∷◌, find_row, count_where,
  update_where, arith,
}
use literature_research_agen.Usage.{UsageError, Guarded, passed, stopped, ◌>>=◌, check}
use literature_research_agen.Usage.Tables.{UsageDb, usage_key}
use literature_research_agen.Usage.Service.{found_or, load_locked_closure}

-- What holds of the answer, where there is one.
pub data Then {A : Type 0} (Q : A → Type 0) : Guarded A → Type 0 where
  holds : (a : A) → Q a → Then Q (passed a)
  stops : (e : UsageError) → Then Q (stopped e)

module _ {A : Type 0} where
  Then-answer : (Q : A → Type 0) (a : A) → Then Q (passed a) → Q a
  Then-answer Q _ (holds a q) = q

  pub Then-passed : (Q : A → Type 0) (m : Guarded A) (a : A) → Then Q m → m ≡ passed a → Q a
  Then-passed Q m a h q = Then-answer Q a (subst (Then Q) q h)

  pub found_or_found :
      (e : UsageError) (o : Option A) (a : A) → found_or e o ≡ passed a → o ≡ some a
  found_or_found e none a h = cc
  found_or_found e (some b) a h = ground arith

  pub count_where-kept :
      (q p : A → Bool) (f : A → A) (xs : List A)
      → ((x : A) → q (f x) ≡ q x)
      → count_where q (update_where p f xs) ≡ count_where q xs
  unfolding count_where update_where
  count_where-kept q p f [] h = refl
  count_where-kept q p f (x ∷ xs) h = ground (arith, h x, count_where-kept q p f xs h)

module _ {A B : Type 0} where
  pub Then-bind :
      {Q : B → Type 0} (m : Guarded A) (f : A → Guarded B)
      → ((a : A) → m ≡ passed a → Then Q (f a))
      → Then Q (m >>= f)
  unfolding ◌>>=◌
  Then-bind (passed a) f h = h a refl
  Then-bind (stopped e) f h = stops e

pub checked : (b : Bool) (e : UsageError) → check b e ≡ passed tt → b ≡ true
checked true e h = refl
checked false e h = cc

-- The usage of the closure is the stored row.
pub load_found :
    (allow : Bool) (turn : ℕ) (db : UsageDb)
    → Then
        (λ c. find_row usage_key turn db.usages ≡ some c.usage)
        (load_locked_closure allow turn db)
unfolding load_locked_closure
load_found allow turn db = Then-bind _ _ λ usage found. Then-bind _ _ λ run _. Then-bind _ _ λ _ _.
    Then-bind _ _ λ _ _. Then-bind _ _ λ t _. Then-bind _ _ λ s _.
      Then-bind _ _
        λ c _. Then-bind _ _ λ p _. Then-bind _ _ λ _ _. holds _ (found_or_found _ _ usage found)
