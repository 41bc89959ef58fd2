-- ===== src/Base/Table.antt =====
-- A database table as the list of its rows: `SELECT … WHERE`, `UPDATE … WHERE` with its row count,
-- and a primary key.
use Prim.Native.Nat.{ℕ, ◌+◌, ◌≤◌}
use mathlib.Core.Path.{◌≡◌, refl}
use mathlib.Core.Logic.{inl, inr}
use mathlib.Core.Bool.{Bool, ◌&&◌}
use mathlib.Core.List.{List, [], ◌∷◌, ◌++◌}
use mathlib.Core.Option
use mathlib.Core.Option.{Option, none, some}
use native.Mathlib.Omega.{arith}
use literature_research_agen.Base.Tests.{◌==◌, if◌then◌else◌, Bool-cases}

module _ {ℓ} {A : Type ℓ} where
  -- The rows that pass a test, in the order of the table.
  unfoldable pub select_where : (A → Bool) → List A → List A
  select_where p [] = []
  select_where p (x ∷ xs) = let rest = select_where p xs in if p x then x ∷ rest else rest

  -- The row count of an update or a count query.
  unfoldable pub count_where : (A → Bool) → List A → ℕ
  count_where p [] = 0
  count_where p (x ∷ xs) = (if p x then 1 else 0) + count_where p xs

  abbrev pub apply_if : (A → Bool) → (A → A) → A → A
  apply_if p f x = if p x then f x else x

  unfoldable pub update_where : (A → Bool) → (A → A) → List A → List A
  update_where p f [] = []
  update_where p f (x ∷ xs) = apply_if p f x ∷ update_where p f xs

module _ {ℓ} {A : Type ℓ} (key : A → ℕ) where
  abbrev pub has_key : ℕ → A → Bool
  has_key k x = key x == k

  -- `scalar_one_or_none`: the row of a key.
  unfoldable pub find_row : ℕ → List A → Option A
  find_row k [] = none
  find_row k (x ∷ xs) = if key x == k then some x else find_row k xs

  -- A primary key or a unique column.
  abbrev pub IsUnique : List A → Type 0
  IsUnique xs = (k : ℕ) → count_where (has_key k) xs ≤ 1

module _ {ℓ} {A : Type ℓ} (key : A → ℕ) (p : A → Bool) (f : A → A) where
  -- An update that leaves the key alone.
  abbrev pub KeepsKey : Type ℓ
  KeepsKey = (x : A) → key (f x) ≡ key x

  pub count_where-update_where :
      (k : ℕ) (xs : List A)
      → KeepsKey
      → count_where (has_key key k) (update_where p f xs) ≡ count_where (has_key key k) xs
  unfolding count_where update_where
  count_where-update_where k [] h = refl
  count_where-update_where k (x ∷ xs) h = ground (arith, h x, count_where-update_where k xs h)

  pub update_where-IsUnique :
      (xs : List A) → KeepsKey → IsUnique key xs → IsUnique key (update_where p f xs)
  update_where-IsUnique xs h u k = omega (arith, u k, count_where-update_where k xs h)

  pub find_row-update_where :
      (k : ℕ) (xs : List A)
      → KeepsKey
      → find_row key k (update_where p f xs) ≡ Option.map (apply_if p f) (find_row key k xs)
  unfolding find_row update_where
  find_row-update_where k [] h = refl
  find_row-update_where k (x ∷ xs) h = ground (arith, h x, find_row-update_where k xs h)

module _ {ℓ} {A : Type ℓ} (key : A → ℕ) where
  pub count_where_absent :
      (k : ℕ) (q : A → Bool) (xs : List A)
      → find_row key k xs ≡ none
      → count_where (λ x. key x == k && q x) xs ≡ 0
  unfolding find_row count_where
  count_where_absent k q [] h = refl
  count_where_absent k q (x ∷ xs) h = ground (arith, count_where_absent k q xs)

  pub find_row-none :
      (k : ℕ) (xs : List A) → find_row key k xs ≡ none → count_where (has_key key k) xs ≡ 0
  unfolding find_row count_where
  find_row-none k [] h = refl
  find_row-none k (x ∷ xs) h = ground (arith, find_row-none k xs)

  pub find_row_absent :
      (k : ℕ) (xs : List A) → count_where (has_key key k) xs ≡ 0 → find_row key k xs ≡ none
  unfolding find_row count_where
  find_row_absent k [] h = refl
  find_row_absent k (x ∷ xs) h = ground (arith, find_row_absent k xs)

  pub count_where-and-le :
      (k : ℕ) (q : A → Bool) (xs : List A)
      → count_where (λ x. key x == k && q x) xs ≤ count_where (has_key key k) xs
  unfolding count_where
  count_where-and-le k q [] = omega arith
  count_where-and-le k q (x ∷ xs) = ground (arith, count_where-and-le k q xs)

  -- By a unique key, an update meets at most the one row, and exactly if it passes the test.
  pub count_where_found :
      (k : ℕ) (q : A → Bool) (xs : List A) (a : A)
      → count_where (has_key key k) xs ≤ 1
      → find_row key k xs ≡ some a
      → count_where (λ x. key x == k && q x) xs ≡ (if q a then 1 else 0)
  unfolding find_row count_where
  count_where_found k q [] a u h = cc
  count_where_found k q (x ∷ xs) a u h =
      ground (arith, count_where_found k q xs a, count_where-and-le k q xs)

  pub find_row_key : (k : ℕ) (xs : List A) (a : A) → find_row key k xs ≡ some a → key a ≡ k
  unfolding find_row
  find_row_key k [] a h = cc
  find_row_key k (x ∷ xs) a h = ground (arith, find_row_key k xs a)

  pub find_row-append :
      (k : ℕ) (xs : List A) (a : A)
      → find_row key k xs ≡ none
      → find_row key k (xs ++ a ∷ []) ≡ (if key a == k then some a else none)
  unfolding find_row
  find_row-append k [] a h = refl
  find_row-append k (x ∷ xs) a h = ground (arith, find_row-append k xs a)

  pub find_row-append_found :
      (k : ℕ) (xs : List A) (a b : A)
      → find_row key k xs ≡ some b
      → find_row key k (xs ++ a ∷ []) ≡ some b
  unfolding find_row
  find_row-append_found k [] a b h = cc
  find_row-append_found k (x ∷ xs) a b h = ground (arith, find_row-append_found k xs a b)

module _ {ℓ} {A : Type ℓ} where
  pub select_where-append :
      (p : A → Bool) (xs : List A) (a : A)
      → select_where p (xs ++ a ∷ []) ≡ select_where p xs ++ (if p a then a ∷ [] else [])
  unfolding select_where
  select_where-append p [] a = ground arith
  select_where-append p (x ∷ xs) a = ground (arith, select_where-append p xs a)

  pub count_where-append :
      (p : A → Bool) (xs : List A) (a : A)
      → count_where p (xs ++ a ∷ []) ≡ count_where p xs + (if p a then 1 else 0)
  unfolding count_where
  count_where-append p [] a = ground arith
  count_where-append p (x ∷ xs) a = ground (arith, count_where-append p xs a)

module _ {ℓ} {A : Type ℓ} where
  pub update_where_none :
      (p : A → Bool) (f : A → A) (xs : List A) → count_where p xs ≡ 0 → update_where p f xs ≡ xs
  unfolding count_where update_where
  update_where_none p f [] h = refl
  update_where_none p f (x ∷ xs) h = ground (arith, update_where_none p f xs)

  -- Counting with one more test is counting in a selection.
  pub count_where-select_where :
      (p q : A → Bool) (xs : List A)
      → count_where (λ x. p x && q x) xs ≡ count_where q (select_where p xs)
  unfolding count_where select_where
  count_where-select_where p q [] = refl
  count_where-select_where p q (x ∷ xs) = ground (arith, count_where-select_where p q xs)

module _ {ℓ} {A : Type ℓ} (key : A → ℕ) where
  -- A row with a new key may be added.
  pub append-IsUnique :
      (xs : List A) (a : A)
      → IsUnique key xs
      → find_row key (key a) xs ≡ none
      → IsUnique key (xs ++ a ∷ [])
  append-IsUnique xs a u h k = elim (Bool-cases (key a == k)) [
    | inl same ↦
        grind (arith, count_where-append (has_key key k) xs a, find_row-none key (key a) xs h, u k)
    | inr differs ↦ ground (arith, count_where-append (has_key key k) xs a, u k)
  ]
