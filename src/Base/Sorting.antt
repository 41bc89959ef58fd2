-- ===== src/Base/Sorting.antt =====
-- Stable sorting by a Boolean order.
use Prim.Native.Nat.{◌+◌}
use mathlib.Core.Path.{◌≡◌, refl, ◌∙◌, ap}
use mathlib.Core.Bool.{Bool, true, false}
use mathlib.Core.List.{List, [], ◌∷◌}
use native.Mathlib.Omega.{arith}
use literature_research_agen.Base.Tests.{if◌then◌else◌}
use literature_research_agen.Base.Lists.{All, All-weaken}
use literature_research_agen.Base.Table.{count_where}

module _ {ℓ} {A : Type ℓ} (before : A → A → Bool) where
  unfoldable pub insert_before : A → List A → List A
  insert_before x [] = x ∷ []
  insert_before x (y ∷ rest) =
      let further = insert_before x rest in if before x y then x ∷ y ∷ rest else y ∷ further

  unfoldable pub sort_by : List A → List A
  unfolding insert_before
  sort_by [] = []
  sort_by (x ∷ rest) = insert_before x (sort_by rest)

  abbrev pub IsSortedBy : List A → Type ℓ
  IsSortedBy [] = Unit
  IsSortedBy (x ∷ rest) = All (λ y. before x y ≡ true) rest × IsSortedBy rest

  insert_before-All {κ} :
      (P : A → Type κ) (x : A) (xs : List A) → P x → All P xs → All P (insert_before x xs)
  unfolding insert_before
  insert_before-All P x [] h k = (h, tt)
  insert_before-All P x (y ∷ rest) h k = decided (before x y) (insert_before-All P x rest h k.1)
    where
      decided :
          (first : Bool)
          → All P (insert_before x rest)
          → All P (if first then x ∷ y ∷ rest else y ∷ insert_before x rest)
      decided true further = (h, k)
      decided false further = (k.0, further)

  pub sort_by-All {κ} : (P : A → Type κ) (xs : List A) → All P xs → All P (sort_by xs)
  unfolding sort_by
  sort_by-All P [] h = tt
  sort_by-All P (x ∷ rest) h = insert_before-All P x (sort_by rest) h.0 (sort_by-All P rest h.1)

  count-insert_before :
      (p : A → Bool) (x : A) (xs : List A)
      → count_where p (insert_before x xs) ≡ count_where p (x ∷ xs)
  unfolding insert_before count_where
  count-insert_before p x [] = refl
  count-insert_before p x (y ∷ rest) =
      decided (before x y) (omega (arith, count-insert_before p x rest))
    where
      decided :
          (first : Bool)
          → count_where p (y ∷ insert_before x rest) ≡ count_where p (x ∷ y ∷ rest)
          → count_where p (if first then x ∷ y ∷ rest else y ∷ insert_before x rest)
            ≡ count_where p (x ∷ y ∷ rest)
      decided true q = refl
      decided false q = q

  pub count-sort_by : (p : A → Bool) (xs : List A) → count_where p (sort_by xs) ≡ count_where p xs
  unfolding sort_by count_where
  count-sort_by p [] = refl
  count-sort_by p (x ∷ rest) =
      count-insert_before p x (sort_by rest)
      ∙ ap (λ n. (if p x then 1 else 0) + n) (count-sort_by p rest)

  module _ (total : (x y : A) → before x y ≡ false → before y x ≡ true)
      (trans : (x y z : A) → before x y ≡ true → before y z ≡ true → before x z ≡ true) where
    insert_before-IsSortedBy :
        (x : A) (xs : List A) → IsSortedBy xs → IsSortedBy (insert_before x xs)
    unfolding insert_before
    insert_before-IsSortedBy x [] h = (tt, tt)
    insert_before-IsSortedBy x (y ∷ rest) h =
        decided (before x y) refl (insert_before-IsSortedBy x rest h.1)
      where
        decided :
            (first : Bool)
            → before x y ≡ first
            → IsSortedBy (insert_before x rest)
            → IsSortedBy (if first then x ∷ y ∷ rest else y ∷ insert_before x rest)
        decided true q further = ((q, All-weaken _ _ rest (λ z k. trans x y z q k) h.0), h)
        decided false q further = (insert_before-All _ x rest (total x y q) h.0, further)

    pub sort_by-IsSortedBy : (xs : List A) → IsSortedBy (sort_by xs)
    unfolding sort_by
    sort_by-IsSortedBy [] = tt
    sort_by-IsSortedBy (x ∷ rest) =
        insert_before-IsSortedBy x (sort_by rest) (sort_by-IsSortedBy rest)
