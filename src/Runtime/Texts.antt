-- ===== src/Runtime/Texts.antt =====
-- Texts as lists of code points, with the tests that domain/runtime_execution.py makes of them.
use literature_research_agen.Base.{
  ℕ, ◌≡◌, refl, Bool, true, false, ◌&&◌, not, Option, none, some, List, [], ◌∷◌, length, arith,
  ◌==◌, leb,
}

abbrev pub Text : Type 0
Text = List ℕ

-- `==` on texts.
unfoldable pub same_text : Text → Text → Bool
same_text [] [] = true
same_text (a ∷ s) (b ∷ t) = a == b && same_text s t
same_text _ _ = false

pub same_text_eq : (s t : Text) → same_text s t ≡ true → s ≡ t
unfolding same_text
same_text_eq [] [] h = refl
same_text_eq (a ∷ s) (b ∷ t) h = ground (arith, same_text_eq s t)
same_text_eq [] (b ∷ t) h = cc
same_text_eq (a ∷ s) [] h = cc

pub same_text_refl : (t : Text) → same_text t t ≡ true
unfolding same_text
same_text_refl [] = refl
same_text_refl (a ∷ t) = ground (arith, same_text_refl t)

-- `not text`
abbrev pub is_empty : Text → Bool
is_empty [] = true
is_empty (a ∷ s) = false

-- An optional text compared with a text.
abbrev pub is_text : Option Text → Text → Bool
is_text none t = false
is_text (some s) t = same_text s t

-- `1 <= len(text) <= maximum`
unfoldable pub is_bounded : Text → ℕ → Bool
is_bounded t maximum = not (is_empty t) && leb (length t) maximum

-- "permanent" and "temporary"
abbrev pub permanent_kind : Text
permanent_kind = 112 ∷ 101 ∷ 114 ∷ 109 ∷ 97 ∷ 110 ∷ 101 ∷ 110 ∷ 116 ∷ []

abbrev pub temporary_kind : Text
temporary_kind = 116 ∷ 101 ∷ 109 ∷ 112 ∷ 111 ∷ 114 ∷ 97 ∷ 114 ∷ 121 ∷ []
