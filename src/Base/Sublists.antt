-- ===== src/Base/Sublists.antt =====
-- Lists that come from another by leaving items out.
use mathlib.Core.List.{List, [], ◌∷◌}

-- The items of `xs` in the order of `ys`, where `ys` may have others between them.
pub data IsSublist {ℓ} {A : Type ℓ} : List A → List A → Type ℓ where
  stop : IsSublist [] []
  keep : (x : A) (xs ys : List A) → IsSublist xs ys → IsSublist (x ∷ xs) (x ∷ ys)
  leave : (y : A) (xs ys : List A) → IsSublist xs ys → IsSublist xs (y ∷ ys)
