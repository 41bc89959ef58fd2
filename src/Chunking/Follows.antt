-- ===== src/Chunking/Follows.antt =====
-- A computation with a counter that may raise, beside the same one with the counts.
use literature_research_agen.Base.{
  ℕ, ◌+◌, ◌&&◌, ◌≡◌, refl, sym, subst, Bool, true, false, not, Option, inl, inr, List, [], ◌∷◌,
  length, if◌then◌else◌, Option-cases,
}
use literature_research_agen.Run.Errors.{Error, Result, ok, err}
use literature_research_agen.Runtime.Texts.{Text, is_empty}
use literature_research_agen.Chunking.{
  DocumentElement, ElementSourceLocation, ChunkProfile, is_excluded, is_heading, ◌>>=◌,
}
use literature_research_agen.Chunking.Units.{
  TextUnit, Heading, Item, unit, heading, element_text, sort_elements, is_caption_of, unit_of,
  with_caption, add_text, add_element, add_elements, build_units,
}
use literature_research_agen.Chunking.Builder.{
  Progress, is_full, draft_of, close_chunk, prefix_tokens_of, take_item, take_items,
}
use literature_research_agen.Chunking.Counting.{
  try_unit, try_caption, try_add_text, try_add_element, try_add_elements, try_build_units,
  try_draft, try_close_chunk, try_prefix_tokens, try_take_item, try_take_items,
}

module _ (counter : Text → Result ℕ) where
  -- The result is this value, or the counter has raised the error on some text.
  pub data Follows {A : Type 0} : Result A → A → Type 0 where
    returned : (a : A) → Follows (ok a) a
    raised : (t : Text) (e : Error) (a : A) → counter t ≡ err e → Follows (err e) a

  pub Follows-bind :
      {A B : Type 0} (m : Result A) (a : A) (f : A → Result B) (b : B)
      → Follows m a
      → Follows (f a) b
      → Follows (m >>= f) b
  Follows-bind _ _ f b (returned a) k = k
  Follows-bind _ _ f b (raised t e a q) k = raised t e b q

  Follows-if :
      {A : Type 0} (b : Bool) (m m' : Result A) (x x' : A)
      → Follows m x
      → Follows m' x'
      → Follows (if b then m else m') (if b then x else x')
  Follows-if true m m' x x' h k = h
  Follows-if false m m' x x' h k = k

  -- `count` has every count that the counter returns.
  abbrev pub IsCount : (Text → ℕ) → Type 0
  IsCount count = (t : Text) (n : ℕ) → counter t ≡ ok n → count t ≡ n

module _ (counter : Text → Result ℕ) (count : Text → ℕ) (counted : IsCount counter count) where
  counts : (t : Text) → Follows counter (counter t) (count t)
  counts t = by_result (counter t) refl
    where
      by_result : (r : Result ℕ) → counter t ≡ r → Follows counter r (count t)
      by_result (ok n) q = subst (Follows counter (ok n)) (sym (counted t n q)) (returned n)
      by_result (err e) q = raised t e (count t) q

  try_unit_follows :
      (e : DocumentElement) (text : Text)
      → Follows counter (try_unit counter e text) (unit_of count e text)
  try_unit_follows e text =
      Follows-bind counter (counter text) (count text) _ _ (counts text) (returned _)

  try_caption_follows :
      (u : TextUnit) (e : DocumentElement) (text : Text)
      → Follows counter (try_caption counter u e text) (with_caption count u e text)
  try_caption_follows u e text = Follows-bind counter _ _ _ _ (counts _) (returned _)

  try_add_text_follows :
      (e : DocumentElement) (text : Text) (stream : List Item)
      → Follows counter (try_add_text counter e text stream) (add_text count e text stream)
  unfolding try_add_text add_text
  try_add_text_follows e text [] =
      Follows-bind counter _ _ _ _ (try_unit_follows e text) (returned _)
  try_add_text_follows e text (heading h ∷ older) =
      Follows-bind counter _ _ _ _ (try_unit_follows e text) (returned _)
  try_add_text_follows e text (unit v ∷ older) =
      Follows-if counter (is_caption_of e v) _ _ _ _
        (Follows-bind counter _ _ _ _ (try_caption_follows v e text) (returned _))
        (Follows-bind counter _ _ _ _ (try_unit_follows e text) (returned _))

  try_add_element_follows :
      (stream : List Item) (e : DocumentElement)
      → Follows counter (try_add_element counter stream e) (add_element count stream e)
  unfolding try_add_element add_element
  try_add_element_follows stream e =
      Follows-if counter (is_excluded e.element_type) _ _ _ _ (returned _) (
        Follows-if counter (is_heading e.element_type) _ _ _ _ (returned _)
          (elim (Option-cases (element_text e)) [
            | inl none_there ↦ rw none_there (returned _)
            | inr (text, there) ↦ rw there (try_add_text_follows e text stream)
          ]))

  try_add_elements_follows :
      (stream : List Item) (elements : List DocumentElement)
      → Follows counter
          (try_add_elements counter stream elements)
          (add_elements count stream elements)
  unfolding try_add_elements add_elements
  try_add_elements_follows stream [] = returned stream
  try_add_elements_follows stream (e ∷ rest) =
      Follows-bind counter _ _ _ _ (try_add_element_follows stream e)
        (try_add_elements_follows (add_element count stream e) rest)

  pub try_build_units_follows :
      (elements : List DocumentElement)
      → Follows counter (try_build_units counter elements) (build_units count elements)
  unfolding try_build_units build_units
  try_build_units_follows elements =
      Follows-bind counter _ _ _ _ (try_add_elements_follows [] (sort_elements elements))
        (returned _)

  module _ (sha256 : Text → Text) (locations : List ElementSourceLocation)
      (profile : ChunkProfile) where
    try_draft_follows :
        (number : ℕ) (h : Option Heading) (first : TextUnit) (rest : List TextUnit)
        → Follows counter
            (try_draft counter sha256 locations profile number h first rest)
            (draft_of count sha256 locations profile number h first rest)
    unfolding draft_of
    try_draft_follows number h first rest = Follows-bind counter _ _ _ _ (counts _) (returned _)

    try_close_chunk_follows :
        (s : Progress) (units : List TextUnit)
        → Follows counter
            (try_close_chunk counter sha256 locations profile s units)
            (close_chunk count sha256 locations profile s units)
    unfolding try_close_chunk close_chunk
    try_close_chunk_follows s [] = returned _
    try_close_chunk_follows s (first ∷ rest) =
        Follows-bind counter _ _ _ _ (try_draft_follows (length s.drafts + 1) s.current first rest)
          (returned _)

    try_prefix_tokens_follows :
        (h : Heading)
        → Follows counter
            (try_prefix_tokens counter sha256 locations profile h)
            (prefix_tokens_of count sha256 locations profile h)
    try_prefix_tokens_follows h =
        Follows-if counter (profile.include_section_prefix && not (is_empty h.text)) _ _ _ _
          (counts h.text) (returned _)

    try_take_item_follows :
        (s : Progress) (item : Item)
        → Follows counter
            (try_take_item counter sha256 locations profile s item)
            (take_item count sha256 locations profile s item)
    unfolding try_take_item take_item
    try_take_item_follows s (heading h) =
        Follows-bind counter _ _ _ _ (try_close_chunk_follows s s.buffer)
          (Follows-bind counter _ _ _ _ (try_prefix_tokens_follows h) (returned _))
    try_take_item_follows s (unit u) =
        Follows-if counter (is_full profile s u) _ _ _ _
          (Follows-bind counter _ _ _ _ (try_close_chunk_follows s s.buffer) (returned _))
          (returned _)

    pub try_take_items_follows :
        (s : Progress) (items : List Item)
        → Follows counter
            (try_take_items counter sha256 locations profile s items)
            (take_items count sha256 locations profile s items)
    unfolding try_take_items take_items
    try_take_items_follows s [] = try_close_chunk_follows s s.buffer
    try_take_items_follows s (item ∷ rest) =
        Follows-bind counter _ _ _ _ (try_take_item_follows s item)
          (try_take_items_follows (take_item count sha256 locations profile s item) rest)
