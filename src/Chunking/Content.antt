-- ===== src/Chunking/Content.antt =====
-- The stream of units has the whole content of the document.
use literature_research_agen.Base.{
  ℕ, ◌≤◌, ◌≡◌, refl, sym, ◌∙◌, ap, Bool, true, false, not, ◌&&◌, inl, inr, some, List, [], ◌∷◌,
  ◌++◌, map, arith, if◌then◌else◌, Bool-cases, Option-cases, is_some, All, count_where, length,
  length-append, append-nil, append_assoc, IsSortedBy, sort_by-IsSortedBy, count-sort_by,
}
use literature_research_agen.Runtime.Texts.{Text}
use literature_research_agen.Chunking.{DocumentElement, is_excluded, is_heading}
use literature_research_agen.Chunking.Units.{
  join, element_text, TextUnit, Item, unit, heading, sequence_leq, sort_elements, unit_separator,
  is_caption_of, add_text, add_element, add_elements, reverse_onto, build_units, with_caption,
  unit_of, text_or_empty,
}
use literature_research_agen.Chunking.Builder.{elements_of}

-- An element with a text of its own, which is neither a heading nor a page header or footer.
abbrev pub is_content : DocumentElement → Bool
is_content e =
    not (is_excluded e.element_type) && not (is_heading e.element_type) && is_some (element_text e)

unfoldable pub content_of : List DocumentElement → List DocumentElement
content_of [] = []
content_of (e ∷ rest) = if is_content e then e ∷ content_of rest else content_of rest

abbrev pub element_text_or_empty : DocumentElement → Text
element_text_or_empty e = text_or_empty (element_text e)

-- The units of a stream, without the headings.
unfoldable pub units_of : List Item → List TextUnit
units_of [] = []
units_of (unit u ∷ rest) = u ∷ units_of rest
units_of (heading h ∷ rest) = units_of rest

-- The same of a stream with the newest item first.
unfoldable newest_units : List Item → List DocumentElement
newest_units [] = []
newest_units (unit u ∷ older) = newest_units older ++ u.elements
newest_units (heading h ∷ older) = newest_units older

pub map-append {ℓ κ} :
    {A : Type ℓ} {B : Type κ} (f : A → B) (xs ys : List A) → map f (xs ++ ys) ≡ map f xs ++ map f ys
map-append f [] ys = refl
map-append f (x ∷ xs) ys = ap (λ zs. f x ∷ zs) (map-append f xs ys)

length-map {ℓ κ} :
    {A : Type ℓ} {B : Type κ} (f : A → B) (xs : List A) → length (map f xs) ≡ length xs
length-map f [] = refl
length-map f (x ∷ xs) = omega (arith, length-map f xs)

elements_of-reverse_onto :
    (older done : List Item)
    → elements_of (units_of (reverse_onto older done))
      ≡ newest_units older ++ elements_of (units_of done)
unfolding reverse_onto newest_units units_of elements_of
elements_of-reverse_onto [] done = refl
elements_of-reverse_onto (unit u ∷ older) done =
    elements_of-reverse_onto older (unit u ∷ done)
    ∙ sym (append_assoc (newest_units older) u.elements (elements_of (units_of done)))
elements_of-reverse_onto (heading h ∷ older) done =
    elements_of-reverse_onto older (heading h ∷ done)

module _ (counter : Text → ℕ) where
  -- The tokens of a unit are those of its text, which is made of the texts of its elements.
  abbrev pub IsWhole : TextUnit → Type 0
  IsWhole u =
      (u.tokens ≡ counter u.text)
      × (u.text ≡ join unit_separator (map element_text_or_empty u.elements))
      × (1 ≤ length u.elements)

  add_text_lem :
      (e : DocumentElement) (text : Text) (stream : List Item)
      → newest_units (add_text counter e text stream) ≡ newest_units stream ++ e ∷ []
  unfolding add_text newest_units
  add_text_lem e text [] = refl
  add_text_lem e text (heading h ∷ older) = refl
  add_text_lem e text (unit u ∷ older) = elim (Bool-cases (is_caption_of e u)) [
    | inl joins ↦ rw joins (sym (append_assoc (newest_units older) u.elements (e ∷ [])))
    | inr apart ↦ rw apart refl
  ]

  add_element_lem :
      (stream : List Item) (e : DocumentElement)
      → newest_units (add_element counter stream e)
        ≡ newest_units stream ++ (if is_content e then e ∷ [] else [])
  unfolding add_element newest_units
  add_element_lem stream e = elim (Option-cases (element_text e)) [
    | inl missing ↦ rw missing (ground (arith, append-nil (newest_units stream)))
    | inr (text, found) ↦
        rw found (ground (arith, append-nil (newest_units stream), add_text_lem e text stream))
  ]

  add_elements_lem :
      (stream : List Item) (es : List DocumentElement)
      → newest_units (add_elements counter stream es) ≡ newest_units stream ++ content_of es
  unfolding add_elements content_of
  add_elements_lem stream [] = sym (append-nil (newest_units stream))
  add_elements_lem stream (e ∷ rest) =
      add_elements_lem (add_element counter stream e) rest
      ∙ ap (λ es. es ++ content_of rest) (add_element_lem stream e)
      ∙ append_assoc (newest_units stream) (if is_content e then e ∷ [] else []) (content_of rest)
      ∙ ap (λ es. newest_units stream ++ es) (one_more (is_content e))
    where
      one_more :
          (b : Bool)
          → (if b then e ∷ [] else []) ++ content_of rest
            ≡ (if b then e ∷ content_of rest else content_of rest)
      one_more true = refl
      one_more false = refl

  join-append :
      (separator t : Text) (ts : List Text)
      → 1 ≤ length ts
      → join separator (ts ++ t ∷ []) ≡ join separator ts ++ (separator ++ t)
  unfolding join
  join-append separator t [] h = absurd (omega arith)
  join-append separator t (u ∷ []) h = refl
  join-append separator t (u ∷ (v ∷ ts)) h =
      ap (λ s. u ++ (separator ++ s)) (join-append separator t (v ∷ ts) (omega arith))
      ∙ ap (λ s. u ++ s) (sym (append_assoc separator (join separator (v ∷ ts)) (separator ++ t)))
      ∙ sym (append_assoc u (separator ++ join separator (v ∷ ts)) (separator ++ t))

  with_caption-IsWhole :
      (u : TextUnit) (e : DocumentElement) (text : Text)
      → element_text e ≡ some text
      → IsWhole u
      → IsWhole (with_caption counter u e text)
  with_caption-IsWhole u e text found h = (
    refl,
    rw (map-append element_text_or_empty u.elements (e ∷ []), found, h.1)
        (sym (
          join-append unit_separator text (map element_text_or_empty u.elements)
            (rw (length-map element_text_or_empty u.elements) h.2))),
    omega (arith, length-append u.elements (e ∷ [])),
  )

  unit_of-IsWhole :
      (e : DocumentElement) (text : Text)
      → element_text e ≡ some text
      → IsWhole (unit_of counter e text)
  unfolding join
  unit_of-IsWhole e text found = (refl, rw found refl, omega arith)

  add_text-IsWhole :
      (e : DocumentElement) (text : Text) (stream : List Item)
      → element_text e ≡ some text
      → All IsWhole (units_of stream)
      → All IsWhole (units_of (add_text counter e text stream))
  unfolding add_text units_of
  add_text-IsWhole e text [] found h = (unit_of-IsWhole e text found, tt)
  add_text-IsWhole e text (heading g ∷ older) found h = (unit_of-IsWhole e text found, h)
  add_text-IsWhole e text (unit u ∷ older) found h = elim (Bool-cases (is_caption_of e u)) [
    | inl joins ↦ rw joins (with_caption-IsWhole u e text found h.0, h.1)
    | inr apart ↦ rw apart (unit_of-IsWhole e text found, h)
  ]

  add_element-IsWhole :
      (stream : List Item) (e : DocumentElement)
      → All IsWhole (units_of stream)
      → All IsWhole (units_of (add_element counter stream e))
  unfolding add_element units_of
  add_element-IsWhole stream e h = elim (Bool-cases (is_excluded e.element_type)) [
    | inl out ↦ rw out h
    | inr kept ↦ rw kept (elim (Bool-cases (is_heading e.element_type)) [
      | inl head ↦ rw head h
      | inr no_head ↦ rw no_head (elim (Option-cases (element_text e)) [
        | inl missing ↦ rw missing h
        | inr (text, found) ↦ rw found (add_text-IsWhole e text stream found h)
      ])
    ])
  ]

  add_elements-IsWhole :
      (stream : List Item) (es : List DocumentElement)
      → All IsWhole (units_of stream)
      → All IsWhole (units_of (add_elements counter stream es))
  unfolding add_elements
  add_elements-IsWhole stream [] h = h
  add_elements-IsWhole stream (e ∷ rest) h =
      add_elements-IsWhole (add_element counter stream e) rest (add_element-IsWhole stream e h)

  reverse_onto-IsWhole :
      (older done : List Item)
      → All IsWhole (units_of older)
      → All IsWhole (units_of done)
      → All IsWhole (units_of (reverse_onto older done))
  unfolding reverse_onto units_of
  reverse_onto-IsWhole [] done h k = k
  reverse_onto-IsWhole (unit u ∷ older) done h k =
      reverse_onto-IsWhole older (unit u ∷ done) h.1 (h.0, k)
  reverse_onto-IsWhole (heading g ∷ older) done h k =
      reverse_onto-IsWhole older (heading g ∷ done) h k

sequence_leq_total : (d e : DocumentElement) → sequence_leq d e ≡ false → sequence_leq e d ≡ true
sequence_leq_total d e h = ground arith

sequence_leq_trans :
    (d e f : DocumentElement)
    → sequence_leq d e ≡ true
    → sequence_leq e f ≡ true
    → sequence_leq d f ≡ true
sequence_leq_trans d e f h k = ground arith

-- The units of `_build_units` have the elements with content, each once, in the order of their
-- numbers, and no others; a unit has at least one, its text is made of theirs, and its tokens are
-- counted from its text. The order is that of a sorted list with the elements that were given.
pub build_units_complete :
    (counter : Text → ℕ) (elements : List DocumentElement)
    → (elements_of (units_of (build_units counter elements)) ≡ content_of (sort_elements elements))
      × All (IsWhole counter) (units_of (build_units counter elements))
      × IsSortedBy sequence_leq (sort_elements elements)
      × ((p : DocumentElement → Bool)
          → count_where p (sort_elements elements) ≡ count_where p elements)
unfolding build_units sort_elements units_of elements_of newest_units
build_units_complete counter elements = (
  elements_of-reverse_onto (add_elements counter [] (sort_elements elements)) []
      ∙ append-nil (newest_units (add_elements counter [] (sort_elements elements)))
      ∙ add_elements_lem counter [] (sort_elements elements),
  reverse_onto-IsWhole counter (add_elements counter [] (sort_elements elements)) []
      (add_elements-IsWhole counter [] (sort_elements elements) tt) tt,
  sort_by-IsSortedBy sequence_leq sequence_leq_total sequence_leq_trans elements,
  λ p. count-sort_by sequence_leq p elements,
)
