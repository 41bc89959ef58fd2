-- ===== src/Chunking/Units.antt =====
-- `_element_text` and `_build_units` of domain/chunk_builder.py, for a counter that raises nothing.
use literature_research_agen.Base.{
  ℕ, ◌&&◌, ◌||◌, Bool, true, false, Option, none, some, List, [], ◌∷◌, ◌++◌, map, ◌==◌, leb,
  if◌then◌else◌, sort_by,
}
use literature_research_agen.Runtime.Texts.{Text}
use literature_research_agen.Chunking.{
  DocumentElement, is_excluded, is_caption_parent, is_heading, is_caption, is_table,
}

-- The code points that `str.strip` removes.
abbrev pub is_space : ℕ → Bool
is_space c =
    (leb 9 c && leb c 13)
    || (leb 28 c && leb c 32)
    || c == 133
    || c == 160
    || c == 5760
    || (leb 8192 c && leb c 8202)
    || c == 8232
    || c == 8233
    || c == 8239
    || c == 8287
    || c == 12288

-- `not text.strip()`
unfoldable pub is_blank : Text → Bool
is_blank [] = true
is_blank (c ∷ rest) = is_space c && is_blank rest

-- `separator.join(texts)`
unfoldable pub join : Text → List Text → Text
join separator [] = []
join separator (t ∷ []) = t
join separator (t ∷ (u ∷ rest)) = t ++ (separator ++ join separator (u ∷ rest))

-- A text unless it is blank.
abbrev pub unless_blank : Text → Option Text → Option Text
unless_blank t other = if is_blank t then other else some t

-- " | " and "\n"
abbrev pub render : List (List Text) → Text
render cells = join (10 ∷ []) (map (join (32 ∷ 124 ∷ 32 ∷ [])) cells)

abbrev pub table_text : Option (List (List Text)) → Option Text
table_text none = none
table_text (some []) = none
table_text (some (row ∷ rows)) = unless_blank (render (row ∷ rows)) none

-- What is left when the text is missing or blank.
abbrev pub other_text : DocumentElement → Option Text
other_text e = if is_table e.element_type then table_text e.cells else none

-- `_element_text`
unfoldable pub element_text : DocumentElement → Option Text
unfolding is_blank join
element_text e = given e.text
  where
    given : Option Text → Option Text
    given none = other_text e
    given (some t) = unless_blank t (other_text e)

-- `_Unit`
pub record TextUnit : Type 0 where
  pub elements : List DocumentElement
  pub text : Text
  pub tokens : ℕ
  pub section_path : Option Text

-- `_Heading`
pub record Heading : Type 0 where
  pub text : Text
  pub section_path : Option Text

pub data Item : Type 0 where
  unit : TextUnit → Item
  heading : Heading → Item

-- `sorted(elements, key=lambda e: e.sequence)`, which is stable.
abbrev pub sequence_leq : DocumentElement → DocumentElement → Bool
sequence_leq d e = leb d.sequence e.sequence

unfoldable pub sort_elements : List DocumentElement → List DocumentElement
unfolding sort_by
sort_elements elements = sort_by sequence_leq elements

-- "\n\n"
abbrev pub unit_separator : Text
unit_separator = 10 ∷ 10 ∷ []

abbrev pub text_or_empty : Option Text → Text
text_or_empty none = []
text_or_empty (some t) = t

-- One of the elements is the parent, and a table or a figure.
unfoldable pub has_caption_parent : ℕ → List DocumentElement → Bool
has_caption_parent parent [] = false
has_caption_parent parent (e ∷ rest) =
    (e.element_id == parent && is_caption_parent e.element_type) || has_caption_parent parent rest

-- The element is a caption of the unit.
unfoldable pub is_caption_of : DocumentElement → TextUnit → Bool
unfolding has_caption_parent
is_caption_of e u = is_caption e.element_type && parent_in e.parent_element_id
  where
    parent_in : Option ℕ → Bool
    parent_in none = false
    parent_in (some parent) = has_caption_parent parent u.elements

unfoldable pub reverse_onto : List Item → List Item → List Item
reverse_onto [] done = done
reverse_onto (x ∷ rest) done = reverse_onto rest (x ∷ done)

module _ (counter : Text → ℕ) where
  abbrev pub unit_of : DocumentElement → Text → TextUnit
  unit_of e text = record {
    elements = e ∷ [];
    text = text;
    tokens = counter text;
    section_path = e.section_path;
  }

  abbrev pub with_caption : TextUnit → DocumentElement → Text → TextUnit
  with_caption u e text = record {
    elements = u.elements ++ e ∷ [];
    text = u.text ++ (unit_separator ++ text);
    tokens = counter (u.text ++ (unit_separator ++ text));
    section_path = u.section_path;
  }

  -- The stream has its newest item first.
  unfoldable pub add_text : DocumentElement → Text → List Item → List Item
  unfolding is_caption_of
  add_text e text [] = unit (unit_of e text) ∷ []
  add_text e text (heading h ∷ older) = unit (unit_of e text) ∷ heading h ∷ older
  add_text e text (unit u ∷ older) =
      if is_caption_of e u
      then unit (with_caption u e text) ∷ older
      else unit (unit_of e text) ∷ unit u ∷ older

  -- A round of the loop.
  unfoldable pub add_element : List Item → DocumentElement → List Item
  unfolding add_text element_text
  add_element stream e =
      if is_excluded e.element_type
      then stream
      else if is_heading e.element_type
      then heading (record { text = text_or_empty e.text; section_path = e.section_path }) ∷ stream
      else with_text (element_text e)
    where
      with_text : Option Text → List Item
      with_text none = stream
      with_text (some text) = add_text e text stream

  unfoldable pub add_elements : List Item → List DocumentElement → List Item
  unfolding add_element
  add_elements stream [] = stream
  add_elements stream (e ∷ rest) = add_elements (add_element stream e) rest

  -- `_build_units`
  unfoldable pub build_units : List DocumentElement → List Item
  unfolding sort_elements add_elements reverse_onto
  build_units elements = reverse_onto (add_elements [] (sort_elements elements)) []
