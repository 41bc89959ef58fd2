-- ===== src/Chunking/Counting.antt =====
-- `_build_units` and `build_chunks` of domain/chunk_builder.py with a counter that may raise: what the
-- counter raises ends the whole. The definitions have the branches of Units and Builder, where the
-- counter raises nothing.
use literature_research_agen.Base.{
  ℕ, ◌+◌, ◌&&◌, not, Option, none, some, List, [], ◌∷◌, ◌++◌, map, length, if◌then◌else◌,
}
use literature_research_agen.Run.Errors.{Result, ok}
use literature_research_agen.Runtime.Texts.{Text, is_empty}
use literature_research_agen.Chunking.{
  DocumentElement, ElementSourceLocation, ChunkProfile, get_token_counter, is_excluded, is_heading,
  ◌>>=◌,
}
use literature_research_agen.Chunking.Units.{
  TextUnit, Heading, Item, unit, heading, unit_separator, element_text, text_or_empty,
  sort_elements, is_caption_of, reverse_onto,
}
use literature_research_agen.Chunking.Builder.{
  ChunkDraft, Progress, before_items, draft_text, elements_of, pages_of_all, lowest, highest, id_of,
  overlap_units, is_full, append_unit, nonempty,
}

module _ (counter : Text → Result ℕ) where
  -- A new `_Unit`
  abbrev pub try_unit : DocumentElement → Text → Result TextUnit
  try_unit e text = counter text >>= λ n.
      ok (record { elements = e ∷ []; text = text; tokens = n; section_path = e.section_path })

  -- A caption joins its unit.
  abbrev pub try_caption : TextUnit → DocumentElement → Text → Result TextUnit
  try_caption u e text = counter (u.text ++ (unit_separator ++ text)) >>= λ n. ok (record {
    elements = u.elements ++ e ∷ [];
    text = u.text ++ (unit_separator ++ text);
    tokens = n;
    section_path = u.section_path;
  })

  -- The stream has its newest item first.
  unfoldable pub try_add_text : DocumentElement → Text → List Item → Result (List Item)
  unfolding is_caption_of
  try_add_text e text [] = try_unit e text >>= λ u. ok (unit u ∷ [])
  try_add_text e text (heading h ∷ older) = try_unit e text >>= λ u. ok (unit u ∷ heading h ∷ older)
  try_add_text e text (unit v ∷ older) =
      if is_caption_of e v
      then (try_caption v e text >>= λ w. ok (unit w ∷ older))
      else (try_unit e text >>= λ u. ok (unit u ∷ unit v ∷ older))

  -- A round of the loop.
  unfoldable pub try_add_element : List Item → DocumentElement → Result (List Item)
  unfolding try_add_text element_text
  try_add_element stream e =
      if is_excluded e.element_type
      then ok stream
      else if is_heading e.element_type
      then ok
          (heading (record { text = text_or_empty e.text; section_path = e.section_path }) ∷ stream)
      else with_text (element_text e)
    where
      with_text : Option Text → Result (List Item)
      with_text none = ok stream
      with_text (some text) = try_add_text e text stream

  unfoldable pub try_add_elements : List Item → List DocumentElement → Result (List Item)
  unfolding try_add_element
  try_add_elements stream [] = ok stream
  try_add_elements stream (e ∷ rest) = try_add_element stream e >>= λ s. try_add_elements s rest

  -- `_build_units`
  unfoldable pub try_build_units : List DocumentElement → Result (List Item)
  unfolding sort_elements try_add_elements reverse_onto
  try_build_units elements =
      try_add_elements [] (sort_elements elements) >>= λ stream. ok (reverse_onto stream [])

module _ (counter : Text → Result ℕ) (sha256 : Text → Text) (locations : List ElementSourceLocation)
    (profile : ChunkProfile) where
  abbrev pub try_draft : ℕ → Option Heading → TextUnit → List TextUnit → Result ChunkDraft
  try_draft number h first rest = counter (draft_text profile h (first ∷ rest)) >>= λ n.
      ok (record {
        sequence = number;
        text = draft_text profile h (first ∷ rest);
        token_count = n;
        section_path = first.section_path;
        page_start = lowest (pages_of_all locations (elements_of (first ∷ rest)));
        page_end = highest (pages_of_all locations (elements_of (first ∷ rest)));
        element_ids = map id_of (elements_of (first ∷ rest));
        content_hash = sha256 (draft_text profile h (first ∷ rest));
      })

  -- `if buffer: _close_chunk()`, as the drafts afterwards
  unfoldable pub try_close_chunk : Progress → List TextUnit → Result (List ChunkDraft)
  unfolding draft_text elements_of pages_of_all lowest highest
  try_close_chunk s [] = ok s.drafts
  try_close_chunk s (first ∷ rest) =
      try_draft (length s.drafts + 1) s.current first rest >>= λ d. ok (s.drafts ++ d ∷ [])

  abbrev pub try_prefix_tokens : Heading → Result ℕ
  try_prefix_tokens h =
      if profile.include_section_prefix && not (is_empty h.text) then counter h.text else ok 0

  -- A round of the loop.
  unfoldable pub try_take_item : Progress → Item → Result Progress
  unfolding try_close_chunk overlap_units
  try_take_item s (heading h) = try_close_chunk s s.buffer >>= λ drafts.
      try_prefix_tokens h >>= λ n. ok (record {
        drafts = drafts;
        buffer = [];
        new_units_in_buffer = if nonempty s.buffer then 0 else s.new_units_in_buffer;
        current = some h;
        prefix_tokens = n;
      })
  try_take_item s (unit u) =
      if is_full profile s u
      then (try_close_chunk s s.buffer >>= λ drafts. ok (
          append_unit
            (record {
              drafts = drafts;
              buffer = overlap_units profile.overlap_tokens s.buffer;
              new_units_in_buffer = 0;
              current = s.current;
              prefix_tokens = s.prefix_tokens;
            })
            u))
      else ok (append_unit s u)

  unfoldable pub try_take_items : Progress → List Item → Result (List ChunkDraft)
  unfolding try_take_item try_close_chunk
  try_take_items s [] = try_close_chunk s s.buffer
  try_take_items s (item ∷ rest) = try_take_item s item >>= λ s'. try_take_items s' rest

-- `build_chunks`
unfoldable pub build_chunks :
    (Text → ℕ)
    → (Text → Option (Text → Result ℕ))
    → (Text → Text)
    → List DocumentElement
    → List ElementSourceLocation
    → ChunkProfile
    → Result (List ChunkDraft)
unfolding get_token_counter try_build_units try_take_items
build_chunks words encodings sha256 elements locations profile =
    get_token_counter words encodings profile.tokenizer >>= λ counter.
    try_build_units counter elements >>= λ stream.
    try_take_items counter sha256 locations profile before_items stream
