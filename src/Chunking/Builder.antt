-- ===== src/Chunking/Builder.antt =====
-- The loop of `build_chunks` of domain/chunk_builder.py, for a counter that raises nothing.
use literature_research_agen.Base.{
  ℕ, ◌+◌, ◌&&◌, Bool, true, false, not, Option, none, some, List, [], ◌∷◌, ◌++◌, map, length, ◌==◌,
  ltb, if◌then◌else◌, min, max,
}
use literature_research_agen.Runtime.Texts.{Text, is_empty}
use literature_research_agen.Chunking.{DocumentElement, ElementSourceLocation, ChunkProfile}
use literature_research_agen.Chunking.Units.{
  join, TextUnit, Heading, Item, unit, heading, unit_separator,
}

pub record ChunkDraft : Type 0 where
  pub sequence : ℕ
  pub text : Text
  pub token_count : ℕ
  pub section_path : Option Text
  pub page_start : Option ℕ
  pub page_end : Option ℕ
  pub element_ids : List ℕ
  pub content_hash : Text

unfoldable pub total_tokens : List TextUnit → ℕ
total_tokens [] = 0
total_tokens (u ∷ rest) = u.tokens + total_tokens rest

-- The elements of the units, in order.
unfoldable pub elements_of : List TextUnit → List DocumentElement
elements_of [] = []
elements_of (u ∷ rest) = u.elements ++ elements_of rest

abbrev pub id_of : DocumentElement → ℕ
id_of e = e.element_id

abbrev pub text_of : TextUnit → Text
text_of u = u.text

-- `pages_by_element.get(element_id, [])`
unfoldable pub pages_of : List ElementSourceLocation → ℕ → List ℕ
pages_of [] id = []
pages_of (l ∷ rest) id =
    let others = pages_of rest id in if l.element_id == id then l.page ∷ others else others

unfoldable pub pages_of_all : List ElementSourceLocation → List DocumentElement → List ℕ
unfolding pages_of
pages_of_all locations [] = []
pages_of_all locations (e ∷ rest) = pages_of locations e.element_id ++ pages_of_all locations rest

-- `min(pages) if pages else None`, and likewise for `max`
unfoldable pub lowest : List ℕ → Option ℕ
lowest [] = none
lowest (p ∷ rest) = elim (lowest rest) [ none ↦ some p | some q ↦ some (min p q) ]

unfoldable pub highest : List ℕ → Option ℕ
highest [] = none
highest (p ∷ rest) = elim (highest rest) [ none ↦ some p | some q ↦ some (max p q) ]

abbrev pub nonempty : List TextUnit → Bool
nonempty [] = false
nonempty (u ∷ rest) = true

-- `_overlap_units`: `older` are the units of the buffer that are still to come, the last one first.
unfoldable pub carry : ℕ → List TextUnit → ℕ → List TextUnit → List TextUnit
carry limit carried carried_tokens [] = carried
carry limit carried carried_tokens (u ∷ older) =
    let further = carry limit (u ∷ carried) (carried_tokens + u.tokens) older in
    if nonempty carried && ltb limit (carried_tokens + u.tokens)
    then carried
    else if not (nonempty carried) && ltb limit u.tokens
    then carried
    else further

unfoldable pub reversed : List TextUnit → List TextUnit → List TextUnit
reversed [] done = done
reversed (u ∷ rest) done = reversed rest (u ∷ done)

unfoldable pub overlap_units : ℕ → List TextUnit → List TextUnit
unfolding carry reversed
overlap_units limit buffer = carry limit [] 0 (reversed buffer [])

-- The variables of the loop.
pub record Progress : Type 0 where
  pub drafts : List ChunkDraft
  pub buffer : List TextUnit
  pub new_units_in_buffer : ℕ
  pub current : Option Heading
  pub prefix_tokens : ℕ

abbrev pub before_items : Progress
before_items = record {
  drafts = [];
  buffer = [];
  new_units_in_buffer = 0;
  current = none;
  prefix_tokens = 0;
}

abbrev pub append_unit : Progress → TextUnit → Progress
append_unit s u = record {
  drafts = s.drafts;
  buffer = s.buffer ++ u ∷ [];
  new_units_in_buffer = s.new_units_in_buffer + 1;
  current = s.current;
  prefix_tokens = s.prefix_tokens;
}

module _ (profile : ChunkProfile) where
  -- The text with the heading in front, where the profile asks for it.
  unfoldable pub with_heading : Option Heading → Text → Text
  with_heading none body = body
  with_heading (some h) body =
      if profile.include_section_prefix && not (is_empty h.text)
      then h.text ++ (unit_separator ++ body)
      else body

  unfoldable pub draft_text : Option Heading → List TextUnit → Text
  unfolding with_heading join
  draft_text h units = with_heading h (join unit_separator (map text_of units))

  abbrev pub is_full : Progress → TextUnit → Bool
  is_full s u =
      nonempty s.buffer
      && ltb 0 s.new_units_in_buffer
      && ltb profile.max_tokens (s.prefix_tokens + total_tokens s.buffer + u.tokens)

module _ (counter : Text → ℕ) (sha256 : Text → Text) (locations : List ElementSourceLocation)
    (profile : ChunkProfile) where
  -- The draft of a buffer that has the unit `first` in front.
  unfoldable pub draft_of : ℕ → Option Heading → TextUnit → List TextUnit → ChunkDraft
  unfolding draft_text elements_of pages_of_all lowest highest
  draft_of number h first rest = record {
    sequence = number;
    text = draft_text profile h (first ∷ rest);
    token_count = counter (draft_text profile h (first ∷ rest));
    section_path = first.section_path;
    page_start = lowest (pages_of_all locations (elements_of (first ∷ rest)));
    page_end = highest (pages_of_all locations (elements_of (first ∷ rest)));
    element_ids = map id_of (elements_of (first ∷ rest));
    content_hash = sha256 (draft_text profile h (first ∷ rest));
  }

  -- `if buffer: _close_chunk()`, as the drafts afterwards
  unfoldable pub close_chunk : Progress → List TextUnit → List ChunkDraft
  unfolding draft_of
  close_chunk s [] = s.drafts
  close_chunk s (first ∷ rest) =
      s.drafts ++ draft_of (length s.drafts + 1) s.current first rest ∷ []

  abbrev pub prefix_tokens_of : Heading → ℕ
  prefix_tokens_of h =
      if profile.include_section_prefix && not (is_empty h.text) then counter h.text else 0

  -- The chunk is closed, and its last units start the next one.
  abbrev pub carry_on : Progress → Progress
  carry_on s = record {
    drafts = close_chunk s s.buffer;
    buffer = overlap_units profile.overlap_tokens s.buffer;
    new_units_in_buffer = 0;
    current = s.current;
    prefix_tokens = s.prefix_tokens;
  }

  -- A round of the loop.
  unfoldable pub take_item : Progress → Item → Progress
  unfolding close_chunk overlap_units total_tokens
  take_item s (heading h) = record {
    drafts = close_chunk s s.buffer;
    buffer = [];
    new_units_in_buffer = if nonempty s.buffer then 0 else s.new_units_in_buffer;
    current = some h;
    prefix_tokens = prefix_tokens_of h;
  }
  take_item s (unit u) = if is_full profile s u then append_unit (carry_on s) u else append_unit s u

  unfoldable pub take_items : Progress → List Item → List ChunkDraft
  unfolding take_item close_chunk
  take_items s [] = close_chunk s s.buffer
  take_items s (item ∷ rest) = take_items (take_item s item) rest
