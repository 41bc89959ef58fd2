-- ===== src/Chunking/Shape.antt =====
-- An independent description of the chunks of a stream of units and headings.
use literature_research_agen.Base.{
  ℕ, suc, ◌+◌, ◌≤◌, ◌<◌, ◌≡◌, ◌⊎◌, Option, none, some, List, [], ◌∷◌, ◌++◌, map, length,
}
use literature_research_agen.Runtime.Texts.{Text}
use literature_research_agen.Chunking.{ElementSourceLocation, ChunkProfile}
use literature_research_agen.Chunking.Units.{TextUnit, Heading, Item, unit, heading}
use literature_research_agen.Chunking.Builder.{ChunkDraft, total_tokens, draft_of, prefix_tokens_of}

-- `tail` is the longest end of `units` with at most `limit` tokens.
pub data IsLongestTail (limit : ℕ) : List TextUnit → List TextUnit → Type 0 where
  whole : (tail : List TextUnit) → total_tokens tail ≤ limit → IsLongestTail limit tail tail
  end :
      (before : List TextUnit) (u : TextUnit) (tail : List TextUnit)
      → total_tokens tail ≤ limit
      → limit < total_tokens (u ∷ tail)
      → IsLongestTail limit (before ++ u ∷ tail) tail

module _ (counter : Text → ℕ) (sha256 : Text → Text) (locations : List ElementSourceLocation)
    (profile : ChunkProfile) where
  abbrev pub heading_tokens : Option Heading → ℕ
  heading_tokens none = 0
  heading_tokens (some h) = prefix_tokens_of counter sha256 locations profile h

  -- A chunk ends at the end of the stream, before a heading, or before a unit that has no room in it.
  abbrev pub EndsBefore : Option Heading → List TextUnit → List Item → Type 0
  EndsBefore h units [] = Unit
  EndsBefore h units (heading g ∷ rest) = Unit
  EndsBefore h units (unit u ∷ rest) =
      profile.max_tokens < heading_tokens h + total_tokens units + u.tokens

  -- The chunks from `number` on, for the items that are left: `h` is the heading in force, and
  -- `carried` are the units of the previous chunk with which the next one starts.
  pub data AreChunks
      : ℕ → Option Heading → List TextUnit → List Item → List ChunkDraft → Type 0 where
    done :
        (number : ℕ) (h : Option Heading) (carried : List TextUnit)
        → AreChunks number h carried [] []
    section :
        (number : ℕ) (h : Option Heading) (carried : List TextUnit) (g : Heading)
        (items : List Item) (drafts : List ChunkDraft)
        → AreChunks number (some g) [] items drafts
        → AreChunks number h carried (heading g ∷ items) drafts
    chunk :
        (number : ℕ) (h : Option Heading) (carried : List TextUnit) (new : List TextUnit)
        (first : TextUnit) (rest next : List TextUnit) (items : List Item)
        (drafts : List ChunkDraft)
        → first ∷ rest ≡ carried ++ new
        → 1 ≤ length new
        → (length new ≡ 1) ⊎ (heading_tokens h + total_tokens (carried ++ new) ≤ profile.max_tokens)
        → EndsBefore h (carried ++ new) items
        → IsLongestTail profile.overlap_tokens (carried ++ new) next
        → AreChunks (suc number) h next items drafts
        → AreChunks number h carried
            (map unit new ++ items)
            (draft_of counter sha256 locations profile number h first rest ∷ drafts)
