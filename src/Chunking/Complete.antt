-- ===== src/Chunking/Complete.antt =====
-- What `build_chunks` returns.
use literature_research_agen.Base.{
  ℕ, suc, ◌≡◌, refl, sym, ◌∙◌, ap, Option, none, some, List, [], ◌∷◌, ◌++◌, map, length, drop,
  append_assoc, ◌⊎◌, inl, inr,
}
use literature_research_agen.Run.Errors.{Error, Result, ok, err}
use literature_research_agen.Runtime.Texts.{Text}
use literature_research_agen.Chunking.{
  DocumentElement, ElementSourceLocation, ChunkProfile, get_token_counter,
}
use literature_research_agen.Chunking.Units.{
  TextUnit, Heading, Item, unit, build_units, sort_elements,
}
use literature_research_agen.Chunking.Builder.{
  ChunkDraft, elements_of, id_of, draft_of, take_items, before_items,
}
use literature_research_agen.Chunking.Counting.{build_chunks}
use literature_research_agen.Chunking.Follows.{
  Follows, returned, raised, Follows-bind, IsCount, try_build_units_follows, try_take_items_follows,
}
use literature_research_agen.Chunking.Content.{
  content_of, units_of, map-append, build_units_complete,
}
use literature_research_agen.Chunking.Shape.{AreChunks, done, section, chunk}
use literature_research_agen.Chunking.Boundaries.{take_items_lem}

-- The element ids of the drafts, less the first ones of each: `overlaps` says how many.
unfoldable pub rejoin : List ℕ → List ChunkDraft → List ℕ
rejoin overlaps [] = []
rejoin [] (d ∷ drafts) = d.element_ids ++ rejoin [] drafts
rejoin (n ∷ overlaps) (d ∷ drafts) = drop n d.element_ids ++ rejoin overlaps drafts

abbrev ids_of : List TextUnit → List ℕ
ids_of units = map id_of (elements_of units)

elements_of-append :
    (us vs : List TextUnit) → elements_of (us ++ vs) ≡ elements_of us ++ elements_of vs
unfolding elements_of
elements_of-append [] vs = refl
elements_of-append (u ∷ us) vs =
    ap (λ es. u.elements ++ es) (elements_of-append us vs)
    ∙ sym (append_assoc u.elements (elements_of us) (elements_of vs))

ids_of-append : (us vs : List TextUnit) → ids_of (us ++ vs) ≡ ids_of us ++ ids_of vs
ids_of-append us vs =
    ap (map id_of) (elements_of-append us vs) ∙ map-append id_of (elements_of us) (elements_of vs)

drop-length {ℓ} : {A : Type ℓ} (xs ys : List A) → drop (length xs) (xs ++ ys) ≡ ys
drop-length [] ys = refl
drop-length (x ∷ xs) ys = drop-length xs ys

units_of-append :
    (new : List TextUnit) (items : List Item)
    → units_of (map unit new ++ items) ≡ new ++ units_of items
unfolding units_of
units_of-append [] items = refl
units_of-append (u ∷ new) items = ap (λ us. u ∷ us) (units_of-append new items)

module _ (counter : Text → ℕ) (sha256 : Text → Text) (locations : List ElementSourceLocation)
    (profile : ChunkProfile) where
  rejoin_lem :
      (number : ℕ) (h : Option Heading) (carried : List TextUnit) (items : List Item)
      (drafts : List ChunkDraft)
      → AreChunks counter sha256 locations profile number h carried items drafts
      → (overlaps : List ℕ) × (rejoin overlaps drafts ≡ ids_of (units_of items))
  unfolding rejoin units_of elements_of draft_of
  rejoin_lem number h carried _ _ (done _ _ _) = ([], refl)
  rejoin_lem number h carried _ _ (section _ _ _ g items drafts more) =
      rejoin_lem number (some g) [] items drafts more
  rejoin_lem number h carried _ _ (chunk _ _ _ new first rest next items drafts q n f e t more) =
      let ih = rejoin_lem (suc number) h next items drafts more in
      (
        length (ids_of carried) ∷ ih.0,
        ap (λ ids. drop (length (ids_of carried)) ids ++ rejoin ih.0 drafts)
              (ap ids_of q ∙ ids_of-append carried new)
            ∙ ap (λ ids. ids ++ rejoin ih.0 drafts) (drop-length (ids_of carried) (ids_of new))
            ∙ ap (λ ids. ids_of new ++ ids) ih.1
            ∙ sym (ids_of-append new (units_of items))
            ∙ ap ids_of (sym (units_of-append new items)),
      )

-- The counts of a counter, and zero where it raises.
abbrev count_in : Result ℕ → ℕ
count_in (ok n) = n
count_in (err e) = 0

abbrev count_of : (Text → Result ℕ) → Text → ℕ
count_of counter t = count_in (counter t)

count_of-IsCount : (counter : Text → Result ℕ) → IsCount counter (count_of counter)
count_of-IsCount counter t n q = ap count_in q

outcome :
    {A : Type 0} (counter : Text → Result ℕ) (m : Result A) (a : A)
    → Follows counter m a
    → (m ≡ ok a) ⊎ ((t : Text) × (e : Error) × (counter t ≡ err e) × (m ≡ err e))
outcome counter _ _ (returned a) = inl refl
outcome counter _ _ (raised t e a q) = inr (t, e, q, refl)

module _ (words : Text → ℕ) (encodings : Text → Option (Text → Result ℕ)) (sha256 : Text → Text)
    (elements : List DocumentElement) (locations : List ElementSourceLocation)
    (profile : ChunkProfile) (counter : Text → Result ℕ)
    (known : get_token_counter words encodings profile.tokenizer ≡ ok counter) where
  -- The run ends with what the counter raises for some text.
  abbrev pub CounterRaises : Type 0
  CounterRaises =
      (t : Text) × (e : Error) × (counter t ≡ err e)
      × (build_chunks words encodings sha256 elements locations profile ≡ err e)

  build_chunks_outcome :
      (count : Text → ℕ)
      → IsCount counter count
      → (build_chunks words encodings sha256 elements locations profile
          ≡ ok
              (take_items count sha256 locations profile before_items (build_units count elements)))
        ⊎ CounterRaises
  unfolding build_chunks
  build_chunks_outcome count counted = rw known (
      outcome counter _ _ (
        Follows-bind counter _ _ _ _ (try_build_units_follows counter count counted elements) (
          try_take_items_follows counter count counted sha256 locations profile before_items
            (build_units count elements))))

  -- With a tokenizer that is known, `build_chunks` either ends with what the counter raises for
  -- some text, or returns the chunks of its stream: numbered from 1, under the heading in force,
  -- each made of the end that it carries over from the chunk before and of at least one new unit.
  -- The carried end is the longest one whose units have together at most the tokens of the
  -- overlap, and there is none after a heading. Where a chunk has more than one new unit, the
  -- tokens of its heading and of its units, each counted by itself, are together within the
  -- maximum; a chunk ends only at a heading, at the end, or before a unit with which they would
  -- not be. `count` may be any function that has the counts of the counter where it raises
  -- nothing.
  pub build_chunks_shape :
      (count : Text → ℕ)
      → IsCount counter count
      → ((drafts : List ChunkDraft) × (build_chunks words encodings sha256 elements locations
              profile
            ≡ ok drafts)
          × AreChunks count sha256 locations profile 1 none [] (build_units count elements) drafts)
        ⊎ CounterRaises
  build_chunks_shape count counted = elim (build_chunks_outcome count counted) [
    | inr raising ↦ inr raising
    | inl q ↦
        let r =
          (take_items_lem count sha256 locations profile (build_units count elements)).0 [] none 1
            refl in
        inl (r.0, q ∙ ap ok r.1, r.2)
  ]

  -- With a tokenizer that is known, `build_chunks` either ends with what the counter raises for
  -- some text, or returns drafts from which the document can be put together again: dropping from
  -- each draft some number of its first elements leaves the elements with content, each once and
  -- in the order of their numbers.
  pub rejoin-build_chunks :
      ((drafts : List ChunkDraft) × (build_chunks words encodings sha256 elements locations profile
          ≡ ok drafts)
        × (overlaps : List ℕ) × (rejoin overlaps drafts
            ≡ map id_of (content_of (sort_elements elements))))
      ⊎ CounterRaises
  rejoin-build_chunks = elim (build_chunks_shape (count_of counter) (count_of-IsCount counter)) [
    | inr raising ↦ inr raising
    | inl s ↦
        let r =
          rejoin_lem (count_of counter) sha256 locations profile 1 none []
            (build_units (count_of counter) elements) s.0 s.2 in
        inl
          (s.0, s.1, r.0, r.1 ∙ ap (map id_of) (build_units_complete (count_of counter) elements).0)
  ]
