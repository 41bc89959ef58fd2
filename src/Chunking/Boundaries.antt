-- ===== src/Chunking/Boundaries.antt =====
-- The loop of `build_chunks` yields the chunks of its stream.
use literature_research_agen.Base.{
  ℕ, suc, ◌+◌, ◌≤◌, ◌≡◌, refl, sym, ◌∙◌, ap, subst, ◌⊎◌, inl, inr, Bool, true, false, Option, some,
  List, [], ◌∷◌, ◌++◌, map, length, length-append, append-nil, append_assoc, arith, ltb,
  if◌then◌else◌, Bool-cases,
}
use literature_research_agen.Runtime.Texts.{Text}
use literature_research_agen.Chunking.{ElementSourceLocation, ChunkProfile}
use literature_research_agen.Chunking.Units.{TextUnit, Heading, Item, unit, heading}
use literature_research_agen.Chunking.Builder.{
  ChunkDraft, total_tokens, draft_of, Progress, close_chunk, nonempty, is_full, take_item,
  take_items, overlap_units, carry, reversed,
}
use literature_research_agen.Chunking.Shape.{
  IsLongestTail, whole, end, heading_tokens, EndsBefore, AreChunks, done, section, chunk,
}

reversed_onto : (units onto : List TextUnit) → reversed units onto ≡ reversed units [] ++ onto
unfolding reversed
reversed_onto [] onto = refl
reversed_onto (u ∷ units) onto =
    reversed_onto units (u ∷ onto)
    ∙ sym (append_assoc (reversed units []) (u ∷ []) onto)
    ∙ ap (λ us. us ++ onto) (sym (reversed_onto units (u ∷ [])))

reversed_twice :
    (units onto : List TextUnit) → reversed (reversed units onto) [] ≡ reversed onto units
unfolding reversed
reversed_twice [] onto = refl
reversed_twice (u ∷ units) onto = reversed_twice units (u ∷ onto)

carry_step :
    (limit n : ℕ) (carried : List TextUnit) (u : TextUnit) (older : List TextUnit)
    → n ≡ total_tokens carried
    → carry limit carried n (u ∷ older) ≡ (
        if ltb limit (n + u.tokens)
        then carried
        else carry limit (u ∷ carried) (n + u.tokens) older)
unfolding carry total_tokens
carry_step limit n [] u older q = ground arith
carry_step limit n (v ∷ carried) u older q = ground arith

carry_lem :
    (limit n : ℕ) (carried older : List TextUnit)
    → n ≡ total_tokens carried
    → n ≤ limit
    → IsLongestTail limit (reversed older carried) (carry limit carried n older)
unfolding carry reversed total_tokens
carry_lem limit n carried [] q h = whole carried (omega arith)
carry_lem limit n carried (u ∷ older) q h =
    rw (carry_step limit n carried u older q)
      (decided (ltb limit (n + u.tokens)) refl (carry_lem limit (n + u.tokens) (u ∷ carried) older))
  where
    decided :
        (over : Bool)
        → ltb limit (n + u.tokens) ≡ over
        → (n + u.tokens ≡ u.tokens + total_tokens carried
            → n + u.tokens ≤ limit
            → IsLongestTail limit
                (reversed older (u ∷ carried))
                (carry limit (u ∷ carried) (n + u.tokens) older))
        → IsLongestTail limit
            (reversed older (u ∷ carried))
            (if over then carried else carry limit (u ∷ carried) (n + u.tokens) older)
    decided true e further =
        rw (reversed_onto older (u ∷ carried))
          (end (reversed older []) u carried (omega arith) (ground arith))
    decided false e further = further (omega arith) (ground arith)

-- What `_overlap_units` takes over.
overlap_units-IsLongestTail :
    (limit : ℕ) (buffer : List TextUnit) → IsLongestTail limit buffer (overlap_units limit buffer)
unfolding overlap_units total_tokens reversed
overlap_units-IsLongestTail limit buffer =
    subst (λ us. IsLongestTail limit us (overlap_units limit buffer)) (reversed_twice buffer [])
      (carry_lem limit 0 [] (reversed buffer []) refl (omega arith))

module _ (counter : Text → ℕ) (sha256 : Text → Text) (locations : List ElementSourceLocation)
    (profile : ChunkProfile) where
  abbrev pub at : List ChunkDraft → List TextUnit → ℕ → Option Heading → Progress
  at drafts buffer n h = record {
    drafts = drafts;
    buffer = buffer;
    new_units_in_buffer = n;
    current = h;
    prefix_tokens = heading_tokens counter sha256 locations profile h;
  }

  abbrev pub Fits : Option Heading → List TextUnit → List TextUnit → Type 0
  Fits h carried new =
      (length new ≡ 1)
      ⊎ (heading_tokens counter sha256 locations profile h + total_tokens (carried ++ new)
          ≤ profile.max_tokens)

  -- What the loop adds to the drafts from a state with these items to come.
  abbrev pub Yields :
      Progress → List Item → List ChunkDraft → ℕ → List TextUnit → List Item → Type 0
  Yields s items drafts number carried all =
      (more : List ChunkDraft) × (take_items counter sha256 locations profile s items
        ≡ drafts ++ more)
      × AreChunks counter sha256 locations profile number s.current carried all more

  -- From an empty buffer, and from one with units that are new.
  abbrev pub FromEmpty : List Item → Type 0
  FromEmpty items =
      (drafts : List ChunkDraft) (h : Option Heading) (number : ℕ)
      → number ≡ length drafts + 1
      → Yields (at drafts [] 0 h) items drafts number [] items

  abbrev pub FromNew : List Item → Type 0
  FromNew items =
      (drafts : List ChunkDraft) (h : Option Heading) (number : ℕ) (carried new : List TextUnit)
      → number ≡ length drafts + 1
      → 1 ≤ length new
      → Fits h carried new
      → Yields (at drafts (carried ++ new) (length new) h) items drafts number carried
          (map unit new ++ items)

  abbrev closed : List ChunkDraft → Option Heading → List TextUnit → ℕ → List ChunkDraft
  closed drafts h buffer n =
      close_chunk counter sha256 locations profile (at drafts buffer n h) buffer

  closed_lem :
      (drafts : List ChunkDraft) (h : Option Heading) (number : ℕ) (units : List TextUnit) (n : ℕ)
      → number ≡ length drafts + 1
      → 1 ≤ length units
      → (first : TextUnit) × (rest : List TextUnit) × (first ∷ rest ≡ units)
        × (closed drafts h units n
            ≡ drafts ++ draft_of counter sha256 locations profile number h first rest ∷ [])
  unfolding close_chunk
  closed_lem drafts h number [] n q k = absurd (omega arith)
  closed_lem drafts h number (first ∷ rest) n q k = (first, rest, refl, rw q refl)

  nonempty_new : (carried new : List TextUnit) → 1 ≤ length new → nonempty (carried ++ new) ≡ true
  nonempty_new [] [] n = absurd (omega arith)
  nonempty_new [] (u ∷ new) n = refl
  nonempty_new (v ∷ carried) new n = refl

  -- A chunk is closed, and the loop goes on with `next` as the units to carry.
  closing :
      (drafts : List ChunkDraft) (h : Option Heading) (number : ℕ) (carried new : List TextUnit)
      (next : List TextUnit) (items : List Item) (out : List ChunkDraft)
      → number ≡ length drafts + 1
      → 1 ≤ length new
      → Fits h carried new
      → EndsBefore counter sha256 locations profile h (carried ++ new) items
      → IsLongestTail profile.overlap_tokens (carried ++ new) next
      → (suc number ≡ length (closed drafts h (carried ++ new) (length new)) + 1
          → (more : List ChunkDraft) × (out ≡ closed drafts h (carried ++ new) (length new) ++ more)
            × AreChunks counter sha256 locations profile (suc number) h next items more)
      → (more : List ChunkDraft) × (out ≡ drafts ++ more)
        × AreChunks counter sha256 locations profile number h carried (map unit new ++ items) more
  closing drafts h number carried new next items out q n f e t further =
      let units = carried ++ new in
      let c =
        closed_lem drafts h number units (length new) q
          (omega (arith, length-append carried new)) in
      let d = draft_of counter sha256 locations profile number h c.0 c.1 in
      let r = further (omega (arith, ap length c.3, length-append drafts (d ∷ []))) in
      (
        d ∷ r.0,
        r.1 ∙ ap (λ ds. ds ++ r.0) c.3 ∙ append_assoc drafts (d ∷ []) r.0,
        chunk number h carried new c.0 c.1 next items r.0 c.2 n f e t r.2,
      )

  FromEmpty-heading :
      (g : Heading) (items : List Item) → FromEmpty items → FromEmpty (heading g ∷ items)
  unfolding take_items take_item close_chunk
  FromEmpty-heading g items further drafts h number q =
      let r = further drafts (some g) number q in (r.0, r.1, section number h [] g items r.0 r.2)

  FromEmpty-unit : (u : TextUnit) (items : List Item) → FromNew items → FromEmpty (unit u ∷ items)
  unfolding take_items take_item
  FromEmpty-unit u items further drafts h number q =
      further drafts h number [] (u ∷ []) q (omega arith) (inl refl)

  FromNew-end : FromNew []
  unfolding take_items
  FromNew-end drafts h number carried new q n f =
      closing drafts h number carried new (overlap_units profile.overlap_tokens (carried ++ new)) []
        _ q n f tt (overlap_units-IsLongestTail profile.overlap_tokens (carried ++ new))
        (λ k. ([], sym (append-nil _), done (suc number) h _))

  FromNew-heading :
      (g : Heading) (items : List Item) → FromEmpty items → FromNew (heading g ∷ items)
  unfolding take_items take_item
  FromNew-heading g items further drafts h number carried new q n f =
      closing drafts h number carried new (overlap_units profile.overlap_tokens (carried ++ new))
        (heading g ∷ items) _ q n f tt
        (overlap_units-IsLongestTail profile.overlap_tokens (carried ++ new))
        (λ k.
          let r = further (closed drafts h (carried ++ new) (length new)) (some g) (suc number) k in
          (r.0, rw (nonempty_new carried new n) r.1, section (suc number) h _ g items r.0 r.2))

  -- The test before a unit, with new units in the buffer.
  abbrev is_over : Option Heading → List TextUnit → TextUnit → Bool
  is_over h units u =
      ltb profile.max_tokens
        (heading_tokens counter sha256 locations profile h + total_tokens units + u.tokens)

  is_full_lem :
      (drafts : List ChunkDraft) (h : Option Heading) (carried new : List TextUnit) (u : TextUnit)
      → 1 ≤ length new
      → is_full profile (at drafts (carried ++ new) (length new) h) u ≡ is_over h (carried ++ new) u
  is_full_lem drafts h carried new u n = rw (nonempty_new carried new n) (ground arith)

  total-append :
      (us vs : List TextUnit) → total_tokens (us ++ vs) ≡ total_tokens us + total_tokens vs
  unfolding total_tokens
  total-append [] vs = omega arith
  total-append (u ∷ us) vs = omega (arith, total-append us vs)

  FromNew-unit : (u : TextUnit) (items : List Item) → FromNew items → FromNew (unit u ∷ items)
  unfolding take_items take_item total_tokens
  FromNew-unit u items further drafts h number carried new q n f =
      elim (Bool-cases (is_over h (carried ++ new) u)) [
        | inl full ↦
            rw (is_full_lem drafts h carried new u n, full)
              (closing drafts h number carried new
                (overlap_units profile.overlap_tokens (carried ++ new)) (unit u ∷ items) _ q n f
                (ground arith) (overlap_units-IsLongestTail profile.overlap_tokens (carried ++ new))
                (λ k.
                  further (closed drafts h (carried ++ new) (length new)) h (suc number)
                    (overlap_units profile.overlap_tokens (carried ++ new)) (u ∷ []) k (omega arith)
                    (inl refl)))
        | inr room ↦
            rw (is_full_lem drafts h carried new u n, room)
              (let r =
                  further drafts h number carried (new ++ u ∷ []) q
                    (omega (arith, length-append new (u ∷ []))) (inr (still_fits (ground arith))) in
                (
                  r.0,
                  rw (append_assoc carried new (u ∷ []), sym (length-append new (u ∷ []))) r.1,
                  subst (λ is. AreChunks counter sha256 locations profile number h carried is r.0)
                      (with_new new) r.2,
                ))
      ]
    where
      still_fits :
          heading_tokens counter sha256 locations profile h
              + total_tokens (carried ++ new)
              + u.tokens
            ≤ profile.max_tokens
          → heading_tokens counter sha256 locations profile h
              + total_tokens (carried ++ (new ++ u ∷ []))
            ≤ profile.max_tokens
      still_fits k = omega (
        arith,
        total-append carried new,
        total-append carried (new ++ u ∷ []),
        total-append new (u ∷ []),
      )

      with_new :
          (new : List TextUnit) → map unit (new ++ u ∷ []) ++ items ≡ map unit new ++ unit u ∷ items
      with_new [] = refl
      with_new (v ∷ new) = ap (λ is. unit v ∷ is) (with_new new)

  pub take_items_lem : (items : List Item) → FromEmpty items × FromNew items
  unfolding take_items
  take_items_lem [] =
      (λ drafts h number q. ([], sym (append-nil drafts), done number h []), FromNew-end)
  take_items_lem (heading g ∷ items) =
      let ih = take_items_lem items in
      (FromEmpty-heading g items ih.0, FromNew-heading g items ih.0)
  take_items_lem (unit u ∷ items) =
      let ih = take_items_lem items in (FromEmpty-unit u items ih.1, FromNew-unit u items ih.1)
