-- ===== src/History/Page.antt =====
-- What a reader of a run's events is given, page by page.
use literature_research_agen.Base.{
  ℕ, suc, ◌+◌, ◌≤◌, ◌≡◌, refl, sym, ◌∙◌, ap, subst, Bool, ◌&&◌, Option, none, some, List, [], ◌∷◌,
  take, drop, arith, ltb, select_where, find_row, zero,
}
use literature_research_agen.Run.{Run}
use literature_research_agen.Event.{Event}
use literature_research_agen.Db.{Db}
use literature_research_agen.Db.Runs.{run_key}
use literature_research_agen.Db.Events.{of_run, insert_by_sequence, order_by_sequence, list_after}
use literature_research_agen.History.Replay.{Numbered}
use literature_research_agen.History.Sound.{Faithful, IsLogged}

select_where-and :
    (p q : Event → Bool) (es : List Event)
    → select_where (λ e. p e && q e) es ≡ select_where q (select_where p es)
unfolding select_where
select_where-and p q [] = refl
select_where-and p q (e ∷ es) = ground (arith, select_where-and p q es)

select-all :
    (after n : ℕ) (log : List Event)
    → Numbered n log
    → suc after ≤ n
    → select_where (λ e. ltb after e.sequence) log ≡ log
unfolding select_where
select-all after n [] h past = refl
select-all after n (e ∷ es) h past = ground (arith, select-all after (suc n) es h.1)

-- The events past a cursor are those behind it in a numbered log.
select-after :
    (after k n : ℕ) (log : List Event)
    → Numbered n log
    → suc after ≡ k + n
    → select_where (λ e. ltb after e.sequence) log ≡ drop k log
unfolding select_where
select-after after zero n log h q = select-all after n log h (omega arith)
select-after after (suc k) n [] h q = refl
select-after after (suc k) n (e ∷ es) h q = ground (arith, select-after after k (suc n) es h.1)

insert_by_sequence-first :
    (e : Event) (es : List Event) → Numbered (suc e.sequence) es → insert_by_sequence e es ≡ e ∷ es
unfolding insert_by_sequence
insert_by_sequence-first e [] h = refl
insert_by_sequence-first e (x ∷ xs) h = ground arith

order_by_sequence-Numbered : (n : ℕ) (es : List Event) → Numbered n es → order_by_sequence es ≡ es
unfolding order_by_sequence
order_by_sequence-Numbered n [] h = refl
order_by_sequence-Numbered n (e ∷ es) h =
    rw (order_by_sequence-Numbered (suc n) es h.1)
      (insert_by_sequence-first e es (subst (λ k. Numbered (suc k) es) (sym h.0) h.1))

drop-Numbered : (k n : ℕ) (es : List Event) → Numbered n es → Numbered (k + n) (drop k es)
drop-Numbered zero n es h = subst (λ m. Numbered m es) (omega arith) h
drop-Numbered (suc k) n [] h = tt
drop-Numbered (suc k) n (e ∷ es) h =
    subst (λ m. Numbered m (drop k es)) (omega arith) (drop-Numbered k (suc n) es h.1)

Faithful-Numbered : (r : Option Run) (log : List Event) → Faithful r log → Numbered 1 log
Faithful-Numbered none log h = rw h tt
Faithful-Numbered (some r) log h = h.0

-- Where the rows agree with their events, a page after a cursor is the next `limit` events of the
-- run in the order in which they were written: no event is missed, repeated or moved.
pub list_after_page :
    (run_id after_sequence limit : ℕ) (db : Db)
    → IsLogged db.runs db.events
    → list_after run_id after_sequence limit db
      ≡ take limit (drop after_sequence (select_where (of_run run_id) db.events))
unfolding list_after
list_after_page run_id after_sequence limit db h = ap (take limit) (
    ap order_by_sequence (
      select_where-and (of_run run_id) (λ e. ltb after_sequence e.sequence) db.events
      ∙ select-after after_sequence after_sequence 1 log numbered (omega arith))
    ∙ order_by_sequence-Numbered _ (drop after_sequence log)
        (drop-Numbered after_sequence 1 log numbered))
  where
    log : List Event
    log = select_where (of_run run_id) db.events

    numbered : Numbered 1 log
    numbered = Faithful-Numbered (find_row run_key run_id db.runs) log (h.faithful run_id)
