-- ===== src/Db/Events.antt =====
-- infrastructure/persistence/event_repository.py and the keys of the table `events`: a run's
-- sequence number is unique, and the run must exist.
use literature_research_agen.Base.{
  ℕ, Bool, ◌&&◌, ◌||◌, not, List, [], ◌∷◌, ◌++◌, take, ◌==◌, leb, ltb, if◌then◌else◌, find_row,
  count_where, select_where, is_some,
}
use literature_research_agen.Run.Errors.{ok, err, integrity_error}
use literature_research_agen.Event.{Event}
use literature_research_agen.Db.Defs.{Db, Action}
use literature_research_agen.Db.Runs.{run_key}

abbrev pub of_run : ℕ → Event → Bool
of_run run_id e = e.run_id == run_id

abbrev pub clashes : Event → Event → Bool
clashes new e = e.run_id == new.run_id && e.sequence == new.sequence

-- `add`; a taken event id or sequence number, or an unknown run, is refused when it is flushed.
unfoldable pub add_event : Event → Action Event
add_event event db =
    if is_some (find_row (λ (e : Event). e.event_id) event.event_id db.events)
      || (leb 1 (count_where (clashes event) db.events)
          || not (is_some (find_row run_key event.run_id db.runs)))
    then (err integrity_error, db)
    else (ok event, record db { events = db.events ++ event ∷ [] })

-- `ORDER BY sequence`: a stable insertion.
unfoldable pub insert_by_sequence : Event → List Event → List Event
insert_by_sequence e [] = e ∷ []
insert_by_sequence e (x ∷ xs) =
    let rest = insert_by_sequence e xs in if leb e.sequence x.sequence then e ∷ x ∷ xs else x ∷ rest

unfoldable pub order_by_sequence : List Event → List Event
unfolding insert_by_sequence
order_by_sequence [] = []
order_by_sequence (e ∷ es) = insert_by_sequence e (order_by_sequence es)

-- `list_by_run`
unfoldable pub list_by_run : ℕ → Db → List Event
list_by_run run_id db = order_by_sequence (select_where (of_run run_id) db.events)

-- `list_after`
unfoldable pub list_after : ℕ → ℕ → ℕ → Db → List Event
list_after run_id after_sequence limit db = take limit (
    order_by_sequence
      (select_where (λ e. e.run_id == run_id && ltb after_sequence e.sequence) db.events))
