-- ===== src/Invariant/Create.antt =====
-- `RunService.create_run` keeps the invariant: the new row and its first event come together.
use literature_research_agen.Base.{
  ℕ, ◌≡◌, ◌≢◌, refl, sym, subst, ◌∙◌, ap, false, Option, none, some, List, [], ◌∷◌, ◌++◌, String,
  Json, payload_of, text, arith, find_row, find_row-append, find_row-append_found, append-IsUnique,
  IsUnique, select_where, is_some, Option-cases, inl, inr,
}
use mathlib.Core.Path.{subst₂}
use native.Mathlib.Decide.{ℕ_discrete}
use literature_research_agen.Run.{Run, queued, status_value, create_run}
use literature_research_agen.Run.Errors.{Result, ok, err}
use literature_research_agen.Event.{Event, run_created, user, CorrelationId, Stamp, create_event}
use literature_research_agen.Db.{Db, commit, pure, lift, ◌>>=◌, ◌>>◌}
use literature_research_agen.Db.Hoare.{
  Ensures, Ensures-bind, Ensures-unless, Leaves, Leaves-transaction,
}
use literature_research_agen.Db.Runs.{run_key, add_run}
use literature_research_agen.Db.Events.{of_run, add_event}
use literature_research_agen.Lifecycle.Service.{insert_run, submit_run}
use literature_research_agen.History.Replay.{replay}
use literature_research_agen.History.Sound.{Faithful, IsLogged}
use literature_research_agen.History.Append.{select-append_own, select-append_other}
use literature_research_agen.Invariant.Sound.{Holds, IsSound}
use literature_research_agen.Invariant.Service.{Sound}

-- The new row is there, and its event is still to be written.
record IsInserted (row : Run) (runs : List Run) (events : List Event) : Type 0 where
  unique : IsUnique run_key runs
  others :
      (k : ℕ) → k ≢ row.run_id → Faithful (find_row run_key k runs) (select_where (of_run k) events)
  found : find_row run_key row.run_id runs ≡ some row
  empty : select_where (of_run row.run_id) events ≡ []

no_row : (o : Option Run) → is_some o ≡ false → o ≡ none
no_row none h = refl
no_row (some r) h = cc

log_of_none : (o : Option Run) (log : List Event) → Faithful o log → o ≡ none → log ≡ []
log_of_none none log h e = h
log_of_none (some r) log h e = cc

find_row-append_other :
    (k : ℕ) (row : Run) (runs : List Run)
    → k ≢ row.run_id
    → find_row run_key k (runs ++ row ∷ []) ≡ find_row run_key k runs
find_row-append_other k row runs h = elim (Option-cases (find_row run_key k runs)) [
  | inl e ↦ ground (arith, find_row-append run_key k runs row e)
  | inr (r, e) ↦ find_row-append_found run_key k runs row r e ∙ sym e
]

inserted :
    (row : Run) (runs : List Run) (events : List Event)
    → IsLogged runs events
    → find_row run_key row.run_id runs ≡ none
    → IsInserted row (runs ++ row ∷ []) events
inserted row runs events h new = record {
  unique = append-IsUnique run_key runs row h.unique new;
  others = λ k ne.
      subst (λ o. Faithful o (select_where (of_run k) events))
        (sym (find_row-append_other k row runs ne)) (h.faithful k);
  found = ground (arith, find_row-append run_key row.run_id runs row new);
  empty = log_of_none _ _ (h.faithful row.run_id) new;
}

-- The first event makes the row's log.
begun :
    (row : Run) (e : Event) (runs : List Run) (events : List Event)
    → IsInserted row runs events
    → row.status ≡ queued
    → row.event_sequence ≡ 2
    → e.run_id ≡ row.run_id
    → e.sequence ≡ 1
    → e.event_type ≡ run_created
    → IsLogged runs (events ++ e ∷ [])
unfolding replay
begun row e runs events h status next own number type = record {
  unique = h.unique;
  faithful = λ k. elim (ℕ_discrete k row.run_id) [
    | yes same ↦
        subst (λ i. Faithful (find_row run_key i runs) (select_where (of_run i) (events ++ e ∷ [])))
          (sym same)
          (subst₂ Faithful (sym h.found)
            (sym (select-append_own row.run_id e events own ∙ ap (λ l. l ++ e ∷ []) h.empty))
            ((number, tt), omega arith, rw (type, status)))
    | no differs ↦
        subst (Faithful (find_row run_key k runs))
          (sym (select-append_other k e events (λ q. differs (sym q ∙ own)))) (h.others k differs)
  ];
}

module _ (run : Run) (stamp : Stamp) (correlation : CorrelationId) where
  abbrev first_row : Run
  first_row = record run { event_sequence = 2 }

  abbrev first_event : Event
  first_event =
      create_event stamp run.run_id 1 run_created user correlation
        (payload_of "status" (text (status_value run.status)))

  first_row-Ensures :
      (db : Db) → IsSound db → Ensures (λ _. Holds (IsInserted first_row)) (add_run first_row db)
  unfolding add_run
  first_row-Ensures db h =
      Ensures-unless (λ _. Holds (IsInserted first_row)) _ _ db first_row
        (record db { runs = db.runs ++ first_row ∷ [] })
        λ free. record {
          log = inserted first_row db.runs db.events h.log (no_row _ free);
          tried = h.tried;
          scheduled = h.scheduled;
        }

  first_event-Ensures :
      (db : Db)
      → run.status ≡ queued
      → Holds (IsInserted first_row) db
      → Ensures (λ _. IsSound) (add_event first_event db)
  unfolding add_event create_event
  first_event-Ensures db status h =
      Ensures-unless (λ _. IsSound) _ _ db first_event
        (record db { events = db.events ++ first_event ∷ [] })
        λ free. record {
          log = begun first_row first_event db.runs db.events h.log status refl refl refl refl;
          tried = h.tried;
          scheduled = h.scheduled;
        }

  pub insert_run-IsSound :
      (db : Db)
      → IsSound db
      → run.status ≡ queued
      → Leaves IsSound (insert_run run stamp correlation db)
  unfolding insert_run
  insert_run-IsSound db h status =
      Leaves-transaction IsSound
        (add_run first_row >> (add_event first_event >> pure (commit first_row))) db h
        (Ensures-bind (λ _. Holds (IsInserted first_row)) Sound (add_run first_row)
          (λ _. add_event first_event >> pure (commit first_row)) db (first_row-Ensures db h)
          λ _ db1 h1.
            Ensures-bind (λ _. IsSound) Sound (add_event first_event) (λ _. pure (commit first_row))
              db1 (first_event-Ensures db1 status h1) (λ _ db2 s. s))

created-queued :
    (run_id project_id owner_id : ℕ) (run_type : String) (payload : Option Json) (now : ℕ)
    (run : Run)
    → create_run run_id project_id owner_id run_type payload now ≡ ok run
    → run.status ≡ queued
unfolding create_run
created-queued run_id project_id owner_id run_type payload now run h = ground arith

pub submit_run-IsSound :
    (run_id owner_id project_id : ℕ) (stamp : Stamp) (run_type : String) (payload : Json)
    (correlation : CorrelationId) (db : Db)
    → IsSound db
    → Leaves IsSound (submit_run run_id stamp owner_id project_id run_type payload correlation db)
unfolding submit_run
submit_run-IsSound run_id owner_id project_id stamp run_type payload correlation db h =
    made (create_run run_id project_id owner_id run_type (some payload) stamp.now) refl
  where
    made :
        (created : Result Run)
        → create_run run_id project_id owner_id run_type (some payload) stamp.now ≡ created
        → Leaves IsSound ((lift created >>= λ run. insert_run run stamp correlation) db)
    made (ok run) e =
        insert_run-IsSound run stamp correlation db h (created-queued _ _ _ _ _ _ run e)
    made (err x) e = h
