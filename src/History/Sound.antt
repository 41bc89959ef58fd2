-- ===== src/History/Sound.antt =====
-- The invariant that ties each run's row to its events, and the update of a row that begins a step.
use mathlib.Core.Option
use literature_research_agen.Base.{
  ℕ, suc, ◌+◌, ◌≤◌, ◌≡◌, ◌≢◌, refl, sym, ◌∙◌, ap, subst, inl, inr, true, false, Option, none, some,
  List, [], length, arith, ◌==◌, count_where, select_where, update_where, find_row, IsUnique,
  apply_if, update_where-IsUnique, find_row-update_where, count_where_found, count_where-and-le,
  update_where_none, count_where_absent, find_row_key, Option-cases,
}
use literature_research_agen.Run.{Run, RunStatus, same_status, same_status_eq, same_status_refl}
use literature_research_agen.Event.{Event}
use literature_research_agen.Db.Runs.{run_key, has_status, set_status}
use literature_research_agen.Db.Events.{of_run}
use literature_research_agen.History.Replay.{replay, Numbered}

-- What the log of one run says of its row.
abbrev pub Faithful : Option Run → List Event → Type 0
Faithful none log = log ≡ []
Faithful (some r) log =
    Numbered 1 log × (r.event_sequence ≡ suc (length log)) × (replay log ≡ some r.status)

pub record IsLogged (runs : List Run) (events : List Event) : Type 0 where
  pub unique : IsUnique run_key runs
  pub faithful : (k : ℕ) → Faithful (find_row run_key k runs) (select_where (of_run k) events)

-- The row of `run` has moved from `expected` to `target`, and its event is still to be written.
pub record IsAdvanced (run : Run) (expected target : RunStatus) (runs : List Run)
    (events : List Event) : Type 0 where
  pub unique : IsUnique run_key runs
  pub others :
      (k : ℕ) → k ≢ run.run_id → Faithful (find_row run_key k runs) (select_where (of_run k) events)
  pub row : Run
  pub found : find_row run_key run.run_id runs ≡ some row
  pub moved : row.status ≡ target
  pub next : row.event_sequence ≡ suc run.event_sequence
  pub numbered : Numbered 1 (select_where (of_run run.run_id) events)
  pub replayed : replay (select_where (of_run run.run_id) events) ≡ some expected
  pub positive : 1 ≤ run.event_sequence
  pub past : run.event_sequence ≤ suc (length (select_where (of_run run.run_id) events))

-- A row as it was read, now or before: its number is not past that of the stored row.
abbrev pub IsPast : Run → List Run → Type 0
IsPast run runs =
    (r : Run)
    → find_row run_key run.run_id runs ≡ some r
    → (1 ≤ run.event_sequence) × (run.event_sequence ≤ r.event_sequence)

module _ (id : ℕ) (expected target : RunStatus) (next : ℕ) (runs : List Run) where
  abbrev updated_runs : List Run
  updated_runs = update_where (has_status id expected) (set_status target next) runs

  updated_runs-IsUnique : IsUnique run_key runs → IsUnique run_key updated_runs
  updated_runs-IsUnique = update_where-IsUnique run_key _ (set_status target next) runs (λ r. refl)

  find_row-updated :
      (k : ℕ)
      → find_row run_key k updated_runs
        ≡ Option.map
            (apply_if (has_status id expected) (set_status target next))
            (find_row run_key k runs)
  find_row-updated k = find_row-update_where run_key _ (set_status target next) k runs (λ r. refl)

  find_row-updated_other :
      (k : ℕ) → k ≢ id → find_row run_key k updated_runs ≡ find_row run_key k runs
  find_row-updated_other k h = elim (Option-cases (find_row run_key k runs)) [
    | inl e ↦ rw (find_row-updated k, e)
    | inr (r, e) ↦ rw (find_row-updated k, e) (ground (arith, find_row_key run_key k runs r e))
  ]

-- The rows that `update_status` reports as one: the row is there and has the expected status.
counted_row :
    (id : ℕ) (expected : RunStatus) (runs : List Run)
    → IsUnique run_key runs
    → (count_where (has_status id expected) runs == 1) ≡ true
    → (r : Run) × (find_row run_key id runs ≡ some r) × (r.status ≡ expected)
counted_row id expected runs u h = elim (Option-cases (find_row run_key id runs)) [
  | inl e ↦
      ground (arith, count_where_absent run_key id (λ r. same_status r.status expected) runs e)
  | inr (r, e) ↦ (
    r,
    e,
    ground (
      arith,
      count_where_found run_key id (λ r. same_status r.status expected) runs r (u id) e,
      same_status_eq r.status expected,
    ),
  )
]

pub uncounted_rows :
    (id : ℕ) (expected : RunStatus) (f : Run → Run) (runs : List Run)
    → IsUnique run_key runs
    → (count_where (has_status id expected) runs == 1) ≡ false
    → update_where (has_status id expected) f runs ≡ runs
uncounted_rows id expected f runs u h =
    update_where_none (has_status id expected) f runs (
      ground (arith, u id, count_where-and-le run_key id (λ r. same_status r.status expected) runs))

apply_if_hit :
    (id : ℕ) (expected target : RunStatus) (next : ℕ) (r : Run)
    → r.run_id ≡ id
    → r.status ≡ expected
    → apply_if (has_status id expected) (set_status target next) r ≡ set_status target next r
apply_if_hit id expected target next r h k = ground (arith, same_status_refl expected)

pub updated-IsAdvanced :
    (run : Run) (expected target : RunStatus) (runs : List Run) (events : List Event)
    → IsLogged runs events
    → IsPast run runs
    → (count_where (has_status run.run_id expected) runs == 1) ≡ true
    → IsAdvanced run expected target
        (update_where
          (has_status run.run_id expected)
          (set_status target (run.event_sequence + 1))
          runs)
        events
updated-IsAdvanced run expected target runs events logged past counted =
    let (r, found, status) = counted_row run.run_id expected runs logged.unique counted in
    let log_of_row =
      subst (λ o. Faithful o (select_where (of_run run.run_id) events)) found
        (logged.faithful run.run_id) in
    let read_before = past r found in
    record {
      unique =
          updated_runs-IsUnique run.run_id expected target (run.event_sequence + 1) runs
            logged.unique;
      others = λ k h.
          subst (λ o. Faithful o (select_where (of_run k) events))
            (sym
              (find_row-updated_other run.run_id expected target (run.event_sequence + 1) runs k h))
            (logged.faithful k);
      row = set_status target (run.event_sequence + 1) r;
      found =
          rw
            (
              find_row-updated run.run_id expected target (run.event_sequence + 1) runs run.run_id,
              found,
            )
            (ap some (
              apply_if_hit run.run_id expected target (run.event_sequence + 1) r
                (find_row_key run_key run.run_id runs r found) status));
      moved = refl;
      next = omega arith;
      numbered = log_of_row.0;
      replayed = log_of_row.2 ∙ ap some status;
      positive = read_before.0;
      past = omega (arith, log_of_row.1, read_before.1);
    }
