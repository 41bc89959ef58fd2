-- ===== src/Db/Runs.antt =====
-- infrastructure/persistence/run_repository.py. `with_for_update` locks the row until the
-- transaction ends: a transaction is one step here, so it reads as a plain query.
use literature_research_agen.Base.{
  ℕ, Bool, ◌&&◌, Option, none, some, [], ◌∷◌, ◌++◌, ◌==◌, if◌then◌else◌, find_row, count_where,
  update_where, is_some, leb,
}
use literature_research_agen.Run.{Run, RunStatus, same_status, is_active}
use literature_research_agen.Run.Errors.{ok, err, integrity_error}
use literature_research_agen.Db.Defs.{Action}

abbrev pub run_key : Run → ℕ
run_key r = r.run_id

-- `add`; a second row of one primary key is refused.
unfoldable pub add_run : Run → Action Run
add_run run db =
    if is_some (find_row run_key run.run_id db.runs)
    then (err integrity_error, db)
    else (ok run, record db { runs = db.runs ++ run ∷ [] })

-- `get_by_id`
unfoldable pub get_by_id : ℕ → Action (Option Run)
get_by_id run_id db = (ok (find_row run_key run_id db.runs), db)

abbrev pub owned_by : ℕ → Option Run → Option Run
owned_by owner_id none = none
owned_by owner_id (some r) = if r.owner_id == owner_id then some r else none

-- `get_by_id_for_update`
unfoldable pub get_by_id_for_update : ℕ → ℕ → Action (Option Run)
get_by_id_for_update run_id owner_id db =
    (ok (owned_by owner_id (find_row run_key run_id db.runs)), db)

-- The `WHERE` clause and the `VALUES` of `update_status`.
abbrev pub has_status : ℕ → RunStatus → Run → Bool
has_status run_id expected r = r.run_id == run_id && same_status r.status expected

abbrev pub set_status : RunStatus → ℕ → Run → Run
set_status new_status new_event_sequence r = record r {
  status = new_status;
  event_sequence = new_event_sequence;
}

-- `update_status`
unfoldable pub update_status : ℕ → RunStatus → RunStatus → ℕ → Action Bool
update_status run_id expected_status new_status new_event_sequence db = (
  ok (count_where (has_status run_id expected_status) db.runs == 1),
  record db {
    runs =
        update_where (has_status run_id expected_status) (set_status new_status new_event_sequence)
          db.runs;
  },
)

-- `has_active_runs`
unfoldable pub has_active_runs : ℕ → Action Bool
has_active_runs project_id db =
    (ok (leb 1 (count_where (λ r. r.project_id == project_id && is_active r.status) db.runs)), db)
