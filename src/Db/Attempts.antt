-- ===== src/Db/Attempts.antt =====
-- infrastructure/persistence/attempt_repository.py.
use literature_research_agen.Base.{
  ℕ, Bool, false, ◌&&◌, ◌||◌, Option, none, some, List, [], ◌∷◌, ◌++◌, take, Json, ◌==◌, leb, ltb,
  if◌then◌else◌, find_row, count_where, select_where, update_where, is_some,
}
use literature_research_agen.Run.{Run, RunStatus, running, cancel_requested, contains_status}
use literature_research_agen.Run.Errors.{ok, err, integrity_error}
use literature_research_agen.Attempt.{
  RunAttempt, AttemptStatus, same_attempt_status, record_heartbeat, finish,
}
use literature_research_agen.Db.Defs.{Db, Action}
use literature_research_agen.Db.Runs.{run_key}

abbrev pub attempt_key : RunAttempt → ℕ
attempt_key a = a.attempt_id

abbrev pub attempt_of : ℕ → RunAttempt → Bool
attempt_of run_id a = a.run_id == run_id

abbrev pub same_number : RunAttempt → RunAttempt → Bool
same_number new a = a.run_id == new.run_id && a.attempt_number == new.attempt_number

-- `add`; a taken id or attempt number is refused when it is flushed.
unfoldable pub add_attempt : RunAttempt → Action RunAttempt
add_attempt attempt db =
    if is_some (find_row attempt_key attempt.attempt_id db.attempts)
      || leb 1 (count_where (same_number attempt) db.attempts)
    then (err integrity_error, db)
    else (ok attempt, record db { attempts = db.attempts ++ attempt ∷ [] })

-- `count_by_run`
unfoldable pub count_by_run : ℕ → Action ℕ
count_by_run run_id db = (ok (count_where (attempt_of run_id) db.attempts), db)

-- Of two attempts the later one by `ORDER BY attempt_number DESC LIMIT 1`.
abbrev pub later_attempt : Option RunAttempt → RunAttempt → RunAttempt
later_attempt none a = a
later_attempt (some b) a = if leb b.attempt_number a.attempt_number then a else b

unfoldable pub latest_of : List RunAttempt → Option RunAttempt
latest_of [] = none
latest_of (a ∷ rest) = some (later_attempt (latest_of rest) a)

-- `get_latest_by_run`
unfoldable pub get_latest_by_run : ℕ → Action (Option RunAttempt)
unfolding latest_of
get_latest_by_run run_id db = (ok (latest_of (select_where (attempt_of run_id) db.attempts)), db)

abbrev pub is_running_attempt : ℕ → RunAttempt → Bool
is_running_attempt attempt_id a =
    a.attempt_id == attempt_id && same_attempt_status a.status AttemptStatus.running

-- `record_heartbeat`
unfoldable pub touch_heartbeat : ℕ → ℕ → Action Bool
touch_heartbeat attempt_id now db = (
  ok (count_where (is_running_attempt attempt_id) db.attempts == 1),
  record db {
    attempts =
        update_where (is_running_attempt attempt_id) (λ a. record_heartbeat a now) db.attempts;
  },
)

-- `finish_if_running`
unfoldable pub finish_if_running : ℕ → AttemptStatus → ℕ → Option Json → Action Bool
finish_if_running attempt_id status now error db = (
  ok (count_where (is_running_attempt attempt_id) db.attempts == 1),
  record db {
    attempts =
        update_where (is_running_attempt attempt_id) (λ a. finish a status now error) db.attempts;
  },
)

-- `run.status in {RUNNING, CANCEL_REQUESTED}`
abbrev pub is_executing : RunStatus → Bool
is_executing = contains_status (running ∷ cancel_requested ∷ [])

abbrev pub run_executing : Option Run → Bool
run_executing none = false
run_executing (some r) = is_executing r.status

-- The rows of `list_expired_running` by its join and `WHERE` clause.
unfoldable pub is_expired : ℕ → Db → RunAttempt → Bool
is_expired cutoff db a =
    same_attempt_status a.status AttemptStatus.running
    && (ltb a.heartbeat_at cutoff && run_executing (find_row run_key a.run_id db.runs))

-- A stable `ORDER BY` a number.
unfoldable pub insert_by : (RunAttempt → ℕ) → RunAttempt → List RunAttempt → List RunAttempt
insert_by f a [] = a ∷ []
insert_by f a (x ∷ xs) =
    let rest = insert_by f a xs in if leb (f a) (f x) then a ∷ x ∷ xs else x ∷ rest

unfoldable pub order_by : (RunAttempt → ℕ) → List RunAttempt → List RunAttempt
unfolding insert_by
order_by f [] = []
order_by f (a ∷ rest) = insert_by f a (order_by f rest)

-- `list_expired_running`
unfoldable pub list_expired_running : ℕ → ℕ → Db → List RunAttempt
unfolding is_expired order_by
list_expired_running cutoff limit db =
    take limit (order_by (λ a. a.heartbeat_at) (select_where (is_expired cutoff db) db.attempts))

-- `list_by_run`
unfoldable pub list_attempts : ℕ → Db → List RunAttempt
unfolding order_by
list_attempts run_id db =
    order_by (λ a. a.attempt_number) (select_where (attempt_of run_id) db.attempts)
