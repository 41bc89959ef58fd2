-- ===== src/Db/Outboxes.antt =====
-- infrastructure/persistence/outbox_repository.py. `run_id` is a unique column.
use literature_research_agen.Base.{
  ℕ, ◌+◌, Bool, ◌&&◌, ◌||◌, none, List, [], ◌∷◌, ◌++◌, take, ◌==◌, leb, if◌then◌else◌, find_row,
  count_where, select_where, update_where, is_some,
}
use literature_research_agen.Run.Errors.{ok, err, integrity_error, no_result_found}
use literature_research_agen.Outbox.{
  QueueOutbox, pending, dispatched, same_outbox_status, mark_dispatched,
}
use literature_research_agen.Db.Defs.{Db, Action}

abbrev pub outbox_key : QueueOutbox → ℕ
outbox_key o = o.outbox_id

abbrev pub outbox_run : QueueOutbox → ℕ
outbox_run o = o.run_id

-- `add`
unfoldable pub add_outbox : QueueOutbox → Action QueueOutbox
add_outbox entry db =
    if is_some (find_row outbox_key entry.outbox_id db.outbox)
      || is_some (find_row outbox_run entry.run_id db.outbox)
    then (err integrity_error, db)
    else (ok entry, record db { outbox = db.outbox ++ entry ∷ [] })

-- `list_due_pending`
abbrev pub is_due : ℕ → QueueOutbox → Bool
is_due now o = same_outbox_status o.status pending && leb o.scheduled_at now

unfoldable pub insert_by_schedule : QueueOutbox → List QueueOutbox → List QueueOutbox
insert_by_schedule o [] = o ∷ []
insert_by_schedule o (x ∷ xs) =
    let rest = insert_by_schedule o xs in
    if leb o.scheduled_at x.scheduled_at then o ∷ x ∷ xs else x ∷ rest

unfoldable pub order_by_schedule : List QueueOutbox → List QueueOutbox
unfolding insert_by_schedule
order_by_schedule [] = []
order_by_schedule (o ∷ os) = insert_by_schedule o (order_by_schedule os)

unfoldable pub list_due_pending : ℕ → ℕ → Db → List QueueOutbox
unfolding order_by_schedule
list_due_pending now limit db = take limit (order_by_schedule (select_where (is_due now) db.outbox))

abbrev pub is_pending_entry : ℕ → QueueOutbox → Bool
is_pending_entry outbox_id o = o.outbox_id == outbox_id && same_outbox_status o.status pending

-- `try_mark_dispatched`
unfoldable pub try_mark_dispatched : ℕ → ℕ → Action Bool
try_mark_dispatched outbox_id at db = (
  ok (count_where (is_pending_entry outbox_id) db.outbox == 1),
  record db {
    outbox = update_where (is_pending_entry outbox_id) (λ o. mark_dispatched o at) db.outbox;
  },
)

abbrev pub save_over : QueueOutbox → QueueOutbox → QueueOutbox
save_over entry o = record o {
  status = entry.status;
  attempt_count = entry.attempt_count;
  scheduled_at = entry.scheduled_at;
  dispatched_at = entry.dispatched_at;
  updated_at = entry.updated_at;
}

-- `save`; `scalar_one` raises where the row is gone.
unfoldable pub save : QueueOutbox → Action (Unit {0})
save entry db =
    if is_some (find_row outbox_key entry.outbox_id db.outbox)
    then (
      ok tt,
      record db {
        outbox = update_where (λ o. o.outbox_id == entry.outbox_id) (save_over entry) db.outbox;
      },
    )
    else (err no_result_found, db)

abbrev pub is_dispatched_for : ℕ → QueueOutbox → Bool
is_dispatched_for run_id o = o.run_id == run_id && same_outbox_status o.status dispatched

-- `reset_for_retry`
unfoldable pub reset_for_retry : ℕ → ℕ → ℕ → Action Bool
reset_for_retry now run_id scheduled_at db = (
  ok (count_where (is_dispatched_for run_id) db.outbox == 1),
  record db {
    outbox =
        update_where (is_dispatched_for run_id)
          (λ o. record o {
            status = pending;
            attempt_count = o.attempt_count + 1;
            scheduled_at = scheduled_at;
            dispatched_at = none;
            updated_at = now;
          })
          db.outbox;
  },
)

-- `schedule_again`
unfoldable pub schedule_again : ℕ → ℕ → Action Bool
schedule_again now run_id db = (
  ok (count_where (is_dispatched_for run_id) db.outbox == 1),
  record db {
    outbox =
        update_where (is_dispatched_for run_id)
          (λ o. record o {
            status = pending;
            scheduled_at = now;
            dispatched_at = none;
            updated_at = now;
          })
          db.outbox;
  },
)
