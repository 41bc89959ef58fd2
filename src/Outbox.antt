-- ===== src/Outbox.antt =====
-- backend/src/literature_agent/domain/queue_outbox.py: the record between the database commit and
-- the delivery to the queue. Times are microseconds.
pub mod Backoff
use literature_research_agen.Base.{
  ℕ, ◌+◌, ◌-◌, ◌*◌, ◌^◌, min, Bool, Option, none, some, leb, ltb, ◌==◌, if◌then◌else◌,
}
use literature_research_agen.Run.Errors.{Result, ok, err, overflow_error}

pub data OutboxStatus : Type 0 where
  pending dispatched failed : OutboxStatus

abbrev pub outbox_code : OutboxStatus → ℕ
outbox_code pending = 0
outbox_code dispatched = 1
outbox_code failed = 2

-- `==` on outbox statuses.
unfoldable pub same_outbox_status : OutboxStatus → OutboxStatus → Bool
same_outbox_status a b = outbox_code a == outbox_code b

-- `_BACKOFF_BASE_SECONDS` and `_BACKOFF_MAX_SECONDS`
abbrev pub backoff_base : ℕ
backoff_base = 1_000_000

abbrev pub backoff_max : ℕ
backoff_max = 60_000_000

-- `compute_dispatch_backoff`. `2 ** -1` is a half; a power of 2 beyond a float's range, from 2^1024
-- on, raises `OverflowError` when it is multiplied by the float base.
unfoldable pub compute_dispatch_backoff : ℕ → Result ℕ
compute_dispatch_backoff attempt_count =
    if attempt_count == 0
    then ok 500_000
    else if ltb 1024 attempt_count
    then err overflow_error
    else ok (min (backoff_base * 2 ^ (attempt_count - 1)) backoff_max)

pub record QueueOutbox : Type 0 where
  pub outbox_id : ℕ
  pub run_id : ℕ
  pub status : OutboxStatus
  pub attempt_count : ℕ
  pub scheduled_at : ℕ
  pub dispatched_at : Option ℕ
  pub created_at : ℕ
  pub updated_at : ℕ

-- `QueueOutbox.mark_dispatched`
unfoldable pub mark_dispatched : QueueOutbox → ℕ → QueueOutbox
mark_dispatched self at = record self {
  status = dispatched;
  dispatched_at = some at;
  updated_at = at;
}

-- `QueueOutbox.record_dispatch_failure`
unfoldable pub record_dispatch_failure : QueueOutbox → ℕ → ℕ → Result QueueOutbox
record_dispatch_failure self now max_attempts =
    let attempt_count = self.attempt_count + 1 in
    let exhausted = leb max_attempts attempt_count in
    elim (compute_dispatch_backoff attempt_count) [
      | err e ↦ err e
      | ok delay ↦ ok (record self {
        status = if exhausted then failed else pending;
        attempt_count = attempt_count;
        scheduled_at = now + delay;
        dispatched_at = none;
        updated_at = now;
      })
    ]

-- `create_outbox_entry`, with the identifier and the time that it draws.
unfoldable pub create_outbox_entry : ℕ → ℕ → ℕ → QueueOutbox
create_outbox_entry outbox_id now run_id = record {
  outbox_id = outbox_id;
  run_id = run_id;
  status = pending;
  attempt_count = 0;
  scheduled_at = now;
  dispatched_at = none;
  created_at = now;
  updated_at = now;
}
