-- ===== src/Outbox/Backoff.antt =====
-- The waiting times of domain/queue_outbox.py, and how many failures a record survives.
use native.Mathlib.Nat.{pow-suc}
use literature_research_agen.Base.{
  ℕ, zero, suc, ◌+◌, ◌-◌, ◌^◌, ◌≤◌, ◌<◌, ◌≡◌, refl, List, [], ◌∷◌, length, arith, ◌∙◌, ap, leb,
  if◌then◌else◌, min, ◌*◌,
}
use literature_research_agen.Run.Errors.{Error, Result, ok, err}
use literature_research_agen.Outbox.{
  QueueOutbox, pending, failed, compute_dispatch_backoff, backoff_max, record_dispatch_failure,
}

pub pow-pos : (n : ℕ) → 1 ≤ 2 ^ n
pow-pos zero = omega arith
pow-pos (suc n) = rw pow-suc (omega (arith, pow-pos n))

-- Up to 1024 failures the backoff is between half a second and a minute, and from 1025 failures on
-- the computation raises `OverflowError`.
pub compute_dispatch_backoff_bounds :
    (n d : ℕ) → compute_dispatch_backoff n ≡ ok d → (n ≤ 1024) × (500_000 ≤ d) × (d ≤ backoff_max)
unfolding compute_dispatch_backoff
compute_dispatch_backoff_bounds n d h = ground (arith, pow-pos (n - 1))

compute_dispatch_backoff_err :
    (n : ℕ) (e : Error) → compute_dispatch_backoff n ≡ err e → n ≤ 1024 → ⊥
unfolding compute_dispatch_backoff
compute_dispatch_backoff_err n e h few = ground arith

-- Up to 1024 failures there is a backoff, between half a second and a minute.
pub compute_dispatch_backoff_returns :
    (n : ℕ)
    → n ≤ 1024
    → (d : ℕ) × (compute_dispatch_backoff n ≡ ok d) × (500_000 ≤ d) × (d ≤ backoff_max)
compute_dispatch_backoff_returns n few = inverted (compute_dispatch_backoff n) refl
  where
    inverted :
        (b : Result ℕ)
        → compute_dispatch_backoff n ≡ b
        → (d : ℕ) × (compute_dispatch_backoff n ≡ ok d) × (500_000 ≤ d) × (d ≤ backoff_max)
    inverted (ok d) q = let (_, lo, hi) = compute_dispatch_backoff_bounds n d q in (d, q, lo, hi)
    inverted (err e) q = absurd (compute_dispatch_backoff_err n e q few)

-- The first failure waits a second, and up to 1024 failures each one more waits twice as long, but
-- a minute at most.
pub compute_dispatch_backoff_doubles :
    (n : ℕ)
    → n ≤ 1022
    → (d : ℕ) × (compute_dispatch_backoff 1 ≡ ok 1_000_000)
      × (compute_dispatch_backoff (n + 1) ≡ ok d)
      × (compute_dispatch_backoff (n + 2) ≡ ok (min (2 * d) 60_000_000))
unfolding compute_dispatch_backoff
compute_dispatch_backoff_doubles n few =
    (min (1_000_000 * 2 ^ n) 60_000_000, refl, ground arith, ground (arith, pow-suc 2 n))

-- A list of failures at given times, each recorded on the result of the one before.
abbrev pub then_fail : ℕ → ℕ → Result QueueOutbox → Result QueueOutbox
then_fail max_attempts now (ok entry) = record_dispatch_failure entry now max_attempts
then_fail max_attempts now (err e) = err e

pub fail_all : ℕ → QueueOutbox → List ℕ → Result QueueOutbox
fail_all max_attempts entry [] = ok entry
fail_all max_attempts entry (now ∷ times) =
    then_fail max_attempts now (fail_all max_attempts entry times)

record_dispatch_failure_step :
    (entry : QueueOutbox) (now max_attempts : ℕ) (r : QueueOutbox)
    → record_dispatch_failure entry now max_attempts ≡ ok r
    → (r.attempt_count ≡ entry.attempt_count + 1)
      × (r.status ≡ (if leb max_attempts (entry.attempt_count + 1) then failed else pending))
      × (now < r.scheduled_at)
unfolding record_dispatch_failure compute_dispatch_backoff
record_dispatch_failure_step entry now max_attempts r h =
    ground (arith, pow-pos (entry.attempt_count + 1 - 1))

record_dispatch_failure_err :
    (entry : QueueOutbox) (now max_attempts : ℕ) (e : Error)
    → record_dispatch_failure entry now max_attempts ≡ err e
    → entry.attempt_count + 1 ≤ 1024
    → ⊥
unfolding record_dispatch_failure compute_dispatch_backoff
record_dispatch_failure_err entry now max_attempts e h few = ground arith

record_dispatch_failure_total :
    (entry : QueueOutbox) (now max_attempts : ℕ)
    → entry.attempt_count + 1 ≤ 1024
    → (r : QueueOutbox) × (record_dispatch_failure entry now max_attempts ≡ ok r)
record_dispatch_failure_total entry now max_attempts few =
    inverted (record_dispatch_failure entry now max_attempts) refl
  where
    inverted :
        (b : Result QueueOutbox)
        → record_dispatch_failure entry now max_attempts ≡ b
        → (r : QueueOutbox) × (record_dispatch_failure entry now max_attempts ≡ ok r)
    inverted (ok r) q = (r, q)
    inverted (err e) q = absurd (record_dispatch_failure_err entry now max_attempts e q few)

then_fail_ok :
    (max_attempts now : ℕ) (before : Result QueueOutbox) (r : QueueOutbox)
    → then_fail max_attempts now before ≡ ok r
    → (entry : QueueOutbox) × (before ≡ ok entry)
      × (record_dispatch_failure entry now max_attempts ≡ ok r)
then_fail_ok max_attempts now (ok entry) r h = (entry, refl, h)
then_fail_ok max_attempts now (err e) r h = cc

fail_all_count :
    (max_attempts : ℕ) (entry : QueueOutbox) (times : List ℕ) (r : QueueOutbox)
    → fail_all max_attempts entry times ≡ ok r
    → r.attempt_count ≡ entry.attempt_count + length times
unfolding fail_all
fail_all_count max_attempts entry [] r h = ground arith
fail_all_count max_attempts entry (now ∷ times) r h =
    let (mid, before, last) =
      then_fail_ok max_attempts now (fail_all max_attempts entry times) r h in
    omega (
      arith,
      fail_all_count max_attempts entry times mid before,
      (record_dispatch_failure_step mid now max_attempts r last).0,
    )

fail_all_total :
    (max_attempts : ℕ) (entry : QueueOutbox) (times : List ℕ)
    → entry.attempt_count + length times ≤ 1024
    → (r : QueueOutbox) × (fail_all max_attempts entry times ≡ ok r)
unfolding fail_all
fail_all_total max_attempts entry [] few = (entry, refl)
fail_all_total max_attempts entry (now ∷ times) few =
    let (mid, before) = fail_all_total max_attempts entry times (omega arith) in
    let (r, last) =
      record_dispatch_failure_total mid now max_attempts
        (omega (arith, fail_all_count max_attempts entry times mid before)) in
    (r, ap (then_fail max_attempts now) before ∙ last)

fail_all_status :
    (max_attempts : ℕ) (entry : QueueOutbox) (now : ℕ) (times : List ℕ) (r : QueueOutbox)
    → fail_all max_attempts entry (now ∷ times) ≡ ok r
    → (r.attempt_count ≡ entry.attempt_count + length times + 1)
      × (now < r.scheduled_at)
      × (r.status
          ≡ (if leb max_attempts (entry.attempt_count + length times + 1) then failed else pending))
unfolding fail_all
fail_all_status max_attempts entry now times r h =
    let (mid, before, last) =
      then_fail_ok max_attempts now (fail_all max_attempts entry times) r h in
    ground (
      arith,
      fail_all_count max_attempts entry times mid before,
      record_dispatch_failure_step mid now max_attempts r last,
    )

-- As long as the count stays within 1024, failed deliveries are recorded without an error: after
-- one or more the record counts them all, waits for a later time than the last failure, and has
-- failed exactly if the count has reached the limit; else it is pending.
pub fail_all_returns :
    (max_attempts : ℕ) (entry : QueueOutbox) (now : ℕ) (times : List ℕ)
    → entry.attempt_count + length times + 1 ≤ 1024
    → (r : QueueOutbox) × (fail_all max_attempts entry (now ∷ times) ≡ ok r)
      × (r.attempt_count ≡ entry.attempt_count + length times + 1)
      × (now < r.scheduled_at)
      × (r.status
          ≡ (if leb max_attempts (entry.attempt_count + length times + 1) then failed else pending))
fail_all_returns max_attempts entry now times few =
    let (r, q) = fail_all_total max_attempts entry (now ∷ times) (omega arith) in
    let (count, later, status) = fail_all_status max_attempts entry now times r q in
    (r, q, count, later, status)
