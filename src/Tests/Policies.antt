-- ===== src/Tests/Policies.antt =====
-- The theorems on the run's state machine and the retry policies, applied.
use literature_research_agen.Base.{
  ◌⊎◌, min, ◌*◌, ℕ, ◌+◌, ◌≡◌, ◌≤◌, ◌<◌, true, not, max, some, [], ◌∷◌, length, arith, leb,
  if◌then◌else◌,
}
use literature_research_agen.Run.{running, cancelled, cancel_requested, is_final, is_active}
use literature_research_agen.Run.Errors.{ok}
use literature_research_agen.Run.Machine.{
  walk, active_cancellable, IsEnded, RefusesAll, AcceptsOne, transition_to_lem,
}
use literature_research_agen.Outbox.{
  QueueOutbox, pending, failed, backoff_max, compute_dispatch_backoff,
}
use literature_research_agen.Outbox.Backoff.{
  fail_all, fail_all_returns, compute_dispatch_backoff_doubles,
}
use literature_research_agen.Retry.{arxiv_error, compute_failure_retry_delay}
use literature_research_agen.Retry.Delay.{
  least_wait, requested_wait, compute_failure_retry_delay_returns,
}
use literature_research_agen.Tests.Fixtures.{running_run, entry}

transition_to_lem_example :
    (IsEnded running_run.status × RefusesAll running_run)
    ⊎ ((¬ IsEnded running_run.status) × AcceptsOne running_run)
transition_to_lem_example = transition_to_lem running_run

active_cancellable_example :
    (is_active running ≡ not (is_final running))
    × (is_active running ≡ true
        → (walk running_run ((cancel_requested, 90) ∷ (cancelled, 90) ∷ [])).status ≡ cancelled)
active_cancellable_example = active_cancellable running_run 90

fail_all_returns_example :
    (r : QueueOutbox) × (fail_all 2 entry (50 ∷ 30 ∷ []) ≡ ok r)
    × (r.attempt_count ≡ 0 + length {A = ℕ} (30 ∷ []) + 1)
    × (50 < r.scheduled_at)
    × (r.status ≡ (if leb 2 (0 + length {A = ℕ} (30 ∷ []) + 1) then failed else pending))
fail_all_returns_example = fail_all_returns 2 entry 50 (30 ∷ []) (omega arith)

delay_example :
    (d : ℕ) × (compute_failure_retry_delay 65535 2
        (some (arxiv_error true (some 429) (some 90_000_000)))
      ≡ ok d)
    × (least_wait (some (arxiv_error true (some 429) (some 90_000_000))) ≤ d)
    × (requested_wait (some (arxiv_error true (some 429) (some 90_000_000))) ≤ d)
    × (d ≤ max backoff_max (requested_wait (some (arxiv_error true (some 429) (some 90_000_000)))))
delay_example =
    compute_failure_retry_delay_returns 65535 2
      (some (arxiv_error true (some 429) (some 90_000_000))) (omega arith)

compute_dispatch_backoff_doubles_example :
    (d : ℕ) × (compute_dispatch_backoff 1 ≡ ok 1_000_000)
    × (compute_dispatch_backoff 6 ≡ ok d)
    × (compute_dispatch_backoff 7 ≡ ok (min (2 * d) 60_000_000))
compute_dispatch_backoff_doubles_example = compute_dispatch_backoff_doubles 5 (omega arith)
