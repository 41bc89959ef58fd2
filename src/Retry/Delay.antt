-- ===== src/Retry/Delay.antt =====
-- Bounds of the retry delay of application/failure_policy.py.
use literature_research_agen.Base.{
  ℕ, ◌-◌, ◌≤◌, max, ◌≡◌, refl, true, false, Option, none, some, arith, ◌==◌, if◌then◌else◌,
}
use literature_research_agen.Run.Errors.{ok}
use literature_research_agen.Outbox.{backoff_max}
use literature_research_agen.Outbox.Backoff.{compute_dispatch_backoff_returns, pow-pos}
use literature_research_agen.Retry.{
  Exception, arxiv_error, research_agent_runtime_error, domain_error, compute_failure_retry_delay,
  failure_delay, rate_limit_fallback, compute_retry_backoff,
}

-- The server's wait that a temporary arXiv error asks for, if it is a 429.
abbrev pub requested_wait : Option Exception → ℕ
requested_wait (some (arxiv_error true (some status) (some seconds))) =
    if status == 429 then seconds else 0
requested_wait _ = 0

-- What is waited at least: 15 s after a 429, 3 s after another temporary arXiv error, else 0.5 s.
abbrev pub least_wait : Option Exception → ℕ
least_wait (some (arxiv_error true (some status) _)) =
    if status == 429 then 15_000_000 else 3_000_000
least_wait (some (arxiv_error true none _)) = 3_000_000
least_wait _ = 500_000

rate_limit_fallback_bounds :
    (digest attempts_used : ℕ)
    → (15_000_000 ≤ rate_limit_fallback digest attempts_used)
      × (rate_limit_fallback digest attempts_used ≤ backoff_max)
unfolding rate_limit_fallback
rate_limit_fallback_bounds digest attempts_used = omega (arith, pow-pos (attempts_used - 1))

failure_delay_bounds :
    (digest n generic : ℕ) (exc : Option Exception)
    → 500_000 ≤ generic
    → generic ≤ backoff_max
    → (least_wait exc ≤ failure_delay digest n generic exc)
      × (requested_wait exc ≤ failure_delay digest n generic exc)
      × (failure_delay digest n generic exc ≤ max backoff_max (requested_wait exc))
unfolding failure_delay
failure_delay_bounds digest n g none h k = omega arith
failure_delay_bounds digest n g (some (arxiv_error true (some s) none)) h k =
    ground (arith, rate_limit_fallback_bounds digest n)
failure_delay_bounds digest n g (some (arxiv_error true (some s) (some w))) h k =
    ground (arith, rate_limit_fallback_bounds digest n)
failure_delay_bounds digest n g (some (arxiv_error true none w)) h k = omega arith
failure_delay_bounds digest n g (some (arxiv_error false s w)) h k = omega arith
failure_delay_bounds digest n g (some (research_agent_runtime_error kind)) h k = omega arith
failure_delay_bounds digest n g (some (domain_error t)) h k = omega arith

-- Up to 1024 attempts a delay is computed: it meets the least wait of its failure and the wait
-- that the server asked for, and never passes the larger of a minute and that wait.
pub compute_failure_retry_delay_returns :
    (digest attempts_used : ℕ) (exc : Option Exception)
    → attempts_used ≤ 1024
    → (d : ℕ) × (compute_failure_retry_delay digest attempts_used exc ≡ ok d)
      × (least_wait exc ≤ d)
      × (requested_wait exc ≤ d)
      × (d ≤ max backoff_max (requested_wait exc))
unfolding compute_failure_retry_delay compute_retry_backoff
compute_failure_retry_delay_returns digest n exc few =
    let (g, q, lo, hi) = compute_dispatch_backoff_returns n few in
    let (least, asked, most) = failure_delay_bounds digest n g exc lo hi in
    (
      failure_delay digest n g exc,
      rw (compute_failure_retry_delay, compute_retry_backoff, q) refl,
      least,
      asked,
      most,
    )
