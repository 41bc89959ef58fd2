-- ===== src/Retry.antt =====
-- backend/src/literature_agent/domain/retry_policy.py and the delay of application/failure_policy.py:
-- which failures are permanent, and how long a retry waits, in microseconds.
pub mod Delay
use literature_research_agen.Base.{
  ℕ, suc, ◌+◌, ◌-◌, ◌*◌, ◌/◌, ◌^◌, min, max, Bool, true, false, not, ◌||◌, Option, none, some, List,
  [], ◌∷◌, ◌==◌, if◌then◌else◌,
}
use literature_research_agen.Run.Errors.{Result, ok, err}
use literature_research_agen.Outbox.{compute_dispatch_backoff, backoff_max}

-- The exception classes of `_PERMANENT_TYPES`; `unlisted` is any other.
pub data ExceptionType : Type 0 where
  invalid_pdf_input_error file_validation_error idempotency_conflict_error : ExceptionType
  indexing_input_error evidence_scope_error evidence_matrix_invalid_error : ExceptionType
  evidence_matrix_scope_error review_outline_invalid_error review_outline_scope_error :
      ExceptionType
  rag_answer_input_error model_output_invalid_error model_auth_error : ExceptionType
  model_invalid_request_error model_response_error checkpoint_data_error : ExceptionType
  no_reviewable_papers_error review_search_strategy_invalid_error : ExceptionType
  review_section_scope_error review_section_invalid_error review_citation_invalid_error :
      ExceptionType
  review_export_invalid_error unlisted : ExceptionType

-- `RuntimeErrorKind`
pub data RuntimeErrorKind : Type 0 where
  temporary permanent cancelled : RuntimeErrorKind

-- What the policies read of an exception. `arxiv_error` has `temporary`, `http_status` and
-- `retry_after_seconds`.
pub data Exception : Type 0 where
  arxiv_error : Bool → Option ℕ → Option ℕ → Exception
  research_agent_runtime_error : RuntimeErrorKind → Exception
  domain_error : ExceptionType → Exception

-- `isinstance(exc, _PERMANENT_TYPES)`
unfoldable pub is_permanent_type : ExceptionType → Bool
is_permanent_type unlisted = false
is_permanent_type _ = true

-- `is_permanent_error`
unfoldable pub is_permanent_error : Exception → Bool
unfolding is_permanent_type
is_permanent_error (arxiv_error is_temporary _ _) = not is_temporary
is_permanent_error (research_agent_runtime_error _) = false
is_permanent_error (domain_error t) = is_permanent_type t

-- `exc.kind in {PERMANENT, CANCELLED}`
unfoldable pub is_permanent_kind : Exception → Bool
is_permanent_kind (research_agent_runtime_error temporary) = false
is_permanent_kind (research_agent_runtime_error _) = true
is_permanent_kind _ = false

-- `permanent` in `apply_run_failure`; without an exception (a crashed worker) it is temporary.
unfoldable pub is_permanent_failure : Option Exception → Bool
unfolding is_permanent_error is_permanent_kind
is_permanent_failure none = false
is_permanent_failure (some exc) = is_permanent_error exc || is_permanent_kind exc

-- `compute_retry_backoff`
unfoldable pub compute_retry_backoff : ℕ → Result ℕ
compute_retry_backoff = compute_dispatch_backoff

-- `digest / 65535 * 3.0` seconds, rounded to the nearest microsecond as `timedelta` does.
unfoldable pub jitter : ℕ → ℕ
jitter digest = (digest * 6_000_000 + 65_535) / 131_070

-- The fallback wait after a 429: 15 s, doubled for each attempt after the first, and 60 s at most.
unfoldable pub rate_limit_fallback : ℕ → ℕ → ℕ
unfolding jitter
rate_limit_fallback digest attempts_used =
    min backoff_max (15_000_000 * 2 ^ (attempts_used - 1) + jitter digest)

-- The part of `_compute_failure_retry_delay` behind the generic backoff.
unfoldable pub failure_delay : ℕ → ℕ → ℕ → Option Exception → ℕ
unfolding rate_limit_fallback
failure_delay digest attempts_used generic (some (arxiv_error true (some status) retry_after)) =
    if status == 429
    then elim retry_after [
      | none ↦ rate_limit_fallback digest attempts_used
      | some seconds ↦ max (rate_limit_fallback digest attempts_used) seconds
    ]
    else max generic 3_000_000
failure_delay digest attempts_used generic (some (arxiv_error true none retry_after)) =
    max generic 3_000_000
failure_delay digest attempts_used generic _ = generic

-- `_compute_failure_retry_delay`; the number of the first two bytes of the SHA-256 of the run and
-- the attempt is an argument.
unfoldable pub compute_failure_retry_delay : ℕ → ℕ → Option Exception → Result ℕ
unfolding compute_retry_backoff failure_delay
compute_failure_retry_delay digest attempts_used exc = elim (compute_retry_backoff attempts_used) [
  | err e ↦ err e
  | ok generic ↦ ok (failure_delay digest attempts_used generic exc)
]
