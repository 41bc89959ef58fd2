-- ===== src/Run/Errors.antt =====
-- The exceptions of domain/exceptions.py that the run lifecycle raises, and results that carry them.
-- `integrity_error` is the database's refusal of a row that breaks a key.
use literature_research_agen.Base.{ℕ}
use literature_research_agen.Run.Status.{RunStatus}

pub data Error : Type 0 where
  invalid_run_transition : ℕ → RunStatus → RunStatus → Error
  run_not_found run_concurrent_modification run_scheduling : ℕ → Error
  value_error overflow_error integrity_error no_result_found executor_error : Error

pub data Result {ℓ} (A : Type ℓ) : Type ℓ where
  ok : A → Result A
  err : Error → Result A
