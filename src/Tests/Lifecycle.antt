-- ===== src/Tests/Lifecycle.antt =====
-- The theorems on the run lifecycle, applied.
use literature_research_agen.Base.{
  inr, ℕ, ◌+◌, ◌≡◌, ◌≤◌, refl, ap, subst, true, false, none, some, List, [], ◌∷◌, take, drop, arith,
  ◌==◌, if◌then◌else◌, find_row, select_where, count_where, empty_payload,
}
use literature_research_agen.Run.{
  Run, retry_wait, cancelled, succeeded, failed, is_active, contains_status, same_status,
  transitions,
}
use literature_research_agen.Run.Errors.{ok, err, run_not_found, invalid_run_transition}
use literature_research_agen.Event.{Event, run_completed, system, request, reconcile, create_event}
use literature_research_agen.Attempt.{same_attempt_status}
use literature_research_agen.Retry.{domain_error, ExceptionType, compute_failure_retry_delay}
use literature_research_agen.Db.{Db, transaction}
use literature_research_agen.Db.Runs.{run_key}
use literature_research_agen.Db.Events.{of_run, list_after}
use literature_research_agen.Db.Attempts.{attempt_of, is_executing, latest_of}
use literature_research_agen.Lifecycle.Service.{execute_transition, advanced, cancel_run}
use literature_research_agen.Lifecycle.Failure.{
  Failure, run_ended, retry_scheduled, apply_run_failure,
}
use literature_research_agen.Lifecycle.Execution.{Claim, claimed_run, claim_row}
use literature_research_agen.Lifecycle.Reconcile.{worker_crashed, still_expired, recover}
use literature_research_agen.History.Sound.{IsPast}
use literature_research_agen.History.Page.{list_after_page}
use literature_research_agen.Invariant.Sound.{IsSound}
use literature_research_agen.Lifecycle.Orphans.{close_orphan}
use literature_research_agen.Invariant.Orphans.{close_orphan_current}
use literature_research_agen.Lifecycle.Finish.{commit_answer}
use literature_research_agen.Invariant.Finish.{commit_answer-IsSound}
use literature_research_agen.System.Calls.{Call, submits, executes, cancels, perform_all, empty_db}
use literature_research_agen.System.Sound.{empty_db-IsSound, lifecycle_IsSound}
use literature_research_agen.Progress.Step.{CanStep, stepped_db, execute_transition_returns}
use literature_research_agen.Progress.Cancel.{
  cancel_goal, cancelling, cancel_run_returns, cancel_run_refused,
}
use literature_research_agen.Progress.Claim.{CanClaim, claimed_attempt, claimed_db, claim_row_once}
use literature_research_agen.Progress.Failure.{
  CanFail, is_retried, retried_event, failed_event, rescheduled_db, apply_run_failure_returns,
}
use literature_research_agen.Progress.Stale.{Unchanged, claim_row_stale, prepare_row_stale}
use literature_research_agen.Lifecycle.Dispatch.{skipped, prepare_row}
use literature_research_agen.Tests.Fixtures.{run_at, entry}
use literature_research_agen.Progress.Recover.{
  crash_target, crashed_db, recover_alive, recover_crashed,
}
use literature_research_agen.Tests.Fixtures.{
  queued_run, running_run, queued_db, running_db, first_claim, stamp, attempt, queued_db-IsSound,
  running_db-IsSound, answerers, answerers-AllKeepSound,
}

abbrev invalid_pdf : Failure
invalid_pdf = record {
  exc = some (domain_error ExceptionType.invalid_pdf_input_error);
  error = empty_payload;
  digest = 0;
}

abbrev second_claim : Claim
second_claim = record {
  attempt_id = 210;
  worker_id = 5;
  stamp = record { fresh_id = 140; now = 70 };
  correlation_id = request 6;
}

-- A run is submitted, claimed and failed for want of an executor; another is submitted and cancelled;
-- a third is submitted, claimed and answered.
abbrev some_calls : List Call
some_calls =
    submits 1 9 7 (record { fresh_id = 100; now = 10 }) "review" empty_payload (request 3)
    ∷ executes 1 first_claim (record { max_run_attempts = 3; now = 30; stamp = stamp }) stamp
        invalid_pdf
    ∷ submits 2 9 7 (record { fresh_id = 110; now = 40 }) "indexing" empty_payload (request 4)
    ∷ cancels 9 2 (record { fresh_id = 111; now = 50 }) (request 5)
    ∷ submits 3 9 7 (record { fresh_id = 130; now = 60 }) "rag_answer" empty_payload (request 6)
    ∷ executes 3 second_claim (record { max_run_attempts = 3; now = 80; stamp = stamp }) stamp
        invalid_pdf
    ∷ []

lifecycle_IsSound_example : IsSound (perform_all answerers some_calls empty_db)
lifecycle_IsSound_example =
    lifecycle_IsSound answerers some_calls empty_db answerers-AllKeepSound empty_db-IsSound

commit_answer-IsSound_example :
    IsSound (commit_answer stamp (request 3) running_run empty_payload running_db).1
commit_answer-IsSound_example =
    commit_answer-IsSound stamp (request 3) empty_payload running_run running_db running_db-IsSound

queued_db-found : find_row run_key 1 queued_db.runs ≡ some queued_run
unfolding find_row
queued_db-found = refl

running_db-found : find_row run_key 1 running_db.runs ≡ some running_run
unfolding find_row
running_db-found = refl

queued_db-CanClaim : CanClaim first_claim queued_run queued_db
unfolding find_row
queued_db-CanClaim = record {
  sound = queued_db-IsSound;
  stored = refl;
  waiting = refl;
  fresh_event = refl;
  fresh_attempt = refl;
}

claim_row_once_example :
    (transaction (claim_row first_claim (some queued_run)) queued_db ≡ (
      ok (
          some
            (claimed_run queued_run 20, some (claimed_attempt first_claim queued_run queued_db))),
      claimed_db first_claim queued_run queued_db,
    ))
    × (transaction
          (claim_row (record first_claim { attempt_id = 201 }) (some queued_run))
          (claimed_db first_claim queued_run queued_db)
        ≡ (ok (some (queued_run, none)), claimed_db first_claim queued_run queued_db))
claim_row_once_example =
    claim_row_once first_claim (record first_claim { attempt_id = 201 }) queued_run queued_db
      queued_db-CanClaim

some-injective : {a b : Run} → some a ≡ some b → a ≡ b
some-injective q = ap (λ o. elim o as (λ _. Run) [ none ↦ queued_run | some x ↦ x ]) q

-- A reading of the run from before it was claimed is past.
queued_run-IsPast : IsPast queued_run running_db.runs
unfolding find_row
queued_run-IsPast r h =
    (omega arith, subst (λ (q : Run). 2 ≤ q.event_sequence) (some-injective h) (omega arith))

running_db-CanStep : CanStep running_run succeeded stamp running_db
unfolding find_row contains_status transitions same_status
running_db-CanStep = record {
  logged = running_db-IsSound.log;
  stored = refl;
  listed = refl;
  fresh = refl;
}

execute_transition_returns_example :
    execute_transition stamp running_run succeeded run_completed system
      (request 3)
      empty_payload
      none
      running_db
    ≡ (
      ok (advanced (record running_run { status = succeeded; updated_at = 90 })),
      stepped_db running_run succeeded
          (create_event stamp 1 3 run_completed system (request 3) empty_payload)
          running_db,
    )
execute_transition_returns_example =
    execute_transition_returns stamp running_run succeeded run_completed system (request 3)
      empty_payload none running_db running_db-CanStep

event_102_free : find_row (λ (e : Event). e.event_id) 102 running_db.events ≡ none
unfolding find_row
event_102_free = refl

running_run_active : is_active running_run.status ≡ true
unfolding is_active contains_status same_status
running_run_active = refl

cancel_run_returns_example : cancel_run stamp 9 1 (request 6) running_db ≡ (
  ok (advanced (record running_run { status = cancel_goal running_run; updated_at = 90 })),
  stepped_db running_run
      (cancel_goal running_run)
      (cancelling stamp (request 6) running_run)
      running_db,
)
cancel_run_returns_example =
    cancel_run_returns stamp running_run (request 6) running_db running_db-IsSound.log
      running_db-found event_102_free running_run_active

page_example :
    list_after 1 1 5 running_db ≡ take 5 (drop 1 (select_where (of_run 1) running_db.events))
page_example = list_after_page 1 1 5 running_db running_db-IsSound.log

one_attempt : count_where (attempt_of 1) running_db.attempts ≤ 1024
unfolding count_where
one_attempt = omega arith

running_db-CanFail :
    (failure : Failure) → CanFail 3 90 stamp running_run failure (request 3) running_db
unfolding find_row
running_db-CanFail failure = record {
  sound = running_db-IsSound;
  stored = refl;
  executing = refl;
  fresh = refl;
  few = one_attempt;
}

apply_run_failure_returns_example :
    (delay : ℕ) × (compute_failure_retry_delay 0
        (count_where (attempt_of 1) running_db.attempts)
        invalid_pdf.exc
      ≡ ok delay)
    × (apply_run_failure 3 90 stamp running_run invalid_pdf (request 3) running_db ≡ (
        if is_retried 3 90 stamp running_run invalid_pdf (request 3) running_db
        then (
          ok retry_scheduled,
          stepped_db running_run retry_wait
              (retried_event 3 90 stamp running_run invalid_pdf (request 3) running_db (90 + delay))
              (rescheduled_db 3 90 stamp running_run invalid_pdf
                (request 3)
                running_db
                (90 + delay)),
        )
        else (
          ok run_ended,
          stepped_db running_run failed
              (failed_event 3 90 stamp running_run invalid_pdf (request 3) running_db)
              running_db,
        )))
apply_run_failure_returns_example =
    apply_run_failure_returns 3 90 stamp running_run invalid_pdf (request 3) running_db
      (running_db-CanFail invalid_pdf)

running_db-crashed : CanFail 3 90 stamp running_run worker_crashed (reconcile 200) running_db
unfolding find_row
running_db-crashed = record {
  sound = running_db-IsSound;
  stored = refl;
  executing = refl;
  fresh = refl;
  few = one_attempt;
}

attempt_expired :
    still_expired 200 60 (latest_of (select_where (attempt_of 1) running_db.attempts)) ≡ true
unfolding still_expired latest_of select_where same_attempt_status
attempt_expired = refl

recover_crashed_example :
    (db' : Db) × (row : Run) × (recover 3 1 200 60 90 stamp running_db ≡ (ok true, db'))
    × (find_row run_key 1 db'.runs ≡ some row)
    × (is_executing row.status ≡ false)
    × (row.status ≡ crash_target 3 200 90 stamp running_run running_db)
    × (db'.attempts ≡ (crashed_db 3 200 90 stamp running_run running_db).attempts)
recover_crashed_example =
    recover_crashed 3 200 60 90 stamp running_run running_db running_db-crashed attempt_expired

running_run_executing : is_executing running_run.status ≡ true
unfolding contains_status same_status
running_run_executing = refl

attempt_latest : latest_of (select_where (attempt_of 1) running_db.attempts) ≡ some attempt
unfolding latest_of select_where
attempt_latest = refl

recover_alive_example : recover 3 1 200 20 90 stamp running_db ≡ (ok false, running_db)
recover_alive_example =
    recover_alive 3 200 20 90 stamp running_run running_db attempt running_db-found
      running_run_executing attempt_latest (inr (inr (omega arith)))

cancel_run_refused_example :
    ((run : Run)
      → find_row run_key 1 running_db.runs ≡ some run
      → run.owner_id ≡ 4
      → is_active run.status ≡ false
      → cancel_run stamp 4 1 (request 6) running_db
        ≡ (err (invalid_run_transition run.run_id run.status cancelled), running_db))
    × ((run : Run)
        → find_row run_key 1 running_db.runs ≡ some run
        → (run.owner_id == 4) ≡ false
        → cancel_run stamp 4 1 (request 6) running_db ≡ (err (run_not_found 1), running_db))
    × (find_row run_key 1 running_db.runs ≡ none
        → cancel_run stamp 4 1 (request 6) running_db ≡ (err (run_not_found 1), running_db))
cancel_run_refused_example = cancel_run_refused stamp 4 1 (request 6) running_db

close_orphan_current_example : close_orphan 1 200 95 running_db ≡ (ok false, running_db)
close_orphan_current_example =
    close_orphan_current running_run attempt 95 running_db running_db-found running_run_executing
      attempt_latest

claim_row_stale_example :
    Unchanged (claim_row first_claim (some queued_run)) (some (queued_run, none)) running_db
claim_row_stale_example =
    claim_row_stale queued_run running_run running_db first_claim running_db-IsSound.log
      running_db-found (omega arith) (omega arith)

-- The run as it was read while it waited, before it was started.
abbrev waiting_run : Run
waiting_run = run_at retry_wait 2

prepare_row_stale_example :
    Unchanged (prepare_row 90 stamp entry (some waiting_run)) skipped running_db
prepare_row_stale_example =
    prepare_row_stale waiting_run running_run running_db 90 stamp entry running_db-IsSound.log
      running_db-found (omega arith) (omega arith) refl
