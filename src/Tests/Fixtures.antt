-- ===== src/Tests/Fixtures.antt =====
-- Databases with one run: queued, and running with an attempt and a dispatched outbox record.
use literature_research_agen.Base.{
  ℕ, refl, inl, inr, Option, none, some, [], ◌∷◌, arith, ◌==◌, Bool-cases, find_row, select_where,
  count_where, empty_payload, ◌≡◌, subst, sym,
}
use literature_research_agen.Run.{
  Run, RunType, queued, running, RunStatus, ingestion, indexing, rag_answer, review, agent_turn,
}
use literature_research_agen.Event.{Event, run_created, run_started, user, system, request, Stamp}
use literature_research_agen.Attempt.{RunAttempt, AttemptStatus}
use literature_research_agen.Outbox.{QueueOutbox, dispatched}
use literature_research_agen.Db.{Db}
use literature_research_agen.Lifecycle.Execution.{Claim, Executor}
use literature_research_agen.Lifecycle.Failure.{Failure}
use literature_research_agen.Lifecycle.Finish.{commit_answer}
use literature_research_agen.Lifecycle.Unknown.{ending_of}
use literature_research_agen.Invariant.Sound.{IsSound}
use literature_research_agen.Invariant.Execute.{KeepsSound, ending_of-db}
use literature_research_agen.Invariant.Finish.{commit_answer-IsSound}
use literature_research_agen.History.Replay.{replay, replay_from}
use literature_research_agen.System.Sound.{AllKeepSound}

abbrev pub run_at : RunStatus → ℕ → Run
run_at status event_sequence = record {
  run_id = 1;
  project_id = 7;
  owner_id = 9;
  run_type = "review";
  status = status;
  input_payload = empty_payload;
  result_payload = empty_payload;
  event_sequence = event_sequence;
  created_at = 10;
  updated_at = 10;
}

abbrev pub created : Event
created = record {
  event_id = 100;
  event_version = "1.0";
  event_type = run_created;
  run_id = 1;
  sequence = 1;
  occurred_at = 10;
  actor_type = user;
  correlation_id = request 3;
  payload = empty_payload;
}

abbrev pub started : Event
started = record created {
  event_id = 101;
  event_type = run_started;
  sequence = 2;
  actor_type = system;
}

abbrev pub attempt : RunAttempt
attempt = record {
  attempt_id = 200;
  run_id = 1;
  attempt_number = 1;
  worker_id = 5;
  status = AttemptStatus.running;
  started_at = 20;
  heartbeat_at = 20;
  finished_at = none;
  error = none;
}

abbrev pub entry : QueueOutbox
entry = record {
  outbox_id = 300;
  run_id = 1;
  status = dispatched;
  attempt_count = 0;
  scheduled_at = 10;
  dispatched_at = some 15;
  created_at = 10;
  updated_at = 15;
}

abbrev pub queued_run : Run
queued_run = run_at queued 2

abbrev pub running_run : Run
running_run = run_at running 3

abbrev pub queued_db : Db
queued_db = record { runs = queued_run ∷ []; events = created ∷ []; attempts = []; outbox = [] }

abbrev pub running_db : Db
running_db = record {
  runs = running_run ∷ [];
  events = created ∷ started ∷ [];
  attempts = attempt ∷ [];
  outbox = entry ∷ [];
}

abbrev pub first_claim : Claim
first_claim = record {
  attempt_id = 200;
  worker_id = 5;
  stamp = record { fresh_id = 101; now = 20 };
  correlation_id = request 3;
}

-- A stamp whose identifier is not in use.
abbrev pub stamp : Stamp
stamp = record { fresh_id = 102; now = 90 }

pub queued_db-IsSound : IsSound queued_db
unfolding find_row select_where count_where replay replay_from
queued_db-IsSound = record {
  log = record {
    unique = λ k. ground arith;
    faithful = λ k. elim (Bool-cases (1 == k)) [
      | inl own ↦ rw own ((refl, tt), refl, refl)
      | inr other ↦ rw other refl
    ];
  };
  tried = record { unique = λ k. omega arith; numbered = λ k. tt };
  scheduled = record { unique = λ k. omega arith; one_per_run = λ k. omega arith };
}

pub running_db-IsSound : IsSound running_db
unfolding find_row select_where count_where replay replay_from
running_db-IsSound = record {
  log = record {
    unique = λ k. ground arith;
    faithful = λ k. elim (Bool-cases (1 == k)) [
      | inl own ↦ rw own ((refl, (refl, tt)), refl, refl)
      | inr other ↦ rw other refl
    ];
  };
  tried = record {
    unique = λ k. ground arith;
    numbered =
        λ k. elim (Bool-cases (1 == k)) [ inl own ↦ rw own (refl, tt) | inr other ↦ rw other tt ];
  };
  scheduled = record { unique = λ k. ground arith; one_per_run = λ k. ground arith };
}

abbrev no_failure : Failure
no_failure = record { exc = none; error = empty_payload; digest = 0 }

-- An executor of questions whose work outside these tables is done, and that is left with its last
-- transaction.
abbrev answering : Stamp → Executor
answering own run correlation db =
    ending_of no_failure (commit_answer own correlation run empty_payload db)

answering-KeepsSound : (own : Stamp) → KeepsSound (answering own)
answering-KeepsSound own run correlation db h =
    subst IsSound
      (sym (ending_of-db no_failure (commit_answer own correlation run empty_payload db)))
      (commit_answer-IsSound own correlation empty_payload run db h)

-- The executor of the questions has done its work and is left with its last transaction; the other
-- run types have none, so that the dispatcher fails them.
abbrev pub answerers : RunType → Option Executor
answerers rag_answer = some (answering (record { fresh_id = 120; now = 40 }))
answerers _ = none

pub answerers-AllKeepSound : AllKeepSound answerers
answerers-AllKeepSound rag_answer executor h =
    subst KeepsSound (unwrapped h) (answering-KeepsSound (record { fresh_id = 120; now = 40 }))
  where
    unwrapped : {a b : Executor} → some a ≡ some b → a ≡ b
    unwrapped q = cc
answerers-AllKeepSound ingestion executor h = cc
answerers-AllKeepSound indexing executor h = cc
answerers-AllKeepSound review executor h = cc
answerers-AllKeepSound agent_turn executor h = cc
