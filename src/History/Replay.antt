-- ===== src/History/Replay.antt =====
-- Replaying a log of events, and logs that are numbered without a gap.
use literature_research_agen.Base.{
  ℕ, suc, ◌+◌, ◌≤◌, ◌<◌, ◌≡◌, refl, Bool, Option, none, some, List, [], ◌∷◌, ◌++◌, length, arith,
  ◌==◌, count_where,
}
use literature_research_agen.Run.{
  RunStatus, queued, running, succeeded, failed, retry_wait, waiting_input, waiting_dependency,
  cancel_requested, cancelled,
}
use literature_research_agen.Event.{
  Event, EventType, run_created, run_started, run_completed, run_succeeded, run_failed,
  run_retry_scheduled, run_requeued, run_cancel_requested, run_cancelled, dependency_wait_started,
  dependency_wait_completed, human_input_requested, human_input_submitted,
  review_source_selection_requested, review_run_created, result_committed, indexing_completed,
  answer_committed, agent_turn_succeeded, other,
}

-- The status that a run has after an event.
abbrev pub status_after : EventType → Option RunStatus → Option RunStatus
status_after run_created s = some queued
status_after run_started s = some running
status_after run_completed s = some succeeded
status_after run_succeeded s = some succeeded
status_after run_failed s = some failed
status_after run_retry_scheduled s = some retry_wait
status_after run_requeued s = some queued
status_after run_cancel_requested s = some cancel_requested
status_after run_cancelled s = some cancelled
status_after dependency_wait_started s = some waiting_dependency
status_after dependency_wait_completed s = some queued
status_after human_input_requested s = some waiting_input
status_after human_input_submitted s = some queued
status_after review_source_selection_requested s = some waiting_input
status_after review_run_created s = some queued
status_after result_committed s = some succeeded
status_after indexing_completed s = some succeeded
status_after answer_committed s = some succeeded
status_after agent_turn_succeeded s = some succeeded
status_after (other t) s = s

unfoldable pub replay_from : Option RunStatus → List Event → Option RunStatus
replay_from s [] = s
replay_from s (e ∷ es) = replay_from (status_after e.event_type s) es

-- The status of a run by its events alone.
unfoldable pub replay : List Event → Option RunStatus
unfolding replay_from
replay = replay_from none

pub replay_from-append :
    (s : Option RunStatus) (es : List Event) (e : Event)
    → replay_from s (es ++ e ∷ []) ≡ status_after e.event_type (replay_from s es)
unfolding replay_from
replay_from-append s [] e = refl
replay_from-append s (x ∷ es) e = replay_from-append (status_after x.event_type s) es e

pub replay-append :
    (es : List Event) (e : Event) → replay (es ++ e ∷ []) ≡ status_after e.event_type (replay es)
unfolding replay
replay-append es e = replay_from-append none es e

-- The sequence numbers are n, n + 1, n + 2, … in the order of the list.
abbrev pub Numbered : ℕ → List Event → Type 0
Numbered n [] = Unit
Numbered n (e ∷ es) = (e.sequence ≡ n) × Numbered (suc n) es

pub Numbered-append :
    (n : ℕ) (es : List Event) (e : Event)
    → Numbered n es
    → e.sequence ≡ n + length es
    → Numbered n (es ++ e ∷ [])
Numbered-append n [] e h q = (omega arith, tt)
Numbered-append n (x ∷ es) e h q = (h.0, Numbered-append (suc n) es e h.1 (omega arith))

abbrev pub has_sequence : ℕ → Event → Bool
has_sequence s e = e.sequence == s

-- A number in the range of a numbered log is taken.
pub Numbered-taken :
    (n s : ℕ) (es : List Event)
    → Numbered n es
    → n ≤ s
    → s < n + length es
    → 1 ≤ count_where (has_sequence s) es
unfolding count_where
Numbered-taken n s [] h lo hi = absurd (omega arith)
Numbered-taken n s (x ∷ es) h lo hi = ground (arith, Numbered-taken (suc n) s es h.1)

-- A number past the end is free.
pub Numbered-free :
    (n s : ℕ) (es : List Event)
    → Numbered n es
    → n + length es ≤ s
    → count_where (has_sequence s) es ≡ 0
unfolding count_where
Numbered-free n s [] h hi = refl
Numbered-free n s (x ∷ es) h hi = ground (arith, Numbered-free (suc n) s es h.1)
