-- ===== src/History/Append.antt =====
-- The event that completes a step: appended to its run's log under the row's old number.
use mathlib.Core.Path.{subst₂}
use mathlib.Core.List.{append-nil}
use native.Mathlib.Decide.{ℕ_discrete, dec_lt}
use literature_research_agen.Base.{
  ℕ, suc, ◌+◌, ◌≤◌, ◌≡◌, ◌≢◌, sym, ◌∙◌, ap, subst, inl, inr, some, List, [], ◌∷◌, ◌++◌, length,
  length-append, arith, ◌==◌, ==_iff, count_where, select_where, find_row, count_where-select_where,
  select_where-append, Bool-cases,
}
use literature_research_agen.Run.{Run, RunStatus}
use literature_research_agen.Event.{Event}
use literature_research_agen.Db.Runs.{run_key}
use literature_research_agen.Db.Events.{of_run, clashes}
use literature_research_agen.History.Replay.{
  status_after, replay, replay-append, Numbered, Numbered-append, has_sequence, Numbered-taken,
}
use literature_research_agen.History.Sound.{Faithful, IsLogged, IsAdvanced}

clashes-has_sequence :
    (e : Event) (events : List Event)
    → count_where (clashes e) events
      ≡ count_where (has_sequence e.sequence) (select_where (of_run e.run_id) events)
clashes-has_sequence e events =
    count_where-select_where (of_run e.run_id) (has_sequence e.sequence) events

free_at_end :
    (s : ℕ) (log : List Event)
    → Numbered 1 log
    → 1 ≤ s
    → s ≤ suc (length log)
    → count_where (has_sequence s) log ≡ 0
    → s ≡ suc (length log)
free_at_end s log h lo hi free = elim (dec_lt s (1 + length log)) [
  | yes inside ↦ absurd (omega (arith, Numbered-taken 1 s log h lo inside))
  | no outside ↦ omega arith
]

pub select-append_own :
    (k : ℕ) (e : Event) (events : List Event)
    → e.run_id ≡ k
    → select_where (of_run k) (events ++ e ∷ []) ≡ select_where (of_run k) events ++ e ∷ []
select-append_own k e events own =
    rw (select_where-append (of_run k) events e, (==_iff e.run_id k).1 own)

pub select-append_other :
    (k : ℕ) (e : Event) (events : List Event)
    → e.run_id ≢ k
    → select_where (of_run k) (events ++ e ∷ []) ≡ select_where (of_run k) events
select-append_other k e events other = elim (Bool-cases (e.run_id == k)) [
  | inl same ↦ absurd (other ((==_iff e.run_id k).0 same))
  | inr differs ↦ rw (select_where-append (of_run k) events e, differs, append-nil)
]

-- The log of the advanced run, with the event at its end, describes the row.
appended_row :
    (log : List Event) (e : Event) (row : Run) (expected target : RunStatus) (s : ℕ)
    → Numbered 1 log
    → replay log ≡ some expected
    → status_after e.event_type (some expected) ≡ some target
    → e.sequence ≡ s
    → s ≡ suc (length log)
    → row.event_sequence ≡ suc s
    → row.status ≡ target
    → Faithful (some row) (log ++ e ∷ [])
appended_row log e row expected target s numbered replayed type number at_end next moved = (
  Numbered-append 1 log e numbered (omega arith),
  omega (arith, length-append log (e ∷ [])),
  replay-append log e ∙ ap (status_after e.event_type) replayed ∙ type ∙ ap some (sym moved),
)

-- The event of the row with its old number completes the step, if the number is free.
pub appended-IsLogged :
    (run : Run) (expected target : RunStatus) (e : Event) (runs : List Run) (events : List Event)
    → IsAdvanced run expected target runs events
    → status_after e.event_type (some expected) ≡ some target
    → e.run_id ≡ run.run_id
    → e.sequence ≡ run.event_sequence
    → count_where (clashes e) events ≡ 0
    → IsLogged runs (events ++ e ∷ [])
appended-IsLogged run expected target e runs events adv type own number free = record {
  unique = adv.unique;
  faithful = λ k. elim (ℕ_discrete k run.run_id) [
    | yes same ↦
        subst (λ i. Faithful (find_row run_key i runs) (select_where (of_run i) (events ++ e ∷ [])))
          (sym same)
          (subst₂ Faithful (sym adv.found) (sym (select-append_own run.run_id e events own)) (
            appended_row log e adv.row expected target run.event_sequence adv.numbered adv.replayed
              type number at_end adv.next adv.moved))
    | no differs ↦
        subst (Faithful (find_row run_key k runs))
          (sym (select-append_other k e events (λ q. differs (sym q ∙ own)))) (adv.others k differs)
  ];
}
  where
    log : List Event
    log = select_where (of_run run.run_id) events

    not_taken : count_where (has_sequence run.event_sequence) log ≡ 0
    not_taken =
        subst₂ (λ i s. count_where (has_sequence s) (select_where (of_run i) events) ≡ 0) own number
          (sym (clashes-has_sequence e events) ∙ free)

    at_end : run.event_sequence ≡ suc (length log)
    at_end = free_at_end run.event_sequence log adv.numbered adv.positive adv.past not_taken
