-- ===== src/History/Step.antt =====
-- The two halves of a step as postconditions of the repositories' actions.
use literature_research_agen.Base.{
  ℕ, ◌+◌, ◌≡◌, refl, sym, subst, Bool, true, false, ◌||◌, some, [], ◌∷◌, ◌++◌, arith, Json,
  update_where, leb,
}
use literature_research_agen.Run.{Run, RunStatus, transition_to}
use literature_research_agen.Run.Errors.{Result, ok, err}
use literature_research_agen.Event.{Event, EventType, ActorType, CorrelationId, Stamp, create_event}
use literature_research_agen.Db.{Db, lift, ◌>>◌}
use literature_research_agen.Db.Hoare.{Ensures, Ensures-unless}
use literature_research_agen.Db.Runs.{has_status, set_status, update_status}
use literature_research_agen.Db.Events.{add_event}
use literature_research_agen.Lifecycle.Advance.{change_status, append_event}
use literature_research_agen.History.Replay.{status_after}
use literature_research_agen.History.Sound.{
  IsLogged, IsAdvanced, IsPast, updated-IsAdvanced, uncounted_rows,
}
use literature_research_agen.History.Append.{appended-IsLogged}

-- The attempts and the outbox are as they were.
abbrev pub SameElsewhere : Db → Db → Type 0
SameElsewhere db db' = (db'.attempts ≡ db.attempts) × (db'.outbox ≡ db.outbox)

-- After the update: the row has moved if it was counted, and nothing has changed if it was not.
abbrev pub Changed : Run → RunStatus → RunStatus → Db → Bool → Db → Type 0
Changed run expected target db changed db' =
    (changed ≡ true → IsAdvanced run expected target db'.runs db'.events)
    × (changed ≡ false → IsLogged db'.runs db'.events)
    × SameElsewhere db db'

abbrev pub Logged : {A : Type 0} → Db → A → Db → Type 0
Logged db a db' = IsLogged db'.runs db'.events × SameElsewhere db db'

-- The two halves as postconditions of the actions. `add_event` refuses a number that is taken.
pub change_status-Ensures :
    (run : Run) (expected target : RunStatus) (now : ℕ) (db : Db)
    → IsLogged db.runs db.events
    → IsPast run db.runs
    → Ensures (Changed run expected target db) (change_status run expected target now db)
unfolding change_status update_status
change_status-Ensures run expected target now db logged past =
    refused_or_updated (transition_to run target now)
  where
    after : Db
    after = record db {
      runs =
          update_where (has_status run.run_id expected) (set_status target (run.event_sequence + 1))
            db.runs;
    }

    refused_or_updated :
        (moved : Result Run)
        → Ensures
            (Changed run expected target db)
            ((lift moved >> update_status run.run_id expected target (run.event_sequence + 1)) db)
    refused_or_updated (err e) = tt
    refused_or_updated (ok r) = (
      λ counted. updated-IsAdvanced run expected target db.runs db.events logged past counted,
      λ uncounted.
          subst (λ runs. IsLogged runs db.events)
            (sym (uncounted_rows run.run_id expected _ db.runs logged.unique uncounted)) logged,
      (refl, refl),
    )

not_refused : (a b : Bool) (n : ℕ) → (a || (leb 1 n || b)) ≡ false → n ≡ 0
not_refused a b n h = ground arith

pub append_event-Ensures :
    (run : Run) (expected target : RunStatus) (stamp : Stamp) (t : EventType) (actor : ActorType)
    (correlation : CorrelationId) (payload : Json) (db : Db)
    → IsAdvanced run expected target db.runs db.events
    → status_after t (some expected) ≡ some target
    → Ensures (Logged db) (append_event run stamp t actor correlation payload db)
unfolding append_event add_event create_event
append_event-Ensures run expected target stamp t actor correlation payload db adv type =
    Ensures-unless (Logged db) _ _ db event (record db { events = db.events ++ event ∷ [] })
      λ free. (
        appended-IsLogged run expected target event db.runs db.events adv type refl refl
            (not_refused _ _ _ free),
        (refl, refl),
      )
  where
    event : Event
    event = create_event stamp run.run_id run.event_sequence t actor correlation payload
