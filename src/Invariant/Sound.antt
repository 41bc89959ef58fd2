-- ===== src/Invariant/Sound.antt =====
-- The whole invariant, what each repository action keeps of it, and the step that the services share.
use literature_research_agen.Base.{ℕ, ◌≡◌, refl, sym, subst, Bool, true, false, some, List, Json}
use literature_research_agen.Run.{Run, RunStatus}
use literature_research_agen.Run.Errors.{Error}
use literature_research_agen.Event.{Event, EventType, ActorType, CorrelationId, Stamp}
use literature_research_agen.Db.{Db, Action, require, ◌>>=◌, ◌>>◌}
use literature_research_agen.Db.Hoare.{Ensures, Ensures-weaken, Ensures-bind}
use literature_research_agen.Lifecycle.Advance.{change_status, append_event}
use literature_research_agen.History.Replay.{status_after}
use literature_research_agen.History.Sound.{IsLogged, IsAdvanced, IsPast}
use literature_research_agen.History.Step.{
  Changed, Logged, SameElsewhere, change_status-Ensures, append_event-Ensures,
}
use literature_research_agen.Invariant.Attempts.{IsTried}
use literature_research_agen.Invariant.Outboxes.{IsScheduled}

-- The invariant over a condition on runs and events: `IsLogged` between steps, `IsAdvanced` within.
pub record Holds (L : List Run → List Event → Type 0) (db : Db) : Type 0 where
  pub log : L db.runs db.events
  pub tried : IsTried db.attempts
  pub scheduled : IsScheduled db.outbox

-- Between transactions: every run's row agrees with its numbered events, the attempts of each run
-- are numbered without a gap, and each run has one outbox record at most.
abbrev pub IsSound : Db → Type 0
IsSound = Holds IsLogged

module _ (L M : List Run → List Event → Type 0) (db db' : Db) where
  Holds-beside : Holds L db → M db'.runs db'.events → SameElsewhere db db' → Holds M db'
  Holds-beside h m same = record {
    log = m;
    tried = subst IsTried (sym same.0) h.tried;
    scheduled = subst IsScheduled (sym same.1) h.scheduled;
  }

-- After the conditional update.
abbrev pub Moving : Run → RunStatus → RunStatus → Bool → Db → Type 0
Moving run expected target changed db =
    (changed ≡ true → Holds (IsAdvanced run expected target) db) × (changed ≡ false → IsSound db)

pub change_status-Holds :
    (run : Run) (expected target : RunStatus) (now : ℕ) (db : Db)
    → IsSound db
    → IsPast run db.runs
    → Ensures (Moving run expected target) (change_status run expected target now db)
change_status-Holds run expected target now db h past =
    Ensures-weaken (Changed run expected target db) (Moving run expected target)
      (change_status run expected target now) db
      (change_status-Ensures run expected target now db h.log past)
      λ changed db' c. (
        λ t. Holds-beside IsLogged (IsAdvanced run expected target) db db' h (c.0 t) c.2,
        λ f. Holds-beside IsLogged IsLogged db db' h (c.1 f) c.2,
      )

pub append_event-Holds :
    (run : Run) (expected target : RunStatus) (stamp : Stamp) (t : EventType) (actor : ActorType)
    (correlation : CorrelationId) (payload : Json) (db : Db)
    → Holds (IsAdvanced run expected target) db
    → status_after t (some expected) ≡ some target
    → Ensures (λ _. IsSound) (append_event run stamp t actor correlation payload db)
append_event-Holds run expected target stamp t actor correlation payload db h type =
    Ensures-weaken (Logged db) (λ _. IsSound) (append_event run stamp t actor correlation payload)
      db (append_event-Ensures run expected target stamp t actor correlation payload db h.log type)
      λ _ db' l. Holds-beside (IsAdvanced run expected target) IsLogged db db' h l.0 l.1

-- The step that the services share, before whatever follows it in the transaction.
module _ {B : Type 0} (run : Run) (expected target : RunStatus) (stamp : Stamp) (t : EventType)
    (actor : ActorType) (correlation : CorrelationId) (payload : Json) (R : B → Db → Type 0)
    (k : Action B) where
  pub append_then :
      (db : Db)
      → Holds (IsAdvanced run expected target) db
      → status_after t (some expected) ≡ some target
      → ((db' : Db) → IsSound db' → Ensures R (k db'))
      → Ensures R ((append_event run stamp t actor correlation payload >> k) db)
  append_then db h type rest =
      Ensures-bind (λ _. IsSound) R (append_event run stamp t actor correlation payload) (λ _. k) db
        (append_event-Holds run expected target stamp t actor correlation payload db h type)
        (λ _ db' s. rest db' s)

  required_then :
      (e : Error) (changed : Bool) (db : Db)
      → Moving run expected target changed db
      → status_after t (some expected) ≡ some target
      → ((db' : Db) → IsSound db' → Ensures R (k db'))
      → Ensures R
          ((require changed e >> (append_event run stamp t actor correlation payload >> k)) db)
  required_then e true db h type rest = append_then db (h.0 refl) type rest
  required_then e false db h type rest = tt

  pub advance_then :
      (e : Error) (db : Db)
      → IsSound db
      → IsPast run db.runs
      → status_after t (some expected) ≡ some target
      → ((db' : Db) → IsSound db' → Ensures R (k db'))
      → Ensures R (
          (change_status run expected target stamp.now >>= λ changed.
          require changed e >> (append_event run stamp t actor correlation payload >> k))
            db)
  advance_then e db h past type rest =
      Ensures-bind (Moving run expected target) R (change_status run expected target stamp.now)
        (λ changed. require changed e >> (append_event run stamp t actor correlation payload >> k))
        db (change_status-Holds run expected target stamp.now db h past)
        (λ changed db' m. required_then e changed db' m type rest)
