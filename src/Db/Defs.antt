-- ===== src/Db/Defs.antt =====
-- The state of the database, and actions that may raise. An action runs inside a transaction: a
-- raise or a rollback restores the state before it.
use literature_research_agen.Base.{Bool, true, false, List}
use literature_research_agen.Run.{Run}
use literature_research_agen.Run.Errors.{Error, Result, ok, err}
use literature_research_agen.Event.{Event}
use literature_research_agen.Attempt.{RunAttempt}
use literature_research_agen.Outbox.{QueueOutbox}

pub record Db : Type 0 where
  pub runs : List Run
  pub events : List Event
  pub attempts : List RunAttempt
  pub outbox : List QueueOutbox

abbrev pub Action : Type 0 → Type 0
Action A = Db → Result A × Db

-- How a session ends: committed, or rolled back (also by leaving it without a commit).
pub data Outcome (A : Type 0) : Type 0 where
  commit rollback : A → Outcome A

module _ {A : Type 0} where
  abbrev pub pure : A → Action A
  pure a db = (ok a, db)

  abbrev pub raise : Error → Action A
  raise e db = (err e, db)

  abbrev pub lift : Result A → Action A
  lift r db = (r, db)

  -- `async with session_factory() as session: …`
  unfoldable pub transaction : Action (Outcome A) → Action A
  transaction m db =
      let (r, db') = m db in
      elim r [
        | ok o ↦ elim o [ commit a ↦ (ok a, db') | rollback a ↦ (ok a, db) ]
        | err e ↦ (err e, db)
      ]

infixl 5 ◌>>=◌ ◌>>◌
abbrev pub ◌>>=◌ : {A B : Type 0} → Action A → (A → Action B) → Action B
◌>>=◌ m f db = let (r, db') = m db in elim r [ ok a ↦ f a db' | err e ↦ (err e, db') ]

abbrev pub ◌>>◌ : {A B : Type 0} → Action A → Action B → Action B
m >> k = m >>= λ _. k

-- `if not ok: raise e`
abbrev pub require : Bool → Error → Action (Unit {0})
require true e = pure tt
require false e = raise e
