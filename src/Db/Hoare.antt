-- ===== src/Db/Hoare.antt =====
-- Postconditions of actions: what holds of the result and the state where the action does not raise.
use literature_research_agen.Base.{◌≡◌, refl, Bool, true, false, if◌then◌else◌}
use literature_research_agen.Run.Errors.{Error, Result, ok, err}
use literature_research_agen.Db.Defs.{Db, Action, Outcome, commit, rollback, transaction, ◌>>=◌}

module _ {A : Type 0} where
  abbrev pub Ensures : (A → Db → Type 0) → Result A × Db → Type 0
  Ensures R (ok a, db) = R a db
  Ensures R (err e, db) = Unit

  -- A test that refuses leaves its postcondition to the other branch.
  pub Ensures-unless :
      (R : A → Db → Type 0) (refused : Bool) (e : Error) (db : Db) (a : A) (db' : Db)
      → (refused ≡ false → R a db')
      → Ensures R (if refused then (err e, db) else (ok a, db'))
  Ensures-unless R true e db a db' h = tt
  Ensures-unless R false e db a db' h = h refl

  -- What the state satisfies when a transaction has ended.
  abbrev pub Leaves : (Db → Type 0) → Result A × Db → Type 0
  Leaves P (r, db) = P db

  -- What a committed outcome satisfies; a rollback needs nothing.
  abbrev pub Commits : (A → Db → Type 0) → Outcome A → Db → Type 0
  Commits R (commit a) db = R a db
  Commits R (rollback a) db = Unit

  Ensures-weaken_result :
      (Q R : A → Db → Type 0) (p : Result A × Db)
      → Ensures Q p
      → ((a : A) (db : Db) → Q a db → R a db)
      → Ensures R p
  Ensures-weaken_result Q R (ok a, db) h k = k a db h
  Ensures-weaken_result Q R (err e, db) h k = tt

module _ {A : Type 0} where
  pub Ensures-weaken :
      (Q R : A → Db → Type 0) (m : Action A) (db : Db)
      → Ensures Q (m db)
      → ((a : A) (db' : Db) → Q a db' → R a db')
      → Ensures R (m db)
  Ensures-weaken Q R m db h k = Ensures-weaken_result Q R (m db) h k

  Leaves-transaction_result :
      (P : Db → Type 0) (p : Result (Outcome A) × Db) (db : Db)
      → P db
      → Ensures (Commits (λ _ db'. P db')) p
      → Leaves P (transaction (λ _. p) db)
  unfolding transaction
  Leaves-transaction_result P (ok (commit a), db') db before after = after
  Leaves-transaction_result P (ok (rollback a), db') db before after = before
  Leaves-transaction_result P (err e, db') db before after = before

  -- A transaction keeps what its action keeps when it commits.
  pub Leaves-transaction :
      (P : Db → Type 0) (m : Action (Outcome A)) (db : Db)
      → P db
      → Ensures (Commits (λ _ db'. P db')) (m db)
      → Leaves P (transaction m db)
  unfolding transaction
  Leaves-transaction P m db before after = Leaves-transaction_result P (m db) db before after

module _ {A B : Type 0} where
  Ensures-bind_result :
      (Q : A → Db → Type 0) (R : B → Db → Type 0) (p : Result A × Db) (f : A → Action B)
      → Ensures Q p
      → ((a : A) (db' : Db) → Q a db' → Ensures R (f a db'))
      → (db : Db) → Ensures R (((λ _. p) >>= f) db)
  Ensures-bind_result Q R (ok a, db') f h k db = k a db' h
  Ensures-bind_result Q R (err e, db') f h k db = tt

  pub Ensures-bind :
      (Q : A → Db → Type 0) (R : B → Db → Type 0) (m : Action A) (f : A → Action B) (db : Db)
      → Ensures Q (m db)
      → ((a : A) (db' : Db) → Q a db' → Ensures R (f a db'))
      → Ensures R ((m >>= f) db)
  Ensures-bind Q R m f db h k = Ensures-bind_result Q R (m db) f h k db

  -- After a sequence of transactions the state satisfies what each of them keeps.
  Leaves-bind_result :
      (P : Db → Type 0) (p : Result A × Db) (f : A → Action B)
      → Leaves P p
      → ((a : A) (db' : Db) → P db' → Leaves P (f a db'))
      → (db : Db) → Leaves P (((λ _. p) >>= f) db)
  Leaves-bind_result P (ok a, db') f h k db = k a db' h
  Leaves-bind_result P (err e, db') f h k db = h

  pub Leaves-bind :
      (P : Db → Type 0) (m : Action A) (f : A → Action B) (db : Db)
      → Leaves P (m db)
      → ((a : A) (db' : Db) → P db' → Leaves P (f a db'))
      → Leaves P ((m >>= f) db)
  Leaves-bind P m f db h k = Leaves-bind_result P (m db) f h k db
