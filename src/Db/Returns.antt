-- ===== src/Db/Returns.antt =====
-- How an action that is known to return, or to raise, carries on.
use literature_research_agen.Base.{◌≡◌, ap}
use literature_research_agen.Run.Errors.{Error, Result, ok, err}
use literature_research_agen.Db.Defs.{Db, Action, Outcome, commit, rollback, transaction, ◌>>=◌}

module _ {A B : Type 0} (m : Action A) (f : A → Action B) (db db' : Db) where
  pub bind_ok : (a : A) → m db ≡ (ok a, db') → (m >>= f) db ≡ f a db'
  bind_ok a h =
      ap
        (λ (p : Result A × Db). elim p.0 as (λ _. Result B × Db) [
          | ok x ↦ f x p.1
          | err e ↦ (err e, p.1)
        ])
        h

module _ {A : Type 0} (m : Action (Outcome A)) (db db' : Db) where
  ended : Result (Outcome A) × Db → Result A × Db
  ended p = elim p.0 as (λ _. Result A × Db) [
    | ok o ↦ elim o as (λ _. Result A × Db) [ commit a ↦ (ok a, p.1) | rollback a ↦ (ok a, db) ]
    | err e ↦ (err e, db)
  ]

  pub transaction_commit : (a : A) → m db ≡ (ok (commit a), db') → transaction m db ≡ (ok a, db')
  unfolding transaction ended
  transaction_commit a h = ap ended h

  pub transaction_rollback : (a : A) → m db ≡ (ok (rollback a), db') → transaction m db ≡ (ok a, db)
  unfolding transaction ended
  transaction_rollback a h = ap ended h

  pub transaction_err : (e : Error) → m db ≡ (err e, db') → transaction m db ≡ (err e, db)
  unfolding transaction ended
  transaction_err e h = ap ended h
