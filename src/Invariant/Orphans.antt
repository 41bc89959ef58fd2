-- ===== src/Invariant/Orphans.antt =====
-- The closing of orphaned attempts keeps the invariant, and spares the attempt that is at work.
use literature_research_agen.Base.{
  ℕ, ◌≡◌, refl, Bool, true, false, Option, none, some, List, [], ◌∷◌, ==_iff, find_row,
  select_where, if◌then◌else◌,
}
use literature_research_agen.Run.{Run}
use literature_research_agen.Run.Errors.{ok}
use literature_research_agen.Attempt.{RunAttempt, AttemptStatus}
use literature_research_agen.Db.{Db, commit, rollback, pure, ◌>>=◌}
use literature_research_agen.Db.Hoare.{
  Ensures, Leaves, Leaves-transaction, Leaves-bind, Ensures-bind,
}
use literature_research_agen.Db.Returns.{transaction_rollback}
use literature_research_agen.Db.Runs.{run_key, get_by_id, get_by_id_for_update}
use literature_research_agen.Db.Attempts.{
  attempt_of, is_executing, get_latest_by_run, latest_of, finish_if_running,
}
use literature_research_agen.Lifecycle.Execution.{lock_found}
use literature_research_agen.Lifecycle.Reconcile.{count_if}
use literature_research_agen.Lifecycle.Orphans.{
  close_with, is_current, close_locked, close_orphan, orphan_terminal_status, close_all,
  list_orphaned_running, reconcile_orphaned_attempts,
}
use literature_research_agen.History.Sound.{IsLogged}
use literature_research_agen.Invariant.Sound.{IsSound}
use literature_research_agen.Invariant.Service.{Sound}
use literature_research_agen.Invariant.Actions.{finish_if_running-Holds}

-- The latest attempt of a run that is executing is never closed as an orphan: the answer is no,
-- and nothing changes.
pub close_orphan_current :
    (run : Run) (latest : RunAttempt) (now : ℕ) (db : Db)
    → find_row run_key run.run_id db.runs ≡ some run
    → is_executing run.status ≡ true
    → latest_of (select_where (attempt_of run.run_id) db.attempts) ≡ some latest
    → close_orphan run.run_id latest.attempt_id now db ≡ (ok false, db)
unfolding close_orphan close_locked lock_found get_by_id get_by_id_for_update get_latest_by_run
close_orphan_current run latest now db stored executing last =
    transaction_rollback
      (get_by_id run.run_id >>= λ owner.
        lock_found run.run_id owner >>= λ run. close_locked latest.attempt_id now run)
      db db false
      (rw
        (
          stored,
          stored,
          (==_iff run.owner_id run.owner_id).1 refl,
          last,
          (==_iff latest.attempt_id latest.attempt_id).1 refl,
          executing,
        )
        refl)

module _ (attempt_id now : ℕ) (db : Db) (h : IsSound db) where
  close_with-IsSound :
      (status : Option AttemptStatus) → Ensures Sound (close_with attempt_id now status db)
  unfolding close_with
  close_with-IsSound none = tt
  close_with-IsSound (some status) =
      Ensures-bind (λ _. IsSound) Sound (finish_if_running attempt_id status now none)
        (λ changed. pure (if changed then commit true else rollback false)) db
        (finish_if_running-Holds IsLogged db h attempt_id status now none) ended
    where
      ended :
          (changed : Bool) (db' : Db)
          → IsSound db'
          → Ensures Sound (pure (if changed then commit true else rollback false) db')
      ended true db' s = s
      ended false db' s = tt

  close_locked-IsSound : (run : Option Run) → Ensures Sound (close_locked attempt_id now run db)
  unfolding close_locked get_latest_by_run
  close_locked-IsSound none = tt
  close_locked-IsSound (some run) =
      decided
        (is_current attempt_id run (latest_of (select_where (attempt_of run.run_id) db.attempts)))
    where
      decided :
          (current : Bool)
          → Ensures Sound (
              (if current then pure (rollback false) else λ db.
              close_with attempt_id now
                (orphan_terminal_status run.run_id attempt_id run.status db)
                db)
                db)
      decided true = tt
      decided false =
          close_with-IsSound (orphan_terminal_status run.run_id attempt_id run.status db)

  close_found-IsSound :
      (run_id : ℕ) (owner : Option Run)
      → Ensures Sound ((lock_found run_id owner >>= close_locked attempt_id now) db)
  unfolding lock_found get_by_id_for_update
  close_found-IsSound run_id none = close_locked-IsSound none
  close_found-IsSound run_id (some owner) = close_locked-IsSound _

  close_orphan-IsSound : (run_id : ℕ) → Leaves IsSound (close_orphan run_id attempt_id now db)
  unfolding close_orphan get_by_id
  close_orphan-IsSound run_id =
      Leaves-transaction IsSound
        (get_by_id run_id >>= λ owner. lock_found run_id owner >>= close_locked attempt_id now) db h
        (close_found-IsSound run_id (find_row run_key run_id db.runs))

close_all-IsSound :
    (now : ℕ) (candidates : List RunAttempt) (db : Db)
    → IsSound db
    → Leaves IsSound (close_all now candidates db)
unfolding close_all
close_all-IsSound now [] db h = h
close_all-IsSound now (c ∷ candidates) db h =
    Leaves-bind IsSound (close_orphan c.run_id c.attempt_id now)
      (λ done. close_all now candidates >>= λ closed. pure (count_if done closed)) db
      (close_orphan-IsSound c.attempt_id now db h c.run_id)
      λ done db' s.
        Leaves-bind IsSound (close_all now candidates) (λ closed. pure (count_if done closed)) db'
          (close_all-IsSound now candidates db' s) (λ closed db2 s2. s2)

pub reconcile_orphaned_attempts-IsSound :
    (batch_size now : ℕ) (db : Db)
    → IsSound db
    → Leaves IsSound (reconcile_orphaned_attempts batch_size now db)
unfolding reconcile_orphaned_attempts
reconcile_orphaned_attempts-IsSound batch_size now db h =
    close_all-IsSound now (list_orphaned_running batch_size db) db h
