-- ===== src/Invariant/Outboxes.antt =====
-- A run has at most one outbox record, and ids are unique.
use literature_research_agen.Base.{◌≡◌, Bool, List, IsUnique, update_where, update_where-IsUnique}
use literature_research_agen.Outbox.{QueueOutbox}
use literature_research_agen.Db.Outboxes.{outbox_key, outbox_run}

pub record IsScheduled (outbox : List QueueOutbox) : Type 0 where
  pub unique : IsUnique outbox_key outbox
  pub one_per_run : IsUnique outbox_run outbox

abbrev pub KeepsKeys : (QueueOutbox → QueueOutbox) → Type 0
KeepsKeys f = (o : QueueOutbox) → ((f o).outbox_id ≡ o.outbox_id) × ((f o).run_id ≡ o.run_id)

pub updated-IsScheduled :
    (p : QueueOutbox → Bool) (f : QueueOutbox → QueueOutbox) (outbox : List QueueOutbox)
    → KeepsKeys f
    → IsScheduled outbox
    → IsScheduled (update_where p f outbox)
updated-IsScheduled p f outbox keeps h = record {
  unique = update_where-IsUnique outbox_key p f outbox (λ o. (keeps o).0) h.unique;
  one_per_run = update_where-IsUnique outbox_run p f outbox (λ o. (keeps o).1) h.one_per_run;
}
