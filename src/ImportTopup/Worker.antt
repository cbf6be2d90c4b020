-- ===== src/ImportTopup/Worker.antt =====
-- `_ledger_snapshot` of app/storage_worker.py: the database thread's side of the reconciliation with
-- app/import_topup_ledger.py.
pub mod Deferred
use sigenergy_optimizer.Prelude.{ℕ, Bool, true, false, not, Option, none, some, List, [], ◌∷◌}
use sigenergy_optimizer.ImportTopup.Event.{EventId, Checkpoint, Event}
use sigenergy_optimizer.ImportTopup.Store.{Store, Fault, fine, Reply, stored, record_interval}
use sigenergy_optimizer.ImportTopup.DaySummary
use sigenergy_optimizer.ImportTopup.DaySummary.{Summary}
use sigenergy_optimizer.ImportTopup.Ledger.{next_fault, later_faults}

-- What the loop over the payloads leaves: the acknowledged ids, and whether no write raised.
pub record Written : Type 0 where
  pub acknowledged : List EventId
  pub store : Store
  pub faults : List Fault
  pub complete : Bool

unfoldable pub write_all : List Event → Store → List Fault → Written
write_all [] s fs = record { acknowledged = []; store = s; faults = fs; complete = true }
write_all (e ∷ es) s fs =
    let (s', reply) = record_interval (next_fault fs) e s in
    let rest = write_all es s' (later_faults fs) in
    let acked : Written = record rest { acknowledged = e.event_id ∷ rest.acknowledged } in
    let failed : Written = record {
      acknowledged = [];
      store = s';
      faults = later_faults fs;
      complete = false;
    } in
    elim reply [ stored ↦ acked | _ ↦ failed ]

-- The result tuple; the summary is `None` if a call raised.
pub record Snapshot : Type 0 where
  pub acknowledged : List EventId
  pub checkpoint : Option (EventId × Checkpoint)
  pub checkpoint_read : Bool
  pub summary : Option Summary
  pub successful : Bool

abbrev unread : Bool → Snapshot
unread load = record {
  acknowledged = [];
  checkpoint = none;
  checkpoint_read = not load;
  summary = none;
  successful = false;
}

abbrev summed : Fault → ℕ → Option (EventId × Checkpoint) → Written → Snapshot
summed fine d c w = record {
  acknowledged = w.acknowledged;
  checkpoint = c;
  checkpoint_read = true;
  summary = some (DaySummary.summary w.store d);
  successful = true;
}
summed _ d c w = record {
  acknowledged = w.acknowledged;
  checkpoint = c;
  checkpoint_read = true;
  summary = none;
  successful = false;
}

abbrev written : ℕ → Option (EventId × Checkpoint) → Written → Store × Snapshot
written d c w = elim w.complete [
  | true ↦ (w.store, summed (next_fault w.faults) d c w)
  | false ↦ (
    w.store,
    record {
      acknowledged = w.acknowledged;
      checkpoint = c;
      checkpoint_read = true;
      summary = none;
      successful = false;
    },
  )
]

abbrev loaded : List Event → ℕ → Fault → Store → List Fault → Store × Snapshot
loaded es d fine s fs = written d s.checkpoint (write_all es s fs)
loaded es d _ s fs = (s, unread true)

unfoldable pub ledger_snapshot : List Event → ℕ → Bool → Store → List Fault → Store × Snapshot
unfolding write_all
ledger_snapshot es d true s fs = loaded es d (next_fault fs) s (later_faults fs)
ledger_snapshot es d false s fs = written d none (write_all es s fs)
