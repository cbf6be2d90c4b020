-- ===== src/ImportTopup.antt =====
-- app/import_topup_ledger.py and the import tables of app/state_store.py: the loss-aware capture of
-- import cost. `Event` and `Store` are the durable side, `Ledger` the event loop's side.
pub mod Event
pub mod Store
pub mod DaySummary
pub mod Ledger
pub mod Measure
pub mod Capture
pub mod Reconcile
pub mod Tests
pub mod Worker
