-- ===== src/ImportTopup/Worker/Deferred.antt =====
-- Deferred delivery: the queue of app/import_topup_ledger.py, written by the worker thread of
-- app/storage_worker.py and retired by `accept_reconciliation`.
use mathlib.Core.List.{append_assoc}
use sigenergy_optimizer.Prelude.{◌≡◌, refl, sym, ◌∙◌, ap, inl, inr, List, [], ◌∷◌, ◌++◌, arith}
use sigenergy_optimizer.ImportTopup.Event.{Event}
use sigenergy_optimizer.ImportTopup.Store.{Store, Fault, record_interval}
use sigenergy_optimizer.ImportTopup.Store.Replay.{same_id_refl}
use sigenergy_optimizer.ImportTopup.Ledger.{next_fault, later_faults, flush_queue}
use sigenergy_optimizer.ImportTopup.Store.Rows.{Distinct}
use sigenergy_optimizer.ImportTopup.Ledger.Delivery.{AllValid, InSync, flush-Delivers}
use sigenergy_optimizer.ImportTopup.Reconcile.{retire}
use sigenergy_optimizer.ImportTopup.Worker.{write_all}

-- The worker writes as a flush does, and retiring what it acknowledged leaves the flush's queue.
write_all-flush :
    (p rest : List Event) (s : Store) (fs : List Fault)
    → ((write_all p s fs).store ≡ (flush_queue p s fs).store)
      × (retire (write_all p s fs).acknowledged (p ++ rest) ≡ (flush_queue p s fs).pending ++ rest)
unfolding write_all flush_queue retire
write_all-flush [] rest s fs = (refl, refl)
write_all-flush (e ∷ es) rest s fs = ground (
  arith,
  same_id_refl e.event_id,
  write_all-flush es rest (record_interval (next_fault fs) e s).0 (later_faults fs),
)

InSync-append_list :
    (rows p history later : List Event)
    → InSync rows p history
    → InSync rows (p ++ later) (history ++ later)
InSync-append_list rows p history later (inl h) =
    inl (sym (append_assoc rows p later) ∙ ap (λ l. l ++ later) h)
InSync-append_list rows p history later (inr (x, xs, q, h, there)) = inr (
  x,
  xs ++ later,
  ap (λ l. l ++ later) q,
  sym (append_assoc rows xs later) ∙ ap (λ l. l ++ later) h,
  there,
)

-- The worker may write any prefix of the queue, under any faults, while new intervals queue up behind
-- it: once the acknowledged head is retired, the stored rows and the queue are again the history, with
-- no interval lost or stored twice.
pub deferred_delivery :
    (history later p : List Event) (s : Store) (fs : List Fault)
    → Distinct history
    → AllValid p
    → InSync s.intervals p history
    → let w = write_all p s fs in
      InSync w.store.intervals (retire w.acknowledged (p ++ later)) (history ++ later)
deferred_delivery history later p s fs d v h =
    let (same_store, same_queue) = write_all-flush p later s fs in
    rw (same_store, same_queue)
      (InSync-append_list _ _ history later (flush-Delivers history d p s fs v h).sync)
