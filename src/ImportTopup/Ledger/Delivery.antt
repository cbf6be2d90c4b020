-- ===== src/ImportTopup/Ledger/Delivery.antt =====
-- Delivery of the queue of app/import_topup_ledger.py to the tables of app/state_store.py, under
-- faults of the database before or after a commit.
use mathlib.Core.List.{append-nil, append_assoc}
use sigenergy_optimizer.Prelude.{
  ◌≡◌, refl, ◌⊎◌, inl, inr, true, false, none, some, List, [], ◌∷◌, ◌++◌, arith,
}
use sigenergy_optimizer.ImportTopup.Event.{EventId, same_id, Event, same_payload_iff}
use sigenergy_optimizer.ImportTopup.Store.{
  Store, Fault, fine, before_commit, after_commit, stored, database_error, find, append,
  record_interval, is_valid,
}
use sigenergy_optimizer.ImportTopup.Store.Replay.{find-append}
use sigenergy_optimizer.ImportTopup.Store.Rows.{Distinct}
use sigenergy_optimizer.ImportTopup.Ledger.{
  Flushed, returned, raised, storage_error, next_fault, later_faults, flush_queue,
}

abbrev pub AllValid : List Event → Type 0
AllValid [] = Unit
AllValid (e ∷ es) = (is_valid e ≡ true) × AllValid es

-- The rows and the queue together are the history: either nothing is in both, or the head of the
-- queue is also the last row, since the acknowledgement of its commit was lost.
abbrev pub InSync : List Event → List Event → List Event → Type 0
InSync rows pending history =
    (rows ++ pending ≡ history)
    ⊎ ((e : Event) × (es : List Event) × (pending ≡ e ∷ es)
        × (rows ++ es ≡ history)
        × (find e.event_id rows ≡ some e))

other_id :
    (i : EventId) (e : Event) (rs es : List Event)
    → find i (rs ++ e ∷ es) ≡ none
    → same_id e.event_id i ≡ false
unfolding find
other_id i e [] es h = ground arith
other_id i e (r ∷ rs) es h = ground (arith, other_id i e rs es)

find-absent : (e : Event) (rs es : List Event) → Distinct (rs ++ e ∷ es) → find e.event_id rs ≡ none
unfolding find
find-absent e [] es h = refl
find-absent e (r ∷ rs) es h =
    ground (arith, other_id r.event_id e rs es h.0, find-absent e rs es h.1)

-- What a flush ends with: the queue and the rows still make up the history, and either it returned
-- with an empty queue or it raised.
pub record Delivers (history : List Event) (f : Flushed) : Type 0 where
  pub sync : InSync f.store.intervals f.pending history
  pub done : ((f.outcome ≡ returned) × (f.pending ≡ [])) ⊎ (f.outcome ≡ raised storage_error)

flush_stored :
    (e : Event) (es : List Event) (s s' : Store) (fs : List Fault)
    → record_interval (next_fault fs) e s ≡ (s', stored)
    → flush_queue (e ∷ es) s fs ≡ flush_queue es s' (later_faults fs)
unfolding flush_queue
flush_stored e es s s' fs h = ground arith

flush_failed :
    (e : Event) (es : List Event) (s s' : Store) (fs : List Fault)
    → record_interval (next_fault fs) e s ≡ (s', database_error)
    → flush_queue (e ∷ es) s fs ≡ record {
      pending = e ∷ es;
      store = s';
      faults = later_faults fs;
      outcome = raised storage_error;
    }
unfolding flush_queue
flush_failed e es s s' fs h = ground arith

-- The reply to the write of an event, by whether its id is new.
write_new :
    (f : Fault) (e : Event) (s : Store)
    → is_valid e ≡ true
    → find e.event_id s.intervals ≡ none
    → record_interval f e s ≡ elim f [
      | fine ↦ (append e s, stored)
      | before_commit ↦ (s, database_error)
      | after_commit ↦ (append e s, database_error)
    ]
unfolding record_interval
write_new f e s v h = ground arith

write_again :
    (f : Fault) (e : Event) (s : Store)
    → is_valid e ≡ true
    → find e.event_id s.intervals ≡ some e
    → record_interval f e s ≡ elim f [ before_commit ↦ (s, database_error) | _ ↦ (s, stored) ]
unfolding record_interval
write_again f e s v h = ground (arith, same_payload_iff e e)

module _ (history : List Event) (distinct : Distinct history) where
  deliver_clean :
      (pending : List Event) (s : Store) (fs : List Fault)
      → AllValid pending
      → s.intervals ++ pending ≡ history
      → Delivers history (flush_queue pending s fs)
  deliver_clean [] s fs v h = unfold flush_queue in record { sync = inl h; done = inl (refl, refl) }
  deliver_clean (e ∷ es) s fs v h =
      step (next_fault fs) refl (deliver_clean es (append e s) (later_faults fs) v.1)
    where
      absent : find e.event_id s.intervals ≡ none
      absent = find-absent e s.intervals es (rw h distinct)

      appended : (append e s).intervals ++ es ≡ history
      appended = unfold append in rw (append_assoc s.intervals (e ∷ []) es) h

      step :
          (f : Fault)
          → next_fault fs ≡ f
          → ((append e s).intervals ++ es ≡ history
              → Delivers history (flush_queue es (append e s) (later_faults fs)))
          → Delivers history (flush_queue (e ∷ es) s fs)
      step fine hf ih =
          rw (flush_stored e es s (append e s) fs (rw hf (write_new fine e s v.0 absent)))
            (ih appended)
      step before_commit hf ih =
          rw (flush_failed e es s s fs (rw hf (write_new before_commit e s v.0 absent)))
            (record { sync = inl h; done = inr refl })
      step after_commit hf ih =
          rw (flush_failed e es s (append e s) fs (rw hf (write_new after_commit e s v.0 absent)))
            (record {
              sync = inr (e, es, refl, appended, unfold append in find-append e s.intervals absent);
              done = inr refl;
            })

  deliver_lost :
      (e : Event) (es : List Event) (s : Store) (fs : List Fault)
      → AllValid (e ∷ es)
      → s.intervals ++ es ≡ history
      → find e.event_id s.intervals ≡ some e
      → Delivers history (flush_queue (e ∷ es) s fs)
  deliver_lost e es s fs v h there = step (next_fault fs) refl
    where
      again : Delivers history (flush_queue es s (later_faults fs))
      again = deliver_clean es s (later_faults fs) v.1 h

      step : (f : Fault) → next_fault fs ≡ f → Delivers history (flush_queue (e ∷ es) s fs)
      step fine hf = rw (flush_stored e es s s fs (rw hf (write_again fine e s v.0 there))) again
      step after_commit hf =
          rw (flush_stored e es s s fs (rw hf (write_again after_commit e s v.0 there))) again
      step before_commit hf =
          rw (flush_failed e es s s fs (rw hf (write_again before_commit e s v.0 there)))
            (record { sync = inr (e, es, refl, h, there); done = inr refl })

  -- Whatever faults the database raises, before a commit or after one, a flush leaves the stored rows
  -- and the queue as the history: no interval is lost, none is stored twice, and the order stays. It
  -- either returns with the queue empty or raises.
  pub flush-Delivers :
      (pending : List Event) (s : Store) (fs : List Fault)
      → AllValid pending
      → InSync s.intervals pending history
      → Delivers history (flush_queue pending s fs)
  flush-Delivers pending s fs v (inl h) = deliver_clean pending s fs v h
  flush-Delivers pending s fs v (inr (e, es, p, h, there)) =
      rw p (deliver_lost e es s fs (rw p at v) h there)

  returns_clean :
      (pending : List Event) (s : Store)
      → AllValid pending
      → s.intervals ++ pending ≡ history
      → (flush_queue pending s []).outcome ≡ returned
  returns_clean [] s v h = unfold flush_queue in refl
  returns_clean (e ∷ es) s v h =
      let absent = find-absent e s.intervals es (rw h distinct) in
      rw (flush_stored e es s (append e s) [] (write_new fine e s v.0 absent)) (
        returns_clean es (append e s) v.1
          (unfold append in rw (append_assoc s.intervals (e ∷ []) es) h))

  returns :
      (pending : List Event) (s : Store)
      → AllValid pending
      → InSync s.intervals pending history
      → (flush_queue pending s []).outcome ≡ returned
  returns pending s v (inl h) = returns_clean pending s v h
  returns pending s v (inr (e, es, p, h, there)) =
      rw (p, flush_stored e es s s [] (write_again fine e s (rw p at v).0 there))
        (returns_clean es s (rw p at v).1 h)

  settled :
      (f : Flushed)
      → f.outcome ≡ returned
      → Delivers history f
      → (f.pending ≡ []) × (f.store.intervals ≡ history)
  settled f r d = ground (arith, d.done, d.sync, append-nil f.store.intervals)

  -- A database without faults clears the queue, also after a lost acknowledgement: the rows are then
  -- exactly the history.
  pub flush_completes :
      (pending : List Event) (s : Store)
      → AllValid pending
      → InSync s.intervals pending history
      → ((flush_queue pending s []).outcome ≡ returned)
        × ((flush_queue pending s []).pending ≡ [])
        × ((flush_queue pending s []).store.intervals ≡ history)
  flush_completes pending s v h =
      let done =
        settled (flush_queue pending s []) (returns pending s v h)
          (flush-Delivers pending s [] v h) in
      (returns pending s v h, done.0, done.1)
