-- ===== src/ImportTopup/Ledger/Snapshots.antt =====
-- A new snapshot of app/import_topup_ledger.py and the history that the store will hold.
use mathlib.Core.List.{append_assoc}
use sigenergy_optimizer.Prelude.{
  ◌≡◌, ◌≢◌, refl, sym, ◌∙◌, ap, ◌⊎◌, inl, inr, true, none, List, [], ◌∷◌, ◌++◌, arith, length, leb,
  if_both,
}
use sigenergy_optimizer.ImportTopup.Event.{EventId, Event}
use sigenergy_optimizer.ImportTopup.Store.{Store, Fault, find, record_interval, is_valid}
use sigenergy_optimizer.ImportTopup.Ledger.{
  World, Outcome, returned, raised, mark_unknown, next_fault, later_faults, flush_queue, flush,
  retain, make_room, enqueue,
}
use sigenergy_optimizer.ImportTopup.Store.Rows.{Distinct}
use sigenergy_optimizer.ImportTopup.Ledger.Delivery.{AllValid, InSync, flush-Delivers}

flush_queue-AllValid :
    (p : List Event) (s : Store) (fs : List Fault)
    → AllValid p
    → AllValid (flush_queue p s fs).pending
unfolding flush_queue
flush_queue-AllValid [] s fs v = tt
flush_queue-AllValid (e ∷ es) s fs v =
    ground
      (arith, flush_queue-AllValid es (record_interval (next_fault fs) e s).0 (later_faults fs) v.1)

AllValid-append :
    (p : List Event) (e : Event) → AllValid p → is_valid e ≡ true → AllValid (p ++ e ∷ [])
AllValid-append [] e v h = (h, tt)
AllValid-append (x ∷ p) e v h = (v.0, AllValid-append p e v.1 h)

InSync-append :
    (rows p history : List Event) (e : Event)
    → InSync rows p history
    → InSync rows (p ++ e ∷ []) (history ++ e ∷ [])
InSync-append rows p history e (inl h) =
    inl (sym (append_assoc rows p (e ∷ [])) ∙ ap (λ l. l ++ e ∷ []) h)
InSync-append rows p history e (inr (x, xs, q, h, there)) = inr (
  x,
  xs ++ e ∷ [],
  ap (λ l. l ++ e ∷ []) q,
  sym (append_assoc rows xs (e ∷ [])) ∙ ap (λ l. l ++ e ∷ []) h,
  there,
)

-- The store and the queue make up the history, and what is queued can be stored.
abbrev pub Holds : List Event → World → Type 0
Holds history w = InSync w.store.intervals w.ledger.pending history × AllValid w.ledger.pending

flush-Holds :
    (history : List Event) (w : World)
    → Distinct history
    → Holds history w
    → Holds history (flush w).0
unfolding flush
flush-Holds history w d h =
    let f = flush-Delivers history d w.ledger.pending w.store w.faults h.1 h.0 in
    if_both (λ (r : World × Outcome). Holds history r.0) w.ledger.deferred h
      (f.sync, flush_queue-AllValid w.ledger.pending w.store w.faults h.1)

make_room-Holds :
    (history : List Event) (e : Event) (r : World × Outcome)
    → Holds history r.0
    → Holds history (make_room e.date r).0
unfolding mark_unknown
make_room-Holds history e (w, raised x) h = ground arith
make_room-Holds history e (w, returned) h = ground arith

-- What `retain` does to the history: the event is its new last entry, or the call raised.
abbrev pub Extends : List Event → Event → World × Outcome → Type 0
Extends history e r = Holds (history ++ e ∷ []) r.0 ⊎ ((r.1 ≢ returned) × Holds history r.0)

enqueue-Extends :
    (history : List Event) (e : Event) (r : World × Outcome)
    → Distinct (history ++ e ∷ [])
    → is_valid e ≡ true
    → Holds history r.0
    → Extends history e (enqueue e r)
enqueue-Extends history e (w, raised x) d v h = inr (λ p. cc, h)
enqueue-Extends history e (w, returned) d v h = inl (
    flush-Holds (history ++ e ∷ []) _ d (
      InSync-append w.store.intervals w.ledger.pending history e h.0,
      AllValid-append w.ledger.pending e h.1 v,
    ))

find_prefix : (i : EventId) (xs ys : List Event) → find i (xs ++ ys) ≡ none → find i xs ≡ none
unfolding find
find_prefix i [] ys h = refl
find_prefix i (x ∷ xs) ys h = ground (arith, find_prefix i xs ys)

Distinct-prefix : (xs ys : List Event) → Distinct (xs ++ ys) → Distinct xs
Distinct-prefix [] ys d = tt
Distinct-prefix (x ∷ xs) ys d = (find_prefix x.event_id xs ys d.0, Distinct-prefix xs ys d.1)

-- A snapshot with a new id is never lost in silence: either it is the last entry of the history that
-- the stored rows and the queue make up, or `retain` raised and the history is what it was.
pub retain-Extends :
    (history : List Event) (e : Event) (w : World)
    → Distinct (history ++ e ∷ [])
    → is_valid e ≡ true
    → Holds history w
    → Extends history e (retain e w)
unfolding retain
retain-Extends history e w d v h =
    if_both (Extends history e) (leb w.ledger.pending_limit (length w.ledger.pending))
      (enqueue-Extends history e (make_room e.date (flush w)) d v (
        make_room-Holds history e (flush w)
          (flush-Holds history w (Distinct-prefix history (e ∷ []) d) h)))
      (enqueue-Extends history e (w, returned) d v h)
