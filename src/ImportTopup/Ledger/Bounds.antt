-- ===== src/ImportTopup/Ledger/Bounds.antt =====
-- The bound on the queue of app/import_topup_ledger.py, and what a new snapshot adds to the history.
use sigenergy_optimizer.Prelude.{
  ℕ, ◌≤◌, ◌<◌, ◌≡◌, ◌≢◌, refl, ◌⊎◌, inl, inr, List, [], ◌∷◌, arith, length, length-append, leb,
  Bool-cases,
}
use sigenergy_optimizer.ImportTopup.Event.{Event}
use sigenergy_optimizer.ImportTopup.Store.{Store, Fault, record_interval}
use sigenergy_optimizer.ImportTopup.Ledger.{
  Ledger, World, Outcome, returned, raised, mark_unknown, next_fault, later_faults, flush_queue,
  flush, retain, make_room, enqueue,
}

length-flush_queue :
    (p : List Event) (s : Store) (fs : List Fault) → length (flush_queue p s fs).pending ≤ length p
unfolding flush_queue
length-flush_queue [] s fs = omega arith
length-flush_queue (e ∷ es) s fs =
    ground (arith, length-flush_queue es (record_interval (next_fault fs) e s).0 (later_faults fs))

abbrev IsBounded : ℕ → Ledger → Type 0
IsBounded n l = (length l.pending ≤ n) × (l.pending_limit ≡ n)

module _ (n : ℕ) where
  flush-IsBounded : (w : World) → IsBounded n w.ledger → IsBounded n (flush w).0.ledger
  unfolding flush
  flush-IsBounded w h = ground (arith, length-flush_queue w.ledger.pending w.store w.faults)

  make_room-IsBounded :
      (d : ℕ) (r : World × Outcome) → IsBounded n r.0.ledger → IsBounded n (make_room d r).0.ledger
  unfolding mark_unknown
  make_room-IsBounded d (w, raised e) h = ground arith
  make_room-IsBounded d (w, returned) h = ground arith

  -- Room was made: the queue is below its limit if `make_room` returns.
  make_room-HasRoom :
      (d : ℕ) (r : World × Outcome)
      → IsBounded n r.0.ledger
      → (make_room d r).1 ≡ returned
      → length (make_room d r).0.ledger.pending < n
  make_room-HasRoom d (w, raised e) h q = cc
  make_room-HasRoom d (w, returned) h q = ground arith

  enqueue-IsBounded :
      (e : Event) (r : World × Outcome)
      → IsBounded n r.0.ledger
      → (r.1 ≢ returned) ⊎ (length r.0.ledger.pending < n)
      → IsBounded n (enqueue e r).0.ledger
  enqueue-IsBounded e (w, raised x) h room = h
  enqueue-IsBounded e (w, returned) h (inl room) = absurd (room refl)
  enqueue-IsBounded e (w, returned) h (inr room) =
      flush-IsBounded _ (omega (arith, length-append {0} w.ledger.pending (e ∷ [])), h.1)

outcome_cases : (o : Outcome) → (o ≢ returned) ⊎ (o ≡ returned)
outcome_cases returned = inr refl
outcome_cases (raised e) = inl (λ p. cc)

-- The queue never grows past its limit: if it is full, and a flush makes no room, the snapshot is
-- refused.
pub retain_bounded :
    (e : Event) (w : World)
    → length w.ledger.pending ≤ w.ledger.pending_limit
    → (length (retain e w).0.ledger.pending ≤ w.ledger.pending_limit)
      × ((retain e w).0.ledger.pending_limit ≡ w.ledger.pending_limit)
unfolding retain
retain_bounded e w h = elim (Bool-cases (leb w.ledger.pending_limit (length w.ledger.pending))) [
  | inl full ↦
      rw full (
        enqueue-IsBounded w.ledger.pending_limit e room room_bounded (cases (outcome_cases room.1)))
  | inr free ↦
      rw free
        (enqueue-IsBounded w.ledger.pending_limit e (w, returned) (h, refl) (inr (ground arith)))
]
  where
    room : World × Outcome
    room = make_room e.date (flush w)

    room_bounded : IsBounded w.ledger.pending_limit room.0.ledger
    room_bounded =
        make_room-IsBounded w.ledger.pending_limit e.date (flush w)
          (flush-IsBounded w.ledger.pending_limit w (h, refl))

    cases :
        (room.1 ≢ returned) ⊎ (room.1 ≡ returned)
        → (room.1 ≢ returned) ⊎ (length room.0.ledger.pending < w.ledger.pending_limit)
    cases (inl r) = inl r
    cases (inr r) = inr (
        make_room-HasRoom w.ledger.pending_limit e.date (flush w)
          (flush-IsBounded w.ledger.pending_limit w (h, refl)) r)
