-- ===== src/ImportTopup/Ledger/Doubt.antt =====
-- The unknown days of app/import_topup_ledger.py under the helpers of Ledger.antt.
use sigenergy_optimizer.Prelude.{
  ℕ, ◌≡◌, Bool, Option, none, some, List, [], ◌∷◌, ◌++◌, arith, Option-cases, inl, inr,
}
use sigenergy_optimizer.ImportTopup.Event.{
  Cause, measurement_source_changed, checkpoint_unavailable, pending_interval_overflow, Event,
}
use sigenergy_optimizer.ImportTopup.Store.{Fault, fine, before_commit, after_commit}
use sigenergy_optimizer.ImportTopup.Ledger.{
  Moment, Sample, Ledger, World, Outcome, returned, raised, unknown_reason, mark_unknown, mark_last,
  check_source, load_checkpoint, read_checkpoint, next_fault, flush, invalidate, retain, make_room,
  enqueue,
}

-- The ledger does not vouch for day `d`, for this reason.
abbrev pub IsUnknown : ℕ → Cause → Ledger → Type 0
IsUnknown d why l = unknown_reason d l.unknown_days ≡ some why

unknown_reason-append :
    (d : ℕ) (why : Cause) (ds es : List (ℕ × Cause))
    → unknown_reason d ds ≡ some why
    → unknown_reason d (ds ++ es) ≡ some why
unfolding unknown_reason
unknown_reason-append d why [] es h = cc
unknown_reason-append d why ((j, c) ∷ ds) es h = ground (arith, unknown_reason-append d why ds es)

unknown_reason-none :
    (d : ℕ) (why : Cause) (ds : List (ℕ × Cause))
    → unknown_reason d ds ≡ none
    → unknown_reason d (ds ++ (d, why) ∷ []) ≡ some why
unfolding unknown_reason
unknown_reason-none d why [] h = ground arith
unknown_reason-none d why ((j, c) ∷ ds) h = ground (arith, unknown_reason-none d why ds)

-- Marking makes its day unknown, and leaves an older reason alone.
pub mark_unknown_marks :
    (d : ℕ) (why : Cause) (l : Ledger) → (old : Cause) × IsUnknown d old (mark_unknown d why l)
unfolding mark_unknown
mark_unknown_marks d why l = elim (Option-cases (unknown_reason d l.unknown_days)) [
  | inl e ↦ (why, rw (e, mark_unknown) (unknown_reason-none d why l.unknown_days e))
  | inr (old, e) ↦ (old, rw (e, mark_unknown) e)
]

module _ (d : ℕ) (why : Cause) where
  pub mark_unknown_keeps :
      (j : ℕ) (c : Cause) (l : Ledger) → IsUnknown d why l → IsUnknown d why (mark_unknown j c l)
  unfolding mark_unknown
  mark_unknown_keeps j c l h =
      ground (arith, unknown_reason-append d why l.unknown_days ((j, c) ∷ []))

  pub mark_last_keeps :
      (c : Cause) (p : Option Sample) (l : Ledger)
      → IsUnknown d why l
      → IsUnknown d why (mark_last c p l)
  mark_last_keeps c none l h = h
  mark_last_keeps c (some p) l h = mark_unknown_keeps p.now.day c l h

  pub check_source_keeps :
      (s j : ℕ) (l : Ledger) → IsUnknown d why l → IsUnknown d why (check_source s j l)
  unfolding check_source
  check_source_keeps s j l h = ground (
    arith,
    mark_last_keeps measurement_source_changed l.last (mark_unknown j measurement_source_changed l)
        (mark_unknown_keeps j measurement_source_changed l h),
  )

  read_keeps :
      (f : Fault) (j : ℕ) (w : World)
      → IsUnknown d why w.ledger
      → IsUnknown d why (read_checkpoint f j w).ledger
  read_keeps fine j w h = grind (arith, mark_unknown_keeps)
  read_keeps before_commit j w h = mark_unknown_keeps j checkpoint_unavailable w.ledger h
  read_keeps after_commit j w h = mark_unknown_keeps j checkpoint_unavailable w.ledger h

  pub load_checkpoint_keeps :
      (j : ℕ) (w : World) → IsUnknown d why w.ledger → IsUnknown d why (load_checkpoint j w).ledger
  unfolding load_checkpoint
  load_checkpoint_keeps j w h = ground (arith, read_keeps (next_fault w.faults) j w h)

  pub invalidate_keeps :
      (now : Moment) (c : Cause) (b : Bool) (l : Ledger)
      → IsUnknown d why l
      → IsUnknown d why (invalidate now c b l)
  unfolding invalidate
  invalidate_keeps now c b l h = mark_last_keeps c _ _ (mark_unknown_keeps now.day c _ h)

  pub flush_keeps : (w : World) → IsUnknown d why w.ledger → IsUnknown d why (flush w).0.ledger
  unfolding flush
  flush_keeps w h = ground arith

  make_room_keeps :
      (j : ℕ) (r : World × Outcome)
      → IsUnknown d why r.0.ledger
      → IsUnknown d why (make_room j r).0.ledger
  make_room_keeps j (w, raised e) h = mark_unknown_keeps j _ w.ledger h
  make_room_keeps j (w, returned) h =
      ground (arith, mark_unknown_keeps j pending_interval_overflow w.ledger h)

  enqueue_keeps :
      (e : Event) (r : World × Outcome)
      → IsUnknown d why r.0.ledger
      → IsUnknown d why (enqueue e r).0.ledger
  enqueue_keeps e (w, raised x) h = h
  enqueue_keeps e (w, returned) h = flush_keeps _ h

  pub retain_keeps :
      (e : Event) (w : World) → IsUnknown d why w.ledger → IsUnknown d why (retain e w).0.ledger
  unfolding retain
  retain_keeps e w h = ground (
    arith,
    enqueue_keeps e (make_room e.date (flush w))
        (make_room_keeps e.date (flush w) (flush_keeps w h)),
    enqueue_keeps e (w, returned) h,
  )
