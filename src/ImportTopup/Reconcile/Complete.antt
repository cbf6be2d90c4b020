-- ===== src/ImportTopup/Reconcile/Complete.antt =====
-- When app/import_topup_ledger.py vouches for a day's import cost, in any history of calls.
use sigenergy_optimizer.Prelude.{
  ℕ, ◌≡◌, refl, Bool, true, false, Option, none, some, List, [], ◌∷◌, arith, if_both, if◌then◌else◌,
  Bool-cases, inl, inr,
}
use sigenergy_optimizer.Prelude.Int.{ℤ}
use sigenergy_optimizer.ImportTopup.Event.{
  Cause, restart_gap, missing_current_process_boundary, observation_gap_or_clock_change,
}
use sigenergy_optimizer.ImportTopup.DaySummary.{Summary}
use sigenergy_optimizer.ImportTopup.Ledger.{
  Moment, Sample, Key, Ledger, World, unknown_reason, load_checkpoint, flush, invalidate,
}
use sigenergy_optimizer.ImportTopup.Ledger.Doubt.{
  IsUnknown, mark_unknown_keeps, check_source_keeps, load_checkpoint_keeps, invalidate_keeps,
  flush_keeps,
}
use sigenergy_optimizer.ImportTopup.Measure.{Observation, gap}
use sigenergy_optimizer.ImportTopup.Capture.{record_observation, set_permission}
use sigenergy_optimizer.ImportTopup.Capture.Trust.{record_keeps, set_permission_keeps}
use sigenergy_optimizer.ImportTopup.Reconcile.{
  Reconciled, accept_reconciliation, summary, has_pending_on, observe_boundary, restarted,
  caught_up, taken, cache, is_naive, or_unknown, doubt, summarize, stored_summary,
}

-- A call on the ledger.
pub data Call : Type 0 where
  records : Observation → Call
  permits : Moment → ℕ → Bool → Call
  invalidates : Moment → Cause → Bool → Call
  flushes : Call
  reconciles : Key → Reconciled → Call
  summarizes : ℕ → ℕ → Option Moment → Call

module _ (representable : ℤ → Bool) where
  -- The world after a call, whether it returned or raised.
  unfoldable pub after : World → Call → World
  after w (records o) = (record_observation representable o w).0
  after w (permits now source active) = (set_permission now source active w).0
  after w (invalidates now why lost) = record w { ledger = invalidate now why lost w.ledger }
  after w flushes = (flush w).0
  after w (reconciles key r) = record w { ledger = accept_reconciliation key r w.ledger }
  after w (summarizes d source at) = (summary d source at w).0

  unfoldable pub run : World → List Call → World
  run w [] = w
  run w (c ∷ cs) = run (after w c) cs

module _ (d : ℕ) (why : Cause) where
  restarted_keeps :
      (p : Option ℕ) (l : Ledger) → IsUnknown d why l → IsUnknown d why (restarted p l)
  restarted_keeps none l h = h
  restarted_keeps (some j) l h = mark_unknown_keeps d why j restart_gap l h

  caught_up_keeps :
      (r : Reconciled) (l : Ledger) → IsUnknown d why l → IsUnknown d why (caught_up r l)
  caught_up_keeps r l h = ground (arith, restarted_keeps r.checkpoint l h)

  cache_keeps :
      (key : Key) (r : Reconciled) (l : Ledger)
      → IsUnknown d why l
      → IsUnknown d why (cache key r l)
  cache_keeps key r l h = ground arith

  accept_keeps :
      (key : Key) (r : Reconciled) (l : Ledger)
      → IsUnknown d why l
      → IsUnknown d why (accept_reconciliation key r l)
  unfolding accept_reconciliation
  accept_keeps key r l h =
      cache_keeps key r (caught_up r (taken r l)) (caught_up_keeps r (taken r l) h)

  observe_keeps :
      (j : ℕ) (at : Option Moment) (p : Option Sample) (l : Ledger)
      → IsUnknown d why l
      → IsUnknown d why (observe_boundary j at p l)
  observe_keeps j none p l h = h
  observe_keeps j (some now) none l h =
      mark_unknown_keeps d why j missing_current_process_boundary l h
  observe_keeps j (some now) (some p) l h =
      if_both (IsUnknown d why) (gap now p.now)
        (mark_unknown_keeps d why p.now.day observation_gap_or_clock_change _
          (mark_unknown_keeps d why j observation_gap_or_clock_change l h))
        h

  summary_keeps :
      (j source : ℕ) (at : Option Moment) (w : World)
      → IsUnknown d why w.ledger
      → IsUnknown d why (summary j source at w).0.ledger
  unfolding summary
  summary_keeps j source at w h =
      let seen = record w { ledger = observe_boundary j at w.ledger.last w.ledger } in
      if_both (λ (r : World × Option Summary). IsUnknown d why r.0.ledger) (is_naive at) h
        (check_source_keeps d why source j (load_checkpoint j seen).ledger
          (load_checkpoint_keeps d why j seen (observe_keeps j at w.ledger.last w.ledger h)))

  -- A day that the ledger does not vouch for stays so, for its first reason, whatever calls follow
  -- and whether they return or raise.
  after_keeps :
      (representable : ℤ → Bool) (w : World) (c : Call)
      → IsUnknown d why w.ledger
      → IsUnknown d why (after representable w c).ledger
  unfolding after
  after_keeps representable w (records o) h = record_keeps d why representable o w h
  after_keeps representable w (permits now source active) h =
      set_permission_keeps d why now source active w h
  after_keeps representable w (invalidates now c lost) h =
      invalidate_keeps d why now c lost w.ledger h
  after_keeps representable w flushes h = flush_keeps d why w h
  after_keeps representable w (reconciles key r) h = accept_keeps key r w.ledger h
  after_keeps representable w (summarizes j source at) h = summary_keeps j source at w h

  run_keeps :
      (representable : ℤ → Bool) (w : World) (cs : List Call)
      → IsUnknown d why w.ledger
      → IsUnknown d why (run representable w cs).ledger
  unfolding run
  run_keeps representable w [] h = h
  run_keeps representable w (c ∷ cs) h =
      run_keeps representable (after representable w c) cs (after_keeps representable w c h)

finished_complete :
    (d : ℕ) (why : Option Cause) (s : Option Summary) (r : Summary)
    → or_unknown d why s ≡ r
    → r.import_history_complete ≡ true
    → why ≡ none
finished_complete d why none r e h = ground arith
finished_complete d none (some s) r e h = refl
finished_complete d (some c) (some s) r e h = ground arith

doubt-none :
    (d : ℕ) (l : Ledger)
    → doubt d l ≡ none
    → (unknown_reason d l.unknown_days ≡ none)
      × (has_pending_on d l.pending ≡ false)
      × (l.import_tail_pending ≡ false)
unfolding doubt
doubt-none d l h = ground arith

answer_is_vouched :
    (d source : ℕ) (w : World) (s : Summary)
    → (summarize d source w).1 ≡ some s
    → s.import_history_complete ≡ true
    → doubt d w.ledger ≡ none
answer_is_vouched d source w s e h =
    finished_complete d (doubt d w.ledger) (stored_summary d source w).0 s (ground arith) h

vouched_by :
    (d source : ℕ) (naive : Bool) (w w' : World) (s : Summary)
    → (if naive then (w, none) else summarize d source w').1 ≡ some s
    → s.import_history_complete ≡ true
    → doubt d (if naive then (w, none) else summarize d source w').0.ledger ≡ none
vouched_by d source true w w' s e h = cc
vouched_by d source false w w' s e h = answer_is_vouched d source w' s e h

-- A summary that calls the day's import history complete is given only when the ledger has no reason
-- against the day, no queued interval of the day waits for the store, and no import tail is unpriced.
pub complete_is_vouched :
    (d source : ℕ) (at : Option Moment) (w : World) (s : Summary)
    → (summary d source at w).1 ≡ some s
    → s.import_history_complete ≡ true
    → let l = (summary d source at w).0.ledger in
      (unknown_reason d l.unknown_days ≡ none)
      × (has_pending_on d l.pending ≡ false)
      × (l.import_tail_pending ≡ false)
complete_is_vouched d source at w s e h =
    doubt-none d (summary d source at w).0.ledger
      (unfold summary in vouched_by d source (is_naive at) w _ s e h)

-- Trust in a day is never regained: once the ledger has a reason against a day, then after any calls,
-- reconciliations and summaries included, no summary says that the day's import history is complete.
pub lost_trust_is_final :
    (representable : ℤ → Bool) (d source : ℕ) (why : Cause) (at : Option Moment) (w : World)
    (cs : List Call) (s : Summary)
    → IsUnknown d why w.ledger
    → (summary d source at (run representable w cs)).1 ≡ some s
    → s.import_history_complete ≡ false
lost_trust_is_final representable d source why at w cs s h e =
    elim (Bool-cases s.import_history_complete) [
      | inl complete ↦ cc (
        (complete_is_vouched d source at (run representable w cs) s e complete).0,
        summary_keeps d why d source at (run representable w cs)
            (run_keeps d why representable w cs h),
      )
      | inr partial ↦ partial
    ]
