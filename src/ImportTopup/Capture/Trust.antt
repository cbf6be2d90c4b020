-- ===== src/ImportTopup/Capture/Trust.antt =====
-- Trust in a day, under every operation of app/import_topup_ledger.py.
use sigenergy_optimizer.Prelude.{
  ℕ, Bool, true, false, Option, none, some, List, [], arith, if_both, is_none, not,
}
use sigenergy_optimizer.Prelude.Int.{ℤ, pos, finite?}
use sigenergy_optimizer.ImportTopup.Event.{
  Cause, permission_boundary, EnergySource, interval_energy_unrepresentable,
  interval_snapshot_unretained, permission_snapshot_unretained, missing_initial_boundary,
  observation_gap_or_clock_change, unproven_day_or_source_boundary,
  import_counter_reset_or_unavailable, import_power_unavailable, import_permission_unproven,
  import_counter_unavailable,
}
use sigenergy_optimizer.ImportTopup.Ledger.{
  Moment, Sample, Ledger, World, Outcome, returned, raised, mark_unknown, check_source,
  load_checkpoint,
}
use sigenergy_optimizer.ImportTopup.Ledger.Doubt.{
  IsUnknown, mark_unknown_keeps, check_source_keeps, load_checkpoint_keeps, invalidate_keeps,
  flush_keeps, retain_keeps,
}
use sigenergy_optimizer.ImportTopup.Measure.{
  Observation, Interval, counter, sample_of, entered, is_measured, Metered, cover_boundary,
  energy_of, gap, same_day, is_boundary, counter_lost, mark_both, measure, mark_if, settle,
}
use sigenergy_optimizer.ImportTopup.Capture.{
  begin_capture, persist, record_inner, record_observation, set_permission, on_error, deliver,
  permit_last,
}

module _ (d : ℕ) (why : Cause) where
  mark_if_keeps :
      (b : Bool) (j : ℕ) (c : Cause) (l : Ledger)
      → IsUnknown d why l
      → IsUnknown d why (mark_if b j c l)
  mark_if_keeps true j c l h = mark_unknown_keeps d why j c l h
  mark_if_keeps false j c l h = h

  mark_both_keeps :
      (j i : ℕ) (c : Cause) (l : Ledger) → IsUnknown d why l → IsUnknown d why (mark_both j i c l)
  mark_both_keeps j i c l h =
      mark_unknown_keeps d why i c (mark_unknown j c l) (mark_unknown_keeps d why j c l h)

  cover_boundary_keeps :
      (p : Option Sample) (c : Sample) (l : Ledger)
      → IsUnknown d why l
      → IsUnknown d why (cover_boundary p c l).0
  unfolding cover_boundary
  cover_boundary_keeps none c l h = mark_unknown_keeps d why c.now.day missing_initial_boundary l h
  cover_boundary_keeps (some p) c l h =
      let after_gap =
        if_both (IsUnknown d why) (gap c.now p.now)
          (mark_both_keeps c.now.day p.now.day observation_gap_or_clock_change l h) h in
      if_both Kept (not (same_day p c))
        (if_both Kept (is_boundary p c) after_gap
          (mark_both_keeps c.now.day p.now.day unproven_day_or_source_boundary _ after_gap))
        (mark_if_keeps (counter_lost c.daily_kwh p.daily_kwh) c.now.day
          import_counter_reset_or_unavailable _ after_gap)
    where
      Kept : Ledger × List ℕ → Type 0
      Kept r = IsUnknown d why r.0

  entered_keeps : (o : Observation) (l : Ledger) → IsUnknown d why l → IsUnknown d why (entered o l)
  unfolding entered
  entered_keeps o l h =
      mark_if_keeps (not o.permission_known) o.now.day import_permission_unproven _ (
        mark_if_keeps (is_none (counter (finite? o.daily_import_kwh))) o.now.day
          import_counter_unavailable _ (check_source_keeps d why o.source o.now.day l h))

  module _ (representable : ℤ → Bool) where
    energy_of_keeps :
        (b : Bool) (p : Option Sample) (c : Sample) (power : Option ℤ) (l : Ledger)
        → IsUnknown d why l
        → IsUnknown d why (energy_of representable b p c power l).0
    unfolding energy_of
    energy_of_keeps b p c power l h =
        if_both (λ (r : Ledger × Metered). IsUnknown d why r.0) (representable _)
          (mark_if_keeps _ c.now.day import_power_unavailable l h)
          (mark_unknown_keeps d why c.now.day interval_energy_unrepresentable _
            (mark_if_keeps _ c.now.day import_power_unavailable l h))

    settle_keeps : (l : Ledger) (c : Sample) → IsUnknown d why l → IsUnknown d why (settle l c).0
    settle_keeps l c h = ground arith

    measure_keeps :
        (o : Observation) (l : Ledger)
        → IsUnknown d why l
        → IsUnknown d why (measure representable o l).ledger
    unfolding measure
    measure_keeps o l h =
        let c = sample_of o in
        let l2 = entered o l in
        let (l3, _) = cover_boundary l2.last c l2 in
        let power = finite? o.grid_import_kw in
        let active = is_measured l2.last c l3 in
        let (l4, _) = energy_of representable active l2.last c power l3 in
        settle_keeps l4 c (
          energy_of_keeps active l2.last c power l3
            (cover_boundary_keeps l2.last c l2 (entered_keeps o l h)))

  persist_keeps :
      (c : Sample) (kwh : ℤ) (price : Option ℤ) (trusted : Bool) (source : EnergySource)
      (complete : List ℕ) (changed : Option ℤ) (w : World)
      → IsUnknown d why w.ledger
      → IsUnknown d why (persist c kwh price trusted source complete changed w).0.ledger
  unfolding persist
  persist_keeps c kwh price trusted source complete changed w h = retain_keeps d why _ _ h

  on_error_keeps :
      (now : Moment) (c : Cause) (r : World × Outcome)
      → IsUnknown d why r.0.ledger
      → IsUnknown d why (on_error now c r).0.ledger
  on_error_keeps now c (w, returned) h = h
  on_error_keeps now c (w, raised e) h =
      ground (arith, invalidate_keeps d why now c false w.ledger h)

  module _ (representable : ℤ → Bool) where
    deliver_keeps :
        (price : Option ℤ) (trusted : Bool) (w : World) (i : Interval)
        → IsUnknown d why i.ledger
        → IsUnknown d why (deliver price trusted w i).0.ledger
    deliver_keeps price trusted w i h =
        if_both (λ (r : World × Outcome). IsUnknown d why r.0.ledger) i.needs_event
          (persist_keeps i.current i.kwh price trusted i.source i.complete_days none
            (record w { ledger = i.ledger }) h)
          (flush_keeps d why (record w { ledger = record i.ledger { snapshot_retained = true } }) h)

    inner_keeps :
        (o : Observation) (w : World)
        → IsUnknown d why w.ledger
        → IsUnknown d why (record_inner representable o w).0.ledger
    unfolding record_inner
    inner_keeps o w h =
        let w' = load_checkpoint o.now.day w in
        if_both (λ (r : World × Outcome). IsUnknown d why r.0.ledger) (not o.now.aware) h
          (deliver_keeps (finite? o.import_price) o.price_trusted w'
            (measure representable o w'.ledger)
            (measure_keeps representable o w'.ledger (load_checkpoint_keeps d why o.now.day w h)))

    pub record_keeps :
        (o : Observation) (w : World)
        → IsUnknown d why w.ledger
        → IsUnknown d why (record_observation representable o w).0.ledger
    unfolding record_observation
    record_keeps o w h = on_error_keeps o.now interval_snapshot_unretained _ (inner_keeps o _ h)

  permit_keeps :
      (now : Moment) (active : Bool) (p : Option Sample) (w : World)
      → IsUnknown d why w.ledger
      → IsUnknown d why (permit_last now active p w).0.ledger
  permit_keeps now active none w h =
      invalidate_keeps d why now missing_initial_boundary false w.ledger h
  permit_keeps now active (some p) w h =
      if_both (λ (r : World × Outcome). IsUnknown d why r.0.ledger) _
        (flush_keeps d why (record w { ledger = record w.ledger { snapshot_retained = true } }) h)
        (persist_keeps _ (pos 0) none false permission_boundary [] (some now.instant) _ h)

  pub set_permission_keeps :
      (now : Moment) (source : ℕ) (active : Bool) (w : World)
      → IsUnknown d why w.ledger
      → IsUnknown d why (set_permission now source active w).0.ledger
  unfolding set_permission
  set_permission_keeps now source active w h =
      let l = check_source source now.day (begin_capture w.ledger) in
      on_error_keeps now permission_snapshot_unretained _ (
        permit_keeps now active l.last (record w { ledger = l })
          (check_source_keeps d why source now.day (begin_capture w.ledger) h))
