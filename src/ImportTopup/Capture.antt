-- ===== src/ImportTopup/Capture.antt =====
-- app/import_topup_ledger.py: `record` and `set_permission`, from the measured interval to the queued
-- event, and what an exception on the way costs.
pub mod Trust
use sigenergy_optimizer.Prelude.{
  ℕ, ◌+◌, ◌*◌, ◌/◌, Bool, true, false, not, ◌&&◌, ◌||◌, Option, none, some, List, [], ◌∷◌, map,
  take, ◌==◌, if◌then◌else◌, is_none,
}
use sigenergy_optimizer.Prelude.Int.{ℤ, pos, pos_part, ◌-ℤ◌, ltb_ℤ, leb_ℤ, Number, finite?, units}
use sigenergy_optimizer.ImportTopup.Event.{
  Cause, restart_gap, import_counter_unavailable, import_permission_unproven,
  observation_gap_or_clock_change, missing_initial_boundary, unproven_day_or_source_boundary,
  import_counter_reset_or_unavailable, import_power_unavailable, interval_energy_unrepresentable,
  interval_snapshot_unretained, permission_snapshot_unretained, missing_current_process_boundary,
  history_unavailable, interval_reconciliation_pending, import_tail_measurement_pending,
  EnergySource, inactive, unproven_boundary, daily_import_delta, grid_import_power_integral,
  unrepresentable_interval, permission_boundary, EventId, same_id, Checkpoint, Event,
}
use sigenergy_optimizer.ImportTopup.Measure.{Observation, Interval, measure, gap, mark_if}
use sigenergy_optimizer.ImportTopup.Store.{Fault, fine}
use sigenergy_optimizer.ImportTopup.DaySummary
use sigenergy_optimizer.ImportTopup.DaySummary.{Summary}
use sigenergy_optimizer.ImportTopup.Ledger.{
  Moment, Sample, Key, Ledger, World, Outcome, returned, raised, value_error, mark_unknown,
  mark_last, check_source, unknown_reason, load_checkpoint, next_fault, later_faults, flush, retain,
  invalidate,
}

unfoldable pub begin_capture : Ledger → Ledger
begin_capture l = record l {
  observation_generation = l.observation_generation + 1;
  summary_cache = none;
  snapshot_retained = false;
}

-- `_persist_interval`, as far as the payload.
unfoldable pub event_of :
    Sample → ℤ → Option ℤ → Bool → EnergySource → List ℕ → Option ℤ → Ledger → Event
event_of c kwh price price_trusted source complete changed l =
    let trusted = price_trusted && not (is_none price) in
    record {
      event_id = record { session = l.session_id; sequence = l.sequence };
      date = c.now.day;
      ts = c.now.instant;
      import_kwh = kwh;
      import_price = if trusted then price else none;
      price_trusted = trusted;
      energy_source = source;
      checkpoint = record {
        source = c.source;
        date = c.now.day;
        ts = c.now.instant;
        daily_import_kwh = c.daily_kwh;
        import_active = c.active;
        permission_known = c.permission_known;
        import_tail_pending = l.import_tail_pending;
        session_id = l.session_id;
        sequence = l.sequence;
      };
      unknown_days = l.unknown_days;
      complete_days = complete;
      permission_changed_at = changed;
    }

unfoldable pub persist :
    Sample → ℤ → Option ℤ → Bool → EnergySource → List ℕ → Option ℤ → World → World × Outcome
unfolding event_of
persist c kwh price price_trusted source complete changed w =
    let l = record w.ledger { sequence = w.ledger.sequence + 1 } in
    retain (event_of c kwh price price_trusted source complete changed l) (record w { ledger = l })

-- The handler of `record` and `set_permission`: an exception before the snapshot was retained costs
-- the trust in the day.
abbrev pub on_error : Moment → Cause → World × Outcome → World × Outcome
on_error now why (w, returned) = (w, returned)
on_error now why (w, raised e) =
    if w.ledger.snapshot_retained
    then (w, raised e)
    else (record w { ledger = invalidate now why false w.ledger }, raised e)

abbrev deliver : Option ℤ → Bool → World → Interval → World × Outcome
deliver price trusted w i =
    if i.needs_event
    then persist i.current i.kwh price trusted i.source i.complete_days none
        (record w { ledger = i.ledger })
    else flush (record w { ledger = record i.ledger { snapshot_retained = true } })

unfoldable pub record_inner : (ℤ → Bool) → Observation → World → World × Outcome
unfolding measure persist flush
record_inner representable o w =
    if not o.now.aware
    then (w, raised value_error)
    else (let w' = load_checkpoint o.now.day w in
        deliver (finite? o.import_price) o.price_trusted w' (measure representable o w'.ledger))

-- `record`
unfoldable pub record_observation : (ℤ → Bool) → Observation → World → World × Outcome
unfolding begin_capture record_inner invalidate
record_observation representable o w =
    on_error o.now interval_snapshot_unretained
      (record_inner representable o (record w { ledger = begin_capture w.ledger }))

-- `set_permission` once a sample is there: a command changes the owner, not the measurement.
abbrev permit : Moment → Bool → Sample → World → World × Outcome
permit now active p w =
    let l = w.ledger in
    if ((p.active && active || not p.active && not active) && p.permission_known)
      && l.unknown_revision == l.queued_unknown_revision
    then flush (record w { ledger = record l { snapshot_retained = true } })
    else (let p' = record p { active = active; permission_known = true } in
        persist p' (pos 0) none false permission_boundary [] (some now.instant) (record w {
          ledger = record l {
            import_tail_pending = l.import_tail_pending || l.applied_active && not active;
            applied_active = active;
            last = some p';
          };
        }))

abbrev permit_last : Moment → Bool → Option Sample → World → World × Outcome
permit_last now active none w =
    (record w { ledger = invalidate now missing_initial_boundary false w.ledger }, returned)
permit_last now active (some p) w = permit now active p w

-- `set_permission`
unfoldable pub set_permission : Moment → ℕ → Bool → World → World × Outcome
unfolding begin_capture persist flush invalidate
set_permission now source active w =
    let l = check_source source now.day (begin_capture w.ledger) in
    on_error now permission_snapshot_unretained
      (permit_last now active l.last (record w { ledger = l }))
