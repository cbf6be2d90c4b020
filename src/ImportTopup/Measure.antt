-- ===== src/ImportTopup/Measure.antt =====
-- app/import_topup_ledger.py: what `_record` measures between two samples, and what it no longer
-- trusts. Division by 3600 rounds down to a millionth; whether a float result would stay finite is
-- the parameter `representable`.
pub mod Energy
use sigenergy_optimizer.Prelude.{
  ℕ, ◌+◌, ◌*◌, ◌/◌, Bool, true, false, not, ◌&&◌, ◌||◌, Option, none, some, List, [], ◌∷◌, map,
  take, ◌==◌, if◌then◌else◌, is_none,
}
use sigenergy_optimizer.Prelude.Int.{ℤ, pos, pos_part, ◌-ℤ◌, ltb_ℤ, leb_ℤ, Number, finite?, units}
use sigenergy_optimizer.ImportTopup.Event.{
  Cause, restart_gap, import_counter_unavailable, import_permission_unproven,
  observation_gap_or_clock_change, missing_initial_boundary, unproven_day_or_source_boundary,
  import_counter_reset_or_unavailable, import_power_unavailable, interval_energy_unrepresentable,
  interval_snapshot_unretained, permission_snapshot_unretained, missing_current_process_boundary,
  history_unavailable, interval_reconciliation_pending, import_tail_measurement_pending,
  EnergySource, inactive, unproven_boundary, daily_import_delta, grid_import_power_integral,
  unrepresentable_interval, permission_boundary, EventId, same_id, Checkpoint, Event,
}
use sigenergy_optimizer.ImportTopup.Store.{Fault, fine}
use sigenergy_optimizer.ImportTopup.DaySummary
use sigenergy_optimizer.ImportTopup.DaySummary.{Summary}
use sigenergy_optimizer.ImportTopup.Ledger.{
  Moment, Sample, Key, Ledger, World, Outcome, returned, raised, value_error, mark_unknown,
  mark_last, check_source, unknown_reason, load_checkpoint, next_fault, later_faults, flush, retain,
  invalidate,
}

-- The arguments of `record`; a counter, a power or a price is what `float` makes of it.
pub record Observation : Type 0 where
  pub now : Moment
  pub source : ℕ
  pub daily_import_kwh : Number
  pub grid_import_kw : Number
  pub import_price : Number
  pub price_trusted : Bool
  pub import_active : Bool
  pub permission_known : Bool

-- A counter that is finite and not negative.
abbrev pub counter : Option ℤ → Option ℤ
counter none = none
counter (some d) = if ltb_ℤ d (pos 0) then none else some d

abbrev pub mark_if : Bool → ℕ → Cause → Ledger → Ledger
mark_if b d why l = if b then mark_unknown d why l else l

abbrev pub elapsed : Moment → Moment → ℤ
elapsed now before = now.instant -ℤ before.instant

-- `elapsed < 0 or elapsed > 300`
abbrev pub gap : Moment → Moment → Bool
gap now before = ltb_ℤ (elapsed now before) (pos 0) || ltb_ℤ (units 300) (elapsed now before)

abbrev pub same_day : Sample → Sample → Bool
same_day p c = p.source == c.source && p.now.day == c.now.day

-- `daily is None or previous.daily_kwh is None or daily < previous.daily_kwh`
abbrev pub counter_lost : Option ℤ → Option ℤ → Bool
counter_lost (some d) (some p) = ltb_ℤ d p
counter_lost _ _ = true

abbrev pub is_boundary : Sample → Sample → Bool
is_boundary p c =
    p.source == c.source
    && (not (gap c.now p.now)
        && (p.permission_known
            && (c.permission_known
                && (not p.active && (not c.active && not (is_none c.daily_kwh))))))

abbrev pub mark_both : ℕ → ℕ → Cause → Ledger → Ledger
mark_both d d' why l = mark_unknown d' why (mark_unknown d why l)

-- The coverage that follows from the previous sample, and the days that it proves complete.
unfoldable pub cover_boundary : Option Sample → Sample → Ledger → Ledger × List ℕ
cover_boundary none c l = (mark_unknown c.now.day missing_initial_boundary l, [])
cover_boundary (some p) c l =
    let l' =
      if gap c.now p.now
      then mark_both c.now.day p.now.day observation_gap_or_clock_change l
      else l in
    if not (same_day p c)
    then (if is_boundary p c
        then (l', c.now.day ∷ [])
        else (mark_both c.now.day p.now.day unproven_day_or_source_boundary l', []))
    else (
      mark_if (counter_lost c.daily_kwh p.daily_kwh) c.now.day import_counter_reset_or_unavailable
          l',
      [],
    )

pub record Metered : Type 0 where
  pub kwh : ℤ
  pub source : EnergySource
  pub power_missing : Bool

-- `max(0.0, daily - previous)` where both counters are known.
abbrev counted : Option ℤ → Option ℤ → Metered
counted (some d) (some p) = record {
  kwh = pos (pos_part (d -ℤ p));
  source = daily_import_delta;
  power_missing = false;
}
counted _ _ = record { kwh = pos 0; source = unproven_boundary; power_missing = false }

-- `max(0.0, power) * max(0.0, min(elapsed, 300.0)) / 3600.0`
abbrev power_energy : ℤ → ℤ → ℤ
power_energy power seconds =
    let held = if ltb_ℤ (units 300) seconds then 300_000_000 else pos_part seconds in
    pos (pos_part power * held / 3_600_000_000)

abbrev by_power : Option ℤ → ℤ → Metered → Metered
by_power none seconds e = record e { power_missing = true }
by_power (some power) seconds e = record e {
  kwh = power_energy power seconds;
  source = grid_import_power_integral;
}

abbrev or_power : Option ℤ → ℤ → Metered → Metered
or_power power seconds e = if leb_ℤ e.kwh (pos 0) then by_power power seconds e else e

-- The energy of an interval whose import was, or may have been, the optimizer's.
unfoldable pub measured : Option Sample → Sample → Option ℤ → Metered
measured none c power = record { kwh = pos 0; source = unproven_boundary; power_missing = false }
measured (some p) c power =
    if same_day p c
    then or_power power (elapsed c.now p.now) (counted c.daily_kwh p.daily_kwh)
    else record { kwh = pos 0; source = unproven_boundary; power_missing = false }

abbrev pub was_active : Option Sample → Bool
was_active none = false
was_active (some p) = p.active

abbrev is_same_day : Option Sample → Sample → Bool
is_same_day none c = false
is_same_day (some p) c = same_day p c

pub record Interval : Type 0 where
  pub ledger : Ledger
  pub current : Sample
  pub kwh : ℤ
  pub source : EnergySource
  pub complete_days : List ℕ
  pub needs_event : Bool

-- The last lines of `_record` before the event: a pending tail is priced once, and the sample moves.
abbrev pub settle : Ledger → Sample → Ledger × Sample
settle l c =
    if l.import_tail_pending
    then (
      record l {
        import_tail_pending = false;
        last = some (record c { active = l.applied_active });
        source = c.source;
      },
      record c { active = l.applied_active },
    )
    else (record l { applied_active = c.active; last = some c; source = c.source }, c)

abbrev pub sample_of : Observation → Sample
sample_of o = record {
  now = o.now;
  source = o.source;
  daily_kwh = counter (finite? o.daily_import_kwh);
  active = o.import_active;
  permission_known = o.permission_known;
}

-- The doubts that the observation itself raises.
unfoldable pub entered : Observation → Ledger → Ledger
entered o l =
    let day = o.now.day in
    mark_if (not o.permission_known) day import_permission_unproven (
      mark_if (is_none (counter (finite? o.daily_import_kwh))) day import_counter_unavailable
        (check_source o.source day l))

abbrev pub is_measured : Option Sample → Sample → Ledger → Bool
is_measured p c l = c.active || was_active p || l.import_tail_pending

module _ (representable : ℤ → Bool) where
  -- An energy that no float holds is counted as none.
  unfoldable pub energy_of : Bool → Option Sample → Sample → Option ℤ → Ledger → Ledger × Metered
  energy_of measured_active p c power l =
      let e : Metered =
        if measured_active
        then measured p c power
        else record { kwh = pos 0; source = inactive; power_missing = false } in
      let l' = mark_if e.power_missing c.now.day import_power_unavailable l in
      if representable e.kwh then (l', e) else (
        mark_unknown c.now.day interval_energy_unrepresentable l',
        record e { kwh = pos 0; source = unrepresentable_interval },
      )

  -- `_record` between the reading of the checkpoint and the event.
  unfoldable pub measure : Observation → Ledger → Interval
  measure o l0 =
      let c = sample_of o in
      let l2 = entered o l0 in
      let previous = l2.last in
      let (l3, complete) = cover_boundary previous c l2 in
      let active = is_measured previous c l3 in
      let (l4, e) = energy_of active previous c (finite? o.grid_import_kw) l3 in
      let (l5, current) = settle l4 c in
      record {
        ledger = l5;
        current = current;
        kwh = e.kwh;
        source = e.source;
        complete_days = complete;
        needs_event =
            active
            || is_none previous
            || was_active previous
            || not (is_same_day previous c)
            || not (l5.unknown_revision == l5.queued_unknown_revision);
      }
