-- ===== src/SolarReentry.antt =====
-- app/solar_reentry.py: the guard that withholds Solar re-entry until fresh reports span an interval.
-- `self` is passed and returned; a failed `assert` is `none`.
pub mod State
pub mod Invariant
pub mod Dispatch
pub mod Runs
pub mod Tests
use sigenergy_optimizer.Prelude.{
  ℕ, ◌+◌, Bool, true, false, not, ◌&&◌, ◌||◌, Option, none, some, ◌==◌, if◌then◌else◌, Eq, is_some,
}
use sigenergy_optimizer.Prelude.Int.{ℤ, pos, ◌-ℤ◌, ltb_ℤ, leb_ℤ, Number, finite?}
use State.{
  Phase, idle, closed, qualifying, qualified, Reason, clock_invalid, clock_regressed,
  context_changed, candidate_failed, reports_missing_invalid_future_or_stale, report_regressed,
  advancing_report_gap, fresh_report_interval_qualified, qualifying_fresh_reports,
  waiting_for_new_reports, qualified_application_committed, Stamps, Clock, Reading, Guard,
  qualification_seconds, reports_fresh, regressed_from, clock_before, stream_gap, both_span,
  is_qualified, same_stamps, clock_held, advanced_recently,
}

module _ {K : Type 0} where
  unfoldable pub reset : Guard K → Reason → Guard K
  reset g why = record g {
    generation = g.generation + 1;
    phase = if g.required then closed else idle;
    reason = why;
    reports = none;
    context = none;
    first_reports = none;
    started_monotonic = none;
    last_advance_monotonic = none;
  }

  unfoldable pub arm : Guard K → Reason → Guard K
  unfolding reset
  arm g cause = reset (record g { required = true }) cause

  unfoldable pub start : Guard K → Stamps → ℤ → K → Guard K
  start g r mono k = record g {
    phase = qualifying;
    reason = qualifying_fresh_reports;
    reports = some r;
    first_reports = some r;
    context = some k;
    started_monotonic = some mono;
    last_advance_monotonic = some (record { pv = mono; load = mono });
    report_high_water = some r;
  }

  abbrev mature : Guard K → Bool → Stamps → ℤ → Stamps → ℤ → Guard K × Bool
  mature g advanced r mono first started =
      if advanced && (leb_ℤ qualification_seconds (mono -ℤ started) && both_span r first)
      then (record g { phase = qualified; reason = fresh_report_interval_qualified }, true)
      else (
        record g {
          reason = if advanced then qualifying_fresh_reports else waiting_for_new_reports;
        },
        false,
      )

  -- The tail of `evaluate` once this tick's reports are stored; `none` is a failed `assert`.
  abbrev conclude :
      Guard K → Bool → Stamps → ℤ → Option Stamps → Option ℤ → Phase → Option (Guard K × Bool)
  conclude g advanced r mono first started qualified = some (g, true)
  conclude g advanced r mono (some first) (some started) _ =
      some (mature g advanced r mono first started)
  conclude g advanced r mono _ _ _ = none

  unfoldable pub advance : Guard K → Stamps → Stamps → Stamps → ℤ → Option (Guard K × Bool)
  advance g r old at mono =
      let pv_new = ltb_ℤ old.pv r.pv in
      let load_new = ltb_ℤ old.load r.load in
      conclude
        (record g {
          last_advance_monotonic = some (record {
            pv = if pv_new then mono else at.pv;
            load = if load_new then mono else at.load;
          });
          reports = some r;
          report_high_water = some r;
        })
        (pv_new || load_new) r mono g.first_reports g.started_monotonic g.phase

  abbrev progress : Guard K → Stamps → Stamps → Option Stamps → ℤ → K → Option (Guard K × Bool)
  progress g r old none mono k = none
  progress g r old (some at) mono k =
      if stream_gap r.pv old.pv mono at.pv || stream_gap r.load old.load mono at.load
      then some (start (reset g advancing_report_gap) r mono k, false)
      else advance g r old at mono

  abbrev continue : Guard K → Stamps → Option Stamps → ℤ → K → Option (Guard K × Bool)
  continue g r none mono k = some (start g r mono k, false)
  continue g r (some old) mono k = progress g r old g.last_advance_monotonic mono k

  abbrev judge : Guard K → Option Stamps → ℤ → K → Option (Guard K × Bool)
  judge g none mono k = some (reset g reports_missing_invalid_future_or_stale, false)
  judge g (some r) mono k =
      if regressed_from g.report_high_water r
      then some (reset g report_regressed, false)
      else continue g r g.reports mono k

  module _ ⦃e : Eq K⦄ where
    -- `context == self.context`, where the field may be `None`
    abbrev pub same_context : K → Option K → Bool
    same_context k none = false
    same_context k (some j) = e.beq k j

    abbrev pub adopt : Guard K → K → Guard K
    adopt g k = if same_context k g.identity_context then g else (record (reset g context_changed) {
      identity_context = some k;
      report_high_water = none;
    })

    unfoldable pub observe :
        Guard K → Bool → Option (Number × Number) → ℤ → ℤ → K → Option (Guard K × Bool)
    observe g candidate reports ts mono k =
        let stamped = record g { last_clock = some (record { ts = ts; mono = mono }) } in
        if clock_before g.last_clock ts mono
        then some (record (reset stamped clock_regressed) { report_high_water = none }, false)
        else if candidate
        then judge (adopt stamped k) (reports_fresh reports ts) mono k
        else some (reset (adopt stamped k) candidate_failed, false)

    abbrev with_clock : Guard K → Bool → Reading K → Option ℤ → Option ℤ → Option (Guard K × Bool)
    with_clock g candidate r (some ts) (some mono) = observe g candidate r.reports ts mono r.context
    with_clock g candidate r _ _ = some (reset g clock_invalid, false)

    -- The new guard and the answer; `none` is an `AssertionError`.
    unfoldable pub evaluate : Guard K → Bool → Reading K → Option (Guard K × Bool)
    evaluate g candidate r =
        if g.required
        then with_clock g candidate r (finite? r.now_ts) (finite? r.now_mono)
        else some (g, true)

    abbrev current_at : Guard K → Option (Number × Number) → Option ℤ → Option ℤ → Bool
    current_at g reports (some ts) (some mono) =
        is_some (reports_fresh reports ts)
        && (same_stamps (reports_fresh reports ts) g.reports
            && (clock_held g.last_clock ts mono && advanced_recently g.last_advance_monotonic mono))
    current_at g reports _ _ = false

    -- The read-only check before dispatch.
    unfoldable pub current : Guard K → ℕ → Reading K → Bool
    current g generation r =
        g.required
        && (is_qualified g.phase
            && (generation == g.generation
                && (same_context r.context g.context
                    && current_at g r.reports (finite? r.now_ts) (finite? r.now_mono))))

  unfoldable pub commit : Guard K → ℕ → Guard K × Bool
  commit g generation =
      if not g.required || (not (is_qualified g.phase) || not (generation == g.generation))
      then (g, false)
      else (
        record g {
          required = false;
          phase = idle;
          reason = qualified_application_committed;
          reports = none;
          context = none;
          first_reports = none;
          started_monotonic = none;
          last_advance_monotonic = none;
        },
        true,
      )

-- `_qualifying_seconds` of `diagnostics`.
unfoldable pub qualifying_seconds : {K : Type 0} → Guard K → ℤ
qualifying_seconds g = elapsed g.last_clock g.started_monotonic
  where
    elapsed : Option Clock → Option ℤ → ℤ
    elapsed (some c) (some at) = c.mono -ℤ at
    elapsed _ _ = pos 0
