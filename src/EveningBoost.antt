-- ===== src/EveningBoost.antt =====
-- app/optimizer.py, `_evening_boost_reentry_*`: when the evening export boost may be acquired. What
-- the optimizer reads of its state and configuration is an argument; times are in millionths of a
-- second and power in millionths of a kilowatt. An exception is `none`, and so is an open admission
-- that lacks a stamp it should hold, whether or not Python would get to read the missing one. What
-- `_evening_boost_reentry_context` and `_msc_transition_observed` return is an argument as well: the
-- model has the calls in which these two return.
pub mod Evidence
pub mod State
pub mod Application
pub mod Invariant
pub mod Advance
pub mod Admission
pub mod Settlement
pub mod Runs
pub mod Generations
pub mod Verified
pub mod Tests
use sigenergy_optimizer.Prelude.{
  ℕ, ◌+◌, Bool, true, false, not, ◌&&◌, ◌||◌, Option, none, some, if◌then◌else◌, Eq,
}
use sigenergy_optimizer.Prelude.Int.{ℤ, ◌-ℤ◌, ltb_ℤ, leb_ℤ, Number, finite?}
use Evidence.{Inputs, evidence, max_report_gap_seconds}
use State.{
  Phase, closed, qualifying, admitted, Reason, untrusted_reentry_evidence, clock_regressed,
  boost_not_selected_or_safety_gate_failed, load_report_regressed, context_changed_or_report_gap,
  qualifying_fresh_reports, awaiting_existing_msc_settlement,
  qualified_admission_not_physical_settlement, waiting_for_new_load_report, Boost, closed_reentry,
  clock_before, report_before, reentry_seconds,
}

module _ {K : Type 0} where
  unfoldable pub reset : Boost K → Reason → Boost K
  reset b why = record b { reentry = closed_reentry why (b.reentry.generation + 1) }

  unfoldable pub begin : Boost K → ℤ → ℤ → ℤ → K → Boost K
  begin b stamp ts mono k = record b {
    reentry = record b.reentry {
      phase = qualifying;
      reason = qualifying_fresh_reports;
      first_report_ts = some stamp;
      last_report_ts = some stamp;
      started_monotonic = some mono;
      last_report_monotonic = some mono;
      last_evaluated_monotonic = some mono;
      last_wall_ts = some ts;
      context = some k;
    };
  }

  abbrev pub say : Boost K → Phase → Reason → Boost K
  say b p why = record b { reentry = record b.reentry { phase = p; reason = why } }

  -- The end of `_evening_boost_reentry_allowed`, once an advance is stored. `settling` is
  -- `self._msc_transition is not None and not self._msc_transition_observed(s)`.
  abbrev pub conclude :
      Boost K → Phase → Bool → Bool → ℤ → ℤ → Option ℤ → Option ℤ → Option (Boost K × Bool)
  conclude b admitted settling advancing stamp mono first started = some (b, true)
  conclude b p settling advancing stamp mono (some first) (some started) =
      if advancing
        && (leb_ℤ reentry_seconds (mono -ℤ started) && leb_ℤ reentry_seconds (stamp -ℤ first))
      then (if settling
          then some (say b p awaiting_existing_msc_settlement, false)
          else some (say b admitted qualified_admission_not_physical_settlement, true))
      else some (
        say b p (if advancing then qualifying_fresh_reports else waiting_for_new_load_report),
        false,
      )
  conclude b p settling advancing stamp mono _ _ = none

  unfoldable pub advance : Boost K → Bool → ℤ → ℤ → ℤ → ℤ → ℤ → Option (Boost K × Bool)
  advance b settling stamp ts mono last at =
      let r = b.reentry in
      let advancing = ltb_ℤ last stamp in
      conclude
        (record b {
          reentry = record r {
            last_report_ts = some (if advancing then stamp else last);
            last_report_monotonic = some (if advancing then mono else at);
            last_evaluated_monotonic = some mono;
            last_wall_ts = some ts;
          };
        })
        r.phase settling advancing stamp mono r.first_report_ts r.started_monotonic

  module _ ⦃e : Eq K⦄ where
    abbrev pub same_context : K → Option K → Bool
    same_context k none = false
    same_context k (some j) = e.beq k j

    -- `context != admission.context or stamp - last > gap or now_mono - at > gap`
    abbrev pub broken : K → Option K → ℤ → ℤ → ℤ → ℤ → Bool
    broken k old stamp last mono at =
        not (same_context k old)
        || (ltb_ℤ max_report_gap_seconds (stamp -ℤ last)
            || ltb_ℤ max_report_gap_seconds (mono -ℤ at))

    abbrev pub held : Boost K → Bool → ℤ → ℤ → ℤ → K → Option ℤ → Option ℤ → Option (Boost K × Bool)
    held b settling stamp ts mono k (some last) (some at) =
        if broken k b.reentry.context stamp last mono at
        then some (begin (reset b context_changed_or_report_gap) stamp ts mono k, false)
        else advance b settling stamp ts mono last at
    held b settling stamp ts mono k _ _ = none

    abbrev pub admit : Boost K → Phase → Bool → ℤ → ℤ → ℤ → K → Option (Boost K × Bool)
    admit b closed settling stamp ts mono k = some (begin b stamp ts mono k, false)
    admit b _ settling stamp ts mono k =
        held b settling stamp ts mono k b.reentry.last_report_ts b.reentry.last_report_monotonic

    abbrev pub with_evidence : Boost K → Bool → Option ℤ → ℤ → ℤ → K → Option (Boost K × Bool)
    with_evidence b settling none ts mono k = some (reset b untrusted_reentry_evidence, false)
    with_evidence b settling (some stamp) ts mono k =
        if report_before b.report_high_water stamp
        then some (reset b load_report_regressed, false)
        else admit (record b { report_high_water = some stamp }) b.reentry.phase settling stamp ts
            mono k

    unfoldable pub observe : Boost K → Bool → Bool → Inputs → ℤ → ℤ → K → Option (Boost K × Bool)
    unfolding evidence
    observe b candidate settling i ts mono k =
        let stamped = record b { last_clock = some (ts, mono) } in
        if clock_before b.last_clock ts mono
        then some (record (reset stamped clock_regressed) { report_high_water = none }, false)
        else if candidate
        then with_evidence stamped settling (evidence i ts) ts mono k
        else some (reset stamped boost_not_selected_or_safety_gate_failed, false)

    abbrev pub at_mono : Boost K → Bool → Bool → Inputs → ℤ → Option ℤ → K → Option (Boost K × Bool)
    at_mono b candidate settling i ts none k = some (reset b untrusted_reentry_evidence, false)
    at_mono b candidate settling i ts (some mono) k = observe b candidate settling i ts mono k

    -- `_evening_boost_reentry_allowed`
    unfoldable pub allowed :
        Boost K → Bool → Bool → Inputs → ℤ → Number → K → Option (Boost K × Bool)
    allowed b candidate settling i ts mono k = at_mono b candidate settling i ts (finite? mono) k
