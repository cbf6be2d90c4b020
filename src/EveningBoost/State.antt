-- ===== src/EveningBoost/State.antt =====
-- app/optimizer.py: the record `_EveningBoostReentry`, the fields of the optimizer beside it, and
-- their clock and report checks.
use sigenergy_optimizer.Prelude.{ℕ, Bool, true, false, ◌||◌, Option, none, some}
use sigenergy_optimizer.Prelude.Int.{ℤ, ltb_ℤ, units}

abbrev pub reentry_seconds : ℤ
reentry_seconds = units 120

pub data Phase : Type 0 where
  closed qualifying admitted : Phase

pub data Reason : Type 0 where
  startup_requires_qualification untrusted_reentry_evidence clock_regressed : Reason
  boost_not_selected_or_safety_gate_failed load_report_regressed : Reason
  context_changed_or_report_gap qualifying_fresh_reports awaiting_existing_msc_settlement : Reason
  qualified_admission_not_physical_settlement waiting_for_new_load_report : Reason
  application_not_verified_or_owner_changed configuration_identity_changed : Reason
  optimizer_start_requires_qualification cycle_cancelled application_or_cycle_failed : Reason
  dispatch_authority_lost admission_expired_during_dispatch : Reason
  admission_expired_before_discharge admission_expired_during_application : Reason
  operator_mode_request : Reason

-- `_EveningBoostReentry`
pub record Reentry (K : Type 0) : Type 0 where
  pub phase : Phase
  pub reason : Reason
  pub generation : ℕ
  pub first_report_ts : Option ℤ
  pub last_report_ts : Option ℤ
  pub started_monotonic : Option ℤ
  pub last_report_monotonic : Option ℤ
  pub last_evaluated_monotonic : Option ℤ
  pub last_wall_ts : Option ℤ
  pub context : Option K

-- The fields of the optimizer that these methods keep.
pub record Boost (K : Type 0) : Type 0 where
  pub reentry : Reentry K
  pub last_clock : Option (ℤ × ℤ)
  pub report_high_water : Option ℤ

abbrev pub closed_reentry : {K : Type 0} → Reason → ℕ → Reentry K
closed_reentry why n = record {
  phase = closed;
  reason = why;
  generation = n;
  first_report_ts = none;
  last_report_ts = none;
  started_monotonic = none;
  last_report_monotonic = none;
  last_evaluated_monotonic = none;
  last_wall_ts = none;
  context = none;
}

abbrev pub fresh_boost : {K : Type 0} → Boost K
fresh_boost = record {
  reentry = closed_reentry startup_requires_qualification 0;
  last_clock = none;
  report_high_water = none;
}

abbrev pub clock_before : Option (ℤ × ℤ) → ℤ → ℤ → Bool
clock_before none ts mono = false
clock_before (some (t, m)) ts mono = ltb_ℤ ts t || ltb_ℤ mono m

abbrev pub report_before : Option ℤ → ℤ → Bool
report_before none stamp = false
report_before (some h) stamp = ltb_ℤ stamp h

abbrev pub is_admitted : Phase → Bool
is_admitted admitted = true
is_admitted _ = false
