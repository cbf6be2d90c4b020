-- ===== src/Desired/State.antt =====
-- What the limits of a decision read: the house's state (`SolarState` of app/models.py), the settings
-- and the optimizer's memory. Prices, powers, energies and percentages are finite numbers.
use sigenergy_optimizer.Prelude.{String, Bool, Option}
use sigenergy_optimizer.Prelude.Int.{ℤ}

-- The labels that app/optimizer.py gives the inverter's modes, and any other text.
pub data Mode : Type 0 where
  max_self cmd_discharge_pv cmd_discharge_ess cmd_charge_pv cmd_charge_grid other_mode : Mode

-- `EXPORT_BLOCKED`, `MSC_SURPLUS_CEILING` and `BATTERY_EXPORT`.
pub data Intent : Type 0 where
  export_blocked msc_surplus_ceiling battery_export : Intent

-- An entity's maximum is `none` where it is missing or not a finite number.
pub record House : Type 0 where
  pub current_price : ℤ
  pub price_is_actual : Bool
  pub price_is_negative : Bool
  pub price_spike_active : Bool
  pub feedin_price : ℤ
  pub feedin_is_negative : Bool
  pub demand_window_active : Bool
  pub demand_window_observed : Bool
  pub battery_soc : ℤ
  pub battery_capacity_kwh : ℤ
  pub pv_kw : ℤ
  pub load_kw : ℤ
  pub forecast_remaining_kwh : ℤ
  pub sigenergy_mode : String
  pub sigenergy_mode_observed : Bool
  pub current_ems_mode : Mode
  pub ess_max_charge_kw : ℤ
  pub ess_max_discharge_kw : ℤ
  pub ess_charge_limit_entity_max_kw : Option ℤ
  pub ess_discharge_limit_entity_max_kw : Option ℤ
  pub grid_export_limit_entity_max_kw : Option ℤ
  pub feedin_price_cents : ℤ
  pub forecast_tomorrow_kwh : ℤ
  pub current_export_limit : ℤ

pub record Settings : Type 0 where
  pub automated_option : String
  pub evening_aggressive_floor : ℤ
  pub min_export_target_soc : ℤ
  pub evening_boost_min_feedin_price : ℤ
  pub export_limit_low : ℤ
  pub export_limit_medium : ℤ
  pub export_limit_high : ℤ
  pub export_threshold_low : ℤ
  pub export_threshold_medium : ℤ
  pub export_threshold_high : ℤ
  pub export_spike_min_soc : ℤ
  pub export_spike_full_power : Bool
  pub export_soc_span_day : ℤ
  pub export_discharge_window_hours : ℤ
  pub export_guard_relax_soc : ℤ
  pub forecast_safety_export : ℤ
  pub import_limit_low : ℤ
  pub import_limit_medium : ℤ
  pub import_limit_high : ℤ
  pub import_threshold_low : ℤ
  pub import_threshold_medium : ℤ
  pub import_threshold_high : ℤ
  pub max_price_threshold : ℤ
  pub price_hysteresis : ℤ
  pub daytime_topup_max_soc : ℤ
  pub target_battery_charge : ℤ
  pub cap_total_import : ℤ
  pub forecast_safety_charging : ℤ
  pub soc_hysteresis : ℤ
  pub max_battery_soc : ℤ
  pub min_grid_transfer_kw : ℤ
  pub pv_max_power_normal : ℤ
  pub ess_limit_fallback_kw : ℤ
  pub ess_charge_limit_value : ℤ
  pub ess_discharge_limit_value : ℤ
  pub morning_slow_charge_rate_kw : ℤ
  pub battery_export_min_soc_low : ℤ
  pub allow_positive_fit_battery_discharging : Bool

-- Attributes of the optimizer.
pub record Memory : Type 0 where
  pub manual_mode_override : Bool
  pub last_export_limit : Option ℤ
  pub holdoff_entry_floor : Option ℤ
  pub last_hw_charge_cap_kw : Option ℤ
  pub last_hw_discharge_cap_kw : Option ℤ

-- Which readings of the tick are trusted.
pub record Trust : Type 0 where
  pub import_price_trusted : Bool
  pub feedin_price_trusted : Bool
  pub battery_soc_trusted : Bool
  pub battery_capacity_trusted : Bool
  pub forecast_remaining_trusted : Option Bool
