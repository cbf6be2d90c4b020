-- ===== src/Desired/Tests.antt =====
-- Runs of the limits and the mode of a decision in app/optimizer.py, and their theorems at them.
use sigenergy_optimizer.Prelude.{◌≡◌, refl, true, false, none, some, arith}
use sigenergy_optimizer.Prelude.Int.{pos, ◌≤ℤ◌, ◌+ℤ◌, ◌-ℤ◌, units}
use sigenergy_optimizer.Desired.State.{
  max_self, cmd_charge_pv, export_blocked, House, Settings, Memory, Trust,
}
use sigenergy_optimizer.Desired.Caps.{
  valid_hw_cap_kw, desired_ess_charge_limit, desired_ess_discharge_limit,
}
use sigenergy_optimizer.Desired.Tier.{export_tier_limit}
use sigenergy_optimizer.Desired.Policy.{Policy, ordinary_tier}
use sigenergy_optimizer.Desired.Export.{desired_export_limit}
use sigenergy_optimizer.Desired.Arbitration.{IsAllowed, desired_export_limit-IsAllowed}
use sigenergy_optimizer.Desired.{desired_import_limit, desired_ems_mode}
use sigenergy_optimizer.Desired.Bounds.{IsCharge, IsDischarge, ess_limits-AreBounded}
use sigenergy_optimizer.Desired.Safety.{IsWarranted, desired_import_limit-IsWarranted}
use sigenergy_optimizer.Desired.Owned.{IsOwned, desired_ems_mode-IsOwned}
use sigenergy_optimizer.Desired.Feedin.{raised, export_tier_limit-mono, export_tier_limit-InRange}

abbrev cfg : Settings
cfg = record {
  automated_option = "Automated";
  evening_aggressive_floor = pos 0;
  min_export_target_soc = pos 0;
  evening_boost_min_feedin_price = pos 0;
  export_limit_low = units 2;
  export_limit_medium = units 5;
  export_limit_high = units 10;
  export_threshold_low = pos 100_000;
  export_threshold_medium = pos 300_000;
  export_threshold_high = pos 1_000_000;
  export_spike_min_soc = pos 0;
  export_spike_full_power = false;
  export_soc_span_day = units 10;
  export_discharge_window_hours = units 4;
  export_guard_relax_soc = pos 0;
  forecast_safety_export = pos 1_200_000;
  import_limit_low = units 6;
  import_limit_medium = units 8;
  import_limit_high = units 10;
  import_threshold_low = pos 0;
  import_threshold_medium = pos 0;
  import_threshold_high = pos 0;
  max_price_threshold = pos 50_000;
  price_hysteresis = pos 0;
  daytime_topup_max_soc = units 50;
  target_battery_charge = units 2;
  cap_total_import = units 10;
  forecast_safety_charging = pos 1_200_000;
  soc_hysteresis = units 1;
  max_battery_soc = units 100;
  min_grid_transfer_kw = pos 100_000;
  pv_max_power_normal = units 20;
  ess_limit_fallback_kw = units 10;
  ess_charge_limit_value = units 20;
  ess_discharge_limit_value = units 20;
  morning_slow_charge_rate_kw = pos 1_234_567;
  battery_export_min_soc_low = pos 0;
  allow_positive_fit_battery_discharging = true;
}

abbrev memory : Memory
memory = record {
  manual_mode_override = false;
  last_export_limit = none;
  holdoff_entry_floor = none;
  last_hw_charge_cap_kw = none;
  last_hw_discharge_cap_kw = none;
}

abbrev house : House
house = record {
  current_price = pos 40_000;
  price_is_actual = false;
  price_is_negative = false;
  price_spike_active = false;
  feedin_price = pos 200_000;
  feedin_is_negative = false;
  demand_window_active = false;
  demand_window_observed = true;
  battery_soc = units 40;
  battery_capacity_kwh = units 20;
  pv_kw = units 1;
  load_kw = units 2;
  forecast_remaining_kwh = pos 0;
  sigenergy_mode = "Automated";
  sigenergy_mode_observed = true;
  current_ems_mode = max_self;
  ess_max_charge_kw = units 8;
  ess_max_discharge_kw = units 9;
  ess_charge_limit_entity_max_kw = some (units 7);
  ess_discharge_limit_entity_max_kw = none;
  grid_export_limit_entity_max_kw = some (units 5);
  feedin_price_cents = units 20;
  forecast_tomorrow_kwh = units 30;
  current_export_limit = pos 0;
}

abbrev trust : Trust
trust = record {
  import_price_trusted = true;
  feedin_price_trusted = true;
  battery_soc_trusted = true;
  battery_capacity_trusted = true;
  forecast_remaining_trusted = none;
}

abbrev policy : Policy
policy = record {
  spike = false;
  solar_override = false;
  export_blocked = false;
  forecast_guard = false;
  export_min_soc = units 20;
  positive_fit_override = false;
  surplus_bypass = false;
  evening_boost = false;
  morning_dump = false;
  morning_dump_limit = pos 0;
  battery_full_safeguard_block = false;
  tier_limit = pos 3_500_000;
  hours_to_sunrise = units 8;
  cap = units 20;
  pv_surplus = pos 0;
  is_evening_or_night = true;
  morning_slow_charge_active = false;
  within_morning_grace = false;
  feedin_price_trusted = some true;
  measured_pv_surplus = none;
  forecast_tomorrow_trusted = true;
  battery_soc_floor = none;
  independent_policy_only = false;
  solar_dip_hold = false;
}

-- By night the energy above the floor, 4 kWh over four hours, bounds the export.
tonight :
    desired_export_limit cfg memory house policy
    ≡ record { limit = pos 1_100_000; source = ordinary_tier }
unfolding desired_export_limit ◌-ℤ◌ ◌+ℤ◌
tonight = refl

-- Half way up the low tier.
halfway : export_tier_limit cfg memory house false false false false false none none ≡ pos 3_500_000
unfolding export_tier_limit ◌+ℤ◌ ◌-ℤ◌
halfway = refl

top_up : desired_import_limit cfg memory house false false false trust false (pos 0) ≡ units 2
unfolding desired_import_limit
top_up = refl

charging :
    desired_ems_mode cfg memory house false false false
      (pos 0)
      export_blocked
      (units 2)
      (units 20)
      false
      trust
      false
    ≡ cmd_charge_pv
unfolding desired_ems_mode
charging = refl

slow_charge : desired_ess_charge_limit cfg memory house (pos 0) true false none ≡ pos 1_230_000
unfolding desired_ess_charge_limit valid_hw_cap_kw
slow_charge = refl

desired_import_limit-IsWarranted_example :
    IsWarranted cfg memory house false false false trust false
      (pos 0)
      (desired_import_limit cfg memory house false false false trust false (pos 0))
unfolding desired_import_limit
desired_import_limit-IsWarranted_example =
    desired_import_limit-IsWarranted cfg memory house false false false trust false (pos 0) refl

desired_ems_mode-IsOwned_example :
    IsOwned cfg memory house false false false
      (pos 0)
      export_blocked
      (units 2)
      (units 20)
      false
      trust
      false
      (desired_ems_mode cfg memory house false false false
        (pos 0)
        export_blocked
        (units 2)
        (units 20)
        false
        trust
        false)
desired_ems_mode-IsOwned_example =
    desired_ems_mode-IsOwned cfg memory house false false false (pos 0) export_blocked (units 2)
      (units 20) false trust false

ess_limits-AreBounded_example :
    IsCharge cfg memory house (desired_ess_charge_limit cfg memory house (pos 0) true false none)
    × IsDischarge cfg memory house (desired_ess_discharge_limit cfg memory house true false)
ess_limits-AreBounded_example =
    ess_limits-AreBounded cfg memory house (pos 0) true false none true false

export_tier_limit-mono_example :
    export_tier_limit cfg memory house false false false false false none none
    ≤ℤ export_tier_limit cfg memory
        (raised cfg memory house (pos 400_000))
        false
        false
        false
        false
        false
        none
        none
export_tier_limit-mono_example =
    export_tier_limit-mono cfg memory house (pos 400_000)
      (omega arith, omega arith, omega arith, omega arith, omega arith) (omega arith) false false
      false false none none

export_tier_limit-InRange_example :
    (pos 0 ≤ℤ export_tier_limit cfg memory house false false true true false none none)
    × (export_tier_limit cfg memory house false false true true false none none ≤ℤ units 10)
export_tier_limit-InRange_example =
    export_tier_limit-InRange cfg memory house
      (omega arith, omega arith, omega arith, omega arith, omega arith) false false true true false
      none none

desired_export_limit-IsAllowed_example : IsAllowed cfg memory house policy
unfolding desired_export_limit ◌-ℤ◌ ◌+ℤ◌
desired_export_limit-IsAllowed_example = desired_export_limit-IsAllowed cfg memory house policy refl
