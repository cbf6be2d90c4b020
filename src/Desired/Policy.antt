-- ===== src/Desired/Policy.antt =====
-- app/optimizer.py: the arguments of `_desired_export_limit` and the labels of its branches.
use sigenergy_optimizer.Prelude.{Bool, Option}
use sigenergy_optimizer.Prelude.Int.{ℤ}

-- The labels of the branches.
pub data Source : Type 0 where
  closed_untrusted_fit closed_fit_below_minimum closed_battery_full_safeguard closed_no_daytime_pv
        closed_negative_price closed_below_export_floor closed_forecast_guard closed_below_min_soc
        closed_tier closed_ordinary morning_dump morning_slow_pv_closed morning_slow_pv_high
        high_price_or_spike positive_fit_override solar_surplus_pv_closed solar_surplus_pv_high
        solar_override ordinary_tier :
      Source

-- `_DesiredExportLimit`
pub record Choice : Type 0 where
  pub limit : ℤ
  pub source : Source

-- The arguments of the method.
pub record Policy : Type 0 where
  pub spike : Bool
  pub solar_override : Bool
  pub export_blocked : Bool
  pub forecast_guard : Bool
  pub export_min_soc : ℤ
  pub positive_fit_override : Bool
  pub surplus_bypass : Bool
  pub evening_boost : Bool
  pub morning_dump : Bool
  pub morning_dump_limit : ℤ
  pub battery_full_safeguard_block : Bool
  pub tier_limit : ℤ
  pub hours_to_sunrise : ℤ
  pub cap : ℤ
  pub pv_surplus : ℤ
  pub is_evening_or_night : Bool
  pub morning_slow_charge_active : Bool
  pub within_morning_grace : Bool
  pub feedin_price_trusted : Option Bool
  pub measured_pv_surplus : Option ℤ
  pub forecast_tomorrow_trusted : Bool
  pub battery_soc_floor : Option ℤ
  pub independent_policy_only : Bool
  pub solar_dip_hold : Bool
