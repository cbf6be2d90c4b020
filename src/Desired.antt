-- ===== src/Desired.antt =====
-- app/optimizer.py: the import limit, the inverter's mode and the PV limit of a decision.
pub mod State
pub mod Caps
pub mod Tier
pub mod Policy
pub mod Export
pub mod Arbitration
pub mod Bounds
pub mod Ladder
pub mod Curve
pub mod Feedin
pub mod Safety
pub mod Owned
pub mod Tests
use sigenergy_optimizer.Prelude.{
  ◌/◌, ◌*◌, Bool, true, false, not, ◌&&◌, ◌||◌, Option, none, some, if◌then◌else◌,
}
use sigenergy_optimizer.Prelude.Int.{ℤ, pos, pos_part, ◌-ℤ◌, ◌+ℤ◌, ltb_ℤ, leb_ℤ, units}
use sigenergy_optimizer.Prelude.Decimal.{◌*ℤ◌, portion, round_ℤ, min_ℤ, max_ℤ}
use State.{
  Mode, max_self, cmd_discharge_pv, cmd_charge_pv, cmd_charge_grid, cmd_discharge_ess, other_mode,
  Intent, export_blocked, msc_surplus_ceiling, battery_export, House, Settings, Memory, Trust,
}

abbrev pub is_zero : ℤ → Bool
is_zero a = leb_ℤ a (pos 0) && leb_ℤ (pos 0) a

-- `current_ems_mode in CHARGE_MODES`
abbrev pub is_charge_mode : Mode → Bool
is_charge_mode cmd_charge_pv = true
is_charge_mode cmd_charge_grid = true
is_charge_mode _ = false

abbrev pub is_battery_export : Intent → Bool
is_battery_export battery_export = true
is_battery_export _ = false

-- `a or b` of a number that may be missing.
abbrev pub or_else : Option ℤ → ℤ → ℤ
or_else none b = b
or_else (some a) b = if is_zero a then b else a

abbrev pub is_untrusted : Option Bool → Bool
is_untrusted (some false) = true
is_untrusted _ = false

module _ (cfg : Settings) (m : Memory) (s : House) where
  -- A price below zero that is low enough to import at.
  abbrev pub pays_to_import : Bool
  pays_to_import = s.price_is_negative && leb_ℤ s.current_price cfg.import_threshold_low

  unfoldable pub desired_import_limit : Bool → Bool → Bool → Trust → Bool → ℤ → ℤ
  desired_import_limit morning_dump demand_window standby_holdoff t feedin_price_ok pv_surplus =
      if morning_dump || demand_window
      then pos 0
      else if standby_holdoff
      then pos 0
      else if pays_to_import
      then (if leb_ℤ s.current_price cfg.import_threshold_high
          then min_ℤ cfg.import_limit_high s.ess_max_charge_kw
          else if leb_ℤ s.current_price cfg.import_threshold_medium
          then min_ℤ cfg.import_limit_medium s.ess_max_charge_kw
          else min_ℤ cfg.import_limit_low s.ess_max_charge_kw)
      else if not t.import_price_trusted
      then pos 0
      else if feedin_price_ok
      then pos 0
      else if ltb_ℤ cfg.max_price_threshold s.current_price
      then pos 0
      else if not t.battery_soc_trusted || not t.battery_capacity_trusted
      then pos 0
      else if leb_ℤ cfg.daytime_topup_max_soc s.battery_soc
      then pos 0
      else if leb_ℤ cfg.target_battery_charge pv_surplus
      then pos 0
      else if not t.feedin_price_trusted
      then pos 0
      else if leb_ℤ s.current_price cfg.max_price_threshold
      then min_ℤ (min_ℤ cfg.target_battery_charge s.ess_max_charge_kw) cfg.cap_total_import
      else pos 0

  abbrev pub expected_kwh : Trust → ℤ
  expected_kwh t =
      if is_untrusted t.forecast_remaining_trusted then pos 0 else s.forecast_remaining_kwh

  unfoldable pub grid_limit_base : Bool → Trust → ℤ
  unfolding ◌*ℤ◌
  grid_limit_base standby_holdoff t =
      if s.demand_window_active || not s.demand_window_observed
      then pos 0
      else if leb_ℤ s.current_price cfg.import_threshold_high && s.price_is_actual
      then min_ℤ cfg.import_limit_high s.ess_max_charge_kw
      else if leb_ℤ s.current_price cfg.import_threshold_medium && s.price_is_actual
      then min_ℤ cfg.import_limit_medium s.ess_max_charge_kw
      else if leb_ℤ s.current_price cfg.import_threshold_low && s.price_is_actual
      then min_ℤ cfg.import_limit_low s.ess_max_charge_kw
      else if not t.import_price_trusted
      then pos 0
      else if standby_holdoff
      then pos 0
      else if s.price_spike_active && ltb_ℤ s.battery_soc cfg.export_spike_min_soc
      then pos 0
      else if leb_ℤ cfg.export_threshold_low s.feedin_price
      then pos 0
      else if not t.feedin_price_trusted
      then pos 0
      else if not t.battery_soc_trusted || not t.battery_capacity_trusted
      then pos 0
      else if leb_ℤ s.current_price cfg.max_price_threshold
          && (ltb_ℤ s.battery_soc cfg.daytime_topup_max_soc
              && (ltb_ℤ (expected_kwh t *ℤ units 1)
                    (s.battery_capacity_kwh *ℤ cfg.forecast_safety_charging)
                  && ltb_ℤ (max_ℤ (s.pv_kw -ℤ s.load_kw) (pos 0)) cfg.target_battery_charge))
      then min_ℤ cfg.target_battery_charge cfg.cap_total_import
      else pos 0

  -- `_charge_mode` of the method; the product by 0.5 is cleared.
  abbrev pub charge_mode : Bool → Mode
  charge_mode grace =
      if grace && ltb_ℤ (s.pv_kw +ℤ s.pv_kw) s.load_kw then max_self else cmd_charge_pv

  abbrev pub exports_battery : Intent → ℤ → Bool
  exports_battery intent desired_export =
      is_battery_export intent && ltb_ℤ (pos 10_000) desired_export

  unfoldable pub desired_ems_mode :
      Bool → Bool → Bool → ℤ → Intent → ℤ → ℤ → Bool → Trust → Bool → Mode
  unfolding grid_limit_base
  desired_ems_mode morning_dump standby_holdoff solar_override desired_export intent desired_import
        sunrise_soc_target grace t demand_blocked =
      let base = grid_limit_base standby_holdoff t in
      let fit = s.feedin_price in
      let soc = s.battery_soc in
      if morning_dump
      then (if exports_battery intent desired_export then cmd_discharge_pv else max_self)
      else if demand_blocked
      then (if exports_battery intent desired_export then cmd_discharge_pv else max_self)
      else if standby_holdoff && is_zero desired_export
      then (if ltb_ℤ soc (or_else m.holdoff_entry_floor (sunrise_soc_target +ℤ cfg.soc_hysteresis))
          then max_self
          else cmd_discharge_pv)
      else if ltb_ℤ (pos 0) desired_import && not s.price_is_negative
      then charge_mode grace
      else if solar_override && exports_battery intent desired_export
      then cmd_discharge_pv
      else if pays_to_import
      then cmd_charge_grid
      else if s.feedin_is_negative
      then max_self
      else if exports_battery intent desired_export
      then cmd_discharge_pv
      else if ltb_ℤ (pos 0) base
          && (ltb_ℤ fit (cfg.export_threshold_low -ℤ cfg.price_hysteresis)
              && ltb_ℤ soc (cfg.max_battery_soc -ℤ cfg.soc_hysteresis))
      then charge_mode grace
      else if is_charge_mode s.current_ems_mode
          && (ltb_ℤ (pos 0) base
              && (ltb_ℤ fit (cfg.export_threshold_low +ℤ cfg.price_hysteresis)
                  && ltb_ℤ soc cfg.max_battery_soc))
      then charge_mode grace
      else max_self

  -- The load with a fifth more, in whole kilowatts, within 0.1 kW and the normal limit.
  abbrev pub cover_load : ℤ
  unfolding portion round_ℤ
  cover_load =
      max_ℤ (round_ℤ 1_000_000 (min_ℤ (portion s.load_kw 12 10) cfg.pv_max_power_normal))
        (pos 100_000)

  unfoldable pub desired_pv_max_power : Bool → Bool → Bool → ℤ → ℤ
  unfolding portion round_ℤ
  desired_pv_max_power standby_holdoff morning_dump morning_slow desired_export =
      if pays_to_import
      then pos 100_000
      else if standby_holdoff && is_zero desired_export
      then max_ℤ cover_load (pos 100_000)
      else if morning_dump
      then cfg.pv_max_power_normal
      else if morning_slow
      then cfg.pv_max_power_normal
      else cfg.pv_max_power_normal
