-- ===== src/Desired/Export.antt =====
-- app/optimizer.py: `_desired_export_limit`, the export limit of a decision with the branch that chose
-- it.
use sigenergy_optimizer.Prelude.{Bool, not, ◌&&◌, ◌||◌, Option, none, some, if◌then◌else◌}
use sigenergy_optimizer.Prelude.Int.{ℤ, pos, negsuc, pos_part, ◌-ℤ◌, ◌+ℤ◌, ltb_ℤ, leb_ℤ, units}
use sigenergy_optimizer.Prelude.Decimal.{◌*ℤ◌, portion, round_ℤ, min_ℤ, max_ℤ}
use sigenergy_optimizer.Desired.State.{House, Settings, Memory}
use sigenergy_optimizer.Desired.Caps.{floor_power_command_kw, power_limit_max_kw}
use sigenergy_optimizer.Desired.Tier.{or_ℤ}
use sigenergy_optimizer.Desired.Policy.{
  Source, Choice, Policy, closed_untrusted_fit, closed_fit_below_minimum,
  closed_battery_full_safeguard, closed_no_daytime_pv, closed_negative_price,
  closed_below_export_floor, closed_forecast_guard, closed_below_min_soc, closed_tier,
  closed_ordinary, morning_dump, morning_slow_pv_closed, morning_slow_pv_high, high_price_or_spike,
  positive_fit_override, solar_surplus_pv_closed, solar_surplus_pv_high, solar_override,
  ordinary_tier,
}

abbrev pub valid_grid_export_cap_kw : ℤ → Bool
valid_grid_export_cap_kw v = leb_ℤ (pos 0) v && leb_ℤ v power_limit_max_kw

abbrev pub within_cap : Option ℤ → ℤ → ℤ
within_cap none request = request
within_cap (some v) request =
    if valid_grid_export_cap_kw v then floor_power_command_kw (min_ℤ request v) else request

-- A request within the grid export limit's maximum, where that is valid.
unfoldable pub bound_grid_export_request_kw : House → ℤ → ℤ
unfolding floor_power_command_kw
bound_grid_export_request_kw s requested =
    within_cap s.grid_export_limit_entity_max_kw (max_ℤ requested (pos 0))

module _ (cfg : Settings) (m : Memory) (s : House) (p : Policy) where
  abbrev pub choice : ℤ → Source → Choice
  choice kw why = record { limit = bound_grid_export_request_kw s kw; source = why }

  abbrev pub trusts_fit : Option Bool → Bool
  trusts_fit (some b) = b
  trusts_fit none =
      not (leb_ℤ s.feedin_price (negsuc 998_999_999) && leb_ℤ (negsuc 998_999_999) s.feedin_price)
      || s.feedin_is_negative

  abbrev pub high_price : Bool
  high_price = leb_ℤ cfg.export_threshold_high s.feedin_price

  abbrev pub surplus_of : Option ℤ → ℤ
  surplus_of none = max_ℤ (s.pv_kw -ℤ s.load_kw) (pos 0)
  surplus_of (some v) = max_ℤ v (pos 0)

  abbrev pub surplus_kw : ℤ
  surplus_kw = surplus_of p.measured_pv_surplus

  abbrev pub effective_export_floor : ℤ
  effective_export_floor =
      or_ℤ p.battery_soc_floor
        (if p.evening_boost then cfg.evening_aggressive_floor else cfg.min_export_target_soc)

  unfoldable pub poor_tomorrow_forecast : Bool
  unfolding ◌*ℤ◌
  poor_tomorrow_forecast =
      not p.is_evening_or_night
      && (not p.forecast_tomorrow_trusted
          || ltb_ℤ (s.forecast_tomorrow_kwh *ℤ units 1) (p.cap *ℤ cfg.forecast_safety_charging))

  abbrev pub bypass_min_soc : Bool
  bypass_min_soc = high_price || (p.spike || (p.surplus_bypass || p.positive_fit_override))

  unfoldable pub cap_near_floor_to_pv : ℤ → ℤ
  cap_near_floor_to_pv kw =
      if leb_ℤ kw (pos 0)
      then pos 0
      else if bypass_min_soc && leb_ℤ s.battery_soc (p.export_min_soc +ℤ pos 50_000)
      then min_ℤ kw surplus_kw
      else kw

  unfoldable pub cap_full_battery_poor_tomorrow : ℤ → ℤ
  unfolding poor_tomorrow_forecast
  cap_full_battery_poor_tomorrow kw =
      if leb_ℤ kw (pos 0)
      then pos 0
      else if leb_ℤ (units 99) s.battery_soc && poor_tomorrow_forecast
      then min_ℤ kw surplus_kw
      else kw

  abbrev pub capped : ℤ → ℤ
  capped kw = cap_full_battery_poor_tomorrow (cap_near_floor_to_pv kw)

  -- `max(min_grid_transfer_kw, round(limit, 1)) if limit > 0 else 0.0`
  abbrev pub at_least_transfer : ℤ → ℤ
  at_least_transfer kw =
      if ltb_ℤ (pos 0) kw then max_ℤ cfg.min_grid_transfer_kw (round_ℤ 100_000 kw) else pos 0

  unfoldable pub spike_limit : ℤ
  unfolding cap_near_floor_to_pv cap_full_battery_poor_tomorrow round_ℤ
  spike_limit = at_least_transfer (
      capped (
        min_ℤ
          (if p.spike && cfg.export_spike_full_power
            then max_ℤ p.tier_limit cfg.cap_total_import
            else min_ℤ p.tier_limit cfg.export_limit_high)
          s.ess_max_discharge_kw))

  unfoldable pub positive_fit_limit : ℤ
  unfolding cap_near_floor_to_pv cap_full_battery_poor_tomorrow round_ℤ
  positive_fit_limit = at_least_transfer (
      capped (
        min_ℤ (if ltb_ℤ (pos 0) p.tier_limit then p.tier_limit else cfg.export_limit_low)
          s.ess_max_discharge_kw))

  -- `_bounded_pv_only_high_ceiling`
  unfoldable pub bounded_pv_only_high_ceiling : ℤ
  unfolding bound_grid_export_request_kw
  bounded_pv_only_high_ceiling =
      bound_grid_export_request_kw s (max_ℤ cfg.export_limit_high (pos 0))

  abbrev pub held_ceiling : Option ℤ → ℤ
  held_ceiling none = bounded_pv_only_high_ceiling
  held_ceiling (some kw) =
      if p.solar_dip_hold
      then min_ℤ (min_ℤ bounded_pv_only_high_ceiling kw) s.current_export_limit
      else bounded_pv_only_high_ceiling

  -- A PV ceiling, or closed where it is at most 0.01 kW.
  abbrev pub pv_ceiling : ℤ → Source → Source → Choice
  pv_ceiling kw shut open' = if leb_ℤ kw (pos 10_000) then choice (pos 0) shut else choice kw open'

  -- `_export_soc_span_dynamic`
  unfoldable pub export_soc_span_dynamic : ℤ
  unfolding portion ◌*ℤ◌
  export_soc_span_dynamic =
      if p.is_evening_or_night
      then max_ℤ (units 4) (
          min_ℤ
            (portion (p.hours_to_sunrise *ℤ s.load_kw) 100 (pos_part (max_ℤ p.cap (pos 100_000))))
            (units 25))
      else cfg.export_soc_span_day

  abbrev pub headroom : ℤ
  headroom = s.battery_soc -ℤ p.export_min_soc

  -- The tier's limit by the headroom of charge, with nine tenths of it, and what the energy above the
  -- floor gives over the hours of discharge.
  unfoldable pub scaled_limit : ℤ
  unfolding portion ◌*ℤ◌ export_soc_span_dynamic
  scaled_limit =
      let span = max_ℤ export_soc_span_dynamic (pos 100_000) in
      let scale = max_ℤ (pos 0) (min_ℤ (units 1) (portion headroom 1_000_000 (pos_part span))) in
      portion (p.tier_limit *ℤ scale) 9 10_000_000

  unfoldable pub safe_cap : ℤ
  unfolding portion ◌*ℤ◌
  safe_cap =
      let hours =
        min_ℤ (max_ℤ p.hours_to_sunrise (pos 10_000))
          (max_ℤ cfg.export_discharge_window_hours (units 1)) in
      let energy = portion (headroom *ℤ p.cap) 1 100_000_000 in
      let base = portion energy 1_000_000 (pos_part (max_ℤ hours (units 1))) in
      let factor = min_ℤ (pos 1_500_000) (
        units 1
        +ℤ portion p.tier_limit 300_000 (pos_part (max_ℤ cfg.export_limit_high (units 1)))) in
      min_ℤ (portion (base *ℤ factor) 1 1_000_000) p.tier_limit

  -- By day, what the battery's charging leaves of the PV surplus.
  abbrev pub daytime_cap : ℤ → ℤ
  daytime_cap kw =
      if not p.is_evening_or_night && (not high_price && not p.spike)
      then (if leb_ℤ (units 99) s.battery_soc
          then min_ℤ kw p.pv_surplus
          else min_ℤ kw (
              max_ℤ
                (surplus_kw
                  -ℤ (if p.surplus_bypass
                      then pos 0
                      else if ltb_ℤ s.battery_soc (units 98)
                      then cfg.target_battery_charge
                      else pos 0))
                (pos 0)))
      else kw

  unfoldable pub ordinary_limit : ℤ
  unfolding scaled_limit safe_cap cap_near_floor_to_pv cap_full_battery_poor_tomorrow
  ordinary_limit = capped (daytime_cap (min_ℤ (min_ℤ scaled_limit safe_cap) s.ess_max_discharge_kw))

  abbrev pub solar_limit : ℤ
  solar_limit =
      min_ℤ (min_ℤ (min_ℤ surplus_kw cfg.export_limit_high) p.tier_limit) s.ess_max_discharge_kw

  unfoldable pub ordinary_choice : Choice
  unfolding ordinary_limit round_ℤ bound_grid_export_request_kw
  ordinary_choice =
      if leb_ℤ p.tier_limit (pos 0)
      then choice (pos 0) closed_tier
      else if p.solar_override
      then choice (if ltb_ℤ (pos 0) solar_limit then round_ℤ 100_000 solar_limit else pos 0)
          solar_override
      else if leb_ℤ ordinary_limit (pos 0)
      then choice (pos 0) closed_ordinary
      else if ltb_ℤ ordinary_limit cfg.min_grid_transfer_kw
      then choice cfg.min_grid_transfer_kw ordinary_tier
      else choice (round_ℤ 100_000 ordinary_limit) ordinary_tier

  -- The branches after every guard.
  unfoldable pub open_choice : Choice
  unfolding ordinary_choice spike_limit positive_fit_limit bounded_pv_only_high_ceiling
      bound_grid_export_request_kw
  open_choice =
      if p.morning_slow_charge_active
      then pv_ceiling bounded_pv_only_high_ceiling morning_slow_pv_closed morning_slow_pv_high
      else if (high_price || p.spike) && not p.independent_policy_only
      then choice spike_limit high_price_or_spike
      else if p.positive_fit_override && not p.independent_policy_only
      then choice positive_fit_limit positive_fit_override
      else if p.surplus_bypass
      then pv_ceiling (held_ceiling m.last_export_limit) solar_surplus_pv_closed
          solar_surplus_pv_high
      else ordinary_choice

  abbrev pub no_daytime_pv : Bool
  no_daytime_pv =
      leb_ℤ p.pv_surplus (pos 0)
      && (leb_ℤ (pos 0) p.pv_surplus
          && (not p.is_evening_or_night
              && (not high_price
                  && (not p.spike
                      && (not p.evening_boost && not (p.surplus_bypass && p.solar_dip_hold))))))

  -- The guards after a morning dump.
  unfoldable pub guarded_choice : Choice
  unfolding open_choice bound_grid_export_request_kw
  guarded_choice =
      if s.price_is_negative || s.feedin_is_negative
      then choice (pos 0) closed_negative_price
      else if ltb_ℤ s.battery_soc effective_export_floor
          && (not p.within_morning_grace
              && (not p.morning_slow_charge_active && not p.surplus_bypass))
      then choice (pos 0) closed_below_export_floor
      else if (p.export_blocked || p.forecast_guard)
          && (not p.surplus_bypass && not p.morning_slow_charge_active)
      then choice (pos 0) closed_forecast_guard
      else if not bypass_min_soc
          && (leb_ℤ s.battery_soc p.export_min_soc && not p.morning_slow_charge_active)
      then choice (pos 0) closed_below_min_soc
      else open_choice

  unfoldable pub desired_export_limit : Choice
  unfolding guarded_choice bound_grid_export_request_kw
  desired_export_limit =
      if not (trusts_fit p.feedin_price_trusted)
      then choice (pos 0) closed_untrusted_fit
      else if ltb_ℤ s.feedin_price_cents (units 1)
      then choice (pos 0) closed_fit_below_minimum
      else if p.battery_full_safeguard_block
          && (not p.morning_slow_charge_active && not (high_price || p.spike))
      then choice (pos 0) closed_battery_full_safeguard
      else if no_daytime_pv
      then choice (pos 0) closed_no_daytime_pv
      else if p.morning_dump
      then choice p.morning_dump_limit morning_dump
      else guarded_choice
