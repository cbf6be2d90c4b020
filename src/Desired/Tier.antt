-- ===== src/Desired/Tier.antt =====
-- app/optimizer.py: the export limit of a feed-in price, `_export_tier_limit`, and the forecast guards
-- of exports.
use sigenergy_optimizer.Prelude.{
  str_eq, Bool, true, false, not, ◌&&◌, ◌||◌, Option, none, some, if◌then◌else◌,
}
use sigenergy_optimizer.Prelude.Int.{ℤ, pos, pos_part, ◌-ℤ◌, ◌+ℤ◌, ltb_ℤ, leb_ℤ, units}
use sigenergy_optimizer.Prelude.Decimal.{◌*ℤ◌, portion, max_ℤ}
use sigenergy_optimizer.Desired.State.{House, Settings, Memory}

abbrev pub or_ℤ : Option ℤ → ℤ → ℤ
or_ℤ none a = a
or_ℤ (some b) a = b

-- A finite price is trusted unless the caller says otherwise.
abbrev pub or_true : Option Bool → Bool
or_true none = true
or_true (some b) = b

-- `base + frac * (top - base)`, with `(fit - from) / span` for the fraction; `from` is at most `fit`.
unfoldable pub interpolate : ℤ → ℤ → ℤ → ℤ → ℤ → ℤ
unfolding portion
interpolate base top fit from span =
    base +ℤ portion (top -ℤ base) (pos_part (fit -ℤ from)) (pos_part span)

module _ (cfg : Settings) (m : Memory) (s : House) where
  abbrev pub boosts : Bool → Bool
  boosts boost = boost && not (ltb_ℤ s.battery_soc cfg.evening_aggressive_floor)

  -- `evening_boost_below_ordinary_tier`
  abbrev pub boosts_below_tier : Bool → Bool
  boosts_below_tier boost =
      boosts boost
      && (leb_ℤ cfg.evening_boost_min_feedin_price s.feedin_price
          && (ltb_ℤ s.feedin_price cfg.export_threshold_low
              && (not m.manual_mode_override
                  && (s.sigenergy_mode_observed && str_eq s.sigenergy_mode cfg.automated_option))))

  abbrev pub low_tier : ℤ
  low_tier =
      interpolate cfg.export_limit_low cfg.export_limit_medium s.feedin_price
        cfg.export_threshold_low
        (max_ℤ (cfg.export_threshold_medium -ℤ cfg.export_threshold_low) (pos 1_000))

  abbrev pub medium_tier : ℤ
  medium_tier =
      interpolate cfg.export_limit_medium cfg.export_limit_high s.feedin_price
        cfg.export_threshold_medium (cfg.export_threshold_high -ℤ cfg.export_threshold_medium)

  unfoldable pub export_tier_limit : Bool → Bool → Bool → Bool → Bool → Option Bool → Option ℤ → ℤ
  unfolding interpolate
  export_tier_limit spike solar_override pv_safeguard boost surplus_bypass trusted soc_floor =
      if not (or_true trusted)
      then pos 0
      else if spike
      then cfg.export_limit_high
      else if solar_override
      then cfg.export_limit_high
      else if boosts_below_tier boost
      then cfg.export_limit_low
      else if ltb_ℤ s.feedin_price cfg.export_threshold_low
      then pos 0
      else if leb_ℤ cfg.export_threshold_high s.feedin_price
      then cfg.export_limit_high
      else if leb_ℤ cfg.export_threshold_medium s.feedin_price
      then (if pv_safeguard then pos 0 else medium_tier)
      else if boosts boost
      then low_tier
      else if (ltb_ℤ s.battery_soc (or_ℤ soc_floor cfg.min_export_target_soc) || pv_safeguard)
          && not surplus_bypass
      then pos 0
      else low_tier

  -- `_export_blocked_for_forecast`; the hours are counted in millionths too.
  unfoldable pub export_blocked_for_forecast : ℤ → Bool → ℤ → ℤ → Bool → Option Bool → Bool → Bool
  unfolding ◌*ℤ◌
  export_blocked_for_forecast pv_surplus is_night need hours_to_sunset close_to_sunset load_trusted
        forecast_trusted =
      if leb_ℤ cfg.export_guard_relax_soc s.battery_soc || close_to_sunset
      then false
      else if not is_night && not (or_true load_trusted)
      then true
      else if is_night
          || leb_ℤ cfg.max_battery_soc s.battery_soc
            && (not is_night && ltb_ℤ cfg.min_grid_transfer_kw pv_surplus)
      then false
      else if not forecast_trusted
      then true
      else if leb_ℤ s.forecast_remaining_kwh (pos 0) && leb_ℤ (pos 0) s.forecast_remaining_kwh
      then false
      else ltb_ℤ (s.forecast_remaining_kwh *ℤ units 1 -ℤ s.load_kw *ℤ hours_to_sunset)
          (need *ℤ cfg.forecast_safety_export)

  -- `_export_forecast_guard`
  unfoldable pub export_forecast_guard : ℤ → Bool → Bool → Bool → Bool → Bool
  unfolding ◌*ℤ◌
  export_forecast_guard need is_night evening_boost close_to_sunset forecast_trusted =
      if leb_ℤ cfg.export_guard_relax_soc s.battery_soc || close_to_sunset
      then false
      else if is_night
      then ltb_ℤ s.battery_soc
          (if evening_boost then cfg.evening_aggressive_floor else cfg.min_export_target_soc)
      else if leb_ℤ need (pos 0)
      then false
      else if not forecast_trusted
      then true
      else ltb_ℤ (s.forecast_remaining_kwh *ℤ units 1) (need *ℤ cfg.forecast_safety_export)
