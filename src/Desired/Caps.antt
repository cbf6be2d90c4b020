-- ===== src/Desired/Caps.antt =====
-- app/optimizer.py: the hardware's power caps and the battery's limits under them.
use sigenergy_optimizer.Prelude.{
  ◌/◌, ◌*◌, Bool, ◌&&◌, Option, none, some, List, [], ◌∷◌, ◌++◌, if◌then◌else◌,
}
use sigenergy_optimizer.Prelude.Int.{ℤ, pos, pos_part, ltb_ℤ, leb_ℤ, units}
use sigenergy_optimizer.Prelude.Decimal.{min_ℤ, max_ℤ}
use sigenergy_optimizer.Desired.State.{House, Settings, Memory}

abbrev pub power_limit_max_kw : ℤ
power_limit_max_kw = units 100

unfoldable pub valid_hw_cap_kw : ℤ → Bool
valid_hw_cap_kw v = ltb_ℤ (pos 0) v && leb_ℤ v power_limit_max_kw

abbrev pub valid_cap : Option ℤ → List ℤ
valid_cap none = []
valid_cap (some v) = if valid_hw_cap_kw v then v ∷ [] else []

-- `min` of a list that is not empty, from its first on.
abbrev pub least : ℤ → List ℤ → ℤ
least a [] = a
least a (b ∷ bs) = least (min_ℤ a b) bs

-- The least candidate, or else the remembered cap, or else the fallback.
abbrev pub cap_of : List ℤ → List ℤ → ℤ → ℤ
cap_of [] [] f = f
cap_of [] (v ∷ vs) f = v
cap_of (a ∷ more) m f = least a more

abbrev pub fallback_kw : ℤ → ℤ
fallback_kw f =
    if ltb_ℤ (pos 0) f && leb_ℤ f power_limit_max_kw
    then f
    else min_ℤ (max_ℤ f (units 1)) power_limit_max_kw

-- `get_power_caps_kw` of a state: the caps for charging and for discharging.
unfoldable pub get_power_caps_kw : Settings → Memory → House → ℤ × ℤ
get_power_caps_kw cfg m s = (
  cap_of (valid_cap s.ess_charge_limit_entity_max_kw ++ valid_cap (some s.ess_max_charge_kw))
      (valid_cap m.last_hw_charge_cap_kw) (fallback_kw cfg.ess_limit_fallback_kw),
  cap_of (valid_cap s.ess_discharge_limit_entity_max_kw ++ valid_cap (some s.ess_max_discharge_kw))
      (valid_cap m.last_hw_discharge_cap_kw) (fallback_kw cfg.ess_limit_fallback_kw),
)

-- Down to two decimals.
unfoldable pub floor_power_command_kw : ℤ → ℤ
floor_power_command_kw v = pos (pos_part (max_ℤ v (pos 0)) / 10_000 * 10_000)

unfoldable pub bound_ess_request_kw : ℤ → ℤ → ℤ
unfolding floor_power_command_kw
bound_ess_request_kw requested capability =
    floor_power_command_kw (min_ℤ (max_ℤ requested (pos 0)) capability)

module _ (cfg : Settings) (m : Memory) (s : House) where
  -- The slow rate: the physical target where there is one.
  abbrev pub slow_rate : Option ℤ → ℤ
  slow_rate none = cfg.morning_slow_charge_rate_kw
  slow_rate (some kw) = kw

  -- The request that each method bounds, by its branch.
  abbrev pub charge_request : ℤ → Bool → Bool → Option ℤ → ℤ
  charge_request desired_import slow relief target =
      if ltb_ℤ (pos 0) desired_import
      then desired_import
      else if slow
      then (if relief then max_ℤ (pos 0) cfg.ess_charge_limit_value else slow_rate target)
      else max_ℤ (pos 0) cfg.ess_charge_limit_value

  unfoldable pub desired_ess_charge_limit : ℤ → Bool → Bool → Option ℤ → ℤ
  unfolding get_power_caps_kw bound_ess_request_kw
  desired_ess_charge_limit desired_import slow relief target =
      bound_ess_request_kw (charge_request desired_import slow relief target)
        (get_power_caps_kw cfg m s).0

  abbrev pub discharge_request : Bool → Bool → ℤ
  unfolding get_power_caps_kw
  discharge_request owns_export evening_boost =
      let hw = (get_power_caps_kw cfg m s).1 in
      if s.price_is_negative && leb_ℤ s.current_price cfg.import_threshold_low
      then pos 10_000
      else if owns_export && leb_ℤ s.battery_soc cfg.battery_export_min_soc_low
      then (if evening_boost && leb_ℤ cfg.evening_aggressive_floor s.battery_soc
          then hw
          else pos 10_000)
      else if owns_export
      then (if cfg.allow_positive_fit_battery_discharging then hw else pos 10_000)
      else max_ℤ (pos 0) cfg.ess_discharge_limit_value

  unfoldable pub desired_ess_discharge_limit : Bool → Bool → ℤ
  unfolding get_power_caps_kw bound_ess_request_kw
  desired_ess_discharge_limit owns_export evening_boost =
      bound_ess_request_kw (discharge_request owns_export evening_boost)
        (get_power_caps_kw cfg m s).1
