-- ===== src/Desired/Arbitration.antt =====
-- app/optimizer.py: what an open export limit has passed in `_desired_export_limit`.
use sigenergy_optimizer.Prelude.{
  ◌≡◌, refl, ◌⊎◌, inl, inr, Bool, true, false, not, ◌&&◌, ◌||◌, Option, none, some, if◌then◌else◌,
  arith, Bool-cases,
}
use sigenergy_optimizer.Prelude.Int.{ℤ, pos, ◌≤ℤ◌, ltb_ℤ, leb_ℤ, units}
use sigenergy_optimizer.Prelude.Decimal.{min_ℤ}
use sigenergy_optimizer.Desired.State.{House, Settings, Memory}
use sigenergy_optimizer.Desired.Caps.{floor_power_command_kw}
use sigenergy_optimizer.Desired.Safety.{◌<ℤ◌}
use sigenergy_optimizer.Desired.Policy.{
  Source, Choice, Policy, closed_untrusted_fit, closed_fit_below_minimum,
  closed_battery_full_safeguard, closed_no_daytime_pv, closed_negative_price,
  closed_below_export_floor, closed_forecast_guard, closed_below_min_soc, morning_dump,
}
use sigenergy_optimizer.Desired.Export.{
  valid_grid_export_cap_kw, within_cap, bound_grid_export_request_kw, choice, trusts_fit,
  high_price, effective_export_floor, bypass_min_soc, guarded_choice, no_daytime_pv,
  desired_export_limit,
}

not_open : pos 0 <ℤ floor_power_command_kw (pos 0) → ⊥
unfolding floor_power_command_kw
not_open h = ground arith

shut_floor :
    (v : ℤ)
    → (valid_grid_export_cap_kw v ≡ true)
    → pos 0 <ℤ floor_power_command_kw (min_ℤ (pos 0) v)
    → ⊥
unfolding floor_power_command_kw
shut_floor v good h = let least : min_ℤ (pos 0) v ≡ pos 0 = ground arith in not_open (rw least at h)

nothing_open : pos 0 <ℤ pos 0 → ⊥
nothing_open h = ground arith

-- A request for nothing is not open, whatever the grid's cap.
shut_cap : (o : Option ℤ) → pos 0 <ℤ within_cap o (pos 0) → ⊥
unfolding floor_power_command_kw
shut_cap none h = nothing_open h
shut_cap (some v) h = elim (Bool-cases (valid_grid_export_cap_kw v)) [
  | inl good ↦ shut_floor v good (rw good at h)
  | inr bad ↦ nothing_open (rw bad at h)
]

waived : (a b c : Bool) → a && (not b && not c) ≡ false → (a ≡ false) ⊎ (b || c ≡ true)
waived a b c h = ground arith

is_trusted : (a : Bool) → not a ≡ false → a ≡ true
is_trusted a h = ground arith

not_below : (a b : ℤ) → ltb_ℤ a b ≡ false → b ≤ℤ a
not_below a b h = ground arith

at_floor :
    (soc floor : ℤ) (a b c : Bool)
    → ltb_ℤ soc floor && (not a && (not b && not c)) ≡ false
    → (floor ≤ℤ soc) ⊎ (a || (b || c) ≡ true)
at_floor soc floor a b c h = ground arith

at_least :
    (soc least : ℤ) (a b : Bool)
    → not a && (leb_ℤ soc least && not b) ≡ false
    → (least <ℤ soc) ⊎ (a || b ≡ true)
at_least soc least a b h = ground arith

module _ (cfg : Settings) (m : Memory) (s : House) (p : Policy) where
  shut_choice : (why : Source) → pos 0 <ℤ (choice cfg m s p (pos 0) why).limit → ⊥
  unfolding bound_grid_export_request_kw
  shut_choice why h = shut_cap s.grid_export_limit_entity_max_kw h

  past_guard :
      (Q : Type 0) (c : Bool) (why : Source) (x : Choice)
      → ((c ≡ false) → pos 0 <ℤ x.limit → Q)
      → pos 0 <ℤ (if c then choice cfg m s p (pos 0) why else x).limit
      → Q
  past_guard Q true why x k h = absurd (shut_choice why h)
  past_guard Q false why x k h = k refl h

  safe :
      p.battery_full_safeguard_block
          && (not p.morning_slow_charge_active && not (high_price cfg m s p || p.spike))
        ≡ false
      → (p.battery_full_safeguard_block ≡ false)
        ⊎ (p.morning_slow_charge_active || (high_price cfg m s p || p.spike) ≡ true)
  safe =
      waived p.battery_full_safeguard_block p.morning_slow_charge_active
        (high_price cfg m s p || p.spike)

  -- No negative price; and the floor, the forecasts and the least charge hold, or are waived.
  abbrev pub IsClear : Type 0
  IsClear =
      (s.price_is_negative ≡ false)
      × (s.feedin_is_negative ≡ false)
      × ((effective_export_floor cfg m s p ≤ℤ s.battery_soc)
          ⊎ (p.within_morning_grace || (p.morning_slow_charge_active || p.surplus_bypass) ≡ true))
      × ((p.export_blocked || p.forecast_guard ≡ false)
          ⊎ (p.surplus_bypass || p.morning_slow_charge_active ≡ true))
      × ((p.export_min_soc <ℤ s.battery_soc)
          ⊎ (bypass_min_soc cfg m s p || p.morning_slow_charge_active ≡ true))

  -- The guards after the morning dump.
  after_dump : pos 0 <ℤ (guarded_choice cfg m s p).limit → IsClear
  unfolding guarded_choice
  after_dump =
      past_guard IsClear (s.price_is_negative || s.feedin_is_negative) closed_negative_price _ λ f.
        past_guard IsClear
          (ltb_ℤ s.battery_soc (effective_export_floor cfg m s p)
            && (not p.within_morning_grace
                && (not p.morning_slow_charge_active && not p.surplus_bypass)))
          closed_below_export_floor _
          (λ g.
            past_guard IsClear
              ((p.export_blocked || p.forecast_guard)
                && (not p.surplus_bypass && not p.morning_slow_charge_active))
              closed_forecast_guard _
              (λ i.
                past_guard IsClear
                  (not (bypass_min_soc cfg m s p)
                    && (leb_ℤ s.battery_soc p.export_min_soc && not p.morning_slow_charge_active))
                  closed_below_min_soc _
                  (λ j h. (
                    ground arith,
                    ground arith,
                    at_floor s.battery_soc (effective_export_floor cfg m s p) p.within_morning_grace
                        p.morning_slow_charge_active p.surplus_bypass g,
                    waived (p.export_blocked || p.forecast_guard) p.surplus_bypass
                        p.morning_slow_charge_active i,
                    at_least s.battery_soc p.export_min_soc (bypass_min_soc cfg m s p)
                        p.morning_slow_charge_active j,
                  ))))

  abbrev pub IsAllowed : Type 0
  IsAllowed =
      (trusts_fit cfg m s p p.feedin_price_trusted ≡ true)
      × (units 1 ≤ℤ s.feedin_price_cents)
      × ((p.battery_full_safeguard_block ≡ false)
          ⊎ (p.morning_slow_charge_active || (high_price cfg m s p || p.spike) ≡ true))
      × ((p.morning_dump ≡ true) ⊎ IsClear)

  past_dump :
      (b : Bool) (x y : Choice)
      → ((b ≡ true) → IsAllowed)
      → (pos 0 <ℤ y.limit → IsAllowed)
      → pos 0 <ℤ (if b then x else y).limit
      → IsAllowed
  past_dump true x y j k h = j refl
  past_dump false x y j k h = k h

  -- An export limit above zero has a trusted feed-in price of one cent at least, and the battery-full
  -- safeguard does not block it, unless in a morning slow charge, a spike or at a high price; and
  -- either it is of a morning dump, or no price is negative, the charge is at the effective floor
  -- unless the morning's grace, a slow charge or the surplus bypass waives that, no forecast blocks it
  -- unless the bypass or a slow charge waives that, and the charge is above the least one unless a
  -- bypass of it or a slow charge waives that.
  pub desired_export_limit-IsAllowed : pos 0 <ℤ (desired_export_limit cfg m s p).limit → IsAllowed
  unfolding desired_export_limit
  desired_export_limit-IsAllowed =
      past_guard IsAllowed (not (trusts_fit cfg m s p p.feedin_price_trusted)) closed_untrusted_fit
        _
        λ a h1.
          past_guard IsAllowed (ltb_ℤ s.feedin_price_cents (units 1)) closed_fit_below_minimum _
            (λ b h2.
              past_guard IsAllowed
                (p.battery_full_safeguard_block
                  && (not p.morning_slow_charge_active && not (high_price cfg m s p || p.spike)))
                closed_battery_full_safeguard _
                (λ c h3.
                  past_guard IsAllowed (no_daytime_pv cfg m s p) closed_no_daytime_pv _
                    (λ d.
                      past_dump p.morning_dump (choice cfg m s p p.morning_dump_limit morning_dump)
                        (guarded_choice cfg m s p)
                        (λ e. (
                          is_trusted (trusts_fit cfg m s p p.feedin_price_trusted) a,
                          not_below s.feedin_price_cents (units 1) b,
                          safe c,
                          inl e,
                        ))
                        (λ h. (
                          is_trusted (trusts_fit cfg m s p p.feedin_price_trusted) a,
                          not_below s.feedin_price_cents (units 1) b,
                          safe c,
                          inr (after_dump h),
                        )))
                    h3)
                h2)
            h1
