-- ===== src/Desired/Owned.antt =====
-- app/optimizer.py: what each mode that `_desired_ems_mode` commands rests on.
use sigenergy_optimizer.Prelude.{
  ◌≡◌, refl, ◌⊎◌, inl, inr, Bool, true, false, not, ◌&&◌, ◌||◌, if◌then◌else◌, arith, if-cases,
  Bool-cases,
}
use sigenergy_optimizer.Prelude.Int.{ℤ, pos, ◌≤ℤ◌, ltb_ℤ, ◌+ℤ◌}
use sigenergy_optimizer.Desired.State.{
  Mode, max_self, cmd_discharge_pv, cmd_charge_pv, cmd_charge_grid, cmd_discharge_ess, other_mode,
  Intent, export_blocked, msc_surplus_ceiling, House, Settings, Memory, Trust, battery_export,
}
use sigenergy_optimizer.Desired.{
  desired_ems_mode, grid_limit_base, pays_to_import, is_zero, or_else, exports_battery, charge_mode,
  is_battery_export,
}
use sigenergy_optimizer.Desired.Safety.{◌<ℤ◌, IsPaid}

is_battery_export-true : (i : Intent) → is_battery_export i ≡ true → i ≡ battery_export
is_battery_export-true battery_export h = refl
is_battery_export-true export_blocked h = absurd (ground arith)
is_battery_export-true msc_surplus_ceiling h = absurd (ground arith)

is_zero-true : (a : ℤ) → is_zero a ≡ true → a ≡ pos 0
is_zero-true a h = ground arith

first_true : (a b : Bool) → a && b ≡ true → a ≡ true
first_true a b h = ground arith

second_true : (a b : Bool) → a && b ≡ true → b ≡ true
second_true a b h = ground arith

not_open : pos 0 <ℤ pos 0 → ⊥
not_open h = ground arith

module _ (cfg : Settings) (m : Memory) (s : House) (dump holdoff override : Bool) (export : ℤ)
    (intent : Intent) (import' target : ℤ) (grace : Bool) (t : Trust) (blocked : Bool) where
  -- The decision exports from the battery, or the hold-off with its stored charge lets it discharge.
  abbrev pub MayDischarge : Type 0
  MayDischarge =
      ((intent ≡ battery_export) × (pos 10_000 <ℤ export))
      ⊎ ((holdoff ≡ true)
          × (export ≡ pos 0)
          × (or_else m.holdoff_entry_floor (target +ℤ cfg.soc_hysteresis) ≤ℤ s.battery_soc))

  -- The decision imports at a price that is not negative, or the market's base limit is open, outside
  -- of any demand window and with a feed-in price that is not negative.
  abbrev pub MayCharge : Type 0
  MayCharge =
      ((pos 0 <ℤ import') × (s.price_is_negative ≡ false))
      ⊎ ((pos 0 <ℤ grid_limit_base cfg m s holdoff t)
          × (s.demand_window_active ≡ false)
          × (s.demand_window_observed ≡ true)
          × (s.feedin_is_negative ≡ false))

  abbrev pub IsFree : Type 0
  IsFree = (dump ≡ false) × (blocked ≡ false)

  abbrev pub IsOwned : Mode → Type 0
  IsOwned max_self = Unit
  IsOwned cmd_discharge_pv = MayDischarge
  IsOwned cmd_charge_pv = IsFree × MayCharge
  IsOwned cmd_charge_grid = IsFree × IsPaid cfg m s
  IsOwned cmd_discharge_ess = ⊥
  IsOwned other_mode = ⊥

  exports-IsOwned : exports_battery cfg m s intent export ≡ true → IsOwned cmd_discharge_pv
  exports-IsOwned h = inl (is_battery_export-true intent (ground arith), ground arith)

  export_or_self :
      IsOwned (if exports_battery cfg m s intent export then cmd_discharge_pv else max_self)
  export_or_self =
      if-cases IsOwned (exports_battery cfg m s intent export) cmd_discharge_pv max_self
        exports-IsOwned (λ n. _)

  holdoff-IsOwned :
      (holdoff && is_zero export ≡ true)
      → (ltb_ℤ s.battery_soc (or_else m.holdoff_entry_floor (target +ℤ cfg.soc_hysteresis)) ≡ false)
      → IsOwned cmd_discharge_pv
  holdoff-IsOwned h k = inr (ground arith, is_zero-true export (ground arith), ground arith)

  charge-IsOwned : IsFree → MayCharge → IsOwned (charge_mode cfg m s grace)
  charge-IsOwned f c =
      if-cases IsOwned (grace && ltb_ℤ (s.pv_kw +ℤ s.pv_kw) s.load_kw) max_self cmd_charge_pv
        (λ y. _) (λ n. (f, c))

  -- Neither in a demand window nor without an observation of one is the base limit open.
  base_is_open :
      pos 0 <ℤ grid_limit_base cfg m s holdoff t
      → (s.demand_window_active ≡ false) × (s.demand_window_observed ≡ true)
  unfolding grid_limit_base
  base_is_open h = elim (Bool-cases (s.demand_window_active || not s.demand_window_observed)) [
    | inl shut ↦ absurd (not_open (rw shut at h))
    | inr clear ↦ (ground arith, ground arith)
  ]

  by_base : (s.feedin_is_negative ≡ false) → pos 0 <ℤ grid_limit_base cfg m s holdoff t → MayCharge
  by_base n h = let w = base_is_open h in inr (h, w.0, w.1, n)

  -- The two cheap-import tests that close the method, before `max_self`.
  by_base_limit :
      IsFree
      → (s.feedin_is_negative ≡ false)
      → (x c y : Bool)
      → IsOwned (
          if ltb_ℤ (pos 0) (grid_limit_base cfg m s holdoff t) && x
          then charge_mode cfg m s grace
          else if c && (ltb_ℤ (pos 0) (grid_limit_base cfg m s holdoff t) && y)
          then charge_mode cfg m s grace
          else max_self)
  by_base_limit f n x c y =
      let base = ltb_ℤ (pos 0) (grid_limit_base cfg m s holdoff t) in
      if-cases IsOwned (base && x) (charge_mode cfg m s grace) _
        (λ h. charge-IsOwned f (by_base n (first_true base x h)))
        (λ h.
          if-cases IsOwned (c && (base && y)) (charge_mode cfg m s grace) max_self
            (λ k. charge-IsOwned f (by_base n (first_true base y (second_true c (base && y) k))))
            (λ k. _))

  -- Each mode that is commanded is owned. Discharging, PV first: by a battery export above 0.01 kW, or
  -- by a hold-off without export that has the charge of its floor. Charging, of either kind: neither
  -- in a morning dump nor with imports blocked by a demand window; from the grid only at a negative
  -- price of at most the low threshold; PV first only with an import at a price that is not negative,
  -- or with an open base limit, then the demand window is observed and closed and the feed-in price is
  -- not negative. Discharging with the battery first is never commanded.
  pub desired_ems_mode-IsOwned :
      IsOwned (
        desired_ems_mode cfg m s dump holdoff override export intent import' target grace t blocked)
  unfolding desired_ems_mode
  desired_ems_mode-IsOwned =
      if-cases IsOwned dump _ _ (λ y. export_or_self)
        (λ d.
          if-cases IsOwned blocked _ _ (λ y. export_or_self)
            (λ b.
              if-cases IsOwned (holdoff && is_zero export) _ _
                (λ h.
                  if-cases IsOwned
                    (ltb_ℤ s.battery_soc
                      (or_else m.holdoff_entry_floor (target +ℤ cfg.soc_hysteresis)))
                    max_self cmd_discharge_pv (λ y. _) (holdoff-IsOwned h))
                (λ h.
                  if-cases IsOwned (ltb_ℤ (pos 0) import' && not s.price_is_negative) _ _
                    (λ i. charge-IsOwned (d, b) (inl (ground arith, ground arith)))
                    (λ i.
                      if-cases IsOwned (override && exports_battery cfg m s intent export) _ _
                        (λ o. exports-IsOwned (ground arith))
                        (λ o.
                          if-cases IsOwned (pays_to_import cfg m s) _ _
                            (λ p. ((d, b), (ground arith, ground arith)))
                            (λ p.
                              if-cases IsOwned s.feedin_is_negative max_self _ (λ y. _)
                                (λ n.
                                  if-cases IsOwned (exports_battery cfg m s intent export)
                                    cmd_discharge_pv _ exports-IsOwned
                                    (λ e. by_base_limit (d, b) n _ _ _))))))))
