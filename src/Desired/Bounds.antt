-- ===== src/Desired/Bounds.antt =====
-- app/optimizer.py: the battery's limits beside the hardware's caps.
use sigenergy_optimizer.Prelude.{
  ℕ, ◌+◌, ◌*◌, ◌/◌, ◌≤◌, ◌≡◌, refl, ◌⊎◌, inl, inr, Bool, true, false, Option, none, some, [], ◌∷◌,
  ◌++◌, if◌then◌else◌, arith, Bool-cases,
}
use sigenergy_optimizer.Prelude.Int.{ℤ, pos, pos_part, neg_part, ◌≤ℤ◌, units}
use sigenergy_optimizer.Prelude.Decimal.{min_ℤ, max_ℤ}
use native.Mathlib.Nat.{div-mul-le_self}
use sigenergy_optimizer.Desired.State.{House, Settings, Memory}
use sigenergy_optimizer.Desired.Caps.{
  valid_hw_cap_kw, valid_cap, cap_of, fallback_kw, get_power_caps_kw, floor_power_command_kw,
  bound_ess_request_kw, charge_request, discharge_request, desired_ess_charge_limit,
  desired_ess_discharge_limit,
}

-- A limit that can be commanded: not above the power limit, and in steps of 0.01 kW.
abbrev pub IsCommand : ℤ → Type 0
IsCommand limit = (pos 0 ≤ℤ limit) × (limit ≤ℤ units 100) × ((n : ℕ) × (limit ≡ pos (n * 10_000)))

-- Where a maximum is a valid one, the limit is within it.
abbrev pub IsWithin : ℤ → ℤ → Type 0
IsWithin limit v = (valid_hw_cap_kw v ≡ false) ⊎ (limit ≤ℤ v)

abbrev pub IsWithin? : ℤ → Option ℤ → Type 0
IsWithin? limit none = Unit
IsWithin? limit (some v) = IsWithin limit v

-- What is known of a cap: it is a valid power, and within the valid maxima.
abbrev IsCap : Option ℤ → ℤ → ℤ → Type 0
IsCap e x c = (pos 0 ≤ℤ c) × (c ≤ℤ units 100) × IsWithin? c e × IsWithin c x

-- The cap that two candidates, the remembered cap and the fallback give.
abbrev cap : Option ℤ → ℤ → Option ℤ → ℤ → ℤ
cap e x m f = cap_of (valid_cap e ++ valid_cap (some x)) (valid_cap m) (fallback_kw f)

IsPower : ℤ → Type 0
IsPower c = (pos 0 ≤ℤ c) × (c ≤ℤ units 100)

remembered : (m : Option ℤ) (f : ℤ) → IsPower (cap_of [] (valid_cap m) (fallback_kw f))
unfolding valid_hw_cap_kw IsPower
remembered none f = ground arith
remembered (some v) f = elim (Bool-cases (valid_hw_cap_kw v)) [
  | inl good ↦ rw good (ground arith)
  | inr bad ↦ rw bad (ground arith)
]

own-IsCap :
    (x : ℤ) (m : Option ℤ) (f : ℤ) (c : Bool)
    → (valid_hw_cap_kw x ≡ c)
    → IsCap none x (cap_of (if c then x ∷ [] else []) (valid_cap m) (fallback_kw f))
unfolding valid_hw_cap_kw IsPower
own-IsCap x m f true h = ground arith
own-IsCap x m f false h = let r = remembered m f in (r.0, r.1, _, inl h)

entity-IsCap :
    (e x : ℤ) (m : Option ℤ) (f : ℤ) (b c : Bool)
    → (valid_hw_cap_kw e ≡ b)
    → (valid_hw_cap_kw x ≡ c)
    → IsCap (some e) x (
        cap_of
          ((if b then e ∷ [] else []) ++ (if c then x ∷ [] else []))
          (valid_cap m)
          (fallback_kw f))
unfolding valid_hw_cap_kw
entity-IsCap e x m f true true h k = ground arith
entity-IsCap e x m f true false h k = ground arith
entity-IsCap e x m f false c h k = let r = own-IsCap x m f c k in (r.0, r.1, inl h, r.3)

cap-IsCap : (e : Option ℤ) (x : ℤ) (m : Option ℤ) (f : ℤ) → IsCap e x (cap e x m f)
unfolding valid_hw_cap_kw
cap-IsCap none x m f = own-IsCap x m f (valid_hw_cap_kw x) refl
cap-IsCap (some e) x m f = entity-IsCap e x m f (valid_hw_cap_kw e) (valid_hw_cap_kw x) refl refl

-- A request bounded by a cap that is a power.
bound_ess_request-IsCommand :
    (requested c : ℤ)
    → (pos 0 ≤ℤ c)
    → (c ≤ℤ units 100)
    → IsCommand (bound_ess_request_kw requested c) × (bound_ess_request_kw requested c ≤ℤ c)
unfolding bound_ess_request_kw floor_power_command_kw
bound_ess_request-IsCommand requested c h k =
    let v = max_ℤ (min_ℤ (max_ℤ requested (pos 0)) c) (pos 0) in
    let le : pos_part v + neg_part c ≤ pos_part c = ground arith in
    let top : pos_part v ≤ 100_000_000 = ground arith in
    let floor = div-mul-le_self (pos_part v) 10_000 in
    (
      (omega (arith, floor), omega (arith, floor, top), (pos_part v / 10_000, refl)),
      omega (arith, floor, le),
    )

within : (a b : ℤ) (e : Option ℤ) → (a ≤ℤ b) → IsWithin? b e → IsWithin? a e
within a b none h w = _
within a b (some v) h (inl bad) = inl bad
within a b (some v) h (inr le) = inr (omega (arith, h, le))

bounded :
    (requested : ℤ) (e : Option ℤ) (x : ℤ) (m : Option ℤ) (f : ℤ)
    → IsCommand (bound_ess_request_kw requested (cap e x m f))
      × IsWithin? (bound_ess_request_kw requested (cap e x m f)) e
      × IsWithin (bound_ess_request_kw requested (cap e x m f)) x
bounded requested e x m f =
    let c = cap e x m f in
    let limit = bound_ess_request_kw requested c in
    let is = cap-IsCap e x m f in
    let b = bound_ess_request-IsCommand requested c is.0 is.1 in
    (b.0, within limit c e b.1 is.2, within limit c (some x) b.1 is.3)

module _ (cfg : Settings) (m : Memory) (s : House) where
  -- Within the caps of charging, and within those of discharging.
  abbrev pub IsCharge : ℤ → Type 0
  IsCharge limit =
      IsCommand limit
      × IsWithin? limit s.ess_charge_limit_entity_max_kw
      × IsWithin limit s.ess_max_charge_kw

  abbrev pub IsDischarge : ℤ → Type 0
  IsDischarge limit =
      IsCommand limit
      × IsWithin? limit s.ess_discharge_limit_entity_max_kw
      × IsWithin limit s.ess_max_discharge_kw

  -- Whatever is requested, the battery's two limits are steps of 0.01 kW between 0 and 100 kW, and
  -- within each valid maximum of the hardware.
  pub ess_limits-AreBounded :
      (desired_import : ℤ) (slow relief : Bool) (target : Option ℤ) (owns_export boost : Bool)
      → IsCharge (desired_ess_charge_limit cfg m s desired_import slow relief target)
        × IsDischarge (desired_ess_discharge_limit cfg m s owns_export boost)
  unfolding desired_ess_charge_limit desired_ess_discharge_limit get_power_caps_kw
  ess_limits-AreBounded desired_import slow relief target owns_export boost = (
    bounded (charge_request cfg m s desired_import slow relief target)
        s.ess_charge_limit_entity_max_kw s.ess_max_charge_kw m.last_hw_charge_cap_kw
        cfg.ess_limit_fallback_kw,
    bounded (discharge_request cfg m s owns_export boost) s.ess_discharge_limit_entity_max_kw
        s.ess_max_discharge_kw m.last_hw_discharge_cap_kw cfg.ess_limit_fallback_kw,
  )
