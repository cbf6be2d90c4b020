-- ===== src/SolarBudget.antt =====
-- app/optimizer.py: `_solar_surplus_timing_budget` and `_piecewise_refill_timing_budget`, the energy
-- that a forecast leaves for charging before a deadline. Power is in millionths of a kilowatt, time in
-- millionths of a second; the product of both is kept, so that nothing is rounded. A `ValueError` is
-- `none`, and a period is a pair.
pub mod Overlap
pub mod Phases
pub mod Tests
use Prim.Native.Nat.{min}
use sigenergy_optimizer.Prelude.{
  ℕ, ◌+◌, ◌-◌, ◌*◌, Bool, true, ◌&&◌, Option, none, some, List, [], ◌∷◌, leb, if◌then◌else◌,
}
use sigenergy_optimizer.Prelude.Int.{
  ℤ, pos, pos_part, ◌-ℤ◌, ◌+ℤ◌, ltb_ℤ, leb_ℤ, Number, finite?, units,
}

infixl 5 ◌>>=◌ ◌>>◌
abbrev pub ◌>>=◌ {ℓ κ} : {A : Type ℓ} {B : Type κ} → Option A → (A → Option B) → Option B
some a >>= f = f a
none >>= f = none

abbrev pub ◌>>◌ {ℓ} : {B : Type ℓ} → Option (Unit {0}) → Option B → Option B
m >> k = m >>= λ _. k

-- `if not b: raise ValueError`
abbrev pub require : Bool → Option (Unit {0})
require b = if b then some tt else none

-- `_solar_surplus_finite_number`
abbrev pub finite_number : Number → Option ℤ
finite_number x = finite? x

abbrev pub max_ℤ : ℤ → ℤ → ℤ
max_ℤ a b = if ltb_ℤ a b then b else a

abbrev pub min_ℤ : ℤ → ℤ → ℤ
min_ℤ a b = if ltb_ℤ b a then b else a

-- `max(0.0, min(till, end) - max(since, start))`
unfoldable pub overlap : ℤ → ℤ → ℤ → ℤ → ℕ
overlap since till start end = pos_part (min_ℤ till end -ℤ max_ℤ since start)

-- `min(max(pv_kw - load_kw, 0.0), charge_cap_kw)`
abbrev pub chargeable : ℕ → ℕ → ℕ → ℕ
chargeable pv load cap = min (pv - load) cap

-- The loop over the periods: what they offer between `start` and `end`.
unfoldable pub opportunity : ℕ → ℕ → ℤ → ℤ → ℤ → List (Number × Number) → Option ℕ
unfolding overlap
opportunity load cap period start end [] = some 0
opportunity load cap period start end ((at, pv) ∷ ps) = do
  let later = opportunity load cap period start end ps
  since ← finite_number at
  pv_kw ← finite_number pv
  require (leb_ℤ (pos 0) pv_kw)
  rest ← later
  some (chargeable (pos_part pv_kw) load cap * overlap since (since +ℤ period) start end + rest)

-- The loop of the piecewise budget: the slow phase ends at `turn`, and then the normal one begins.
unfoldable pub opportunities : ℕ → ℕ → ℕ → ℤ → ℤ → ℤ → ℤ → List (Number × Number) → Option (ℕ × ℕ)
unfolding overlap
opportunities load slow normal period start turn end [] = some (0, 0)
opportunities load slow normal period start turn end ((at, pv) ∷ ps) = do
  let later = opportunities load slow normal period start turn end ps
  since ← finite_number at
  pv_kw ← finite_number pv
  require (leb_ℤ (pos 0) pv_kw)
  rest ← later
  some (
    chargeable (pos_part pv_kw) load slow * overlap since (since +ℤ period) start turn + rest.0,
    chargeable (pos_part pv_kw) load normal * overlap since (since +ℤ period) turn end + rest.1,
  )

pub record Timing : Type 0 where
  pub fill_need : ℕ
  pub opportunity : ℕ
  pub passed : Bool

pub record Refill : Type 0 where
  pub fill_need : ℕ
  pub slow_opportunity : ℕ
  pub normal_opportunity : ℕ
  pub passed : Bool

-- `timed / factor >= fill`, without the quotient.
abbrev pub is_enough : ℕ → ℕ → ℕ → Bool
is_enough fill factor timed = leb (fill * factor * 3600) timed

abbrev pub period_seconds : ℤ → ℤ
period_seconds hours = pos (pos_part hours * 3600)

-- The inputs that a caller hands over, before any check.
pub record Window : Type 0 where
  pub forecast_period_hours : Number
  pub start_ts : Number
  pub end_ts : Number
  pub load_kw : Number
  pub fill_need_kwh : Number
  pub safety_factor : Number

-- The part of `_solar_surplus_timing_budget` after the return for a full battery.
unfoldable pub timed_budget : List (Number × Number) → Window → ℕ → ℕ → ℕ → ℕ → Option Timing
unfolding opportunity
timed_budget periods w load cap fill factor = do
  hours ← finite_number w.forecast_period_hours
  start ← finite_number w.start_ts
  end ← finite_number w.end_ts
  require (ltb_ℤ (pos 0) hours && ltb_ℤ start end)
  timed ← opportunity load cap (period_seconds hours) start end periods
  some (record { fill_need = fill; opportunity = timed; passed = is_enough fill factor timed })

unfoldable pub timing_budget : List (Number × Number) → Window → Number → Option Timing
unfolding timed_budget
timing_budget periods w charge_capability_kw = do
  load ← finite_number w.load_kw
  cap ← finite_number charge_capability_kw
  fill ← finite_number w.fill_need_kwh
  factor ← finite_number w.safety_factor
  require
      (leb_ℤ (pos 0) load && (ltb_ℤ (pos 0) cap && (leb_ℤ (pos 0) fill && leb_ℤ (units 1) factor)))
  (if leb (pos_part fill) 0
      then some (record { fill_need = 0; opportunity = 0; passed = true })
      else timed_budget periods w (pos_part load) (pos_part cap) (pos_part fill) (pos_part factor))

unfoldable pub refill_budget :
    List (Number × Number) → Window → Number → Number → Number → Option Refill
unfolding opportunities
refill_budget periods w slow_charge_end_ts slow_capability_kw normal_capability_kw = do
  hours ← finite_number w.forecast_period_hours
  start ← finite_number w.start_ts
  deadline ← finite_number w.end_ts
  slow_end ← finite_number slow_charge_end_ts
  load ← finite_number w.load_kw
  slow ← finite_number slow_capability_kw
  normal ← finite_number normal_capability_kw
  fill ← finite_number w.fill_need_kwh
  factor ← finite_number w.safety_factor
  require (
      ltb_ℤ (pos 0) hours
      && (ltb_ℤ start deadline
          && (leb_ℤ (pos 0) load
              && (leb_ℤ (pos 0) slow
                  && (ltb_ℤ (pos 0) normal && (leb_ℤ (pos 0) fill && leb_ℤ (units 1) factor))))))
  timed ←
      opportunities (pos_part load) (pos_part slow) (pos_part normal) (period_seconds hours) start
        (min_ℤ (max_ℤ slow_end start) deadline) deadline periods
  some (record {
    fill_need = pos_part fill;
    slow_opportunity = timed.0;
    normal_opportunity = timed.1;
    passed = is_enough (pos_part fill) (pos_part factor) (timed.0 + timed.1);
  })
