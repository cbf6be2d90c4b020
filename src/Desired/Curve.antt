-- ===== src/Desired/Curve.antt =====
-- app/optimizer.py: the export limit as a function of the feed-in price, over its whole range.
use sigenergy_optimizer.Prelude.{ℕ, zero, suc, ◌*◌, ◌/◌, ◌≤◌, ◌<◌, ◌≡◌, refl, false, arith}
use sigenergy_optimizer.Prelude.Int.{ℤ, pos, negsuc, pos_part, ◌≤ℤ◌, ltb_ℤ, ◌-ℤ◌, int_laws}
use sigenergy_optimizer.Prelude.Decimal.{portion, max_ℤ}
use native.Mathlib.Nat.{div-mul-le_self, div-le_of_le-mul, le-div_iff_mul-le}
use sigenergy_optimizer.Desired.State.{House, Settings, Memory}
use sigenergy_optimizer.Desired.Tier.{interpolate, low_tier, medium_tier}

-- The limits and the thresholds of the tiers are in order.
abbrev pub IsLadder : Settings → Type 0
IsLadder cfg =
    (pos 0 ≤ℤ cfg.export_limit_low)
    × (cfg.export_limit_low ≤ℤ cfg.export_limit_medium)
    × (cfg.export_limit_medium ≤ℤ cfg.export_limit_high)
    × (cfg.export_threshold_low ≤ℤ cfg.export_threshold_medium)
    × (cfg.export_threshold_medium ≤ℤ cfg.export_threshold_high)

quotient-le : (w n d : ℕ) → n ≤ d → w * n / d ≤ w
quotient-le w n d h = div-le_of_le-mul d (grind arith)

quotient_mono : (w n k d : ℕ) → n ≤ k → w * n / d ≤ w * k / d
quotient_mono w n k zero h = omega arith
quotient_mono w n k (suc e) h =
    let d = suc e in
    let p : 0 < d = omega arith in
    (le-div_iff_mul-le p).1 (grind (arith, div-mul-le_self (w * n) d))

pos_part_mono : (x y : ℤ) → (x ≤ℤ y) → pos_part x ≤ pos_part y
pos_part_mono (pos a) y h = omega arith
pos_part_mono (negsuc a) y h = omega arith

portion-pos : (w n d : ℕ) → portion (pos w) n d ≡ pos (w * n / d)
unfolding portion
portion-pos w n d = let shut : ltb_ℤ (pos w) (pos 0) ≡ false = ground arith in rw shut refl

portion-InRange :
    (w : ℤ) (n d : ℕ) → (pos 0 ≤ℤ w) → n ≤ d → (pos 0 ≤ℤ portion w n d) × (portion w n d ≤ℤ w)
portion-InRange (pos w) n d h k =
    rw (portion-pos w n d) (omega arith, omega (arith, quotient-le w n d k))
portion-InRange (negsuc w) n d h k = absurd (ground arith)

portion-mono : (w : ℤ) (n k d : ℕ) → (pos 0 ≤ℤ w) → n ≤ k → portion w n d ≤ℤ portion w k d
portion-mono (pos w) n k d h le =
    rw (portion-pos w n d, portion-pos w k d) (omega (arith, quotient_mono w n k d le))
portion-mono (negsuc w) n k d h le = absurd (ground arith)

-- Between two tiers the limit stays between theirs, and does not fall.
interpolate-InRange :
    (base top fit from span : ℤ)
    → (base ≤ℤ top)
    → (from ≤ℤ fit)
    → (fit -ℤ from ≤ℤ span)
    → (base ≤ℤ interpolate base top fit from span) × (interpolate base top fit from span ≤ℤ top)
unfolding interpolate
interpolate-InRange base top fit from span h k le =
    let r =
      portion-InRange (top -ℤ base) (pos_part (fit -ℤ from)) (pos_part span) (omega int_laws)
        (pos_part_mono (fit -ℤ from) span le) in
    (omega (int_laws, r.0), omega (int_laws, r.1))

pub interpolate-mono :
    (base top fit fit' from span : ℤ)
    → (base ≤ℤ top)
    → (fit ≤ℤ fit')
    → interpolate base top fit from span ≤ℤ interpolate base top fit' from span
unfolding interpolate
interpolate-mono base top fit fit' from span h k =
    let r =
      portion-mono (top -ℤ base) (pos_part (fit -ℤ from)) (pos_part (fit' -ℤ from)) (pos_part span)
        (omega int_laws) (pos_part_mono (fit -ℤ from) (fit' -ℤ from) (omega int_laws)) in
    omega (int_laws, r)

module _ (cfg : Settings) (m : Memory) (s : House) where
  within :
      (d : ℤ)
      → (s.feedin_price -ℤ cfg.export_threshold_low ≤ℤ d)
      → s.feedin_price -ℤ cfg.export_threshold_low ≤ℤ max_ℤ d (pos 1_000)
  within d h = ground arith

  pub low_tier-InRange :
      IsLadder cfg
      → (cfg.export_threshold_low ≤ℤ s.feedin_price)
      → (s.feedin_price ≤ℤ cfg.export_threshold_medium)
      → (cfg.export_limit_low ≤ℤ low_tier cfg m s) × (low_tier cfg m s ≤ℤ cfg.export_limit_medium)
  low_tier-InRange (a, b, c, d, e) h k =
      interpolate-InRange cfg.export_limit_low cfg.export_limit_medium s.feedin_price
        cfg.export_threshold_low
        (max_ℤ (cfg.export_threshold_medium -ℤ cfg.export_threshold_low) (pos 1_000)) b h
        (within (cfg.export_threshold_medium -ℤ cfg.export_threshold_low) (omega int_laws))

  pub medium_tier-InRange :
      IsLadder cfg
      → (cfg.export_threshold_medium ≤ℤ s.feedin_price)
      → (s.feedin_price ≤ℤ cfg.export_threshold_high)
      → (cfg.export_limit_medium ≤ℤ medium_tier cfg m s)
        × (medium_tier cfg m s ≤ℤ cfg.export_limit_high)
  medium_tier-InRange (a, b, c, d, e) h k =
      interpolate-InRange cfg.export_limit_medium cfg.export_limit_high s.feedin_price
        cfg.export_threshold_medium (cfg.export_threshold_high -ℤ cfg.export_threshold_medium) c h
        (omega int_laws)
