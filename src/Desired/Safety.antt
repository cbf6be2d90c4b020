-- ===== src/Desired/Safety.antt =====
-- app/optimizer.py: what an open import limit and a commanded mode rest on.
use sigenergy_optimizer.Prelude.{◌≡◌, refl, ◌⊎◌, Bool, true, false, not, ◌||◌, if◌then◌else◌, arith}
use sigenergy_optimizer.Prelude.Int.{ℤ, pos, ◌≤ℤ◌, ltb_ℤ, leb_ℤ}
use sigenergy_optimizer.Prelude.Decimal.{min_ℤ}
use sigenergy_optimizer.Desired.State.{House, Settings, Memory, Trust}
use sigenergy_optimizer.Desired.{desired_import_limit, pays_to_import}

infix 50 ◌<ℤ◌
abbrev pub ◌<ℤ◌ : ℤ → ℤ → Type 0
a <ℤ b = ltb_ℤ a b ≡ true

-- A predicate of a limit that is open: a limit that a test closes is not open.
past :
    (P : ℤ → Type 0) (c : Bool) (a : ℤ)
    → ((c ≡ false) → pos 0 <ℤ a → P a)
    → pos 0 <ℤ (if c then pos 0 else a)
    → P (if c then pos 0 else a)
past P true a k h = absurd (ground arith)
past P false a k h = k refl h

fork :
    (P : ℤ → Type 0) (c : Bool) (a b : ℤ)
    → ((c ≡ true) → pos 0 <ℤ a → P a)
    → ((c ≡ false) → pos 0 <ℤ b → P b)
    → pos 0 <ℤ (if c then a else b)
    → P (if c then a else b)
fork P true a b j k h = j refl h
fork P false a b j k h = k refl h

module _ (cfg : Settings) (m : Memory) (s : House) where
  -- The price pays for the import.
  abbrev pub IsPaid : Type 0
  IsPaid = (s.price_is_negative ≡ true) × (s.current_price ≤ℤ cfg.import_threshold_low)

  -- Every reading that the price and the need depend on is trusted, and the battery has room.
  abbrev pub IsNeeded : Trust → Bool → ℤ → ℤ → Type 0
  IsNeeded t feedin_price_ok pv_surplus limit =
      (t.import_price_trusted ≡ true)
      × (t.feedin_price_trusted ≡ true)
      × (t.battery_soc_trusted ≡ true)
      × (t.battery_capacity_trusted ≡ true)
      × (feedin_price_ok ≡ false)
      × (s.current_price ≤ℤ cfg.max_price_threshold)
      × (s.battery_soc <ℤ cfg.daytime_topup_max_soc)
      × (pv_surplus <ℤ cfg.target_battery_charge)
      × (limit ≤ℤ cfg.target_battery_charge)
      × (limit ≤ℤ cfg.cap_total_import)

  module _ (dump window holdoff : Bool) (t : Trust) (ok : Bool) (surplus : ℤ) where
    abbrev pub IsWarranted : ℤ → Type 0
    IsWarranted limit =
        (dump ≡ false)
        × (window ≡ false)
        × (holdoff ≡ false)
        × (limit ≤ℤ s.ess_max_charge_kw)
        × (IsPaid ⊎ IsNeeded t ok surplus limit)

    paid :
        (a : ℤ)
        → (dump || window ≡ false)
        → (holdoff ≡ false)
        → (pays_to_import cfg m s ≡ true)
        → IsWarranted (min_ℤ a s.ess_max_charge_kw)
    paid a d w p = ground arith

    needed :
        (dump || window ≡ false)
        → (holdoff ≡ false)
        → (not t.import_price_trusted ≡ false)
        → (ok ≡ false)
        → (ltb_ℤ cfg.max_price_threshold s.current_price ≡ false)
        → (not t.battery_soc_trusted || not t.battery_capacity_trusted ≡ false)
        → (leb_ℤ cfg.daytime_topup_max_soc s.battery_soc ≡ false)
        → (leb_ℤ cfg.target_battery_charge surplus ≡ false)
        → (not t.feedin_price_trusted ≡ false)
        → IsWarranted
            (min_ℤ (min_ℤ cfg.target_battery_charge s.ess_max_charge_kw) cfg.cap_total_import)
    needed d w a b c e f g i = ground arith

    -- An import limit above zero is at most the battery's charging power; there is no morning dump, no
    -- demand window and no standby hold-off then; and either the price is negative and at most the low
    -- threshold, or all four readings are trusted, the feed-in price blocks nothing, the price, the
    -- state of charge and the PV surplus are within their limits, and the import is within the
    -- charging target and the import cap.
    pub desired_import_limit-IsWarranted :
        pos 0 <ℤ desired_import_limit cfg m s dump window holdoff t ok surplus
        → IsWarranted (desired_import_limit cfg m s dump window holdoff t ok surplus)
    unfolding desired_import_limit
    desired_import_limit-IsWarranted = past IsWarranted (dump || window) _ λ d h1.
        past IsWarranted holdoff _
          (λ w h2.
            fork IsWarranted (pays_to_import cfg m s) _ _
              (λ p.
                fork IsWarranted (leb_ℤ s.current_price cfg.import_threshold_high) _ _
                  (λ a h. paid _ d w p)
                  (λ a.
                    fork IsWarranted (leb_ℤ s.current_price cfg.import_threshold_medium) _ _
                      (λ b h. paid _ d w p) (λ b h. paid _ d w p)))
              (λ p. past IsWarranted (not t.import_price_trusted) _ λ a h3.
                past IsWarranted ok _
                  (λ b h4.
                    past IsWarranted (ltb_ℤ cfg.max_price_threshold s.current_price) _
                      (λ c h5.
                        past IsWarranted
                          (not t.battery_soc_trusted || not t.battery_capacity_trusted) _
                          (λ e h6.
                            past IsWarranted (leb_ℤ cfg.daytime_topup_max_soc s.battery_soc) _
                              (λ f h7.
                                past IsWarranted (leb_ℤ cfg.target_battery_charge surplus) _
                                  (λ g h8.
                                    past IsWarranted (not t.feedin_price_trusted) _
                                      (λ i h9.
                                        fork IsWarranted
                                          (leb_ℤ s.current_price cfg.max_price_threshold) _ _
                                          (λ j h. needed d w a b c e f g i)
                                          (λ j h. absurd (ground arith)) h9)
                                      h8)
                                  h7)
                              h6)
                          h5)
                      h4)
                  h3)
              h2)
          h1
