-- ===== src/Desired/Feedin.antt =====
-- app/optimizer.py: the export limit as a function of the feed-in price.
use sigenergy_optimizer.Prelude.{
  ◌≡◌, str_eq, Bool, true, false, not, ◌&&◌, ◌||◌, Option, none, some, if◌then◌else◌, arith,
  if-cases,
}
use sigenergy_optimizer.Prelude.Int.{ℤ, pos, ◌≤ℤ◌, ltb_ℤ, leb_ℤ}
use sigenergy_optimizer.Desired.State.{House, Settings, Memory}
use sigenergy_optimizer.Desired.Tier.{
  export_tier_limit, low_tier, medium_tier, boosts, boosts_below_tier, or_true, or_ℤ,
}
use sigenergy_optimizer.Desired.Ladder.{
  Place, place, placed, height_mono, value, Fits, value-mono, under, low, medium, top,
}
use sigenergy_optimizer.Desired.Curve.{
  IsLadder, low_tier-InRange, medium_tier-InRange, interpolate-mono,
}

-- The chain of the method's tests, without the PV safeguard, as the limit at a place.
shape :
    (lo me hi l d : ℤ) (b n r c u t e : Bool)
    → (if b && (n && (u && r))
        then lo
        else if u
        then pos 0
        else if t
        then hi
        else if e
        then d
        else if b
        then l
        else if c
        then pos 0
        else l)
      ≡ value lo me hi b c (place u t e) (n && r) l d
shape lo me hi l d b n r c true t e = ground arith
shape lo me hi l d b n r c false true e = ground arith
shape lo me hi l d b n r c false false true = ground arith
shape lo me hi l d b n r c false false false = ground arith

module _ (cfg : Settings) (m : Memory) (s : House) where
  abbrev seat : Place
  seat =
      placed cfg.export_threshold_low cfg.export_threshold_medium cfg.export_threshold_high
        s.feedin_price

  abbrev rest : Bool
  rest =
      not m.manual_mode_override
      && (s.sigenergy_mode_observed && str_eq s.sigenergy_mode cfg.automated_option)

  abbrev closed : Bool → Option ℤ → Bool
  closed bypass soc_floor =
      (ltb_ℤ s.battery_soc (or_ℤ soc_floor cfg.min_export_target_soc) || false) && not bypass

  abbrev at_seat : Bool → Bool → Option ℤ → ℤ
  at_seat boost bypass soc_floor =
      value cfg.export_limit_low cfg.export_limit_medium cfg.export_limit_high
        (boosts cfg m s boost) (closed bypass soc_floor) seat
        (leb_ℤ cfg.evening_boost_min_feedin_price s.feedin_price && rest) (low_tier cfg m s)
        (medium_tier cfg m s)

  tier-value :
      (boost bypass : Bool) (soc_floor : Option ℤ)
      → export_tier_limit cfg m s false false false boost bypass none soc_floor
        ≡ at_seat boost bypass soc_floor
  unfolding export_tier_limit
  tier-value boost bypass soc_floor =
      shape cfg.export_limit_low cfg.export_limit_medium cfg.export_limit_high (low_tier cfg m s)
        (medium_tier cfg m s) (boosts cfg m s boost)
        (leb_ℤ cfg.evening_boost_min_feedin_price s.feedin_price) rest (closed bypass soc_floor)
        (ltb_ℤ s.feedin_price cfg.export_threshold_low)
        (leb_ℤ cfg.export_threshold_high s.feedin_price)
        (leb_ℤ cfg.export_threshold_medium s.feedin_price)

  seat-Fits :
      IsLadder cfg
      → Fits cfg.export_limit_low cfg.export_limit_medium cfg.export_limit_high seat
          (low_tier cfg m s)
          (medium_tier cfg m s)
  seat-Fits ladder =
      let P = λ (p : Place).
        Fits cfg.export_limit_low cfg.export_limit_medium cfg.export_limit_high p (low_tier cfg m s)
          (medium_tier cfg m s) in
      let th = cfg.export_threshold_high in
      let tm = cfg.export_threshold_medium in
      if-cases P (ltb_ℤ s.feedin_price cfg.export_threshold_low) under _ (λ u. _)
        λ u.
          if-cases P (leb_ℤ th s.feedin_price) top _ (λ t. _)
            (λ t.
              if-cases P (leb_ℤ tm s.feedin_price) medium low
                (λ d. medium_tier-InRange cfg m s ladder (ground arith) (ground arith))
                (λ d. low_tier-InRange cfg m s ladder (ground arith) (ground arith)))

module _ (cfg : Settings) (m : Memory) (s : House) (fit : ℤ) where
  abbrev pub raised : House
  raised = record s { feedin_price = fit }

  at_seat-mono :
      IsLadder cfg
      → (s.feedin_price ≤ℤ fit)
      → (boost bypass : Bool) (soc_floor : Option ℤ)
      → at_seat cfg m s boost bypass soc_floor ≤ℤ at_seat cfg m raised boost bypass soc_floor
  at_seat-mono ladder up boost bypass soc_floor =
      value-mono cfg.export_limit_low cfg.export_limit_medium cfg.export_limit_high
        (boosts cfg m s boost) (closed cfg m s bypass soc_floor) ladder.0 ladder.1 ladder.2
        (seat cfg m s) (seat cfg m raised) _ _ _ _ _ _
        (height_mono cfg.export_threshold_low cfg.export_threshold_medium cfg.export_threshold_high
          s.feedin_price fit ladder.3 ladder.4 up)
        (still_helps (rest cfg m s))
        (interpolate-mono cfg.export_limit_low cfg.export_limit_medium s.feedin_price fit
          cfg.export_threshold_low _ ladder.1 up)
        (interpolate-mono cfg.export_limit_medium cfg.export_limit_high s.feedin_price fit
          cfg.export_threshold_medium _ ladder.2 up)
        (seat-Fits cfg m s ladder) (seat-Fits cfg m raised ladder)
    where
      still_helps :
          (r : Bool)
          → not (leb_ℤ cfg.evening_boost_min_feedin_price s.feedin_price && r)
              || leb_ℤ cfg.evening_boost_min_feedin_price fit && r
            ≡ true
      still_helps r = ground arith

  by_seat :
      IsLadder cfg
      → (s.feedin_price ≤ℤ fit)
      → (boost bypass : Bool) (soc_floor : Option ℤ)
      → export_tier_limit cfg m s false false false boost bypass none soc_floor
        ≤ℤ export_tier_limit cfg m raised false false false boost bypass none soc_floor
  by_seat ladder up boost bypass soc_floor =
      rw (tier-value cfg m s boost bypass soc_floor, tier-value cfg m raised boost bypass soc_floor)
        (at_seat-mono ladder up boost bypass soc_floor)

  -- With the tiers in order and without the PV safeguard, a higher feed-in price gives no lower export
  -- limit: in a spike, with the solar override, with and without the evening boost, the surplus bypass
  -- and a floor of the caller's, and also from a price that only the boost exports at to one of the
  -- ladder.
  pub export_tier_limit-mono :
      IsLadder cfg
      → (s.feedin_price ≤ℤ fit)
      → (spike override boost bypass : Bool) (trusted : Option Bool) (soc_floor : Option ℤ)
      → export_tier_limit cfg m s spike override false boost bypass trusted soc_floor
        ≤ℤ export_tier_limit cfg m raised spike override false boost bypass trusted soc_floor
  unfolding export_tier_limit
  export_tier_limit-mono ladder up spike override boost bypass (some false) soc_floor = omega arith
  export_tier_limit-mono ladder up true override boost bypass none soc_floor = omega arith
  export_tier_limit-mono ladder up true override boost bypass (some true) soc_floor = omega arith
  export_tier_limit-mono ladder up false true boost bypass none soc_floor = omega arith
  export_tier_limit-mono ladder up false true boost bypass (some true) soc_floor = omega arith
  export_tier_limit-mono ladder up false false boost bypass none soc_floor =
      by_seat ladder up boost bypass soc_floor
  export_tier_limit-mono ladder up false false boost bypass (some true) soc_floor =
      by_seat ladder up boost bypass soc_floor

module _ (cfg : Settings) (m : Memory) (s : House) (ladder : IsLadder cfg) where
  abbrev IsInRange : ℤ → Type 0
  IsInRange limit = (pos 0 ≤ℤ limit) × (limit ≤ℤ cfg.export_limit_high)

  shut-InRange : IsInRange (pos 0)
  shut-InRange = let (a, b, c, d, e) = ladder in (omega arith, omega arith)

  high-InRange : IsInRange cfg.export_limit_high
  high-InRange = let (a, b, c, d, e) = ladder in (omega arith, omega arith)

  low-InRange : IsInRange cfg.export_limit_low
  low-InRange = let (a, b, c, d, e) = ladder in (a, omega arith)

  medium-InRange :
      (leb_ℤ cfg.export_threshold_medium s.feedin_price ≡ true)
      → (leb_ℤ cfg.export_threshold_high s.feedin_price ≡ false)
      → IsInRange (medium_tier cfg m s)
  medium-InRange h k =
      let r = medium_tier-InRange cfg m s ladder (ground arith) (ground arith) in
      let (a, b, c, d, e) = ladder in (omega (arith, r.0), r.1)

  ramp-InRange :
      (ltb_ℤ s.feedin_price cfg.export_threshold_low ≡ false)
      → (leb_ℤ cfg.export_threshold_medium s.feedin_price ≡ false)
      → IsInRange (low_tier cfg m s)
  ramp-InRange h k =
      let r = low_tier-InRange cfg m s ladder (ground arith) (ground arith) in
      let (a, b, c, d, e) = ladder in (omega (arith, r.0), omega (arith, r.1))

  -- With the tiers in order, the limit is never negative and never above the highest tier, whatever
  -- the flags.
  pub export_tier_limit-InRange :
      (spike override safeguard boost bypass : Bool) (trusted : Option Bool) (soc_floor : Option ℤ)
      → (pos 0 ≤ℤ export_tier_limit cfg m s spike override safeguard boost bypass trusted soc_floor)
        × (export_tier_limit cfg m s spike override safeguard boost bypass trusted soc_floor
            ≤ℤ cfg.export_limit_high)
  unfolding export_tier_limit
  export_tier_limit-InRange spike override safeguard boost bypass trusted soc_floor =
      if-cases IsInRange (not (or_true trusted)) _ _ (λ x. shut-InRange)
        λ x.
          if-cases IsInRange spike _ _ (λ y. high-InRange)
            (λ y.
              if-cases IsInRange override _ _ (λ z. high-InRange)
                (λ z.
                  if-cases IsInRange (boosts_below_tier cfg m s boost) _ _ (λ w. low-InRange)
                    (λ w.
                      if-cases IsInRange (ltb_ℤ s.feedin_price cfg.export_threshold_low) _ _
                        (λ u. shut-InRange)
                        (λ u.
                          if-cases IsInRange (leb_ℤ cfg.export_threshold_high s.feedin_price) _ _
                            (λ t. high-InRange)
                            (λ t.
                              if-cases IsInRange (leb_ℤ cfg.export_threshold_medium s.feedin_price)
                                _ _
                                (λ d.
                                  if-cases IsInRange safeguard _ _ (λ e. shut-InRange)
                                    (λ e. medium-InRange d t))
                                (λ d.
                                  if-cases IsInRange (boosts cfg m s boost) _ _
                                    (λ b. ramp-InRange u d)
                                    (λ b.
                                      if-cases IsInRange
                                        ((ltb_ℤ s.battery_soc
                                              (or_ℤ soc_floor cfg.min_export_target_soc)
                                            || safeguard)
                                          && not bypass)
                                        _ _ (λ c. shut-InRange) (λ c. ramp-InRange u d))))))))
