-- ===== src/EveningBoost/Evidence.antt =====
-- `_evening_boost_reentry_evidence` of app/optimizer.py: the load report on which an admission may
-- rest, or nothing.
use Prim.Native.Nat.{max}
use sigenergy_optimizer.Prelude.{
  ◌+◌, ◌*◌, Bool, false, not, ◌&&◌, ◌||◌, Option, none, some, leb, if◌then◌else◌,
}
use sigenergy_optimizer.Prelude.Int.{
  ℤ, pos, pos_part, neg_part, ◌-ℤ◌, ltb_ℤ, leb_ℤ, Number, finite?, units,
}

abbrev pub max_report_gap_seconds : ℤ
max_report_gap_seconds = units 60

-- `HVACObservedValue` of a control; `expected` is the test of its value against the wanted one. Its
-- stamp is an `Optional[float]`, here the value of a finite one.
pub record Observed : Type 0 where
  pub available : Bool
  pub fresh : Bool
  pub expected : Bool
  pub observed_at_ts : Option ℤ

-- What the method reads of the state and the configuration. `load_value`, `load_stamp` and `sunrise`
-- are what `float` makes of them, and `load_kw` is finite.
pub record Inputs : Type 0 where
  pub live_snapshot : Bool
  pub manual_mode_override : Bool
  pub mode_observed : Bool
  pub mode_automated : Bool
  pub ha_control_enabled : Bool
  pub switch_available : Bool
  pub switch_on : Bool
  pub load_power_trusted : Bool
  pub sunrise_trusted : Bool
  pub control_mode : Observed
  pub persistent_helper : Bool
  pub remote_ems_control : Observed
  pub data_max_age : ℤ
  pub load_available : Bool
  pub load_fresh : Bool
  pub load_stamp : Number
  pub load_value : Number
  pub load_kw : ℤ
  pub sunrise : Number

-- The automation owns the battery, and the load and the sunrise are trusted.
unfoldable pub is_owner : Inputs → Bool
is_owner i =
    i.live_snapshot
    && (not i.manual_mode_override
        && (i.mode_observed
            && (i.mode_automated
                && (i.ha_control_enabled
                    && (i.switch_available
                        && (i.switch_on && (i.load_power_trusted && i.sunrise_trusted)))))))

abbrev dated : Option ℤ → Bool → ℤ → ℤ → Bool
dated none persistent max_age now = false
dated (some stamp) persistent max_age now =
    leb_ℤ (pos 0) (now -ℤ stamp) && (persistent || leb_ℤ (now -ℤ stamp) max_age)

-- One round of the loop over the control mode and the remote control.
unfoldable pub is_proven : Observed → Bool → ℤ → ℤ → Bool
is_proven o persistent max_age now =
    o.available && (o.fresh && (o.expected && dated o.observed_at_ts persistent max_age now))

abbrev distance : ℤ → ℤ → ℤ
distance a b = if ltb_ℤ a b then b -ℤ a else a -ℤ b

-- `math.isclose(a, b, rel_tol=1e-9, abs_tol=1e-9)` on millionths, times 10 ^ 9.
unfoldable pub is_close : ℤ → ℤ → Bool
is_close a b =
    leb (pos_part (distance a b) * 1_000_000_000)
      (max (max (pos_part a + neg_part a) (pos_part b + neg_part b)) 1_000_000)

abbrev report : Bool → ℤ → Option ℤ → Option ℤ → Option ℤ → ℤ → Option ℤ
report usable load_kw (some stamp) (some value) (some sunrise) now =
    if usable
      && (leb_ℤ (pos 0) value
          && (ltb_ℤ now sunrise
              && (is_close value load_kw
                  && (leb_ℤ (pos 0) (now -ℤ stamp)
                      && leb_ℤ (now -ℤ stamp) max_report_gap_seconds))))
    then some stamp
    else none
report usable load_kw _ _ _ now = none

unfoldable pub evidence : Inputs → ℤ → Option ℤ
unfolding is_owner is_proven is_close
evidence i now =
    if is_owner i
      && (is_proven i.control_mode i.persistent_helper i.data_max_age now
          && is_proven i.remote_ems_control false i.data_max_age now)
    then report (i.load_available && i.load_fresh) i.load_kw (finite? i.load_stamp)
        (finite? i.load_value) (finite? i.sunrise) now
    else none
