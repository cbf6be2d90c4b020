-- ===== src/SolarReentry/State.antt =====
-- app/solar_reentry.py: the fields of `SolarReentryGuard`, and its checks of reports and clocks.
-- Times are in millionths of a second; the caller's context is a value of any type with a test.
use sigenergy_optimizer.Prelude.{
  ℕ, Bool, true, false, ◌&&◌, ◌||◌, Option, none, some, if◌then◌else◌,
}
use sigenergy_optimizer.Prelude.Int.{ℤ, pos, ◌-ℤ◌, ltb_ℤ, leb_ℤ, Number, finite?, units}

abbrev pub qualification_seconds : ℤ
qualification_seconds = units 30

abbrev pub max_report_gap_seconds : ℤ
max_report_gap_seconds = units 60

pub data Phase : Type 0 where
  idle closed qualifying qualified : Phase

pub data Reason : Type 0 where
  initial_admission_unchanged clock_invalid clock_regressed context_changed candidate_failed :
      Reason
  reports_missing_invalid_future_or_stale report_regressed advancing_report_gap : Reason
  fresh_report_interval_qualified qualifying_fresh_reports waiting_for_new_reports : Reason
  qualified_application_committed : Reason
  -- the cause that a caller hands to `arm` or `reset`
  caller : ℕ → Reason

-- One stamp for each source stream, as Python's pair (pv, load).
pub record Stamps : Type 0 where
  pub pv : ℤ
  pub load : ℤ

pub record Clock : Type 0 where
  pub ts : ℤ
  pub mono : ℤ

-- What a caller hands over, before any check.
pub record Reading (K : Type 0) : Type 0 where
  pub reports : Option (Number × Number)
  pub now_ts : Number
  pub now_mono : Number
  pub context : K

pub record Guard (K : Type 0) : Type 0 where
  pub required : Bool
  pub generation : ℕ
  pub phase : Phase
  pub reason : Reason
  pub reports : Option Stamps
  pub context : Option K
  pub first_reports : Option Stamps
  pub started_monotonic : Option ℤ
  pub last_advance_monotonic : Option Stamps
  pub last_clock : Option Clock
  pub identity_context : Option K
  pub report_high_water : Option Stamps

abbrev pub fresh_guard : {K : Type 0} → Guard K
fresh_guard = record {
  required = false;
  generation = 0;
  phase = idle;
  reason = initial_admission_unchanged;
  reports = none;
  context = none;
  first_reports = none;
  started_monotonic = none;
  last_advance_monotonic = none;
  last_clock = none;
  identity_context = none;
  report_high_water = none;
}

-- `0.0 <= now - stamp <= limit`
abbrev pub within : ℤ → ℤ → ℤ → Bool
within limit now stamp = leb_ℤ (pos 0) (now -ℤ stamp) && leb_ℤ (now -ℤ stamp) limit

abbrev pub stamps_within : ℤ → Stamps → Bool
stamps_within now s =
    within max_report_gap_seconds now s.pv && within max_report_gap_seconds now s.load

-- Both stamps as finite numbers, where they are.
abbrev pub both_finite : Option ℤ → Option ℤ → Option Stamps
both_finite (some p) (some l) = some (record { pv = p; load = l })
both_finite _ _ = none

abbrev pub if_fresh : ℤ → Option Stamps → Option Stamps
if_fresh now none = none
if_fresh now (some s) = if stamps_within now s then some s else none

-- `_reports_fresh`, with the reports that it accepts.
unfoldable pub reports_fresh : Option (Number × Number) → ℤ → Option Stamps
reports_fresh none now = none
reports_fresh (some (p, l)) now = if_fresh now (both_finite (finite? p) (finite? l))

-- `any(new < old for ...)` against the high-water mark, if there is one.
abbrev pub regressed_from : Option Stamps → Stamps → Bool
regressed_from none r = false
regressed_from (some h) r = ltb_ℤ r.pv h.pv || ltb_ℤ r.load h.load

abbrev pub clock_before : Option Clock → ℤ → ℤ → Bool
clock_before none ts mono = false
clock_before (some c) ts mono = ltb_ℤ ts c.ts || ltb_ℤ mono c.mono

-- A stream's new report, or its last advance, lies further back than the allowed gap.
abbrev pub stream_gap : ℤ → ℤ → ℤ → ℤ → Bool
stream_gap new old mono advanced_at =
    ltb_ℤ max_report_gap_seconds (new -ℤ old) || ltb_ℤ max_report_gap_seconds (mono -ℤ advanced_at)

abbrev pub spans : ℤ → ℤ → Bool
spans latest first = leb_ℤ qualification_seconds (latest -ℤ first)

-- `latest - first >= 30` in both streams.
abbrev pub both_span : Stamps → Stamps → Bool
both_span latest first = spans latest.pv first.pv && spans latest.load first.load

abbrev pub is_qualified : Phase → Bool
is_qualified qualified = true
is_qualified _ = false

abbrev pub same_stamps : Option Stamps → Option Stamps → Bool
same_stamps (some a) (some b) =
    leb_ℤ a.pv b.pv && leb_ℤ b.pv a.pv && (leb_ℤ a.load b.load && leb_ℤ b.load a.load)
same_stamps none none = true
same_stamps _ _ = false

abbrev pub clock_held : Option Clock → ℤ → ℤ → Bool
clock_held none ts mono = false
clock_held (some c) ts mono = leb_ℤ c.ts ts && leb_ℤ c.mono mono

abbrev pub advanced_recently : Option Stamps → ℤ → Bool
advanced_recently none mono = false
advanced_recently (some at) mono =
    within max_report_gap_seconds mono at.pv && within max_report_gap_seconds mono at.load
