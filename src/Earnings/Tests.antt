-- ===== src/Earnings/Tests.antt =====
-- Runs of app/earnings.py: the rises of a counter, and the summary of a day of one source.
use sigenergy_optimizer.Prelude.{
  ◌≡◌, refl, String, str_eq, true, Option, none, some, List, [], ◌∷◌, if◌then◌else◌, arith,
}
use sigenergy_optimizer.Prelude.Int.{ℤ, pos, pos_part, ◌≤ℤ◌, ◌+ℤ◌, ◌-ℤ◌}
use sigenergy_optimizer.Earnings.Series.{
  Readers, Row, cumulative_delta, last_numeric_before, latest_numeric_in_window,
}
use sigenergy_optimizer.Earnings.Day.{EarningsSource, Calendar}
use sigenergy_optimizer.Earnings.Sources.{Settings, Stage, Answers, Amounts}
use sigenergy_optimizer.Earnings.{daily_summary}
use sigenergy_optimizer.Earnings.Counter.{cumulative_delta-adds_up, readings}
use sigenergy_optimizer.Earnings.Sound.{IsSound, daily_summary-IsSound}

-- Readers that know a few texts.
abbrev lookup : String → List (String × ℤ) → Option ℤ
lookup s [] = none
lookup s ((t, v) ∷ more) = if str_eq s t then some v else lookup s more

abbrev readers : Readers
readers = record {
  strip = λ s. s;
  lower = λ s. s;
  from_iso =
      λ s. lookup s (("one+00:00", pos 10) ∷ ("two+00:00", pos 20) ∷ ("three+00:00", pos 30) ∷ []);
  to_float =
      λ s. lookup s (("5.0", pos 5_000_000) ∷ ("7.5", pos 7_500_000) ∷ ("9.0", pos 9_000_000) ∷ []);
}

abbrev row : String → String → Row
row at value = record {
  entity_id = some "sensor.grid";
  last_updated = some at;
  last_changed = none;
  state = some value;
}

-- A counter with a gap.
abbrev counter : List Row
counter =
    row "one+00:00" "5.0"
    ∷ row "two+00:00" "unavailable"
    ∷ row "two+00:00" "7.5"
    ∷ row "three+00:00" "9.0"
    ∷ []

rises : cumulative_delta readers counter (pos 0) (pos 15) (pos 25) ≡ some (pos 2_500_000)
unfolding cumulative_delta ◌-ℤ◌
rises = refl

rise_from : last_numeric_before readers counter (pos 15) ≡ some (pos 5_000_000)
unfolding last_numeric_before
rise_from = refl

abbrev house : Calendar
house = record { midnight = λ d. d; day_of_month = λ d. pos_part d }

abbrev sensors : String → EarningsSource
sensors s = record {
  key = "";
  label = "";
  mode = "";
  import_energy_entity = s;
  export_energy_entity = s;
  import_value_entity = s;
  export_value_entity = s;
}

abbrev cfg : Settings
cfg = record {
  source_pref = "auto";
  custom_mode = "cumulative";
  import_energy_entity = "";
  export_energy_entity = "";
  import_value_entity = "";
  export_value_entity = "";
  sigenergy_daily = sensors "sensor.day";
  amber_balance = sensors "";
}

-- Each of the day's sensors reads five.
abbrev five : Stage → String → String → Option Row
five stage k e = some (row "one+00:00" "5.0")

abbrev nothing : Amounts
nothing = record {
  import_kwh = pos 0;
  export_kwh = pos 0;
  import_costs = pos 0;
  export_earnings = pos 0;
  net = pos 0;
}

abbrev answers : Answers
answers = record { states = five; history = λ es a b. []; sampled = λ d. nothing }

today_is_measured :
    (daily_summary readers house cfg answers (pos 14) (pos 14)).import_costs ≡ pos 5_000_000
unfolding daily_summary
today_is_measured = refl

yesterday_is_estimated :
    (daily_summary readers house cfg answers (pos 13) (pos 14)).is_estimated ≡ true
unfolding daily_summary latest_numeric_in_window
yesterday_is_estimated = refl

daily_summary-IsSound_example :
    IsSound (pos 14) (daily_summary readers house cfg answers (pos 14) (pos 14))
daily_summary-IsSound_example = daily_summary-IsSound readers house cfg answers (pos 14) (pos 14)

cumulative_delta-adds_up_example :
    (first second : ℤ) × (cumulative_delta readers counter (pos 0) (pos 15) (pos 25) ≡ some first)
    × (cumulative_delta readers counter (pos 0) (pos 25) (pos 35) ≡ some second)
    × (cumulative_delta readers counter (pos 0) (pos 15) (pos 35) ≡ some (first +ℤ second))
    × (pos 0 ≤ℤ first)
    × (pos 0 ≤ℤ second)
unfolding last_numeric_before readings
cumulative_delta-adds_up_example =
    cumulative_delta-adds_up readers counter (pos 5_000_000) (pos 0) (pos 0) (pos 15) (pos 25)
      (pos 35) (omega arith, omega arith, (omega arith, omega arith, _)) (omega arith) (omega arith)
      refl
