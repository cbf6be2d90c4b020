-- ===== src/Earnings/Day.antt =====
-- app/earnings.py: the summaries of a day, and the tests that accept one. A civil day is its number;
-- `Calendar` is what the code takes from `datetime` in the house's time zone.
use sigenergy_optimizer.Prelude.{
  ℕ, ◌+◌, ◌*◌, String, str_eq, Bool, false, not, ◌&&◌, ◌||◌, Option, none, some, List, [], ◌∷◌, leb,
  ◌==◌, if◌then◌else◌,
}
use sigenergy_optimizer.Prelude.Int.{ℤ, pos, pos_part, neg_part, ◌-ℤ◌, ◌+ℤ◌, ltb_ℤ, leb_ℤ, units}
use sigenergy_optimizer.Prelude.Decimal.{round_ℤ}
use sigenergy_optimizer.Earnings.Series.{
  Row, Readers, abs_ℤ, latest_numeric_in_window, cumulative_delta, cumulative_credit_delta,
}

pub record EarningsSource : Type 0 where
  pub key : String
  pub label : String
  pub mode : String
  pub import_energy_entity : String
  pub export_energy_entity : String
  pub import_value_entity : String
  pub export_value_entity : String

pub record Summary : Type 0 where
  pub date : ℤ
  pub source_key : String
  pub source_label : String
  pub is_estimated : Bool
  pub total_import_kwh : ℤ
  pub total_export_kwh : ℤ
  pub import_costs : ℤ
  pub export_earnings : ℤ
  pub net : ℤ

pub record Calendar : Type 0 where
  pub midnight : ℤ → ℤ
  pub day_of_month : ℤ → ℕ

-- A history by entity; a later entry of an entity replaces an earlier one.
abbrev pub ByEntity : Type 0
ByEntity = List (String × List Row)

abbrev pub rows_of : String → ByEntity → List Row
rows_of k [] = []
rows_of k ((j, rows) ∷ b) = if str_eq j k then rows else rows_of k b

unfoldable pub preferred_auto_source_keys : ℤ → ℤ → List String
preferred_auto_source_keys day today =
    if ltb_ℤ today day
    then "estimated" ∷ []
    else if leb_ℤ day today && leb_ℤ today day
    then "sigenergy_daily" ∷ "estimated" ∷ "amber_balance" ∷ []
    else "amber_balance" ∷ "sigenergy_daily" ∷ "estimated" ∷ []

unfoldable pub amber_requires_month_boundary_fallback : Calendar → ℤ → Bool
amber_requires_month_boundary_fallback c day =
    c.day_of_month day == 1 || c.day_of_month (day +ℤ pos 1) == 1

unfoldable pub normalize_daily_summary : ℤ → EarningsSource → ℤ → ℤ → ℤ → ℤ → Summary
unfolding round_ℤ
normalize_daily_summary day source import_kwh export_kwh import_costs export_earnings = record {
  date = day;
  source_key = source.key;
  source_label = source.label;
  is_estimated = str_eq source.key "estimated";
  total_import_kwh = round_ℤ 1_000 import_kwh;
  total_export_kwh = round_ℤ 1_000 export_kwh;
  import_costs = round_ℤ 100 import_costs;
  export_earnings = round_ℤ 100 export_earnings;
  net = round_ℤ 100 (export_earnings -ℤ import_costs);
}

-- `value or 0.0`
abbrev pub or_zero : Option ℤ → ℤ
or_zero none = pos 0
or_zero (some a) = a

-- The summary of four readings, unless all are missing.
abbrev pub summary_of :
    ℤ → EarningsSource → Option ℤ → Option ℤ → Option ℤ → Option ℤ → Option Summary
summary_of day source none none none none = none
summary_of day source a b c d =
    some (normalize_daily_summary day source (or_zero a) (or_zero b) (or_zero c) (or_zero d))

abbrev pub redated : ℤ → Option Summary → Option Summary
redated day none = none
redated day (some s) = some (record s { date = day })

-- A lagged day's earnings count as positive.
abbrev pub credited : ℤ → Option Summary → Option Summary
credited day none = none
credited day (some s) = some (record s {
  date = day;
  export_earnings = round_ℤ 100 (abs_ℤ s.export_earnings);
  net = round_ℤ 100 (round_ℤ 100 (abs_ℤ s.export_earnings) -ℤ s.import_costs);
})

module _ (r : Readers) (c : Calendar) where
  unfoldable pub summarize_daily_source : EarningsSource → ℤ → ByEntity → Option Summary
  unfolding normalize_daily_summary
  summarize_daily_source source day by =
      let start = c.midnight day in
      let end = c.midnight (day +ℤ pos 1) in
      summary_of day source
        (latest_numeric_in_window r (rows_of source.import_energy_entity by) start end)
        (latest_numeric_in_window r (rows_of source.export_energy_entity by) start end)
        (latest_numeric_in_window r (rows_of source.import_value_entity by) start end)
        (latest_numeric_in_window r (rows_of source.export_value_entity by) start end)

  unfoldable pub summarize_lagged_daily_source : EarningsSource → ℤ → ByEntity → Option Summary
  unfolding summarize_daily_source round_ℤ
  summarize_lagged_daily_source source day by =
      credited day (summarize_daily_source source (day +ℤ pos 1) by)

  unfoldable pub summarize_cumulative_source : EarningsSource → ℤ → ByEntity → Option Summary
  unfolding normalize_daily_summary
  summarize_cumulative_source source day by =
      let earlier = c.midnight (day -ℤ pos 2) in
      let start = c.midnight day in
      let end = c.midnight (day +ℤ pos 1) in
      summary_of day source
        (cumulative_delta r (rows_of source.import_energy_entity by) earlier start end)
        (cumulative_delta r (rows_of source.export_energy_entity by) earlier start end)
        (cumulative_delta r (rows_of source.import_value_entity by) earlier start end)
        (cumulative_credit_delta r (rows_of source.export_value_entity by) earlier start end)

  unfoldable pub summarize_shifted_cumulative_source :
      EarningsSource → ℤ → ByEntity → Option Summary
  unfolding summarize_cumulative_source
  summarize_shifted_cumulative_source source day by =
      redated day (summarize_cumulative_source source (day +ℤ pos 1) by)

  -- `_summarize_cached`, by the source's mode.
  unfoldable pub summarize_cached : EarningsSource → ℤ → ByEntity → Option Summary
  unfolding summarize_daily_source summarize_lagged_daily_source summarize_cumulative_source
      summarize_shifted_cumulative_source amber_requires_month_boundary_fallback
  summarize_cached source day by =
      if str_eq source.mode "daily"
      then summarize_daily_source source day by
      else if str_eq source.mode "daily_lagged"
      then summarize_lagged_daily_source source day by
      else if str_eq source.mode "cumulative_shifted"
      then (if amber_requires_month_boundary_fallback c day
          then summarize_lagged_daily_source source day by
          else summarize_shifted_cumulative_source source day by)
      else summarize_cumulative_source source day by

abbrev pub not_negative : ℤ → Bool
not_negative a = leb_ℤ (pos 0) a

abbrev pub if_given : (Summary → Bool) → Option Summary → Bool
if_given test none = false
if_given test (some s) = test s

abbrev pub plausible : Summary → Bool
plausible s =
    not_negative s.total_import_kwh
    && (not_negative s.total_export_kwh
        && (not_negative s.import_costs
            && (not_negative s.export_earnings
                && (leb_ℤ s.total_import_kwh (units 200) && leb_ℤ s.total_export_kwh (units 200)))))

unfoldable pub is_plausible_summary : Option Summary → Bool
is_plausible_summary s = if_given plausible s

-- Every `source_key` is in lower case already.
abbrev pub is_estimated_summary : Summary → Bool
is_estimated_summary s = s.is_estimated || str_eq s.source_key "estimated"

-- `abs(amount / kwh) <= 5.0`, without the quotient.
unfoldable pub implied_rate_in_bounds : ℤ → ℤ → Bool
implied_rate_in_bounds amount kwh =
    not_negative kwh
    && (ltb_ℤ kwh (pos 50_000) || leb (pos_part amount + neg_part amount) (5 * pos_part kwh))

abbrev pub unit_price_sane : Summary → Bool
unit_price_sane s =
    not (is_estimated_summary s)
    || (implied_rate_in_bounds s.import_costs s.total_import_kwh
        && implied_rate_in_bounds s.export_earnings s.total_export_kwh)

unfoldable pub is_estimated_unit_price_sane : Option Summary → Bool
unfolding implied_rate_in_bounds
is_estimated_unit_price_sane s = if_given unit_price_sane s

abbrev pub relaxed : Summary → Bool
relaxed s =
    not (is_estimated_summary s)
    && (not_negative s.total_import_kwh
        && (not_negative s.total_export_kwh
            && (not_negative s.import_costs
                && (not_negative s.export_earnings
                    && (implied_rate_in_bounds s.import_costs s.total_import_kwh
                        && implied_rate_in_bounds s.export_earnings s.total_export_kwh)))))

unfoldable pub is_relaxed_ha_summary : Option Summary → Bool
unfolding implied_rate_in_bounds
is_relaxed_ha_summary s = if_given relaxed s

unfoldable pub is_acceptable_summary : Option Summary → Bool
unfolding is_plausible_summary is_estimated_unit_price_sane
is_acceptable_summary s = is_plausible_summary s && is_estimated_unit_price_sane s
