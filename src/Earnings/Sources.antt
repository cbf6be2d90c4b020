-- ===== src/Earnings/Sources.antt =====
-- app/earnings.py: the sources of a summary, what Home Assistant and the store answer, and the series of
-- a history by entity.
use sigenergy_optimizer.Prelude.{
  listed, String, str_eq, Bool, true, not, ◌&&◌, ◌||◌, Option, none, some, List, [], ◌∷◌, ◌++◌,
  if◌then◌else◌,
}
use sigenergy_optimizer.Prelude.Int.{ℤ, pos}
use sigenergy_optimizer.Earnings.Series.{Row}
use sigenergy_optimizer.Earnings.Day.{EarningsSource, Summary, ByEntity}

-- The settings that the service reads; `source_pref` is `earnings_source`, stripped, in lower case,
-- and "auto" where it is empty.
pub record Settings : Type 0 where
  pub source_pref : String
  pub custom_mode : String
  pub import_energy_entity : String
  pub export_energy_entity : String
  pub import_value_entity : String
  pub export_value_entity : String
  pub sigenergy_daily : EarningsSource
  pub amber_balance : EarningsSource

-- When a current state is asked for: to see what is available, for a preferred source, or for the
-- fallback.
pub data Stage : Type 0 where
  availability preference fallback : Stage

pub record Amounts : Type 0 where
  pub import_kwh : ℤ
  pub export_kwh : ℤ
  pub import_costs : ℤ
  pub export_earnings : ℤ
  pub net : ℤ

-- The answers of Home Assistant (`bulk_states`, by source and entity, and `get_history_period`) and
-- of the store (`daily_earnings_summary`).
pub record Answers : Type 0 where
  pub states : Stage → String → String → Option Row
  pub history : List String → ℤ → ℤ → List (Option (List (Option Row)))
  pub sampled : ℤ → Amounts

unfoldable pub estimated_source : EarningsSource
estimated_source = record {
  key = "estimated";
  label = "Estimated From Sampled Power";
  mode = "estimated";
  import_energy_entity = "";
  export_energy_entity = "";
  import_value_entity = "";
  export_value_entity = "";
}

abbrev pub given : String → Bool
given s = not (str_eq s "")

-- `sigenergy_daily` and `amber_balance` hold what the method spells out: their key, label and mode,
-- and their four entities of the settings.
unfoldable pub source_definitions : Settings → List EarningsSource
source_definitions cfg =
    (if given cfg.import_energy_entity
        && (given cfg.export_energy_entity
            && (given cfg.import_value_entity && given cfg.export_value_entity))
      then record {
        key = "custom";
        label = "Configured Earnings Sensors";
        mode = cfg.custom_mode;
        import_energy_entity = cfg.import_energy_entity;
        export_energy_entity = cfg.export_energy_entity;
        import_value_entity = cfg.import_value_entity;
        export_value_entity = cfg.export_value_entity;
      }
        ∷ []
      else [])
    ++ record cfg.sigenergy_daily {
      key = "sigenergy_daily";
      label = "Sigenergy Daily Totals";
      mode = "daily";
    }
      ∷ record cfg.amber_balance {
        key = "amber_balance";
        label = "Amber Balance";
        mode = "cumulative_shifted";
      }
      ∷ []

abbrev pub entities : EarningsSource → List String
entities s =
    s.import_energy_entity ∷ s.export_energy_entity ∷ s.import_value_entity ∷ s.export_value_entity
    ∷ []

abbrev pub find_source : String → List EarningsSource → Option EarningsSource
find_source k [] = none
find_source k (s ∷ ss) = if str_eq s.key k then some s else find_source k ss

-- The dicts of a series, and the entity that its first row with one names.
abbrev pub named_by : Option String → List (Option Row) → Option String
named_by found [] = found
named_by found (none ∷ rows) = named_by found rows
named_by found (some row ∷ rows) = elim row.entity_id [
  | none ↦ named_by found rows
  | some s ↦ if str_eq s "" then named_by found rows else some s
]

abbrev pub dicts : List (Option Row) → List Row
dicts [] = []
dicts (none ∷ rows) = dicts rows
dicts (some row ∷ rows) = row ∷ dicts rows

abbrev pub head_of : List String → Option String
head_of [] = none
head_of (s ∷ ss) = some s

abbrev pub tail_of : List String → List String
tail_of [] = []
tail_of (s ∷ ss) = ss

abbrev pub put : Option String → List Row → ByEntity → ByEntity
put none rows by = by
put (some s) rows by = if str_eq s "" then by else (s, rows) ∷ by

-- `_series_by_entity`; the entry put last is found first.
unfoldable pub series_from : ByEntity → List (Option (List (Option Row))) → List String → ByEntity
series_from by [] ids = by
series_from by (none ∷ more) ids = series_from by more (tail_of ids)
series_from by (some rows ∷ more) ids =
    series_from (put (named_by (head_of ids) rows) (dicts rows) by) more (tail_of ids)

unfoldable pub series_by_entity : List (Option (List (Option Row))) → List String → ByEntity
unfolding series_from
series_by_entity rows ids = series_from [] rows ids

abbrev pub annotated : ℤ → Amounts → Summary
annotated day a = record {
  date = day;
  source_key = "estimated";
  source_label = "Estimated From Sampled Power";
  is_estimated = true;
  total_import_kwh = a.import_kwh;
  total_export_kwh = a.export_kwh;
  import_costs = a.import_costs;
  export_earnings = a.export_earnings;
  net = a.net;
}

-- `_zero_estimated`
unfoldable pub zero_estimated : ℤ → Summary
zero_estimated day = annotated day (record {
  import_kwh = pos 0;
  export_kwh = pos 0;
  import_costs = pos 0;
  export_earnings = pos 0;
  net = pos 0;
})

abbrev pub one_of : String → String → String → Bool
one_of a b s = str_eq s a || str_eq s b

abbrev pub is_usable : Option EarningsSource → Option EarningsSource
is_usable none = none
is_usable (some s) = if str_eq s.mode "estimated" then none else some s

abbrev pub or_summary : Option Summary → Option Summary → Option Summary
or_summary none t = t
or_summary (some s) t = some s

abbrev pub without_estimated : List String → List String
without_estimated [] = []
without_estimated (k ∷ ks) =
    let rest = without_estimated ks in if str_eq k "estimated" then rest else k ∷ rest

abbrev pub with_others : List String → List EarningsSource → List String
with_others ks [] = ks
with_others ks (s ∷ ss) =
    with_others (if str_eq s.key "estimated" || listed s.key ks then ks else ks ++ s.key ∷ []) ss

abbrev pub or_zeros : ℤ → Option Summary → Summary
or_zeros day none = zero_estimated day
or_zeros day (some s) = s
