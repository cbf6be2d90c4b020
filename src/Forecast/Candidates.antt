-- ===== src/Forecast/Candidates.antt =====
-- app/forecast_utils.py: the lists of candidate names. A name that is `None` is `none`; a name that
-- is empty is passed over.
use Prim.Native.String.{◌++◌ as append}
use sigenergy_optimizer.Prelude.{
  listed, String, str_eq, ◌||◌, Option, none, some, List, [], ◌∷◌, ◌++◌, if◌then◌else◌,
}

-- `if name and name not in candidates: candidates.append(name)`
abbrev pub add_new : List String → String → List String
add_new found s = if str_eq s "" || listed s found then found else found ++ s ∷ []

-- The loop that keeps each name once.
unfoldable pub unique_from : List String → List String → List String
unique_from found [] = found
unique_from found (s ∷ ss) = unique_from (add_new found s) ss

-- A preferred name that is given, before the others.
abbrev pub preferring : Option String → List String → List String
preferring none ss = ss
preferring (some s) ss = s ∷ ss

unfoldable pub forecast_attr_candidates : Option String → List String
unfolding unique_from
forecast_attr_candidates preferred =
    unique_from []
      (preferring preferred ("detailedForecast" ∷ "forecasts" ∷ "forecast" ∷ "detailedHourly" ∷ []))

unfoldable pub forecast_time_candidates : Option String → List String
unfolding unique_from
forecast_time_candidates preferred =
    unique_from [] (preferring preferred ("start_time" ∷ "time" ∷ "nem_time" ∷ "period_start" ∷ []))

unfoldable pub forecast_value_candidates : Option String → List String
unfolding unique_from
forecast_value_candidates preferred =
    unique_from [] (preferring preferred ("per_kwh" ∷ "value" ∷ []))

-- The text before the suffix "_detailed", if it has that suffix.
unfoldable pub strip_detailed : String → Option String
strip_detailed String.[] = none
strip_detailed (String.◌∷◌ c s) =
    let rest = strip_detailed s in
    if str_eq (String.◌∷◌ c s) "_detailed"
    then some ""
    else elim rest [ none ↦ none | some t ↦ some (String.◌∷◌ c t) ]

abbrev pub derived : Option String → Option String
derived none = none
derived (some s) = strip_detailed s

unfoldable pub primary_entity_from_detailed : Option String → Option String
unfolding strip_detailed
primary_entity_from_detailed entity = derived entity

-- `f"{primary_entity}_detailed"`, where there is a primary entity.
abbrev pub detailed : Option String → List String
detailed none = []
detailed (some s) = if str_eq s "" then [] else append s "_detailed" ∷ []

abbrev pub named : Option String → List String
named none = []
named (some s) = s ∷ []

unfoldable pub forecast_entity_candidates : Option String → Option String → List String
unfolding unique_from primary_entity_from_detailed
forecast_entity_candidates primary explicit = unique_from [] (
    detailed primary
    ++ (named explicit ++ (named (primary_entity_from_detailed explicit) ++ named primary)))
