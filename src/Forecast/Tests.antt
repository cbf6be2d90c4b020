-- ===== src/Forecast/Tests.antt =====
-- Runs of app/forecast_utils.py at concrete objects, and its theorems at them.
use sigenergy_optimizer.Prelude.{◌≡◌, refl, String, Option, none, some, List, [], ◌∷◌}
use sigenergy_optimizer.Prelude.Int.{finite, units}
use sigenergy_optimizer.Forecast.Candidates.{forecast_entity_candidates, forecast_attr_candidates}
use sigenergy_optimizer.Forecast.Points.{Entry, Readers, text, number, entry_is_valid}
use sigenergy_optimizer.Forecast.{entries, not_a_list, Object, Wanted, extract_forecast_entries}
use sigenergy_optimizer.Forecast.Best.{offers, Answers, extract_forecast_entries-Answers}

abbrev readers : Readers
readers = record { lower = λ s. s; to_float = λ s. some (finite (units 1)) }

abbrev wanted : Wanted
wanted = record {
  primary_entity = some "sensor.price";
  explicit_entity = some "sensor.other";
  preferred_attr = some "forecasts";
  preferred_time_key = none;
  preferred_value_key = some "";
}

abbrev point : Entry
point = some (("start_time", text "10:00") ∷ ("per_kwh", number (finite (units 2))) ∷ [])

abbrev bulk : List (String × Option Object)
bulk =
    (
      "sensor.price_detailed",
      some (record { attributes = ("forecasts", not_a_list) ∷ []; state = "unavailable" }),
    )
    ∷ (
      "sensor.other",
      some (record { attributes = ("forecast", entries (point ∷ none ∷ [])) ∷ []; state = "1.0" }),
    )
    ∷ []

candidates_in_order :
    forecast_entity_candidates (some "sensor.price") (some "sensor.other")
    ≡ "sensor.price_detailed" ∷ "sensor.other" ∷ "sensor.price" ∷ []
unfolding forecast_entity_candidates
candidates_in_order = refl

abbrev picked : Option (List Entry)
unfolding extract_forecast_entries forecast_entity_candidates forecast_attr_candidates
    entry_is_valid
picked = elim (extract_forecast_entries readers wanted bulk) [
  | none ↦ none
  | some (es, d) ↦ some es
]

other_is_picked : picked ≡ some (point ∷ none ∷ [])
unfolding picked
other_is_picked = refl

extract_forecast_entries-Answers_example :
    Answers
      (offers readers wanted bulk
        (forecast_entity_candidates (some "sensor.price") (some "sensor.other")))
      (extract_forecast_entries readers wanted bulk)
extract_forecast_entries-Answers_example = extract_forecast_entries-Answers readers wanted bulk
