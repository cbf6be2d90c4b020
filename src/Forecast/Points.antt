-- ===== src/Forecast/Points.antt =====
-- app/forecast_utils.py: the time and the value of one forecast entry.
use sigenergy_optimizer.Prelude.{
  String, str_eq, Bool, true, false, Option, none, some, List, [], ◌∷◌, if◌then◌else◌, is_some,
}
use sigenergy_optimizer.Prelude.Int.{Number, finite, huge, other, units}
use sigenergy_optimizer.Forecast.Candidates.{forecast_time_candidates, forecast_value_candidates}

-- A value in an entry; `nothing` is `None`, and a number that is `other` is a value of another type.
pub data Item : Type 0 where
  nothing : Item
  text : String → Item
  boolean : Bool → Item
  number : Number → Item

abbrev pub Fields : Type 0
Fields = List (String × Item)

-- An entry that is not a dict is `none`.
abbrev pub Entry : Type 0
Entry = Option Fields

-- What Python reads from a text: its lower case, and `float`, which may raise `ValueError`.
pub record Readers : Type 0 where
  pub lower : String → String
  pub to_float : String → Option Number

-- `entry.get`; a missing key is `None`.
abbrev pub get : String → Fields → Item
get k [] = nothing
get k ((j, v) ∷ d) = if str_eq j k then v else get k d

-- `value not in (None, "")`
abbrev pub is_given : Item → Bool
is_given nothing = false
is_given (text s) = if str_eq s "" then false else true
is_given _ = true

abbrev pub first_given : List String → Fields → Option Item
first_given [] d = none
first_given (k ∷ ks) d = if is_given (get k d) then some (get k d) else first_given ks d

unfoldable pub forecast_entry_time : Option String → Entry → Option Item
unfolding forecast_time_candidates
forecast_entry_time preferred none = none
forecast_entry_time preferred (some d) = first_given (forecast_time_candidates preferred) d

module _ (r : Readers) where
  -- `float(value)` of a given value: `none` is a `TypeError` or a `ValueError`. An integer that is too
  -- large for a float raises what the function does not catch, and is not read here.
  abbrev pub float_of : Item → Option Number
  float_of (text s) = r.to_float s
  float_of (boolean b) = some (finite (if b then units 1 else units 0))
  float_of (number other) = none
  float_of (number x) = some x
  float_of nothing = none

  abbrev pub overflows : Item → Bool
  overflows (number huge) = true
  overflows _ = false

  -- The outer `none` is the `OverflowError`.
  abbrev pub first_value : List String → Fields → Option (Option Number)
  first_value [] d = some none
  first_value (k ∷ ks) d =
      let rest = first_value ks d in
      if is_given (get k d)
      then (if overflows (get k d)
          then none
          else elim (float_of (get k d)) [ none ↦ rest | some x ↦ some (some x) ])
      else rest

  unfoldable pub forecast_entry_value : Option String → Entry → Option (Option Number)
  unfolding forecast_value_candidates
  forecast_entry_value preferred none = some none
  forecast_entry_value preferred (some d) = first_value (forecast_value_candidates preferred) d

  abbrev pub has_value : Option (Option Number) → Option Bool
  has_value none = none
  has_value (some v) = some (is_some v)

  -- The two tests of an entry in `extract_forecast_entries`; the value is read only if there is a time.
  unfoldable pub entry_is_valid : Option String → Option String → Entry → Option Bool
  unfolding forecast_entry_time forecast_entry_value
  entry_is_valid time_key value_key e =
      if is_some (forecast_entry_time time_key e)
      then has_value (forecast_entry_value value_key e)
      else some false
