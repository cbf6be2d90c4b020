-- ===== src/Forecast.antt =====
-- app/forecast_utils.py: the choice of forecast entries among entities and attributes. An
-- `OverflowError`, which the code lets through, is `none` in a result.
pub mod Candidates
pub mod Points
pub mod Best
pub mod Unique
pub mod Tests
use sigenergy_optimizer.Prelude.{
  listed, ℕ, ◌+◌, String, str_eq, Bool, true, false, not, ◌&&◌, ◌||◌, Option, none, some, List, [],
  ◌∷◌, ◌++◌, length, ltb, ◌==◌, if◌then◌else◌, is_some,
}
use Candidates.{
  forecast_attr_candidates, forecast_time_candidates, forecast_value_candidates,
  forecast_entity_candidates, strip_detailed,
}
use Points.{Entry, Readers, forecast_entry_time, forecast_entry_value, entry_is_valid}

-- The value of an attribute: a list, or something else.
pub data Attribute : Type 0 where
  entries : List Entry → Attribute
  not_a_list : Attribute

-- An entity's object; `state` is `str(obj.get("state", ""))`.
pub record Object : Type 0 where
  pub attributes : List (String × Attribute)
  pub state : String

pub record Attempt : Type 0 where
  pub entity : String
  pub attribute : String
  pub entries : ℕ
  pub valid_points : ℕ

-- The variables of the search, with the diagnostics that it fills. A `best_score` of -1 is `none`.
pub record Search : Type 0 where
  pub best_entries : List Entry
  pub best_score : Option ℕ
  pub missing_entities : List String
  pub unavailable_entities : List String
  pub attempts : List Attempt
  pub selected_entity : Option String
  pub selected_attribute : Option String
  pub valid_points : ℕ

pub record Diagnostics : Type 0 where
  pub entities_tried : List String
  pub attributes_tried : List String
  pub time_keys_tried : List String
  pub value_keys_tried : List String
  pub search : Search
  pub failed : Bool

abbrev pub empty_search : Search
empty_search = record {
  best_entries = [];
  best_score = none;
  missing_entities = [];
  unavailable_entities = [];
  attempts = [];
  selected_entity = none;
  selected_attribute = none;
  valid_points = 0;
}

-- What the caller asks for.
pub record Wanted : Type 0 where
  pub primary_entity : Option String
  pub explicit_entity : Option String
  pub preferred_attr : Option String
  pub preferred_time_key : Option String
  pub preferred_value_key : Option String

-- A dict's `get`. In `bulk` an object that is missing or false is `none`.
abbrev pub attribute_of : String → List (String × Attribute) → Attribute
attribute_of k [] = not_a_list
attribute_of k ((j, a) ∷ as') = if str_eq j k then a else attribute_of k as'

abbrev pub object_of : String → List (String × Option Object) → Option Object
object_of k [] = none
object_of k ((j, o) ∷ os) = if str_eq j k then o else object_of k os

abbrev pub is_filled : Attribute → Bool
is_filled (entries (e ∷ es)) = true
is_filled _ = false

-- `_has_forecast_attribute`
unfoldable pub has_forecast_attribute : List (String × Attribute) → List String → Bool
has_forecast_attribute attrs [] = false
has_forecast_attribute attrs (k ∷ ks) =
    is_filled (attribute_of k attrs) || has_forecast_attribute attrs ks

abbrev pub unavailable_states : List String
unavailable_states = "unknown" ∷ "unavailable" ∷ "none" ∷ "" ∷ []

abbrev pub same : String → Option String → Bool
same s none = false
same s (some t) = str_eq s t

-- The score of an entity and an attribute, before its valid points.
unfoldable pub rank : Wanted → String → String → ℕ
unfolding strip_detailed
rank w entity attr =
    (if is_some (strip_detailed entity) then 1000 else 0)
    + (if same entity w.explicit_entity then 100 else 0)
    + (if same attr w.preferred_attr then 10 else 0)

abbrev pub beats : ℕ → Option ℕ → Bool
beats score none = true
beats score (some best) = ltb best score

module _ (r : Readers) (w : Wanted) where
  -- `for entry in entries` of the points.
  unfoldable pub count_valid : List Entry → Option ℕ
  unfolding entry_is_valid
  count_valid [] = some 0
  count_valid (e ∷ es) =
      let rest = count_valid es in
      elim (entry_is_valid r w.preferred_time_key w.preferred_value_key e) [
        | none ↦ none
        | some valid ↦ elim rest [ none ↦ none | some n ↦ some ((if valid then 1 else 0) + n) ]
      ]

  abbrev pub tried : String → String → List Entry → ℕ → Search → Search
  tried entity attr es points s = record s {
    attempts =
        s.attempts
        ++ record { entity = entity; attribute = attr; entries = length es; valid_points = points }
          ∷ [];
  }

  abbrev pub won : String → String → List Entry → ℕ → Search → Search
  won entity attr es points s = record (tried entity attr es points s) {
    best_entries = es;
    best_score = some (rank w entity attr + points);
    selected_entity = some entity;
    selected_attribute = some attr;
    valid_points = points;
  }

  unfoldable pub consider : String → String → List Entry → ℕ → Search → Search
  unfolding rank
  consider entity attr es points s =
      if not (points == 0) && beats (rank w entity attr + points) s.best_score
      then won entity attr es points s
      else tried entity attr es points s

  abbrev pub counted : String → String → List Entry → Option ℕ → Search → Option Search
  counted entity attr es none s = none
  counted entity attr es (some points) s = some (consider entity attr es points s)

  abbrev pub try_attribute : String → String → Attribute → Search → Option Search
  try_attribute entity attr (entries (e ∷ es)) s =
      counted entity attr (e ∷ es) (count_valid (e ∷ es)) s
  try_attribute entity attr _ s = some (record s {
    attempts =
        s.attempts
        ++ record { entity = entity; attribute = attr; entries = 0; valid_points = 0 } ∷ [];
  })

  abbrev pub and_then : Option Search → (Search → Option Search) → Option Search
  and_then none f = none
  and_then (some s) f = f s

  unfoldable pub try_attributes :
      String → List (String × Attribute) → List String → Search → Option Search
  unfolding count_valid consider
  try_attributes entity attrs [] s = some s
  try_attributes entity attrs (k ∷ ks) s =
      and_then (try_attribute entity k (attribute_of k attrs) s) (try_attributes entity attrs ks)

  abbrev pub try_entity : String → Option Object → Search → Option Search
  try_entity entity none s =
      some (record s { missing_entities = s.missing_entities ++ entity ∷ [] })
  try_entity entity (some o) s =
      if listed (r.lower o.state) unavailable_states
        && not (has_forecast_attribute o.attributes (forecast_attr_candidates w.preferred_attr))
      then some (record s { unavailable_entities = s.unavailable_entities ++ entity ∷ [] })
      else try_attributes entity o.attributes (forecast_attr_candidates w.preferred_attr) s

  unfoldable pub try_entities : List (String × Option Object) → List String → Search → Option Search
  unfolding try_attributes has_forecast_attribute
  try_entities bulk [] s = some s
  try_entities bulk (e ∷ es) s = and_then (try_entity e (object_of e bulk) s) (try_entities bulk es)

  abbrev pub is_empty : List Entry → Bool
  is_empty [] = true
  is_empty (e ∷ es) = false

  abbrev pub report : Search → List Entry × Diagnostics
  report s = (
    s.best_entries,
    record {
      entities_tried = forecast_entity_candidates w.primary_entity w.explicit_entity;
      attributes_tried = forecast_attr_candidates w.preferred_attr;
      time_keys_tried = forecast_time_candidates w.preferred_time_key;
      value_keys_tried = forecast_value_candidates w.preferred_value_key;
      search = s;
      failed = is_empty s.best_entries;
    },
  )

  abbrev pub reported : Option Search → Option (List Entry × Diagnostics)
  reported none = none
  reported (some s) = some (report s)

  unfoldable pub extract_forecast_entries :
      List (String × Option Object) → Option (List Entry × Diagnostics)
  unfolding try_entities
  extract_forecast_entries bulk = reported (
      try_entities bulk (forecast_entity_candidates w.primary_entity w.explicit_entity)
        empty_search)
