-- ===== src/MscSettlement/Objects.antt =====
-- app/msc_settlement_evidence.py: `_safe_object` and `_timestamp_reason_flags`. A dict is the list of
-- its entries, each key once; a key that is not a text is `none`. An object of another type than
-- `dict` is `none`.
use sigenergy_optimizer.Prelude.{
  listed, String, str_eq, Bool, true, false, not, ◌&&◌, ◌||◌, Option, none, some, List, [], ◌∷◌,
  ◌++◌, if◌then◌else◌, is_none,
}
use sigenergy_optimizer.Prelude.Int.{ℤ, ltb_ℤ}
use sigenergy_optimizer.MscSettlement.Values.{
  allowed_outcomes, allowed_metadata_statuses, stamp_fields, allowed_observation_fields, Value,
  nothing, boolean, text, Stamp, Scalar, Parsers, aware_datetime, timestamp, scalar,
}

abbrev pub Dict : Type 0
Dict = List (Option String × Value)

abbrev pub has_key : Option String → String → Bool
has_key none k = false
has_key (some j) k = str_eq j k

-- `dict.get`, where a missing key is `none`.
abbrev pub lookup : String → Dict → Option Value
lookup k [] = none
lookup k ((j, v) ∷ d) = if has_key j k then some v else lookup k d

-- A stored field of an observed object.
pub data Field : Type 0 where
  stamped : String → Stamp → Field
  valued : String → Scalar → Field
  metadata_status : String → Field

pub data Flag : Type 0 where
  future invalid_timestamp : Flag

pub data Outcome : Type 0 where
  known : Bool → Outcome
  named : String → Outcome

unfoldable pub outcome_of : Value → Option Outcome
outcome_of (boolean b) = some (known b)
outcome_of (text s) = if listed s allowed_outcomes then some (named s) else none
outcome_of _ = none

abbrev pub is_metadata : String → Bool
is_metadata k = str_eq k "metadata_status" || str_eq k "_msc_metadata_status"

abbrev pub stamp_field : String → Option Stamp → List Field
stamp_field k none = []
stamp_field k (some s) = stamped k s ∷ []

abbrev pub value_field : String → Option Scalar → List Field
value_field k none = []
value_field k (some s) = valued k s ∷ []

-- The metadata status of `dict.get(value, metadata_key)`.
abbrev pub status_field : Option Value → List Field
status_field (some (text s)) =
    if listed s allowed_metadata_statuses then metadata_status s ∷ [] else []
status_field _ = []

-- `"_msc_metadata_status" if "_msc_metadata_status" in value else "metadata_status"`
abbrev pub status_value : Option Value → Option Value → Option Value
status_value (some v) w = some v
status_value none w = w

abbrev said : Flag → Flag → Bool
said future future = true
said invalid_timestamp invalid_timestamp = true
said _ _ = false

abbrev raised : Flag → List Flag → Bool
raised f [] = false
raised f (g ∷ fs) = said f g || raised f fs

abbrev add_flag : Flag → List Flag → List Flag
add_flag f fs = if raised f fs then fs else fs ++ f ∷ []

abbrev reason_flag : Value → List Flag
reason_flag (text s) =
    if str_eq s "future"
    then future ∷ []
    else if str_eq s "invalid_timestamp"
    then invalid_timestamp ∷ []
    else []
reason_flag _ = []

abbrev is_nothing : Value → Bool
is_nothing nothing = true
is_nothing _ = false

abbrev ahead : ℤ → Option ℤ → Bool
ahead t none = false
ahead t (some now) = ltb_ℤ now t

-- The flag of one dated field.
abbrev field_flags : Option ℤ → Option ℤ → List Flag → List Flag
field_flags now none fs = add_flag invalid_timestamp fs
field_flags now (some t) fs = if ahead t now then add_flag future fs else fs

abbrev names_invalid : Option Value → Bool
names_invalid (some (text s)) = str_eq s "invalid_timestamp"
names_invalid _ = false

module _ (p : Parsers) where
  abbrev pub item_field : Option String → Value → List Field
  item_field none v = []
  item_field (some k) v =
      if listed k allowed_observation_fields
      then (if listed k stamp_fields
          then stamp_field k (timestamp p v)
          else if is_metadata k
          then []
          else value_field k (scalar p v))
      else []

  abbrev pub item_fields : Dict → List Field
  item_fields [] = []
  item_fields ((k, v) ∷ d) = item_field k v ++ item_fields d

  unfoldable pub safe_object : Option Dict → List Field
  safe_object none = []
  safe_object (some d) =
      item_fields d
      ++ status_field (status_value (lookup "_msc_metadata_status" d) (lookup "metadata_status" d))

  abbrev unreadable : Value → Bool
  unreadable v = not (is_nothing v) && is_none (timestamp p v)

  abbrev dated : Option ℤ → Option Value → List Flag → List Flag
  dated now none fs = fs
  dated now (some nothing) fs = fs
  dated now (some v) fs = field_flags now (aware_datetime p v) fs

  -- `for key in ("last_reported", ...)`
  abbrev dated_fields : Option ℤ → List String → Dict → List Flag → List Flag
  dated_fields now [] d fs = fs
  dated_fields now (k ∷ ks) d fs = dated_fields now ks d (dated now (lookup k d) fs)

  abbrev object_flags : Option Dict → Option ℤ → List Flag → List Flag
  object_flags none now fs = fs
  object_flags (some d) now fs =
      let fs' = dated_fields now stamp_fields d fs in
      if names_invalid (status_value (lookup "_msc_metadata_status" d) (lookup "metadata_status" d))
      then add_flag invalid_timestamp fs'
      else fs'

  unfoldable pub timestamp_reason_flags : Option Dict → Value → Value → Value → List Flag
  timestamp_reason_flags obj boundary observed_at reason =
      object_flags obj (aware_datetime p observed_at) (
        if unreadable boundary || unreadable observed_at
        then add_flag invalid_timestamp (reason_flag reason)
        else reason_flag reason)
