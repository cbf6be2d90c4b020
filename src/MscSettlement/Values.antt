-- ===== src/MscSettlement/Values.antt =====
-- app/msc_settlement_evidence.py: the allow lists and the functions that let a value through them.
-- Python's parser of ISO texts is a parameter: it gives nothing where it raises, an instant for an
-- aware text, and `none` for a text without an offset. Instants are in microseconds.
use Prim.Native.Char.{code}
use Prim.Native.String.{count}
use sigenergy_optimizer.Prelude.{
  with_offset, listed, ℕ, ◌+◌, String, Bool, true, false, ◌&&◌, ◌||◌, Option, none, some, List, [],
  ◌∷◌, leb, ◌==◌, if◌then◌else◌,
}
use sigenergy_optimizer.Prelude.Int.{ℤ, pos_part, neg_part, Number, finite?}

abbrev pub allowed_labels : List String
allowed_labels = "export" ∷ "msc" ∷ []

abbrev pub allowed_phases : List String
allowed_phases = "primary" ∷ "fallback" ∷ "close" ∷ "maintenance" ∷ "msc" ∷ []

abbrev pub allowed_outcomes : List String
allowed_outcomes =
    "accepted" ∷ "rejected" ∷ "pending" ∷ "failed" ∷ "succeeded" ∷ "exception" ∷ "cancelled" ∷ []

abbrev pub allowed_statuses : List String
allowed_statuses =
    "succeeded" ∷ "failed" ∷ "pending" ∷ "exception" ∷ "cancelled" ∷ "unreported" ∷ []

abbrev pub allowed_reasons : List String
allowed_reasons =
    "missing" ∷ "unavailable" ∷ "metadata_conflict" ∷ "invalid_timestamp" ∷ "future" ∷ "stale"
    ∷ "pre_request" ∷ "equal_request" ∷ "state_mismatch" ∷ "target_mismatch" ∷ "accepted"
    ∷ "timeout" ∷ "read_failed" ∷ "unknown" ∷ "report_regression" ∷ "clock_regression" ∷ []

abbrev pub allowed_states : List String
allowed_states =
    "Maximum Self Consumption" ∷ "Command Discharging (PV First)"
    ∷ "Command Discharging (ESS First)" ∷ "Command Charging (PV First)"
    ∷ "Command Charging (Grid First)" ∷ "Automated" ∷ "Manual" ∷ "Force" ∷ "Unknown" ∷ "unknown"
    ∷ "unavailable" ∷ "none" ∷ "ON" ∷ "OFF" ∷ "on" ∷ "off" ∷ "true" ∷ "false" ∷ "enabled"
    ∷ "disabled" ∷ []

abbrev pub allowed_metadata_statuses : List String
allowed_metadata_statuses =
    "accepted" ∷ "missing" ∷ "metadata_conflict" ∷ "invalid_timestamp" ∷ "read_failed" ∷ []

abbrev pub stamp_fields : List String
stamp_fields = "last_reported" ∷ "last_updated" ∷ "last_changed" ∷ "timestamp" ∷ []

abbrev pub allowed_observation_fields : List String
allowed_observation_fields =
    "state" ∷ "value" ∷ "available" ∷ "last_reported" ∷ "last_updated" ∷ "last_changed"
    ∷ "timestamp" ∷ "metadata_status" ∷ "_msc_metadata_status" ∷ []

abbrev pub max_entries : ℕ
max_entries = 12

-- 1e15, in millionths.
abbrev pub max_abs_number : ℕ
max_abs_number = 1_000_000_000_000_000_000_000

-- What a caller may hand over. A `moment` is a `datetime`, naive where it has no instant; a value of
-- any other type, subclasses of these included, is `other`.
pub data Value : Type 0 where
  nothing other : Value
  boolean : Bool → Value
  number : Number → Value
  text : String → Value
  moment : Option ℤ → Value

-- A stored time: the ISO text of an instant, or seconds.
pub data Stamp : Type 0 where
  iso : ℤ → Stamp
  seconds : ℤ → Stamp

-- A stored state or target.
pub data Scalar : Type 0 where
  flag : Bool → Scalar
  amount : ℤ → Scalar
  state : String → Scalar

abbrev pub bounded : Option ℤ → Option ℤ
bounded none = none
bounded (some a) = if leb (pos_part a + neg_part a) max_abs_number then some a else none

-- `_finite_number`, with the number that it accepts.
unfoldable pub finite_number : Number → Option ℤ
finite_number x = bounded (finite? x)

-- `re.fullmatch(r"[+-]?(?:[0-9]+(?:\.[0-9]*)?|\.[0-9]+)(?:[eE][+-]?[0-9]+)?", value)`, as the
-- automaton of the expression.
pub data Seen : Type 0 where
  begun signed whole point fraction exponent exponent_sign exponent_digits refused : Seen

pub data Kind : Type 0 where
  digit sign dot mark stray : Kind

abbrev pub kind : ℕ → Kind
kind c =
    if leb b'0' c && leb c b'9'
    then digit
    else if c == b'+' || c == b'-'
    then sign
    else if c == b'.'
    then dot
    else if c == b'e' || c == b'E'
    then mark
    else stray

abbrev pub after : Seen → Kind → Seen
after begun digit = whole
after begun sign = signed
after begun dot = point
after signed digit = whole
after signed dot = point
after whole digit = whole
after whole dot = fraction
after whole mark = exponent
after point digit = fraction
after fraction digit = fraction
after fraction mark = exponent
after exponent digit = exponent_digits
after exponent sign = exponent_sign
after exponent_sign digit = exponent_digits
after exponent_digits digit = exponent_digits
after _ _ = refused

abbrev pub complete : Seen → Bool
complete whole = true
complete fraction = true
complete exponent_digits = true
complete _ = false

unfoldable pub decimal_from : Seen → String → Bool
decimal_from s String.[] = complete s
decimal_from s (String.◌∷◌ c rest) = decimal_from (after s (kind (code c))) rest

-- The parts of Python that read a text.
pub record Parsers : Type 0 where
  -- `datetime.fromisoformat`
  pub from_iso : String → Option (Option ℤ)
  -- `float`, on a text that the expression above accepts
  pub to_float : String → Number

abbrev pub instant : Option (Option ℤ) → Option ℤ
instant none = none
instant (some t) = t

module _ (p : Parsers) where
  unfoldable pub aware_datetime : Value → Option ℤ
  unfolding with_offset
  aware_datetime (moment t) = t
  aware_datetime (text s) =
      if leb 1 (count s) && leb (count s) 64 then instant (p.from_iso (with_offset s)) else none
  aware_datetime _ = none

  abbrev pub iso_of : Option ℤ → Option Stamp
  iso_of none = none
  iso_of (some t) = some (iso t)

  abbrev pub seconds_of : Option ℤ → Option Stamp
  seconds_of none = none
  seconds_of (some t) = some (seconds t)

  unfoldable pub timestamp : Value → Option Stamp
  unfolding aware_datetime finite_number
  timestamp (moment t) = iso_of (aware_datetime (moment t))
  timestamp (text s) = iso_of (aware_datetime (text s))
  timestamp (number x) = seconds_of (finite_number x)
  timestamp _ = none

  abbrev pub amount_of : Option ℤ → Option Scalar
  amount_of none = none
  amount_of (some a) = some (amount a)

  unfoldable pub scalar : Value → Option Scalar
  unfolding finite_number decimal_from
  scalar (boolean b) = some (flag b)
  scalar (number x) = amount_of (finite_number x)
  scalar (text s) =
      if listed s allowed_states
      then some (state s)
      else if leb 1 (count s) && (leb (count s) 32 && decimal_from begun s)
      then amount_of (finite_number (p.to_float s))
      else none
  scalar _ = none
