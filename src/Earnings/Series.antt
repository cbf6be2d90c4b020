-- ===== src/Earnings/Series.antt =====
-- app/earnings.py: the readers of Home Assistant's history. A number is counted in millionths, an
-- instant in microseconds. Home Assistant's stamps carry an offset, and its states no infinity and no
-- `nan`, so what the parsers of texts give is an integer or nothing.
use sigenergy_optimizer.Prelude.{
  with_offset, listed, String, str_eq, Bool, false, not, ◌&&◌, ◌||◌, Option, none, some, List, [],
  ◌∷◌, if◌then◌else◌,
}
use sigenergy_optimizer.Prelude.Int.{ℤ, pos, ◌-ℤ◌, ltb_ℤ, leb_ℤ}

-- A dict of the history: the values of its keys as texts, where they are given.
pub record Row : Type 0 where
  pub entity_id : Option String
  pub last_updated : Option String
  pub last_changed : Option String
  pub state : Option String

-- What Python reads from a text: `str.strip`, `str.lower`, `datetime.fromisoformat` and `float`.
pub record Readers : Type 0 where
  pub strip : String → String
  pub lower : String → String
  pub from_iso : String → Option ℤ
  pub to_float : String → Option ℤ

abbrev pub unavailable : List String
unavailable = "unknown" ∷ "unavailable" ∷ "none" ∷ "" ∷ []

-- `a or b` on texts that may be missing.
abbrev pub or_text : Option String → Option String → Option String
or_text none t = t
or_text (some s) t = if str_eq s "" then t else some s

-- `abs`
abbrev pub abs_ℤ : ℤ → ℤ
abs_ℤ a = if ltb_ℤ a (pos 0) then pos 0 -ℤ a else a

module _ (r : Readers) where
  unfoldable pub parse_iso_timestamp : Option String → Option ℤ
  unfolding with_offset
  parse_iso_timestamp none = none
  parse_iso_timestamp (some s) =
      if str_eq s "" || str_eq (r.strip s) "" then none else r.from_iso (with_offset (r.strip s))

  -- `_to_float` of a state.
  unfoldable pub to_float : Option String → Option ℤ
  to_float none = none
  to_float (some s) =
      if str_eq (r.strip s) "" || listed (r.lower (r.strip s)) unavailable
      then none
      else r.to_float (r.strip s)

  -- A state that is missing or `None` reads as an unavailable one.
  abbrev pub has_state : Option String → Bool
  has_state none = false
  has_state (some s) = not (listed (r.lower (r.strip s)) unavailable)

  unfoldable pub is_available_state : Option Row → Bool
  is_available_state none = false
  is_available_state (some row) = has_state row.state

  abbrev pub stamp : Row → Option ℤ
  stamp row = parse_iso_timestamp (or_text row.last_updated row.last_changed)

  abbrev pub or_value : Option ℤ → Option ℤ → Option ℤ
  or_value none c = c
  or_value (some v) c = some v

  abbrev pub before_of : Option ℤ → ℤ → Option ℤ → Option ℤ → Option ℤ
  before_of none boundary v candidate = candidate
  before_of (some ts) boundary v candidate =
      if leb_ℤ boundary ts then candidate else or_value v candidate

  unfoldable pub last_numeric_from : Option ℤ → List Row → ℤ → Option ℤ
  unfolding parse_iso_timestamp to_float
  last_numeric_from candidate [] boundary = candidate
  last_numeric_from candidate (row ∷ rows) boundary =
      last_numeric_from (before_of (stamp row) boundary (to_float row.state) candidate) rows
        boundary

  unfoldable pub last_numeric_before : List Row → ℤ → Option ℤ
  unfolding last_numeric_from
  last_numeric_before rows boundary = last_numeric_from none rows boundary

  -- The value and the stamp of the candidate.
  abbrev pub newer : Option (ℤ × ℤ) → ℤ → ℤ → Option (ℤ × ℤ)
  newer none v ts = some (v, ts)
  newer (some (w, at)) v ts = if leb_ℤ at ts then some (v, ts) else some (w, at)

  abbrev pub window_of : Option ℤ → ℤ → ℤ → Option ℤ → Option (ℤ × ℤ) → Option (ℤ × ℤ)
  window_of (some ts) start end (some v) candidate =
      if ltb_ℤ ts start || leb_ℤ end ts then candidate else newer candidate v ts
  window_of _ start end _ candidate = candidate

  unfoldable pub latest_from : Option (ℤ × ℤ) → List Row → ℤ → ℤ → Option (ℤ × ℤ)
  unfolding parse_iso_timestamp to_float
  latest_from candidate [] start end = candidate
  latest_from candidate (row ∷ rows) start end =
      latest_from (window_of (stamp row) start end (to_float row.state) candidate) rows start end

  abbrev pub value_of : Option (ℤ × ℤ) → Option ℤ
  value_of none = none
  value_of (some (v, ts)) = some v

  unfoldable pub latest_numeric_in_window : List Row → ℤ → ℤ → Option ℤ
  unfolding latest_from
  latest_numeric_in_window rows start end = value_of (latest_from none rows start end)

-- The end of `_cumulative_delta`, and that of `_cumulative_credit_delta`, on the two values.
unfoldable pub counter_rise : Option ℤ → Option ℤ → Option ℤ
counter_rise start none = none
counter_rise none (some e) = some (abs_ℤ e)
counter_rise (some s) (some e) =
    if ltb_ℤ e s then (if leb_ℤ (pos 0) e then some e else none) else some (e -ℤ s)

unfoldable pub credit_rise : Option ℤ → Option ℤ → Option ℤ
credit_rise start none = none
credit_rise none (some e) = some (abs_ℤ e)
credit_rise (some s) (some e) =
    if leb_ℤ s (pos 0) && leb_ℤ e (pos 0)
    then some (abs_ℤ (e -ℤ s))
    else if ltb_ℤ e s
    then (if leb_ℤ e (pos 0) then some (abs_ℤ e) else some e)
    else some (e -ℤ s)

module _ (r : Readers) where
  -- The value at the end of a window, and the value at its start; `earlier` lies two days before.
  unfoldable pub end_value : List Row → ℤ → ℤ → Option ℤ
  unfolding last_numeric_before latest_numeric_in_window
  end_value rows start end =
      or_value r (last_numeric_before r rows end) (latest_numeric_in_window r rows start end)

  abbrev pub if_ended : Option ℤ → Option ℤ → Option ℤ → Option ℤ
  if_ended (some s) e found = some s
  if_ended none none found = none
  if_ended none (some e) found = found

  unfoldable pub start_value : List Row → ℤ → ℤ → ℤ → Option ℤ
  unfolding end_value
  start_value rows earlier start end =
      if_ended (last_numeric_before r rows start) (end_value rows start end)
        (latest_numeric_in_window r rows earlier start)

  unfoldable pub cumulative_delta : List Row → ℤ → ℤ → ℤ → Option ℤ
  unfolding start_value counter_rise
  cumulative_delta rows earlier start end =
      counter_rise (start_value rows earlier start end) (end_value rows start end)

  unfoldable pub cumulative_credit_delta : List Row → ℤ → ℤ → ℤ → Option ℤ
  unfolding start_value credit_rise
  cumulative_credit_delta rows earlier start end =
      credit_rise (start_value rows earlier start end) (end_value rows start end)
