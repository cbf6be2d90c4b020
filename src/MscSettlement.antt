-- ===== src/MscSettlement.antt =====
-- app/msc_settlement_evidence.py: the diagnostics of one settlement attempt at a time. `self` is
-- passed and returned. No operation of the model raises, so the `except` clauses have no part in it.
pub mod Values
pub mod Objects
pub mod Window
pub mod Calls
pub mod Streams
pub mod Summary
pub mod Privacy
pub mod Clean
pub mod Limits
pub mod Tests
use sigenergy_optimizer.Prelude.{
  listed, ℕ, zero, suc, ◌+◌, ◌-◌, ◌/◌, String, str_eq, Bool, true, false, not, ◌&&◌, ◌||◌, Option,
  none, some, List, [], ◌∷◌, ◌++◌, length, take, drop, ltb, if◌then◌else◌, is_none,
}
use Values.{
  allowed_labels, allowed_phases, allowed_statuses, allowed_reasons, max_entries, Value, text,
  Stamp, Scalar, Parsers, timestamp, scalar,
}
use Objects.{Dict, Field, Flag, Outcome, outcome_of, safe_object, timestamp_reason_flags}

pub record Request : Type 0 where
  pub label : String
  pub phase : String
  pub target : Option Scalar
  pub requested_at : Option Stamp
  pub outcome : Option Outcome

pub record Observation : Type 0 where
  pub label : String
  pub phase : String
  pub expected : Option Scalar
  pub boundary : Option Stamp
  pub observed : List Field
  pub observed_at : Option Stamp
  pub reason_flags : List Flag
  pub outcome : Option Outcome
  pub reason : String

abbrev pub Counts : Type 0
Counts = List (String × ℕ)

pub record Evidence : Type 0 where
  pub attempt : ℕ
  pub started : Bool
  pub finished : Bool
  pub status : String
  pub request_count : ℕ
  pub observation_count : ℕ
  pub first_request_at : Option Stamp
  pub latest_request_at : Option Stamp
  pub first_observation_at : Option Stamp
  pub latest_observation_at : Option Stamp
  pub requests : List Request
  pub observations : List Observation
  pub request_counts : Counts
  pub observation_counts : Counts
  pub observation_reason_counts : Counts

-- `{label: 0 for label in sorted(_ALLOWED_LABELS)}`
abbrev pub zero_counts : Counts
zero_counts = ("export", 0) ∷ ("msc", 0) ∷ []

-- `counts[key] = counts.get(key, 0) + 1`; a label always has its entry.
unfoldable pub bump : String → Counts → Counts
bump k [] = (k, 1) ∷ []
bump k ((j, n) ∷ c) = if str_eq k j then (j, n + 1) ∷ c else (j, n) ∷ bump k c

-- `_bounded_append`
unfoldable pub bounded_append {ℓ} : {A : Type ℓ} → List A → A → List A
bounded_append items item =
    if ltb (length items) max_entries
    then items ++ item ∷ []
    else take (max_entries / 2) items ++ drop (max_entries / 2 + 1) items ++ item ∷ []

-- `__init__`
abbrev pub create : Evidence
create = record {
  attempt = 0;
  started = false;
  finished = false;
  status = "unreported";
  request_count = 0;
  observation_count = 0;
  first_request_at = none;
  latest_request_at = none;
  first_observation_at = none;
  latest_observation_at = none;
  requests = [];
  observations = [];
  request_counts = zero_counts;
  observation_counts = zero_counts;
  observation_reason_counts = [];
}

unfoldable pub start : Evidence → Evidence
start e = record create { attempt = e.attempt + 1; started = true }

unfoldable pub ensure_started : Evidence → Evidence
unfolding start
ensure_started e = if e.started then e else start e

-- The text, if it is one and the list has it.
abbrev pub allowed : List String → Value → Option String
allowed ss (text s) = if listed s ss then some s else none
allowed ss _ = none

abbrev pub or_else : Option String → String → String
or_else none s = s
or_else (some t) s = t

abbrev pub first_of : Option Stamp → Option Stamp → Option Stamp
first_of none s = s
first_of (some t) s = some t

unfoldable pub add_request : Request → Evidence → Evidence
unfolding bump bounded_append
add_request r e = record e {
  request_count = e.request_count + 1;
  request_counts = bump r.label e.request_counts;
  first_request_at = first_of e.first_request_at r.requested_at;
  latest_request_at = r.requested_at;
  requests = bounded_append e.requests r;
}

unfoldable pub add_observation : Observation → Evidence → Evidence
unfolding bump bounded_append
add_observation o e = record e {
  observation_count = e.observation_count + 1;
  observation_counts = bump o.label e.observation_counts;
  observation_reason_counts = bump o.reason e.observation_reason_counts;
  first_observation_at = first_of e.first_observation_at o.observed_at;
  latest_observation_at = o.observed_at;
  observations = bounded_append e.observations o;
}

module _ (p : Parsers) where
  abbrev pub request_of : Option String → Option String → Value → Value → Value → Option Request
  request_of (some label) (some phase) target requested_at outcome = some (record {
    label = label;
    phase = phase;
    target = scalar p target;
    requested_at = timestamp p requested_at;
    outcome = outcome_of outcome;
  })
  request_of _ _ target requested_at outcome = none

  abbrev pub observation_of :
      Option String
      → Option String
      → Value
      → Value
      → Option Dict
      → Value
      → Value
      → Value
      → Option Observation
  observation_of (some label) (some phase) expected boundary obj observed_at outcome reason =
      some (record {
        label = label;
        phase = phase;
        expected = scalar p expected;
        boundary = timestamp p boundary;
        observed = safe_object p obj;
        observed_at = timestamp p observed_at;
        reason_flags = timestamp_reason_flags p obj boundary observed_at reason;
        outcome = outcome_of outcome;
        reason = or_else (allowed allowed_reasons reason) "unknown";
      })
  observation_of _ _ expected boundary obj observed_at outcome reason = none

  abbrev pub accept_request : Option Request → Evidence → Evidence
  accept_request none e = e
  accept_request (some r) e = add_request r (ensure_started e)

  abbrev pub accept_observation : Option Observation → Evidence → Evidence
  accept_observation none e = e
  accept_observation (some o) e = add_observation o (ensure_started e)

  unfoldable pub record_request : Value → Value → Value → Value → Value → Evidence → Evidence
  unfolding add_request ensure_started
  record_request label phase target requested_at outcome e =
      if e.finished
      then e
      else accept_request
          (request_of (allowed allowed_labels label) (allowed allowed_phases phase) target
            requested_at outcome)
          e

  unfoldable pub record_observation :
      Value → Value → Value → Value → Option Dict → Value → Value → Value → Evidence → Evidence
  unfolding add_observation ensure_started
  record_observation label phase expected boundary obj observed_at outcome reason e =
      if e.finished
      then e
      else accept_observation
          (observation_of (allowed allowed_labels label) (allowed allowed_phases phase) expected
            boundary obj observed_at outcome reason)
          e

-- `finish`, and the state whose copy it returns.
unfoldable pub finish : Value → Evidence → Evidence
unfolding ensure_started
finish status e = record (ensure_started e) {
  status = or_else (allowed allowed_statuses status) "unreported";
  finished = true;
}
