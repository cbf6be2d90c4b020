-- ===== src/MscSettlement/Privacy.antt =====
-- What app/msc_settlement_evidence.py may hold, whatever the callers hand over.
use sigenergy_optimizer.Prelude.{
  listed, All, ℕ, ◌+◌, ◌≡◌, ◌≤◌, refl, zero, suc, String, str_eq, true, Option, none, some, List,
  [], ◌∷◌, ◌++◌, length, take, drop, arith, Bool-cases, inl, inr, ltb, leb, ◌&&◌, if_both,
}
use Prim.Native.String.{count}
use mathlib.Core.Option.{some-injective, none-ne-some}
use sigenergy_optimizer.Prelude.Int.{ℤ, pos_part, neg_part, Number}
use sigenergy_optimizer.MscSettlement.Values.{
  allowed_labels, allowed_phases, allowed_outcomes, allowed_statuses, allowed_reasons,
  allowed_states, allowed_metadata_statuses, stamp_fields, allowed_observation_fields,
  max_abs_number, Value, nothing, other, boolean, number, text, moment, Stamp, iso, seconds, Scalar,
  flag, amount, state, Parsers, finite_number, timestamp, scalar, aware_datetime, decimal_from,
  begun, amount_of, iso_of,
}
use sigenergy_optimizer.MscSettlement.Objects.{
  Dict, Field, stamped, valued, metadata_status, Outcome, known, named, outcome_of, safe_object,
  item_field, stamp_field, value_field, is_metadata, status_field, status_value, lookup,
  item_fields,
}
use sigenergy_optimizer.MscSettlement.{
  Request, Observation, Evidence, Counts, bump, bounded_append, allowed, or_else,
}

abbrev pub InList : List String → String → Type 0
InList ss s = listed s ss ≡ true

abbrev pub IsBounded : ℤ → Type 0
IsBounded a = pos_part a + neg_part a ≤ max_abs_number

abbrev pub SafeStamp : Option Stamp → Type 0
SafeStamp none = Unit
SafeStamp (some (iso t)) = Unit
SafeStamp (some (seconds a)) = IsBounded a

abbrev pub SafeScalar : Option Scalar → Type 0
SafeScalar none = Unit
SafeScalar (some (flag b)) = Unit
SafeScalar (some (amount a)) = IsBounded a
SafeScalar (some (state s)) = InList allowed_states s

abbrev pub SafeOutcome : Option Outcome → Type 0
SafeOutcome none = Unit
SafeOutcome (some (known b)) = Unit
SafeOutcome (some (named s)) = InList allowed_outcomes s

abbrev pub SafeField : Field → Type 0
SafeField (stamped k s) = InList allowed_observation_fields k × SafeStamp (some s)
SafeField (valued k s) = InList allowed_observation_fields k × SafeScalar (some s)
SafeField (metadata_status s) = InList allowed_metadata_statuses s

pub record SafeRequest (r : Request) : Type 0 where
  pub label : InList allowed_labels r.label
  pub phase : InList allowed_phases r.phase
  pub target : SafeScalar r.target
  pub requested_at : SafeStamp r.requested_at
  pub outcome : SafeOutcome r.outcome

pub record SafeObservation (o : Observation) : Type 0 where
  pub label : InList allowed_labels o.label
  pub phase : InList allowed_phases o.phase
  pub expected : SafeScalar o.expected
  pub boundary : SafeStamp o.boundary
  pub observed : All SafeField o.observed
  pub observed_at : SafeStamp o.observed_at
  pub outcome : SafeOutcome o.outcome
  pub reason : InList allowed_reasons o.reason

abbrev pub CountsOf : List String → Counts → Type 0
CountsOf ss c = All (λ (k, n). InList ss k) c

-- Every text and number that the recorder holds.
pub record IsClean (e : Evidence) : Type 0 where
  pub status : InList allowed_statuses e.status
  pub requests : All SafeRequest e.requests
  pub observations : All SafeObservation e.observations
  pub request_counts : CountsOf allowed_labels e.request_counts
  pub observation_counts : CountsOf allowed_labels e.observation_counts
  pub reason_counts : CountsOf allowed_reasons e.observation_reason_counts
  pub first_request : SafeStamp e.first_request_at
  pub latest_request : SafeStamp e.latest_request_at
  pub first_observation : SafeStamp e.first_observation_at
  pub latest_observation : SafeStamp e.latest_observation_at

module _ {A : Type 0} (P : A → Type 0) where
  All-append : (xs ys : List A) → All P xs → All P ys → All P (xs ++ ys)
  All-append [] ys hx hy = hy
  All-append (x ∷ xs) ys hx hy = (hx.0, All-append xs ys hx.1 hy)

  All-take : (n : ℕ) (xs : List A) → All P xs → All P (take n xs)
  All-take zero xs h = tt
  All-take (suc n) [] h = tt
  All-take (suc n) (x ∷ xs) h = (h.0, All-take n xs h.1)

  All-drop : (n : ℕ) (xs : List A) → All P xs → All P (drop n xs)
  All-drop zero xs h = h
  All-drop (suc n) [] h = tt
  All-drop (suc n) (x ∷ xs) h = All-drop n xs h.1

  pub All-bounded_append : (xs : List A) (x : A) → All P xs → P x → All P (bounded_append xs x)
  unfolding bounded_append
  All-bounded_append xs x h k = elim (Bool-cases (ltb (length xs) 12)) [
    | inl room ↦ rw room (All-append xs (x ∷ []) h (k, tt))
    | inr full ↦ rw full (
        All-append (take 6 xs ++ drop 7 xs) (x ∷ [])
          (All-append (take 6 xs) (drop 7 xs) (All-take 6 xs h) (All-drop 7 xs h)) (k, tt))
  ]

pub bump-CountsOf :
    (ss : List String) (k : String) (c : Counts)
    → InList ss k
    → CountsOf ss c
    → CountsOf ss (bump k c)
unfolding bump
bump-CountsOf ss k [] h hc = (h, tt)
bump-CountsOf ss k ((j, n) ∷ c) h hc = elim (Bool-cases (str_eq k j)) [
  | inl same ↦ rw same hc
  | inr differ ↦ rw differ (hc.0, bump-CountsOf ss k c h hc.1)
]

-- The text that passed is of the list.
pub allowed-InList :
    (ss : List String) (v : Value) (s : String) → allowed ss v ≡ some s → InList ss s
allowed-InList ss (text t) s h = elim (Bool-cases (listed t ss)) [
  | inl good ↦ rw (some-injective t s (rw good at h)) at good
  | inr bad ↦ absurd (none-ne-some s (rw bad at h))
]
allowed-InList ss nothing s h = absurd (none-ne-some s h)
allowed-InList ss other s h = absurd (none-ne-some s h)
allowed-InList ss (boolean b) s h = absurd (none-ne-some s h)
allowed-InList ss (number x) s h = absurd (none-ne-some s h)
allowed-InList ss (moment t) s h = absurd (none-ne-some s h)

pub or_else-InList :
    (ss : List String) (o : Option String) (d : String)
    → ((s : String) → o ≡ some s → InList ss s)
    → InList ss d
    → InList ss (or_else o d)
or_else-InList ss none d h hd = hd
or_else-InList ss (some s) d h hd = h s refl

module _ (p : Parsers) where
  amount_of-SafeScalar : (x : Number) → SafeScalar (amount_of p (finite_number x))
  unfolding finite_number
  amount_of-SafeScalar x = ground arith

  iso_of-SafeStamp : (o : Option ℤ) → SafeStamp (iso_of p o)
  iso_of-SafeStamp none = tt
  iso_of-SafeStamp (some t) = tt

  pub timestamp-SafeStamp : (v : Value) → SafeStamp (timestamp p v)
  unfolding timestamp
  timestamp-SafeStamp nothing = tt
  timestamp-SafeStamp other = tt
  timestamp-SafeStamp (boolean b) = tt
  timestamp-SafeStamp (number x) = unfold finite_number in ground arith
  timestamp-SafeStamp (text s) = iso_of-SafeStamp (aware_datetime p (text s))
  timestamp-SafeStamp (moment t) = iso_of-SafeStamp (aware_datetime p (moment t))

  pub scalar-SafeScalar : (v : Value) → SafeScalar (scalar p v)
  unfolding scalar
  scalar-SafeScalar nothing = tt
  scalar-SafeScalar other = tt
  scalar-SafeScalar (boolean b) = tt
  scalar-SafeScalar (number x) = amount_of-SafeScalar x
  scalar-SafeScalar (text s) = elim (Bool-cases (listed s allowed_states)) [
    | inl known_state ↦ rw known_state known_state
    | inr unknown ↦ rw unknown (
        if_both SafeScalar (leb 1 (count s) && (leb (count s) 32 && decimal_from begun s))
          (amount_of-SafeScalar (p.to_float s)) tt)
  ]
  scalar-SafeScalar (moment t) = tt

  pub outcome_of-SafeOutcome : (v : Value) → SafeOutcome (outcome_of v)
  unfolding outcome_of
  outcome_of-SafeOutcome (text s) = elim (Bool-cases (listed s allowed_outcomes)) [
    | inl good ↦ rw good good
    | inr bad ↦ rw bad tt
  ]
  outcome_of-SafeOutcome (boolean b) = tt
  outcome_of-SafeOutcome _ = tt

  item_field-SafeField : (k : Option String) (v : Value) → All SafeField (item_field p k v)
  item_field-SafeField none v = tt
  item_field-SafeField (some k) v = elim (Bool-cases (listed k allowed_observation_fields)) [
    | inr bad ↦ rw bad tt
    | inl good ↦ rw good (
        if_both (All SafeField) (listed k stamp_fields)
          (stamped_safe good (timestamp p v) (timestamp-SafeStamp v))
          (if_both (All SafeField) (is_metadata k) tt
            (valued_safe good (scalar p v) (scalar-SafeScalar v))))
  ]
    where
      stamped_safe :
          InList allowed_observation_fields k
          → (o : Option Stamp) → SafeStamp o
          → All SafeField (stamp_field k o)
      stamped_safe g none h = tt
      stamped_safe g (some t) h = ((g, h), tt)

      valued_safe :
          InList allowed_observation_fields k
          → (o : Option Scalar) → SafeScalar o
          → All SafeField (value_field k o)
      valued_safe g none h = tt
      valued_safe g (some t) h = ((g, h), tt)

  item_fields-SafeField : (d : Dict) → All SafeField (item_fields p d)
  item_fields-SafeField [] = tt
  item_fields-SafeField ((k, v) ∷ d) =
      All-append SafeField (item_field p k v) (item_fields p d) (item_field-SafeField k v)
        (item_fields-SafeField d)

  status_field-SafeField : (o : Option Value) → All SafeField (status_field o)
  status_field-SafeField none = tt
  status_field-SafeField (some (text s)) = elim (Bool-cases (listed s allowed_metadata_statuses)) [
    | inl good ↦ rw good (good, tt)
    | inr bad ↦ rw bad tt
  ]
  status_field-SafeField (some nothing) = tt
  status_field-SafeField (some other) = tt
  status_field-SafeField (some (boolean b)) = tt
  status_field-SafeField (some (number x)) = tt
  status_field-SafeField (some (moment t)) = tt

  pub safe_object-SafeField : (obj : Option Dict) → All SafeField (safe_object p obj)
  unfolding safe_object
  safe_object-SafeField none = tt
  safe_object-SafeField (some d) =
      let status = status_value (lookup "_msc_metadata_status" d) (lookup "metadata_status" d) in
      All-append SafeField (item_fields p d) (status_field status) (item_fields-SafeField d)
        (status_field-SafeField status)
