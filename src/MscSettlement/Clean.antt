-- ===== src/MscSettlement/Clean.antt =====
-- app/msc_settlement_evidence.py: the operations of the recorder and its allow lists.
use sigenergy_optimizer.Prelude.{◌≡◌, refl, String, Option, none, some, List, [], ◌∷◌, if_both}
use sigenergy_optimizer.MscSettlement.Values.{
  allowed_labels, allowed_phases, allowed_statuses, allowed_reasons, Value, Stamp, Parsers,
}
use sigenergy_optimizer.MscSettlement.Objects.{Dict}
use sigenergy_optimizer.MscSettlement.{
  Request, Observation, Evidence, create, start, ensure_started, first_of, add_request,
  add_observation, record_request, record_observation, finish, request_of, observation_of, allowed,
  accept_request, accept_observation,
}
use sigenergy_optimizer.MscSettlement.Calls.{Call, starts, requests, observes, finishes, call, run}
use sigenergy_optimizer.MscSettlement.Privacy.{
  InList, SafeStamp, SafeRequest, SafeObservation, IsClean, All-bounded_append, bump-CountsOf,
  allowed-InList, or_else-InList, timestamp-SafeStamp, scalar-SafeScalar, outcome_of-SafeOutcome,
  safe_object-SafeField,
}

create-IsClean : IsClean create
create-IsClean = record {
  status = refl;
  requests = tt;
  observations = tt;
  request_counts = (refl, (refl, tt));
  observation_counts = (refl, (refl, tt));
  reason_counts = tt;
  first_request = tt;
  latest_request = tt;
  first_observation = tt;
  latest_observation = tt;
}

start-IsClean : (e : Evidence) → IsClean (start e)
unfolding start
start-IsClean e = record {
  status = create-IsClean.status;
  requests = create-IsClean.requests;
  observations = create-IsClean.observations;
  request_counts = create-IsClean.request_counts;
  observation_counts = create-IsClean.observation_counts;
  reason_counts = create-IsClean.reason_counts;
  first_request = create-IsClean.first_request;
  latest_request = create-IsClean.latest_request;
  first_observation = create-IsClean.first_observation;
  latest_observation = create-IsClean.latest_observation;
}

first_of-SafeStamp : (a b : Option Stamp) → SafeStamp a → SafeStamp b → SafeStamp (first_of a b)
first_of-SafeStamp none b ha hb = hb
first_of-SafeStamp (some a) b ha hb = ha

module _ (p : Parsers) where
  ensure_started-IsClean : (e : Evidence) → IsClean e → IsClean (ensure_started e)
  unfolding ensure_started
  ensure_started-IsClean e c = if_both IsClean e.started c (start-IsClean e)

  add_request-IsClean :
      (r : Request) (e : Evidence) → SafeRequest r → IsClean e → IsClean (add_request r e)
  unfolding add_request
  add_request-IsClean r e s c = record {
    status = c.status;
    requests = All-bounded_append SafeRequest e.requests r c.requests s;
    observations = c.observations;
    request_counts = bump-CountsOf allowed_labels r.label e.request_counts s.label c.request_counts;
    observation_counts = c.observation_counts;
    reason_counts = c.reason_counts;
    first_request =
        first_of-SafeStamp e.first_request_at r.requested_at c.first_request s.requested_at;
    latest_request = s.requested_at;
    first_observation = c.first_observation;
    latest_observation = c.latest_observation;
  }

  add_observation-IsClean :
      (o : Observation) (e : Evidence)
      → SafeObservation o
      → IsClean e
      → IsClean (add_observation o e)
  unfolding add_observation
  add_observation-IsClean o e s c = record {
    status = c.status;
    requests = c.requests;
    observations = All-bounded_append SafeObservation e.observations o c.observations s;
    request_counts = c.request_counts;
    observation_counts =
        bump-CountsOf allowed_labels o.label e.observation_counts s.label c.observation_counts;
    reason_counts =
        bump-CountsOf allowed_reasons o.reason e.observation_reason_counts s.reason c.reason_counts;
    first_request = c.first_request;
    latest_request = c.latest_request;
    first_observation =
        first_of-SafeStamp e.first_observation_at o.observed_at c.first_observation s.observed_at;
    latest_observation = s.observed_at;
  }

  request-IsClean :
      (label phase : Option String) (target at outcome : Value) (e : Evidence)
      → ((s : String) → label ≡ some s → InList allowed_labels s)
      → ((s : String) → phase ≡ some s → InList allowed_phases s)
      → IsClean e
      → IsClean (accept_request p (request_of p label phase target at outcome) e)
  request-IsClean (some label) (some phase) target at outcome e hl hp c =
      add_request-IsClean _ (ensure_started e)
        (record {
          label = hl label refl;
          phase = hp phase refl;
          target = scalar-SafeScalar p target;
          requested_at = timestamp-SafeStamp p at;
          outcome = outcome_of-SafeOutcome p outcome;
        })
        (ensure_started-IsClean e c)
  request-IsClean none phase target at outcome e hl hp c = c
  request-IsClean (some label) none target at outcome e hl hp c = c

  observation-IsClean :
      (label phase : Option String) (expected boundary : Value) (obj : Option Dict)
      (at outcome reason : Value) (e : Evidence)
      → ((s : String) → label ≡ some s → InList allowed_labels s)
      → ((s : String) → phase ≡ some s → InList allowed_phases s)
      → IsClean e
      → IsClean (
          accept_observation p
            (observation_of p label phase expected boundary obj at outcome reason)
            e)
  observation-IsClean (some label) (some phase) expected boundary obj at outcome reason e hl hp c =
      add_observation-IsClean _ (ensure_started e)
        (record {
          label = hl label refl;
          phase = hp phase refl;
          expected = scalar-SafeScalar p expected;
          boundary = timestamp-SafeStamp p boundary;
          observed = safe_object-SafeField p obj;
          observed_at = timestamp-SafeStamp p at;
          outcome = outcome_of-SafeOutcome p outcome;
          reason =
              or_else-InList allowed_reasons (allowed allowed_reasons reason) "unknown"
                (allowed-InList allowed_reasons reason) refl;
        })
        (ensure_started-IsClean e c)
  observation-IsClean none phase expected boundary obj at outcome reason e hl hp c = c
  observation-IsClean (some label) none expected boundary obj at outcome reason e hl hp c = c

  call-IsClean : (c : Call) (e : Evidence) → IsClean e → IsClean (call p c e)
  unfolding call
  call-IsClean starts e h = start-IsClean e
  call-IsClean (requests label phase target at outcome) e h =
      unfold record_request in
      if_both IsClean e.finished h (
        request-IsClean (allowed allowed_labels label) (allowed allowed_phases phase) target at
          outcome e (allowed-InList allowed_labels label) (allowed-InList allowed_phases phase) h)
  call-IsClean (observes label phase expected boundary obj at outcome reason) e h =
      unfold record_observation in
      if_both IsClean e.finished h (
        observation-IsClean (allowed allowed_labels label) (allowed allowed_phases phase) expected
          boundary obj at outcome reason e (allowed-InList allowed_labels label)
          (allowed-InList allowed_phases phase) h)
  call-IsClean (finishes status) e h =
      let c = ensure_started-IsClean e h in
      unfold finish in
      record {
        status =
            or_else-InList allowed_statuses (allowed allowed_statuses status) "unreported"
              (allowed-InList allowed_statuses status) refl;
        requests = c.requests;
        observations = c.observations;
        request_counts = c.request_counts;
        observation_counts = c.observation_counts;
        reason_counts = c.reason_counts;
        first_request = c.first_request;
        latest_request = c.latest_request;
        first_observation = c.first_observation;
        latest_observation = c.latest_observation;
      }

  run-IsClean : (cs : List Call) (e : Evidence) → IsClean e → IsClean (run p cs e)
  unfolding run
  run-IsClean [] e h = h
  run-IsClean (c ∷ cs) e h = run-IsClean cs (call p c e) (call-IsClean c e h)

  -- Whatever the callers hand over, the recorder holds only texts of its allow lists, numbers within
  -- the bound, and dates: in its status, its entries, the keys of its counts and its stamps.
  pub evidence-IsClean : (cs : List Call) → IsClean (run p cs create)
  evidence-IsClean cs = run-IsClean cs create create-IsClean
