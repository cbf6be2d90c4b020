-- ===== src/MscSettlement/Summary.antt =====
-- What app/msc_settlement_evidence.py keeps of an attempt, from the whole log of the attempt.
use sigenergy_optimizer.Prelude.{
  ◌+◌, ◌≡◌, refl, sym, ap, ◌∙◌, String, str_eq, Bool, true, false, Option, none, some, List, [],
  ◌∷◌, ◌++◌, map, if◌then◌else◌, arith, inl, inr, ◌⊎◌,
}
use sigenergy_optimizer.MscSettlement.Values.{Parsers, allowed_labels, allowed_phases}
use sigenergy_optimizer.MscSettlement.{
  Request, Observation, Evidence, create, start, ensure_started, add_request, add_observation,
  record_request, record_observation, finish, request_of, observation_of, allowed, accept_request,
  accept_observation,
}
use sigenergy_optimizer.MscSettlement.Calls.{
  Call, starts, requests, observes, finishes, Log, empty_log, append_request, append_observation,
  call, run, log_call, log,
}
use sigenergy_optimizer.MscSettlement.Streams.{
  Stream, count_of, occurrences, count_of-bump, occurrences-snoc, map-snoc, empty-Stream,
  Stream-snoc,
}

pub record Summarises (e : Evidence) (l : Log) : Type 0 where
  pub started : (e.started ≡ true) ⊎ ((e ≡ create) × (l ≡ empty_log))
  pub closed : e.finished ≡ l.closed
  pub requests :
      Stream
        (λ r. r.label)
        (λ r. r.requested_at)
        e.requests
        e.request_count
        e.request_counts
        e.first_request_at
        e.latest_request_at
        l.requests
  pub observations :
      Stream
        (λ o. o.label)
        (λ o. o.observed_at)
        e.observations
        e.observation_count
        e.observation_counts
        e.first_observation_at
        e.latest_observation_at
        l.observations
  pub reasons :
      (k : String)
      → count_of k e.observation_reason_counts ≡ occurrences k (map (λ o. o.reason) l.observations)

start-Summarises : (e : Evidence) → Summarises (start e) empty_log
unfolding start
start-Summarises e = record {
  started = inl refl;
  closed = refl;
  requests = empty-Stream (λ r. r.label) (λ r. r.requested_at);
  observations = empty-Stream (λ o. o.label) (λ o. o.observed_at);
  reasons = λ k. refl;
}

create-Summarises : Summarises create empty_log
create-Summarises = record {
  started = inr (refl, refl);
  closed = refl;
  requests = empty-Stream (λ r. r.label) (λ r. r.requested_at);
  observations = empty-Stream (λ o. o.label) (λ o. o.observed_at);
  reasons = λ k. refl;
}

if_started :
    (b : Bool) (e : Evidence) (l : Log)
    → e.started ≡ b
    → Summarises e l
    → (b ≡ true) ⊎ (l ≡ empty_log)
    → Summarises (if b then e else start e) l × ((if b then e else start e).started ≡ true)
if_started true e l on s h = (s, on)
if_started false e l on s (inl h) = absurd (ground arith)
if_started false e l on s (inr h) = rw h (start-Summarises e, unfold start in refl)

-- An attempt that was not started by hand is started by its first call.
ensured :
    (e : Evidence) (l : Log)
    → Summarises e l
    → Summarises (ensure_started e) l × ((ensure_started e).started ≡ true)
unfolding ensure_started
ensured e l s =
    if_started e.started e l refl s
      (elim s.started [ inl on ↦ inl on | inr (_, blank) ↦ inr blank ])

add_request-Summarises :
    (e : Evidence) (l : Log) (r : Request)
    → Summarises e l
    → e.started ≡ true
    → Summarises (add_request r e) (record l { requests = l.requests ++ r ∷ [] })
unfolding add_request
add_request-Summarises e l r s on = record {
  started = inl on;
  closed = s.closed;
  requests =
      Stream-snoc (λ r'. r'.label) (λ r'. r'.requested_at) e.requests e.request_count
        e.request_counts e.first_request_at e.latest_request_at l.requests r s.requests;
  observations = s.observations;
  reasons = s.reasons;
}

add_observation-Summarises :
    (e : Evidence) (l : Log) (o : Observation)
    → Summarises e l
    → e.started ≡ true
    → Summarises (add_observation o e) (record l { observations = l.observations ++ o ∷ [] })
unfolding add_observation
add_observation-Summarises e l o s on = record {
  started = inl on;
  closed = s.closed;
  requests = s.requests;
  observations =
      Stream-snoc (λ o'. o'.label) (λ o'. o'.observed_at) e.observations e.observation_count
        e.observation_counts e.first_observation_at e.latest_observation_at l.observations o
        s.observations;
  reasons = λ k.
      count_of-bump k o.reason e.observation_reason_counts
      ∙ ap (λ n. n + (if str_eq k o.reason then 1 else 0)) (s.reasons k)
      ∙ sym (occurrences-snoc k (map (λ o'. o'.reason) l.observations) o.reason)
      ∙ ap (occurrences k) (sym (map-snoc (λ o'. o'.reason) l.observations o));
}

module _ (p : Parsers) where
  accepted-Summarises :
      (e : Evidence) (l : Log) (r : Option Request)
      → Summarises e l
      → Summarises (accept_request p r e) (append_request r l)
  accepted-Summarises e l none s = s
  accepted-Summarises e l (some r) s =
      add_request-Summarises (ensure_started e) l r (ensured e l s).0 (ensured e l s).1

  observed-Summarises :
      (e : Evidence) (l : Log) (o : Option Observation)
      → Summarises e l
      → Summarises (accept_observation p o e) (append_observation o l)
  observed-Summarises e l none s = s
  observed-Summarises e l (some o) s =
      add_observation-Summarises (ensure_started e) l o (ensured e l s).0 (ensured e l s).1

  -- A call that a finished attempt ignores, on both sides.
  unless_closed :
      (b c : Bool) (e e' : Evidence) (l l' : Log)
      → b ≡ c
      → Summarises e l
      → Summarises e' l'
      → Summarises (if b then e else e') (if c then l else l')
  unless_closed true true e e' l l' h s s' = s
  unless_closed false false e e' l l' h s s' = s'
  unless_closed true false e e' l l' h s s' = absurd (ground arith)
  unless_closed false true e e' l l' h s s' = absurd (ground arith)

  call-Summarises :
      (c : Call) (e : Evidence) (l : Log)
      → Summarises e l
      → Summarises (call p c e) (log_call p c l)
  unfolding call log_call
  call-Summarises starts e l s = start-Summarises e
  call-Summarises (requests label phase target requested_at outcome) e l s =
      unfold record_request in
      unless_closed e.finished l.closed e _ l _ s.closed s (
        accepted-Summarises e l
          (request_of p (allowed allowed_labels label) (allowed allowed_phases phase) target
            requested_at outcome)
          s)
  call-Summarises (observes label phase expected boundary obj observed_at outcome reason) e l s =
      unfold record_observation in
      unless_closed e.finished l.closed e _ l _ s.closed s (
        observed-Summarises e l
          (observation_of p (allowed allowed_labels label) (allowed allowed_phases phase) expected
            boundary obj observed_at outcome reason)
          s)
  call-Summarises (finishes status) e l s =
      let (s', on) = ensured e l s in
      unfold finish in
      record {
        started = inl on;
        closed = refl;
        requests = s'.requests;
        observations = s'.observations;
        reasons = s'.reasons;
      }

  run-Summarises :
      (cs : List Call) (e : Evidence) (l : Log)
      → Summarises e l
      → Summarises (run p cs e) (log p cs l)
  unfolding run log
  run-Summarises [] e l s = s
  run-Summarises (c ∷ cs) e l s =
      run-Summarises cs (call p c e) (log_call p c l) (call-Summarises c e l s)

  -- After any calls on a new recorder, what it keeps is the summary of the attempt's whole log: each
  -- stream is its window of the log's entries, the numbers and the counts by label and by reason are
  -- those of all entries, and the first and latest stamps are the log's.
  pub evidence-Summarises : (cs : List Call) → Summarises (run p cs create) (log p cs empty_log)
  evidence-Summarises cs = run-Summarises cs create empty_log create-Summarises
