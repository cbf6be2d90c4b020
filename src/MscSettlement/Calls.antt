-- ===== src/MscSettlement/Calls.antt =====
-- Sequences of calls on app/msc_settlement_evidence.py, and the log that an attempt stands for: the
-- accepted requests and observations since it was started, in full.
use sigenergy_optimizer.Prelude.{
  Bool, true, false, Option, none, some, List, [], ◌∷◌, ◌++◌, if◌then◌else◌,
}
use sigenergy_optimizer.MscSettlement.Values.{Value, Parsers, allowed_labels, allowed_phases}
use sigenergy_optimizer.MscSettlement.Objects.{Dict}
use sigenergy_optimizer.MscSettlement.{
  Request, Observation, Evidence, start, record_request, record_observation, finish, request_of,
  observation_of, allowed,
}

pub data Call : Type 0 where
  starts : Call
  requests : Value → Value → Value → Value → Value → Call
  observes : Value → Value → Value → Value → Option Dict → Value → Value → Value → Call
  finishes : Value → Call

pub record Log : Type 0 where
  pub closed : Bool
  pub requests : List Request
  pub observations : List Observation

abbrev pub empty_log : Log
empty_log = record { closed = false; requests = []; observations = [] }

abbrev pub append_request : Option Request → Log → Log
append_request none l = l
append_request (some r) l = record l { requests = l.requests ++ r ∷ [] }

abbrev pub append_observation : Option Observation → Log → Log
append_observation none l = l
append_observation (some o) l = record l { observations = l.observations ++ o ∷ [] }

module _ (p : Parsers) where
  unfoldable pub call : Call → Evidence → Evidence
  unfolding start record_request record_observation finish
  call starts e = start e
  call (requests label phase target requested_at outcome) e =
      record_request p label phase target requested_at outcome e
  call (observes label phase expected boundary obj observed_at outcome reason) e =
      record_observation p label phase expected boundary obj observed_at outcome reason e
  call (finishes status) e = finish status e

  unfoldable pub run : List Call → Evidence → Evidence
  unfolding call
  run [] e = e
  run (c ∷ cs) e = run cs (call c e)

  unfoldable pub log_call : Call → Log → Log
  log_call starts l = empty_log
  log_call (requests label phase target requested_at outcome) l =
      if l.closed
      then l
      else append_request
          (request_of p (allowed allowed_labels label) (allowed allowed_phases phase) target
            requested_at outcome)
          l
  log_call (observes label phase expected boundary obj observed_at outcome reason) l =
      if l.closed
      then l
      else append_observation
          (observation_of p (allowed allowed_labels label) (allowed allowed_phases phase) expected
            boundary obj observed_at outcome reason)
          l
  log_call (finishes status) l = record l { closed = true }

  unfoldable pub log : List Call → Log → Log
  unfolding log_call
  log [] l = l
  log (c ∷ cs) l = log cs (log_call c l)
