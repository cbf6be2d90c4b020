-- ===== src/MscSettlement/Tests.antt =====
-- Runs of app/msc_settlement_evidence.py's recorder at concrete calls, and its theorems at them.
use sigenergy_optimizer.Prelude.{◌≡◌, refl, true, Option, none, some, List, [], ◌∷◌}
use sigenergy_optimizer.Prelude.Int.{finite, units, pos}
use sigenergy_optimizer.MscSettlement.Values.{
  nothing, boolean, text, moment, Parsers, iso, state, amount, scalar, aware_datetime, timestamp,
}
use sigenergy_optimizer.MscSettlement.Objects.{
  Dict, safe_object, stamped, valued, metadata_status, timestamp_reason_flags, future,
}
use sigenergy_optimizer.MscSettlement.{create, finish}
use sigenergy_optimizer.MscSettlement.Calls.{
  Call, starts, requests, observes, finishes, empty_log, run, log,
}
use sigenergy_optimizer.MscSettlement.Summary.{Summarises, evidence-Summarises}
use sigenergy_optimizer.MscSettlement.Privacy.{IsClean}
use sigenergy_optimizer.MscSettlement.Clean.{evidence-IsClean}
use sigenergy_optimizer.MscSettlement.Limits.{finished_is_frozen}

-- Parsers that know one date and one number.
abbrev parsers : Parsers
parsers = record { from_iso = λ s. some (some (pos 1_000)); to_float = λ s. finite (units 5) }

abbrev observed : Option Dict
observed = some (
    (some "state", text "Automated")
    ∷ (some "timestamp", text "2026-01-01T00:00:00Z")
    ∷ (some "token", text "secret")
    ∷ (some "value", text "5.0")
    ∷ (none, boolean true)
    ∷ (some "metadata_status", text "accepted")
    ∷ [])

secrets_are_dropped :
    safe_object parsers observed
    ≡ valued "state" (state "Automated")
      ∷ stamped "timestamp" (iso (pos 1_000))
      ∷ valued "value" (amount (units 5))
      ∷ metadata_status "accepted"
      ∷ []
unfolding safe_object timestamp scalar
secrets_are_dropped = refl

future_is_flagged :
    timestamp_reason_flags parsers observed nothing (moment (some (pos 999))) (text "stale")
    ≡ future ∷ []
unfolding timestamp_reason_flags timestamp aware_datetime
future_is_flagged = refl

abbrev request : Call
request =
    requests (text "msc") (text "primary") (text "Automated") (moment (some (pos 10)))
      (text "accepted")

abbrev observation : Call
observation =
    observes (text "msc") (text "primary") (text "Automated") (moment (some (pos 10))) observed
      (moment (some (pos 20))) (text "pending") (text "unheard of")

abbrev calls : List Call
calls = request ∷ observation ∷ starts ∷ request ∷ request ∷ []

evidence-Summarises_example : Summarises (run parsers calls create) (log parsers calls empty_log)
evidence-Summarises_example = evidence-Summarises parsers calls

evidence-IsClean_example : IsClean (run parsers calls create)
evidence-IsClean_example = evidence-IsClean parsers calls

finished_is_frozen_example :
    run parsers (finishes (text "succeeded") ∷ request ∷ observation ∷ []) create
    ≡ finish (text "succeeded") create
finished_is_frozen_example =
    finished_is_frozen parsers create (text "succeeded") (request ∷ observation ∷ []) tt
