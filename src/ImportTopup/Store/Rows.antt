-- ===== src/ImportTopup/Store/Rows.antt =====
-- The interval table of app/state_store.py under any attempts to record.
use sigenergy_optimizer.Prelude.{◌≡◌, ◌≢◌, refl, false, none, some, List, [], ◌∷◌, ◌++◌, arith}
use sigenergy_optimizer.ImportTopup.Event.{EventId, same_id, Event, same_payload_iff}
use sigenergy_optimizer.ImportTopup.Store.{
  Store, Fault, fine, value_error, find, append, record_interval,
}

-- No two events of the list share an id.
abbrev pub Distinct : List Event → Type 0
Distinct [] = Unit
Distinct (e ∷ es) = (find e.event_id es ≡ none) × Distinct es

-- The store after attempts to record, each with the fault that it meets.
unfoldable pub attempts : List (Fault × Event) → Store → Store
unfolding record_interval
attempts [] s = s
attempts ((fault, e) ∷ cs) s = attempts cs (record_interval fault e s).0

find_stays :
    (i : EventId) (old e : Event) (es : List Event)
    → find i es ≡ some old
    → find i (es ++ e ∷ []) ≡ some old
unfolding find
find_stays i old e [] h = cc
find_stays i old e (x ∷ es) h = ground (arith, find_stays i old e es)

still_absent :
    (i : EventId) (e : Event) (es : List Event)
    → find i es ≡ none
    → same_id e.event_id i ≡ false
    → find i (es ++ e ∷ []) ≡ none
unfolding find
still_absent i e [] h k = ground arith
still_absent i e (x ∷ es) h k = ground (arith, still_absent i e es)

append-Distinct :
    (e : Event) (es : List Event)
    → find e.event_id es ≡ none
    → Distinct es
    → Distinct (es ++ e ∷ [])
unfolding find
append-Distinct e [] h d = (refl, tt)
append-Distinct e (x ∷ es) h d = ground (arith, still_absent x.event_id e es, append-Distinct e es)

one_attempt :
    (fault : Fault) (e old : Event) (s : Store)
    → find old.event_id s.intervals ≡ some old
    → find old.event_id (record_interval fault e s).0.intervals ≡ some old
unfolding record_interval append
one_attempt fault e old s h = ground (arith, find_stays old.event_id old e s.intervals)

attempt-Distinct :
    (fault : Fault) (e : Event) (s : Store)
    → Distinct s.intervals
    → Distinct (record_interval fault e s).0.intervals
unfolding record_interval append
attempt-Distinct fault e s d = ground (arith, append-Distinct e s.intervals)

refused :
    (e old : Event) (s : Store)
    → find old.event_id s.intervals ≡ some old
    → e.event_id ≡ old.event_id
    → e ≢ old
    → (record_interval fine e s).1 ≡ value_error
unfolding record_interval
refused e old s h same ne =
    let found : find e.event_id s.intervals ≡ some old = rw same h in
    ground (arith, same_payload_iff old e)

-- Whatever is recorded after it, under whatever faults, a stored row is found under its id unchanged,
-- no two rows share an id if none did before, and another payload under the row's id is refused then.
pub stored_rows_stay :
    (cs : List (Fault × Event)) (s : Store) (old e : Event)
    → find old.event_id s.intervals ≡ some old
    → Distinct s.intervals
    → e.event_id ≡ old.event_id
    → e ≢ old
    → (find old.event_id (attempts cs s).intervals ≡ some old)
      × Distinct (attempts cs s).intervals
      × ((record_interval fine e (attempts cs s)).1 ≡ value_error)
unfolding attempts
stored_rows_stay [] s old e h d same ne = (h, d, refused e old s h same ne)
stored_rows_stay ((fault, c) ∷ cs) s old e h d same ne =
    stored_rows_stay cs (record_interval fault c s).0 old e (one_attempt fault c old s h)
      (attempt-Distinct fault c s d) same ne
