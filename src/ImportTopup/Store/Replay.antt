-- ===== src/ImportTopup/Store/Replay.antt =====
-- Retries against app/state_store.py, by a writer that saw a database error.
use sigenergy_optimizer.Prelude.{◌≡◌, refl, true, Option, none, some, List, [], ◌∷◌, ◌++◌, arith}
use sigenergy_optimizer.ImportTopup.Event.{EventId, same_id, Event, same_payload_iff}
use sigenergy_optimizer.ImportTopup.Store.{
  Store, Fault, fine, before_commit, after_commit, stored, find, append, record_interval, is_valid,
}

pub same_id_refl : (i : EventId) → same_id i i ≡ true
same_id_refl i = ground arith

-- An absent id is found in the row that is appended under it.
pub find-append :
    (e : Event) (es : List Event)
    → find e.event_id es ≡ none
    → find e.event_id (es ++ e ∷ []) ≡ some e
unfolding find
find-append e [] h = ground (arith, same_id_refl e.event_id)
find-append e (x ∷ es) h = ground (arith, find-append e es)

-- A replay of an interval that is stored changes nothing and is acknowledged.
pub record_replay :
    (e : Event) (s : Store)
    → is_valid e ≡ true
    → find e.event_id s.intervals ≡ some e
    → record_interval fine e s ≡ (s, stored)
unfolding record_interval
record_replay e s v h = ground (arith, same_payload_iff e e)

retry_from :
    (fault : Fault) (e : Event) (s : Store) (o : Option Event)
    → find e.event_id s.intervals ≡ o
    → record_interval fine e (record_interval fault e s).0 ≡ record_interval fine e s
unfolding record_interval append
retry_from fine e s none h = ground (arith, find-append e s.intervals, same_payload_iff e e)
retry_from before_commit e s none h = ground arith
retry_from after_commit e s none h = ground (arith, find-append e s.intervals, same_payload_iff e e)
retry_from fine e s (some old) h = ground arith
retry_from before_commit e s (some old) h = ground arith
retry_from after_commit e s (some old) h = ground arith

-- A retry is exactly-once: whatever fault the first attempt met, before the commit or after it, one
-- more attempt that meets none leaves the store and the reply that a single attempt would have left.
pub record_retry :
    (fault : Fault) (e : Event) (s : Store)
    → record_interval fine e (record_interval fault e s).0 ≡ record_interval fine e s
record_retry fault e s = retry_from fault e s (find e.event_id s.intervals) refl
