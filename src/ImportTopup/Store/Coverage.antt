-- ===== src/ImportTopup/Store/Coverage.antt =====
-- The coverage table of app/state_store.py under the transaction that records an interval.
use sigenergy_optimizer.Prelude.{ℕ, ◌≡◌, true, some, List, [], ◌∷◌, arith}
use sigenergy_optimizer.ImportTopup.Event.{Cause, Event}
use sigenergy_optimizer.ImportTopup.Store.{
  Covered, Store, Fault, covered, set_unknown, insert_or_ignore, mark_all, complete_all, cover,
  append, record_interval,
}

abbrev Keeps : (List (ℕ × Covered) → List (ℕ × Covered)) → Type 0
Keeps f =
    (d : ℕ) (c : Covered) (m : List (ℕ × Covered))
    → covered d m ≡ some c
    → c.unknown ≡ true
    → covered d (f m) ≡ some c

set_unknown-Keeps : (j : ℕ) (why : Cause) → Keeps (set_unknown j why)
unfolding covered set_unknown
set_unknown-Keeps j why d c [] h u = cc
set_unknown-Keeps j why d c ((i, b) ∷ m) h u = ground (arith, set_unknown-Keeps j why d c m)

-- An insertion never replaces a row.
covered-insert_or_ignore :
    (j : ℕ) (b : Covered) (d : ℕ) (c : Covered) (m : List (ℕ × Covered))
    → covered d m ≡ some c
    → covered d (insert_or_ignore j b m) ≡ some c
unfolding covered insert_or_ignore
covered-insert_or_ignore j b d c [] h = cc
covered-insert_or_ignore j b d c ((i, a) ∷ m) h = ground (arith, covered-insert_or_ignore j b d c m)

mark_all-Keeps : (ds : List (ℕ × Cause)) → Keeps (mark_all ds)
unfolding mark_all
mark_all-Keeps [] d c m h u = h
mark_all-Keeps ((j, why) ∷ ds) d c m h u =
    mark_all-Keeps ds d c (set_unknown j why m) (set_unknown-Keeps j why d c m h u) u

complete_all-Keeps : (ds : List ℕ) → Keeps (complete_all ds)
unfolding complete_all
complete_all-Keeps [] d c m h u = h
complete_all-Keeps (j ∷ ds) d c m h u =
    complete_all-Keeps ds d c _ (covered-insert_or_ignore j _ d c m h) u

pub cover-Keeps : (e : Event) → Keeps (cover e)
unfolding cover
cover-Keeps e d c m h u = grind (
  arith,
  covered-insert_or_ignore,
  complete_all-Keeps e.complete_days d c (mark_all e.unknown_days m)
      (mark_all-Keeps e.unknown_days d c m h u) u,
)

-- A day that the table calls unknown stays unknown for its first reason, whatever interval is
-- recorded and however the database fails.
pub unknown_day_stays :
    (fault : Fault) (e : Event) (s : Store) (d : ℕ) (c : Covered)
    → covered d s.coverage ≡ some c
    → c.unknown ≡ true
    → covered d (record_interval fault e s).0.coverage ≡ some c
unfolding record_interval append
unknown_day_stays fault e s d c h u = ground (arith, cover-Keeps e d c s.coverage)
