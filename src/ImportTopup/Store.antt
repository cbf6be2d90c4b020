-- ===== src/ImportTopup/Store.antt =====
-- app/state_store.py: the import tables as a value, with the transaction that appends an interval
-- and the legacy top-up rows. A database error is a fault that the caller of the
-- model chooses: before the commit, or after a commit that took effect.
pub mod Coverage
pub mod Replay
pub mod Rows
use sigenergy_optimizer.Prelude.{
  ℕ, ◌+◌, ◌*◌, ◌/◌, Bool, true, false, not, ◌&&◌, ◌||◌, Option, none, some, List, [], ◌∷◌, ◌++◌,
  ltb, ◌==◌, if◌then◌else◌, is_none, is_some,
}
use sigenergy_optimizer.Prelude.Int.{ℤ, pos, pos_part, ◌+ℤ◌, ltb_ℤ}
use sigenergy_optimizer.ImportTopup.Event.{
  Cause, continuous_coverage, coverage_not_proven, coverage_not_recorded, EventId, same_id,
  Checkpoint, Event, same_payload,
}

pub record Covered : Type 0 where
  pub unknown : Bool
  pub reason : Cause

-- A row of `optimizer_import_topup`.
pub record Topup : Type 0 where
  pub date : ℕ
  pub ts : ℤ
  pub import_kwh : ℤ
  pub import_price : Option ℤ
  pub price_trusted : Bool

pub record Store : Type 0 where
  pub topups : List Topup
  pub intervals : List Event
  pub checkpoint : Option (EventId × Checkpoint)
  pub coverage : List (ℕ × Covered)

pub data Fault : Type 0 where
  fine before_commit after_commit : Fault

pub data Reply : Type 0 where
  stored value_error database_error : Reply

-- `SELECT ... WHERE event_id = ?`
unfoldable pub find : EventId → List Event → Option Event
find i [] = none
find i (e ∷ es) = if same_id e.event_id i then some e else find i es

unfoldable pub covered : ℕ → List (ℕ × Covered) → Option Covered
covered d [] = none
covered d ((j, c) ∷ m) = if j == d then some c else covered d m

-- `ON CONFLICT(date) DO UPDATE SET unknown = 1`: the first reason of an unknown day stays.
unfoldable pub set_unknown : ℕ → Cause → List (ℕ × Covered) → List (ℕ × Covered)
set_unknown d why [] = (d, record { unknown = true; reason = why }) ∷ []
set_unknown d why ((j, c) ∷ m) =
    if j == d
    then (j, record { unknown = true; reason = if c.unknown then c.reason else why }) ∷ m
    else (j, c) ∷ set_unknown d why m

-- `INSERT OR IGNORE`
unfoldable pub insert_or_ignore : ℕ → Covered → List (ℕ × Covered) → List (ℕ × Covered)
insert_or_ignore d c [] = (d, c) ∷ []
insert_or_ignore d c ((j, b) ∷ m) = if j == d then (j, b) ∷ m else (j, b) ∷ insert_or_ignore d c m

unfoldable pub mark_all : List (ℕ × Cause) → List (ℕ × Covered) → List (ℕ × Covered)
mark_all [] m = m
mark_all ((d, why) ∷ ds) m = mark_all ds (set_unknown d why m)

unfoldable pub complete_all : List ℕ → List (ℕ × Covered) → List (ℕ × Covered)
complete_all [] m = m
complete_all (d ∷ ds) m =
    complete_all ds
      (insert_or_ignore d (record { unknown = false; reason = continuous_coverage }) m)

unfoldable pub contains : ℕ → List ℕ → Bool
contains d [] = false
contains d (j ∷ js) = j == d || contains d js

unfoldable pub cover : Event → List (ℕ × Covered) → List (ℕ × Covered)
cover e m =
    let marked = complete_all e.complete_days (mark_all e.unknown_days m) in
    if contains e.date e.complete_days
    then marked
    else insert_or_ignore e.date (record { unknown = true; reason = coverage_not_proven }) marked

-- What the transaction commits.
unfoldable pub append : Event → Store → Store
append e s = record s {
  intervals = s.intervals ++ e ∷ [];
  checkpoint = some (e.event_id, e.checkpoint);
  coverage = cover e s.coverage;
}

abbrev pub is_valid : Event → Bool
is_valid e = not (ltb_ℤ e.import_kwh (pos 0)) && (not e.price_trusted || is_some e.import_price)

abbrev commit : Fault → Event → Store → Store × Reply
commit fine e s = (append e s, stored)
commit before_commit e s = (s, database_error)
commit after_commit e s = (append e s, database_error)

abbrev unless_stored : Option Event → Fault → Event → Store → Store × Reply
unless_stored none fault e s = commit fault e s
unless_stored (some old) before_commit e s = (s, database_error)
unless_stored (some old) fault e s = (s, if same_payload old e then stored else value_error)

-- `record_optimizer_import_interval`
unfoldable pub record_interval : Fault → Event → Store → Store × Reply
record_interval fault e s =
    if is_valid e then unless_stored (find e.event_id s.intervals) fault e s else (s, value_error)

abbrev pub clamp : ℤ → ℤ
clamp k = pos (pos_part k)

-- `record_optimizer_import_topup`, for a price that is a finite number or `None`.
unfoldable pub record_topup : Fault → ℕ → ℤ → ℤ → Option ℤ → Bool → Store → Store × Reply
record_topup before_commit date ts kwh price trusted s = (s, database_error)
record_topup fault date ts kwh price trusted s = (
  record s {
    topups =
        s.topups
        ++ record {
          date = date;
          ts = ts;
          import_kwh = clamp kwh;
          import_price = price;
          price_trusted = trusted && is_some price;
        }
          ∷ [];
  },
  elim fault [ after_commit ↦ database_error | _ ↦ stored ],
)
