-- ===== src/ImportTopup/Ledger.antt =====
-- app/import_topup_ledger.py: the state of `ImportTopupLedger`, its queue of unacknowledged intervals
-- and how they reach the store. The ledger, the store that it holds and the faults that the database
-- has in stock travel together as a `World`; capture and summary stand in Capture.antt.
pub mod Delivery
pub mod Doubt
pub mod Bounds
pub mod Snapshots
use sigenergy_optimizer.Prelude.{
  ℕ, ◌+◌, Bool, true, false, not, ◌&&◌, ◌||◌, Option, none, some, List, [], ◌∷◌, ◌++◌, length, ltb,
  leb, ◌==◌, if◌then◌else◌,
}
use sigenergy_optimizer.Prelude.Int.{ℤ}
use sigenergy_optimizer.ImportTopup.Event.{
  Cause, startup_or_legacy_history, restart_gap, checkpoint_unavailable, measurement_source_changed,
  pending_interval_overflow, application_not_confirmed, EnergySource, EventId, Checkpoint, Event,
}
use sigenergy_optimizer.ImportTopup.Store.{Store, Fault, fine, Reply, stored, record_interval}
use sigenergy_optimizer.ImportTopup.DaySummary.{Summary}

-- A `datetime`: the instant, the civil day that it falls on, and whether it has an offset.
pub record Moment : Type 0 where
  pub instant : ℤ
  pub day : ℕ
  pub aware : Bool

pub record Sample : Type 0 where
  pub now : Moment
  pub source : ℕ
  pub daily_kwh : Option ℤ
  pub active : Bool
  pub permission_known : Bool

-- The tuple of `_cache_key`.
pub record Key : Type 0 where
  pub observation_generation : ℕ
  pub unknown_revision : ℕ
  pub day : ℕ
  pub source : ℕ
  pub sequence : ℕ

pub record Ledger : Type 0 where
  pub source : ℕ
  pub session_id : ℕ
  pub sequence : ℕ
  pub last : Option Sample
  pub applied_active : Bool
  pub import_tail_pending : Bool
  pub pending : List Event
  pub pending_limit : ℕ
  pub unknown_days : List (ℕ × Cause)
  pub unknown_revision : ℕ
  pub queued_unknown_revision : ℕ
  pub checkpoint_loaded : Bool
  pub snapshot_retained : Bool
  pub deferred : Bool
  pub observation_generation : ℕ
  pub summary_cache : Option (Key × Summary)

pub record World : Type 0 where
  pub ledger : Ledger
  pub store : Store
  pub faults : List Fault

pub data Error : Type 0 where
  value_error queue_full storage_error : Error

pub data Outcome : Type 0 where
  returned : Outcome
  raised : Error → Outcome

-- `__init__`; `session` is the fresh `uuid4`.
unfoldable pub create : Moment → ℕ → ℕ → ℕ → Bool → Option Ledger
create started_at source session limit deferred =
    if not started_at.aware || ltb limit 1
    then none
    else some (record {
      source = source;
      session_id = session;
      sequence = 0;
      last = none;
      applied_active = false;
      import_tail_pending = false;
      pending = [];
      pending_limit = limit;
      unknown_days = (started_at.day, startup_or_legacy_history) ∷ [];
      unknown_revision = 1;
      queued_unknown_revision = 0;
      checkpoint_loaded = false;
      snapshot_retained = false;
      deferred = deferred;
      observation_generation = 0;
      summary_cache = none;
    })

unfoldable pub unknown_reason : ℕ → List (ℕ × Cause) → Option Cause
unknown_reason d [] = none
unknown_reason d ((j, why) ∷ ds) = if j == d then some why else unknown_reason d ds

abbrev mark_new : Option Cause → ℕ → Cause → Ledger → Ledger
mark_new (some old) d why l = l
mark_new none d why l = record l {
  unknown_days = l.unknown_days ++ (d, why) ∷ [];
  unknown_revision = l.unknown_revision + 1;
}

-- `_mark_unknown`: the first reason of a day stays.
unfoldable pub mark_unknown : ℕ → Cause → Ledger → Ledger
mark_unknown d why l = mark_new (unknown_reason d l.unknown_days) d why l

abbrev pub mark_last : Cause → Option Sample → Ledger → Ledger
mark_last why none l = l
mark_last why (some p) l = mark_unknown p.now.day why l

-- `_check_source`
unfoldable pub check_source : ℕ → ℕ → Ledger → Ledger
check_source source d l =
    if source == l.source
    then l
    else mark_last measurement_source_changed l.last (mark_unknown d measurement_source_changed l)

-- The fault that the next database call meets.
abbrev pub next_fault : List Fault → Fault
next_fault [] = fine
next_fault (f ∷ fs) = f

abbrev pub later_faults : List Fault → List Fault
later_faults [] = []
later_faults (f ∷ fs) = fs

abbrev restart : Option (EventId × Checkpoint) → Ledger → Ledger
restart none l = l
restart (some (i, c)) l = mark_unknown c.date restart_gap l

abbrev read_checkpoint : Fault → ℕ → World → World
read_checkpoint fine d w = record w {
  ledger = record (restart w.store.checkpoint w.ledger) { checkpoint_loaded = true };
  faults = later_faults w.faults;
}
read_checkpoint _ d w = record w {
  ledger = mark_unknown d checkpoint_unavailable w.ledger;
  faults = later_faults w.faults;
}

-- `_load_checkpoint`
unfoldable pub load_checkpoint : ℕ → World → World
load_checkpoint d w =
    if w.ledger.checkpoint_loaded || w.ledger.deferred
    then w
    else read_checkpoint (next_fault w.faults) d w

pub record Flushed : Type 0 where
  pub pending : List Event
  pub store : Store
  pub faults : List Fault
  pub outcome : Outcome

-- The loop of `flush`: the head leaves the queue only after its write was acknowledged.
unfoldable pub flush_queue : List Event → Store → List Fault → Flushed
flush_queue [] s fs = record { pending = []; store = s; faults = fs; outcome = returned }
flush_queue (e ∷ es) s fs =
    let (s', reply) = record_interval (next_fault fs) e s in
    let rest = flush_queue es s' (later_faults fs) in
    let stopped : Flushed = record {
      pending = e ∷ es;
      store = s';
      faults = later_faults fs;
      outcome = raised storage_error;
    } in
    elim reply [ stored ↦ rest | _ ↦ stopped ]

abbrev flushed : World → Flushed → World × Outcome
flushed w f = (
  record w { ledger = record w.ledger { pending = f.pending }; store = f.store; faults = f.faults },
  f.outcome,
)

unfoldable pub flush : World → World × Outcome
flush w =
    if w.ledger.deferred
    then (w, returned)
    else flushed w (flush_queue w.ledger.pending w.store w.faults)

abbrev is_unconfirmed : Cause → Bool
is_unconfirmed application_not_confirmed = true
is_unconfirmed _ = false

-- `invalidate`; the last argument is `permission_unknown`.
unfoldable pub invalidate : Moment → Cause → Bool → Ledger → Ledger
invalidate now why permission_unknown l =
    let l' = record l {
      observation_generation = l.observation_generation + 1;
      summary_cache = none;
      last = elim l.last [
        | none ↦ none
        | some p ↦ some (
            if permission_unknown || is_unconfirmed why
            then record p { permission_known = false }
            else p)
      ];
    } in
    mark_last why l'.last (mark_unknown now.day why l')

abbrev pub is_returned : Outcome → Bool
is_returned returned = true
is_returned (raised e) = false

-- The queue is full even after a flush: the day stays unknown, and the snapshot is refused.
abbrev pub make_room : ℕ → World × Outcome → World × Outcome
make_room d (w, raised e) =
    (record w { ledger = mark_unknown d pending_interval_overflow w.ledger }, raised e)
make_room d (w, returned) =
    if leb w.ledger.pending_limit (length w.ledger.pending)
    then (
      record w { ledger = mark_unknown d pending_interval_overflow w.ledger },
      raised queue_full,
    )
    else (w, returned)

-- The snapshot joins the queue, and the queue is flushed.
abbrev pub enqueue : Event → World × Outcome → World × Outcome
enqueue e (w, raised why) = (w, raised why)
enqueue e (w, returned) = flush (record w {
  ledger = record w.ledger {
    pending = w.ledger.pending ++ e ∷ [];
    snapshot_retained = true;
    queued_unknown_revision = w.ledger.unknown_revision;
  };
})

unfoldable pub retain : Event → World → World × Outcome
unfolding flush
retain e w =
    if leb w.ledger.pending_limit (length w.ledger.pending)
    then enqueue e (make_room e.date (flush w))
    else enqueue e (w, returned)
