-- ===== src/ImportTopup/Reconcile.antt =====
-- app/import_topup_ledger.py: `summary`, and the exchange of immutable snapshots with the database
-- worker (`reconciliation_snapshot`, `accept_reconciliation`).
pub mod Complete
use sigenergy_optimizer.Prelude.{
  ℕ, ◌+◌, ◌*◌, ◌/◌, Bool, true, false, not, ◌&&◌, ◌||◌, Option, none, some, List, [], ◌∷◌, map,
  take, ◌==◌, if◌then◌else◌, is_none,
}
use sigenergy_optimizer.Prelude.Int.{ℤ, pos, pos_part, ◌-ℤ◌, ltb_ℤ, leb_ℤ, Number, finite?, units}
use sigenergy_optimizer.ImportTopup.Event.{
  Cause, restart_gap, import_counter_unavailable, import_permission_unproven,
  observation_gap_or_clock_change, missing_initial_boundary, unproven_day_or_source_boundary,
  import_counter_reset_or_unavailable, import_power_unavailable, interval_energy_unrepresentable,
  interval_snapshot_unretained, permission_snapshot_unretained, missing_current_process_boundary,
  history_unavailable, interval_reconciliation_pending, import_tail_measurement_pending,
  EnergySource, inactive, unproven_boundary, daily_import_delta, grid_import_power_integral,
  unrepresentable_interval, permission_boundary, EventId, same_id, Checkpoint, Event,
}
use sigenergy_optimizer.ImportTopup.Measure.{gap}
use sigenergy_optimizer.ImportTopup.Store.{Fault, fine}
use sigenergy_optimizer.ImportTopup.DaySummary
use sigenergy_optimizer.ImportTopup.DaySummary.{Summary}
use sigenergy_optimizer.ImportTopup.Ledger.{
  Moment, Sample, Key, Ledger, World, Outcome, returned, raised, value_error, mark_unknown,
  mark_last, check_source, unknown_reason, load_checkpoint, next_fault, later_faults, flush, retain,
  invalidate,
}

abbrev pub cache_key : ℕ → ℕ → Ledger → Key
cache_key d source l = record {
  observation_generation = l.observation_generation;
  unknown_revision = l.unknown_revision;
  day = d;
  source = source;
  sequence = l.sequence;
}

abbrev pub same_key : Key → Key → Bool
same_key a b =
    a.observation_generation == b.observation_generation
    && (a.unknown_revision == b.unknown_revision
        && (a.day == b.day && (a.source == b.source && a.sequence == b.sequence)))

-- `reconciliation_snapshot`: the key, the first sixteen payloads, and whether to read the checkpoint.
unfoldable pub reconciliation_snapshot : ℕ → ℕ → Ledger → Key × List Event × Bool
reconciliation_snapshot d source l =
    (cache_key d source l, take 16 l.pending, not l.checkpoint_loaded)

-- What the worker brings back.
pub record Reconciled : Type 0 where
  pub acknowledged : List EventId
  pub checkpoint : Option ℕ
  pub checkpoint_read : Bool
  pub summary : Summary
  pub successful : Bool

-- Only an exact head of the queue is retired.
unfoldable pub retire : List EventId → List Event → List Event
retire [] es = es
retire (i ∷ is) [] = []
retire (i ∷ is) (e ∷ es) = let rest = retire is es in if same_id e.event_id i then rest else e ∷ es

abbrev pub restarted : Option ℕ → Ledger → Ledger
restarted none l = l
restarted (some d) l = mark_unknown d restart_gap l

abbrev pub is_empty : List Event → Bool
is_empty [] = true
is_empty (e ∷ es) = false

-- The acknowledged head leaves the queue, and a failed exchange drops the cache.
abbrev pub taken : Reconciled → Ledger → Ledger
taken r l = record l {
  summary_cache = if r.successful then l.summary_cache else none;
  pending = retire r.acknowledged l.pending;
}

-- The first checkpoint that is read marks its day.
abbrev pub caught_up : Reconciled → Ledger → Ledger
caught_up r l =
    if r.checkpoint_read && not l.checkpoint_loaded
    then record (restarted r.checkpoint l) { checkpoint_loaded = true }
    else l

-- A summary is cached only if the queue is empty and nothing changed since the snapshot.
abbrev pub cache : Key → Reconciled → Ledger → Ledger
cache key r l =
    if r.successful
      && (is_empty l.pending
          && (not l.import_tail_pending && same_key key (cache_key key.day key.source l)))
    then record l { summary_cache = some (key, r.summary) }
    else l

-- `accept_reconciliation`
unfoldable pub accept_reconciliation : Key → Reconciled → Ledger → Ledger
unfolding retire
accept_reconciliation key r l = cache key r (caught_up r (taken r l))

-- `_unknown_summary`
abbrev unknown_summary : ℕ → Summary
unknown_summary d = record {
  date = d;
  today_import_topup_kwh = pos 0;
  today_highest_actual_import_price = none;
  import_cost_export_floor = none;
  import_cost_floor_trusted = false;
  import_cost_floor_unknown = true;
  import_history_complete = false;
  import_history_reason = history_unavailable;
}

-- `summary` marks the day, if the caller's observation does not continue the last sample.
abbrev pub observe_boundary : ℕ → Option Moment → Option Sample → Ledger → Ledger
observe_boundary d none p l = l
observe_boundary d (some now) none l = mark_unknown d missing_current_process_boundary l
observe_boundary d (some now) (some p) l =
    if gap now p.now
    then mark_unknown p.now.day observation_gap_or_clock_change
        (mark_unknown d observation_gap_or_clock_change l)
    else l

abbrev cached : ℕ → ℕ → Ledger → Option (Key × Summary) → Option Summary
cached d source l none = none
cached d source l (some (key, s)) = if same_key key (cache_key d source l) then some s else none

-- The stored summary, from the cache of a deferred ledger or from the store; `none` is an exception
-- or a cache that does not fit.
abbrev pub stored_summary : ℕ → ℕ → World → Option Summary × List Fault
stored_summary d source w =
    if w.ledger.deferred
    then (cached d source w.ledger w.ledger.summary_cache, w.faults)
    else elim (next_fault w.faults) [
      | fine ↦ (some (DaySummary.summary w.store d), later_faults w.faults)
      | _ ↦ (none, later_faults w.faults)
    ]

unfoldable pub has_pending_on : ℕ → List Event → Bool
has_pending_on d [] = false
has_pending_on d (e ∷ es) = e.date == d || has_pending_on d es

abbrev or_if : Option Cause → Bool → Cause → Option Cause
or_if (some why) b new = some why
or_if none b new = if b then some new else none

-- Why the ledger itself does not vouch for the day.
unfoldable pub doubt : ℕ → Ledger → Option Cause
unfolding has_pending_on unknown_reason
doubt d l =
    or_if
      (or_if (unknown_reason d l.unknown_days) (has_pending_on d l.pending)
        interval_reconciliation_pending)
      l.import_tail_pending import_tail_measurement_pending

abbrev or_reason : Option Cause → Cause → Cause
or_reason (some why) stored_reason = why
or_reason none stored_reason = stored_reason

abbrev pub finished : Option Cause → Summary → Summary
finished why s = if s.import_history_complete && is_none why then s else record s {
  import_history_complete = false;
  import_history_reason = or_reason why s.import_history_reason;
  import_cost_floor_unknown = true;
  import_cost_floor_trusted = false;
}

abbrev pub or_unknown : ℕ → Option Cause → Option Summary → Summary
or_unknown d why none = unknown_summary d
or_unknown d why (some s) = finished why s

abbrev pub summarize : ℕ → ℕ → World → World × Option Summary
summarize d source w =
    let (s, faults) = stored_summary d source w in
    (record w { faults = faults }, some (or_unknown d (doubt d w.ledger) s))

abbrev pub is_naive : Option Moment → Bool
is_naive none = false
is_naive (some now) = not now.aware

-- `summary`; the answer `none` is the `ValueError` of a time without an offset.
unfoldable pub summary : ℕ → ℕ → Option Moment → World → World × Option Summary
unfolding check_source load_checkpoint doubt
summary d source observed_at w =
    if is_naive observed_at
    then (w, none)
    else (let w' =
          load_checkpoint d
            (record w { ledger = observe_boundary d observed_at w.ledger.last w.ledger }) in
        summarize d source (record w' { ledger = check_source source d w'.ledger }))
