-- ===== src/ImportTopup/Tests.antt =====
-- Runs of app/import_topup_ledger.py and app/state_store.py, and the theorems at them.
use sigenergy_optimizer.Prelude.{
  ℕ, ◌+◌, ◌≤◌, ◌≡◌, refl, inl, inr, Bool, true, false, none, some, List, [], ◌∷◌, ◌++◌, arith,
  length,
}
use sigenergy_optimizer.Prelude.Int.{pos, finite, units, ◌+ℤ◌, ◌-ℤ◌}
use sigenergy_optimizer.ImportTopup.Event.{
  caller, startup_or_legacy_history, continuous_coverage, daily_import_delta, Event,
}
use sigenergy_optimizer.ImportTopup.Store.{
  Store, Covered, Fault, fine, before_commit, after_commit, stored, value_error, find, covered,
  record_interval, append, cover, mark_all, complete_all, set_unknown, insert_or_ignore, contains,
}
use sigenergy_optimizer.ImportTopup.Store.Coverage.{unknown_day_stays}
use sigenergy_optimizer.ImportTopup.Store.Replay.{record_replay, record_retry}
use sigenergy_optimizer.ImportTopup.DaySummary.{
  Priced, Summary, rows, tally, count_row, higher, round3, topup_rows, interval_rows,
}
use sigenergy_optimizer.ImportTopup.DaySummary
use sigenergy_optimizer.ImportTopup.DaySummary.Floor.{Has, Paid, trusted_floor_covers}
use sigenergy_optimizer.ImportTopup.Ledger.{
  Moment, Sample, Ledger, World, flush_queue, flush, invalidate, mark_unknown, unknown_reason,
  create, retain,
}
use sigenergy_optimizer.ImportTopup.Store.Rows.{Distinct, stored_rows_stay, attempts}
use sigenergy_optimizer.ImportTopup.Ledger.Delivery.{
  InSync, Delivers, flush-Delivers, flush_completes,
}
use sigenergy_optimizer.ImportTopup.Ledger.Bounds.{retain_bounded}
use sigenergy_optimizer.ImportTopup.Ledger.Snapshots.{Extends, retain-Extends}
use sigenergy_optimizer.ImportTopup.Measure.{Observation}
use sigenergy_optimizer.ImportTopup.Measure.Energy.{billed, idle, At, active_rise_is_billed}
use sigenergy_optimizer.ImportTopup.Reconcile.{has_pending_on, retire}
use sigenergy_optimizer.ImportTopup.Worker.{write_all}
use sigenergy_optimizer.ImportTopup.Worker.Deferred.{deferred_delivery}
use sigenergy_optimizer.ImportTopup.Reconcile
use sigenergy_optimizer.ImportTopup.Reconcile.Complete.{
  Call, invalidates, flushes, run, after, complete_is_vouched, lost_trust_is_final,
}

abbrev event : ℕ → ℕ → Event
event n kwh = record {
  event_id = record { session = 5; sequence = n };
  date = 100;
  ts = units n;
  import_kwh = pos kwh;
  import_price = some (pos 300_000);
  price_trusted = true;
  energy_source = daily_import_delta;
  checkpoint = record {
    source = 1;
    date = 100;
    ts = units n;
    daily_import_kwh = some (pos kwh);
    import_active = true;
    permission_known = true;
    import_tail_pending = false;
    session_id = 5;
    sequence = n;
  };
  unknown_days = [];
  complete_days = 100 ∷ [];
  permission_changed_at = none;
}

abbrev empty_store : Store
empty_store = record { topups = []; intervals = []; checkpoint = none; coverage = [] }

abbrev doubted : Covered
doubted = record { unknown = true; reason = startup_or_legacy_history }

abbrev doubtful : Store
doubtful = record empty_store { coverage = (100, doubted) ∷ [] }

unknown_day_stays_example :
    covered 100 (record_interval fine (event 1 20_000) doubtful).0.coverage ≡ some doubted
unfolding covered
unknown_day_stays_example = unknown_day_stays fine (event 1 20_000) doubtful 100 doubted refl refl

abbrev one_row : Store
one_row = record empty_store {
  intervals = event 1 20_000 ∷ [];
  checkpoint = some ((event 1 20_000).event_id, (event 1 20_000).checkpoint);
  coverage = (100, record { unknown = false; reason = continuous_coverage }) ∷ [];
}

one_row_lem : append (event 1 20_000) empty_store ≡ one_row
unfolding append cover mark_all complete_all set_unknown insert_or_ignore contains
one_row_lem = refl

record_replay_example : record_interval fine (event 1 20_000) one_row ≡ (one_row, stored)
unfolding find
record_replay_example = record_replay (event 1 20_000) one_row refl refl

record_retry_example :
    record_interval fine
      (event 1 20_000)
      (record_interval after_commit (event 1 20_000) empty_store).0
    ≡ record_interval fine (event 1 20_000) empty_store
record_retry_example = record_retry after_commit (event 1 20_000) empty_store

abbrev retries : List (Fault × Event)
retries = (after_commit, event 2 30_000) ∷ (fine, event 1 30_000) ∷ (fine, event 2 30_000) ∷ []

stored_rows_stay_example :
    (find (event 1 20_000).event_id (attempts retries one_row).intervals ≡ some (event 1 20_000))
    × Distinct (attempts retries one_row).intervals
    × ((record_interval fine (event 1 30_000) (attempts retries one_row)).1 ≡ value_error)
unfolding find
stored_rows_stay_example =
    stored_rows_stay retries one_row (event 1 20_000) (event 1 30_000) refl (refl, tt) refl
      (λ p. ground arith)

abbrev bought : Priced
bought = record { import_kwh = pos 20_000; import_price = some (pos 300_000); price_trusted = true }

bought_there : Has bought (rows one_row 100)
unfolding topup_rows interval_rows
bought_there = inl refl

floor_is_trusted : (DaySummary.summary one_row 100).import_cost_floor_trusted ≡ true
unfolding DaySummary.summary topup_rows interval_rows tally count_row higher covered
floor_is_trusted = refl

trusted_floor_covers_example : Paid bought (DaySummary.summary one_row 100).import_cost_export_floor
trusted_floor_covers_example =
    trusted_floor_covers one_row 100 bought bought_there refl floor_is_trusted

the_floor : (DaySummary.summary one_row 100).import_cost_export_floor ≡ some (pos 300_000)
unfolding DaySummary.summary topup_rows interval_rows tally count_row higher covered
the_floor = refl

abbrev queued : List Event
queued = event 1 20_000 ∷ event 2 30_000 ∷ []

queued-Distinct : Distinct queued
unfolding find
queued-Distinct = (refl, (refl, tt))

flush-Delivers_example : Delivers queued (flush_queue queued empty_store (fine ∷ after_commit ∷ []))
flush-Delivers_example =
    flush-Delivers queued queued-Distinct queued empty_store (fine ∷ after_commit ∷ [])
      (refl, (refl, tt)) (inl refl)

-- The acknowledgement of the first event was lost.
half_way : InSync one_row.intervals queued queued
unfolding find
half_way = inr (event 1 20_000, event 2 30_000 ∷ [], refl, refl, refl)

flush_completes_example : (flush_queue queued one_row []).store.intervals ≡ queued
flush_completes_example =
    (flush_completes queued queued-Distinct queued one_row (refl, (refl, tt)) half_way).2

abbrev day : ℕ → ℕ → Moment
day d t = record { instant = units t; day = d; aware = true }

abbrev ledger : Ledger
ledger = record {
  source = 1;
  session_id = 5;
  sequence = 0;
  last = none;
  applied_active = false;
  import_tail_pending = false;
  pending = [];
  pending_limit = 2;
  unknown_days = (100, startup_or_legacy_history) ∷ [];
  unknown_revision = 1;
  queued_unknown_revision = 0;
  checkpoint_loaded = false;
  snapshot_retained = false;
  deferred = false;
  observation_generation = 0;
  summary_cache = none;
}

created : create (day 100 0) 1 5 2 false ≡ some ledger
unfolding create
created = refl

abbrev world : World
world = record { ledger = ledger; store = empty_store; faults = before_commit ∷ [] }

retain_bounded_example :
    (length (retain (event 1 20_000) world).0.ledger.pending ≤ 2)
    × ((retain (event 1 20_000) world).0.ledger.pending_limit ≡ 2)
retain_bounded_example = retain_bounded (event 1 20_000) world (omega arith)

retain-Extends_example : Extends [] (event 1 20_000) (retain (event 1 20_000) world)
unfolding find
retain-Extends_example = retain-Extends [] (event 1 20_000) world (refl, tt) refl (inl refl, tt)

abbrev sample : ℕ → ℕ → Sample
sample t kwh = record {
  now = day 100 t;
  source = 1;
  daily_kwh = some (pos kwh);
  active = true;
  permission_known = true;
}

abbrev observed : ℕ → ℕ → Bool → Observation
observed t kwh active = record {
  now = day 100 t;
  source = 1;
  daily_import_kwh = finite (pos kwh);
  grid_import_kw = finite (pos 9);
  import_price = finite (pos 300_000);
  price_trusted = true;
  import_active = active;
  permission_known = true;
}

-- The import ends, rests between the first two observations, and starts again.
abbrev resting : List Observation
resting = observed 60 25_000 false ∷ observed 120 40_000 false ∷ observed 180 70_000 true ∷ []

abbrev running : Ledger
running = record ledger { last = some (sample 0 10_000); checkpoint_loaded = true }

running-At : At 100 1 10_000 true running
running-At = record {
  previous = sample 0 10_000;
  last_eq = refl;
  day_eq = refl;
  source_eq = refl;
  counter_eq = refl;
  active_eq = refl;
  no_tail = refl;
}

active_rise_is_billed_example :
    billed (λ k. true) running resting + idle (λ k. true) true 10_000 resting + 10_000 ≡ 70_000
active_rise_is_billed_example =
    active_rise_is_billed (λ k. true) 100 1 10_000 true running resting 70_000 running-At
      (
        25_000,
        refl,
        refl,
        refl,
        omega arith,
        (40_000, refl, refl, refl, omega arith, (70_000, refl, refl, refl, omega arith, refl)),
      )
      (λ k h. refl)

rest_of_resting : idle (λ k. true) true 10_000 resting ≡ 15_000
unfolding idle
rest_of_resting = refl

abbrev trusted_world : World
trusted_world = record {
  ledger = record ledger {
    unknown_days = [];
    last = some (sample 120 20_000);
    checkpoint_loaded = true;
  };
  store = one_row;
  faults = [];
}

abbrev complete : Summary
complete = record {
  date = 100;
  today_import_topup_kwh = pos 20_000;
  today_highest_actual_import_price = some (pos 300_000);
  import_cost_export_floor = some (pos 300_000);
  import_cost_floor_trusted = true;
  import_cost_floor_unknown = false;
  import_history_complete = true;
  import_history_reason = continuous_coverage;
}

summary_is_complete : (Reconcile.summary 100 1 (some (day 100 130)) trusted_world).1 ≡ some complete
unfolding Reconcile.summary DaySummary.summary topup_rows interval_rows tally count_row higher
    covered round3 ◌+ℤ◌ ◌-ℤ◌
summary_is_complete = refl

complete_is_vouched_example :
    has_pending_on 100 (Reconcile.summary 100 1 (some (day 100 130)) trusted_world).0.ledger.pending
    ≡ false
complete_is_vouched_example =
    (complete_is_vouched 100 1 (some (day 100 130)) trusted_world complete summary_is_complete
      refl).1

abbrev calls : List Call
calls = invalidates (day 101 5) (caller 3) false ∷ flushes ∷ []

abbrev partial : Summary
partial = record {
  date = 100;
  today_import_topup_kwh = pos 0;
  today_highest_actual_import_price = none;
  import_cost_export_floor = none;
  import_cost_floor_trusted = false;
  import_cost_floor_unknown = true;
  import_history_complete = false;
  import_history_reason = startup_or_legacy_history;
}

abbrev quiet : World
quiet = record world { faults = [] }

summary_is_partial : (Reconcile.summary 100 1 none (run (λ _. true) quiet calls)).1 ≡ some partial
unfolding run after Reconcile.summary DaySummary.summary topup_rows interval_rows tally count_row
    higher covered round3 ◌+ℤ◌ ◌-ℤ◌ invalidate flush flush_queue mark_unknown unknown_reason
summary_is_partial = refl

lost_trust_is_final_example : partial.import_history_complete ≡ false
unfolding unknown_reason
lost_trust_is_final_example =
    lost_trust_is_final (λ _. true) 100 1 startup_or_legacy_history none quiet calls partial refl
      summary_is_partial

deferred_delivery_example :
    InSync
      (write_all queued empty_store (fine ∷ after_commit ∷ [])).store.intervals
      (retire
        (write_all queued empty_store (fine ∷ after_commit ∷ [])).acknowledged
        (queued ++ event 3 0 ∷ []))
      (queued ++ event 3 0 ∷ [])
deferred_delivery_example =
    deferred_delivery queued (event 3 0 ∷ []) queued empty_store (fine ∷ after_commit ∷ [])
      queued-Distinct (refl, (refl, tt)) (inl refl)
