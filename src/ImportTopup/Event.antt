-- ===== src/ImportTopup/Event.antt =====
-- The interval that app/import_topup_ledger.py queues and app/state_store.py stores. A payload is
-- kept as the record that its JSON text spells; a civil day is its number, an instant is in
-- millionths of a second, energy and price in millionths.
use native.Mathlib.Decide.{ℕ_discrete}
use sigenergy_optimizer.Prelude.{ℕ, ◌≡◌, ◌↔◌, refl, Bool, true, false, Option, List, ◌&&◌, ◌==◌}
use sigenergy_optimizer.Prelude.Int.{ℤ}

-- Why a day's history is not proven.
pub data Cause : Type 0 where
  startup_or_legacy_history restart_gap checkpoint_unavailable measurement_source_changed : Cause
  import_counter_unavailable import_permission_unproven observation_gap_or_clock_change : Cause
  missing_initial_boundary unproven_day_or_source_boundary : Cause
  import_counter_reset_or_unavailable import_power_unavailable : Cause
  interval_energy_unrepresentable pending_interval_overflow missing_current_process_boundary : Cause
  interval_snapshot_unretained permission_snapshot_unretained application_not_confirmed : Cause
  -- reasons of the store and of a summary
  continuous_coverage coverage_not_proven coverage_not_recorded history_unavailable : Cause
  interval_reconciliation_pending import_tail_measurement_pending history_unverified : Cause
  -- a reason that a caller hands to `invalidate`
  caller : ℕ → Cause

pub data EnergySource : Type 0 where
  inactive unproven_boundary daily_import_delta grid_import_power_integral : EnergySource
  unrepresentable_interval permission_boundary : EnergySource

-- f"{session_id}:{sequence}"
pub record EventId : Type 0 where
  pub session : ℕ
  pub sequence : ℕ

abbrev pub same_id : EventId → EventId → Bool
same_id a b = a.session == b.session && a.sequence == b.sequence

pub record Checkpoint : Type 0 where
  pub source : ℕ
  pub date : ℕ
  pub ts : ℤ
  pub daily_import_kwh : Option ℤ
  pub import_active : Bool
  pub permission_known : Bool
  pub import_tail_pending : Bool
  pub session_id : ℕ
  pub sequence : ℕ

pub record Event : Type 0 where
  pub event_id : EventId
  pub date : ℕ
  pub ts : ℤ
  pub import_kwh : ℤ
  pub import_price : Option ℤ
  pub price_trusted : Bool
  pub energy_source : EnergySource
  pub checkpoint : Checkpoint
  pub unknown_days : List (ℕ × Cause)
  pub complete_days : List ℕ
  pub permission_changed_at : Option ℤ

pub Event-discrete : Discrete Event
Event-discrete = hlevel ℕ_discrete

-- Two payloads spell the same JSON text.
pub same_payload : Event → Event → Bool
same_payload a b = elim (Event-discrete a b) [ yes h ↦ true | no h ↦ false ]

pub same_payload_iff : (a b : Event) → (same_payload a b ≡ true) ↔ (a ≡ b)
unfolding same_payload
same_payload_iff a b =
    elim (Event-discrete a b) as (λ d. (elim d [ yes h ↦ true | no h ↦ false ] ≡ true) ↔ (a ≡ b)) [
      | yes h ↦ (λ _. h, λ _. refl)
      | no h ↦ (λ e. cc, λ e. absurd (h e))
    ]
