-- ===== src/EveningBoost/Tests.antt =====
-- Runs of app/optimizer.py's evening boost at concrete observations, and its theorems at them.
use sigenergy_optimizer.Prelude.{
  ℕ, ◌≡◌, ◌≢◌, inl, refl, Bool, true, false, Option, none, some, arith, nat_eq,
}
use sigenergy_optimizer.Prelude.Int.{finite, units, ◌-ℤ◌, other}
use sigenergy_optimizer.EveningBoost.{reset, begin, advance, observe, allowed}
use sigenergy_optimizer.EveningBoost.Evidence.{
  Observed, Inputs, is_owner, is_proven, is_close, evidence,
}
use sigenergy_optimizer.EveningBoost.State.{Boost, fresh_boost, cycle_cancelled}
use sigenergy_optimizer.EveningBoost.Application.{
  Application, dispatch_current, finish_application, is_completed, is_pending,
}
use sigenergy_optimizer.EveningBoost.Settlement.{Answer, allowed-Answer, dispatch-allowed}
use sigenergy_optimizer.EveningBoost.Runs.{
  Reach, here, next, asks, Reach-IsValid, no_stamp_is_missing,
}
use sigenergy_optimizer.EveningBoost.Verified.{Survives, only_verified_applications_keep_decisions}
use sigenergy_optimizer.EveningBoost.Generations.{stale_decision_is_dead}

abbrev proven_at : ℕ → Observed
proven_at t = record {
  available = true;
  fresh = true;
  expected = true;
  observed_at_ts = some (units t);
}

abbrev inputs_at : ℕ → Inputs
inputs_at t = record {
  live_snapshot = true;
  manual_mode_override = false;
  mode_observed = true;
  mode_automated = true;
  ha_control_enabled = true;
  switch_available = true;
  switch_on = true;
  load_power_trusted = true;
  sunrise_trusted = true;
  control_mode = proven_at t;
  persistent_helper = true;
  remote_ems_control = proven_at t;
  data_max_age = units 120;
  load_available = true;
  load_fresh = true;
  load_stamp = finite (units t);
  load_value = finite (units 2);
  load_kw = units 2;
  sunrise = finite (units 90_000);
}

abbrev answered : Option (Boost ℕ × Bool) → Boost ℕ
answered none = fresh_boost
answered (some (b, answer)) = b

abbrev first_tick : Boost ℕ
unfolding allowed observe reset begin advance is_owner is_proven is_close evidence ◌-ℤ◌
first_tick =
    answered (allowed fresh_boost true false (inputs_at 10) (units 10) (finite (units 10)) 7)

abbrev second_tick : Boost ℕ
unfolding first_tick allowed observe reset begin advance is_owner is_proven is_close evidence ◌-ℤ◌
second_tick =
    answered (allowed first_tick true false (inputs_at 65) (units 65) (finite (units 65)) 7)

abbrev third_tick : Boost ℕ
unfolding second_tick allowed observe reset begin advance is_owner is_proven is_close evidence ◌-ℤ◌
third_tick =
    answered (allowed second_tick true false (inputs_at 120) (units 120) (finite (units 120)) 7)

abbrev fourth_tick : Boost ℕ
unfolding third_tick allowed observe reset begin advance is_owner is_proven is_close evidence ◌-ℤ◌
fourth_tick =
    answered (allowed third_tick true false (inputs_at 135) (units 135) (finite (units 135)) 7)

first_waits :
    allowed fresh_boost true false (inputs_at 10) (units 10) (finite (units 10)) 7
    ≡ some (first_tick, false)
unfolding first_tick
first_waits = refl

second_waits :
    allowed first_tick true false (inputs_at 65) (units 65) (finite (units 65)) 7
    ≡ some (second_tick, false)
unfolding second_tick
second_waits = refl

third_waits :
    allowed second_tick true false (inputs_at 120) (units 120) (finite (units 120)) 7
    ≡ some (third_tick, false)
unfolding third_tick
third_waits = refl

fourth_is_admitted :
    allowed third_tick true false (inputs_at 135) (units 135) (finite (units 135)) 7
    ≡ some (fourth_tick, true)
unfolding fourth_tick
fourth_is_admitted = refl

to_third : Reach fresh_boost third_tick
to_third =
    next
      (next
        (next here (asks true false (inputs_at 10) (units 10) (finite (units 10)) 7 first_waits))
        (asks true false (inputs_at 65) (units 65) (finite (units 65)) 7 second_waits))
      (asks true false (inputs_at 120) (units 120) (finite (units 120)) 7 third_waits)

allowed-Answer_example :
    Answer true false
      (inputs_at 135)
      (units 135)
      (finite (units 135))
      7
      third_tick.reentry.phase
      (allowed third_tick true false (inputs_at 135) (units 135) (finite (units 135)) 7)
allowed-Answer_example =
    allowed-Answer third_tick true false (inputs_at 135) (units 135) (finite (units 135)) 7
      (Reach-IsValid to_third (inl refl))

dispatch-allowed_example :
    dispatch_current fourth_tick true
      (some fourth_tick.reentry.generation)
      (inputs_at 135)
      (units 135)
      (finite (units 135))
      7
    ≡ some true
dispatch-allowed_example =
    dispatch-allowed third_tick fourth_tick true false (inputs_at 135) (units 135)
      (finite (units 135)) 7 (Reach-IsValid to_third (inl refl)) fourth_is_admitted

abbrev completed : Application
completed = record {
  succeeded = true;
  automatic_application_completed = true;
  transition_pending = false;
  automatic_transition_pending = false;
  fallback_attempted = false;
}

abbrev kept : Boost ℕ
unfolding fourth_tick finish_application is_completed is_pending is_owner is_proven is_close
    evidence ◌-ℤ◌
kept = (finish_application fourth_tick true (inputs_at 136) (units 136) (some completed)).boost

-- The admission rests on the report at 135 seconds, which is read again.
kept_dispatches :
    dispatch_current kept true (some 0) (inputs_at 135) (units 136) (finite (units 136)) 7
    ≡ some true
unfolding kept dispatch_current
kept_dispatches = refl

only_verified_applications_keep_decisions_example :
    Survives fourth_tick true (inputs_at 136) (units 136) (some completed)
unfolding kept
only_verified_applications_keep_decisions_example =
    only_verified_applications_keep_decisions {b = fourth_tick} {b' = kept} true (inputs_at 136)
      (units 136) (some completed) 0 true (inputs_at 135) (units 136) (finite (units 136)) 7 here
      (omega arith) kept_dispatches

no_stamp_is_missing_example :
    (allowed third_tick true false (inputs_at 135) (units 135) other 7 ≢ none)
    × (dispatch_current third_tick true (some 0) (inputs_at 135) (units 135) other 7 ≢ none)
no_stamp_is_missing_example =
    no_stamp_is_missing third_tick true false (inputs_at 135) (units 135) other 7 true (some 0)
      (inputs_at 135) (units 135) other 7 to_third

stale_decision_is_dead_example :
    dispatch_current
      (reset fourth_tick cycle_cancelled)
      true
      (some 0)
      (inputs_at 136)
      (units 136)
      (finite (units 136))
      7
    ≡ some false
unfolding reset
stale_decision_is_dead_example =
    stale_decision_is_dead {b = reset fourth_tick cycle_cancelled} 0 true (inputs_at 136)
      (units 136) (finite (units 136)) 7 here (omega arith)
