-- ===== src/SolarReentry/Tests.antt =====
-- Runs of app/solar_reentry.py's guard at concrete readings, and its theorems at them.
use sigenergy_optimizer.Prelude.{
  ℕ, ◌≡◌, ◌≢◌, refl, Bool, true, false, Option, none, some, arith, nat_eq,
}
use sigenergy_optimizer.Prelude.Int.{finite, units, ◌-ℤ◌}
use sigenergy_optimizer.SolarReentry.{
  reset, arm, start, advance, observe, evaluate, current, commit,
}
use sigenergy_optimizer.SolarReentry.State.{caller, Reading, Guard, fresh_guard, reports_fresh}
use sigenergy_optimizer.SolarReentry.Invariant.{IsValid}
use sigenergy_optimizer.SolarReentry.Dispatch.{
  Answer, Interval, evaluate-Answer, current-evaluate, evaluate_spans,
}
use sigenergy_optimizer.SolarReentry.Runs.{
  Reach, here, next, arms, evaluates, evaluate_never_asserts, stale_generation_is_dead,
}

abbrev reading : ℕ → Reading ℕ
reading t = record {
  reports = some (finite (units t), finite (units t));
  now_ts = finite (units t);
  now_mono = finite (units t);
  context = 7;
}

abbrev answered : Option (Guard ℕ × Bool) → Guard ℕ
answered none = fresh_guard
answered (some (g, b)) = g

abbrev armed : Guard ℕ
unfolding arm
armed = arm fresh_guard (caller 1)

abbrev after_first : Guard ℕ
unfolding armed evaluate reports_fresh observe reset start advance ◌-ℤ◌
after_first = answered (evaluate armed true (reading 10))

abbrev after_second : Guard ℕ
unfolding after_first evaluate reports_fresh observe reset start advance ◌-ℤ◌
after_second = answered (evaluate after_first true (reading 45))

second_is_granted : evaluate after_first true (reading 45) ≡ some (after_second, true)
unfolding after_second
second_is_granted = refl

armed-IsValid : IsValid armed
unfolding arm
armed-IsValid = ground arith

first_is_held : evaluate armed true (reading 10) ≡ some (after_first, false)
unfolding armed after_first
first_is_held = refl

to_first : Reach fresh_guard after_first
unfolding armed
to_first = next (next here (arms (caller 1))) (evaluates true (reading 10) first_is_held)

first-IsValid : IsValid after_first
unfolding after_first
first-IsValid = ground arith

evaluate-Answer_example : Answer true (reading 45) (evaluate after_first true (reading 45))
unfolding after_first
evaluate-Answer_example = evaluate-Answer after_first true (reading 45) refl first-IsValid

current-evaluate_example : current after_second after_second.generation (reading 45) ≡ true
unfolding after_first
current-evaluate_example =
    current-evaluate after_first after_second true (reading 45) refl first-IsValid second_is_granted

evaluate_spans_example : Interval after_second (reading 45)
unfolding after_first
evaluate_spans_example =
    evaluate_spans after_first after_second true (reading 45) refl first-IsValid second_is_granted

evaluate_never_asserts_example : evaluate after_first false (reading 45) ≢ none
evaluate_never_asserts_example = evaluate_never_asserts after_first false (reading 45) to_first

armed_to_first : Reach armed after_first
armed_to_first = next here (evaluates true (reading 10) first_is_held)

stale_generation_is_dead_example :
    (current after_first 0 (reading 45) ≡ false) × (commit after_first 0 ≡ (after_first, false))
unfolding armed
stale_generation_is_dead_example =
    stale_generation_is_dead 0 (reading 45) armed_to_first (omega arith)
