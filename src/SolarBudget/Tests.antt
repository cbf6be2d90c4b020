-- ===== src/SolarBudget/Tests.antt =====
-- Runs of app/optimizer.py's timing budgets at a concrete forecast, and the theorems at it.
use sigenergy_optimizer.Prelude.{◌≡◌, ◌≤◌, refl, true, some, List, [], ◌∷◌, arith}
use sigenergy_optimizer.Prelude.Int.{pos, ◌-ℤ◌, ◌+ℤ◌, Number, finite, units}
use sigenergy_optimizer.SolarBudget.{
  overlap, opportunity, opportunities, timed_budget, timing_budget, refill_budget, Window, min_ℤ,
  max_ℤ,
}
use sigenergy_optimizer.SolarBudget.Phases.{Related, slow_phase_offers_less, equal_phases_offer_all}

-- Two half hours with 3 kW and 5 kW.
abbrev forecast : List (Number × Number)
forecast = (finite (units 0), finite (units 3)) ∷ (finite (units 1_800), finite (units 5)) ∷ []

abbrev window : Window
window = record {
  forecast_period_hours = finite (pos 500_000);
  start_ts = finite (units 600);
  end_ts = finite (units 3_600);
  load_kw = finite (units 1);
  fill_need_kwh = finite (units 1);
  safety_factor = finite (pos 1_100_000);
}

-- 2 kW for 1200 seconds and 4 kW for 1800 seconds.
plain_offer :
    timing_budget forecast window (finite (units 5))
    ≡ some (record { fill_need = 1_000_000; opportunity = 9_600_000_000_000_000; passed = true })
unfolding timing_budget timed_budget opportunity overlap ◌-ℤ◌ ◌+ℤ◌
plain_offer = refl

-- The slow phase ends at 2400 seconds; it charges with 1 kW.
piecewise_offer :
    refill_budget forecast window (finite (units 2_400)) (finite (units 1)) (finite (units 5))
    ≡ some (record {
      fill_need = 1_000_000;
      slow_opportunity = 1_800_000_000_000_000;
      normal_opportunity = 4_800_000_000_000_000;
      passed = true;
    })
unfolding refill_budget opportunities overlap ◌-ℤ◌ ◌+ℤ◌
piecewise_offer = refl

slow_phase_offers_less_example :
    Related
      (λ a b. a ≤ b)
      (opportunities 1_000_000 1_000_000 5_000_000
        (units 1_800)
        (units 600)
        (min_ℤ (max_ℤ (units 2_400) (units 600)) (units 3_600))
        (units 3_600)
        forecast)
      (opportunity 1_000_000 5_000_000 (units 1_800) (units 600) (units 3_600) forecast)
slow_phase_offers_less_example =
    slow_phase_offers_less 1_000_000 (units 1_800) (units 2_400) (units 600) (units 3_600) forecast
      refl 1_000_000 5_000_000 (omega arith)

equal_phases_offer_all_example :
    Related
      (λ a b. a ≡ b)
      (opportunities 1_000_000 5_000_000 5_000_000
        (units 1_800)
        (units 600)
        (min_ℤ (max_ℤ (units 2_400) (units 600)) (units 3_600))
        (units 3_600)
        forecast)
      (opportunity 1_000_000 5_000_000 (units 1_800) (units 600) (units 3_600) forecast)
equal_phases_offer_all_example =
    equal_phases_offer_all 1_000_000 (units 1_800) (units 2_400) (units 600) (units 3_600) forecast
      refl 5_000_000
