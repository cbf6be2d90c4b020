-- ===== src/Earnings/Sound.antt =====
-- What the service of app/earnings.py reports for a day.
use sigenergy_optimizer.Prelude.{
  ◌≡◌, refl, ◌⊎◌, inl, inr, String, Bool, true, false, Option, none, some, List, [], ◌∷◌,
  if◌then◌else◌, ◌≤◌, ◌*◌, ◌+◌, ◌&&◌, str_eq, arith, Bool-cases,
}
use sigenergy_optimizer.Prelude.Int.{ℤ, pos, pos_part, neg_part, ◌≤ℤ◌, leb_ℤ, units}
use sigenergy_optimizer.Earnings.Series.{Readers}
use sigenergy_optimizer.Earnings.Dated.{Dated, if-Dated, summarize_cached-Dated}
use sigenergy_optimizer.Earnings.Day.{
  EarningsSource, Summary, Calendar, is_acceptable_summary, is_relaxed_ha_summary,
  is_plausible_summary, is_estimated_unit_price_sane, implied_rate_in_bounds,
  normalize_daily_summary,
}
use sigenergy_optimizer.Earnings.Sources.{
  Settings, Stage, preference, fallback, Answers, annotated, zero_estimated, is_usable, or_summary,
  find_source, or_zeros, entities,
}
use sigenergy_optimizer.Earnings.{
  source_summary, summary_from_current_daily_state, first_passing, tried, fetch_history,
  available_sources, preferred_keys, best_relaxed_ha_fallback, or_estimate, daily_summary,
  all_available,
}

-- A summary, where there is one, is dated with the day and passes a test.
abbrev Passes : (Option Summary → Bool) → ℤ → Option Summary → Type 0
Passes test day none = Unit
Passes test day (some s) = (s.date ≡ day) × (test (some s) ≡ true)

if-Passes :
    (test : Option Summary → Bool) (day : ℤ) (o : Option Summary)
    → Dated day o
    → Passes test day (if test o then o else none)
if-Passes test day none h = elim (test none) as (λ b. Passes test day (if b then none else none)) [
  | true ↦ _
  | false ↦ _
]
if-Passes test day (some s) h = elim (Bool-cases (test (some s))) [
  | inl passed ↦ rw passed (h, passed)
  | inr failed ↦ rw failed _
]

or_summary-Passes :
    (test : Option Summary → Bool) (day : ℤ) (o p : Option Summary)
    → Passes test day o
    → Passes test day p
    → Passes test day (or_summary o p)
or_summary-Passes test day none p h k = k
or_summary-Passes test day (some s) p h k = h

-- At most five for a kilowatt-hour, where there are 0.05 kWh at least.
abbrev pub BoundedRate : ℤ → ℤ → Type 0
BoundedRate amount kwh =
    (kwh ≤ℤ pos 49_999) ⊎ (pos_part amount + neg_part amount ≤ 5 * pos_part kwh)

abbrev pub IsModest : Summary → Type 0
IsModest s =
    (s.total_import_kwh ≤ℤ units 200)
    × (s.total_export_kwh ≤ℤ units 200)
    × BoundedRate s.import_costs s.total_import_kwh
    × BoundedRate s.export_earnings s.total_export_kwh

-- A day's summary bears its date and no negative amount; unless it is measured, its energies and its
-- rates are bounded.
abbrev pub IsSound : ℤ → Summary → Type 0
IsSound day s =
    (s.date ≡ day)
    × (pos 0 ≤ℤ s.total_import_kwh)
    × (pos 0 ≤ℤ s.total_export_kwh)
    × (pos 0 ≤ℤ s.import_costs)
    × (pos 0 ≤ℤ s.export_earnings)
    × ((s.is_estimated ≡ false) ⊎ IsModest s)

acceptable-IsSound :
    (day : ℤ) (s : Summary) → Passes is_acceptable_summary day (some s) → IsSound day s
unfolding is_acceptable_summary is_plausible_summary is_estimated_unit_price_sane
    implied_rate_in_bounds
acceptable-IsSound day s h =
    let ok = h.1 in (h.0, ground arith, ground arith, ground arith, ground arith, ground arith)

relaxed-IsSound :
    (day : ℤ) (s : Summary) → Passes is_relaxed_ha_summary day (some s) → IsSound day s
unfolding is_relaxed_ha_summary implied_rate_in_bounds
relaxed-IsSound day s h =
    let ok = h.1 in (h.0, ground arith, ground arith, ground arith, ground arith, ground arith)

module _ (r : Readers) (c : Calendar) (cfg : Settings) (ha : Answers) where
  current-Dated :
      (stage : Stage) (s : EarningsSource) (day : ℤ)
      → Dated day (summary_from_current_daily_state r c cfg ha stage s day)
  unfolding summary_from_current_daily_state normalize_daily_summary
  current-Dated stage s day =
      if-Dated day (all_available r c cfg ha stage s (entities s)) (some _) none refl _

  source_summary-Dated :
      (stage : Stage) (s : EarningsSource) (day today : ℤ)
      → Dated day (source_summary r c cfg ha stage s day today)
  unfolding source_summary
  source_summary-Dated stage s day today =
      if-Dated day (str_eq s.mode "daily" && (leb_ℤ day today && leb_ℤ today day))
        (summary_from_current_daily_state r c cfg ha stage s day) _ (current-Dated stage s day)
        (summarize_cached-Dated r c s day (fetch_history r c cfg ha s day))

  tried-Passes :
      (stage : Stage) (test : Option Summary → Bool) (day today : ℤ) (o : Option EarningsSource)
      → Passes test day (tried r c cfg ha stage test day today o)
  tried-Passes stage test day today none = _
  tried-Passes stage test day today (some s) =
      if-Passes test day (source_summary r c cfg ha stage s day today)
        (source_summary-Dated stage s day today)

  first_passing-Passes :
      (stage : Stage) (test : Option Summary → Bool) (day today : ℤ) (ks : List String)
      → Passes test day (first_passing r c cfg ha stage test day today ks)
  unfolding first_passing
  first_passing-Passes stage test day today [] = _
  first_passing-Passes stage test day today (k ∷ ks) =
      or_summary-Passes test day _ _
        (tried-Passes stage test day today
          (is_usable (find_source k (available_sources r c cfg ha))))
        (first_passing-Passes stage test day today ks)

  -- The fallback passes the relaxed test, and zeros are acceptable.
  or_zeros-IsSound :
      (day : ℤ) (o : Option Summary)
      → Passes is_relaxed_ha_summary day o
      → IsSound day (or_zeros day o)
  unfolding zero_estimated
  or_zeros-IsSound day none h =
      (refl, ground arith, ground arith, ground arith, ground arith, ground arith)
  or_zeros-IsSound day (some s) h = relaxed-IsSound day s h

  fallback-Passes :
      (day today : ℤ)
      → Passes is_relaxed_ha_summary day (best_relaxed_ha_fallback r c cfg ha day today)
  unfolding best_relaxed_ha_fallback
  fallback-Passes day today = first_passing-Passes fallback is_relaxed_ha_summary day today _

  or_estimate-IsSound :
      (day today : ℤ) (o : Option Summary)
      → Passes is_acceptable_summary day o
      → IsSound day (or_estimate r c cfg ha day today o)
  or_estimate-IsSound day today (some s) h = acceptable-IsSound day s h
  or_estimate-IsSound day today none h =
      let sampled = annotated day (ha.sampled day) in
      let backed = best_relaxed_ha_fallback r c cfg ha day today in
      elim (Bool-cases (is_acceptable_summary (some sampled))) [
        | inl passed ↦ rw passed (acceptable-IsSound day sampled (refl, passed))
        | inr failed ↦ rw failed (or_zeros-IsSound day backed (fallback-Passes day today))
      ]

  -- Whatever Home Assistant and the store answer, the summary of a day bears that day and no negative
  -- energy, cost or earning; where it is marked as estimated, its energies are 200 kWh at most, and
  -- its cost and its earning are at most five for a kilowatt-hour, unless there is less than 0.05 kWh.
  pub daily_summary-IsSound : (day today : ℤ) → IsSound day (daily_summary r c cfg ha day today)
  unfolding daily_summary
  daily_summary-IsSound day today =
      or_estimate-IsSound day today
        (first_passing r c cfg ha preference is_acceptable_summary day today
          (preferred_keys r c cfg ha day today))
        (first_passing-Passes preference is_acceptable_summary day today _)
