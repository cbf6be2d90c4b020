-- ===== src/Earnings.antt =====
-- app/earnings.py: the choice of a day's summary among the sources. What Home Assistant and the store
-- answer are parameters, by the time of asking; the `await`s of the class ask them one by one, and a
-- request in which one raises has no part in the model.
pub mod Series
pub mod Day
pub mod Sources
pub mod Counter
pub mod Dated
pub mod Sound
pub mod Tests
use sigenergy_optimizer.Prelude.{
  ℕ, ◌+◌, ◌-◌, listed, String, str_eq, Bool, true, false, not, ◌&&◌, ◌||◌, Option, none, some, List,
  [], ◌∷◌, ◌++◌, if◌then◌else◌, zero, suc,
}
use sigenergy_optimizer.Prelude.Int.{ℤ, pos, ◌-ℤ◌, ◌+ℤ◌, ltb_ℤ, leb_ℤ}
use Series.{Row, Readers, is_available_state, to_float, unavailable}
use Day.{
  EarningsSource, Summary, Calendar, ByEntity, rows_of, preferred_auto_source_keys,
  normalize_daily_summary, or_zero, summarize_cached, is_acceptable_summary, is_relaxed_ha_summary,
}
use Sources.{
  Settings, Stage, Amounts, Answers, estimated_source, given, source_definitions, entities,
  find_source, named_by, dicts, head_of, tail_of, put, series_from, series_by_entity, annotated,
  zero_estimated, one_of, is_usable, or_summary, without_estimated, with_others, or_zeros,
  availability, preference, fallback,
}

module _ (r : Readers) (c : Calendar) (cfg : Settings) (ha : Answers) where
  -- An entity that is not set is never asked for, and is not available.
  abbrev pub all_available : Stage → EarningsSource → List String → Bool
  all_available stage s [] = true
  all_available stage s (e ∷ es) =
      given e && is_available_state r (ha.states stage s.key e) && all_available stage s es

  abbrev pub available_of : List EarningsSource → List EarningsSource
  available_of [] = estimated_source ∷ []
  available_of (s ∷ ss) =
      let rest = available_of ss in
      if all_available availability s (entities s) then s ∷ rest else rest

  abbrev pub wanted : List EarningsSource → List EarningsSource
  wanted [] = []
  wanted (s ∷ ss) =
      let rest = wanted ss in
      if str_eq cfg.source_pref "auto" || str_eq s.key cfg.source_pref then s ∷ rest else rest

  -- The sources by key, in order; "estimated" stands last, and no definition has that key.
  unfoldable pub available_sources : List EarningsSource
  unfolding source_definitions estimated_source is_available_state
  available_sources =
      if str_eq cfg.source_pref "estimated"
      then estimated_source ∷ []
      else available_of (wanted (source_definitions cfg))

  abbrev pub number_at : Stage → EarningsSource → String → ℤ
  number_at stage s e = elim (ha.states stage s.key e) [
    | none ↦ pos 0
    | some row ↦ or_zero (to_float r row.state)
  ]

  unfoldable pub summary_from_current_daily_state : Stage → EarningsSource → ℤ → Option Summary
  unfolding is_available_state normalize_daily_summary to_float
  summary_from_current_daily_state stage s day =
      if all_available stage s (entities s)
      then some (
          normalize_daily_summary day s (number_at stage s s.import_energy_entity)
            (number_at stage s s.export_energy_entity) (number_at stage s s.import_value_entity)
            (number_at stage s s.export_value_entity))
      else none

  -- `_fetch_history`; a minute and the days are in microseconds, or midnights.
  unfoldable pub fetch_history : EarningsSource → ℤ → ByEntity
  unfolding series_by_entity
  fetch_history s day =
      let from =
        if one_of "cumulative" "cumulative_shifted" s.mode
        then c.midnight (day -ℤ pos 2)
        else c.midnight day -ℤ pos 60_000_000 in
      let to =
        if one_of "daily_lagged" "cumulative_shifted" s.mode
        then c.midnight (day +ℤ pos 2)
        else c.midnight (day +ℤ pos 1) in
      series_by_entity (ha.history (entities s) from to) (entities s)

  -- One round of either loop: the summary of a source for a day. The history of a source is asked for
  -- once in a request.
  unfoldable pub source_summary : Stage → EarningsSource → ℤ → ℤ → Option Summary
  unfolding summary_from_current_daily_state fetch_history summarize_cached
  source_summary stage s day today =
      if str_eq s.mode "daily" && (leb_ℤ day today && leb_ℤ today day)
      then summary_from_current_daily_state stage s day
      else summarize_cached r c s day (fetch_history s day)

  abbrev pub tried :
      Stage → (Option Summary → Bool) → ℤ → ℤ → Option EarningsSource → Option Summary
  tried stage test day today none = none
  tried stage test day today (some s) =
      if test (source_summary stage s day today) then source_summary stage s day today else none

  -- The loop over keys that stops at the first summary that passes the test.
  unfoldable pub first_passing :
      Stage → (Option Summary → Bool) → ℤ → ℤ → List String → Option Summary
  unfolding source_summary available_sources
  first_passing stage test day today [] = none
  first_passing stage test day today (k ∷ ks) =
      or_summary (tried stage test day today (is_usable (find_source k available_sources)))
        (first_passing stage test day today ks)

  unfoldable pub preferred_keys : ℤ → ℤ → List String
  unfolding preferred_auto_source_keys
  preferred_keys day today =
      if str_eq cfg.source_pref "auto"
      then preferred_auto_source_keys day today
      else cfg.source_pref ∷ "estimated" ∷ []

  unfoldable pub best_relaxed_ha_fallback : ℤ → ℤ → Option Summary
  unfolding first_passing preferred_keys is_relaxed_ha_summary
  best_relaxed_ha_fallback day today =
      first_passing fallback is_relaxed_ha_summary day today
        (with_others (without_estimated (preferred_keys day today)) available_sources)

  abbrev pub or_estimate : ℤ → ℤ → Option Summary → Summary
  or_estimate day today (some s) = s
  or_estimate day today none =
      if is_acceptable_summary (some (annotated day (ha.sampled day)))
      then annotated day (ha.sampled day)
      else or_zeros day (best_relaxed_ha_fallback day today)

  unfoldable pub daily_summary : ℤ → ℤ → Summary
  unfolding first_passing preferred_keys is_acceptable_summary best_relaxed_ha_fallback
      zero_estimated
  daily_summary day today =
      or_estimate day today
        (first_passing preference is_acceptable_summary day today (preferred_keys day today))
