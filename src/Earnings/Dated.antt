-- ===== src/Earnings/Dated.antt =====
-- The day that the summaries of app/earnings.py bear.
use sigenergy_optimizer.Prelude.{
  ◌≡◌, refl, Bool, true, false, Option, none, some, if◌then◌else◌, str_eq,
}
use sigenergy_optimizer.Prelude.Int.{ℤ, pos, ◌+ℤ◌}
use sigenergy_optimizer.Earnings.Series.{Readers}
use sigenergy_optimizer.Earnings.Day.{
  EarningsSource, Summary, Calendar, ByEntity, summary_of, redated, credited,
  summarize_daily_source, summarize_lagged_daily_source, summarize_cumulative_source,
  summarize_shifted_cumulative_source, summarize_cached, amber_requires_month_boundary_fallback,
  normalize_daily_summary,
}

-- A summary, where there is one, is dated with the day and passes a test.
abbrev Passes : (Option Summary → Bool) → ℤ → Option Summary → Type 0
Passes test day none = Unit
Passes test day (some s) = (s.date ≡ day) × (test (some s) ≡ true)

abbrev pub Dated : ℤ → Option Summary → Type 0
Dated day none = Unit
Dated day (some s) = s.date ≡ day

summary_of-Dated :
    (day : ℤ) (source : EarningsSource) (a b c d : Option ℤ)
    → Dated day (summary_of day source a b c d)
unfolding normalize_daily_summary
summary_of-Dated day source none none none none = _
summary_of-Dated day source (some a) b c d = refl
summary_of-Dated day source none (some b) c d = refl
summary_of-Dated day source none none (some c) d = refl
summary_of-Dated day source none none none (some d) = refl

redated-Dated : (day : ℤ) (o : Option Summary) → Dated day (redated day o)
redated-Dated day none = _
redated-Dated day (some s) = refl

credited-Dated : (day : ℤ) (o : Option Summary) → Dated day (credited day o)
credited-Dated day none = _
credited-Dated day (some s) = refl

-- Either of two options that are dated.
pub if-Dated :
    (day : ℤ) (b : Bool) (o p : Option Summary)
    → Dated day o
    → Dated day p
    → Dated day (if b then o else p)
if-Dated day true o p h k = h
if-Dated day false o p h k = k

module _ (r : Readers) (c : Calendar) (source : EarningsSource) (day : ℤ) (by : ByEntity) where
  lagged-Dated : Dated day (summarize_lagged_daily_source r c source day by)
  unfolding summarize_lagged_daily_source
  lagged-Dated = credited-Dated day (summarize_daily_source r c source (day +ℤ pos 1) by)

  shifted-Dated : Dated day (summarize_shifted_cumulative_source r c source day by)
  unfolding summarize_shifted_cumulative_source
  shifted-Dated = redated-Dated day (summarize_cumulative_source r c source (day +ℤ pos 1) by)

  daily-Dated : Dated day (summarize_daily_source r c source day by)
  unfolding summarize_daily_source
  daily-Dated = summary_of-Dated day source _ _ _ _

  cumulative-Dated : Dated day (summarize_cumulative_source r c source day by)
  unfolding summarize_cumulative_source
  cumulative-Dated = summary_of-Dated day source _ _ _ _

  pub summarize_cached-Dated : Dated day (summarize_cached r c source day by)
  unfolding summarize_cached
  summarize_cached-Dated =
      let daily = summarize_daily_source r c source day by in
      let lagged = summarize_lagged_daily_source r c source day by in
      let shifted = summarize_shifted_cumulative_source r c source day by in
      let cumulative = summarize_cumulative_source r c source day by in
      let month = amber_requires_month_boundary_fallback c day in
      if-Dated day (str_eq source.mode "daily") daily _ daily-Dated (
        if-Dated day (str_eq source.mode "daily_lagged") lagged _ lagged-Dated (
          if-Dated day (str_eq source.mode "cumulative_shifted") (if month then lagged else shifted)
            cumulative (if-Dated day month lagged shifted lagged-Dated shifted-Dated)
            cumulative-Dated))
