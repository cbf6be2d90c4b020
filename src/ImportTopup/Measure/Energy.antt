-- ===== src/ImportTopup/Measure/Energy.antt =====
-- What app/import_topup_ledger.py bills over a run of observations of one day and source.
use sigenergy_optimizer.Prelude.{
  ℕ, ◌+◌, ◌-◌, ◌<◌, ◌≤◌, ◌≡◌, refl, Bool, true, false, not, ◌||◌, Option, none, some, List, [], ◌∷◌,
  arith, if◌then◌else◌, ◌∙◌, ap, if_both, is_none, ◌==◌,
}
use sigenergy_optimizer.Prelude.Int.{ℤ, pos, pos_part, ◌-ℤ◌, Number, finite, finite?}
use sigenergy_optimizer.ImportTopup.Event.{
  inactive, import_power_unavailable, interval_energy_unrepresentable, Cause,
  measurement_source_changed, import_counter_unavailable, import_permission_unproven,
  missing_initial_boundary, observation_gap_or_clock_change, unproven_day_or_source_boundary,
  import_counter_reset_or_unavailable,
}
use sigenergy_optimizer.ImportTopup.Ledger.{Sample, Ledger, mark_unknown, mark_last, check_source}
use sigenergy_optimizer.ImportTopup.Measure.{
  Observation, Metered, measured, measure, sample_of, entered, cover_boundary, energy_of, mark_if,
  mark_both, same_day, gap, is_measured, settle, counter, counter_lost, is_boundary,
}

-- What the doubts of a day leave alone.
record Same (l m : Ledger) : Type 0 where
  last : m.last ≡ l.last
  tail : m.import_tail_pending ≡ l.import_tail_pending

same : {l : Ledger} → Same l l
same = record { last = refl; tail = refl }

infixl 40 ◌>>◌
◌>>◌ : {l m n : Ledger} → Same l m → Same m n → Same l n
h >> k = record { last = k.last ∙ h.last; tail = k.tail ∙ h.tail }

mark-Same : (d : ℕ) (why : Cause) (l : Ledger) → Same l (mark_unknown d why l)
unfolding mark_unknown
mark-Same d why l = record { last = ground arith; tail = ground arith }

mark_if-Same : (b : Bool) (d : ℕ) (why : Cause) (l : Ledger) → Same l (mark_if b d why l)
mark_if-Same b d why l = if_both (Same l) b (mark-Same d why l) same

mark_both-Same : (d e : ℕ) (why : Cause) (l : Ledger) → Same l (mark_both d e why l)
mark_both-Same d e why l = mark-Same d why l >> mark-Same e why (mark_unknown d why l)

mark_last-Same : (why : Cause) (o : Option Sample) (l : Ledger) → Same l (mark_last why o l)
mark_last-Same why none l = same
mark_last-Same why (some p) l = mark-Same p.now.day why l

check_source-Same : (source d : ℕ) (l : Ledger) → Same l (check_source source d l)
unfolding check_source
check_source-Same source d l =
    let m = mark_unknown d measurement_source_changed l in
    if_both (Same l) (source == l.source) same (
      mark-Same d measurement_source_changed l
      >> mark_last-Same measurement_source_changed l.last m)

entered-Same : (o : Observation) (l : Ledger) → Same l (entered o l)
unfolding entered
entered-Same o l =
    let a = check_source o.source o.now.day l in
    let lost = is_none (counter (finite? o.daily_import_kwh)) in
    check_source-Same o.source o.now.day l
    >> mark_if-Same lost o.now.day import_counter_unavailable a
    >> mark_if-Same (not o.permission_known) o.now.day import_permission_unproven
        (mark_if lost o.now.day import_counter_unavailable a)

cover_boundary-Same :
    (p : Option Sample) (c : Sample) (l : Ledger) → Same l (cover_boundary p c l).0
unfolding cover_boundary
cover_boundary-Same none c l = mark-Same c.now.day missing_initial_boundary l
cover_boundary-Same (some p) c l =
    let far = mark_both c.now.day p.now.day observation_gap_or_clock_change l in
    let m = if gap c.now p.now then far else l in
    let on : Same l m =
      if_both (Same l) (gap c.now p.now)
        (mark_both-Same c.now.day p.now.day observation_gap_or_clock_change l) same in
    let P = λ (q : Ledger × List ℕ). Same l q.0 in
    if_both P (not (same_day p c))
      (if_both P (is_boundary p c) on
        (on >> mark_both-Same c.now.day p.now.day unproven_day_or_source_boundary m))
      (on
        >> mark_if-Same (counter_lost c.daily_kwh p.daily_kwh) c.now.day
            import_counter_reset_or_unavailable m)

-- Where a run has come to: the last sample, of this day, source, counter and activity.
pub record At (day source n : ℕ) (was : Bool) (l : Ledger) : Type 0 where
  pub previous : Sample
  pub last_eq : l.last ≡ some previous
  pub day_eq : previous.now.day ≡ day
  pub source_eq : previous.source ≡ source
  pub counter_eq : previous.daily_kwh ≡ some (pos n)
  pub active_eq : previous.active ≡ was
  pub no_tail : l.import_tail_pending ≡ false

-- Between two samples of a rising counter, its rise; whatever the power.
rise-measured :
    (p c : Sample) (power : Option ℤ) (n m : ℕ)
    → same_day p c ≡ true
    → p.daily_kwh ≡ some (pos n)
    → c.daily_kwh ≡ some (pos m)
    → n < m
    → ((measured (some p) c power).kwh ≡ pos (m - n))
      × ((measured (some p) c power).power_missing ≡ false)
unfolding measured ◌-ℤ◌
rise-measured p c power n m s hp hc h = ground arith

settled :
    (l : Ledger) (c : Sample)
    → l.import_tail_pending ≡ false
    → ((settle l c).0.last ≡ some c) × ((settle l c).0.import_tail_pending ≡ false)
settled l c h = rw h (refl, refl)

module _ (representable : ℤ → Bool) where
  energy-Same :
      (active : Bool) (p : Option Sample) (c : Sample) (power : Option ℤ) (l : Ledger)
      → Same l (energy_of representable active p c power l).0
  unfolding energy_of
  energy-Same active p c power l =
      let e : Metered =
        if active
        then measured p c power
        else record { kwh = pos 0; source = inactive; power_missing = false } in
      let m = mark_if e.power_missing c.now.day import_power_unavailable l in
      let on = mark_if-Same e.power_missing c.now.day import_power_unavailable l in
      if_both (λ (q : Ledger × Metered). Same l q.0) (representable e.kwh) on
        (on >> mark-Same c.now.day interval_energy_unrepresentable m)

  energy-active :
      (active : Bool) (p c : Sample) (power : Option ℤ) (l : Ledger) (n m : ℕ)
      → same_day p c ≡ true
      → p.daily_kwh ≡ some (pos n)
      → c.daily_kwh ≡ some (pos m)
      → n < m
      → representable (pos 0) ≡ true
      → representable (pos (m - n)) ≡ true
      → (energy_of representable active (some p) c power l).1.kwh
        ≡ (if active then pos (m - n) else pos 0)
  unfolding energy_of
  energy-active true p c power l n m s hp hc lt r0 r =
      let k = (rise-measured p c power n m s hp hc lt).0 in rw (k, r) refl
  energy-active false p c power l n m s hp hc lt r0 r = rw r0 refl

  finished :
      (day source n m : ℕ) (was : Bool) (p c : Sample) (power : Option ℤ) (l : Ledger)
      → l.import_tail_pending ≡ false
      → p.active ≡ was
      → same_day p c ≡ true
      → c.now.day ≡ day
      → c.source ≡ source
      → p.daily_kwh ≡ some (pos n)
      → c.daily_kwh ≡ some (pos m)
      → n < m
      → representable (pos 0) ≡ true
      → representable (pos (m - n)) ≡ true
      → At day source m c.active
          (settle (energy_of representable (is_measured (some p) c l) (some p) c power l).0 c).0
        × ((energy_of representable (is_measured (some p) c l) (some p) c power l).1.kwh
            ≡ (if was || c.active then pos (m - n) else pos 0))
  finished day source n m was p c power l t a s d so hp hc lt r0 r =
      let active = is_measured (some p) c l in
      let l' = (energy_of representable active (some p) c power l).0 in
      let end = settled l' c ((energy-Same active (some p) c power l).tail ∙ t) in
      let runs : active ≡ was || c.active = ground arith in
      (
        record {
          previous = c;
          last_eq = end.0;
          day_eq = d;
          source_eq = so;
          counter_eq = hc;
          active_eq = refl;
          no_tail = end.1;
        },
        energy-active active p c power l n m s hp hc lt r0 r
            ∙ ap (λ (b : Bool). if b then pos (m - n) else pos 0) runs,
      )

  finished_from :
      (day source n m : ℕ) (was : Bool) (q : Option Sample) (p c : Sample) (power : Option ℤ)
      (l : Ledger)
      → q ≡ some p
      → l.import_tail_pending ≡ false
      → p.active ≡ was
      → same_day p c ≡ true
      → c.now.day ≡ day
      → c.source ≡ source
      → p.daily_kwh ≡ some (pos n)
      → c.daily_kwh ≡ some (pos m)
      → n < m
      → representable (pos 0) ≡ true
      → representable (pos (m - n)) ≡ true
      → At day source m c.active
          (settle (energy_of representable (is_measured q c l) q c power l).0 c).0
        × ((energy_of representable (is_measured q c l) q c power l).1.kwh
            ≡ (if was || c.active then pos (m - n) else pos 0))
  finished_from day source n m was q p c power l known t a s d so hp hc lt r0 r =
      rw known (finished day source n m was p c power l t a s d so hp hc lt r0 r)

  step :
      (day source n m : ℕ) (was : Bool) (l : Ledger) (o : Observation)
      → At day source n was l
      → o.source ≡ source
      → o.now.day ≡ day
      → o.daily_import_kwh ≡ finite (pos m)
      → n < m
      → representable (pos 0) ≡ true
      → representable (pos (m - n)) ≡ true
      → At day source m o.import_active (measure representable o l).ledger
        × ((measure representable o l).kwh
            ≡ (if was || o.import_active then pos (m - n) else pos 0))
  unfolding measure
  step day source n m was l o a so do' co lt r0 r =
      let p = a.previous in
      let c = sample_of o in
      let entry = entered-Same o l in
      let known : (entered o l).last ≡ some p = entry.last ∙ a.last_eq in
      let counts : c.daily_kwh ≡ some (pos m) = rw co (ground arith) in
      let covered = cover_boundary-Same (entered o l).last c (entered o l) in
      let l' = (cover_boundary (entered o l).last c (entered o l)).0 in
      finished_from day source n m was (entered o l).last p c (finite? o.grid_import_kw) l' known
        (covered.tail ∙ entry.tail ∙ a.no_tail) a.active_eq (ground (arith, a.day_eq, a.source_eq))
        do' so a.counter_eq counts lt r0 r

  -- Observations of one day and source, each with a counter above the one before, and the last counter.
  abbrev pub Rises : ℕ → ℕ → ℕ → List Observation → ℕ → Type 0
  Rises day source n [] final = n ≡ final
  Rises day source n (o ∷ os) final =
      (m : ℕ) × (o.source ≡ source)
      × (o.now.day ≡ day)
      × (o.daily_import_kwh ≡ finite (pos m))
      × (n < m)
      × Rises day source m os final

  -- What the intervals of a run of observations bill, from a ledger on.
  unfoldable pub billed : Ledger → List Observation → ℕ
  unfolding measure
  billed l [] = 0
  billed l (o ∷ os) =
      pos_part (measure representable o l).kwh + billed (measure representable o l).ledger os

  abbrev pub reading : Number → ℕ
  reading (finite a) = pos_part a
  reading _ = 0

  -- The rises between two observations neither of which is active.
  unfoldable pub idle : Bool → ℕ → List Observation → ℕ
  idle was n [] = 0
  idle was n (o ∷ os) =
      (if was || o.import_active then 0 else reading o.daily_import_kwh - n)
      + idle o.import_active (reading o.daily_import_kwh) os

  end_is_above :
      (day source n : ℕ) (os : List Observation) (final : ℕ)
      → Rises day source n os final
      → n ≤ final
  end_is_above day source n [] final h = omega (arith, h)
  end_is_above day source n (o ∷ os) final (m, so, d, co, lt, more) =
      omega (arith, end_is_above day source m os final more)

  -- Over a run of observations of one day and source with a rising daily counter, whose energies a
  -- float holds, the intervals bill exactly the rise of the counter less the rises between two
  -- observations that are both inactive, whatever power was read meanwhile. The run starts from a
  -- ledger that holds the sample before it and prices no tail.
  pub active_rise_is_billed :
      (day source n : ℕ) (was : Bool) (l : Ledger) (os : List Observation) (final : ℕ)
      → At day source n was l
      → Rises day source n os final
      → ((k : ℕ) → k ≤ final → representable (pos k) ≡ true)
      → billed l os + idle was n os + n ≡ final
  unfolding billed idle
  active_rise_is_billed day source n was l [] final a h fits = omega (arith, h)
  active_rise_is_billed day source n was l (o ∷ os) final a (m, so, d, co, lt, more) fits =
      let top = end_is_above day source m os final more in
      let (a', kwh) =
        step day source n m was l o a so d co lt (fits 0 (omega arith))
          (fits (m - n) (omega (arith, top))) in
      let rest =
        active_rise_is_billed day source m o.import_active (measure representable o l).ledger os
          final a' more fits in
      let counts : reading o.daily_import_kwh ≡ m = ap reading co in
      shares (was || o.import_active) n m _ final _ _ (λ k. idle o.import_active k os) kwh counts lt
        rest
    where
      shares :
          (b : Bool) (n m x final : ℕ) (kwh : ℤ) (counter : ℕ) (idles : ℕ → ℕ)
          → kwh ≡ (if b then pos (m - n) else pos 0)
          → counter ≡ m
          → n < m
          → x + idles m + m ≡ final
          → pos_part kwh + x + ((if b then 0 else counter - n) + idles counter) + n ≡ final
      shares true n m x final kwh d idles hk hd lt h = rw (hk, hd) (omega (arith, lt, h))
      shares false n m x final kwh d idles hk hd lt h = rw (hk, hd) (omega (arith, lt, h))
