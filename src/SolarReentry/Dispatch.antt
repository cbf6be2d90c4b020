-- ===== src/SolarReentry/Dispatch.antt =====
-- What an answer of `evaluate` is worth to the dispatcher of app/solar_reentry.py's guard.
use sigenergy_optimizer.Prelude.{
  ◌≡◌, refl, Bool, true, false, Option, none, some, arith, Eq, Bool-cases, inl, inr, ◌∙◌,
  if◌then◌else◌,
}
use sigenergy_optimizer.Prelude.Int.{ℤ, ◌-ℤ◌, ◌≤ℤ◌, Number, finite?}
use sigenergy_optimizer.SolarReentry.{reset, observe, with_clock, evaluate, current, adopt, judge}
use sigenergy_optimizer.SolarReentry.State.{
  Phase, qualified, candidate_failed, clock_invalid, Stamps, Clock, Reading, Guard, reports_fresh,
  clock_before, qualification_seconds,
}
use sigenergy_optimizer.SolarReentry.Invariant.{
  IsValid, Ready, Outcome, judge-Outcome, reset-IsValid, span_mono,
}

-- A positive answer was given to a true candidate, on finite clock readings and fresh reports, and
-- left a guard that is ready for this very call.
abbrev pub Answer : {K : Type 0} → Bool → Reading K → Option (Guard K × Bool) → Type 0
Answer candidate r none = ⊥
Answer candidate r (some (g, false)) = IsValid g
Answer candidate r (some (g, true)) =
    (s : Stamps) × (c : Clock) × (candidate ≡ true)
    × (finite? r.now_ts ≡ some c.ts)
    × (finite? r.now_mono ≡ some c.mono)
    × (reports_fresh r.reports c.ts ≡ some s)
    × IsValid g
    × Ready g s c r.context

-- The reading's reports and clock lie at least the qualification interval past the stored start.
abbrev pub Interval : {K : Type 0} → Guard K → Reading K → Type 0
Interval g r =
    (s f : Stamps) × (at : ℤ) × (c : Clock) × (reports_fresh r.reports c.ts ≡ some s)
    × (finite? r.now_mono ≡ some c.mono)
    × (g.first_reports ≡ some f)
    × (g.started_monotonic ≡ some at)
    × (qualification_seconds ≤ℤ s.pv -ℤ f.pv)
    × (qualification_seconds ≤ℤ s.load -ℤ f.load)
    × (qualification_seconds ≤ℤ c.mono -ℤ at)

abbrev stamp : {K : Type 0} → Guard K → Clock → Guard K
stamp g c = record g { last_clock = some c }

-- A clock that does not go back only lengthens what a stored proof spans.
stamp_from :
    {K : Type 0} (g : Guard K) (c : Clock) (p : Phase) (s : Option ℤ) (l : Option Clock)
    → IsValid g
    → clock_before g.last_clock c.ts c.mono ≡ false
    → g.phase ≡ p
    → g.started_monotonic ≡ s
    → g.last_clock ≡ l
    → IsValid (stamp g c)
stamp_from g c qualified (some s) (some l) v h ep es el =
    ground (arith, span_mono qualification_seconds l.mono c.mono s)
stamp_from g c _ s l v h ep es el = ground arith

stamp-IsValid :
    {K : Type 0} (g : Guard K) (c : Clock)
    → IsValid g
    → clock_before g.last_clock c.ts c.mono ≡ false
    → IsValid (stamp g c)
stamp-IsValid g c v h = stamp_from g c g.phase g.started_monotonic g.last_clock v h refl refl refl

module _ {K : Type 0} ⦃e : Eq K⦄ where
  adopt-IsValid : (g : Guard K) (k : K) → IsValid g → IsValid (adopt g k)
  unfolding reset
  adopt-IsValid g k v = ground arith

  identity_from :
      (g : Guard K) (k : K) (o : Option K)
      → g.identity_context ≡ o
      → (adopt g k).identity_context ≡ some k
  unfolding reset
  identity_from g k none h = ground arith
  identity_from g k (some j) h = ground (arith, e.beq_iff k j)

  identity-adopt : (g : Guard K) (k : K) → (adopt g k).identity_context ≡ some k
  identity-adopt g k = identity_from g k g.identity_context refl

  adopt_keeps :
      (g : Guard K) (k : K)
      → ((adopt g k).required ≡ g.required) × ((adopt g k).last_clock ≡ g.last_clock)
  unfolding reset
  adopt_keeps g k = ground arith

  observe-Outcome :
      (g : Guard K) (candidate : Bool) (reports : Option (Number × Number)) (c : Clock) (k : K)
      → g.required ≡ true
      → IsValid g
      → Outcome
          (if candidate then reports_fresh reports c.ts else none)
          c
          k
          (observe g candidate reports c.ts c.mono k)
  unfolding observe
  observe-Outcome g candidate reports c k q v =
      elim (Bool-cases (clock_before g.last_clock c.ts c.mono)) [
        | inl back ↦ rw back (unfold reset in ground arith)
        | inr on ↦ rw on (ahead candidate (adopt-IsValid (stamp g c) k (stamp-IsValid g c v on)))
      ]
    where
      now : Guard K
      now = adopt (stamp g c) k

      ahead :
          (b : Bool)
          → IsValid now
          → Outcome (if b then reports_fresh reports c.ts else none) c k (
              if b
              then judge now (reports_fresh reports c.ts) c.mono k
              else some (reset now candidate_failed, false))
      ahead false v' = reset-IsValid now candidate_failed
      ahead true v' =
          judge-Outcome c k now ((adopt_keeps (stamp g c) k).0 ∙ q) (adopt_keeps (stamp g c) k).1
            (identity-adopt (stamp g c) k) v' (reports_fresh reports c.ts)

  Outcome-Answer :
      (candidate : Bool) (r : Reading K) (c : Clock) (s : Option Stamps)
      (o : Option (Guard K × Bool))
      → finite? r.now_ts ≡ some c.ts
      → finite? r.now_mono ≡ some c.mono
      → reports_fresh r.reports c.ts ≡ s
      → Outcome (if candidate then s else none) c r.context o
      → Answer candidate r o
  Outcome-Answer candidate r c s none ht hm hs h = absurd h
  Outcome-Answer candidate r c s (some (g, false)) ht hm hs h = h
  Outcome-Answer true r c (some s) (some (g, true)) ht hm hs h = (s, c, refl, ht, hm, hs, h.0, h.1)
  Outcome-Answer true r c none (some (g, true)) ht hm hs h = absurd h
  Outcome-Answer false r c s (some (g, true)) ht hm hs h = absurd h

  clocked-Answer :
      (g : Guard K) (candidate : Bool) (r : Reading K) (ts mono : Option ℤ)
      → g.required ≡ true
      → IsValid g
      → finite? r.now_ts ≡ ts
      → finite? r.now_mono ≡ mono
      → Answer candidate r (with_clock g candidate r ts mono)
  clocked-Answer g candidate r (some ts) (some mono) q v ht hm =
      Outcome-Answer candidate r c (reports_fresh r.reports ts) _ ht hm refl
        (observe-Outcome g candidate r.reports c r.context q v)
    where
      c : Clock
      c = record { ts = ts; mono = mono }
  clocked-Answer g candidate r (some ts) none q v ht hm = reset-IsValid g clock_invalid
  clocked-Answer g candidate r none mono q v ht hm = reset-IsValid g clock_invalid

  -- For a guard whose latch is armed, `evaluate` never fails an assertion and keeps the invariant; it
  -- answers true only for a true candidate with finite clocks and two fresh reports, and then the
  -- guard is qualified for exactly these reports, this clock and this context.
  pub evaluate-Answer :
      (g : Guard K) (candidate : Bool) (r : Reading K)
      → g.required ≡ true
      → IsValid g
      → Answer candidate r (evaluate g candidate r)
  unfolding evaluate
  evaluate-Answer g candidate r q v =
      simp q (clocked-Answer g candidate r (finite? r.now_ts) (finite? r.now_mono) q v refl refl)

  Answer-current :
      (g g' : Guard K) (candidate : Bool) (r : Reading K)
      → Answer candidate r (some (g', true))
      → current g' g'.generation r ≡ true
  unfolding current
  Answer-current g g' candidate r (s, c, hc, ht, hm, hs, v, ready) =
      rw
        (
          ready.required, ready.phase, ready.context, ht, hm, hs, ready.reports, ready.clock,
          ready.recent,
        )
        (ground (arith, e.beq_iff r.context r.context))

  -- The dispatcher accepts what `evaluate` has just granted: right after a true answer the read-only
  -- check of the same reading against the guard's own generation succeeds.
  pub current-evaluate :
      (g g' : Guard K) (candidate : Bool) (r : Reading K)
      → g.required ≡ true
      → IsValid g
      → evaluate g candidate r ≡ some (g', true)
      → current g' g'.generation r ≡ true
  current-evaluate g g' candidate r q v h =
      Answer-current g g' candidate r (rw h at (evaluate-Answer g candidate r q v))

  interval_from :
      (g : Guard K) (r : Reading K) (s : Stamps) (c : Clock) (f : Option Stamps) (at : Option ℤ)
      → g.first_reports ≡ f
      → g.started_monotonic ≡ at
      → finite? r.now_mono ≡ some c.mono
      → reports_fresh r.reports c.ts ≡ some s
      → IsValid g
      → Ready g s c r.context
      → Interval g r
  interval_from g r s c (some f) (some at) ef ea hm hs v ready =
      (s, f, at, c, hs, hm, ef, ea, ground arith, ground arith, ground arith)
  interval_from g r s c f at ef ea hm hs v ready = absurd (ground arith)

  -- A true answer on an armed latch means that both streams and the monotonic clock have spanned the
  -- qualification interval since the stored first reports and the stored start.
  pub evaluate_spans :
      (g g' : Guard K) (candidate : Bool) (r : Reading K)
      → g.required ≡ true
      → IsValid g
      → evaluate g candidate r ≡ some (g', true)
      → Interval g' r
  evaluate_spans g g' candidate r q v h =
      let (s, c, _, _, hm, hs, v', ready) = rw h at (evaluate-Answer g candidate r q v) in
      interval_from g' r s c g'.first_reports g'.started_monotonic refl refl hm hs v' ready
