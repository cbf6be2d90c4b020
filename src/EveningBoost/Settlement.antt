-- ===== src/EveningBoost/Settlement.antt =====
-- `_evening_boost_reentry_allowed` of app/optimizer.py as a whole, with the dispatch check that
-- follows it.
use sigenergy_optimizer.Prelude.{
  ◌≡◌, refl, Bool, true, false, Option, none, some, arith, Eq, Bool-cases, ◌⊎◌, inl, inr, ap,
  if◌then◌else◌,
}
use sigenergy_optimizer.Prelude.Int.{ℤ, ◌-ℤ◌, ◌≤ℤ◌, Number, finite?}
use sigenergy_optimizer.EveningBoost.{reset, admit, with_evidence, observe, at_mono, allowed}
use sigenergy_optimizer.EveningBoost.Evidence.{Inputs, evidence}
use sigenergy_optimizer.EveningBoost.State.{
  Phase, closed, admitted, load_report_regressed, untrusted_reentry_evidence,
  boost_not_selected_or_safety_gate_failed, Boost, clock_before, report_before, reentry_seconds,
}
use sigenergy_optimizer.EveningBoost.Invariant.{
  IsValid, Outcome, Granted, reset-IsValid, begin-IsValid,
}
use sigenergy_optimizer.EveningBoost.Admission.{stamped-IsValid, admit_held}
use sigenergy_optimizer.EveningBoost.Application.{dispatch_current}

-- A positive answer was given to a true candidate, on a finite clock and a trusted load report; it
-- left an admission for this very call, and a new admission waited for no earlier transition.
abbrev pub Answer :
    {K : Type 0} → Bool → Bool → Inputs → ℤ → Number → K → Phase → Option (Boost K × Bool) → Type 0
Answer candidate settling i ts mono k was none = ⊥
Answer candidate settling i ts mono k was (some (b, false)) = IsValid b
Answer candidate settling i ts mono k was (some (b, true)) =
    (stamp m : ℤ) × (candidate ≡ true)
    × (finite? mono ≡ some m)
    × (evidence i ts ≡ some stamp)
    × IsValid b
    × Granted b stamp ts m k
    × ((was ≡ admitted) ⊎ (settling ≡ false))

later_of :
    (o : Option ℤ) (last stamp : ℤ) → o ≡ some last → report_before o stamp ≡ false → last ≤ℤ stamp
later_of o last stamp h ok = ground arith

module _ {K : Type 0} ⦃e : Eq K⦄ where
  admit-Outcome :
      (b : Boost K) (settling : Bool) (stamp ts mono : ℤ) (k : K)
      → b.last_clock ≡ some (ts, mono)
      → report_before b.report_high_water stamp ≡ false
      → IsValid b
      → Outcome (some stamp) ts mono k settling b.reentry.phase (
          admit
            (record b { report_high_water = some stamp })
            b.reentry.phase
            settling
            stamp
            ts
            mono
            k)
  admit-Outcome b settling stamp ts mono k hc ok (inl rest) =
      at_rest b.reentry.phase (ap (λ r. r.phase) rest)
    where
      marked : Boost K
      marked = record b { report_high_water = some stamp }

      at_rest :
          (p : Phase)
          → p ≡ closed
          → Outcome
              (some stamp)
              ts
              mono
              k
              settling
              b.reentry.phase
              (admit marked p settling stamp ts mono k)
      at_rest closed h = begin-IsValid marked stamp ts mono k hc refl
      at_rest _ h = absurd (ground arith)
  admit-Outcome b settling stamp ts mono k hc ok (inr h) =
      admit_held b settling stamp ts mono k hc h
        (later_of b.report_high_water h.last stamp h.high_eq ok) b.reentry.phase refl

  evidence-Outcome :
      (b : Boost K) (settling : Bool) (ev : Option ℤ) (ts mono : ℤ) (k : K)
      → b.last_clock ≡ some (ts, mono)
      → IsValid b
      → Outcome ev ts mono k settling b.reentry.phase (with_evidence b settling ev ts mono k)
  evidence-Outcome b settling none ts mono k hc v = reset-IsValid b untrusted_reentry_evidence
  evidence-Outcome b settling (some stamp) ts mono k hc v =
      elim (Bool-cases (report_before b.report_high_water stamp)) [
        | inl back ↦ rw back (reset-IsValid b load_report_regressed)
        | inr ok ↦ rw ok (admit-Outcome b settling stamp ts mono k hc ok v)
      ]

  observe-Outcome :
      (b : Boost K) (candidate settling : Bool) (i : Inputs) (ts mono : ℤ) (k : K)
      → IsValid b
      → Outcome
          (if candidate then evidence i ts else none)
          ts
          mono
          k
          settling
          b.reentry.phase
          (observe b candidate settling i ts mono k)
  unfolding observe
  observe-Outcome b candidate settling i ts mono k v =
      elim (Bool-cases (clock_before b.last_clock ts mono)) [
        | inl back ↦ rw back (unfold reset in inl refl)
        | inr on ↦ rw on (ahead candidate (stamped-IsValid b ts mono v on))
      ]
    where
      now : Boost K
      now = record b { last_clock = some (ts, mono) }

      ahead :
          (c : Bool)
          → IsValid now
          → Outcome (if c then evidence i ts else none) ts mono k settling b.reentry.phase (
              if c
              then with_evidence now settling (evidence i ts) ts mono k
              else some (reset now boost_not_selected_or_safety_gate_failed, false))
      ahead false v' = reset-IsValid now boost_not_selected_or_safety_gate_failed
      ahead true v' = evidence-Outcome now settling (evidence i ts) ts mono k refl v'

  Outcome-Answer :
      (candidate settling : Bool) (i : Inputs) (ts m : ℤ) (mono : Number) (k : K) (was : Phase)
      (o : Option (Boost K × Bool))
      → finite? mono ≡ some m
      → Outcome (if candidate then evidence i ts else none) ts m k settling was o
      → Answer candidate settling i ts mono k was o
  Outcome-Answer candidate settling i ts m mono k was none hm h = absurd h
  Outcome-Answer candidate settling i ts m mono k was (some (b, false)) hm h = h
  Outcome-Answer true settling i ts m mono k was (some (b, true)) hm (stamp, he, v, g, w) =
      (stamp, m, refl, hm, he, v, g, w)
  Outcome-Answer false settling i ts m mono k was (some (b, true)) hm (stamp, he, v, g, w) =
      absurd (ground (arith, he))

  clocked-Answer :
      (b : Boost K) (candidate settling : Bool) (i : Inputs) (ts : ℤ) (mono : Number) (k : K)
      (m : Option ℤ)
      → finite? mono ≡ m
      → IsValid b
      → Answer candidate settling i ts mono k b.reentry.phase
          (at_mono b candidate settling i ts m k)
  clocked-Answer b candidate settling i ts mono k none hm v =
      reset-IsValid b untrusted_reentry_evidence
  clocked-Answer b candidate settling i ts mono k (some m) hm v =
      Outcome-Answer candidate settling i ts m mono k b.reentry.phase _ hm
        (observe-Outcome b candidate settling i ts m k v)

  -- On a valid state the boost's guard raises no exception and leaves a valid state. It answers true
  -- only for a true candidate with a finite clock and a trusted load report: the admission then rests
  -- on exactly this report, clock and context, with the interval of 120 seconds spanned by the reports
  -- and by the clock, and, unless it was admitted before, no earlier transition was still settling.
  pub allowed-Answer :
      (b : Boost K) (candidate settling : Bool) (i : Inputs) (ts : ℤ) (mono : Number) (k : K)
      → IsValid b
      → Answer candidate settling i ts mono k b.reentry.phase
          (allowed b candidate settling i ts mono k)
  unfolding allowed
  allowed-Answer b candidate settling i ts mono k v =
      clocked-Answer b candidate settling i ts mono k (finite? mono) refl v

  timely_grant :
      (b : Boost K) (i : Inputs) (stamp ts m : ℤ) (mono : Number) (k : K)
      → finite? mono ≡ some m
      → evidence i ts ≡ some stamp
      → Granted b stamp ts m k
      → dispatch_current b true (some b.reentry.generation) i ts mono k ≡ some true
  unfolding dispatch_current
  timely_grant b i stamp ts m mono k hm he g =
      rw (g.phase, hm, he, g.last_eq, g.context_eq, g.wall_eq, g.evaluated_eq, g.at_eq)
        (ground (arith, g.recent, e.beq_iff k k))

  -- What has just been admitted may be dispatched: after a true answer on a valid state the dispatch
  -- check of the same observations succeeds for a decision that carries the admission's generation.
  pub dispatch-allowed :
      (b b' : Boost K) (candidate settling : Bool) (i : Inputs) (ts : ℤ) (mono : Number) (k : K)
      → IsValid b
      → allowed b candidate settling i ts mono k ≡ some (b', true)
      → dispatch_current b' true (some b'.reentry.generation) i ts mono k ≡ some true
  dispatch-allowed b b' candidate settling i ts mono k v h =
      let (stamp, m, _, hm, he, _, g, _) =
        rw h at (allowed-Answer b candidate settling i ts mono k v) in
      timely_grant b' i stamp ts m mono k hm he g

  -- The intervals behind an answer, read off the state that it leaves.
  abbrev pub Interval : Boost K → Inputs → ℤ → Number → Type 0
  Interval b i ts mono =
      (stamp m first started : ℤ) × (evidence i ts ≡ some stamp)
      × (finite? mono ≡ some m)
      × (b.reentry.first_report_ts ≡ some first)
      × (b.reentry.started_monotonic ≡ some started)
      × (reentry_seconds ≤ℤ stamp -ℤ first)
      × (reentry_seconds ≤ℤ m -ℤ started)

  -- A true answer on a valid state means that the trusted load reports and the monotonic clock have
  -- both spanned at least 120 seconds since the stored start of the qualification.
  allowed_spans :
      (b b' : Boost K) (candidate settling : Bool) (i : Inputs) (ts : ℤ) (mono : Number) (k : K)
      → IsValid b
      → allowed b candidate settling i ts mono k ≡ some (b', true)
      → Interval b' i ts mono
  allowed_spans b b' candidate settling i ts mono k v h =
      let (stamp, m, _, hm, he, _, g, _) =
        rw h at (allowed-Answer b candidate settling i ts mono k v) in
      (stamp, m, g.first, g.started, he, hm, g.first_eq, g.started_eq, g.spans.0, g.spans.1)
