-- ===== src/EveningBoost/Admission.antt =====
-- What an answer of `_evening_boost_reentry_allowed` of app/optimizer.py is worth.
use sigenergy_optimizer.Prelude.{
  ◌≡◌, refl, Bool, true, false, Option, some, arith, Eq, Bool-cases, inl, inr, ◌∙◌, sym, ap,
  if◌then◌else◌,
}
use sigenergy_optimizer.Prelude.Int.{ℤ, ◌≤ℤ◌}
use sigenergy_optimizer.EveningBoost.{reset, begin, advance, broken, held, admit, same_context}
use sigenergy_optimizer.EveningBoost.State.{
  Phase, closed, Reason, context_changed_or_report_gap, Boost, clock_before,
}
use sigenergy_optimizer.EveningBoost.Invariant.{IsValid, Held, Outcome, begin-IsValid}
use sigenergy_optimizer.EveningBoost.Advance.{advance-Outcome}

clock_parts :
    (o : Option (ℤ × ℤ)) (t m ts mono : ℤ)
    → o ≡ some (t, m)
    → o ≡ some (ts, mono)
    → (t ≡ ts) × (m ≡ mono)
clock_parts o t m ts mono h h' = ground arith

-- A clock that does not go back leaves everything stored behind it.
stamped-Held :
    {K : Type 0} (b : Boost K) (ts mono : ℤ)
    → Held b
    → clock_before b.last_clock ts mono ≡ false
    → Held (record b { last_clock = some (ts, mono) })
stamped-Held b ts mono h on =
    let ahead = rw h.clock_eq at on in
    record {
      first = h.first;
      last = h.last;
      started = h.started;
      at = h.at;
      evaluated = h.evaluated;
      wall = h.wall;
      context = h.context;
      ts = ts;
      mono = mono;
      first_eq = h.first_eq;
      last_eq = h.last_eq;
      started_eq = h.started_eq;
      at_eq = h.at_eq;
      evaluated_eq = h.evaluated_eq;
      wall_eq = h.wall_eq;
      context_eq = h.context_eq;
      clock_eq = refl;
      high_eq = h.high_eq;
      at_past = ground (arith, h.at_past);
      evaluated_past = ground (arith, h.evaluated_past);
      wall_past = ground (arith, h.wall_past);
      spans = h.spans;
    }

pub stamped-IsValid :
    {K : Type 0} (b : Boost K) (ts mono : ℤ)
    → IsValid b
    → clock_before b.last_clock ts mono ≡ false
    → IsValid (record b { last_clock = some (ts, mono) })
stamped-IsValid b ts mono (inl rest) on = inl rest
stamped-IsValid b ts mono (inr h) on = inr (stamped-Held b ts mono h on)

module _ {K : Type 0} ⦃e : Eq K⦄ (b : Boost K) (settling : Bool) (stamp ts mono : ℤ) (k : K)
    (hc : b.last_clock ≡ some (ts, mono)) where
  abbrev marked : Boost K
  marked = record b { report_high_water = some stamp }

  restart-IsValid : (why : Reason) → IsValid (begin (reset marked why) stamp ts mono k)
  restart-IsValid why =
      begin-IsValid (reset marked why) stamp ts mono k (unfold reset in hc) (unfold reset in refl)

  module _ (h : Held b) (later : h.last ≤ℤ stamp) where
    past : h.at ≤ℤ mono
    past = rw (clock_parts b.last_clock h.ts h.mono ts mono h.clock_eq hc).1 at h.at_past

    same : same_context k (some h.context) ≡ true → b.reentry.context ≡ some k
    same j = h.context_eq ∙ ap some (sym ((e.beq_iff k h.context).0 j))

    held_open :
        (o : Option K)
        → o ≡ some h.context
        → b.reentry.context ≡ o
        → Outcome (some stamp) ts mono k settling b.reentry.phase (
            if broken k o stamp h.last mono h.at
            then some (begin (reset marked context_changed_or_report_gap) stamp ts mono k, false)
            else advance marked settling stamp ts mono h.last h.at)
    held_open o ho hb = elim (Bool-cases (broken k (some h.context) stamp h.last mono h.at)) [
      | inl gap ↦ rw (ho, gap) (restart-IsValid context_changed_or_report_gap)
      | inr kept ↦
          rw (ho, kept)
            (advance-Outcome b h settling stamp ts mono k hc later past (ground arith)
              (same (ground arith)))
    ]

    held_from :
        (l a : Option ℤ)
        → l ≡ some h.last
        → a ≡ some h.at
        → Outcome
            (some stamp)
            ts
            mono
            k
            settling
            b.reentry.phase
            (held marked settling stamp ts mono k l a)
    held_from l a hl ha = rw (hl, ha) (held_open b.reentry.context h.context_eq refl)

    pub admit_held :
        (p : Phase)
        → b.reentry.phase ≡ p
        → Outcome
            (some stamp)
            ts
            mono
            k
            settling
            b.reentry.phase
            (admit marked p settling stamp ts mono k)
    admit_held closed hp = absurd (ground (arith, h.spans))
    admit_held _ hp =
        held_from b.reentry.last_report_ts b.reentry.last_report_monotonic h.last_eq h.at_eq
