-- ===== src/EveningBoost/Invariant.antt =====
-- What the stored admission of app/optimizer.py's evening boost means, and what an answer leaves.
use sigenergy_optimizer.Prelude.{
  ◌≡◌, refl, Bool, true, false, Option, none, some, arith, ◌⊎◌, inl, inr,
}
use sigenergy_optimizer.Prelude.Int.{ℤ, pos, ◌-ℤ◌, ◌≤ℤ◌}
use sigenergy_optimizer.EveningBoost.{reset, begin}
use sigenergy_optimizer.EveningBoost.Evidence.{max_report_gap_seconds}
use sigenergy_optimizer.EveningBoost.State.{
  Phase, qualifying, admitted, Reason, Boost, closed_reentry, reentry_seconds,
}

-- The spans on which an admission rests.
abbrev pub Spans : ℤ → ℤ → ℤ → ℤ → Type 0
Spans last first at started =
    (reentry_seconds ≤ℤ last -ℤ first) × (reentry_seconds ≤ℤ at -ℤ started)

-- All of the evidence of an open admission is stored; the high-water mark is its last report, and
-- nothing stored lies ahead of the last clock.
pub record Held {K : Type 0} (b : Boost K) : Type 0 where
  pub first : ℤ
  pub last : ℤ
  pub started : ℤ
  pub at : ℤ
  pub evaluated : ℤ
  pub wall : ℤ
  pub context : K
  pub ts : ℤ
  pub mono : ℤ
  pub first_eq : b.reentry.first_report_ts ≡ some first
  pub last_eq : b.reentry.last_report_ts ≡ some last
  pub started_eq : b.reentry.started_monotonic ≡ some started
  pub at_eq : b.reentry.last_report_monotonic ≡ some at
  pub evaluated_eq : b.reentry.last_evaluated_monotonic ≡ some evaluated
  pub wall_eq : b.reentry.last_wall_ts ≡ some wall
  pub context_eq : b.reentry.context ≡ some context
  pub clock_eq : b.last_clock ≡ some (ts, mono)
  pub high_eq : b.report_high_water ≡ some last
  pub at_past : at ≤ℤ mono
  pub evaluated_past : evaluated ≤ℤ mono
  pub wall_past : wall ≤ℤ ts
  pub spans :
      (b.reentry.phase ≡ qualifying) ⊎ ((b.reentry.phase ≡ admitted) × Spans last first at started)

-- A closed admission stores nothing.
abbrev pub IsValid : {K : Type 0} → Boost K → Type 0
IsValid b = (b.reentry ≡ closed_reentry b.reentry.reason b.reentry.generation) ⊎ Held b

-- What a positive answer leaves behind, for the report, the clock and the context of the call.
pub record Granted {K : Type 0} (b : Boost K) (stamp ts mono : ℤ) (k : K) : Type 0 where
  pub first : ℤ
  pub started : ℤ
  pub at : ℤ
  pub phase : b.reentry.phase ≡ admitted
  pub last_eq : b.reentry.last_report_ts ≡ some stamp
  pub first_eq : b.reentry.first_report_ts ≡ some first
  pub started_eq : b.reentry.started_monotonic ≡ some started
  pub at_eq : b.reentry.last_report_monotonic ≡ some at
  pub evaluated_eq : b.reentry.last_evaluated_monotonic ≡ some mono
  pub wall_eq : b.reentry.last_wall_ts ≡ some ts
  pub context_eq : b.reentry.context ≡ some k
  pub recent : (pos 0 ≤ℤ mono -ℤ at) × (mono -ℤ at ≤ℤ max_report_gap_seconds)
  pub spans : Spans stamp first mono started

-- `was` is the phase before the call.
abbrev pub Outcome :
    {K : Type 0} → Option ℤ → ℤ → ℤ → K → Bool → Phase → Option (Boost K × Bool) → Type 0
Outcome ev ts mono k settling was none = ⊥
Outcome ev ts mono k settling was (some (b, false)) = IsValid b
Outcome ev ts mono k settling was (some (b, true)) =
    (stamp : ℤ) × (ev ≡ some stamp)
    × IsValid b
    × Granted b stamp ts mono k
    × ((was ≡ admitted) ⊎ (settling ≡ false))

module _ {K : Type 0} where
  pub reset-IsValid : (b : Boost K) (why : Reason) → IsValid (reset b why)
  unfolding reset
  reset-IsValid b why = inl refl

  pub begin-IsValid :
      (b : Boost K) (stamp ts mono : ℤ) (k : K)
      → b.last_clock ≡ some (ts, mono)
      → b.report_high_water ≡ some stamp
      → IsValid (begin b stamp ts mono k)
  unfolding begin
  begin-IsValid b stamp ts mono k hc hh = inr (record {
    first = stamp;
    last = stamp;
    started = mono;
    at = mono;
    evaluated = mono;
    wall = ts;
    context = k;
    ts = ts;
    mono = mono;
    first_eq = refl;
    last_eq = refl;
    started_eq = refl;
    at_eq = refl;
    evaluated_eq = refl;
    wall_eq = refl;
    context_eq = refl;
    clock_eq = hc;
    high_eq = hh;
    at_past = omega arith;
    evaluated_past = omega arith;
    wall_past = omega arith;
    spans = inl refl;
  })
