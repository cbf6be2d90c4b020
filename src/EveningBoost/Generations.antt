-- ===== src/EveningBoost/Generations.antt =====
-- The generation of app/optimizer.py's evening boost.
use sigenergy_optimizer.Prelude.{
  ◌≡◌, Bool, false, Option, none, some, arith, Eq, Bool-cases, inl, inr, if_both, ◌==◌, ◌&&◌,
  if◌then◌else◌, ℕ, ◌≤◌, ◌<◌,
}
use sigenergy_optimizer.Prelude.Int.{ℤ, ltb_ℤ, Number, finite?}
use sigenergy_optimizer.EveningBoost.{
  reset, begin, conclude, advance, broken, held, admit, with_evidence, observe, at_mono, allowed,
}
use sigenergy_optimizer.EveningBoost.Evidence.{Inputs, evidence}
use sigenergy_optimizer.EveningBoost.State.{
  Phase, closed, Boost, clock_before, report_before, is_admitted,
}
use sigenergy_optimizer.EveningBoost.Application.{
  Application, dispatch_current, finish_application, is_pending,
}
use sigenergy_optimizer.EveningBoost.Runs.{
  verified, Step, asks, finishes, resets, Reach, here, next,
}

dead :
    (p g s x : Bool) (t : Option Bool)
    → s ≡ false
    → (if p && (g && (s && x)) then t else some false) ≡ some false
dead p g s x t h = ground arith

module _ {K : Type 0} ⦃e : Eq K⦄ where
  abbrev Grown : ℕ → Option (Boost K × Bool) → Type 0
  Grown n none = Unit
  Grown n (some (b, answer)) = n ≤ b.reentry.generation

  conclude_grows :
      (b : Boost K) (p : Phase) (settling advancing : Bool) (stamp mono : ℤ)
      (first started : Option ℤ)
      → Grown b.reentry.generation (conclude b p settling advancing stamp mono first started)
  conclude_grows b p settling advancing stamp mono first started = ground arith

  held_grows :
      (b : Boost K) (settling : Bool) (stamp ts mono : ℤ) (k : K) (l a : Option ℤ)
      → Grown b.reentry.generation (held b settling stamp ts mono k l a)
  unfolding advance begin reset
  held_grows b settling stamp ts mono k (some last) (some at) =
      if_both (Grown b.reentry.generation) (broken k b.reentry.context stamp last mono at)
        (omega arith)
        (conclude_grows _ b.reentry.phase settling (ltb_ℤ last stamp) stamp mono
          b.reentry.first_report_ts b.reentry.started_monotonic)
  held_grows b settling stamp ts mono k none a = tt
  held_grows b settling stamp ts mono k (some last) none = tt

  admit_grows :
      (b : Boost K) (p : Phase) (settling : Bool) (stamp ts mono : ℤ) (k : K)
      → Grown b.reentry.generation (admit b p settling stamp ts mono k)
  unfolding begin
  admit_grows b closed settling stamp ts mono k = omega arith
  admit_grows b _ settling stamp ts mono k =
      held_grows b settling stamp ts mono k b.reentry.last_report_ts b.reentry.last_report_monotonic

  evidence_grows :
      (b : Boost K) (settling : Bool) (ev : Option ℤ) (ts mono : ℤ) (k : K)
      → Grown b.reentry.generation (with_evidence b settling ev ts mono k)
  unfolding reset
  evidence_grows b settling none ts mono k = omega arith
  evidence_grows b settling (some stamp) ts mono k =
      if_both (Grown b.reentry.generation) (report_before b.report_high_water stamp) (omega arith) (
        admit_grows (record b { report_high_water = some stamp }) b.reentry.phase settling stamp ts
          mono k)

  observe_grows :
      (b : Boost K) (candidate settling : Bool) (i : Inputs) (ts mono : ℤ) (k : K)
      → Grown b.reentry.generation (observe b candidate settling i ts mono k)
  unfolding observe reset
  observe_grows b candidate settling i ts mono k =
      if_both (Grown b.reentry.generation) (clock_before b.last_clock ts mono) (omega arith) (
        if_both (Grown b.reentry.generation) candidate
          (evidence_grows (record b { last_clock = some (ts, mono) }) settling (evidence i ts) ts
            mono k)
          (omega arith))

  at_mono_grows :
      (b : Boost K) (candidate settling : Bool) (i : Inputs) (ts : ℤ) (m : Option ℤ) (k : K)
      → Grown b.reentry.generation (at_mono b candidate settling i ts m k)
  unfolding reset
  at_mono_grows b candidate settling i ts none k = omega arith
  at_mono_grows b candidate settling i ts (some m) k = observe_grows b candidate settling i ts m k

  allowed_grows :
      (b b' : Boost K) (candidate settling answer : Bool) (i : Inputs) (ts : ℤ) (mono : Number)
      (k : K)
      → allowed b candidate settling i ts mono k ≡ some (b', answer)
      → b.reentry.generation ≤ b'.reentry.generation
  unfolding allowed
  allowed_grows b b' candidate settling answer i ts mono k h =
      rw h at (at_mono_grows b candidate settling i ts (finite? mono) k)

  finish_grows :
      (b : Boost K) (candidate : Bool) (i : Inputs) (ts : ℤ) (result : Option Application)
      → b.reentry.generation ≤ (finish_application b candidate i ts result).boost.reentry.generation
  unfolding finish_application reset
  finish_grows b candidate i ts result =
      elim (Bool-cases (verified candidate result (is_pending result) (evidence i ts))) [
        | inl good ↦ rw good (omega arith)
        | inr bad ↦ rw bad (omega arith)
      ]

  Step-grows : {b b' : Boost K} → Step b b' → b.reentry.generation ≤ b'.reentry.generation
  Step-grows {b} {b'} (asks {answer} candidate settling i ts mono k h) =
      allowed_grows b b' candidate settling answer i ts mono k h
  Step-grows {b} (finishes candidate i ts result) = finish_grows b candidate i ts result
  Step-grows {b} (resets why) = unfold reset in omega arith

  Reach-grows : {b b' : Boost K} → Reach b b' → b.reentry.generation ≤ b'.reentry.generation
  Reach-grows here = omega arith
  Reach-grows (next r s) = omega (arith, Reach-grows r, Step-grows s)

  -- A decision that was admitted before a reset stays undispatchable: however the history goes on, the
  -- dispatch check fails for a decision that carries a generation below the one reached.
  pub stale_decision_is_dead :
      {b b' : Boost K} (n : ℕ) (gate : Bool) (i : Inputs) (ts : ℤ) (mono : Number) (k : K)
      → Reach b b'
      → n < b.reentry.generation
      → dispatch_current b' gate (some n) i ts mono k ≡ some false
  unfolding dispatch_current
  stale_decision_is_dead {b} {b'} n gate i ts mono k r lt =
      dead (is_admitted b'.reentry.phase) gate (n == b'.reentry.generation) _ _
        (ground (arith, Reach-grows r))
