-- ===== src/SolarReentry/Invariant.antt =====
-- What the stored proof of a guard means, for each operation of SolarReentry.antt.
use sigenergy_optimizer.Prelude.{
  ℕ, ◌≡◌, refl, Bool, true, false, Option, none, some, arith, Bool-cases, ◌||◌, inl, inr,
}
use sigenergy_optimizer.Prelude.Int.{ℤ, pos, ◌-ℤ◌, ◌≤ℤ◌, int_laws}
use sigenergy_optimizer.SolarReentry.{progress, continue, judge, reset, arm, start, advance, commit}
use sigenergy_optimizer.SolarReentry.State.{
  Phase, idle, closed, qualifying, qualified, Reason, advancing_report_gap, report_regressed,
  reports_missing_invalid_future_or_stale, stream_gap, regressed_from, Stamps, Clock, Guard,
  qualification_seconds, max_report_gap_seconds, advanced_recently,
}

-- The interval that a phase claims: a qualified guard has spanned it on both streams and the clock.
abbrev pub Spanned : Phase → Stamps → Stamps → ℤ → ℤ → Type 0
Spanned qualified latest first started mono =
    (qualification_seconds ≤ℤ latest.pv -ℤ first.pv)
    × (qualification_seconds ≤ℤ latest.load -ℤ first.load)
    × (qualification_seconds ≤ℤ mono -ℤ started)
Spanned qualifying latest first started mono = Unit
Spanned _ latest first started mono = ⊥

abbrev pub AtRest : Phase → Type 0
AtRest idle = Unit
AtRest closed = Unit
AtRest _ = ⊥

-- Either nothing is stored and the phase is at rest, or all of the proof is stored: the high-water
-- mark is the latest report, and no stamp of the proof lies ahead of the last clock.
abbrev pub Evidence :
    Phase
    → Option Stamps
    → Option Stamps
    → Option ℤ
    → Option Stamps
    → Option Stamps
    → Option Clock
    → Type 0
Evidence p none none none none h c = AtRest p
Evidence p (some r) (some f) (some s) (some at) (some h) (some c) =
    (h ≡ r) × (at.pv ≤ℤ c.mono) × (at.load ≤ℤ c.mono) × Spanned p r f s c.mono
Evidence p _ _ _ _ _ _ = ⊥

-- With a stored proof, its context is the identity under which it was taken.
abbrev pub SameIdentity : {K : Type 0} → Option Stamps → Option K → Option K → Type 0
SameIdentity none k i = k ≡ none
SameIdentity (some r) k i = k ≡ i

pub record IsValid {K : Type 0} (g : Guard K) : Type 0 where
  pub evidence :
      Evidence g.phase g.reports g.first_reports g.started_monotonic g.last_advance_monotonic
        g.report_high_water g.last_clock
  pub identity : SameIdentity g.reports g.context g.identity_context

module _ {K : Type 0} where
  pub reset-IsValid : (g : Guard K) (why : Reason) → IsValid (reset g why)
  unfolding reset
  reset-IsValid g why = ground arith

  pub arm-IsValid : (g : Guard K) (cause : Reason) → IsValid (arm g cause)
  unfolding arm
  arm-IsValid g cause = ground arith

  pub commit-IsValid : (g : Guard K) (n : ℕ) → IsValid g → IsValid (commit g n).0
  unfolding commit
  commit-IsValid g n v = ground arith

  pub start-IsValid :
      (g : Guard K) (r : Stamps) (c : Clock) (k : K)
      → g.last_clock ≡ some c
      → g.identity_context ≡ some k
      → IsValid (start g r c.mono k)
  unfolding start
  start-IsValid g r c k hc hk = ground arith

-- What a positive answer leaves behind: qualified evidence for exactly the reports, the clock and
-- the context of this call, with a recent advance in both streams.
pub record Ready {K : Type 0} (g : Guard K) (r : Stamps) (c : Clock) (k : K) : Type 0 where
  pub required : g.required ≡ true
  pub phase : g.phase ≡ qualified
  pub reports : g.reports ≡ some r
  pub context : g.context ≡ some k
  pub clock : g.last_clock ≡ some c
  pub recent : advanced_recently g.last_advance_monotonic c.mono ≡ true

abbrev pub Outcome : {K : Type 0} → Option Stamps → Clock → K → Option (Guard K × Bool) → Type 0
Outcome r c k none = ⊥
Outcome r c k (some (g, false)) = IsValid g
Outcome none c k (some (g, true)) = ⊥
Outcome (some r) c k (some (g, true)) = IsValid g × Ready g r c k

-- A later stamp keeps a span, and a stamp taken now is recent.
pub span_mono : (d a b f : ℤ) → a ≤ℤ b → d ≤ℤ a -ℤ f → d ≤ℤ b -ℤ f
span_mono d a b f h k = omega int_laws

gap_self : (a : ℤ) → (pos 0 ≤ℤ a -ℤ a) × (a -ℤ a ≤ℤ max_report_gap_seconds)
gap_self a = omega int_laws

gap_nonneg : (a b : ℤ) → b ≤ℤ a → pos 0 ≤ℤ a -ℤ b
gap_nonneg a b h = omega int_laws

module _ {K : Type 0} (c : Clock) (k : K) (g : Guard K) (r old at : Stamps) (q : g.required ≡ true)
    (hc : g.last_clock ≡ some c) (hk : g.identity_context ≡ some k) (hr : g.reports ≡ some old)
    (ha : g.last_advance_monotonic ≡ some at) (v : IsValid g) (pv_later : old.pv ≤ℤ r.pv)
    (load_later : old.load ≤ℤ r.load) (pv_gap : c.mono -ℤ at.pv ≤ℤ max_report_gap_seconds)
    (load_gap : c.mono -ℤ at.load ≤ℤ max_report_gap_seconds) where
  advance_from :
      (p : Phase) (f : Option Stamps) (s : Option ℤ) (h : Option Stamps)
      → g.phase ≡ p
      → g.first_reports ≡ f
      → g.started_monotonic ≡ s
      → g.report_high_water ≡ h
      → Outcome (some r) c k (advance g r old at c.mono)
  unfolding advance
  advance_from qualified (some f) (some s) (some h) ep ef es eh = ground (
    arith,
    span_mono qualification_seconds old.pv r.pv f.pv,
    span_mono qualification_seconds old.load r.load f.load,
    gap_self c.mono,
    gap_nonneg c.mono at.pv,
    gap_nonneg c.mono at.load,
  )
  advance_from qualifying (some f) (some s) (some h) ep ef es eh =
      ground (arith, gap_self c.mono, gap_nonneg c.mono at.pv, gap_nonneg c.mono at.load)
  advance_from _ f s h ep ef es eh = ground arith

  advance-Outcome : Outcome (some r) c k (advance g r old at c.mono)
  advance-Outcome =
      advance_from g.phase g.first_reports g.started_monotonic g.report_high_water refl refl refl
        refl

module _ {K : Type 0} (c : Clock) (k : K) (g : Guard K) (q : g.required ≡ true)
    (hc : g.last_clock ≡ some c) (hk : g.identity_context ≡ some k) (v : IsValid g) where
  progress-Outcome :
      (r old : Stamps) (at : Option Stamps)
      → g.reports ≡ some old
      → g.last_advance_monotonic ≡ at
      → old.pv ≤ℤ r.pv
      → old.load ≤ℤ r.load
      → Outcome (some r) c k (progress g r old at c.mono k)
  progress-Outcome r old none hr ha p1 p2 = ground arith
  progress-Outcome r old (some at) hr ha p1 p2 = elim (Bool-cases gap) [
    | inl e ↦ rw e (
        start-IsValid (reset g advancing_report_gap) r c k (unfold reset in hc)
          (unfold reset in hk))
    | inr e ↦
        rw e (advance-Outcome c k g r old at q hc hk hr ha v p1 p2 (ground arith) (ground arith))
  ]
    where
      gap : Bool
      gap = stream_gap r.pv old.pv c.mono at.pv || stream_gap r.load old.load c.mono at.load

  continue-Outcome :
      (r : Stamps) (old : Option Stamps)
      → g.reports ≡ old
      → regressed_from g.report_high_water r ≡ false
      → Outcome (some r) c k (continue g r old c.mono k)
  continue-Outcome r none hr ok = start-IsValid g r c k hc hk
  continue-Outcome r (some old) hr ok =
      progress-Outcome r old g.last_advance_monotonic hr refl (ground arith) (ground arith)

  pub judge-Outcome : (fresh : Option Stamps) → Outcome fresh c k (judge g fresh c.mono k)
  judge-Outcome none = reset-IsValid g reports_missing_invalid_future_or_stale
  judge-Outcome (some r) = elim (Bool-cases (regressed_from g.report_high_water r)) [
    | inl e ↦ rw e (reset-IsValid g report_regressed)
    | inr e ↦ rw e (continue-Outcome r g.reports refl e)
  ]
