-- ===== src/EveningBoost/Advance.antt =====
-- The end of `_evening_boost_reentry_allowed` of app/optimizer.py, from the stored advance on, and
-- the meaning of the stored admission.
use sigenergy_optimizer.Prelude.{
  ◌≡◌, refl, Bool, true, false, Option, some, arith, Bool-cases, ◌⊎◌, inl, inr, ap, ◌&&◌,
  if◌then◌else◌,
}
use sigenergy_optimizer.Prelude.Int.{ℤ, pos, eq_of_parts, ◌-ℤ◌, ◌≤ℤ◌, ltb_ℤ, leb_ℤ, int_laws}
use sigenergy_optimizer.EveningBoost.{conclude, advance}
use sigenergy_optimizer.EveningBoost.Evidence.{max_report_gap_seconds}
use sigenergy_optimizer.EveningBoost.State.{
  Phase, closed, qualifying, admitted, Reason, awaiting_existing_msc_settlement,
  qualified_admission_not_physical_settlement, Boost, reentry_seconds,
}
use sigenergy_optimizer.EveningBoost.Invariant.{Held, Outcome, Granted, Spans}

gap_self : (a : ℤ) → (pos 0 ≤ℤ a -ℤ a) × (a -ℤ a ≤ℤ max_report_gap_seconds)
gap_self a = omega int_laws

gap_nonneg : (a b : ℤ) → b ≤ℤ a → pos 0 ≤ℤ a -ℤ b
gap_nonneg a b h = omega int_laws

span_mono : (d a b f : ℤ) → a ≤ℤ b → d ≤ℤ a -ℤ f → d ≤ℤ b -ℤ f
span_mono d a b f h k = omega int_laws

latest : (a b : ℤ) → a ≤ℤ b → (if ltb_ℤ a b then b else a) ≡ b
latest a b h = ground (arith, eq_of_parts a b)

-- A report that advances comes at the current clock; otherwise the last advance stands.
module _ {K : Type 0} (b : Boost K) (h : Held b) (settling : Bool) (stamp ts mono : ℤ) (k : K)
    (hc : b.last_clock ≡ some (ts, mono)) (later : h.last ≤ℤ stamp) (past : h.at ≤ℤ mono)
    (gap : mono -ℤ h.at ≤ℤ max_report_gap_seconds) (hk : b.reentry.context ≡ some k) where
  abbrev reported_at : ℤ
  reported_at = if ltb_ℤ h.last stamp then mono else h.at

  abbrev next : Phase → Reason → Boost K
  next p why = record b {
    report_high_water = some stamp;
    reentry = record b.reentry {
      phase = p;
      reason = why;
      last_report_ts = some (if ltb_ℤ h.last stamp then stamp else h.last);
      last_report_monotonic = some reported_at;
      last_evaluated_monotonic = some mono;
      last_wall_ts = some ts;
    };
  }

  reported-recent :
      (pos 0 ≤ℤ mono -ℤ reported_at)
      × (mono -ℤ reported_at ≤ℤ max_report_gap_seconds)
      × (reported_at ≤ℤ mono)
      × (h.at ≤ℤ reported_at)
  reported-recent = ground (arith, gap_self mono, gap_nonneg mono h.at)

  next-Held :
      (p : Phase) (why : Reason)
      → (p ≡ qualifying) ⊎ ((p ≡ admitted) × Spans stamp h.first reported_at h.started)
      → Held (next p why)
  next-Held p why s = record {
    first = h.first;
    last = stamp;
    started = h.started;
    at = reported_at;
    evaluated = mono;
    wall = ts;
    context = k;
    ts = ts;
    mono = mono;
    first_eq = h.first_eq;
    last_eq = ap some (latest h.last stamp later);
    started_eq = h.started_eq;
    at_eq = refl;
    evaluated_eq = refl;
    wall_eq = refl;
    context_eq = hk;
    clock_eq = hc;
    high_eq = refl;
    at_past = reported-recent.2;
    evaluated_past = omega arith;
    wall_past = omega arith;
    spans = s;
  }

  next-Granted :
      (why : Reason)
      → Spans stamp h.first reported_at h.started
      → Granted (next admitted why) stamp ts mono k
  next-Granted why s = record {
    first = h.first;
    started = h.started;
    at = reported_at;
    phase = refl;
    last_eq = ap some (latest h.last stamp later);
    first_eq = h.first_eq;
    started_eq = h.started_eq;
    at_eq = refl;
    evaluated_eq = refl;
    wall_eq = refl;
    context_eq = hk;
    recent = (reported-recent.0, reported-recent.1);
    spans = (s.0, span_mono reentry_seconds reported_at mono h.started reported-recent.2 s.1);
  }

  granted :
      (was : Phase) (why : Reason)
      → Spans stamp h.first reported_at h.started
      → (was ≡ admitted) ⊎ (settling ≡ false)
      → Outcome (some stamp) ts mono k settling was (some (next admitted why, true))
  granted was why s w =
      (stamp, refl, inr (next-Held admitted why (inr (refl, s))), next-Granted why s, w)

  conclude-Outcome :
      (p : Phase)
      → (p ≡ qualifying) ⊎ ((p ≡ admitted) × Spans h.last h.first h.at h.started)
      → Outcome (some stamp) ts mono k settling p (
          conclude
            (next p b.reentry.reason)
            p
            settling
            (ltb_ℤ h.last stamp)
            stamp
            mono
            (some h.first)
            (some h.started))
  conclude-Outcome admitted (inr (_, s)) =
      granted admitted b.reentry.reason
        (
          span_mono reentry_seconds h.last stamp h.first later s.0,
          span_mono reentry_seconds h.at reported_at h.started reported-recent.3 s.1,
        )
        (inl refl)
  conclude-Outcome admitted (inl e) = absurd (ground arith)
  conclude-Outcome closed e = absurd (ground arith)
  conclude-Outcome qualifying e = elim (Bool-cases mature) [
    | inr early ↦ rw early (inr (next-Held qualifying _ (inl refl)))
    | inl ripe ↦ rw ripe (settle settling refl ripe)
  ]
    where
      mature : Bool
      mature =
          ltb_ℤ h.last stamp
          && (leb_ℤ reentry_seconds (mono -ℤ h.started) && leb_ℤ reentry_seconds (stamp -ℤ h.first))

      spanned : mature ≡ true → Spans stamp h.first reported_at h.started
      spanned ripe = ground arith

      settle :
          (w : Bool)
          → settling ≡ w
          → mature ≡ true
          → Outcome (some stamp) ts mono k settling qualifying (
              if w
              then some (next qualifying awaiting_existing_msc_settlement, false)
              else some (next admitted qualified_admission_not_physical_settlement, true))
      settle true e ripe = inr (next-Held qualifying _ (inl refl))
      settle false e ripe = granted qualifying _ (spanned ripe) (inr e)

  conclude_from :
      (f s : Option ℤ)
      → f ≡ some h.first
      → s ≡ some h.started
      → Outcome (some stamp) ts mono k settling b.reentry.phase (
          conclude
            (next b.reentry.phase b.reentry.reason)
            b.reentry.phase
            settling
            (ltb_ℤ h.last stamp)
            stamp
            mono
            f
            s)
  conclude_from f s hf hs = rw (hf, hs) (conclude-Outcome b.reentry.phase h.spans)

  pub advance-Outcome :
      Outcome
        (some stamp)
        ts
        mono
        k
        settling
        b.reentry.phase
        (advance (record b { report_high_water = some stamp }) settling stamp ts mono h.last h.at)
  unfolding advance
  advance-Outcome =
      conclude_from b.reentry.first_report_ts b.reentry.started_monotonic h.first_eq h.started_eq
