-- ===== src/EveningBoost/Application.antt =====
-- app/optimizer.py: the check before the boost is dispatched and the judgement of its application,
-- `_evening_boost_reentry_dispatch_current` and `_finish_evening_boost_reentry_application`.
use sigenergy_optimizer.Prelude.{
  ℕ, Bool, true, false, not, ◌&&◌, ◌||◌, Option, none, some, ◌==◌, if◌then◌else◌, Eq, is_some,
}
use sigenergy_optimizer.Prelude.Int.{ℤ, pos, ◌-ℤ◌, ltb_ℤ, leb_ℤ, Number, finite?}
use sigenergy_optimizer.EveningBoost.{reset, same_context}
use sigenergy_optimizer.EveningBoost.Evidence.{Inputs, evidence, max_report_gap_seconds}
use sigenergy_optimizer.EveningBoost.State.{
  Phase, closed, is_admitted, application_not_verified_or_owner_changed, Boost,
}

-- The fields of `_ActuatorApplicationResult` that are read here.
pub record Application : Type 0 where
  pub succeeded : Bool
  pub automatic_application_completed : Bool
  pub transition_pending : Bool
  pub automatic_transition_pending : Bool
  pub fallback_attempted : Bool

-- The return value, with the two entries that the decision's trace gets.
pub record Finished (K : Type 0) : Type 0 where
  pub boost : Boost K
  pub verified_pending : Bool
  pub application_retained : Bool
  pub after_application_state : Phase

abbrev same_stamp : Option ℤ → Option ℤ → Bool
same_stamp (some a) (some b) = leb_ℤ a b && leb_ℤ b a
same_stamp _ _ = false

abbrev same_generation : Option ℕ → ℕ → Bool
same_generation none n = false
same_generation (some m) n = m == n

abbrev pub recent : ℤ → Option ℤ → Option Bool
recent mono none = none
recent mono (some at) =
    some (leb_ℤ (pos 0) (mono -ℤ at) && leb_ℤ (mono -ℤ at) max_report_gap_seconds)

abbrev pub evaluated : ℤ → Option ℤ → Option ℤ → Option Bool
evaluated mono none at = none
evaluated mono (some last) at = if ltb_ℤ mono last then some false else recent mono at

-- The comparisons of the clock with the admission's; one with `None` is a `TypeError`.
abbrev pub timely : ℤ → Option ℤ → Option ℤ → Option ℤ → Option ℤ → Option Bool
timely ts none wall last at = some false
timely ts (some mono) none last at = none
timely ts (some mono) (some wall) last at =
    if ltb_ℤ ts wall then some false else evaluated mono last at

-- `gate` and `traced` are the decision's trace of `_evening_boost_reentry_allowed`.
unfoldable pub dispatch_current :
    {K : Type 0} → ⦃e : Eq K⦄ → Boost K → Bool → Option ℕ → Inputs → ℤ → Number → K → Option Bool
unfolding evidence
dispatch_current b gate traced i ts mono k =
    if is_admitted b.reentry.phase
      && (gate
          && (same_generation traced b.reentry.generation
              && (same_stamp (evidence i ts) b.reentry.last_report_ts
                  && same_context k b.reentry.context)))
    then timely ts (finite? mono) b.reentry.last_wall_ts b.reentry.last_evaluated_monotonic
        b.reentry.last_report_monotonic
    else some false

unfoldable pub is_pending : Option Application → Bool
is_pending none = false
is_pending (some a) =
    a.transition_pending && (a.automatic_transition_pending && not a.fallback_attempted)

unfoldable pub is_completed : Option Application → Bool
is_completed none = false
is_completed (some a) =
    a.succeeded && (a.automatic_application_completed && not a.fallback_attempted)

-- `candidate` is the trace's gate; a result of another type is `none`.
unfoldable pub finish_application :
    {K : Type 0} → Boost K → Bool → Inputs → ℤ → Option Application → Finished K
unfolding evidence is_pending is_completed reset
finish_application b candidate i ts result =
    if (is_completed result || is_pending result) && (candidate && is_some (evidence i ts))
    then record {
      boost = b;
      verified_pending = is_pending result;
      application_retained = true;
      after_application_state = b.reentry.phase;
    }
    else record {
      boost = reset b application_not_verified_or_owner_changed;
      verified_pending = false;
      application_retained = false;
      after_application_state = closed;
    }
