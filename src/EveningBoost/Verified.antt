-- ===== src/EveningBoost/Verified.antt =====
-- What an application of app/optimizer.py must show so that the decisions of its evening boost go on.
use sigenergy_optimizer.Prelude.{
  ◌≡◌, ◌≢◌, refl, ◌⊎◌, inl, inr, ℕ, ◌≤◌, Bool, true, false, Option, none, some, arith, Eq,
  Bool-cases,
}
use sigenergy_optimizer.Prelude.Int.{ℤ, Number}
use sigenergy_optimizer.EveningBoost.{reset}
use sigenergy_optimizer.EveningBoost.Evidence.{Inputs, evidence}
use sigenergy_optimizer.EveningBoost.State.{Boost}
use sigenergy_optimizer.EveningBoost.Application.{
  Application, dispatch_current, finish_application, is_pending, is_completed,
}
use sigenergy_optimizer.EveningBoost.Runs.{verified, Reach}
use sigenergy_optimizer.EveningBoost.Generations.{stale_decision_is_dead}

-- A result that completed, or one that is pending, both by the automation and without a fallback.
abbrev pub Completed : Application → Type 0
Completed a = (a.succeeded ≡ true) × (a.automatic_application_completed ≡ true)

abbrev pub Pending : Application → Type 0
Pending a = (a.transition_pending ≡ true) × (a.automatic_transition_pending ≡ true)

-- The result of an application with the value that the method returns.
abbrev pub IsVerified : Option Application → Bool → Type 0
IsVerified none answer = ⊥
IsVerified (some a) answer =
    (a.fallback_attempted ≡ false) × (Completed a ⊎ Pending a) × ((answer ≡ false) ⊎ Pending a)

verified-IsVerified :
    (candidate : Bool) (result : Option Application) (ev : Option ℤ)
    → verified candidate result (is_pending result) ev ≡ true
    → IsVerified result (is_pending result) × (candidate ≡ true) × (ev ≢ none)
unfolding is_pending is_completed
verified-IsVerified candidate none ev h = ground arith
verified-IsVerified candidate (some a) ev h = ground arith

module _ {K : Type 0} ⦃e : Eq K⦄ where
  abbrev pub Survives : Boost K → Bool → Inputs → ℤ → Option Application → Type 0
  Survives b candidate i ts result =
      IsVerified result (finish_application b candidate i ts result).verified_pending
      × (candidate ≡ true)
      × (evidence i ts ≢ none)
      × ((finish_application b candidate i ts result).boost ≡ b)

  retired_generation :
      (b b' : Boost K) (candidate : Bool) (i : Inputs) (ts : ℤ) (result : Option Application)
      (n : ℕ) (gate : Bool) (j : Inputs) (now : ℤ) (mono : Number) (k : K)
      → verified candidate result (is_pending result) (evidence i ts) ≡ false
      → Reach (finish_application b candidate i ts result).boost b'
      → n ≤ b.reentry.generation
      → dispatch_current b' gate (some n) j now mono k ≡ some false
  unfolding finish_application reset
  retired_generation b b' candidate i ts result n gate j now mono k bad r le =
      stale_decision_is_dead n gate j now mono k r (rw bad (omega arith))

  -- A decision of a generation up to the one before an application passes the dispatch check at any
  -- later point of any history only if that application was verified: its result completed by the
  -- automation, or is pending by it, without a fallback; the boost was the candidate; and there was
  -- evidence. The application then left the admission as it was, and returned true only for a pending
  -- result.
  pub only_verified_applications_keep_decisions :
      {b b' : Boost K} (candidate : Bool) (i : Inputs) (ts : ℤ) (result : Option Application)
      (n : ℕ) (gate : Bool) (j : Inputs) (now : ℤ) (mono : Number) (k : K)
      → Reach (finish_application b candidate i ts result).boost b'
      → n ≤ b.reentry.generation
      → dispatch_current b' gate (some n) j now mono k ≡ some true
      → Survives b candidate i ts result
  only_verified_applications_keep_decisions {b} {b'} candidate i ts result n gate j now mono k r le
        h =
      elim (Bool-cases (verified candidate result (is_pending result) (evidence i ts))) [
        | inl good ↦
            let (way, chosen, trusted) =
              verified-IsVerified candidate result (evidence i ts) good in
            unfold finish_application in rw good (way, chosen, trusted, refl)
        | inr bad ↦
            absurd (
              clash _ h
                (retired_generation b b' candidate i ts result n gate j now mono k bad r le))
      ]
    where
      clash : (o : Option Bool) → o ≡ some true → o ≡ some false → ⊥
      clash o x y = ground arith
