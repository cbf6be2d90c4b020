-- ===== src/EveningBoost/Runs.antt =====
-- The histories of app/optimizer.py's evening boost: evaluations, applications and resets in any order.
use sigenergy_optimizer.Prelude.{
  ◌≡◌, refl, Bool, true, false, Option, none, some, arith, Eq, Bool-cases, inl, inr, is_some, ◌&&◌,
  ◌||◌, ◌≢◌, ℕ, if◌then◌else◌,
}
use sigenergy_optimizer.Prelude.Int.{ℤ, Number, finite?}
use sigenergy_optimizer.EveningBoost.{reset, allowed}
use sigenergy_optimizer.EveningBoost.Evidence.{Inputs, evidence}
use sigenergy_optimizer.EveningBoost.State.{
  Phase, Reason, Boost, application_not_verified_or_owner_changed, fresh_boost,
}
use sigenergy_optimizer.EveningBoost.Invariant.{IsValid, reset-IsValid}
use sigenergy_optimizer.EveningBoost.Settlement.{Answer, allowed-Answer}
use sigenergy_optimizer.EveningBoost.Application.{
  Application, dispatch_current, finish_application, is_pending, is_completed, timely,
}

abbrev pub verified : Bool → Option Application → Bool → Option ℤ → Bool
verified candidate result pending ev = (is_completed result || pending) && (candidate && is_some ev)

timely_reads :
    (ts : ℤ) (mono : Option ℤ) (wall last at : ℤ)
    → timely ts mono (some wall) (some last) (some at) ≢ none
timely_reads ts none wall last at = ground arith
timely_reads ts (some m) wall last at = ground arith

if_reads : (c : Bool) (o : Option Bool) → o ≢ none → (if c then o else some false) ≢ none
if_reads true o h = h
if_reads false o h = ground arith

module _ {K : Type 0} ⦃e : Eq K⦄ where
  pub data Step : Boost K → Boost K → Type 0 where
    asks :
        {b b' : Boost K} {answer : Bool} (candidate settling : Bool) (i : Inputs) (ts : ℤ)
        (mono : Number) (k : K)
        → allowed b candidate settling i ts mono k ≡ some (b', answer)
        → Step b b'
    finishes :
        {b : Boost K} (candidate : Bool) (i : Inputs) (ts : ℤ) (result : Option Application)
        → Step b (finish_application b candidate i ts result).boost
    resets : {b : Boost K} (why : Reason) → Step b (reset b why)

  pub data Reach (start : Boost K) : Boost K → Type 0 where
    here : Reach start start
    next : {b b' : Boost K} → Reach start b → Step b b' → Reach start b'

  Answer-IsValid :
      (candidate settling : Bool) (i : Inputs) (ts : ℤ) (mono : Number) (k : K) (was : Phase)
      (b : Boost K) (answer : Bool)
      → Answer candidate settling i ts mono k was (some (b, answer))
      → IsValid b
  Answer-IsValid candidate settling i ts mono k was b false h = h
  Answer-IsValid candidate settling i ts mono k was b true (_, _, _, _, _, v, _, _) = v

  finish-IsValid :
      (b : Boost K) (candidate : Bool) (i : Inputs) (ts : ℤ) (result : Option Application)
      → IsValid b
      → IsValid (finish_application b candidate i ts result).boost
  unfolding finish_application
  finish-IsValid b candidate i ts result v =
      elim (Bool-cases (verified candidate result (is_pending result) (evidence i ts))) [
        | inl good ↦ rw good v
        | inr bad ↦ rw bad (reset-IsValid b application_not_verified_or_owner_changed)
      ]

  Step-IsValid : {b b' : Boost K} → Step b b' → IsValid b → IsValid b'
  Step-IsValid {b} {b'} (asks {answer} candidate settling i ts mono k h) v =
      Answer-IsValid candidate settling i ts mono k b.reentry.phase b' answer
        (rw h at (allowed-Answer b candidate settling i ts mono k v))
  Step-IsValid {b} (finishes candidate i ts result) v = finish-IsValid b candidate i ts result v
  Step-IsValid {b} (resets why) v = reset-IsValid b why

  pub Reach-IsValid : {b b' : Boost K} → Reach b b' → IsValid b → IsValid b'
  Reach-IsValid here v = v
  Reach-IsValid (next r s) v = Step-IsValid s (Reach-IsValid r v)

  dispatch_reads :
      (b : Boost K) (gate : Bool) (traced : Option ℕ) (i : Inputs) (ts : ℤ) (mono : Number) (k : K)
      → IsValid b
      → dispatch_current b gate traced i ts mono k ≢ none
  unfolding dispatch_current
  dispatch_reads b gate traced i ts mono k (inl shut) = rw shut (ground arith)
  dispatch_reads b gate traced i ts mono k (inr h) =
      rw (h.wall_eq, h.evaluated_eq, h.at_eq)
        (if_reads _ _ (timely_reads ts (finite? mono) h.wall h.evaluated h.at))

  -- After any history of calls on a new optimizer, neither the boost's guard nor the check before a
  -- dispatch meets a missing stamp, whatever the two are given: both have an answer in the model,
  -- where a missing stamp is the only thing that withholds it.
  pub no_stamp_is_missing :
      (b : Boost K) (candidate settling : Bool) (i : Inputs) (ts : ℤ) (mono : Number) (k : K)
      (gate : Bool) (traced : Option ℕ) (j : Inputs) (now : ℤ) (now_mono : Number) (k' : K)
      → Reach fresh_boost b
      → (allowed b candidate settling i ts mono k ≢ none)
        × (dispatch_current b gate traced j now now_mono k' ≢ none)
  no_stamp_is_missing b candidate settling i ts mono k gate traced j now now_mono k' r =
      let v = Reach-IsValid r (inl refl) in
      (
        λ h. rw h at (allowed-Answer b candidate settling i ts mono k v),
        dispatch_reads b gate traced j now now_mono k' v,
      )
