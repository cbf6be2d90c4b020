-- ===== src/SolarReentry/Runs.antt =====
-- Histories of a guard: sequences of the calls of app/solar_reentry.py.
use sigenergy_optimizer.Prelude.{
  ℕ, ◌+◌, ◌≤◌, ◌<◌, ◌≡◌, ◌≢◌, Bool, true, false, Option, none, some, arith, Eq, Bool-cases, inl,
  inr,
}
use sigenergy_optimizer.Prelude.Int.{ℤ, Number}
use sigenergy_optimizer.SolarReentry.{
  judge, adopt, reset, arm, start, advance, observe, evaluate, current, commit,
}
use sigenergy_optimizer.SolarReentry.State.{
  Stamps, reports_fresh, Reason, Reading, Guard, fresh_guard,
}
use sigenergy_optimizer.SolarReentry.Invariant.{IsValid, reset-IsValid, arm-IsValid, commit-IsValid}
use sigenergy_optimizer.SolarReentry.Dispatch.{Answer, evaluate-Answer}

-- Retired proof cannot be dispatched or committed under any generation, and the reset moves to a
-- generation of its own while the latch stays as it was.
retired_proof_is_dead :
    {K : Type 0} ⦃e : Eq K⦄ (g : Guard K) (why : Reason) (n : ℕ) (r : Reading K)
    → (current (reset g why) n r ≡ false)
      × (commit (reset g why) n ≡ (reset g why, false))
      × ((reset g why).generation ≡ g.generation + 1)
      × ((reset g why).required ≡ g.required)
unfolding reset current commit
retired_proof_is_dead g why n r = ground arith

module _ {K : Type 0} where
  -- A qualified proof is committed at most once: the commit opens the latch, and no later commit, of
  -- any generation, is accepted before the guard is armed again.
  commit_once :
      (g g' : Guard K) (n m : ℕ)
      → commit g n ≡ (g', true)
      → (n ≡ g.generation)
        × (g.required ≡ true)
        × (g'.required ≡ false)
        × (commit g' m ≡ (g', false))
  unfolding commit
  commit_once g g' n m h = ground arith

  module _ ⦃e : Eq K⦄ where
    -- One call on the guard, as the optimizer makes them.
    pub data Step (g : Guard K) : Guard K → Type 0 where
      resets : (why : Reason) → Step g (reset g why)
      arms : (cause : Reason) → Step g (arm g cause)
      commits : (n : ℕ) → Step g (commit g n).0
      evaluates :
          (candidate : Bool) (r : Reading K) {g' : Guard K} {answer : Bool}
          → evaluate g candidate r ≡ some (g', answer)
          → Step g g'

    pub data Reach (g : Guard K) : Guard K → Type 0 where
      here : Reach g g
      next : {g' g'' : Guard K} → Reach g g' → Step g' g'' → Reach g g''

    evaluate-IsValid :
        (g g' : Guard K) (candidate answer : Bool) (r : Reading K)
        → IsValid g
        → evaluate g candidate r ≡ some (g', answer)
        → IsValid g'
    evaluate-IsValid g g' candidate answer r v h = elim (Bool-cases g.required) [
      | inl q ↦ answered answer (rw h at (evaluate-Answer g candidate r q v))
      | inr q ↦ unfold evaluate in ground arith
    ]
      where
        answered : (b : Bool) → Answer candidate r (some (g', b)) → IsValid g'
        answered false a = a
        answered true (s, c, _, _, _, _, v', _) = v'

    Step-IsValid : {g g' : Guard K} → Step g g' → IsValid g → IsValid g'
    Step-IsValid {g} (resets why) v = reset-IsValid g why
    Step-IsValid {g} (arms cause) v = arm-IsValid g cause
    Step-IsValid {g} (commits n) v = commit-IsValid g n v
    Step-IsValid {g} {g'} (evaluates candidate r {answer = b} h) v =
        evaluate-IsValid g g' candidate b r v h

    Reach-IsValid : {g g' : Guard K} → Reach g g' → IsValid g → IsValid g'
    Reach-IsValid here v = v
    Reach-IsValid (next h st) v = Step-IsValid st (Reach-IsValid h v)

    -- After any history of calls on a new guard, `evaluate` fails no assertion, whatever it is given.
    pub evaluate_never_asserts :
        (g : Guard K) (candidate : Bool) (r : Reading K)
        → Reach fresh_guard g
        → evaluate g candidate r ≢ none
    evaluate_never_asserts g candidate r h e = elim (Bool-cases g.required) [
      | inl q ↦ rw e at (evaluate-Answer g candidate r q (Reach-IsValid h (ground arith)))
      | inr q ↦ unfold evaluate in ground arith
    ]

    advance_keeps :
        (g g' : Guard K) (b : Bool) (r old at : Stamps) (mono : ℤ)
        → advance g r old at mono ≡ some (g', b)
        → (g.generation ≤ g'.generation) × (g'.required ≡ g.required)
    unfolding advance
    advance_keeps g g' b r old at mono h = ground arith

    judge_keeps :
        (g g' : Guard K) (b : Bool) (fresh : Option Stamps) (mono : ℤ) (k : K)
        → judge g fresh mono k ≡ some (g', b)
        → (g.generation ≤ g'.generation) × (g'.required ≡ g.required)
    unfolding reset start
    judge_keeps g g' b fresh mono k h = grind (arith, advance_keeps)

    observe_keeps :
        (g g' : Guard K) (candidate b : Bool) (reports : Option (Number × Number)) (ts mono : ℤ)
        (k : K)
        → observe g candidate reports ts mono k ≡ some (g', b)
        → (g.generation ≤ g'.generation) × (g'.required ≡ g.required)
    unfolding observe reset
    observe_keeps g g' candidate b reports ts mono k h = ground (
      arith,
      judge_keeps (adopt (record g { last_clock = some (record { ts = ts; mono = mono }) }) k) g' b
          (reports_fresh reports ts) mono k,
    )

    -- An evaluation never opens the latch and never goes back to an earlier generation.
    evaluate_keeps :
        (g g' : Guard K) (candidate answer : Bool) (r : Reading K)
        → evaluate g candidate r ≡ some (g', answer)
        → (g.generation ≤ g'.generation) × (g'.required ≡ g.required)
    unfolding evaluate reset
    evaluate_keeps g g' candidate answer r h = grind (arith, observe_keeps)

    Step-generation : {g g' : Guard K} → Step g g' → g.generation ≤ g'.generation
    unfolding arm reset commit
    Step-generation (resets why) = omega arith
    Step-generation (arms cause) = omega arith
    Step-generation {g} (commits n) = ground arith
    Step-generation {g} {g'} (evaluates candidate r {answer = b} h) =
        (evaluate_keeps g g' candidate b r h).0

    Reach-generation : {g g' : Guard K} → Reach g g' → g.generation ≤ g'.generation
    Reach-generation here = omega arith
    Reach-generation (next h st) = omega (arith, Reach-generation h, Step-generation st)

    -- Proof of an earlier generation stays dead: however the history goes on, a generation below the
    -- one reached can neither be dispatched nor committed again.
    pub stale_generation_is_dead :
        {g g' : Guard K} (n : ℕ) (r : Reading K)
        → Reach g g'
        → n < g.generation
        → (current g' n r ≡ false) × (commit g' n ≡ (g', false))
    unfolding current commit
    stale_generation_is_dead n r h lt = ground (arith, Reach-generation h)
