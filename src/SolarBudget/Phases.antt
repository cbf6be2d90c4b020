-- ===== src/SolarBudget/Phases.antt =====
-- The piecewise budget of app/optimizer.py beside the plain one, on the same forecast.
use mathlib.Core.Path.{subst, ap₂}
use sigenergy_optimizer.Prelude.{
  ℕ, ◌≡◌, ◌+◌, ◌*◌, ◌≤◌, refl, true, Option, none, some, arith, List, [], ◌∷◌, zero, suc,
  Bool-cases, inl, inr,
}
use sigenergy_optimizer.Prelude.Int.{ℤ, pos, pos_part, ◌+ℤ◌, ◌≤ℤ◌, leb_ℤ, ltb_ℤ, Number, finite?}
use sigenergy_optimizer.SolarBudget.{
  ◌>>=◌, ◌>>◌, require, overlap, chargeable, opportunity, opportunities, min_ℤ, max_ℤ,
}
use sigenergy_optimizer.SolarBudget.Overlap.{overlap_split}

abbrev pub Related : (ℕ → ℕ → Type 0) → Option (ℕ × ℕ) → Option ℕ → Type 0
Related R none none = Unit
Related R (some (a, b)) (some t) = R (a + b) t
Related R _ _ = ⊥

-- A relation that holds of one period's two phases, and is kept by sums, holds of the whole forecast.
module _ (R : ℕ → ℕ → Type 0) (base : R 0 0)
    (add : (a b c d : ℕ) → R a b → R c d → R (a + c) (b + d)) (load slow normal : ℕ)
    (phases : (pv x y : ℕ)
      → R
          (chargeable pv load slow * x + chargeable pv load normal * y)
          (chargeable pv load normal * (x + y))) where
  regrouped :
      (c c' x y z r r' total : ℕ)
      → x + y ≡ z
      → R (c * x + c' * y) (c' * (x + y))
      → R (r + r') total
      → R (c * x + r + (c' * y + r')) (c' * z + total)
  regrouped c c' x y z r r' total e p h =
      let swap : c * x + c' * y + (r + r') ≡ c * x + r + (c' * y + r') = omega arith in
      subst (λ n. R n (c' * z + total)) swap
        (subst (λ n. R (c * x + c' * y + (r + r')) (c' * n + total)) e
          (add (c * x + c' * y) (c' * (x + y)) (r + r') total p h))

  module _ (period start turn end : ℤ) (turn_late : start ≤ℤ turn) (turn_early : turn ≤ℤ end) where
    period-Related :
        (since : ℤ) (pv : ℕ) (rest : ℕ × ℕ) (total : ℕ)
        → R (rest.0 + rest.1) total
        → R
            (chargeable pv load slow * overlap since (since +ℤ period) start turn
              + rest.0
              + (chargeable pv load normal * overlap since (since +ℤ period) turn end + rest.1))
            (chargeable pv load normal * overlap since (since +ℤ period) start end + total)
    period-Related since pv rest total h =
        regrouped (chargeable pv load slow) (chargeable pv load normal)
          (overlap since (since +ℤ period) start turn) (overlap since (since +ℤ period) turn end)
          (overlap since (since +ℤ period) start end) rest.0 rest.1 total
          (overlap_split since (since +ℤ period) start turn end turn_late turn_early)
          (phases pv (overlap since (since +ℤ period) start turn)
            (overlap since (since +ℤ period) turn end))
          h

    forecast-Related :
        (ps : List (Number × Number))
        → Related R
            (opportunities load slow normal period start turn end ps)
            (opportunity load normal period start end ps)
    unfolding opportunity opportunities
    forecast-Related [] = base
    forecast-Related ((at, pv) ∷ ps) = step (finite? at) (finite? pv) _ _ (forecast-Related ps)
      where
        step :
            (at' pv' : Option ℤ) (q : Option (ℕ × ℕ)) (o : Option ℕ)
            → Related R q o
            → Related R
                (at' >>= λ since. pv' >>= λ kw.
                  require (leb_ℤ (pos 0) kw)
                  >> (q >>= λ rest. some (
                    chargeable (pos_part kw) load slow * overlap since (since +ℤ period) start turn
                        + rest.0,
                    chargeable (pos_part kw) load normal * overlap since (since +ℤ period) turn end
                        + rest.1,
                  )))
                (at' >>= λ since. pv' >>= λ kw.
                  require (leb_ℤ (pos 0) kw)
                  >> (o >>= λ rest. some (
                      chargeable (pos_part kw) load normal
                        * overlap since (since +ℤ period) start end
                      + rest)))
        step none pv' q o h = tt
        step (some since) none q o h = tt
        step (some since) (some kw) q o h = elim (Bool-cases (leb_ℤ (pos 0) kw)) [
          | inr bad ↦ rw bad tt
          | inl good ↦ rw good (kept q o h)
        ]
          where
            kept :
                (q' : Option (ℕ × ℕ)) (o' : Option ℕ)
                → Related R q' o'
                → Related R
                    (q' >>= λ rest. some (
                      chargeable (pos_part kw) load slow
                            * overlap since (since +ℤ period) start turn
                          + rest.0,
                      chargeable (pos_part kw) load normal
                            * overlap since (since +ℤ period) turn end
                          + rest.1,
                    ))
                    (o' >>= λ rest. some (
                      chargeable (pos_part kw) load normal
                        * overlap since (since +ℤ period) start end
                      + rest))
            kept none none h' = tt
            kept (some rest) (some total) h' = period-Related since (pos_part kw) rest total h'
            kept none (some t) h' = absurd h'
            kept (some r) none h' = absurd h'

scaled_le : (a b x : ℕ) → a ≤ b → a * x ≤ b * x
scaled_le a b zero h = omega arith
scaled_le a b (suc x) h = omega (arith, scaled_le a b x h)

slow_phase_le :
    (load slow normal pv x y : ℕ)
    → slow ≤ normal
    → chargeable pv load slow * x + chargeable pv load normal * y
      ≤ chargeable pv load normal * (x + y)
slow_phase_le load slow normal pv x y h =
    let capped : chargeable pv load slow ≤ chargeable pv load normal = ground arith in
    omega (arith, scaled_le (chargeable pv load slow) (chargeable pv load normal) x capped)

same_phase :
    (load cap pv x y : ℕ)
    → chargeable pv load cap * x + chargeable pv load cap * y ≡ chargeable pv load cap * (x + y)
same_phase load cap pv x y = omega arith

-- The turn to the normal phase lies inside the window.
turn_inside :
    (slow_end start deadline : ℤ)
    → ltb_ℤ start deadline ≡ true
    → (start ≤ℤ min_ℤ (max_ℤ slow_end start) deadline)
      × (min_ℤ (max_ℤ slow_end start) deadline ≤ℤ deadline)
turn_inside slow_end start deadline h = ground arith

module _ (load : ℕ) (period slow_end start deadline : ℤ) (periods : List (Number × Number))
    (window : ltb_ℤ start deadline ≡ true) where
  -- In a window that is not empty, with a slow capability of at most the normal one, both loops raise
  -- on the same forecasts, and otherwise the two phases together offer at most what the plain loop
  -- offers at the normal capability, wherever the slow phase ends.
  pub slow_phase_offers_less :
      (slow normal : ℕ)
      → slow ≤ normal
      → Related
          (λ a b. a ≤ b)
          (opportunities load slow normal period start
            (min_ℤ (max_ℤ slow_end start) deadline)
            deadline
            periods)
          (opportunity load normal period start deadline periods)
  slow_phase_offers_less slow normal h =
      let (late, early) = turn_inside slow_end start deadline window in
      forecast-Related (λ a b. a ≤ b) (omega arith) (λ a b c d p q. omega arith) load slow normal
        (λ pv x y. slow_phase_le load slow normal pv x y h) period start
        (min_ℤ (max_ℤ slow_end start) deadline) deadline late early periods

  -- In a window that is not empty, with one capability for both phases, both loops raise on the same
  -- forecasts, and otherwise the two phases together offer exactly what the plain loop offers.
  pub equal_phases_offer_all :
      (cap : ℕ)
      → Related
          (λ a b. a ≡ b)
          (opportunities load cap cap period start
            (min_ℤ (max_ℤ slow_end start) deadline)
            deadline
            periods)
          (opportunity load cap period start deadline periods)
  equal_phases_offer_all cap =
      let (late, early) = turn_inside slow_end start deadline window in
      forecast-Related (λ a b. a ≡ b) refl (λ a b c d p q. ap₂ (λ x y. x + y) p q) load cap cap
        (same_phase load cap) period start (min_ℤ (max_ℤ slow_end start) deadline) deadline late
        early periods
