-- ===== src/Desired/Ladder.antt =====
-- app/optimizer.py: the places of a feed-in price on the ladder of the export tiers, and the limit at
-- each.
use sigenergy_optimizer.Prelude.{ℕ, ◌≤◌, ◌≡◌, Bool, true, not, ◌&&◌, ◌||◌, if◌then◌else◌, arith}
use sigenergy_optimizer.Prelude.Int.{ℤ, pos, ◌≤ℤ◌, ltb_ℤ, leb_ℤ}

-- Below the low threshold, in the low or the medium tier, or in the high one.
pub data Place : Type 0 where
  under low medium top : Place

abbrev pub place : Bool → Bool → Bool → Place
place u t d = if u then under else if t then top else if d then medium else low

abbrev pub height : Place → ℕ
height under = 0
height low = 1
height medium = 2
height top = 3

-- A price is placed by its tests against the three thresholds.
abbrev pub placed : ℤ → ℤ → ℤ → ℤ → Place
placed tl tm th f = place (ltb_ℤ f tl) (leb_ℤ th f) (leb_ℤ tm f)

pub height_mono :
    (tl tm th f g : ℤ)
    → (tl ≤ℤ tm)
    → (tm ≤ℤ th)
    → (f ≤ℤ g)
    → height (placed tl tm th f) ≤ height (placed tl tm th g)
height_mono tl tm th f g a b h = ground arith

module _ (lo me hi : ℤ) where
  abbrev pub Fits : Place → ℤ → ℤ → Type 0
  Fits under l d = Unit
  Fits low l d = (lo ≤ℤ l) × (l ≤ℤ me)
  Fits medium l d = (me ≤ℤ d) × (d ≤ℤ hi)
  Fits top l d = Unit

module _ (lo me hi : ℤ) (boost closed : Bool) where
  -- `helps` is the rest of the test for the boost below the low threshold.
  abbrev pub value : Place → Bool → ℤ → ℤ → ℤ
  value under helps l d = if boost && helps then lo else pos 0
  value low helps l d = if boost then l else if closed then pos 0 else l
  value medium helps l d = d
  value top helps l d = hi

  module _ (a : pos 0 ≤ℤ lo) (b : lo ≤ℤ me) (c : me ≤ℤ hi) where
    pub value-InRange :
        (p : Place) (helps : Bool) (l d : ℤ)
        → Fits lo me hi p l d
        → (pos 0 ≤ℤ value p helps l d) × (value p helps l d ≤ℤ hi)
    value-InRange under helps l d fits = ground arith
    value-InRange low helps l d fits = ground arith
    value-InRange medium helps l d fits = ground arith
    value-InRange top helps l d fits = ground arith

    -- A higher place gives no lower a limit.
    pub value-mono :
        (p q : Place) (helps helps' : Bool) (l l' d d' : ℤ)
        → height p ≤ height q
        → (not helps || helps' ≡ true)
        → (l ≤ℤ l')
        → (d ≤ℤ d')
        → Fits lo me hi p l d
        → Fits lo me hi q l' d'
        → value p helps l d ≤ℤ value q helps' l' d'
    value-mono under under x y l l' d d' r h i j f g = ground arith
    value-mono under low x y l l' d d' r h i j f g = ground arith
    value-mono under medium x y l l' d d' r h i j f g = ground arith
    value-mono under top x y l l' d d' r h i j f g = ground arith
    value-mono low under x y l l' d d' r h i j f g = absurd (ground arith)
    value-mono low low x y l l' d d' r h i j f g = ground arith
    value-mono low medium x y l l' d d' r h i j f g = ground arith
    value-mono low top x y l l' d d' r h i j f g = ground arith
    value-mono medium under x y l l' d d' r h i j f g = absurd (ground arith)
    value-mono medium low x y l l' d d' r h i j f g = absurd (ground arith)
    value-mono medium medium x y l l' d d' r h i j f g = j
    value-mono medium top x y l l' d d' r h i j f g = f.1
    value-mono top under x y l l' d d' r h i j f g = absurd (ground arith)
    value-mono top low x y l l' d d' r h i j f g = absurd (ground arith)
    value-mono top medium x y l l' d d' r h i j f g = absurd (ground arith)
    value-mono top top x y l l' d d' r h i j f g = omega arith
