-- ===== src/Earnings/Counter.antt =====
-- The rise of a cumulative counter in app/earnings.py over adjacent windows.
use sigenergy_optimizer.Prelude.{
  ◌≡◌, refl, sym, ◌∙◌, ap, ◌++◌, true, false, Option, none, some, List, [], ◌∷◌, if◌then◌else◌,
  arith, Bool-cases, if_self, inl, inr,
}
use mathlib.Core.Option.{some-injective, none-ne-some}
use sigenergy_optimizer.Prelude.Int.{ℤ, pos, ◌-ℤ◌, ◌+ℤ◌, ◌≤ℤ◌, ltb_ℤ, leb_ℤ, int_laws, eq_of_parts}
use sigenergy_optimizer.Earnings.Series.{
  Row, Readers, to_float, stamp, before_of, last_numeric_from, last_numeric_before,
  cumulative_delta,
}

abbrev pub reading_of : Option ℤ → Option ℤ → List (ℤ × ℤ)
reading_of (some ts) (some v) = (ts, v) ∷ []
reading_of _ _ = []

-- The rows that have a stamp and a number.
unfoldable pub readings : Readers → List Row → List (ℤ × ℤ)
readings r [] = []
readings r (row ∷ rows) = reading_of (stamp r row) (to_float r row.state) ++ readings r rows

-- From a reading on, in order of time, and never falling.
abbrev pub RisingFrom : ℤ → ℤ → List (ℤ × ℤ) → Type 0
RisingFrom t v [] = Unit
RisingFrom t v ((ts, w) ∷ more) = (t ≤ℤ ts) × (v ≤ℤ w) × RisingFrom ts w more

abbrev pub IsRising : List (ℤ × ℤ) → Type 0
IsRising [] = Unit
IsRising ((t, v) ∷ more) = RisingFrom t v more

-- The last of them before a boundary, after a first one.
abbrev last_from : ℤ → List (ℤ × ℤ) → ℤ → ℤ
last_from v [] b = v
last_from v ((ts, w) ∷ more) b = last_from (if leb_ℤ b ts then v else w) more b

abbrev last_of : List (ℤ × ℤ) → ℤ → Option ℤ
last_of [] b = none
last_of ((ts, w) ∷ more) b = if leb_ℤ b ts then last_of more b else some (last_from w more b)

last_numeric-some :
    (r : Readers) (rows : List Row) (v b : ℤ)
    → last_numeric_from r (some v) rows b ≡ some (last_from v (readings r rows) b)
unfolding last_numeric_from readings
last_numeric-some r [] v b = refl
last_numeric-some r (row ∷ rows) v b =
    step (stamp r row) (to_float r row.state) (λ u. last_numeric-some r rows u b)
  where
    step :
        (ts w : Option ℤ)
        → ((u : ℤ) → last_numeric_from r (some u) rows b ≡ some (last_from u (readings r rows) b))
        → last_numeric_from r (before_of r ts b w (some v)) rows b
          ≡ some (last_from v (reading_of ts w ++ readings r rows) b)
    step none w ih = ih v
    step (some ts) none ih = rw (if_self (leb_ℤ b ts) (some v)) (ih v)
    step (some ts) (some w) ih =
        elim (leb_ℤ b ts)
          as (λ c.
            last_numeric_from r (if c then some v else some w) rows b
            ≡ some (last_from (if c then v else w) (readings r rows) b)) [
              | true ↦ ih v
              | false ↦ ih w
            ]

last_numeric-none :
    (r : Readers) (rows : List Row) (b : ℤ)
    → last_numeric_from r none rows b ≡ last_of (readings r rows) b
unfolding last_numeric_from readings
last_numeric-none r [] b = refl
last_numeric-none r (row ∷ rows) b =
    step (stamp r row) (to_float r row.state) (last_numeric-none r rows b)
  where
    step :
        (ts w : Option ℤ)
        → last_numeric_from r none rows b ≡ last_of (readings r rows) b
        → last_numeric_from r (before_of r ts b w none) rows b
          ≡ last_of (reading_of ts w ++ readings r rows) b
    step none w ih = ih
    step (some ts) none ih = rw (if_self {A = Option ℤ} (leb_ℤ b ts) none) ih
    step (some ts) (some w) ih =
        elim (leb_ℤ b ts)
          as (λ c.
            last_numeric_from r (if c then none else some w) rows b
            ≡ (if c then last_of (readings r rows) b else some (last_from w (readings r rows) b))) [
              | true ↦ ih
              | false ↦ last_numeric-some r rows w b
            ]

-- Past the boundary nothing counts.
last_from-late :
    (v t w b : ℤ) (more : List (ℤ × ℤ)) → b ≤ℤ t → RisingFrom t w more → last_from v more b ≡ v
last_from-late v t w b [] h rise = refl
last_from-late v t w b ((ts, u) ∷ more) h rise =
    let late : leb_ℤ b ts ≡ true = ground arith in
    rw late (last_from-late v ts u b more (omega arith) rise.2)

last_from-le : (t v b : ℤ) (more : List (ℤ × ℤ)) → RisingFrom t v more → v ≤ℤ last_from v more b
last_from-le t v b [] rise = omega arith
last_from-le t v b ((ts, w) ∷ more) rise = elim (Bool-cases (leb_ℤ b ts)) [
  | inl late ↦ rw (late, last_from-late v ts w b more (ground arith) rise.2) (omega arith)
  | inr early ↦ rw early (omega (arith, last_from-le ts w b more rise.2))
]

last_from-mono :
    (t v b c : ℤ) (more : List (ℤ × ℤ))
    → b ≤ℤ c
    → RisingFrom t v more
    → last_from v more b ≤ℤ last_from v more c
last_from-mono t v b c [] h rise = omega arith
last_from-mono t v b c ((ts, w) ∷ more) h rise = elim (Bool-cases (leb_ℤ b ts)) [
  | inl late ↦
      rw (late, last_from-late v ts w b more (ground arith) rise.2)
        (last_from-le t v c ((ts, w) ∷ more) rise)
  | inr early ↦
      let early' : leb_ℤ c ts ≡ false = ground arith in
      rw (early, early') (last_from-mono ts w b c more h rise.2)
]

-- Before a boundary that all come after there is none.
last_of-late :
    (t w b : ℤ) (more : List (ℤ × ℤ)) → b ≤ℤ t → RisingFrom t w more → last_of more b ≡ none
last_of-late t w b [] h rise = refl
last_of-late t w b ((ts, u) ∷ more) h rise =
    let late : leb_ℤ b ts ≡ true = ground arith in
    rw late (last_of-late ts u b more (omega arith) rise.2)

-- A reading before a boundary is followed by one that is no less, before a later boundary.
last_of-rise :
    (rs : List (ℤ × ℤ)) (x b c : ℤ)
    → b ≤ℤ c
    → IsRising rs
    → last_of rs b ≡ some x
    → (y : ℤ) × (last_of rs c ≡ some y) × (x ≤ℤ y)
last_of-rise [] x b c h rise found = absurd (none-ne-some x found)
last_of-rise ((ts, w) ∷ more) x b c h rise found = elim (Bool-cases (leb_ℤ b ts)) [
  | inl late ↦
      absurd
        (none-ne-some x (sym (last_of-late ts w b more (ground arith) rise) ∙ (rw late at found)))
  | inr early ↦
      let early' : leb_ℤ c ts ≡ false = ground arith in
      let x_is : last_from w more b ≡ x =
        some-injective (last_from w more b) x (rw early at found) in
      (last_from w more c, rw early' refl, rw (sym x_is) (last_from-mono ts w b c more h rise))
]

-- Two readings in order, one before the start of a window and one before its end.
cumulative_delta-some :
    (r : Readers) (rows : List Row) (x y earlier start end : ℤ)
    → last_numeric_before r rows start ≡ some x
    → last_numeric_before r rows end ≡ some y
    → x ≤ℤ y
    → cumulative_delta r rows earlier start end ≡ some (y -ℤ x)
unfolding cumulative_delta last_numeric_before
cumulative_delta-some r rows x y earlier start end first last up =
    let rises : ltb_ℤ y x ≡ false = ground arith in rw (first, last, rises) refl

-- The rise over a window whose start has a reading.
delta :
    (r : Readers) (rows : List Row) (x earlier start end : ℤ)
    → start ≤ℤ end
    → IsRising (readings r rows)
    → last_numeric_before r rows start ≡ some x
    → (y : ℤ) × (last_numeric_before r rows end ≡ some y)
      × (x ≤ℤ y)
      × (cumulative_delta r rows earlier start end ≡ some (y -ℤ x))
unfolding cumulative_delta last_numeric_before
delta r rows x earlier start end h rise found =
    let later =
      last_of-rise (readings r rows) x start end h rise
        (sym (last_numeric-none r rows start) ∙ found) in
    let y = later.0 in
    let ended = last_numeric-none r rows end ∙ later.1 in
    (y, ended, later.2, cumulative_delta-some r rows x y earlier start end found ended later.2)

rises_add : (x y z : ℤ) → z -ℤ x ≡ y -ℤ x +ℤ (z -ℤ y)
rises_add x y z = eq_of_parts (z -ℤ x) (y -ℤ x +ℤ (z -ℤ y)) (omega int_laws)

-- A history whose stamped numbers are in order of time and never fall, with one before the first of
-- three instants in order: the counted rises of the two windows between them are given, are not
-- negative, and add up to that of the window from the first to the last.
pub cumulative_delta-adds_up :
    (r : Readers) (rows : List Row) (x earlier before a b c : ℤ)
    → IsRising (readings r rows)
    → a ≤ℤ b
    → b ≤ℤ c
    → last_numeric_before r rows a ≡ some x
    → (first second : ℤ) × (cumulative_delta r rows earlier a b ≡ some first)
      × (cumulative_delta r rows before b c ≡ some second)
      × (cumulative_delta r rows earlier a c ≡ some (first +ℤ second))
      × (pos 0 ≤ℤ first)
      × (pos 0 ≤ℤ second)
cumulative_delta-adds_up r rows x earlier before a b c rise ab bc found =
    let one = delta r rows x earlier a b ab rise found in
    let two = delta r rows one.0 before b c bc rise one.1 in
    let all =
      cumulative_delta-some r rows x two.0 earlier a c found two.1 (omega (arith, one.2, two.2)) in
    (
      one.0 -ℤ x,
      two.0 -ℤ one.0,
      one.3,
      two.3,
      all ∙ ap some (rises_add x one.0 two.0),
      omega (int_laws, one.2),
      omega (int_laws, two.2),
    )
