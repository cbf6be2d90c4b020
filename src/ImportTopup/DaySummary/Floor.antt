-- ===== src/ImportTopup/DaySummary/Floor.antt =====
-- The floor of app/state_store.py's day summary, and the prices that were paid.
use sigenergy_optimizer.Prelude.{
  ℕ, ◌≡◌, refl, sym, ◌⊎◌, inl, inr, true, false, Option, none, some, List, [], ◌∷◌, arith,
}
use mathlib.Core.Path.{subst}
use sigenergy_optimizer.Prelude.Int.{ℤ, ◌≤ℤ◌, ltb_ℤ}
use sigenergy_optimizer.ImportTopup.Store.{Store, clamp}
use sigenergy_optimizer.ImportTopup.DaySummary.{
  Priced, Tally, significant_import_kwh, higher, count_row, tally, start, rows, summary,
}

abbrev pub Has : Priced → List Priced → Type 0
Has r [] = ⊥
Has r (x ∷ xs) = (x ≡ r) ⊎ Has r xs

-- `p` is a price, and the highest one seen is at least `p`.
abbrev pub Covers : Option ℤ → ℤ → Type 0
Covers none p = ⊥
Covers (some h) p = p ≤ℤ h

abbrev Grows : Tally → Tally → Type 0
Grows t t' = (p : ℤ) → Covers t.highest p → Covers t'.highest p

count_row-Grows : (t : Tally) (r : Priced) → Grows t (count_row t r)
unfolding count_row higher
count_row-Grows t r p h = ground arith

tally-Grows : (t : Tally) (rs : List Priced) → Grows t (tally t rs)
unfolding tally
tally-Grows t [] p h = h
tally-Grows t (r ∷ rs) p h = tally-Grows (count_row t r) rs p (count_row-Grows t r p h)

tally-untrusted :
    (t : Tally) (rs : List Priced) → t.untrusted ≡ true → (tally t rs).untrusted ≡ true
unfolding tally count_row
tally-untrusted t [] h = h
tally-untrusted t (r ∷ rs) h = tally-untrusted (count_row t r) rs (ground arith)

-- What a significant row contributes if the tally ends trusted.
abbrev pub Paid : Priced → Option ℤ → Type 0
Paid r highest = (p : ℤ) × (r.price_trusted ≡ true) × (r.import_price ≡ some p) × Covers highest p

higher-Covers : (o : Option ℤ) (p : ℤ) → Covers (higher o p) p
unfolding higher
higher-Covers o p = ground arith

count_row_pays :
    (t : Tally) (r : Priced) (o : Option ℤ)
    → r.import_price ≡ o
    → ltb_ℤ (clamp r.import_kwh) significant_import_kwh ≡ false
    → (count_row t r).untrusted ≡ false
    → Paid r (count_row t r).highest
unfolding count_row
count_row_pays t r none e sig ok = absurd (ground arith)
count_row_pays t r (some p) e sig ok =
    (p, ground arith, e, ground (arith, higher-Covers t.highest p))

first_pays :
    (t : Tally) (r : Priced) (rs : List Priced)
    → ltb_ℤ (clamp r.import_kwh) significant_import_kwh ≡ false
    → (tally (count_row t r) rs).untrusted ≡ false
    → Paid r (tally (count_row t r) rs).highest
first_pays t r rs sig ok =
    let (p, trusted, price, covers) =
      count_row_pays t r r.import_price refl sig
        (ground (arith, tally-untrusted (count_row t r) rs)) in
    (p, trusted, price, tally-Grows (count_row t r) rs p covers)

tally-covers :
    (t : Tally) (rs : List Priced) (r : Priced)
    → Has r rs
    → ltb_ℤ (clamp r.import_kwh) significant_import_kwh ≡ false
    → (tally t rs).untrusted ≡ false
    → Paid r (tally t rs).highest
unfolding tally
tally-covers t [] r m sig ok = absurd m
tally-covers t (x ∷ xs) r (inr m) sig ok = tally-covers (count_row t x) xs r m sig ok
tally-covers t (x ∷ xs) r (inl e) sig ok =
    subst (λ y. Paid y (tally (count_row t x) xs).highest) e
      (first_pays t x xs
        (subst (λ y. ltb_ℤ (clamp y.import_kwh) significant_import_kwh ≡ false) (sym e) sig) ok)

-- When the summary calls the import-cost floor trusted, every significant import row of the day,
-- legacy or interval, was recorded with a trusted price, and the floor is at least that price.
pub trusted_floor_covers :
    (s : Store) (d : ℕ) (r : Priced)
    → Has r (rows s d)
    → ltb_ℤ (clamp r.import_kwh) significant_import_kwh ≡ false
    → (summary s d).import_cost_floor_trusted ≡ true
    → Paid r (summary s d).import_cost_export_floor
unfolding summary
trusted_floor_covers s d r m sig ok = tally-covers start (rows s d) r m sig (ground arith)

-- A row of the list that paid the trusted price `p`.
abbrev pub PaidBy : List Priced → ℤ → Type 0
PaidBy rs p =
    (r : Priced) × Has r rs
    × (r.price_trusted ≡ true)
    × (r.import_price ≡ some p)
    × (ltb_ℤ (clamp r.import_kwh) significant_import_kwh ≡ false)

count_row-highest :
    (t : Tally) (r : Priced) (h : ℤ)
    → (count_row t r).highest ≡ some h
    → (t.highest ≡ some h)
      ⊎ ((r.price_trusted ≡ true)
          × (r.import_price ≡ some h)
          × (ltb_ℤ (clamp r.import_kwh) significant_import_kwh ≡ false))
unfolding count_row higher
count_row-highest t r h e = ground arith

later : (x : Priced) (rs : List Priced) (p : ℤ) → PaidBy rs p → PaidBy (x ∷ rs) p
later x rs p (r, m, a, b, c) = (r, inr m, a, b, c)

tally_paid :
    (t : Tally) (rs : List Priced) (h : ℤ)
    → (tally t rs).highest ≡ some h
    → (t.highest ≡ some h) ⊎ PaidBy rs h
unfolding tally
tally_paid t [] h e = inl e
tally_paid t (x ∷ xs) h e = here (tally_paid (count_row t x) xs h e)
  where
    first :
        (t.highest ≡ some h)
          ⊎ ((x.price_trusted ≡ true)
              × (x.import_price ≡ some h)
              × (ltb_ℤ (clamp x.import_kwh) significant_import_kwh ≡ false))
        → (t.highest ≡ some h) ⊎ PaidBy (x ∷ xs) h
    first (inl old) = inl old
    first (inr (a, b, c)) = inr (x, inl refl, a, b, c)

    here :
        ((count_row t x).highest ≡ some h) ⊎ PaidBy xs h → (t.highest ≡ some h) ⊎ PaidBy (x ∷ xs) h
    here (inl e') = first (count_row-highest t x h e')
    here (inr p) = inr (later x xs h p)

-- A floor is never invented: it is the trusted price of a significant import row of that day.
floor_is_paid :
    (s : Store) (d : ℕ) (h : ℤ)
    → (summary s d).import_cost_export_floor ≡ some h
    → PaidBy (rows s d) h
unfolding summary
floor_is_paid s d h e = paid (tally_paid start (rows s d) h e)
  where
    paid : (start.highest ≡ some h) ⊎ PaidBy (rows s d) h → PaidBy (rows s d) h
    paid (inl n) = cc
    paid (inr p) = p
