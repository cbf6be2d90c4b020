-- ===== src/MscSettlement/Window.antt =====
-- The bounded streams of app/msc_settlement_evidence.py: what `_bounded_append` keeps of a stream.
use sigenergy_optimizer.Prelude.{
  ◌+◌, ◌-◌, ◌≤◌, ◌<◌, ◌≡◌, refl, ap, ◌∙◌, sym, true, false, List, [], ◌∷◌, ◌++◌, length, take, drop,
  leb, ltb, if◌then◌else◌, arith, Bool-cases, inl, inr, length-append, length-take, length-drop,
  take-append_le, drop-append_le, drop-append_past, drop-drop, take-take,
}
use mathlib.Core.List.{append_assoc}
use sigenergy_optimizer.MscSettlement.{bounded_append}

-- Twelve entries at most: the whole stream, or its first six and its last six.
abbrev pub window {ℓ} : {A : Type ℓ} → List A → List A
window xs = if leb (length xs) 12 then xs else take 6 xs ++ drop (length xs - 6) xs

module _ {ℓ} {A : Type ℓ} (xs : List A) (x : A) where
  split_append :
      12 ≤ length xs → window (xs ++ x ∷ []) ≡ take 6 xs ++ drop (length xs - 5) xs ++ x ∷ []
  split_append h =
      let len : length (xs ++ x ∷ []) ≡ length xs + 1 = length-append xs (x ∷ []) in
      let long : leb (length (xs ++ x ∷ [])) 12 ≡ false = ground arith in
      let from : length (xs ++ x ∷ []) - 6 ≡ length xs - 5 = omega arith in
      rw
        (
          long,
          from,
          take-append_le 6 xs (x ∷ []) (omega arith),
          drop-append_le (length xs - 5) xs (x ∷ []) (omega arith),
        )
        (sym (append_assoc (take 6 xs) (drop (length xs - 5) xs) (x ∷ [])))

  short_append : length xs < 12 → bounded_append (window xs) x ≡ window (xs ++ x ∷ [])
  unfolding bounded_append
  short_append h =
      let len : length (xs ++ x ∷ []) ≡ length xs + 1 = length-append xs (x ∷ []) in
      let fits : leb (length xs) 12 ≡ true = ground arith in
      let room : ltb (length xs) 12 ≡ true = ground arith in
      let still : leb (length (xs ++ x ∷ [])) 12 ≡ true = ground arith in
      rw (fits, room, still) refl

  full_append : length xs ≡ 12 → bounded_append (window xs) x ≡ window (xs ++ x ∷ [])
  unfolding bounded_append
  full_append h =
      let fits : leb (length xs) 12 ≡ true = ground arith in
      let full : ltb (length xs) 12 ≡ false = ground arith in
      let from : length xs - 5 ≡ 7 = omega arith in
      rw (fits, full) (sym (split_append (omega arith) ∙ rw from refl))

  long_append : 12 < length xs → bounded_append (window xs) x ≡ window (xs ++ x ∷ [])
  unfolding bounded_append
  long_append h =
      let head : length (take 6 xs) ≡ 6 = length-take 6 xs (omega arith) in
      let tail : length (drop (length xs - 6) xs) ≡ 6 =
        omega (arith, length-drop (length xs - 6) xs) in
      let len : length (take 6 xs ++ drop (length xs - 6) xs) ≡ 12 =
        omega (arith, length-append (take 6 xs) (drop (length xs - 6) xs)) in
      let over : leb (length xs) 12 ≡ false = ground arith in
      let full : ltb (length (take 6 xs ++ drop (length xs - 6) xs)) 12 ≡ false = ground arith in
      let rest : drop 7 (take 6 xs ++ drop (length xs - 6) xs) ≡ drop (length xs - 5) xs =
        drop-append_past 6 1 (take 6 xs) (drop (length xs - 6) xs) head
        ∙ drop-drop (length xs - 6) 1 xs
        ∙ ap (λ n. drop n xs) (omega arith) in
      rw
        (
          over,
          full,
          rest,
          take-append_le 6 (take 6 xs) (drop (length xs - 6) xs) (omega arith),
          take-take 6 xs,
        )
        (sym (split_append (omega arith)))

  -- Appending to what is kept of a stream gives what is kept of the longer stream.
  pub window-append : bounded_append (window xs) x ≡ window (xs ++ x ∷ [])
  window-append = elim (Bool-cases (ltb (length xs) 12)) [
    | inl less ↦ short_append (ground arith)
    | inr more ↦ elim (Bool-cases (leb (length xs) 12)) [
      | inl full ↦ full_append (ground arith)
      | inr over ↦ long_append (ground arith)
    ]
  ]
