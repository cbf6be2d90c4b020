-- ===== src/MscSettlement/Streams.antt =====
-- One bounded stream of app/msc_settlement_evidence.py with its counts and stamps, from its whole log.
use sigenergy_optimizer.Prelude.{
  ℕ, ◌+◌, ◌≡◌, refl, sym, ap, ◌∙◌, String, str_eq, eq_iff, Option, none, some, List, [], ◌∷◌, ◌++◌,
  length, map, if◌then◌else◌, arith, length-append,
}
use sigenergy_optimizer.MscSettlement.Values.{Stamp}
use sigenergy_optimizer.MscSettlement.{Counts, bump, bounded_append, first_of, zero_counts}
use sigenergy_optimizer.MscSettlement.Window.{window, window-append}

-- `counts.get(key, 0)`
abbrev pub count_of : String → Counts → ℕ
count_of k [] = 0
count_of k ((j, n) ∷ c) = if str_eq k j then n else count_of k c

abbrev pub occurrences : String → List String → ℕ
occurrences k [] = 0
occurrences k (j ∷ js) = (if str_eq k j then 1 else 0) + occurrences k js

-- The first stamp that is not missing, and the last one.
abbrev pub first_stamp : List (Option Stamp) → Option Stamp
first_stamp [] = none
first_stamp (s ∷ ss) = first_of s (first_stamp ss)

abbrev pub last_stamp : List (Option Stamp) → Option Stamp
last_stamp [] = none
last_stamp (s ∷ []) = s
last_stamp (s ∷ t ∷ ss) = last_stamp (t ∷ ss)

-- The part of the evidence that one stream fills.
pub record Stream {A : Type 0} (label : A → String) (stamp : A → Option Stamp) (kept : List A)
    (number : ℕ) (counts : Counts) (first latest : Option Stamp) (entries : List A) : Type 0 where
  pub kept_eq : kept ≡ window entries
  pub number_eq : number ≡ length entries
  pub counts_eq : (k : String) → count_of k counts ≡ occurrences k (map label entries)
  pub first_eq : first ≡ first_stamp (map stamp entries)
  pub latest_eq : latest ≡ last_stamp (map stamp entries)

pub count_of-bump :
    (k j : String) (c : Counts)
    → count_of k (bump j c) ≡ count_of k c + (if str_eq k j then 1 else 0)
unfolding bump
count_of-bump k j [] = ground arith
count_of-bump k j ((i, n) ∷ c) =
    ground (arith, eq_iff k j, eq_iff j i, eq_iff k i, count_of-bump k j c)

pub occurrences-snoc :
    (k : String) (js : List String) (j : String)
    → occurrences k (js ++ j ∷ []) ≡ occurrences k js + (if str_eq k j then 1 else 0)
occurrences-snoc k [] j = ground arith
occurrences-snoc k (i ∷ js) j = omega (arith, occurrences-snoc k js j)

first_of_assoc : (a b c : Option Stamp) → first_of a (first_of b c) ≡ first_of (first_of a b) c
first_of_assoc none b c = refl
first_of_assoc (some a) b c = refl

first_of-none : (a : Option Stamp) → first_of a none ≡ a
first_of-none none = refl
first_of-none (some a) = refl

first_stamp-snoc :
    (ss : List (Option Stamp)) (s : Option Stamp)
    → first_stamp (ss ++ s ∷ []) ≡ first_of (first_stamp ss) s
first_stamp-snoc [] s = first_of-none s
first_stamp-snoc (t ∷ ss) s =
    ap (first_of t) (first_stamp-snoc ss s) ∙ first_of_assoc t (first_stamp ss) s

last_stamp-snoc : (ss : List (Option Stamp)) (s : Option Stamp) → last_stamp (ss ++ s ∷ []) ≡ s
last_stamp-snoc [] s = refl
last_stamp-snoc (t ∷ []) s = refl
last_stamp-snoc (t ∷ u ∷ ss) s = last_stamp-snoc (u ∷ ss) s

pub map-snoc {ℓ κ} :
    {A : Type ℓ} {B : Type κ} (f : A → B) (xs : List A) (x : A)
    → map f (xs ++ x ∷ []) ≡ map f xs ++ f x ∷ []
map-snoc f [] x = refl
map-snoc f (y ∷ xs) x = ap (λ l. f y ∷ l) (map-snoc f xs x)

module _ {A : Type 0} (label : A → String) (stamp : A → Option Stamp) where
  pub empty-Stream : Stream label stamp [] 0 zero_counts none none []
  empty-Stream = record {
    kept_eq = refl;
    number_eq = refl;
    counts_eq = λ k. ground arith;
    first_eq = refl;
    latest_eq = refl;
  }

  pub Stream-snoc :
      (kept : List A) (number : ℕ) (counts : Counts) (first latest : Option Stamp)
      (entries : List A) (x : A)
      → Stream label stamp kept number counts first latest entries
      → Stream label stamp
          (bounded_append kept x)
          (number + 1)
          (bump (label x) counts)
          (first_of first (stamp x))
          (stamp x)
          (entries ++ x ∷ [])
  Stream-snoc kept number counts first latest entries x s = record {
    kept_eq = ap (λ l. bounded_append l x) s.kept_eq ∙ window-append entries x;
    number_eq = omega (arith, s.number_eq, length-append entries (x ∷ []));
    counts_eq = λ k.
        count_of-bump k (label x) counts
        ∙ ap (λ n. n + (if str_eq k (label x) then 1 else 0)) (s.counts_eq k)
        ∙ sym (occurrences-snoc k (map label entries) (label x))
        ∙ ap (occurrences k) (sym (map-snoc label entries x));
    first_eq =
        ap (λ f. first_of f (stamp x)) s.first_eq
        ∙ sym (first_stamp-snoc (map stamp entries) (stamp x))
        ∙ ap first_stamp (sym (map-snoc stamp entries x));
    latest_eq =
        sym (last_stamp-snoc (map stamp entries) (stamp x))
        ∙ ap last_stamp (sym (map-snoc stamp entries x));
  }
