-- ===== src/SolarBudget/Overlap.antt =====
-- How two phases share the overlap of a forecast period of app/optimizer.py's timing budgets.
use Prim.Native.Nat.{min, max}
use sigenergy_optimizer.Prelude.{◌∙◌, ℕ, ◌≡◌, ◌+◌, ◌-◌, ◌≤◌, refl, arith}
use sigenergy_optimizer.Prelude.Int.{ℤ, pos_part, neg_part, ◌-ℤ◌, ◌≤ℤ◌}
use sigenergy_optimizer.SolarBudget.{overlap, min_ℤ, max_ℤ}

between : ℕ → ℕ → ℕ → ℕ → ℕ
between since till start end = min till end - max since start

between_split :
    (since till start turn end : ℕ)
    → start ≤ turn
    → turn ≤ end
    → between since till start turn + between since till turn end ≡ between since till start end
unfolding between
between_split since till start turn end h k = ground arith

-- An integer counted from `-n`.
abbrev shift : ℕ → ℤ → ℕ
shift n a = pos_part a + n - neg_part a

difference_shift :
    (n : ℕ) (a b : ℤ) → neg_part a ≤ n → neg_part b ≤ n → pos_part (a -ℤ b) ≡ shift n a - shift n b
unfolding ◌-ℤ◌
difference_shift n a b ha hb = ground arith

min-shift :
    (n : ℕ) (a b : ℤ)
    → neg_part a ≤ n
    → neg_part b ≤ n
    → (shift n (min_ℤ a b) ≡ min (shift n a) (shift n b)) × (neg_part (min_ℤ a b) ≤ n)
min-shift n a b ha hb = ground arith

max-shift :
    (n : ℕ) (a b : ℤ)
    → neg_part a ≤ n
    → neg_part b ≤ n
    → (shift n (max_ℤ a b) ≡ max (shift n a) (shift n b)) × (neg_part (max_ℤ a b) ≤ n)
max-shift n a b ha hb = ground arith

overlap-shift :
    (n : ℕ) (since till start end : ℤ)
    → neg_part since ≤ n
    → neg_part till ≤ n
    → neg_part start ≤ n
    → neg_part end ≤ n
    → overlap since till start end
      ≡ between (shift n since) (shift n till) (shift n start) (shift n end)
unfolding overlap between
overlap-shift n since till start end hs ht hb he =
    let (low, low_ok) = max-shift n since start hs hb in
    let (high, high_ok) = min-shift n till end ht he in
    difference_shift n (min_ℤ till end) (max_ℤ since start) high_ok low_ok ∙ rw (low, high) refl

split_from :
    (n : ℕ) (since till start turn end : ℤ)
    → neg_part since + neg_part till + neg_part start + neg_part turn + neg_part end ≤ n
    → start ≤ℤ turn
    → turn ≤ℤ end
    → overlap since till start turn + overlap since till turn end ≡ overlap since till start end
split_from n since till start turn end low h k =
    rw
      (
        overlap-shift n since till start turn (omega arith) (omega arith) (omega arith)
            (omega arith),
        overlap-shift n since till turn end (omega arith) (omega arith) (omega arith) (omega arith),
        overlap-shift n since till start end (omega arith) (omega arith) (omega arith)
            (omega arith),
      )
      (between_split (shift n since) (shift n till) (shift n start) (shift n turn) (shift n end)
        (omega arith) (omega arith))

pub overlap_split :
    (since till start turn end : ℤ)
    → start ≤ℤ turn
    → turn ≤ℤ end
    → overlap since till start turn + overlap since till turn end ≡ overlap since till start end
overlap_split since till start turn end h k =
    split_from (neg_part since + neg_part till + neg_part start + neg_part turn + neg_part end)
      since till start turn end (omega arith) h k
