-- ===== src/Forecast/Unique.antt =====
-- The names in the candidate lists of app/forecast_utils.py.
use sigenergy_optimizer.Prelude.{
  listed, ◌≡◌, refl, String, str_eq, eq_iff, false, not, ◌&&◌, ◌||◌, List, [], ◌∷◌, ◌++◌, arith,
  Bool-cases, inl, inr,
}
use sigenergy_optimizer.Forecast.Candidates.{add_new, unique_from}

abbrev pub IsDistinct : List String → Type 0
IsDistinct [] = Unit
IsDistinct (s ∷ ss) = (listed s ss ≡ false) × IsDistinct ss

listed-snoc :
    (s : String) (ss : List String) (t : String)
    → listed s (ss ++ t ∷ []) ≡ (listed s ss || str_eq s t)
listed-snoc s [] t = ground arith
listed-snoc s (u ∷ ss) t = ground (arith, listed-snoc s ss t)

str_eq_comm : (s t : String) → str_eq s t ≡ str_eq t s
str_eq_comm s t = ground (arith, eq_iff s t, eq_iff t s)

snoc-IsDistinct :
    (ss : List String) (t : String)
    → IsDistinct ss
    → listed t ss ≡ false
    → IsDistinct (ss ++ t ∷ [])
snoc-IsDistinct [] t d h = (refl, tt)
snoc-IsDistinct (u ∷ ss) t d h = (
  ground (arith, d.0, listed-snoc u ss t, str_eq_comm u t),
  snoc-IsDistinct ss t d.1 (ground arith),
)

add_new-IsDistinct : (ss : List String) (t : String) → IsDistinct ss → IsDistinct (add_new ss t)
add_new-IsDistinct ss t d = elim (Bool-cases (str_eq t "" || listed t ss)) [
  | inl old ↦ rw old d
  | inr new ↦ rw new (snoc-IsDistinct ss t d (ground arith))
]

listed_itself :
    (t : String) (ss : List String)
    → listed t (add_new ss t) ≡ (listed t ss || not (str_eq t "") && str_eq t t)
listed_itself t ss = ground (arith, eq_iff t t, listed-snoc t ss t)

listed-add_new :
    (s : String) (ss : List String) (t : String)
    → listed s (add_new ss t) ≡ (listed s ss || not (str_eq s "") && str_eq s t)
listed-add_new s ss t = elim (Bool-cases (str_eq s t)) [
  | inl same ↦ rw ((eq_iff s t).0 same) (listed_itself t ss)
  | inr differ ↦ ground (arith, listed-snoc s ss t)
]

unique_from-IsDistinct :
    (found ss : List String) → IsDistinct found → IsDistinct (unique_from found ss)
unfolding unique_from
unique_from-IsDistinct found [] d = d
unique_from-IsDistinct found (s ∷ ss) d =
    unique_from-IsDistinct (add_new found s) ss (add_new-IsDistinct found s d)

listed-unique_from :
    (s : String) (found ss : List String)
    → listed s (unique_from found ss) ≡ (listed s found || not (str_eq s "") && listed s ss)
unfolding unique_from
listed-unique_from s found [] = ground arith
listed-unique_from s found (t ∷ ss) =
    ground (arith, listed-unique_from s (add_new found t) ss, listed-add_new s found t)

-- The loop that builds a candidate list keeps exactly the names that are not empty, each once.
unique_from-exact :
    (ss : List String) (s : String)
    → IsDistinct (unique_from [] ss)
      × (listed s (unique_from [] ss) ≡ (not (str_eq s "") && listed s ss))
unique_from-exact ss s = (unique_from-IsDistinct [] ss tt, listed-unique_from s [] ss)
