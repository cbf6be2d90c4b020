-- ===== src/MscSettlement/Limits.antt =====
-- app/msc_settlement_evidence.py after `finish`.
use sigenergy_optimizer.Prelude.{◌≡◌, refl, true, List, [], ◌∷◌}
use sigenergy_optimizer.MscSettlement.Values.{Value, Parsers}
use sigenergy_optimizer.MscSettlement.{Evidence, finish, record_request, record_observation}
use sigenergy_optimizer.MscSettlement.Calls.{Call, starts, requests, observes, finishes, call, run}

-- Calls that record, and neither start nor finish an attempt.
abbrev pub OnlyRecord : List Call → Type 0
OnlyRecord [] = Unit
OnlyRecord (requests label phase target at outcome ∷ cs) = OnlyRecord cs
OnlyRecord (observes label phase expected boundary obj at outcome reason ∷ cs) = OnlyRecord cs
OnlyRecord (starts ∷ cs) = ⊥
OnlyRecord (finishes status ∷ cs) = ⊥

module _ (p : Parsers) where
  ignored : (cs : List Call) (e : Evidence) → e.finished ≡ true → OnlyRecord cs → run p cs e ≡ e
  unfolding run call record_request record_observation
  ignored [] e h o = refl
  ignored (requests label phase target at outcome ∷ cs) e h o = simp h (ignored cs e h o)
  ignored (observes label phase expected boundary obj at outcome reason ∷ cs) e h o =
      simp h (ignored cs e h o)
  ignored (starts ∷ cs) e h o = absurd o
  ignored (finishes status ∷ cs) e h o = absurd o

  -- After `finish` no request and no observation changes anything, until a new attempt is started.
  pub finished_is_frozen :
      (e : Evidence) (status : Value) (cs : List Call)
      → OnlyRecord cs
      → run p (finishes status ∷ cs) e ≡ finish status e
  unfolding run call
  finished_is_frozen e status cs o = ignored cs (finish status e) (unfold finish in refl) o
