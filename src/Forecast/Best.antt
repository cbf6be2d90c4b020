-- ===== src/Forecast/Best.antt =====
-- The entries that `extract_forecast_entries` of app/forecast_utils.py chooses, beside the list of
-- everything that it could choose from.
use mathlib.Core.List.{append_assoc, append-nil}
use sigenergy_optimizer.Prelude.{
  listed, All, ℕ, ◌+◌, ◌≡◌, ◌≤◌, ◌<◌, refl, sym, ap, ◌∙◌, String, not, ◌&&◌, Option, none, some,
  List, [], ◌∷◌, ◌++◌, ltb, ◌==◌, if◌then◌else◌, arith, Bool-cases, inl, inr, ◌⊎◌,
}
use sigenergy_optimizer.Forecast.Candidates.{forecast_attr_candidates, forecast_entity_candidates}
use sigenergy_optimizer.Forecast.Points.{Entry, Readers}
use sigenergy_optimizer.Forecast.{
  Attribute, entries, not_a_list, Object, Search, Diagnostics, Wanted, empty_search, attribute_of,
  object_of, has_forecast_attribute, unavailable_states, rank, beats, count_valid, tried, won,
  consider, counted, try_attribute, and_then, try_attributes, try_entity, try_entities, reported,
  extract_forecast_entries,
}

-- Entries with valid points, where they stand and what they score.
pub record Offer : Type 0 where
  pub entity : String
  pub attribute : String
  pub entries : List Entry
  pub points : ℕ
  pub score : ℕ

abbrev pub both : Option (List Offer) → Option (List Offer) → Option (List Offer)
both none more = none
both (some os) none = none
both (some os) (some more) = some (os ++ more)

module _ (r : Readers) (w : Wanted) where
  abbrev pub offer_of : String → String → List Entry → ℕ → List Offer
  offer_of entity attr es points =
      if points == 0
      then []
      else record {
        entity = entity;
        attribute = attr;
        entries = es;
        points = points;
        score = rank w entity attr + points;
      }
        ∷ []

  abbrev pub counted_offer : String → String → List Entry → Option ℕ → Option (List Offer)
  counted_offer entity attr es none = none
  counted_offer entity attr es (some points) = some (offer_of entity attr es points)

  abbrev pub attribute_offer : String → String → Attribute → Option (List Offer)
  attribute_offer entity attr (entries (e ∷ es)) =
      counted_offer entity attr (e ∷ es) (count_valid r w (e ∷ es))
  attribute_offer entity attr _ = some []

  unfoldable pub attribute_offers :
      String → List (String × Attribute) → List String → Option (List Offer)
  attribute_offers entity attrs [] = some []
  attribute_offers entity attrs (k ∷ ks) =
      both (attribute_offer entity k (attribute_of k attrs)) (attribute_offers entity attrs ks)

  abbrev pub entity_offers : String → Option Object → Option (List Offer)
  entity_offers entity none = some []
  entity_offers entity (some o) =
      if listed (r.lower o.state) unavailable_states
        && not (has_forecast_attribute o.attributes (forecast_attr_candidates w.preferred_attr))
      then some []
      else attribute_offers entity o.attributes (forecast_attr_candidates w.preferred_attr)

  -- Everything on offer, in the order of the search; `none` if reading it raises.
  unfoldable pub offers : List (String × Option Object) → List String → Option (List Offer)
  unfolding attribute_offers
  offers bulk [] = some []
  offers bulk (e ∷ es) = both (entity_offers e (object_of e bulk)) (offers bulk es)

-- An offer that beats all before it, and that none after it beats.
pub record Leads (os : List Offer) (es : List Entry) (score : Option ℕ)
    (entity attr : Option String) (points : ℕ) : Type 0 where
  pub best : Offer
  pub before : List Offer
  pub after : List Offer
  pub split : os ≡ before ++ best ∷ after
  pub beaten : All (λ o. o.score < best.score) before
  pub not_beaten : All (λ o. o.score ≤ best.score) after
  pub entries_eq : es ≡ best.entries
  pub score_eq : score ≡ some best.score
  pub entity_eq : entity ≡ some best.entity
  pub attribute_eq : attr ≡ some best.attribute
  pub points_eq : points ≡ best.points

abbrev pub Chosen : List Offer → List Entry → Option ℕ → Option String → Option String → ℕ → Type 0
Chosen os es score entity attr points =
    ((os ≡ []) × (es ≡ []) × (score ≡ none) × (entity ≡ none) × (attr ≡ none) × (points ≡ 0))
    ⊎ Leads os es score entity attr points

abbrev pub Picked : List Offer → Search → Type 0
Picked os s =
    Chosen os s.best_entries s.best_score s.selected_entity s.selected_attribute s.valid_points

abbrev pub Follows : List Offer → Option (List Offer) → Option Search → Type 0
Follows os none none = Unit
Follows os (some more) (some s) = Picked (os ++ more) s
Follows os _ _ = ⊥

All-snoc :
    {A : Type 0} (P : A → Type 0) (xs : List A) (x : A) → All P xs → P x → All P (xs ++ x ∷ [])
All-snoc P [] x h k = (k, tt)
All-snoc P (y ∷ xs) x h k = (h.0, All-snoc P xs x h.1 k)

-- The offers so far all fall behind one that beats the best of them.
overtaken :
    (before after : List Offer) (b : Offer) (n : ℕ)
    → b.score < n
    → All (λ o. o.score < b.score) before
    → All (λ o. o.score ≤ b.score) after
    → All (λ o. o.score < n) (before ++ b ∷ after)
overtaken [] [] b n lt hb ha = (lt, tt)
overtaken [] (a ∷ after) b n lt hb ha =
    (lt, (omega (arith, ha.0), (overtaken [] after b n lt tt ha.1).1))
overtaken (c ∷ before) after b n lt hb ha =
    (omega (arith, hb.0), overtaken before after b n lt hb.1 ha)

module _ (r : Readers) (w : Wanted) (entity attr : String) (es : List Entry) (points : ℕ)
    (os : List Offer) (s : Search) where
  abbrev new : Offer
  new = record {
    entity = entity;
    attribute = attr;
    entries = es;
    points = points;
    score = rank w entity attr + points;
  }

  won-Leads :
      All (λ o. o.score < new.score) os → Picked (os ++ new ∷ []) (won r w entity attr es points s)
  won-Leads h = inr (record {
    best = new;
    before = os;
    after = [];
    split = refl;
    beaten = h;
    not_beaten = tt;
    entries_eq = refl;
    score_eq = refl;
    entity_eq = refl;
    attribute_eq = refl;
    points_eq = refl;
  })

  challenge :
      (score : Option ℕ)
      → s.best_score ≡ score
      → Picked os s
      → Picked (os ++ new ∷ []) (
          if beats new.score score
          then won r w entity attr es points s
          else tried r w entity attr es points s)
  challenge score hs (inl (none_yet, _, no_score, _, _, _)) =
      rw (sym hs, no_score) (won-Leads (rw none_yet tt))
  challenge score hs (inr l) =
      rw (sym hs, l.score_eq)
        (elim (Bool-cases (ltb l.best.score new.score)) [
          | inl more ↦ rw more (
              won-Leads (
                rw l.split (
                  overtaken l.before l.after l.best new.score (ground arith) l.beaten
                    l.not_beaten)))
          | inr less ↦ rw less (
              inr (record {
                best = l.best;
                before = l.before;
                after = l.after ++ new ∷ [];
                split =
                    ap (λ t. t ++ new ∷ []) l.split
                    ∙ append_assoc l.before (l.best ∷ l.after) (new ∷ []);
                beaten = l.beaten;
                not_beaten =
                    All-snoc (λ o. o.score ≤ l.best.score) l.after new l.not_beaten (ground arith);
                entries_eq = l.entries_eq;
                score_eq = refl;
                entity_eq = l.entity_eq;
                attribute_eq = l.attribute_eq;
                points_eq = l.points_eq;
              }))
        ])

  consider-Picked :
      Picked os s
      → Picked (os ++ offer_of r w entity attr es points) (consider r w entity attr es points s)
  unfolding consider
  consider-Picked h = elim (Bool-cases (points == 0)) [
    | inl nothing ↦ rw (nothing, append-nil os) h
    | inr some_points ↦ rw some_points (challenge s.best_score refl h)
  ]

module _ (r : Readers) (w : Wanted) where
  counted-Follows :
      (entity attr : String) (es : List Entry) (n : Option ℕ) (os : List Offer) (s : Search)
      → Picked os s
      → Follows os (counted_offer r w entity attr es n) (counted r w entity attr es n s)
  counted-Follows entity attr es none os s h = tt
  counted-Follows entity attr es (some points) os s h =
      consider-Picked r w entity attr es points os s h

  attribute-Follows :
      (entity attr : String) (a : Attribute) (os : List Offer) (s : Search)
      → Picked os s
      → Follows os (attribute_offer r w entity attr a) (try_attribute r w entity attr a s)
  attribute-Follows entity attr (entries (e ∷ es)) os s h =
      counted-Follows entity attr (e ∷ es) (count_valid r w (e ∷ es)) os s h
  attribute-Follows entity attr (entries []) os s h = rw (append-nil os) h
  attribute-Follows entity attr not_a_list os s h = rw (append-nil os) h

  -- One part of a loop after another.
  both-Follows :
      (os : List Offer) (o rest : Option (List Offer)) (t : Option Search)
      (f : Search → Option Search)
      → Follows os o t
      → ((os' : List Offer) (s' : Search) → Picked os' s' → Follows os' rest (f s'))
      → Follows os (both o rest) (and_then r w t f)
  both-Follows os none rest none f h k = tt
  both-Follows os none rest (some s) f h k = absurd h
  both-Follows os (some a) rest none f h k = absurd h
  both-Follows os (some a) rest (some s) f h k = joined rest (f s) (k (os ++ a) s h)
    where
      joined :
          (rest' : Option (List Offer)) (t' : Option Search)
          → Follows (os ++ a) rest' t'
          → Follows os (both (some a) rest') t'
      joined none none h' = tt
      joined none (some s') h' = absurd h'
      joined (some b) none h' = absurd h'
      joined (some b) (some s') h' = rw (sym (append_assoc os a b)) h'

  attributes-Follows :
      (entity : String) (attrs : List (String × Attribute)) (ks : List String) (os : List Offer)
      (s : Search)
      → Picked os s
      → Follows os (attribute_offers r w entity attrs ks) (try_attributes r w entity attrs ks s)
  unfolding attribute_offers try_attributes
  attributes-Follows entity attrs [] os s h = rw (append-nil os) h
  attributes-Follows entity attrs (k ∷ ks) os s h =
      both-Follows os (attribute_offer r w entity k (attribute_of k attrs))
        (attribute_offers r w entity attrs ks) (try_attribute r w entity k (attribute_of k attrs) s)
        (try_attributes r w entity attrs ks)
        (attribute-Follows entity k (attribute_of k attrs) os s h)
        (attributes-Follows entity attrs ks)

  entity-Follows :
      (entity : String) (o : Option Object) (os : List Offer) (s : Search)
      → Picked os s
      → Follows os (entity_offers r w entity o) (try_entity r w entity o s)
  entity-Follows entity none os s h = rw (append-nil os) h
  entity-Follows entity (some o) os s h =
      elim (Bool-cases (
        listed (r.lower o.state) unavailable_states
        && not (has_forecast_attribute o.attributes (forecast_attr_candidates w.preferred_attr)))) [
          | inl away ↦ rw (away, append-nil os) h
          | inr there ↦ rw there (
              attributes-Follows entity o.attributes (forecast_attr_candidates w.preferred_attr) os
                s h)
        ]

  entities-Follows :
      (bulk : List (String × Option Object)) (es : List String) (os : List Offer) (s : Search)
      → Picked os s
      → Follows os (offers r w bulk es) (try_entities r w bulk es s)
  unfolding offers try_entities
  entities-Follows bulk [] os s h = rw (append-nil os) h
  entities-Follows bulk (e ∷ es) os s h =
      both-Follows os (entity_offers r w e (object_of e bulk)) (offers r w bulk es)
        (try_entity r w e (object_of e bulk) s) (try_entities r w bulk es)
        (entity-Follows e (object_of e bulk) os s h) (entities-Follows bulk es)

-- The answer to everything on offer: nothing if nothing is on offer, else the first of the best.
abbrev pub Answers : Option (List Offer) → Option (List Entry × Diagnostics) → Type 0
Answers none none = Unit
Answers (some os) (some (es, d)) =
    (es ≡ d.search.best_entries)
    × Chosen os es d.search.best_score d.search.selected_entity d.search.selected_attribute
        d.search.valid_points
Answers _ _ = ⊥

reported-Answers :
    (r : Readers) (w : Wanted) (o : Option (List Offer)) (t : Option Search)
    → Follows [] o t
    → Answers o (reported r w t)
reported-Answers r w none none h = tt
reported-Answers r w none (some s) h = absurd h
reported-Answers r w (some os) none h = absurd h
reported-Answers r w (some os) (some s) h = (refl, h)

-- The extraction raises exactly if reading what is on offer raises. Otherwise it returns nothing if
-- nothing is on offer, and else the entries of an offer that scores more than every offer before it
-- and at least as much as every later one; the diagnostics name that offer.
pub extract_forecast_entries-Answers :
    (r : Readers) (w : Wanted) (bulk : List (String × Option Object))
    → Answers
        (offers r w bulk (forecast_entity_candidates w.primary_entity w.explicit_entity))
        (extract_forecast_entries r w bulk)
unfolding extract_forecast_entries
extract_forecast_entries-Answers r w bulk = reported-Answers r w _ _ (
    entities-Follows r w bulk (forecast_entity_candidates w.primary_entity w.explicit_entity) []
      empty_search (inl (refl, refl, refl, refl, refl, refl)))
