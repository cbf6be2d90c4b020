-- ===== src/ImportTopup/DaySummary.antt =====
-- `optimizer_import_topup_summary` of app/state_store.py: the day's import energy, the highest trusted
-- price that was paid for it, and whether that price is a floor to rely on.
pub mod Floor
use Prim.Native.Nat.{◌%◌}
use sigenergy_optimizer.Prelude.{
  ℕ, ◌+◌, ◌*◌, ◌/◌, Bool, true, false, not, ◌&&◌, ◌||◌, Option, none, some, List, [], ◌∷◌, ◌++◌,
  ltb, ◌==◌, if◌then◌else◌,
}
use sigenergy_optimizer.Prelude.Int.{ℤ, pos, pos_part, ◌+ℤ◌, ltb_ℤ}
use sigenergy_optimizer.ImportTopup.Event.{Cause, coverage_not_recorded, Event}
use sigenergy_optimizer.ImportTopup.Store.{Covered, Topup, Store, covered, clamp}

-- One row of the summary's query.
pub record Priced : Type 0 where
  pub import_kwh : ℤ
  pub import_price : Option ℤ
  pub price_trusted : Bool

unfoldable pub topup_rows : ℕ → List Topup → List Priced
topup_rows d [] = []
topup_rows d (t ∷ ts) =
    let rest = topup_rows d ts in
    if t.date == d
    then record {
      import_kwh = t.import_kwh;
      import_price = t.import_price;
      price_trusted = t.price_trusted;
    }
      ∷ rest
    else rest

unfoldable pub interval_rows : ℕ → List Event → List Priced
interval_rows d [] = []
interval_rows d (e ∷ es) =
    let rest = interval_rows d es in
    if e.date == d
    then record {
      import_kwh = e.import_kwh;
      import_price = e.import_price;
      price_trusted = e.price_trusted;
    }
      ∷ rest
    else rest

pub record Tally : Type 0 where
  pub total : ℤ
  pub highest : Option ℤ
  pub untrusted : Bool

-- 0.01 kWh
abbrev pub significant_import_kwh : ℤ
significant_import_kwh = pos 10_000

unfoldable pub higher : Option ℤ → ℤ → Option ℤ
higher none p = some p
higher (some h) p = if ltb_ℤ h p then some p else some h

abbrev priced : Option ℤ → Tally → Tally
priced none t = record t { untrusted = true }
priced (some p) t = record t { highest = higher t.highest p }

-- One round of the summary's loop.
unfoldable pub count_row : Tally → Priced → Tally
count_row t r =
    let kwh = clamp r.import_kwh in
    let t' = record t { total = t.total +ℤ kwh } in
    if ltb_ℤ kwh significant_import_kwh
    then t'
    else if r.price_trusted
    then priced r.import_price t'
    else record t' { untrusted = true }

unfoldable pub tally : Tally → List Priced → Tally
tally t [] = t
tally t (r ∷ rs) = tally (count_row t r) rs

-- `round(x, 3)` of a nonnegative number of millionths: to a multiple of 1000, halves to even.
unfoldable pub round3 : ℤ → ℤ
round3 k =
    let n = pos_part k in
    let q = n / 1000 in
    let r = n % 1000 in
    if ltb r 500
    then pos (q * 1000)
    else if r == 500 && q % 2 == 0
    then pos (q * 1000)
    else pos ((q + 1) * 1000)

pub record Summary : Type 0 where
  pub date : ℕ
  pub today_import_topup_kwh : ℤ
  pub today_highest_actual_import_price : Option ℤ
  pub import_cost_export_floor : Option ℤ
  pub import_cost_floor_trusted : Bool
  pub import_cost_floor_unknown : Bool
  pub import_history_complete : Bool
  pub import_history_reason : Cause

abbrev is_unknown : Option Covered → Bool
is_unknown none = false
is_unknown (some c) = c.unknown

abbrev is_proven : Option Covered → Bool
is_proven none = false
is_proven (some c) = not c.unknown

abbrev reason_of : Option Covered → Cause
reason_of none = coverage_not_recorded
reason_of (some c) = c.reason

abbrev pub start : Tally
start = record { total = pos 0; highest = none; untrusted = false }

abbrev pub rows : Store → ℕ → List Priced
rows s d = topup_rows d s.topups ++ interval_rows d s.intervals

-- `optimizer_import_topup_summary`
unfoldable pub summary : Store → ℕ → Summary
summary s d =
    let t = tally start (rows s d) in
    let c = covered d s.coverage in
    record {
      date = d;
      today_import_topup_kwh = round3 t.total;
      today_highest_actual_import_price = t.highest;
      import_cost_export_floor = t.highest;
      import_cost_floor_trusted = not (t.untrusted || is_unknown c);
      import_cost_floor_unknown = t.untrusted || is_unknown c;
      import_history_complete = is_proven c;
      import_history_reason = reason_of c;
    }
