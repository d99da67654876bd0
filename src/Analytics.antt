-- ===== src/Analytics.antt =====
-- GET /analytics of src/modules/admin/admin.routes.ts: the shares of the categories, apportioned by
-- the largest remainder. `groups` are the categories with their numbers of listings. The arithmetic of
-- `(count / total) * 100` is that of floating-point numbers, a parameter.
pub mod Apportioned
use bidvault_backend.Common.{
  ℕ, [], ◌∷◌, Table, ◌<◌, String, Bool, suc, List, zero, if◌then◌else◌, ◌+◌, ◌*◌, ◌==◌, ltb, ◌≤◌,
  ◌/◌, ◌-◌, ◌⊎◌, ◌≡◌,
}

-- `Math.floor(exact)`, and whether the fractional part of the first number's share is below that of
-- the second's.
pub record Shares : Type 0 where
  pub floor : (count total : ℕ) → ℕ
  pub is_below : (total a b : ℕ) → Bool

-- A rounding error can change the floor only where the exact share is a whole number.
pub record AreShares (shares : Shares) : Type 0 where
  pub floor_exact :
      (count total : ℕ)
      → 0 < total
      → (total * shares.floor count total ≤ count * 100)
          × (count * 100 < total * shares.floor count total + total)
        ⊎ (total * shares.floor count total + total ≡ count * 100)

pub record CategoryGroup : Type 0 where
  pub category : String
  pub count : ℕ

pub record CategoryShare : Type 0 where
  pub name : String
  pub count : ℕ
  pub pct : ℕ

-- `categoryGroups.reduce((s, g) => s + g._count.id, 0)`
abbrev pub total_count : List CategoryGroup → ℕ
total_count [] = 0
total_count (g ∷ groups) = g.count + total_count groups

abbrev pub total_pct : Table CategoryShare → ℕ
total_pct [] = 0
total_pct ((k, share) ∷ shares) = share.pct + total_pct shares

-- `row.pct += 1` on a shared object.
abbrev pub bump : ℕ → Table CategoryShare → Table CategoryShare
bump k [] = []
bump k ((j, share) ∷ rows) =
    if j == k then (j, record share { pct = share.pct + 1 }) ∷ rows else (j, share) ∷ bump k rows

-- The loop over `byRemainder`, while there are points left.
abbrev pub hand_out : Table CategoryShare → ℕ → Table CategoryShare → Table CategoryShare
hand_out [] leftover rows = rows
hand_out (x ∷ xs) zero rows = rows
hand_out (x ∷ xs) (suc leftover) rows = hand_out xs leftover (bump (x.0) rows)

module _ (shares : Shares) where
  -- The objects of `floored`, each by its place.
  abbrev pub floored : ℕ → ℕ → List CategoryGroup → Table CategoryShare
  floored total k [] = []
  floored total k (g ∷ groups) =
      (
        k,
        record {
          name = g.category;
          count = g.count;
          pct = if ltb 0 total then shares.floor g.count total else 0;
        },
      )
      ∷ floored total (k + 1) groups

  -- `sort`, stable, by the comparison of the fractional parts, the largest first.
  abbrev pub insert_by : ℕ → ℕ × CategoryShare → Table CategoryShare → Table CategoryShare
  insert_by total x [] = x ∷ []
  insert_by total x (y ∷ ys) =
      if shares.is_below total (x.1).count (y.1).count then y ∷ insert_by total x ys else x ∷ y ∷ ys

  abbrev pub by_remainder : ℕ → Table CategoryShare → Table CategoryShare
  by_remainder total [] = []
  by_remainder total (x ∷ xs) = insert_by total x (by_remainder total xs)

  unfoldable pub category_breakdown : List CategoryGroup → Table CategoryShare
  category_breakdown groups =
      let total = total_count groups in
      let rows = floored total 0 groups in
      let leftover = (if ltb 0 total then 100 else 0) - total_pct rows in
      hand_out (by_remainder total rows) leftover rows

-- `Math.round((listingsApproved / listingsTotal) * 100)`
unfoldable pub seller_conversion_rate : ℕ → ℕ → ℕ
seller_conversion_rate approved zero = 0
seller_conversion_rate approved (suc n) = (approved * 200 + suc n) / (2 * suc n)
