-- ===== src/Analytics/Apportioned.antt =====
-- The shares add up to exactly one hundred.
use bidvault_backend.Common.{
  ℕ, [], ◌∷◌, Table, ◌≡◌, ◌≤◌, Bool, All, false, true, arith, length, ◌==◌, ◌+◌, ◌||◌, suc, All-map,
  ◌∙◌, zero, refl, List, ◌<◌, ap, Bool-cases, inl, ◌*◌, inr, ltb, if◌then◌else◌, ◌-◌,
}
use bidvault_backend.Analytics.{
  CategoryShare, bump, total_pct, hand_out, Shares, AreShares, insert_by, by_remainder,
  CategoryGroup, floored, total_count, category_breakdown,
}

-- Whether a place is among these rows.
abbrev has_place : ℕ → Table CategoryShare → Bool
has_place k [] = false
has_place k ((j, share) ∷ rows) = j == k || has_place k rows

bump-total :
    (k : ℕ) (rows : Table CategoryShare)
    → has_place k rows ≡ true
    → total_pct (bump k rows) ≡ total_pct rows + 1
bump-total k [] h = absurd (ground arith)
bump-total k ((j, share) ∷ rows) h = ground (arith, bump-total k rows)

bump-has_place :
    (j k : ℕ) (rows : Table CategoryShare) → has_place j (bump k rows) ≡ has_place j rows
bump-has_place j k [] = refl
bump-has_place j k ((i, share) ∷ rows) = ground (arith, bump-has_place j k rows)

abbrev AllPlaced : Table CategoryShare → Table CategoryShare → Type 0
AllPlaced order rows = All (λ x. has_place (x.0) rows ≡ true) order

hand_out-total :
    (order : Table CategoryShare) (leftover : ℕ) (rows : Table CategoryShare)
    → AllPlaced order rows
    → leftover ≤ length order
    → total_pct (hand_out order leftover rows) ≡ total_pct rows + leftover
hand_out-total [] leftover rows placed enough = omega arith
hand_out-total (x ∷ order) zero rows placed enough = omega arith
hand_out-total (x ∷ order) (suc leftover) rows placed enough = omega (
  arith,
  hand_out-total order leftover (bump (x.0) rows)
      (All-map (λ y p. bump-has_place (y.0) (x.0) rows ∙ p) order placed.1),
  bump-total (x.0) rows placed.0,
)

module _ (shares : Shares) where
  length-insert_by :
      (total : ℕ) (x : ℕ × CategoryShare) (ys : Table CategoryShare)
      → length (insert_by shares total x ys) ≡ suc (length ys)
  length-insert_by total x [] = refl
  length-insert_by total x (y ∷ ys) = ground (arith, length-insert_by total x ys)

  length-by_remainder :
      (total : ℕ) (xs : Table CategoryShare) → length (by_remainder shares total xs) ≡ length xs
  length-by_remainder total [] = refl
  length-by_remainder total (x ∷ xs) =
      length-insert_by total x (by_remainder shares total xs)
      ∙ ap suc (length-by_remainder total xs)

  insert_by-placed :
      (total : ℕ) (x : ℕ × CategoryShare) (ys rows : Table CategoryShare)
      → has_place (x.0) rows ≡ true
      → AllPlaced ys rows
      → AllPlaced (insert_by shares total x ys) rows
  insert_by-placed total x [] rows h hs = (h, tt)
  insert_by-placed total x (y ∷ ys) rows h hs =
      elim (Bool-cases (shares.is_below total (x.1).count (y.1).count)) [
        | inl later ↦ rw later (hs.0, insert_by-placed total x ys rows h hs.1)
        | inr first ↦ rw first (h, hs)
      ]

  by_remainder-placed :
      (total : ℕ) (xs rows : Table CategoryShare)
      → AllPlaced xs rows
      → AllPlaced (by_remainder shares total xs) rows
  by_remainder-placed total [] rows h = tt
  by_remainder-placed total (x ∷ xs) rows h =
      insert_by-placed total x (by_remainder shares total xs) rows h.0
        (by_remainder-placed total xs rows h.1)

  placed_self : (xs : Table CategoryShare) → AllPlaced xs xs
  placed_self [] = tt
  placed_self ((k, share) ∷ xs) =
      (ground arith, All-map (λ y p. ground (arith, p)) xs (placed_self xs))

  length-floored :
      (total k : ℕ) (groups : List CategoryGroup)
      → length (floored shares total k groups) ≡ length groups
  length-floored total k [] = refl
  length-floored total k (g ∷ groups) = ap suc (length-floored total (k + 1) groups)

  module _ (lawful : AreShares shares) (total : ℕ) (some_listing : 0 < total) where
    floor_bounds :
        (count : ℕ)
        → (total * shares.floor count total ≤ count * 100)
          × (count * 100 ≤ total * shares.floor count total + total)
    floor_bounds count = ground (arith, lawful.floor_exact count total some_listing)

    floored_bounds :
        (k : ℕ) (groups : List CategoryGroup)
        → (total * total_pct (floored shares total k groups) ≤ total_count groups * 100)
          × (total_count groups * 100
              ≤ total * total_pct (floored shares total k groups) + total * length groups)
    floored_bounds k [] = grind arith
    floored_bounds k (g ∷ groups) =
        let positive : ltb 0 total ≡ true = ground arith in
        rw positive (grind (arith, floor_bounds g.count, floored_bounds (k + 1) groups))

    cancel : (a b : ℕ) → total * a ≤ total * b → a ≤ b
    cancel a b h = grind arith

    points : (rows : ℕ) → (if ltb 0 total then 100 else 0) - rows ≡ 100 - rows
    points rows = ground arith

  -- With at least one listing the percentages of the categories add up to exactly 100, whatever the
  -- floating-point fractions say of the order in which the points left over are given.
  pub breakdown_total :
      (groups : List CategoryGroup)
      → AreShares shares
      → 0 < total_count groups
      → total_pct (category_breakdown shares groups) ≡ 100
  unfolding category_breakdown
  breakdown_total groups lawful some_listing =
      let total = total_count groups in
      let rows = floored shares total 0 groups in
      let bounds = floored_bounds lawful total some_listing 0 groups in
      let below : total_pct rows ≤ 100 =
        cancel lawful total some_listing (total_pct rows) 100 (omega (arith, bounds.0)) in
      let enough : 100 ≤ total_pct rows + length groups =
        cancel lawful total some_listing 100 (total_pct rows + length groups)
          (grind (arith, bounds.1)) in
      hand_out-total (by_remainder shares total rows)
        ((if ltb 0 total then 100 else 0) - total_pct rows) rows
        (by_remainder-placed total rows rows (placed_self rows))
        (rw (points lawful total some_listing (total_pct rows))
          (omega (arith, length-by_remainder total rows, length-floored total 0 groups, enough)))
      ∙ rw (points lawful total some_listing (total_pct rows)) (omega (arith, below))
