-- ===== src/SellerItems/Counts.antt =====
-- The numbers on the six tabs.
use bidvault_backend.Common.{
  ℕ, [], ◌∷◌, Table, List, Bool, true, if◌then◌else◌, ◌+◌, ◌≡◌, ◌↔◌, ◌==◌, refl, count, false,
  arith,
}
use bidvault_backend.SellerItems.{ItemRow, SellerItemTab, stage_tab, derive_stage, facts_of}
use bidvault_backend.SellerItems.Items.{items_summary, tab_count}
use bidvault_backend.SellerItems.Filters.{tab_where, tab_where_iff}

-- The tab of a row, as the number of times that the filter of a tab matches.
abbrev is_tab : SellerItemTab → SellerItemTab → Bool
is_tab SellerItemTab.action SellerItemTab.action = true
is_tab SellerItemTab.review SellerItemTab.review = true
is_tab SellerItemTab.live SellerItemTab.live = true
is_tab SellerItemTab.sold SellerItemTab.sold = true
is_tab SellerItemTab.unsold SellerItemTab.unsold = true
is_tab SellerItemTab.closed SellerItemTab.closed = true
is_tab _ _ = false

is_tab_iff : (s t : SellerItemTab) → (is_tab s t ≡ true) ↔ (s ≡ t)
is_tab_iff SellerItemTab.action t = ground arith
is_tab_iff s t = ground arith

tab_where_is :
    (tab : SellerItemTab) (row : ItemRow)
    → tab_where tab row ≡ is_tab (stage_tab (derive_stage (facts_of row false))) tab
tab_where_is tab row = ground (
  arith,
  tab_where_iff tab row false,
  is_tab_iff (stage_tab (derive_stage (facts_of row false))) tab,
)

abbrev one_if : Bool → ℕ
one_if b = if b then 1 else 0

one_tab :
    (tab : SellerItemTab)
    → one_if (is_tab tab SellerItemTab.action)
        + one_if (is_tab tab SellerItemTab.review)
        + one_if (is_tab tab SellerItemTab.live)
        + one_if (is_tab tab SellerItemTab.sold)
        + one_if (is_tab tab SellerItemTab.unsold)
        + one_if (is_tab tab SellerItemTab.closed)
      ≡ 1
one_tab SellerItemTab.action = refl
one_tab _ = refl

-- The sum of the numbers of a summary.
abbrev pub counts_total : List (SellerItemTab × ℕ) → ℕ
counts_total [] = 0
counts_total ((tab, n) ∷ counts) = n + counts_total counts

tab_count-step :
    (seller_id i : ℕ) (row : ItemRow) (rows : Table ItemRow) (tab : SellerItemTab)
    → tab_count seller_id ((i, row) ∷ rows) tab
      ≡ (if row.seller_id == seller_id
          then one_if (is_tab (stage_tab (derive_stage (facts_of row false))) tab)
          else 0)
        + tab_count seller_id rows tab
tab_count-step seller_id i row rows tab = ground (arith, tab_where_is tab row)

-- One listing is counted in one tab if it is the seller's, and in none otherwise.
one_listing :
    (mine : Bool) (tab : SellerItemTab)
    → (if mine then one_if (is_tab tab SellerItemTab.action) else 0)
        + (if mine then one_if (is_tab tab SellerItemTab.review) else 0)
        + (if mine then one_if (is_tab tab SellerItemTab.live) else 0)
        + (if mine then one_if (is_tab tab SellerItemTab.sold) else 0)
        + (if mine then one_if (is_tab tab SellerItemTab.unsold) else 0)
        + (if mine then one_if (is_tab tab SellerItemTab.closed) else 0)
      ≡ one_if mine
one_listing true tab = one_tab tab
one_listing false tab = refl

tabs_total :
    (seller_id : ℕ) (rows : Table ItemRow)
    → tab_count seller_id rows SellerItemTab.action
        + tab_count seller_id rows SellerItemTab.review
        + tab_count seller_id rows SellerItemTab.live
        + tab_count seller_id rows SellerItemTab.sold
        + tab_count seller_id rows SellerItemTab.unsold
        + tab_count seller_id rows SellerItemTab.closed
      ≡ count (λ r. (r.1).seller_id == seller_id) rows
tabs_total seller_id [] = refl
tabs_total seller_id ((i, row) ∷ rows) =
    rw
      (
        tab_count-step seller_id i row rows SellerItemTab.action,
        tab_count-step seller_id i row rows SellerItemTab.review,
        tab_count-step seller_id i row rows SellerItemTab.live,
        tab_count-step seller_id i row rows SellerItemTab.sold,
        tab_count-step seller_id i row rows SellerItemTab.unsold,
        tab_count-step seller_id i row rows SellerItemTab.closed,
      )
      (omega (
        arith,
        one_listing (row.seller_id == seller_id) (stage_tab (derive_stage (facts_of row false))),
        tabs_total seller_id rows,
      ))

-- The numbers on the six tabs add up to the number of the seller's listings: each listing stands in
-- one tab, and in no other.
pub summary_total :
    (seller_id : ℕ) (rows : Table ItemRow)
    → counts_total (items_summary seller_id rows) ≡ count (λ r. (r.1).seller_id == seller_id) rows
unfolding items_summary
summary_total seller_id rows = omega (arith, tabs_total seller_id rows)
