-- ===== src/SellerItems/Orders.antt =====
-- The order that `itemsOrderBy` of src/modules/seller-items/seller-items.routes.ts asks of the database,
-- against that of the cursors.
use bidvault_backend.Common.{
  none, some, true, false, [], ◌∷◌, ◌≡◌, Option, Bool, List, Table, ℕ, ◌∷◌, is_none, false, All,
  some, ◌||◌, true, ◌&&◌, [], arith, not, ◌==◌,
}
use bidvault_backend.SellerItems.Items.{
  sort_value, TabOrder, SortColumn, OrderBy, end_of, order_by_key, sorted_by,
}
use bidvault_backend.SellerItems.{ItemRow}
use bidvault_backend.Pagination.Following.{IsOrdered}
use bidvault_backend.Pagination.{is_after, cursor_of, beyond}

abbrev pub IsSorted : TabOrder → ℕ × ItemRow → Type 0
IsSorted order r = is_none (sort_value order (r.1)) ≡ false

-- What the database reads of a row for a column; a listing without an auction has NULL there.
abbrev column_value : SortColumn → ℕ × ItemRow → Option ℕ
column_value SortColumn.auction_end_time (i, row) = end_of row.auction
column_value SortColumn.submitted_at (i, row) = some row.submitted_at
column_value SortColumn.id (i, row) = some i

-- PostgreSQL takes NULL as larger than any value.
abbrev value_before : Bool → Option ℕ → Option ℕ → Bool
value_before ascending none none = false
value_before ascending none (some b) = not ascending
value_before ascending (some a) none = ascending
value_before ascending (some a) (some b) = beyond ascending b a

abbrev value_same : Option ℕ → Option ℕ → Bool
value_same none none = true
value_same (some a) (some b) = a == b
value_same _ _ = false

-- Whether an `orderBy` puts the first row before the second.
abbrev pub precedes : List OrderBy → ℕ × ItemRow → ℕ × ItemRow → Bool
precedes [] r s = false
precedes (o ∷ order) r s =
    value_before o.ascending (column_value o.column r) (column_value o.column s)
    || (value_same (column_value o.column r) (column_value o.column s) && precedes order r s)

abbrev pub IsInOrder : List OrderBy → Table ItemRow → Type 0
IsInOrder order [] = Unit
IsInOrder order (r ∷ rows) = All (λ s. precedes order r s ≡ true) rows × IsInOrder order rows

-- The order of `itemsOrderBy` is that of the cursors, on rows that `sortValue` takes.
order_by_key-after :
    (order : TabOrder) (i j : ℕ) (row other : ItemRow)
    → is_none (sort_value order row) ≡ false
    → is_none (sort_value order other) ≡ false
    → precedes (order_by_key order) (i, row) (j, other) ≡ true
    → is_after
        (sorted_by order)
        order.ascending
        (some (cursor_of (sorted_by order) (i, row)))
        (j, other)
      ≡ true
unfolding sort_value
order_by_key-after order i j row other h k before = ground arith

order_by_key-All :
    (order : TabOrder) (r : ℕ × ItemRow) (rows : Table ItemRow)
    → IsSorted order r
    → All (IsSorted order) rows
    → All (λ s. precedes (order_by_key order) r s ≡ true) rows
    → All
        (λ s.
          is_after (sorted_by order) order.ascending (some (cursor_of (sorted_by order) r)) s
          ≡ true)
        rows
order_by_key-All order r [] h k before = tt
order_by_key-All order (i, row) ((j, other) ∷ rows) h k before = (
  order_by_key-after order i j row other h k.0 before.0,
  order_by_key-All order (i, row) rows h k.1 before.1,
)

pub order_by_key-IsOrdered :
    (order : TabOrder) (rows : Table ItemRow)
    → All (IsSorted order) rows
    → IsInOrder (order_by_key order) rows
    → IsOrdered (sorted_by order) order.ascending rows
order_by_key-IsOrdered order [] h k = tt
order_by_key-IsOrdered order (r ∷ rows) h k =
    (order_by_key-All order r rows h.0 h.1 k.0, order_by_key-IsOrdered order rows h.1 k.1)
