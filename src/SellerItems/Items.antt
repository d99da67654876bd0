-- ===== src/SellerItems/Items.antt =====
-- src/modules/seller-items/seller-items.routes.ts: one page of a seller's items in a tab, and the
-- numbers on the tabs. The text comparison of the database and the text of a cursor are parameters.
use bidvault_backend.Common.{
  ℕ, [], ◌∷◌, Table, List, Bool, Option, map, or_else, ◌==◌, some, count, false, true,
  if◌then◌else◌, is_none, none, ◌&&◌, ◌||◌, ltb, length, suc, keep, trim, ◌++◌, zero,
}
use bidvault_backend.SellerItems.{SellerItemTab, ItemRow, AuctionFacts}
use bidvault_backend.Pagination.{
  Cursor, CursorText, slice_page, ParsedNumber, parse_limit, decode_cursor, beyond, last, take,
}
use bidvault_backend.Search.{Like, escape_like}
use bidvault_backend.SellerItems.Filters.{tab_where}

pub data OrderKey : Type 0 where
  auction_end submitted : OrderKey

pub record TabOrder : Type 0 where
  pub key : OrderKey
  pub ascending : Bool

-- TAB_ORDER
abbrev pub tab_order : SellerItemTab → TabOrder
tab_order SellerItemTab.action = record { key = auction_end; ascending = true }
tab_order SellerItemTab.live = record { key = auction_end; ascending = true }
tab_order SellerItemTab.sold = record { key = auction_end; ascending = false }
tab_order SellerItemTab.unsold = record { key = auction_end; ascending = false }
tab_order SellerItemTab.review = record { key = submitted; ascending = false }
tab_order SellerItemTab.closed = record { key = submitted; ascending = false }

abbrev pub end_of : Option AuctionFacts → Option ℕ
end_of none = none
end_of (some a) = some a.end_time

-- `sortValue`; `none` where it throws.
unfoldable pub sort_value : TabOrder → ItemRow → Option ℕ
sort_value order row = elim order.key [
  | submitted ↦ some row.submitted_at
  | auction_end ↦ end_of row.auction
]

-- A column of an `orderBy` and its direction.
pub data SortColumn : Type 0 where
  auction_end_time submitted_at id : SortColumn

pub record OrderBy : Type 0 where
  pub column : SortColumn
  pub ascending : Bool

abbrev pub order_by_key : TabOrder → List OrderBy
order_by_key order = elim order.key [
  | auction_end ↦
      record { column = SortColumn.auction_end_time; ascending = order.ascending }
      ∷ record { column = SortColumn.id; ascending = order.ascending }
      ∷ []
  | submitted ↦
      record { column = SortColumn.submitted_at; ascending = order.ascending }
      ∷ record { column = SortColumn.id; ascending = order.ascending }
      ∷ []
]

-- `itemsOrderBy`
unfoldable pub items_order_by : SellerItemTab → List OrderBy
items_order_by tab = order_by_key (tab_order tab)

-- `cursorWhere`; a listing without an auction does not match a filter on its auction.
abbrev pub cursor_where : TabOrder → Cursor → ℕ × ItemRow → Bool
cursor_where order c (i, row) = elim order.key [
  | auction_end ↦ elim row.auction [
    | none ↦ false
    | some a ↦
        beyond order.ascending a.end_time c.sort_value
        || (a.end_time == c.sort_value && beyond order.ascending i c.id)
  ]
  | submitted ↦
      beyond order.ascending row.submitted_at c.sort_value
      || (row.submitted_at == c.sort_value && beyond order.ascending i c.id)
]

abbrev pub search_where : Like → List ℕ → ItemRow → Bool
search_where like [] row = true
search_where like (c ∷ search) row =
    like.contains (escape_like (c ∷ search)) row.title
    || like.contains (escape_like (c ∷ search)) row.listing_code

abbrev pub past : TabOrder → Option Cursor → ℕ × ItemRow → Bool
past order none r = true
past order (some c) r = cursor_where order c r

unfoldable pub items_where : Like → ℕ → SellerItemTab → List ℕ → Option Cursor → ℕ × ItemRow → Bool
items_where like seller_id tab search cursor (i, row) =
    row.seller_id == seller_id
    && tab_where tab row
    && search_where like search row
    && past (tab_order tab) cursor (i, row)

-- Whether `sortValue` throws on the last row of a page.
abbrev pub sort_throws : TabOrder → Option (ℕ × ItemRow) → Bool
sort_throws order none = false
sort_throws order (some r) = is_none (sort_value order (r.1))

pub data ItemsAnswer : Type 0 where
  search_too_long sort_error : ItemsAnswer
  items : (page : Table ItemRow) → (next_cursor : Option (List ℕ)) → ItemsAnswer

-- SELLER_ITEMS_SEARCH_MAX
abbrev pub search_max : ℕ
search_max = 100

-- The sort value of a row for which it does not throw.
abbrev pub sorted_by : TabOrder → ItemRow → ℕ
sorted_by order row = or_else (sort_value order row) 0

-- `slicePage` over the rows found, where `sortValue` is read of the page's last row if there is more.
unfoldable pub items_slice : TabOrder → CursorText → Table ItemRow → ℕ → ItemsAnswer
items_slice order text rows limit =
    let (page, next_cursor) = slice_page (sorted_by order) text rows limit in
    if ltb limit (length rows) && sort_throws order (last page)
    then sort_error
    else items page next_cursor

-- GET /. `rows` is the Listing table, which `ordered_by` gives in the order of an `orderBy`.
unfoldable pub items_page :
    Like
    → (List OrderBy → Table ItemRow → Table ItemRow)
    → CursorText
    → ParsedNumber
    → Option (List ℕ)
    → Option SellerItemTab
    → List ℕ
    → ℕ
    → Table ItemRow
    → ItemsAnswer
unfolding items_order_by
items_page like ordered_by text raw_limit raw_cursor raw_tab raw_search seller_id rows =
    let limit = parse_limit raw_limit in
    let tab = or_else raw_tab SellerItemTab.action in
    let order = tab_order tab in
    let cursor = decode_cursor (sorted_by order) text raw_cursor in
    if ltb search_max (length raw_search)
    then search_too_long
    else items_slice order text
        (take (suc limit) (
          keep (items_where like seller_id tab (trim raw_search) cursor)
            (ordered_by (items_order_by tab) rows)))
        limit

-- SELLER_ITEM_TABS
abbrev pub seller_item_tabs : List SellerItemTab
seller_item_tabs =
    SellerItemTab.action ∷ SellerItemTab.review ∷ SellerItemTab.live ∷ SellerItemTab.sold
    ∷ SellerItemTab.unsold ∷ SellerItemTab.closed ∷ []

abbrev pub tab_count : ℕ → Table ItemRow → SellerItemTab → ℕ
tab_count seller_id rows tab = count (λ r. (r.1).seller_id == seller_id && tab_where tab (r.1)) rows

-- GET /summary
unfoldable pub items_summary : ℕ → Table ItemRow → List (SellerItemTab × ℕ)
items_summary seller_id rows = map (λ tab. (tab, tab_count seller_id rows tab)) seller_item_tabs

-- What a client has of a page and of the pages after it.
abbrev pub with_rest : ItemsAnswer → (List ℕ → Option (Table ItemRow)) → Option (Table ItemRow)
with_rest search_too_long later = none
with_rest sort_error later = none
with_rest (items page none) later = some page
with_rest (items page (some c)) later = elim (later c) [
  | none ↦ none
  | some more ↦ some (page ++ more)
]

-- A client that follows the cursors of one tab, for at most `fuel` pages.
unfoldable pub follow_items :
    Like
    → (List OrderBy → Table ItemRow → Table ItemRow)
    → CursorText
    → ParsedNumber
    → Option SellerItemTab
    → List ℕ
    → ℕ
    → ℕ
    → Option (List ℕ)
    → Table ItemRow
    → Option (Table ItemRow)
follow_items like ordered_by text raw_limit raw_tab raw_search seller_id zero raw_cursor rows = none
follow_items like ordered_by text raw_limit raw_tab raw_search seller_id (suc fuel) raw_cursor
      rows =
    with_rest
      (items_page like ordered_by text raw_limit raw_cursor raw_tab raw_search seller_id rows)
      (λ c.
        follow_items like ordered_by text raw_limit raw_tab raw_search seller_id fuel (some c) rows)
