-- ===== src/SellerItems/Pages.antt =====
-- The pages of a tab.
use bidvault_backend.Common.{ℕ, List, Option, Bool, Table, none, keep, or_else, trim}
use bidvault_backend.Search.{Like}
use bidvault_backend.SellerItems.Items.{
  TabOrder, items_where, tab_order, ItemsAnswer, OrderBy, items_order_by,
}
use bidvault_backend.SellerItems.{SellerItemTab, ItemRow}
use bidvault_backend.Pagination.{CursorText, ParsedNumber}

module _ (like : Like) (seller_id : ℕ) (tab : SellerItemTab) (search : List ℕ) where
  -- The items of the tab that the search finds.
  abbrev pub listed : ℕ × ItemRow → Bool
  listed = items_where like seller_id tab search none

abbrev answer_of : Table ItemRow × Option (List ℕ) → ItemsAnswer
answer_of r = ItemsAnswer.items (r.0) (r.1)

module _ (like : Like) (seller_id : ℕ) (tab : SellerItemTab) (search : List ℕ) where
  module _ (text : CursorText) (raw_limit : ParsedNumber) (rows : Table ItemRow) where
    abbrev order : TabOrder
    order = tab_order tab

module _ (like : Like) (ordered_by : List OrderBy → Table ItemRow → Table ItemRow)
    (text : CursorText) (raw_limit : ParsedNumber) (raw_tab : Option SellerItemTab)
    (raw_search : List ℕ) (seller_id : ℕ) (rows : Table ItemRow) where
  -- The tab that the route reads, and the seller's items that it lists in all, in its order.
  abbrev pub tab_read : SellerItemTab
  tab_read = or_else raw_tab SellerItemTab.action

  abbrev pub order_read : TabOrder
  order_read = tab_order tab_read

  abbrev pub found : Table ItemRow
  found = ordered_by (items_order_by tab_read) rows

  abbrev pub all_listed : Table ItemRow
  all_listed = keep (listed like seller_id tab_read (trim raw_search)) found
