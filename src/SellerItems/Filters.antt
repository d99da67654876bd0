-- ===== src/SellerItems/Filters.antt =====
-- STAGE_WHERE and `tabWhere` of src/modules/seller-items/seller-item-stage.ts, fragment by fragment:
-- the filter of a stage matches exactly the rows of that stage, and that of a tab those of the tab.
use bidvault_backend.Common.{
  ℕ, [], ◌∷◌, List, Option, is_none, Bool, ◌&&◌, true, not, false, ◌≡◌, ◌==◌, some, ◌↔◌, none,
  arith, ◌||◌, ltb, leb, map, keep,
}
use bidvault_backend.SellerItems.{
  ItemRow, SaleFacts, derive_stage, AuctionFacts, SellerItemStage, sale_in, facts_of, has_response,
  stage_tab, SellerItemTab,
}
use bidvault_backend.Store.{
  AuctionStatus, ListingStatus, TransactionStatus, is_listing_approved, is_listing_removed,
  is_auction_active, is_auction_closed, is_listing_rejected,
}
use bidvault_backend.Closing.{is_below}

abbrev pub ListingWhere : Type 0
ListingWhere = ItemRow → Bool

-- Numbers for the statuses, to compare them by.
abbrev txn_code : TransactionStatus → ℕ
txn_code TransactionStatus.pending = 0
txn_code TransactionStatus.completed = 1
txn_code TransactionStatus.failed = 2
txn_code TransactionStatus.voided = 3
txn_code TransactionStatus.shipped = 4
txn_code TransactionStatus.delivered = 5
txn_code TransactionStatus.disputed = 6
txn_code TransactionStatus.refunded = 7

abbrev txn_in : List TransactionStatus → TransactionStatus → Bool
txn_in [] s = false
txn_in (t ∷ ts) s = txn_code t == txn_code s || txn_in ts s

-- `sale(statuses, extra)`, `noSale` and the two halves of `relisted`
abbrev sale : List TransactionStatus → (SaleFacts → Bool) → ListingWhere
sale statuses extra row = elim (sale_in row.auction) [
  | none ↦ false
  | some s ↦ txn_in statuses s.status && extra s
]

abbrev any_sale : SaleFacts → Bool
any_sale s = true

abbrev no_sale : ListingWhere
no_sale row = is_none (sale_in row.auction)

abbrev dispute_answered : SaleFacts → Bool
dispute_answered s = has_response (some s)

abbrev not_answered : SaleFacts → Bool
not_answered s = not (dispute_answered s)

abbrev approved_with_auction : (AuctionFacts → Bool) → ListingWhere
approved_with_auction auction row =
    is_listing_approved row.status && (elim row.auction [ none ↦ false | some a ↦ auction a ])

abbrev is_auction_cancelled : AuctionStatus → Bool
is_auction_cancelled AuctionStatus.cancelled = true
is_auction_cancelled _ = false

abbrev is_waiting : ListingStatus → Bool
is_waiting ListingStatus.pending = true
is_waiting ListingStatus.draft = true
is_waiting _ = false

-- `{ reserveMet: null }` and `{ reserveMet: true }`
abbrev is_null_or_true : Option Bool → Bool
is_null_or_true none = true
is_null_or_true (some b) = b

unfoldable pub stage_where : SellerItemStage → ListingWhere
stage_where SellerItemStage.awaiting_payment row =
    sale (TransactionStatus.pending ∷ TransactionStatus.failed ∷ []) any_sale row
stage_where SellerItemStage.needs_shipping row =
    sale (TransactionStatus.completed ∷ []) any_sale row
stage_where SellerItemStage.shipped row = sale (TransactionStatus.shipped ∷ []) any_sale row
stage_where SellerItemStage.delivered row = sale (TransactionStatus.delivered ∷ []) any_sale row
stage_where SellerItemStage.refunded row = sale (TransactionStatus.refunded ∷ []) any_sale row
stage_where SellerItemStage.dispute_awaiting_response row =
    sale (TransactionStatus.disputed ∷ []) not_answered row
stage_where SellerItemStage.disputed row =
    sale (TransactionStatus.disputed ∷ []) dispute_answered row
stage_where SellerItemStage.relisted row =
    sale (TransactionStatus.voided ∷ []) any_sale row && row.is_relisted
stage_where SellerItemStage.payment_defaulted row =
    sale (TransactionStatus.voided ∷ []) any_sale row
    && not row.is_relisted
    && not (is_listing_removed row.status)
stage_where SellerItemStage.removed row =
    (no_sale row && is_listing_removed row.status)
    || (sale (TransactionStatus.voided ∷ []) any_sale row
        && not row.is_relisted
        && is_listing_removed row.status)
stage_where SellerItemStage.rejected row = no_sale row && is_listing_rejected row.status
stage_where SellerItemStage.under_review row =
    no_sale row
    && (is_waiting row.status || (is_listing_approved row.status && is_none row.auction))
stage_where SellerItemStage.live row =
    no_sale row && approved_with_auction (λ a. is_auction_active a.status) row
stage_where SellerItemStage.cancelled row =
    no_sale row && approved_with_auction (λ a. is_auction_cancelled a.status) row
stage_where SellerItemStage.ended_reserve_not_met row =
    no_sale row
    && approved_with_auction
        (λ a. is_auction_closed a.status && is_below a.reserve_met && ltb 0 a.bid_count) row
stage_where SellerItemStage.ended_no_bids row =
    no_sale row
    && approved_with_auction
        (λ a. is_auction_closed a.status && (is_null_or_true a.reserve_met || leb a.bid_count 0))
        row

-- A row matches the filter of a stage exactly when that stage is the one that `deriveStage` gives
-- it: the sixteen filters are mutually exclusive and together exhaustive.
pub stage_where_iff :
    (s : SellerItemStage) (row : ItemRow) (next_bidder : Bool)
    → (stage_where s row ≡ true) ↔ (derive_stage (facts_of row next_bidder) ≡ s)
unfolding stage_where derive_stage facts_of
stage_where_iff SellerItemStage.awaiting_payment row b = ground arith
stage_where_iff _ row b = ground arith

abbrev tab_code : SellerItemTab → ℕ
tab_code SellerItemTab.action = 0
tab_code SellerItemTab.review = 1
tab_code SellerItemTab.live = 2
tab_code SellerItemTab.sold = 3
tab_code SellerItemTab.unsold = 4
tab_code SellerItemTab.closed = 5

-- SELLER_ITEM_STAGES
abbrev pub seller_item_stages : List SellerItemStage
seller_item_stages =
    SellerItemStage.under_review ∷ SellerItemStage.rejected ∷ SellerItemStage.removed
    ∷ SellerItemStage.live ∷ SellerItemStage.awaiting_payment ∷ SellerItemStage.needs_shipping
    ∷ SellerItemStage.shipped ∷ SellerItemStage.delivered
    ∷ SellerItemStage.dispute_awaiting_response ∷ SellerItemStage.disputed
    ∷ SellerItemStage.refunded ∷ SellerItemStage.payment_defaulted ∷ SellerItemStage.relisted
    ∷ SellerItemStage.ended_reserve_not_met ∷ SellerItemStage.ended_no_bids
    ∷ SellerItemStage.cancelled ∷ []

abbrev any_where : List ListingWhere → ListingWhere
any_where [] row = false
any_where (p ∷ ps) row = p row || any_where ps row

unfoldable pub tab_where : SellerItemTab → ListingWhere
unfolding stage_tab stage_where
tab_where tab =
    any_where
      (map stage_where (keep (λ s. tab_code (stage_tab s) == tab_code tab) seller_item_stages))

-- A row matches the filter of a tab exactly when the tab is that of its stage, so every item of a
-- seller is listed in exactly one tab.
pub tab_where_iff :
    (tab : SellerItemTab) (row : ItemRow) (next_bidder : Bool)
    → (tab_where tab row ≡ true) ↔ (stage_tab (derive_stage (facts_of row next_bidder)) ≡ tab)
unfolding tab_where derive_stage facts_of
tab_where_iff SellerItemTab.action row b = ground arith
tab_where_iff _ row b = ground arith
