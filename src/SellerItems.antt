-- ===== src/SellerItems.antt =====
-- src/modules/seller-items/seller-item-stage.ts: the stage of a seller's item, its tab, what the
-- seller may do with it, and the same rules as a database filter. A filter is what the database
-- answers of one row, where a comparison with NULL does not match. `facts_of` is the one of
-- src/modules/seller-items/seller-items.routes.ts.
pub mod Filters
pub mod Items
pub mod Orders
pub mod Pages
pub mod Counts
use bidvault_backend.Common.{
  ℕ, [], ◌∷◌, Option, Bool, List, String, some, true, false, if◌then◌else◌, or_else, none, ◌&&◌,
  is_some, ◌==◌, ltb,
}
use bidvault_backend.Store.{
  AuctionStatus, TransactionStatus, ListingStatus, is_listing_removed, is_listing_pending,
}
use bidvault_backend.Closing.{is_below}

pub data SellerItemTab : Type 0 where
  action review live sold unsold closed : SellerItemTab

pub data SellerItemStage : Type 0 where
  under_review rejected removed live awaiting_payment needs_shipping shipped delivered
        dispute_awaiting_response disputed refunded payment_defaulted relisted ended_reserve_not_met
        ended_no_bids cancelled :
      SellerItemStage

pub data SellerItemAction : Type 0 where
  withdraw edit_resubmit cancel_auction mark_shipped respond_to_dispute offer_next_bidder relist
        list_again view_invoice :
      SellerItemAction

pub record ItemFacts : Type 0 where
  pub listing_status : ListingStatus
  pub auction_status : Option AuctionStatus
  pub reserve_met : Option Bool
  pub bid_count : Option ℕ
  pub txn_status : Option TransactionStatus
  pub dispute_responded : Bool
  pub relisted : Bool
  pub has_next_bidder : Bool

-- STAGE_TAB
unfoldable pub stage_tab : SellerItemStage → SellerItemTab
stage_tab SellerItemStage.under_review = SellerItemTab.review
stage_tab SellerItemStage.rejected = SellerItemTab.closed
stage_tab SellerItemStage.removed = SellerItemTab.closed
stage_tab SellerItemStage.live = SellerItemTab.live
stage_tab SellerItemStage.awaiting_payment = SellerItemTab.sold
stage_tab SellerItemStage.needs_shipping = SellerItemTab.action
stage_tab SellerItemStage.shipped = SellerItemTab.sold
stage_tab SellerItemStage.delivered = SellerItemTab.sold
stage_tab SellerItemStage.dispute_awaiting_response = SellerItemTab.action
stage_tab SellerItemStage.disputed = SellerItemTab.sold
stage_tab SellerItemStage.refunded = SellerItemTab.sold
stage_tab SellerItemStage.payment_defaulted = SellerItemTab.action
stage_tab SellerItemStage.relisted = SellerItemTab.unsold
stage_tab SellerItemStage.ended_reserve_not_met = SellerItemTab.unsold
stage_tab SellerItemStage.ended_no_bids = SellerItemTab.unsold
stage_tab SellerItemStage.cancelled = SellerItemTab.unsold

-- The second and third `switch` of `deriveStage`.
unfoldable pub auction_stage : ItemFacts → Option AuctionStatus → SellerItemStage
auction_stage f (some AuctionStatus.active) = SellerItemStage.live
auction_stage f (some AuctionStatus.cancelled) = SellerItemStage.cancelled
auction_stage f (some AuctionStatus.closed) =
    if is_below f.reserve_met && ltb 0 (or_else f.bid_count 0)
    then SellerItemStage.ended_reserve_not_met
    else SellerItemStage.ended_no_bids
auction_stage f none = SellerItemStage.under_review

unfoldable pub listing_stage : ItemFacts → ListingStatus → SellerItemStage
unfolding auction_stage
listing_stage f ListingStatus.rejected = SellerItemStage.rejected
listing_stage f ListingStatus.removed = SellerItemStage.removed
listing_stage f ListingStatus.pending = SellerItemStage.under_review
listing_stage f ListingStatus.draft = SellerItemStage.under_review
listing_stage f ListingStatus.approved = auction_stage f f.auction_status

-- The first `switch`: a sale decides everything.
unfoldable pub sale_stage : ItemFacts → Option TransactionStatus → SellerItemStage
unfolding listing_stage
sale_stage f (some TransactionStatus.pending) = SellerItemStage.awaiting_payment
sale_stage f (some TransactionStatus.failed) = SellerItemStage.awaiting_payment
sale_stage f (some TransactionStatus.completed) = SellerItemStage.needs_shipping
sale_stage f (some TransactionStatus.shipped) = SellerItemStage.shipped
sale_stage f (some TransactionStatus.delivered) = SellerItemStage.delivered
sale_stage f (some TransactionStatus.refunded) = SellerItemStage.refunded
sale_stage f (some TransactionStatus.disputed) =
    if f.dispute_responded
    then SellerItemStage.disputed
    else SellerItemStage.dispute_awaiting_response
sale_stage f (some TransactionStatus.voided) =
    if f.relisted
    then SellerItemStage.relisted
    else if is_listing_removed f.listing_status
    then SellerItemStage.removed
    else SellerItemStage.payment_defaulted
sale_stage f none = listing_stage f f.listing_status

unfoldable pub derive_stage : ItemFacts → SellerItemStage
unfolding sale_stage
derive_stage f = sale_stage f f.txn_status

unfoldable pub allowed_actions : SellerItemStage → ItemFacts → List SellerItemAction
allowed_actions SellerItemStage.under_review f =
    if is_listing_pending f.listing_status then SellerItemAction.withdraw ∷ [] else []
allowed_actions SellerItemStage.rejected f = SellerItemAction.edit_resubmit ∷ []
allowed_actions SellerItemStage.live f =
    if or_else f.bid_count 0 == 0 then SellerItemAction.cancel_auction ∷ [] else []
allowed_actions SellerItemStage.needs_shipping f =
    SellerItemAction.mark_shipped ∷ SellerItemAction.view_invoice ∷ []
allowed_actions SellerItemStage.dispute_awaiting_response f =
    SellerItemAction.respond_to_dispute ∷ SellerItemAction.view_invoice ∷ []
allowed_actions SellerItemStage.payment_defaulted f =
    if f.has_next_bidder
    then SellerItemAction.relist ∷ SellerItemAction.offer_next_bidder ∷ []
    else SellerItemAction.relist ∷ []
allowed_actions SellerItemStage.ended_reserve_not_met f = SellerItemAction.list_again ∷ []
allowed_actions SellerItemStage.ended_no_bids f = SellerItemAction.list_again ∷ []
allowed_actions SellerItemStage.shipped f = SellerItemAction.view_invoice ∷ []
allowed_actions SellerItemStage.delivered f = SellerItemAction.view_invoice ∷ []
allowed_actions SellerItemStage.disputed f = SellerItemAction.view_invoice ∷ []
allowed_actions SellerItemStage.refunded f = SellerItemAction.view_invoice ∷ []
allowed_actions _ f = []

-- One row as the filters and the screen read it: the listing, its auction, the auction's one sale,
-- and the seller's answer to the dispute on it.
pub record SaleFacts : Type 0 where
  pub status : TransactionStatus
  pub dispute : Option (Option String)

pub record AuctionFacts : Type 0 where
  pub status : AuctionStatus
  pub reserve_met : Option Bool
  pub bid_count : ℕ
  pub end_time : ℕ
  pub sale : Option SaleFacts

pub record ItemRow : Type 0 where
  pub seller_id : ℕ
  pub title : List ℕ
  pub listing_code : List ℕ
  pub submitted_at : ℕ
  pub status : ListingStatus
  pub auction : Option AuctionFacts
  pub is_relisted : Bool

abbrev pub sale_in : Option AuctionFacts → Option SaleFacts
sale_in none = none
sale_in (some a) = a.sale

-- `sale?.dispute?.sellerResponse != null`
abbrev pub has_response : Option SaleFacts → Bool
has_response none = false
has_response (some s) = elim s.dispute [ none ↦ false | some response ↦ is_some response ]

unfoldable pub facts_of : ItemRow → Bool → ItemFacts
facts_of row has_next_bidder = record {
  listing_status = row.status;
  auction_status = elim row.auction [ none ↦ none | some a ↦ some a.status ];
  reserve_met = elim row.auction [ none ↦ none | some a ↦ a.reserve_met ];
  bid_count = elim row.auction [ none ↦ none | some a ↦ some a.bid_count ];
  txn_status = elim (sale_in row.auction) [ none ↦ none | some s ↦ some s.status ];
  dispute_responded = has_response (sale_in row.auction);
  relisted = row.is_relisted;
  has_next_bidder = has_next_bidder;
}
