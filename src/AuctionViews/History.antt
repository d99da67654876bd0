-- ===== src/AuctionViews/History.antt =====
-- GET /:auctionId/bids of src/modules/auctions/auctions.routes.ts: the bids of an auction, newest
-- first, with a pseudonym for each bidder. `bids` is the Bid table from the oldest row to the newest,
-- by `createdAt` and `id`.
use mathlib.Core.List.{reverse}
use bidvault_backend.Store.{Bid}
use bidvault_backend.Common.{
  ℕ, [], ◌∷◌, List, Bool, Option, Table, some, ◌==◌, false, none, keep, not, if◌then◌else◌, ◌+◌,
  map,
}
use bidvault_backend.Pagination.{CursorText, ParsedNumber, list_page}

abbrev pub is_bid_on : ℕ → ℕ × Bid → Bool
is_bid_on auction_id r = (r.1).auction_id == auction_id

-- The buyers of bids that have one.
abbrev pub buyers_of : Table Bid → List ℕ
buyers_of [] = []
buyers_of ((i, bid) ∷ bids) = elim bid.buyer_id [
  | none ↦ buyers_of bids
  | some buyer_id ↦ buyer_id ∷ buyers_of bids
]

-- `distinct: ['buyerId']`: the first row for each buyer, in order.
abbrev pub distinct : List ℕ → List ℕ
distinct [] = []
distinct (x ∷ xs) = x ∷ keep (λ y. not (y == x)) (distinct xs)

-- `rank.get(buyerId)` of the map from each distinct buyer to its place, counted from 1.
abbrev pub rank : ℕ → List ℕ → Option ℕ
rank u [] = none
rank u (x ∷ xs) =
    if x == u then some 1 else (elim (rank u xs) [ none ↦ none | some k ↦ some (k + 1) ])

unfoldable pub rank_of : ℕ → Table Bid → ℕ → Option ℕ
rank_of auction_id bids buyer_id =
    rank buyer_id (distinct (buyers_of (keep (is_bid_on auction_id) bids)))

pub data BuyerName : Type 0 where
  deleted_user : BuyerName
  bidder : (place : Option ℕ) → BuyerName

abbrev pub buyer_name : (ℕ → Option ℕ) → Option ℕ → BuyerName
buyer_name place none = deleted_user
buyer_name place (some buyer_id) = bidder (place buyer_id)

pub record BidView : Type 0 where
  pub bid_id : ℕ
  pub auction_id : ℕ
  pub is_mine : Bool
  pub buyer_name : BuyerName
  pub amount : ℕ
  pub timestamp : ℕ

-- `requesterId != null && bid.buyerId === requesterId`
abbrev pub is_buyer : Option ℕ → Option ℕ → Bool
is_buyer none buyer_id = false
is_buyer (some user_id) none = false
is_buyer (some user_id) (some buyer_id) = buyer_id == user_id

unfoldable pub bid_view : (ℕ → Option ℕ) → Option ℕ → ℕ × Bid → BidView
bid_view place requester_id (i, bid) = record {
  bid_id = i;
  auction_id = bid.auction_id;
  is_mine = is_buyer requester_id bid.buyer_id;
  buyer_name = buyer_name place bid.buyer_id;
  amount = bid.amount;
  timestamp = bid.created_at;
}

unfoldable pub bid_history :
    CursorText
    → ParsedNumber
    → Option (List ℕ)
    → Option ℕ
    → ℕ
    → Table Bid
    → List BidView × Option (List ℕ)
unfolding bid_view
bid_history text raw_limit raw_cursor requester_id auction_id bids =
    let (page_rows, next_cursor) =
      list_page (λ (bid : Bid). bid.created_at) false text raw_limit raw_cursor
        (reverse (keep (is_bid_on auction_id) bids)) in
    (map (bid_view (rank_of auction_id bids) requester_id) page_rows, next_cursor)
