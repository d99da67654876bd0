-- ===== src/Store/Rows.antt =====
-- The models and enums of prisma/schema.prisma that the modelled code reads or writes. A row's id
-- is its key in its table. Ids are only compared, so they are numbers; money is a whole number of
-- PKR, and a time is a number of milliseconds.
use bidvault_backend.Common.{ℕ, Bool, Option, List, String}

pub data ItemCondition : Type 0 where
  new like_new used : ItemCondition

pub data ListingStatus : Type 0 where
  draft pending approved rejected removed : ListingStatus

pub data UserStatus : Type 0 where
  active suspended : UserStatus

pub data AuctionStatus : Type 0 where
  active closed cancelled : AuctionStatus

pub data TransactionStatus : Type 0 where
  pending completed failed voided shipped delivered disputed refunded : TransactionStatus

pub data DisputeStatus : Type 0 where
  open_dispute resolved_refunded resolved_released : DisputeStatus

-- model User
pub record User : Type 0 where
  pub name : String
  pub email : String
  pub status : UserStatus
  pub notify_outbid : Bool
  pub notify_wins : Bool
  pub ledger_balance : ℕ
  pub is_seller : Bool

-- model Listing
pub record Listing : Type 0 where
  pub listing_code : ℕ
  pub seller_id : ℕ
  pub title : String
  pub category : String
  pub condition : ItemCondition
  pub description : String
  pub start_price : ℕ
  pub reserve_price : Option ℕ
  pub min_increment : ℕ
  pub duration_days : ℕ
  pub status : ListingStatus
  pub rejection_reason : Option String
  pub image_url : Option String
  pub emoji : Option String
  pub attributes : Option String
  pub relisted_from_id : Option ℕ

-- model Auction
pub record Auction : Type 0 where
  pub listing_id : ℕ
  pub seller_id : ℕ
  pub title : String
  pub category : String
  pub condition : ItemCondition
  pub description : String
  pub image_url : Option String
  pub emoji : Option String
  pub start_price : ℕ
  pub reserve_price : Option ℕ
  pub reserve_met : Option Bool
  pub min_increment : ℕ
  pub current_bid : ℕ
  pub bid_count : ℕ
  pub attributes : Option String
  pub status : AuctionStatus
  pub start_time : ℕ
  pub end_time : ℕ

-- model Bid; `buyer_id` is empty once the bidder's account row is gone
pub record Bid : Type 0 where
  pub auction_id : ℕ
  pub buyer_id : Option ℕ
  pub amount : ℕ
  pub created_at : ℕ

-- model AuctionTransaction
pub record Sale : Type 0 where
  pub auction_id : ℕ
  pub winner_id : ℕ
  pub seller_id : ℕ
  pub final_amount : ℕ
  pub status : TransactionStatus
  pub payment_reference : Option ℕ
  pub last_payment_error : Option String
  pub delivery_address : Option String
  pub delivery_phone : Option String
  pub shipped_at : Option ℕ
  pub paid_at : Option ℕ
  pub payment_due_at : Option ℕ
  pub previous_winner_ids : List ℕ
  pub created_at : ℕ

-- model LedgerEntry
pub record LedgerEntry : Type 0 where
  pub seller_id : ℕ
  pub transaction_id : ℕ
  pub amount : ℕ

-- model Dispute
pub record Dispute : Type 0 where
  pub transaction_id : ℕ
  pub raised_by_user_id : ℕ
  pub reason : String
  pub seller_response : Option String
  pub seller_responded_at : Option ℕ
  pub status : DisputeStatus
  pub resolved_by_user_id : Option ℕ
  pub resolution_note : Option String
  pub resolved_at : Option ℕ
  pub created_at : ℕ
