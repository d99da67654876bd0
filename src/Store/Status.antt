-- ===== src/Store/Status.antt =====
-- Comparisons of the status columns: the source's `row.status !== 'PENDING'` and `includes`.
use bidvault_backend.Common.{Bool, true, false}
use bidvault_backend.Store.Rows.{
  UserStatus, ListingStatus, AuctionStatus, TransactionStatus, DisputeStatus,
}

abbrev pub is_auction_active : AuctionStatus → Bool
is_auction_active AuctionStatus.active = true
is_auction_active _ = false

abbrev pub is_auction_closed : AuctionStatus → Bool
is_auction_closed AuctionStatus.closed = true
is_auction_closed _ = false

abbrev pub is_listing_approved : ListingStatus → Bool
is_listing_approved ListingStatus.approved = true
is_listing_approved _ = false

abbrev pub is_listing_pending : ListingStatus → Bool
is_listing_pending ListingStatus.pending = true
is_listing_pending _ = false

abbrev pub is_listing_rejected : ListingStatus → Bool
is_listing_rejected ListingStatus.rejected = true
is_listing_rejected _ = false

abbrev pub is_user_suspended : UserStatus → Bool
is_user_suspended UserStatus.suspended = true
is_user_suspended _ = false

abbrev pub is_listing_removed : ListingStatus → Bool
is_listing_removed ListingStatus.removed = true
is_listing_removed _ = false

abbrev pub is_sale_pending : TransactionStatus → Bool
is_sale_pending TransactionStatus.pending = true
is_sale_pending _ = false

abbrev pub is_sale_completed : TransactionStatus → Bool
is_sale_completed TransactionStatus.completed = true
is_sale_completed _ = false

abbrev pub is_sale_voided : TransactionStatus → Bool
is_sale_voided TransactionStatus.voided = true
is_sale_voided _ = false

abbrev pub is_sale_shipped : TransactionStatus → Bool
is_sale_shipped TransactionStatus.shipped = true
is_sale_shipped _ = false

abbrev pub is_sale_delivered : TransactionStatus → Bool
is_sale_delivered TransactionStatus.delivered = true
is_sale_delivered _ = false

abbrev pub is_sale_disputed : TransactionStatus → Bool
is_sale_disputed TransactionStatus.disputed = true
is_sale_disputed _ = false

abbrev pub is_sale_refunded : TransactionStatus → Bool
is_sale_refunded TransactionStatus.refunded = true
is_sale_refunded _ = false

abbrev pub is_dispute_open : DisputeStatus → Bool
is_dispute_open DisputeStatus.open_dispute = true
is_dispute_open _ = false
