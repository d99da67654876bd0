-- ===== src/Store/Notices.antt =====
-- What the handlers tell people: rows of Notification and AuditLog, and the effects outside the
-- database. A text is the template that the source writes with the values that it fills in.
use bidvault_backend.Common.{ℕ, Bool, Option, List, String}

-- The `type` of a notification with its title and message template.
pub data Notice : Type 0 where
  bid_outbid : (title : String) → (amount : ℕ) → Notice
  bid_received : (title : String) → (bid_count amount : ℕ) → Notice
  reserve_not_met_seller : (title : String) → (amount reserve : ℕ) → Notice
  reserve_not_met_bidder : (title : String) → (amount : ℕ) → Notice
  auction_won : (title : String) → (amount : ℕ) → Notice
  auction_cancelled_by_admin : (title reason : String) → Notice
  auction_cancelled_by_seller : (title : String) → Notice
  auction_cancelled_bidder : (title reason : String) → Notice
  second_chance_offer : (title : String) → (amount : ℕ) → Notice
  listing_approved : (title : String) → Notice
  listing_rejected : (title reason : String) → Notice
  listing_relisted : (title : String) → Notice
  listing_removed : (title reason : String) → Notice
  item_shipped : (title : String) → Notice
  payout_received : (amount : ℕ) → (title : String) → Notice
  dispute_raised : (title reason : String) → Notice
  dispute_refunded_buyer : (title : String) → Notice
  dispute_refunded_seller : (title : String) → Notice
  dispute_released_buyer : (title : String) → Notice

-- model Notification
pub record Notification : Type 0 where
  pub user_id : ℕ
  pub notice : Notice
  pub is_read : Bool
  pub auction_id : Option ℕ
  pub created_at : ℕ

pub data AuditAction : Type 0 where
  auction_cancelled transaction_voided transaction_voided_overdue listing_removed_action
        listing_approved_action listing_rejected_action user_suspended user_reinstated
        seller_enrolled dispute_resolved_refunded dispute_resolved_released :
      AuditAction

-- model AuditLog; the entity's type is fixed by the action, and `note` is the metadata's text
pub record AuditLog : Type 0 where
  pub actor_user_id : Option ℕ
  pub action : AuditAction
  pub entity_id : ℕ
  pub note : String

-- Mail requests, socket events and queue calls, in the order in which a handler makes them.
pub data Effect : Type 0 where
  email_bid_placed : (buyer auction : ℕ) → (amount : ℕ) → Effect
  email_reserve_not_met : (seller bidder : ℕ) → (reserve bid_count amount : ℕ) → Effect
  email_auction_ended :
      (seller : ℕ) → (winner : Option (ℕ × ℕ)) → (bid_count : ℕ) → (notify_winner : Bool) → Effect
  email_auction_cancelled :
      (seller : ℕ) → (reason : String) → (by_admin : Bool) → (bidders : List ℕ) → Effect
  email_payment_voided : (winner seller : ℕ) → (amount : ℕ) → Effect
  email_second_chance : (buyer : ℕ) → (amount : ℕ) → Effect
  email_taken_down : (seller : ℕ) → (reason : String) → Effect
  email_item_shipped : (buyer : ℕ) → Effect
  email_delivery_confirmed : (seller : ℕ) → (amount : ℕ) → (auto : Bool) → Effect
  email_dispute_raised : (seller : ℕ) → (reason : String) → (respond_by : ℕ) → Effect
  email_dispute_resolved : (buyer seller : ℕ) → (refunded : Bool) → (note : String) → Effect
  email_payment_completed : (buyer seller : ℕ) → (amount : ℕ) → Effect
  emit_bid_received : (seller auction : ℕ) → (bid_count current_bid : ℕ) → Effect
  emit_bid_placed : (auction bid : ℕ) → (amount rank : ℕ) → Effect
  emit_auction_cancelled : (auction : ℕ) → (title reason : String) → Effect
  email_listing_submitted : (seller listing_code : ℕ) → Effect
  email_listing_approved : (seller listing_code : ℕ) → Effect
  email_listing_rejected : (seller : ℕ) → (reason : String) → Effect
  emit_listing_submitted : (listing : ℕ) → (title : String) → Effect
  emit_listing_approved : (listing auction : ℕ) → Effect
  emit_listing_rejected : (listing : ℕ) → Effect
  email_account_suspended : (user : ℕ) → (reason : String) → Effect
  email_account_reinstated : (user : ℕ) → Effect
  schedule_auction_end : (auction end_time : ℕ) → Effect
  cancel_scheduled_job : (auction : ℕ) → Effect
