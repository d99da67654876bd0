-- ===== src/Routes.antt =====
-- The routes over a sale of src/modules/payments/payments.routes.ts and the void route of
-- src/modules/admin/admin.routes.ts: each calls its service and turns the answer into a response.
pub mod Told
use bidvault_backend.Common.{ℕ, [], ◌∷◌, List, Option, String, none, some, false}
use bidvault_backend.Recovery.Relist.{RelistAnswer, NewIds, relist}
use bidvault_backend.Recovery.{OfferAnswer, offer_to_next_bidder}
use bidvault_backend.Store.Queries.{BidQueries}
use bidvault_backend.Store.{Flow, World, TransactionStatus, next, answer, threw}
use bidvault_backend.Payments.{VoidAnswer, PayAnswer, pay, void_transaction}
use bidvault_backend.Fulfillment.{
  FulfillmentAnswer, RespondAnswer, respond_to_dispute, mark_shipped, confirm_delivery,
  raise_dispute,
}

-- A response: 200 with the status of the sale in its body; with a declined charge's status and
-- reason; with the time of a response to a dispute; with the ids of a new listing and auction; or
-- an error code. An exception goes to the error handler.
pub data Reply : Type 0 where
  done : (status : TransactionStatus) → Reply
  declined : (status : TransactionStatus) (reason : String) → Reply
  responded : (seller_responded_at : ℕ) → Reply
  relisted : (listing_id auction_id : ℕ) → Reply
  failed : (code : ℕ) → Reply
  crashed : Reply

abbrev pub reply_of : {A : Type 0} → (A → Reply) → Flow A A → Reply
reply_of f (next r) = f r
reply_of f (answer r) = f r
reply_of f threw = crashed

-- A kind with no entry in a table of codes: the destructuring throws.
abbrev pub error_reply : Option ℕ → Reply
error_reply none = crashed
error_reply (some code) = failed code

-- FULFILLMENT_ERROR_STATUS
abbrev pub fulfillment_error_status : FulfillmentAnswer → Option ℕ
fulfillment_error_status FulfillmentAnswer.ok = none
fulfillment_error_status FulfillmentAnswer.not_found = some 404
fulfillment_error_status FulfillmentAnswer.forbidden = some 403
fulfillment_error_status FulfillmentAnswer.wrong_state = some 409
fulfillment_error_status FulfillmentAnswer.no_address = some 409

abbrev pub fulfillment_reply : TransactionStatus → FulfillmentAnswer → Reply
fulfillment_reply status FulfillmentAnswer.ok = done status
fulfillment_reply status r = error_reply (fulfillment_error_status r)

-- DISPUTE_RESPONSE_ERROR_STATUS
abbrev pub respond_reply : RespondAnswer → Reply
respond_reply (RespondAnswer.ok at) = responded at
respond_reply RespondAnswer.not_found = failed 404
respond_reply RespondAnswer.forbidden = failed 403
respond_reply RespondAnswer.no_open_dispute = failed 409
respond_reply RespondAnswer.already_responded = failed 409

-- AUCTION_CONTROL_ERROR_STATUS, for the two routes that use it
abbrev pub offer_reply : OfferAnswer → Reply
offer_reply OfferAnswer.ok = done TransactionStatus.pending
offer_reply OfferAnswer.not_found = failed 404
offer_reply OfferAnswer.forbidden = failed 403
offer_reply OfferAnswer.wrong_state = failed 409
offer_reply OfferAnswer.no_other_bidder = failed 409

abbrev pub relist_reply : RelistAnswer → Reply
relist_reply (RelistAnswer.ok listing_id auction_id) = relisted listing_id auction_id
relist_reply RelistAnswer.not_found = failed 404
relist_reply RelistAnswer.forbidden = failed 403
relist_reply RelistAnswer.wrong_state = failed 409

abbrev pub pay_reply : PayAnswer → Reply
pay_reply PayAnswer.paid = done TransactionStatus.completed
pay_reply (PayAnswer.declined reason) = declined TransactionStatus.pending reason
pay_reply PayAnswer.not_found = failed 404
pay_reply PayAnswer.forbidden = failed 403
pay_reply PayAnswer.already_paid = failed 409
pay_reply PayAnswer.not_payable = failed 409

abbrev pub void_reply : VoidAnswer → Reply
void_reply VoidAnswer.ok = done TransactionStatus.voided
void_reply VoidAnswer.not_found = failed 404
void_reply VoidAnswer.not_pending = failed 409

-- A service's answer as a response, with the database it leaves.
abbrev pub respond_with : {A : Type 0} → (A → Reply) → Flow A A × World → Reply × World
respond_with f (r, w) = (reply_of f r, w)

module _ (now transaction_id user_id : ℕ) where
  unfoldable pub ship_route : World → Reply × World
  ship_route w =
      respond_with (fulfillment_reply TransactionStatus.shipped)
        (mark_shipped now transaction_id user_id w)

  unfoldable pub confirm_receipt_route : World → Reply × World
  confirm_receipt_route w = respond_with (fulfillment_reply TransactionStatus.delivered) (
      confirm_delivery now transaction_id
        (record { require_winner_id = some user_id; auto = false; from_disputed = false }) w)

  unfoldable pub dispute_route : ℕ → String → World → Reply × World
  dispute_route dispute_id reason w =
      respond_with (fulfillment_reply TransactionStatus.disputed)
        (raise_dispute now dispute_id transaction_id user_id reason w)

  unfoldable pub dispute_response_route : String → World → Reply × World
  dispute_response_route response w =
      respond_with respond_reply (respond_to_dispute now transaction_id user_id response w)

  unfoldable pub offer_next_bidder_route : BidQueries → ℕ → World → Reply × World
  offer_next_bidder_route q payment_deadline_hours w =
      respond_with offer_reply
        (offer_to_next_bidder q now payment_deadline_hours transaction_id user_id w)

  unfoldable pub relist_route : NewIds → List ℕ → World → Reply × World
  relist_route ids codes w =
      respond_with relist_reply (relist now ids codes transaction_id user_id w)

  unfoldable pub pay_route : ℕ → List ℕ → String → String → World → Reply × World
  pay_route reference card_number address phone w =
      respond_with pay_reply (pay now reference transaction_id user_id card_number address phone w)

unfoldable pub void_route : ℕ → ℕ → String → World → Reply × World
void_route transaction_id admin_user_id reason w =
    respond_with void_reply (void_transaction transaction_id admin_user_id reason w)
