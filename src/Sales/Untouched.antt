-- ===== src/Sales/Untouched.antt =====
-- The handlers that write no dispute, and what a confirmation does to the other sales.
use bidvault_backend.Common.{
  ℕ, ◌≡◌, lookup, Bool, String, List, [], ◌∷◌, arith, refl, inl, inr, lookup-insert, ◌≢◌,
  Option-cases,
}
use bidvault_backend.Store.{World, Flow}
use bidvault_backend.Store.Queries.{BidQueries}
use bidvault_backend.Sales.{delivered_sale}
use bidvault_backend.Recovery.{Actor, cancel_auction, void_overdue_payment, offer_to_next_bidder}
use bidvault_backend.Bidding.{place_bid, write_bid}
use bidvault_backend.Closing.{close_auction}
use bidvault_backend.Payments.{pay, void_transaction}
use bidvault_backend.Recovery.Relist.{
  NewIds, relist, relist_once, write_relist, after_attempt, RelistOnce, RelistAnswer,
}
use bidvault_backend.Fulfillment.{mark_shipped, confirm_delivery, pay_out, ConfirmOptions}

-- The handlers that write no dispute.
module _ (q : BidQueries) (now : ℕ) (w : World) where
  pub place_bid-disputes :
      (live : Bool) (bid_id auction_id buyer_id amount : ℕ)
      → (place_bid q live now bid_id auction_id buyer_id amount w).1.disputes ≡ w.disputes
  unfolding place_bid write_bid
  place_bid-disputes live bid_id auction_id buyer_id amount = ground arith

  pub cancel_auction-disputes :
      (auction_id : ℕ) (actor : Actor)
      → (cancel_auction q now auction_id actor w).1.disputes ≡ w.disputes
  unfolding cancel_auction
  cancel_auction-disputes auction_id actor = ground arith

  pub close_auction-disputes :
      (sale_id hours auction_id : ℕ)
      → (close_auction q now sale_id hours auction_id w).1.disputes ≡ w.disputes
  unfolding close_auction
  close_auction-disputes sale_id hours auction_id = ground arith

  pub offer-disputes :
      (hours t seller_id : ℕ)
      → (offer_to_next_bidder q now hours t seller_id w).1.disputes ≡ w.disputes
  unfolding offer_to_next_bidder
  offer-disputes hours t seller_id = ground arith

module _ (now : ℕ) (w : World) where
  pub pay-disputes :
      (reference t winner_id : ℕ) (card : List ℕ) (address phone : String)
      → (pay now reference t winner_id card address phone w).1.disputes ≡ w.disputes
  unfolding pay
  pay-disputes reference t winner_id card address phone = ground arith

  pub void-disputes :
      (t admin_user_id : ℕ) (reason : String)
      → (void_transaction t admin_user_id reason w).1.disputes ≡ w.disputes
  unfolding void_transaction
  void-disputes t admin_user_id reason = ground arith

  pub void_overdue-disputes :
      (hours t : ℕ) → (void_overdue_payment now hours t w).1.disputes ≡ w.disputes
  unfolding void_overdue_payment
  void_overdue-disputes hours t = ground arith

  pub ship-disputes : (t seller_id : ℕ) → (mark_shipped now t seller_id w).1.disputes ≡ w.disputes
  unfolding mark_shipped
  ship-disputes t seller_id = ground arith

  pub confirm-disputes :
      (t : ℕ) (opts : ConfirmOptions) → (confirm_delivery now t opts w).1.disputes ≡ w.disputes
  unfolding confirm_delivery pay_out
  confirm-disputes t opts = ground arith

  -- A confirmation writes no sale but its own.
  pub confirm-others :
      (t : ℕ) (opts : ConfirmOptions) (other : ℕ)
      → other ≢ t
      → lookup other (confirm_delivery now t opts w).1.sales ≡ lookup other w.sales
  unfolding confirm_delivery pay_out
  confirm-others t opts other ne = elim (Option-cases (lookup t w.sales)) [
    | inl missing ↦ ground arith
    | inr (row, found) ↦ ground (arith, lookup-insert t other (delivered_sale row) w.sales)
  ]

once-disputes :
    (start_time : ℕ) (ids : NewIds) (code t seller_id : ℕ) (w : World)
    → (relist_once start_time ids code t seller_id w).1.disputes ≡ w.disputes
unfolding relist_once write_relist
once-disputes start_time ids code t seller_id w = ground arith

attempt-disputes :
    (r : Flow RelistOnce RelistOnce) (w v : World) (retry : Flow RelistAnswer RelistAnswer × World)
    → v.disputes ≡ w.disputes
    → retry.1.disputes ≡ w.disputes
    → (after_attempt r v retry).1.disputes ≡ w.disputes
unfolding after_attempt
attempt-disputes r w v retry h k = ground arith

pub relist-disputes :
    (start_time : ℕ) (ids : NewIds) (codes : List ℕ) (t seller_id : ℕ) (w : World)
    → (relist start_time ids codes t seller_id w).1.disputes ≡ w.disputes
unfolding relist
relist-disputes start_time ids [] t s w = refl
relist-disputes start_time ids (code ∷ codes) t s w =
    attempt-disputes (relist_once start_time ids code t s w).0 w
      (relist_once start_time ids code t s w).1 (relist start_time ids codes t s w)
      (once-disputes start_time ids code t s w) (relist-disputes start_time ids codes t s w)
