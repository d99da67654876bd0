-- ===== src/Sales/Others.antt =====
-- The handlers that touch no sale and no money: bids, cancellations, responses, and a relist.
use bidvault_backend.Common.{ℕ, String, Bool, arith, List, ◌∷◌, [], refl, false}
use bidvault_backend.Recovery.Relist.{
  NewIds, relist_once, write_relist, RelistOnce, relist, after_attempt, RelistAnswer,
}
use bidvault_backend.Store.Queries.{BidQueries}
use bidvault_backend.Recovery.{Actor, cancel_auction, CancelAnswer}
use bidvault_backend.Store.{World, Flow, next, answer, threw}
use bidvault_backend.Bidding.{place_bid, write_bid, BidAnswer}
use bidvault_backend.Fulfillment.{respond_to_dispute, RespondAnswer}
use bidvault_backend.Sales.{SaleStep, still, SaleStep-same, SameMoney-refl}

module _ (q : BidQueries) (live : Bool) (now bid_id auction_id buyer_id amount : ℕ)
    (w : World) where
  abbrev bidding : Flow BidAnswer BidAnswer × World
  bidding = place_bid q live now bid_id auction_id buyer_id amount w

  pub place_bid-SaleStep : SaleStep false w bidding.1
  unfolding place_bid write_bid
  place_bid-SaleStep = still (ground arith) (ground arith) (ground arith)

module _ (q : BidQueries) (now auction_id : ℕ) (actor : Actor) (w : World) where
  abbrev cancelling : Flow CancelAnswer CancelAnswer × World
  cancelling = cancel_auction q now auction_id actor w

  pub cancel_auction-SaleStep : SaleStep false w cancelling.1
  unfolding cancel_auction
  cancel_auction-SaleStep = still (ground arith) (ground arith) (ground arith)

module _ (now transaction_id seller_id : ℕ) (response : String) (w : World) where
  abbrev responding : Flow RespondAnswer RespondAnswer × World
  responding = respond_to_dispute now transaction_id seller_id response w

  pub respond_to_dispute-SaleStep : SaleStep false w responding.1
  unfolding respond_to_dispute
  respond_to_dispute-SaleStep = still (ground arith) (ground arith) (ground arith)

module _ (start_time : ℕ) (ids : NewIds) (code transaction_id seller_id : ℕ) (w : World) where
  abbrev attempt : Flow RelistOnce RelistOnce × World
  attempt = relist_once start_time ids code transaction_id seller_id w

  relist_once-SaleStep : SaleStep false w attempt.1
  unfolding relist_once write_relist
  relist_once-SaleStep = still (ground arith) (ground arith) (ground arith)

after_attempt-SaleStep :
    (r : Flow RelistOnce RelistOnce) (w v : World) (retry : Flow RelistAnswer RelistAnswer × World)
    → SaleStep false w v
    → SaleStep false w retry.1
    → SaleStep false w (after_attempt r v retry).1
unfolding after_attempt
after_attempt-SaleStep (next (RelistOnce.created l a e)) w v retry h k =
    SaleStep-same {v = w} {v' = v} (SameMoney-refl w) h (refl, refl, refl)
after_attempt-SaleStep (answer RelistOnce.duplicate_code) w v retry h k = k
after_attempt-SaleStep (next (RelistOnce.refused r)) w v retry h k = h
after_attempt-SaleStep (next RelistOnce.duplicate_code) w v retry h k = h
after_attempt-SaleStep (next RelistOnce.duplicate_relist) w v retry h k = h
after_attempt-SaleStep (answer (RelistOnce.created l a e)) w v retry h k = h
after_attempt-SaleStep (answer (RelistOnce.refused r)) w v retry h k = h
after_attempt-SaleStep (answer RelistOnce.duplicate_relist) w v retry h k = h
after_attempt-SaleStep threw w v retry h k = h

pub relist-SaleStep :
    (start_time : ℕ) (ids : NewIds) (codes : List ℕ) (transaction_id seller_id : ℕ) (w : World)
    → SaleStep false w (relist start_time ids codes transaction_id seller_id w).1
unfolding relist
relist-SaleStep start_time ids [] t s w = still refl refl refl
relist-SaleStep start_time ids (code ∷ codes) t s w =
    after_attempt-SaleStep (relist_once start_time ids code t s w).0 w
      (relist_once start_time ids code t s w).1 (relist start_time ids codes t s w)
      (relist_once-SaleStep start_time ids code t s w) (relist-SaleStep start_time ids codes t s w)
