-- ===== src/Bidding/Acceptance.antt =====
-- Which bids `place_bid` takes, and that a refused one leaves no trace.
use bidvault_backend.Common.{
  ℕ, ◌+◌, ◌*◌, ◌≤◌, ◌<◌, ◌≡◌, ◌≢◌, ◌⊎◌, none, arith, Bool, lookup, some, ◌↔◌, insert, Option-cases,
  inl, inr, ◌++◌,
}
use bidvault_backend.Store.{Auction, AuctionStatus, World, Flow, next, Notice}
use bidvault_backend.Bidding.{
  refusal, max_stored_money, place_bid, BidAnswer, write_bid, new_bid, raised, notify_seller,
  notify_outbid, prev_highest,
}
use bidvault_backend.Store.Queries.{BidQueries}

-- What the marketplace promises of a bid, without the code's order of tests.
pub record IsAcceptable (now buyer_id amount : ℕ) (row : Auction) : Type 0 where
  pub not_own : row.seller_id ≢ buyer_id
  pub is_open : row.status ≡ AuctionStatus.active
  pub in_time : now < row.end_time
  pub first_bid : row.bid_count ≡ 0 → row.current_bid ≤ amount
  pub later_bid : 0 < row.bid_count → row.current_bid + row.min_increment ≤ amount
  pub storable : amount ≤ max_stored_money
  pub no_jump :
      ((0 < row.bid_count) × (amount ≤ row.current_bid + row.min_increment))
      ⊎ (amount ≤ row.current_bid * 10)
      ⊎ (amount ≤ row.start_price * 100)

refusal-none :
    (now buyer_id amount : ℕ) (row : Auction)
    → refusal now buyer_id amount row ≡ none
    → IsAcceptable now buyer_id amount row
unfolding refusal
refusal-none now buyer_id amount row h = ground arith

refusal_of_acceptable :
    (now buyer_id amount : ℕ) (row : Auction)
    → IsAcceptable now buyer_id amount row
    → refusal now buyer_id amount row ≡ none
unfolding refusal
refusal_of_acceptable now buyer_id amount row h = ground arith

module _ (q : BidQueries) (live : Bool) (now bid_id auction_id buyer_id amount : ℕ)
    (w : World) where
  abbrev run : Flow BidAnswer BidAnswer × World
  run = place_bid q live now bid_id auction_id buyer_id amount w

  -- On an auction that exists, the bid is placed exactly when it is acceptable: not the seller's
  -- own, on an active auction before its end, at or above the floor, storable, and no absurd jump.
  pub placed_iff :
      (row : Auction)
      → lookup auction_id w.auctions ≡ some row
      → (run.0 ≡ next (BidAnswer.placed bid_id)) ↔ IsAcceptable now buyer_id amount row
  unfolding place_bid
  placed_iff row found = (
    (λ h. refusal-none now buyer_id amount row (ground (arith))),
    λ h. ground (arith, refusal_of_acceptable now buyer_id amount row h),
  )

  -- A bid that is not placed changes nothing: no row, no notification, no mail, no broadcast.
  pub refused_unchanged : run.0 ≢ next (BidAnswer.placed bid_id) → run.1 ≡ w
  unfolding place_bid
  refused_unchanged h = ground arith

  -- Either the bid is not placed and nothing changes, or it is acceptable and these are its writes.
  pub place_bid_cases :
      ((run.0 ≢ next (BidAnswer.placed bid_id)) × (run.1 ≡ w))
      ⊎ ((row : Auction) × (lookup auction_id w.auctions ≡ some row)
          × IsAcceptable now buyer_id amount row
          × (run.0 ≡ next (BidAnswer.placed bid_id))
          × (run.1.auctions ≡ insert auction_id (raised row amount) w.auctions)
          × (run.1.bids ≡ insert bid_id (new_bid now auction_id buyer_id amount) w.bids)
          × (run.1.notifications
              ≡ notify_seller now row.seller_id auction_id
                  (Notice.bid_received row.title (row.bid_count + 1) amount)
                  (w.notifications
                    ++ notify_outbid now buyer_id
                        (Notice.bid_outbid row.title amount)
                        (prev_highest q auction_id row w)
                        w)))
  unfolding place_bid write_bid refusal
  place_bid_cases = elim (Option-cases (lookup auction_id w.auctions)) [
    | inl missing ↦ inl (ground arith)
    | inr (row, found) ↦ elim (Option-cases (refusal now buyer_id amount row)) [
      | inl fine ↦ inr (
        row,
        found,
        refusal-none now buyer_id amount row fine,
        ground arith,
        ground arith,
        ground arith,
        ground arith,
      )
      | inr (r, refused) ↦ inl (ground arith)
    ]
  ]
