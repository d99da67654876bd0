-- ===== src/Bidding/Books.antt =====
-- The denormalised columns of an auction, `currentBid` and `bidCount`, and the bids that they
-- summarise.
use bidvault_backend.Common.{
  ℕ, Bool, lookup, Table, ◌==◌, ◌≡◌, ◌≤◌, count, ◌≢◌, some, ◌+◌, ◌<◌, ◌++◌, ◌∷◌, arith, [],
  count-append, refl, none, inl, subst, Memᴰ, sym, inr, insert_new, insert_cases, count-pos,
}
use bidvault_backend.Store.Queries.{
  BidRow, best, best-append, BidQueries, amount-le-best, best_of_count,
}
use bidvault_backend.Store.{World, Auction, Bid, next}
use bidvault_backend.Bidding.{place_bid, BidAnswer, new_bid, raised}
use bidvault_backend.Bidding.Acceptance.{place_bid_cases, placed_iff, IsAcceptable}

abbrev pub on_auction : ℕ → BidRow → Bool
on_auction auction_id (i, b) = b.auction_id == auction_id

-- The two columns agree with the bids on the auction.
pub record IsBook (auction_id : ℕ) (row : Auction) (bids : Table Bid) : Type 0 where
  pub counted : row.bid_count ≡ count (on_auction auction_id) bids
  pub opening : row.bid_count ≡ 0 → row.current_bid ≡ row.start_price
  pub leading : 0 < row.bid_count → row.current_bid ≡ best (on_auction auction_id) bids
  pub from_start : row.start_price ≤ row.current_bid

abbrev pub AreBooks : World → Type 0
AreBooks w =
    (auction_id : ℕ) (row : Auction)
    → lookup auction_id w.auctions ≡ some row
    → IsBook auction_id row w.bids

-- One more bid, at or above the floor, on the auction's own book.
IsBook-bid :
    (auction_id bid_id : ℕ) (row : Auction) (bids : Table Bid) (b : Bid)
    → IsBook auction_id row bids
    → b.auction_id ≡ auction_id
    → row.current_bid ≤ b.amount
    → IsBook auction_id (raised row b.amount) (bids ++ (bid_id, b) ∷ [])
IsBook-bid auction_id bid_id row bids b h e above = ground (
  arith,
  count-append (on_auction auction_id) bids ((bid_id, b) ∷ []),
  best-append (on_auction auction_id) bids ((bid_id, b) ∷ []),
  best_of_count (on_auction auction_id) bids,
)

IsBook-other :
    (auction_id bid_id : ℕ) (row : Auction) (bids : Table Bid) (b : Bid)
    → IsBook auction_id row bids
    → b.auction_id ≢ auction_id
    → IsBook auction_id row (bids ++ (bid_id, b) ∷ [])
IsBook-other auction_id bid_id row bids b h e = ground (
  arith,
  count-append (on_auction auction_id) bids ((bid_id, b) ∷ []),
  best-append (on_auction auction_id) bids ((bid_id, b) ∷ []),
)

module _ (q : BidQueries) (live : Bool) (now bid_id auction_id buyer_id amount : ℕ)
    (w : World) where
  -- A bid with a new id, placed or not, keeps every auction's columns in step with its bids: the
  -- count is the number of bids, and the current bid is the start price or the highest bid.
  pub place_bid-AreBooks :
      AreBooks w
      → lookup bid_id w.bids ≡ none
      → AreBooks (place_bid q live now bid_id auction_id buyer_id amount w).1
  place_bid-AreBooks books fresh =
      elim (place_bid_cases q live now bid_id auction_id buyer_id amount w) [
        | inl (_, same) ↦ subst AreBooks (sym same) books
        | inr (row, found, fine, _, auctions, bids, _) ↦ λ a r e.
            rw (bids, insert_new bid_id (new_bid now auction_id buyer_id amount) w.bids fresh)
              (elim (insert_cases auction_id a (raised row amount) w.auctions (rw auctions at e)) [
                | inl (ae, re) ↦
                    rw (ae, re)
                      (IsBook-bid auction_id bid_id row w.bids
                        (new_bid now auction_id buyer_id amount) (books auction_id row found) refl
                        (ground (arith, fine.first_bid, fine.later_bid)))
                | inr (ne, old) ↦
                    IsBook-other a bid_id r w.bids (new_bid now auction_id buyer_id amount)
                      (books a r old) (λ h. ne (sym h))
              ])
      ]

  -- A placed bid is above every earlier bid on the auction by the increment at least.
  pub placed_outbids_all :
      AreBooks w
      → (row : Auction) → lookup auction_id w.auctions ≡ some row
      → (place_bid q live now bid_id auction_id buyer_id amount w).0
        ≡ next (BidAnswer.placed bid_id)
      → {r : BidRow} → Memᴰ r w.bids
      → r.1.auction_id ≡ auction_id
      → r.1.amount + row.min_increment ≤ amount
  placed_outbids_all books row found done {r} m e =
      let book = books auction_id row found in
      let fine : IsAcceptable now buyer_id amount row =
        (placed_iff q live now bid_id auction_id buyer_id amount w row found).0 done in
      ground (
        arith,
        amount-le-best (on_auction auction_id) w.bids m,
        count-pos (on_auction auction_id) w.bids m,
      )
