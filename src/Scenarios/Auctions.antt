-- ===== src/Scenarios/Auctions.antt =====
-- The theorems on bids and on closing, at the auction of the lamp.
use bidvault_backend.Common.{
  ℕ, [], ◌∷◌, lookup, ◌≡◌, arith, true, none, some, inr, refl, inl, ◌↔◌, false, insert,
}
use bidvault_backend.Scenarios.Market.{with_bids, lamp_after, with_cancelled, lamp_cancelled}
use bidvault_backend.Bidding.Acceptance.{IsAcceptable, placed_iff}
use bidvault_backend.Bidding.Books.{IsBook, AreBooks, place_bid-AreBooks}
use bidvault_backend.Bidding.{place_bid, BidAnswer}
use bidvault_backend.Store.Queries.Scan.{scan_queries, scan_queries-IsLawful}
use bidvault_backend.Store.{next, Sale, TransactionStatus}
use bidvault_backend.Closing.{close_auction, closed_row, WinBid, new_sale, payment_due_at_from}
use bidvault_backend.Closing.Outcome.{BuyersExist, sells, top_bid, BidBy, close_outcome}
use bidvault_backend.Closing.Repeat.{cancelled_sells}

with_bids-IsBook : IsBook 10 lamp_after with_bids.bids
with_bids-IsBook = record {
  counted = refl;
  opening = λ h. omega arith;
  leading = λ h. refl;
  from_start = omega arith;
}

lookup_one : {V : Type 0} (k j : ℕ) (v r : V) → lookup j ((k, v) ∷ []) ≡ some r → (j ≡ k) × (r ≡ v)
unfolding lookup
lookup_one k j v r h = (ground arith, ground arith)

with_bids-AreBooks : AreBooks with_bids
with_bids-AreBooks a row e =
    let (here, same) = lookup_one 10 a lamp_after row e in rw (here, same) with_bids-IsBook

with_bids_found : lookup 10 with_bids.auctions ≡ some lamp_after
unfolding lookup
with_bids_found = refl

-- Buyer 2 comes back with 170.
fine : IsAcceptable 700 2 170 lamp_after
fine = record {
  not_own = λ h. omega arith;
  is_open = refl;
  in_time = omega arith;
  first_bid = λ h. omega arith;
  later_bid = λ h. omega arith;
  storable = omega arith;
  no_jump = inr (inl (omega arith));
}

placed_iff_example :
    ((place_bid scan_queries true 700 22 10 2 170 with_bids).0 ≡ next (BidAnswer.placed 22))
    ↔ IsAcceptable 700 2 170 lamp_after
placed_iff_example =
    placed_iff scan_queries true 700 22 10 2 170 with_bids lamp_after with_bids_found

third_placed :
    (place_bid scan_queries true 700 22 10 2 170 with_bids).0 ≡ next (BidAnswer.placed 22)
third_placed =
    (placed_iff scan_queries true 700 22 10 2 170 with_bids lamp_after with_bids_found).1 fine

no_bid_22 : lookup 22 with_bids.bids ≡ none
unfolding lookup
no_bid_22 = refl

place_bid-AreBooks_example : AreBooks (place_bid scan_queries true 700 22 10 2 170 with_bids).1
place_bid-AreBooks_example =
    place_bid-AreBooks scan_queries true 700 22 10 2 170 with_bids with_bids-AreBooks no_bid_22

with_bids-BuyersExist : BuyersExist with_bids
unfolding lookup
with_bids-BuyersExist = ((λ u e. ground arith), ((λ u e. ground arith), tt))

with_cancelled-BuyersExist : BuyersExist with_cancelled
with_cancelled-BuyersExist = with_bids-BuyersExist

-- Sold to buyer 3 for 150, with no reserve set.
close_outcome_example :
    let done = close_auction scan_queries 1000 30 24 10 with_bids in
    (done.0
      ≡ next
          (record { already_closed = false; reserve_met = none; sold = sells 10 none with_bids }))
    × (done.1.auctions ≡ insert 10 (closed_row none lamp_after) with_bids.auctions)
    × (sells 10 none with_bids ≡ false → done.1.sales ≡ [])
    × (sells 10 none with_bids ≡ true
        → (win : WinBid) × (win.amount ≡ top_bid 10 with_bids)
          × BidBy 10 with_bids win
          × (done.1.sales ≡ insert 30 (new_sale 1000 (payment_due_at_from 1000 24) 10 1 win) []))
close_outcome_example =
    close_outcome scan_queries-IsLawful 1000 30 24 10 with_bids with_bids-BuyersExist lamp_after
      with_bids_found refl refl

cancelled_found : lookup 10 with_cancelled.auctions ≡ some lamp_cancelled
unfolding lookup
cancelled_found = refl

cancelled_sells_example :
    let done = (close_auction scan_queries 1000 30 24 10 with_cancelled).1 in
    (lookup 10 done.auctions ≡ some (closed_row none lamp_cancelled))
    × (sale : Sale) × (lookup 30 done.sales ≡ some sale)
    × (sale.status ≡ TransactionStatus.pending)
    × (sale.final_amount ≡ top_bid 10 with_cancelled)
cancelled_sells_example =
    cancelled_sells scan_queries-IsLawful 1000 30 24 10 with_cancelled with_cancelled-BuyersExist
      lamp_cancelled cancelled_found refl refl (omega arith) refl
