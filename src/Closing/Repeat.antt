-- ===== src/Closing/Repeat.antt =====
-- Closing twice, and closing an auction that was cancelled before its job ran.
use bidvault_backend.Common.{
  ℕ, lookup, ◌≡◌, some, true, none, false, ◌<◌, ◌==◌, arith, count, lookup-insert_self, lt→ltb,
  refl,
}
use bidvault_backend.Closing.{
  close_auction, CloseResult, can_win, closed_row, new_sale, payment_due_at_from, already,
}
use bidvault_backend.Store.Queries.{BidQueries, IsLawful}
use bidvault_backend.Store.{
  World, Auction, is_auction_closed, Flow, AuctionStatus, find_by, Sale, TransactionStatus, answer,
}
use bidvault_backend.Closing.Outcome.{BuyersExist, close_outcome, met_by, top_bid, sells}

-- A closed auction is left alone, whatever the job's arguments.
module _ (q : BidQueries) (now sale_id payment_deadline_hours auction_id : ℕ) (w : World)
    {row : Auction} (found : lookup auction_id w.auctions ≡ some row)
    (shut : is_auction_closed row.status ≡ true) where
  abbrev again : Flow CloseResult CloseResult × World
  again = close_auction q now sale_id payment_deadline_hours auction_id w

  again_result : again.0 ≡ answer already
  unfolding close_auction
  again_result = ground arith

  again_world : again.1 ≡ w
  unfolding close_auction
  again_world = ground arith

  pub close_closed : again ≡ (answer already, w)
  close_closed = λ i. (again_result i, again_world i)

module _ {q : BidQueries} (lawful : IsLawful q) (now sale_id payment_deadline_hours auction_id : ℕ)
    (w : World) (buyers : BuyersExist w) (row : Auction)
    (found : lookup auction_id w.auctions ≡ some row) where
  abbrev first_run : Flow CloseResult CloseResult × World
  first_run = close_auction q now sale_id payment_deadline_hours auction_id w

  -- After a close of an auction with no sale yet, a second job for the same auction, at any time,
  -- answers that it was closed already and changes nothing: it writes no second sale.
  pub close_twice :
      is_auction_closed row.status ≡ false
      → find_by (λ s. s.auction_id == auction_id) w.sales ≡ none
      → (now' sale_id' hours' : ℕ)
      → close_auction q now' sale_id' hours' auction_id first_run.1 ≡ (answer already, first_run.1)
  close_twice due unsold now' sale_id' hours' =
      let (_, auctions, _, _) =
        close_outcome lawful now sale_id payment_deadline_hours auction_id w buyers row found due
          unsold in
      close_closed q now' sale_id' hours' auction_id first_run.1
        {row = closed_row (met_by row.reserve_price (top_bid auction_id w)) row}
        (rw auctions (lookup-insert_self auction_id _ w.auctions)) refl

  -- The job does not look for CANCELLED: run on a cancelled auction with no reserve and a bid by a
  -- known buyer, it closes the auction and writes a pending sale at the highest such bid.
  pub cancelled_sells :
      row.status ≡ AuctionStatus.cancelled
      → row.reserve_price ≡ none
      → 0 < count (can_win auction_id) w.bids
      → find_by (λ s. s.auction_id == auction_id) w.sales ≡ none
      → (lookup auction_id first_run.1.auctions ≡ some (closed_row none row))
        × (sale : Sale) × (lookup sale_id first_run.1.sales ≡ some sale)
        × (sale.status ≡ TransactionStatus.pending)
        × (sale.final_amount ≡ top_bid auction_id w)
  cancelled_sells gone open_price bids unsold =
      let due : is_auction_closed row.status ≡ false = rw gone in
      let sold : sells auction_id row.reserve_price w ≡ true = rw (open_price, lt→ltb _ _ bids) in
      let (_, auctions, _, sale) =
        close_outcome lawful now sale_id payment_deadline_hours auction_id w buyers row found due
          unsold in
      let (win, top, _, sales) = sale sold in
      (
        rw (auctions, open_price) (lookup-insert_self auction_id _ w.auctions),
        new_sale now (payment_due_at_from now payment_deadline_hours) auction_id row.seller_id win,
        rw sales (lookup-insert_self sale_id _ w.sales),
        refl,
        top,
      )
