-- ===== src/Closing.antt =====
-- closeAuction (src/workers/close-auction.ts): the job that decides an auction's outcome, writes it
-- and tells both parties. `auction` is the row read before the transaction, `locked` the row that
-- the transaction locks; the two may differ, as another transaction may commit between the reads.
pub mod Outcome
pub mod Repeat
use bidvault_backend.Common.{
  ℕ, [], ◌∷◌, Option, true, Bool, ◌+◌, none, some, lookup, ◌==◌, false, ◌*◌, leb, if◌then◌else◌,
  ◌&&◌, is_some, not, or_else, insert,
}
use bidvault_backend.Store.Queries.{BidQueries, BidRow}
use bidvault_backend.Store.{
  Auction, World, Sale, Notice, TransactionStatus, Notification, AuctionStatus, Tx, Effect, pure,
  ◌>>◌, ◌>>=◌, notify, transaction, require, gets, return_if, throw_if, find_by, is_auction_closed,
  modify, send,
}

pub record CloseResult : Type 0 where
  pub already_closed : Bool
  pub reserve_met : Option Bool
  pub sold : Bool

-- A bid whose buyer is still known.
pub record WinBid : Type 0 where
  pub buyer_id : ℕ
  pub amount : ℕ

-- `where: { auctionId, buyerId: { not: null } }`
abbrev pub can_win : ℕ → BidRow → Bool
can_win auction_id (i, b) = b.auction_id == auction_id && is_some b.buyer_id

unfoldable pub narrow : World → Option BidRow → Option WinBid
narrow w none = none
narrow w (some (i, b)) = elim b.buyer_id [
  | none ↦ none
  | some u ↦
      if is_some (lookup u w.users) then some (record { buyer_id = u; amount = b.amount }) else none
]

unfoldable pub win_bid : BidQueries → ℕ → World → Option WinBid
unfolding narrow
win_bid q auction_id w = narrow w (q.top (can_win auction_id) w.bids)

-- `null` when no reserve is set, otherwise whether the top bid reaches it.
unfoldable pub reserve_outcome : Option ℕ → Option WinBid → Option Bool
reserve_outcome none win = none
reserve_outcome (some reserve) none = some (leb reserve 0)
reserve_outcome (some reserve) (some win) = some (leb reserve win.amount)

abbrev pub is_below : Option Bool → Bool
is_below (some false) = true
is_below _ = false

abbrev pub hour_ms : ℕ
hour_ms = 3600000

-- settings.service.ts: `paymentDueAtFrom`
unfoldable pub payment_due_at_from : ℕ → ℕ → ℕ
payment_due_at_from from payment_deadline_hours = from + payment_deadline_hours * hour_ms

abbrev pub new_sale : ℕ → ℕ → ℕ → ℕ → WinBid → Sale
new_sale now due auction_id seller_id win = record {
  auction_id = auction_id;
  winner_id = win.buyer_id;
  seller_id = seller_id;
  final_amount = win.amount;
  status = TransactionStatus.pending;
  payment_reference = none;
  last_payment_error = none;
  delivery_address = none;
  delivery_phone = none;
  shipped_at = none;
  paid_at = none;
  payment_due_at = some due;
  previous_winner_ids = [];
  created_at = now;
}

abbrev pub note : ℕ → ℕ → Notice → Notification
note now user_id notice = record {
  user_id = user_id;
  notice = notice;
  is_read = false;
  auction_id = none;
  created_at = now;
}

-- The winner's preference, and true where the row is missing.
abbrev notify_wins : ℕ → World → Bool
notify_wins u w = elim (lookup u w.users) [ none ↦ true | some user ↦ user.notify_wins ]

-- What the transaction writes for the outcome; the answer says whether to mail the winner.
unfoldable pub settle : ℕ → ℕ → ℕ → ℕ → Auction → Option WinBid → Option Bool → Tx CloseResult Bool
unfolding payment_due_at_from
settle now sale_id payment_deadline_hours auction_id auction none met = pure true
settle now sale_id payment_deadline_hours auction_id auction (some win) met =
    if is_below met
    then (do
      notify (
          note now auction.seller_id (
            Notice.reserve_not_met_seller auction.title win.amount
              (or_else auction.reserve_price 0)))
      notify (note now win.buyer_id (Notice.reserve_not_met_bidder auction.title win.amount))
      pure true)
    else (do
      notify_winner ← gets (notify_wins win.buyer_id)
      throw_if (← gets (λ w. is_some (find_by (λ s. s.auction_id == auction_id) w.sales)))
      modify (λ w. record w {
        sales =
            insert sale_id
              (new_sale now (payment_due_at_from now payment_deadline_hours) auction_id
                auction.seller_id win)
              w.sales;
      })
      if notify_winner
          then notify (note now win.buyer_id (Notice.auction_won auction.title win.amount))
          else pure tt
      pure notify_winner)

abbrev pub closed_row : Option Bool → Auction → Auction
closed_row met locked = record locked { status = AuctionStatus.closed; reserve_met = met }

abbrev result_of : Option WinBid → Option Bool → CloseResult
result_of win met = record {
  already_closed = false;
  reserve_met = met;
  sold = is_some win && not (is_below met);
}

-- The mail after the commit.
unfoldable pub mail_outcome : Auction → Option WinBid → Option Bool → ℕ → Bool → Effect
mail_outcome auction none met bid_count notify_winner =
    Effect.email_auction_ended auction.seller_id none bid_count notify_winner
mail_outcome auction (some win) met bid_count notify_winner =
    if is_below met
    then Effect.email_reserve_not_met auction.seller_id win.buyer_id
        (or_else auction.reserve_price 0) bid_count win.amount
    else Effect.email_auction_ended auction.seller_id (some (win.buyer_id, win.amount)) bid_count
        notify_winner

abbrev pub already : CloseResult
already = record { already_closed = true; reserve_met = none; sold = false }

-- Everything after the first read.
unfoldable pub close_read : BidQueries → ℕ → ℕ → ℕ → ℕ → Auction → Tx CloseResult CloseResult
unfolding settle
close_read q now sale_id payment_deadline_hours auction_id auction = do
  (win, met, bid_count, notify_winner) ← transaction (do
    locked ← require (← gets (λ w. lookup auction_id w.auctions)) already
    return_if (is_auction_closed locked.status) already
    win ← gets (win_bid q auction_id)
    let met = reserve_outcome auction.reserve_price win
    modify (λ w. record w { auctions = insert auction_id (closed_row met locked) w.auctions })
    notify_winner ← settle now sale_id payment_deadline_hours auction_id auction win met
    pure (win, met, locked.bid_count, notify_winner))
  send (mail_outcome auction win met bid_count notify_winner)
  pure (result_of win met)

unfoldable pub close_auction : BidQueries → ℕ → ℕ → ℕ → ℕ → Tx CloseResult CloseResult
unfolding close_read
close_auction q now sale_id payment_deadline_hours auction_id = do
  auction ←
      require (← gets (λ w. lookup auction_id w.auctions))
        (record { already_closed = false; reserve_met = none; sold = false })
  close_read q now sale_id payment_deadline_hours auction_id auction
