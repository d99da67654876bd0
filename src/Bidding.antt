-- ===== src/Bidding.antt =====
-- POST /auctions/:auctionId/bids (src/modules/auctions/auctions.routes.ts): the whole handler, from
-- the row lock to the answer. `live` says that the app has a socket server.
pub mod Acceptance
pub mod Books
pub mod SellerNotices
use bidvault_backend.Common.{
  ℕ, ◌+◌, ◌*◌, min, max, Bool, true, false, not, ◌&&◌, ◌||◌, Option, none, some, List, [], ◌∷◌,
  ◌++◌, ◌==◌, ltb, leb, if◌then◌else◌, lookup, insert, is_some,
}
use bidvault_backend.Store.{
  User, Auction, Bid, Notice, Notification, Effect, World, Tx, pure, return, throw, gets, require,
  return_if, modify, notify, send, transaction, ◌>>=◌, ◌>>◌, is_auction_active,
}
use bidvault_backend.Store.Queries.{BidQueries, BidRow}

-- The handler's answers: 201 with the bid, or a `BidError`.
pub data BidAnswer : Type 0 where
  placed : (bid_id : ℕ) → BidAnswer
  not_found own_auction bidding_closed already_ended : BidAnswer
  below_minimum above_maximum : (limit : ℕ) → BidAnswer

abbrev pub max_stored_money : ℕ
max_stored_money = 2000000000

unfoldable pub min_allowed : Auction → ℕ
min_allowed row =
    if row.bid_count == 0 then row.current_bid else row.current_bid + row.min_increment

unfoldable pub max_allowed : Auction → ℕ
unfolding min_allowed
max_allowed row =
    min max_stored_money
      (max (min_allowed row) (max (row.current_bid * 10) (row.start_price * 100)))

-- The bid that led before this one.
unfoldable pub prev_highest : BidQueries → ℕ → Auction → World → Option BidRow
prev_highest q auction_id row w =
    if ltb 0 row.bid_count
    then q.latest (λ (i, b). b.auction_id == auction_id && b.amount == row.current_bid) w.bids
    else none

-- Tells the bidder who was outbid: not an anonymised one, not the new bidder, and only who wants it.
unfoldable pub notify_outbid : ℕ → ℕ → Notice → Option BidRow → World → List Notification
notify_outbid now buyer_id notice none w = []
notify_outbid now buyer_id notice (some (i, b)) w = elim b.buyer_id [
  | none ↦ []
  | some u ↦ elim (lookup u w.users) [
    | none ↦ []
    | some recipient ↦
        if not (u == buyer_id) && recipient.notify_outbid
        then record {
          user_id = u;
          notice = notice;
          is_read = false;
          auction_id = none;
          created_at = now;
        }
          ∷ []
        else []
  ]
]

abbrev is_bid_received : Notice → Bool
is_bid_received (Notice.bid_received title n amount) = true
is_bid_received _ = false

-- The seller's unread notification of bids on this auction.
unfoldable pub is_open_notice : ℕ → ℕ → Notification → Bool
is_open_notice seller_id auction_id n =
    n.user_id == seller_id
    && is_bid_received n.notice
    && (elim n.auction_id [ none ↦ false | some a ↦ a == auction_id ])
    && not n.is_read

-- `updateMany`: every open notification of the auction takes the new text.
unfoldable pub refresh_notices :
    (Notification → Bool) → Notice → ℕ → List Notification → List Notification
refresh_notices p notice now [] = []
refresh_notices p notice now (n ∷ ns) =
    (if p n then record n { notice = notice; created_at = now } else n)
    ∷ refresh_notices p notice now ns

abbrev any_open : (Notification → Bool) → List Notification → Bool
any_open p [] = false
any_open p (n ∷ ns) = if p n then true else any_open p ns

abbrev pub fresh_notice : ℕ → ℕ → ℕ → Notice → Notification
fresh_notice now seller_id auction_id notice = record {
  user_id = seller_id;
  notice = notice;
  is_read = false;
  auction_id = some auction_id;
  created_at = now;
}

-- One unread notification for each auction is kept up to date; a fresh one if there is none.
unfoldable pub notify_seller : ℕ → ℕ → ℕ → Notice → List Notification → List Notification
unfolding is_open_notice refresh_notices
notify_seller now seller_id auction_id notice ns =
    if any_open (is_open_notice seller_id auction_id) ns
    then refresh_notices (is_open_notice seller_id auction_id) notice now ns
    else ns ++ fresh_notice now seller_id auction_id notice ∷ []

-- The refusals, in the order of the code: `none` lets the bid through.
unfoldable pub refusal : ℕ → ℕ → ℕ → Auction → Option BidAnswer
unfolding min_allowed max_allowed
refusal now buyer_id amount row =
    if row.seller_id == buyer_id
    then some BidAnswer.own_auction
    else if not (is_auction_active row.status)
    then some BidAnswer.bidding_closed
    else if leb row.end_time now
    then some BidAnswer.already_ended
    else if ltb amount (min_allowed row)
    then some (BidAnswer.below_minimum (min_allowed row))
    else if ltb (max_allowed row) amount
    then some (BidAnswer.above_maximum (max_allowed row))
    else none

-- The auction's row after `tx.auction.update`.
abbrev pub raised : Auction → ℕ → Auction
raised row amount = record row { current_bid = amount; bid_count = row.bid_count + 1 }

-- The row that `tx.bid.create` writes.
abbrev pub new_bid : ℕ → ℕ → ℕ → ℕ → Bid
new_bid now auction_id buyer_id amount = record {
  auction_id = auction_id;
  buyer_id = some buyer_id;
  amount = amount;
  created_at = now;
}

-- What a bid that is let through writes.
unfoldable pub write_bid : BidQueries → ℕ → ℕ → ℕ → ℕ → ℕ → Auction → World → World
unfolding prev_highest notify_outbid notify_seller
write_bid q now bid_id auction_id buyer_id amount row w =
    let prev = prev_highest q auction_id row w in
    record w {
      bids = insert bid_id (new_bid now auction_id buyer_id amount) w.bids;
      auctions = insert auction_id (raised row amount) w.auctions;
      notifications =
          notify_seller now row.seller_id auction_id
            (Notice.bid_received row.title (row.bid_count + 1) amount)
            (w.notifications
              ++ notify_outbid now buyer_id (Notice.bid_outbid row.title amount) prev w);
    }

-- `findIndex(…) + 1`: 0 for a buyer who is not in the list.
abbrev index_from : ℕ → ℕ → List ℕ → ℕ
index_from i u [] = 0
index_from i u (x ∷ xs) = if x == u then i else index_from (i + 1) u xs

-- The broadcasts and the mail after the commit.
unfoldable pub announce_bid : BidQueries → Bool → ℕ → ℕ → ℕ → ℕ → Auction → World → List Effect
announce_bid q live bid_id auction_id buyer_id amount row w =
    (if live
      then Effect.emit_bid_received row.seller_id auction_id (row.bid_count + 1) amount
        ∷ Effect.emit_bid_placed auction_id bid_id amount (
            index_from 1 buyer_id (q.distinct_buyers (λ (i, b). b.auction_id == auction_id) w.bids))
        ∷ []
      else [])
    ++ Effect.email_bid_placed buyer_id auction_id amount ∷ []

unfoldable pub place_bid : BidQueries → Bool → ℕ → ℕ → ℕ → ℕ → ℕ → Tx BidAnswer BidAnswer
unfolding refusal write_bid announce_bid
place_bid q live now bid_id auction_id buyer_id amount = do
  row ← transaction (do
    row ← require (← gets (λ w. lookup auction_id w.auctions)) BidAnswer.not_found
    elim (refusal now buyer_id amount row) [ none ↦ pure tt | some r ↦ return r ]
    modify (write_bid q now bid_id auction_id buyer_id amount row)
    pure row)
  modify (λ w. record w {
    effects = w.effects ++ announce_bid q live bid_id auction_id buyer_id amount row w;
  })
  pure (BidAnswer.placed bid_id)
