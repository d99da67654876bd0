-- ===== src/Recovery.antt =====
-- src/services/auction-control.service.ts: an auction that is cancelled, a sale that is not paid,
-- and the two ways to recover it (an offer to the next bidder, a new listing), and a takedown.
pub mod Relist
pub mod Overdue
pub mod Offers
use bidvault_backend.Common.{
  ℕ, [], ◌∷◌, List, Bool, Table, if◌then◌else◌, Option, lookup, String, some, ◌++◌, ◌&&◌, none, ltb,
  ◌==◌, count, ◌+◌, false, ◌*◌, not, ◌||◌, map, is_none, contains, is_some, insert,
}
use bidvault_backend.Store.Queries.{BidQueries, BidRow, best}
use bidvault_backend.Store.{
  Tx, World, Auction, Sale, is_sale_pending, AuctionStatus, ◌>>=◌, Notification, TransactionStatus,
  transaction, Listing, Notice, find_by, require, is_listing_removed, gets, ◌>>◌, return_if,
  is_auction_active, is_sale_voided, or_throw, audit, modify, AuditAction, pure, notify, send,
  Effect,
}
use bidvault_backend.Closing.{narrow, WinBid, payment_due_at_from, note, hour_ms, can_win}
use bidvault_backend.Fulfillment.{write_sale}

pub data CancelAnswer : Type 0 where
  ok not_found forbidden wrong_state has_bids : CancelAnswer

-- Who cancels: the seller or an admin.
pub record Actor : Type 0 where
  pub user_id : ℕ
  pub is_admin : Bool
  pub reason : String

abbrev cancel_notices : ℕ → Actor → Auction → List ℕ → List Notification
cancel_notices now actor row bidders =
    note now row.seller_id (
      if actor.is_admin
      then Notice.auction_cancelled_by_admin row.title actor.reason
      else Notice.auction_cancelled_by_seller row.title)
    ∷ map (λ u. note now u (Notice.auction_cancelled_bidder row.title actor.reason)) bidders

abbrev pub cancelled_row : Auction → Auction
cancelled_row row = record row { status = AuctionStatus.cancelled }

unfoldable pub cancel_auction : BidQueries → ℕ → ℕ → Actor → Tx CancelAnswer CancelAnswer
cancel_auction q now auction_id actor = do
  (row, bidders) ← transaction (do
    row ← require (← gets (λ w. lookup auction_id w.auctions)) CancelAnswer.not_found
    return_if (not actor.is_admin && not (row.seller_id == actor.user_id)) CancelAnswer.forbidden
    return_if (not (is_auction_active row.status)) CancelAnswer.wrong_state
    return_if (not actor.is_admin && ltb 0 row.bid_count) CancelAnswer.has_bids
    modify (λ w. record w { auctions = insert auction_id (cancelled_row row) w.auctions })
    if actor.is_admin
        then audit (record {
          actor_user_id = some actor.user_id;
          action = AuditAction.auction_cancelled;
          entity_id = auction_id;
          note = actor.reason;
        })
        else pure tt
    bidders ← gets (λ w. q.distinct_buyers (can_win auction_id) w.bids)
    modify
        (λ w. record w { notifications = w.notifications ++ cancel_notices now actor row bidders })
    pure (row, bidders))
  send (Effect.cancel_scheduled_job auction_id)
  send (Effect.emit_auction_cancelled auction_id row.title actor.reason)
  send (Effect.email_auction_cancelled row.seller_id actor.reason actor.is_admin bidders)
  pure CancelAnswer.ok

-- Whether a waiting sale has run out of time; a sale with no due date is measured from `createdAt`.
unfoldable pub is_payment_overdue : Sale → ℕ → ℕ → Bool
is_payment_overdue row now payment_deadline_hours = elim row.payment_due_at [
  | some due ↦ ltb due now
  | none ↦ ltb (row.created_at + payment_deadline_hours * hour_ms) now
]

-- `where: { status, OR: [{ paymentDueAt: { lt: now } }, { paymentDueAt: null, createdAt: { lt: cutoff } }] }`
unfoldable pub overdue_where : ℕ → ℕ → Sale → Bool
overdue_where now payment_deadline_hours row =
    is_sale_pending row.status
    && ((elim row.payment_due_at [ none ↦ false | some due ↦ ltb due now ])
        || (is_none row.payment_due_at
            && ltb (row.created_at + payment_deadline_hours * hour_ms) now))

abbrev pub ids_where : {V : Type 0} → (V → Bool) → Table V → List ℕ
ids_where p [] = []
ids_where p ((k, v) ∷ t) = if p v then k ∷ ids_where p t else ids_where p t

unfoldable pub find_overdue_payments : ℕ → ℕ → World → List ℕ
unfolding overdue_where
find_overdue_payments now payment_deadline_hours w =
    ids_where (overdue_where now payment_deadline_hours) w.sales

pub data VoidOverdueAnswer : Type 0 where
  ok not_found wrong_state : VoidOverdueAnswer

abbrev pub voided_sale : Sale → Sale
voided_sale row = record row { status = TransactionStatus.voided; last_payment_error = none }

unfoldable pub void_overdue_payment : ℕ → ℕ → ℕ → Tx VoidOverdueAnswer VoidOverdueAnswer
unfolding is_payment_overdue
void_overdue_payment now payment_deadline_hours transaction_id = do
  row ← transaction (do
    row ← require (← gets (λ w. lookup transaction_id w.sales)) VoidOverdueAnswer.not_found
    return_if (not (is_sale_pending row.status)) VoidOverdueAnswer.wrong_state
    return_if (not (is_payment_overdue row now payment_deadline_hours))
        VoidOverdueAnswer.wrong_state
    write_sale transaction_id (voided_sale row)
    audit (record {
      actor_user_id = none;
      action = AuditAction.transaction_voided_overdue;
      entity_id = transaction_id;
      note = "Payment deadline exceeded";
    })
    pure row)
  send (Effect.email_payment_voided row.winner_id row.seller_id row.final_amount)
  pure VoidOverdueAnswer.ok

-- `where: { AND: [{ auctionId }, { buyerId: { not: null } }, { buyerId: { notIn: excludeBuyerIds } }] }`
abbrev pub is_next : ℕ → List ℕ → BidRow → Bool
is_next auction_id exclude_buyer_ids (i, b) =
    b.auction_id == auction_id
    && (elim b.buyer_id [ none ↦ false | some u ↦ not (contains u exclude_buyer_ids) ])

unfoldable pub find_next_bid : BidQueries → ℕ → List ℕ → World → Option BidRow
find_next_bid q auction_id exclude_buyer_ids w = q.top (is_next auction_id exclude_buyer_ids) w.bids

-- The same choice in SQL, as the amount only: `max(b.amount)`, and no entry where it is NULL.
unfoldable pub find_next_bid_amounts : List (ℕ × List ℕ) → World → List (ℕ × ℕ)
find_next_bid_amounts [] w = []
find_next_bid_amounts ((auction_id, exclude_buyer_ids) ∷ sales) w =
    if count (is_next auction_id exclude_buyer_ids) w.bids == 0
    then find_next_bid_amounts sales w
    else (auction_id, best (is_next auction_id exclude_buyer_ids) w.bids)
      ∷ find_next_bid_amounts sales w

unfoldable pub is_original_listing_removed : ℕ → World → Bool
is_original_listing_removed listing_id w = elim (lookup listing_id w.listings) [
  | none ↦ false
  | some l ↦ is_listing_removed l.status
]

pub data OfferAnswer : Type 0 where
  ok not_found forbidden wrong_state no_other_bidder : OfferAnswer

-- The unique key `Listing.relistedFromId`.
abbrev pub relisted_as : ℕ → World → Option (ℕ × Listing)
relisted_as listing_id w =
    find_by (λ l. elim l.relisted_from_id [ none ↦ false | some o ↦ o == listing_id ]) w.listings

-- Everyone the sale was already taken away from, and its present winner.
abbrev pub already_offered : Sale → List ℕ
already_offered row = row.previous_winner_ids ++ row.winner_id ∷ []

abbrev pub offered_sale : ℕ → Sale → WinBid → Sale
offered_sale due row win = record row {
  winner_id = win.buyer_id;
  previous_winner_ids = already_offered row;
  final_amount = win.amount;
  status = TransactionStatus.pending;
  payment_due_at = some due;
  payment_reference = none;
  paid_at = none;
  last_payment_error = none;
  delivery_address = none;
  delivery_phone = none;
  shipped_at = none;
}

unfoldable pub offer_to_next_bidder : BidQueries → ℕ → ℕ → ℕ → ℕ → Tx OfferAnswer OfferAnswer
offer_to_next_bidder q now payment_deadline_hours transaction_id seller_id = do
  win ← transaction (do
    row ← require (← gets (λ w. lookup transaction_id w.sales)) OfferAnswer.not_found
    return_if (not (row.seller_id == seller_id)) OfferAnswer.forbidden
    return_if (not (is_sale_voided row.status)) OfferAnswer.wrong_state
    auction ← or_throw (← gets (λ w. lookup row.auction_id w.auctions))
    return_if (← gets (λ w. is_some (relisted_as auction.listing_id w))) OfferAnswer.wrong_state
    return_if (← gets (is_original_listing_removed auction.listing_id)) OfferAnswer.wrong_state
    win ←
        require (← gets (λ w. narrow w (find_next_bid q row.auction_id (already_offered row) w)))
          OfferAnswer.no_other_bidder
    write_sale transaction_id
        (offered_sale (payment_due_at_from now payment_deadline_hours) row win)
    notify (note now win.buyer_id (Notice.second_chance_offer auction.title win.amount))
    pure win)
  send (Effect.email_second_chance win.buyer_id win.amount)
  pure OfferAnswer.ok
