-- ===== src/Recovery/Relist.antt =====
-- The second half of src/services/auction-control.service.ts: a new listing for an unpaid sale, with
-- its retry on a duplicate listing code, and an admin's takedown of a listing. The random listing
-- codes and the new rows' ids are arguments.
use bidvault_backend.Common.{
  ℕ, [], ◌∷◌, String, List, Option, ◌+◌, some, none, ◌*◌, ◌==◌, insert, ◌++◌, lookup, not, is_some,
  if◌then◌else◌, true,
}
use bidvault_backend.Recovery.{is_original_listing_removed, relisted_as, cancel_auction}
use bidvault_backend.Store.Queries.{BidQueries}
use bidvault_backend.Store.{
  World, Listing, ListingStatus, Tx, Auction, ◌>>=◌, transaction, threw, pure, find_by,
  AuctionStatus, next, require, gets, Effect, ◌>>◌, answer, Notice, return_if, is_sale_voided,
  is_listing_approved, modify, or_throw, audit, AuditAction, notify, send, is_auction_active, Flow,
}
use bidvault_backend.Fulfillment.{day_ms, ignoring}
use bidvault_backend.Closing.{note}

pub data RelistAnswer : Type 0 where
  ok : (listing_id auction_id : ℕ) → RelistAnswer
  not_found forbidden wrong_state : RelistAnswer

-- One attempt: an answer, or one of the two unique violations of `listing.create`.
pub data RelistOnce : Type 0 where
  created : (listing_id auction_id end_time : ℕ) → RelistOnce
  refused : RelistAnswer → RelistOnce
  duplicate_code duplicate_relist : RelistOnce

abbrev pub relisted_copy : ℕ → ℕ → Listing → Listing
relisted_copy code original_id original = record original {
  listing_code = code;
  relisted_from_id = some original_id;
  status = ListingStatus.approved;
  rejection_reason = none;
}

abbrev pub relisted_auction : ℕ → ℕ → ℕ → Listing → Auction
relisted_auction listing_id start_time end_time listing = record {
  listing_id = listing_id;
  seller_id = listing.seller_id;
  title = listing.title;
  category = listing.category;
  condition = listing.condition;
  description = listing.description;
  image_url = listing.image_url;
  emoji = listing.emoji;
  start_price = listing.start_price;
  reserve_price = listing.reserve_price;
  reserve_met = none;
  min_increment = listing.min_increment;
  current_bid = listing.start_price;
  bid_count = 0;
  attributes = listing.attributes;
  status = AuctionStatus.active;
  start_time = start_time;
  end_time = end_time;
}

-- The ids of the two new rows.
pub record NewIds : Type 0 where
  pub listing_id : ℕ
  pub auction_id : ℕ

unfoldable pub write_relist : ℕ → NewIds → ℕ → ℕ → ℕ → Listing → World → World
write_relist start_time ids code seller_id original_id original w =
    let listing = relisted_copy code original_id original in
    let end_time = start_time + original.duration_days * day_ms in
    record w {
      listings = insert ids.listing_id listing w.listings;
      auctions =
          insert ids.auction_id (relisted_auction ids.listing_id start_time end_time listing)
            w.auctions;
      notifications =
          w.notifications
          ++ note start_time seller_id (Notice.listing_relisted original.title) ∷ [];
    }

unfoldable pub relist_once : ℕ → NewIds → ℕ → ℕ → ℕ → Tx RelistOnce RelistOnce
unfolding is_original_listing_removed write_relist
relist_once start_time ids code transaction_id seller_id = transaction (do
  row ←
      require (← gets (λ w. lookup transaction_id w.sales))
        (RelistOnce.refused RelistAnswer.not_found)
  return_if (not (row.seller_id == seller_id)) (RelistOnce.refused RelistAnswer.forbidden)
  return_if (not (is_sale_voided row.status)) (RelistOnce.refused RelistAnswer.wrong_state)
  auction ← or_throw (← gets (λ w. lookup row.auction_id w.auctions))
  original ← or_throw (← gets (λ w. lookup auction.listing_id w.listings))
  return_if (← gets (is_original_listing_removed auction.listing_id))
      (RelistOnce.refused RelistAnswer.wrong_state)
  return_if (← gets (λ w. is_some (find_by (λ l. l.listing_code == code) w.listings)))
      RelistOnce.duplicate_code
  return_if (← gets (λ w. is_some (relisted_as auction.listing_id w))) RelistOnce.duplicate_relist
  modify (write_relist start_time ids code seller_id auction.listing_id original)
  pure (
      RelistOnce.created ids.listing_id ids.auction_id
        (start_time + original.duration_days * day_ms)))

-- What follows one attempt: the new auction's end is scheduled, or the answer or the exception goes
-- on, or the next attempt runs, in a new transaction.
unfoldable pub after_attempt :
    Flow RelistOnce RelistOnce
    → World
    → Flow RelistAnswer RelistAnswer × World
    → Flow RelistAnswer RelistAnswer × World
after_attempt (next (RelistOnce.created l a end_time)) w retry = (
  next (RelistAnswer.ok l a),
  record w { effects = w.effects ++ Effect.schedule_auction_end a end_time ∷ [] },
)
after_attempt (answer (RelistOnce.refused r)) w retry = (answer r, w)
after_attempt (answer RelistOnce.duplicate_relist) w retry = (answer RelistAnswer.wrong_state, w)
after_attempt (answer RelistOnce.duplicate_code) w retry = retry
after_attempt _ w retry = (threw, w)

-- `relistFromVoidedTransaction`: one attempt for each code that `generateListingCode` gives, three in
-- the source; an exception when the last one is a duplicate too.
unfoldable pub relist : ℕ → NewIds → List ℕ → ℕ → ℕ → Tx RelistAnswer RelistAnswer
unfolding after_attempt
relist start_time ids [] transaction_id seller_id w = (threw, w)
relist start_time ids (code ∷ codes) transaction_id seller_id w =
    let attempt = relist_once start_time ids code transaction_id seller_id w in
    after_attempt attempt.0 attempt.1 (relist start_time ids codes transaction_id seller_id w)

pub data TakedownAnswer : Type 0 where
  ok not_found wrong_state : TakedownAnswer

-- The auction of a listing: `Auction.listingId` is unique.
abbrev pub auction_of : ℕ → World → Option (ℕ × Auction)
auction_of listing_id w = find_by (λ a. a.listing_id == listing_id) w.auctions

abbrev pub removed_listing : String → Listing → Listing
removed_listing reason l = record l {
  status = ListingStatus.removed;
  rejection_reason = some reason;
}

unfoldable pub cancel_if_active :
    BidQueries → ℕ → ℕ → String → Option (ℕ × Auction) → Tx TakedownAnswer (Unit {0})
cancel_if_active q now admin_user_id reason none = pure tt
cancel_if_active q now admin_user_id reason (some (auction_id, a)) =
    if is_auction_active a.status
    then ignoring (
        cancel_auction q now auction_id
          (record { user_id = admin_user_id; is_admin = true; reason = reason }))
    else pure tt

-- `for_cancel` is the reason that the cancellation gives: 'Listing removed: ' and the admin's own.
unfoldable pub takedown_listing :
    BidQueries → ℕ → ℕ → ℕ → String → String → Tx TakedownAnswer TakedownAnswer
unfolding cancel_if_active
takedown_listing q now listing_id admin_user_id reason for_cancel = do
  listing ← require (← gets (λ w. lookup listing_id w.listings)) TakedownAnswer.not_found
  auction ← gets (auction_of listing_id)
  return_if (not (is_listing_approved listing.status)) TakedownAnswer.wrong_state
  modify
      (λ w. record w { listings = insert listing_id (removed_listing reason listing) w.listings })
  audit (record {
    actor_user_id = some admin_user_id;
    action = AuditAction.listing_removed_action;
    entity_id = listing_id;
    note = reason;
  })
  notify (note now listing.seller_id (Notice.listing_removed listing.title reason))
  cancel_if_active q now admin_user_id for_cancel auction
  send (Effect.email_taken_down listing.seller_id reason)
  pure TakedownAnswer.ok
