-- ===== src/Listings/Moderation.antt =====
-- Withdrawal, approval and rejection of a listing that waits for review, and the batch of
-- approvals. A route reads the listing first, without a lock, and writes afterwards: each write is
-- a function of the row that was read, so that another request may come in between.
use bidvault_backend.Common.{
  ℕ, [], ◌∷◌, Bool, String, Table, if◌then◌else◌, some, none, Option, not, List, ◌+◌, ◌&&◌, lookup,
  ◌*◌, ◌==◌, is_some, false, true, remove, insert,
}
use bidvault_backend.Store.{
  Listing, Tx, ListingStatus, Auction, ◌>>=◌, ◌>>◌, World, transaction, or_throw, require,
  AuctionStatus, return_if, gets, is_listing_pending, is_auction_closed, send, next, Effect,
  throw_if, notify, audit, pure, AuditAction, Notice, modify, answer, threw,
}
use bidvault_backend.Listings.{ListingAnswer, write_listing}
use bidvault_backend.Fulfillment.{day_ms}
use bidvault_backend.Recovery.Relist.{auction_of}
use bidvault_backend.Recovery.{relisted_as}
use bidvault_backend.Closing.{note}

-- A listing that an auction or a relisted listing refers to cannot be deleted (a foreign key).
unfoldable pub delete_listing : ℕ → Tx ListingAnswer (Unit {0})
delete_listing listing_id = do
  or_throw (← gets (λ w. lookup listing_id w.listings))
  throw_if (← gets (λ w. is_some (auction_of listing_id w)))
  throw_if (← gets (λ w. is_some (relisted_as listing_id w)))
  modify (λ w. record w { listings = remove listing_id w.listings })

unfoldable pub withdraw_listing : ℕ → ℕ → Tx ListingAnswer ListingAnswer
unfolding delete_listing
withdraw_listing listing_id user_id = do
  existing ← require (← gets (λ w. lookup listing_id w.listings)) ListingAnswer.not_found
  return_if (not (existing.seller_id == user_id)) ListingAnswer.not_owner
  return_if (not (is_listing_pending existing.status)) ListingAnswer.not_pending
  delete_listing listing_id
  pure (ListingAnswer.withdrawn listing_id)

abbrev pub approved_listing : Listing → Listing
approved_listing l = record l { status = ListingStatus.approved; rejection_reason = none }

-- The auction of an approved listing.
abbrev pub opened_auction : ℕ → ℕ → Listing → Auction
opened_auction now listing_id listing = record {
  listing_id = listing_id;
  seller_id = listing.seller_id;
  title = listing.title;
  category = listing.category;
  condition = listing.condition;
  description = listing.description;
  image_url = listing.image_url;
  emoji = listing.emoji;
  start_price = listing.start_price;
  reserve_price = listing.reserve_price;
  reserve_met = none;
  min_increment = listing.min_increment;
  current_bid = listing.start_price;
  bid_count = 0;
  attributes = listing.attributes;
  status = AuctionStatus.active;
  start_time = now;
  end_time = now + listing.duration_days * day_ms;
}

-- The transaction of `approveOneListing`: the auction that the listing has from now on, and whether
-- it is new.
unfoldable pub write_approval : ℕ → ℕ → ℕ → ℕ → Listing → Tx ListingAnswer (ℕ × Auction × Bool)
write_approval now auction_id admin_user_id listing_id listing = transaction (do
  current ← or_throw (← gets (λ w. lookup listing_id w.listings))
  write_listing listing_id (approved_listing current)
  existing ← gets (auction_of listing_id)
  let opened = opened_auction now listing_id listing
  (id, auction, is_new) ← elim existing [
    | some (i, a) ↦ pure (i, a, false)
    | none ↦ do
      modify (λ w. record w { auctions = insert auction_id opened w.auctions })
      pure (auction_id, opened, true)
  ]
  audit (record {
    actor_user_id = some admin_user_id;
    action = AuditAction.listing_approved_action;
    entity_id = listing_id;
    note = "";
  })
  pure (id, auction, is_new))

-- `schedules` says whether the queue takes the job; a refusal is a warning in the answer.
unfoldable pub schedule_end : Bool → ℕ → Auction → Bool → Tx ListingAnswer Bool
schedule_end schedules auction_id auction is_new =
    if not (is_auction_closed auction.status) && is_new
    then if schedules
      then (do send (Effect.schedule_auction_end auction_id auction.end_time); pure false)
      else pure true
    else pure false

unfoldable pub approve_one : Bool → ℕ → ℕ → ℕ → ℕ → Listing → Tx ListingAnswer ListingAnswer
unfolding schedule_end
approve_one schedules now auction_id admin_user_id listing_id listing = do
  return_if (not (is_listing_pending listing.status)) ListingAnswer.not_pending
  (id, auction, is_new) ← write_approval now auction_id admin_user_id listing_id listing
  failed ← schedule_end schedules id auction is_new
  send (Effect.emit_listing_approved listing_id id)
  send (Effect.email_listing_approved listing.seller_id listing.listing_code)
  notify (note now listing.seller_id (Notice.listing_approved listing.title))
  pure (ListingAnswer.approved listing_id id failed)

unfoldable pub approve_listing : Bool → ℕ → ℕ → ℕ → ℕ → Tx ListingAnswer ListingAnswer
approve_listing schedules now auction_id admin_user_id listing_id = do
  listing ← require (← gets (λ w. lookup listing_id w.listings)) ListingAnswer.not_found
  approve_one schedules now auction_id admin_user_id listing_id listing

-- `approved++` and `failures.push(…)`; an exception has no count.
abbrev pub count_approved : Option (ℕ × List ℕ) → Option (ℕ × List ℕ)
count_approved none = none
count_approved (some (n, failures)) = some (n + 1, failures)

abbrev pub count_failed : ℕ → Option (ℕ × List ℕ) → Option (ℕ × List ℕ)
count_failed listing_id none = none
count_failed listing_id (some (n, failures)) = some (n, listing_id ∷ failures)

-- The loop of POST /approve-all over the rows that were read, at most fifty: how many were
-- approved, and which failed. An exception other than the state error ends the request.
unfoldable pub approve_each :
    (ℕ → Bool) → ℕ → (ℕ → ℕ) → ℕ → Table Listing → World → Option (ℕ × List ℕ) × World
approve_each schedules now auction_ids admin_user_id [] w = (some (0, []), w)
approve_each schedules now auction_ids admin_user_id ((listing_id, listing) ∷ rows) w =
    let one =
      approve_one (schedules listing_id) now (auction_ids listing_id) admin_user_id listing_id
        listing w in
    let rest = approve_each schedules now auction_ids admin_user_id rows one.1 in
    elim one.0 [
      | next _ ↦ (count_approved rest.0, rest.1)
      | answer _ ↦ (count_failed listing_id rest.0, rest.1)
      | threw ↦ (none, one.1)
    ]

abbrev pub rejected_listing : String → Listing → Listing
rejected_listing reason l = record l {
  status = ListingStatus.rejected;
  rejection_reason = some reason;
}

-- What follows the check of POST /:listingId/reject, on the row that was read.
unfoldable pub write_rejection : ℕ → ℕ → ℕ → String → Listing → Tx ListingAnswer ListingAnswer
write_rejection now admin_user_id listing_id reason listing = do
  current ← or_throw (← gets (λ w. lookup listing_id w.listings))
  write_listing listing_id (rejected_listing reason current)
  send (Effect.emit_listing_rejected listing_id)
  send (Effect.email_listing_rejected listing.seller_id reason)
  audit (record {
    actor_user_id = some admin_user_id;
    action = AuditAction.listing_rejected_action;
    entity_id = listing_id;
    note = reason;
  })
  notify (note now listing.seller_id (Notice.listing_rejected listing.title reason))
  pure (ListingAnswer.rejected listing_id)

unfoldable pub reject_listing : ℕ → ℕ → ℕ → String → Tx ListingAnswer ListingAnswer
reject_listing now admin_user_id listing_id reason = do
  listing ← require (← gets (λ w. lookup listing_id w.listings)) ListingAnswer.not_found
  return_if (not (is_listing_pending listing.status)) ListingAnswer.not_pending
  write_rejection now admin_user_id listing_id reason listing
