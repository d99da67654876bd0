-- ===== src/Listings.antt =====
-- A listing before it is live (src/modules/listings/listings.routes.ts): submission with its retry
-- on a duplicate code, resubmission, withdrawal, approval, rejection and the batch of approvals.
-- The URL and zod libraries' checks are the argument `ListingRules`; settings are arguments.
pub mod Moderation
pub mod Approval
pub mod Lifecycle
pub mod Runs
use bidvault_backend.Common.{
  ℕ, [], ◌∷◌, Bool, List, String, Option, false, is_some, insert, none, if◌then◌else◌, some, not,
  ltb, ◌==◌, lookup,
}
use bidvault_backend.Store.{
  World, Tx, Listing, ItemCondition, modify, ◌>>=◌, ListingStatus, threw, ◌>>◌, require, find_by,
  pure, return_if, or_throw, gets, next, is_listing_rejected, send, Effect,
}

-- What the source asks of libraries: is the image an upload issued for this seller, and the
-- category's attributes as they are stored (none: the zod schema refuses them).
pub record ListingRules : Type 0 where
  pub is_owned_image : String → ℕ → Bool
  pub validate_category_attributes : String → Option String → Option (Option String)

-- The settings that both forms are checked against.
pub record ListingLimits : Type 0 where
  pub min_listing_price : ℕ
  pub max_bid_increment : ℕ

-- The body of POST / and of PATCH /:listingId.
pub record ListingForm : Type 0 where
  pub title : String
  pub category : String
  pub condition : ItemCondition
  pub description : String
  pub start_price : ℕ
  pub reserve_price : Option ℕ
  pub min_increment : ℕ
  pub duration_days : ℕ
  pub image_url : Option String
  pub emoji : Option String
  pub attributes : Option String

pub data ListingAnswer : Type 0 where
  submitted : (listing_id : ℕ) → ListingAnswer
  approved : (listing_id auction_id : ℕ) (scheduling_failed : Bool) → ListingAnswer
  rejected : (listing_id : ℕ) → ListingAnswer
  withdrawn : (listing_id : ℕ) → ListingAnswer
  price_too_low increment_too_high image_not_owned bad_attributes : ListingAnswer
  not_found not_owner not_rejected not_pending : ListingAnswer

-- `imageUrl && !isOwnedCloudinaryImage(…)`
abbrev pub has_foreign_image : ListingRules → ℕ → Option String → Bool
has_foreign_image rules seller_id none = false
has_foreign_image rules seller_id (some url) = not (rules.is_owned_image url seller_id)

-- The checks that both forms share, in the order of the code: the attributes to store, or the
-- refusal.
unfoldable pub check_form :
    ListingRules → ListingLimits → ℕ → ListingForm → Tx ListingAnswer (Option String)
check_form rules limits seller_id form = do
  return_if (ltb form.start_price limits.min_listing_price) ListingAnswer.price_too_low
  return_if (has_foreign_image rules seller_id form.image_url) ListingAnswer.image_not_owned
  return_if (ltb limits.max_bid_increment form.min_increment) ListingAnswer.increment_too_high
  require (rules.validate_category_attributes form.category form.attributes)
      ListingAnswer.bad_attributes

abbrev pub new_listing : ℕ → ℕ → ListingForm → Option String → Listing
new_listing code seller_id form attributes = record {
  listing_code = code;
  seller_id = seller_id;
  title = form.title;
  category = form.category;
  condition = form.condition;
  description = form.description;
  start_price = form.start_price;
  reserve_price = form.reserve_price;
  min_increment = form.min_increment;
  duration_days = form.duration_days;
  status = ListingStatus.pending;
  rejection_reason = none;
  image_url = form.image_url;
  emoji = form.emoji;
  attributes = attributes;
  relisted_from_id = none;
}

-- The unique key `Listing.listingCode`.
abbrev pub has_code : ℕ → World → Bool
has_code code w = is_some (find_by (λ l. l.listing_code == code) w.listings)

-- One attempt for each code that `generateListingCode` gives, three in the source; an exception
-- when the last one is a duplicate too.
unfoldable pub create_listing :
    ℕ → List ℕ → ℕ → ListingForm → Option String → Tx ListingAnswer (Unit {0})
create_listing listing_id [] seller_id form attributes w = (threw, w)
create_listing listing_id (code ∷ codes) seller_id form attributes w =
    let retry = create_listing listing_id codes seller_id form attributes w in
    if has_code code w then retry else (
      next tt,
      record w {
        listings = insert listing_id (new_listing code seller_id form attributes) w.listings;
      },
    )

-- The mail and the broadcast of a form that was stored.
unfoldable pub announce_submitted : ℕ → Tx ListingAnswer (Unit {0})
announce_submitted listing_id = do
  listing ← or_throw (← gets (λ w. lookup listing_id w.listings))
  send (Effect.email_listing_submitted listing.seller_id listing.listing_code)
  send (Effect.emit_listing_submitted listing_id listing.title)

unfoldable pub submit_listing :
    ListingRules → ListingLimits → ℕ → List ℕ → ℕ → ListingForm → Tx ListingAnswer ListingAnswer
unfolding announce_submitted
submit_listing rules limits listing_id codes seller_id form = do
  attributes ← check_form rules limits seller_id form
  create_listing listing_id codes seller_id form attributes
  announce_submitted listing_id
  pure (ListingAnswer.submitted listing_id)

abbrev pub resubmitted : ListingForm → Option String → Listing → Listing
resubmitted form attributes l = record l {
  title = form.title;
  category = form.category;
  condition = form.condition;
  description = form.description;
  start_price = form.start_price;
  reserve_price = form.reserve_price;
  min_increment = form.min_increment;
  duration_days = form.duration_days;
  image_url = form.image_url;
  emoji = form.emoji;
  attributes = attributes;
  status = ListingStatus.pending;
  rejection_reason = none;
}

abbrev pub write_listing : {R : Type 0} → ℕ → Listing → Tx R (Unit {0})
write_listing listing_id l = modify (λ w. record w { listings = insert listing_id l w.listings })

unfoldable pub resubmit_listing :
    ListingRules → ListingLimits → ℕ → ℕ → ListingForm → Tx ListingAnswer ListingAnswer
unfolding announce_submitted
resubmit_listing rules limits listing_id user_id form = do
  existing ← require (← gets (λ w. lookup listing_id w.listings)) ListingAnswer.not_found
  return_if (not (existing.seller_id == user_id)) ListingAnswer.not_owner
  return_if (not (is_listing_rejected existing.status)) ListingAnswer.not_rejected
  attributes ← check_form rules limits user_id form
  write_listing listing_id (resubmitted form attributes existing)
  announce_submitted listing_id
  pure (ListingAnswer.submitted listing_id)
