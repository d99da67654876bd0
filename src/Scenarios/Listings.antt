-- ===== src/Scenarios/Listings.antt =====
-- The theorems on listings before they are live, at the lamp when it waits for review.
use bidvault_backend.Listings.{ListingAnswer}
use bidvault_backend.Common.{
  ℕ, [], ◌∷◌, lookup, ◌≡◌, true, some, ◌⊎◌, refl, arith, if◌then◌else◌, is_some, insert,
}
use bidvault_backend.Store.{World, Listing, Auction, next, ListingStatus}
use bidvault_backend.Listings.Moderation.{
  approve_listing, write_approval, write_rejection, approved_listing, opened_auction,
  rejected_listing,
}
use bidvault_backend.Scenarios.Market.{lamp_listing, market}
use bidvault_backend.Listings.Lifecycle.{status_of, listing_moves}
use bidvault_backend.Bidding.Books.{IsBook, AreBooks}
use bidvault_backend.Listings.Runs.{ListingCall-moves, ListingCall}
use bidvault_backend.Recovery.Relist.{auction_of}
use bidvault_backend.Store.Queries.Scan.{scan_queries}
use bidvault_backend.Listings.Approval.{approve_opens, stale_rejection}

abbrev lamp_pending : Listing
lamp_pending = record lamp_listing { status = ListingStatus.pending }

abbrev waiting : World
waiting = record market { listings = (5, lamp_pending) ∷ []; auctions = [] }

pending_there : lookup 5 waiting.listings ≡ some lamp_pending
unfolding lookup
pending_there = refl

no_books : (i : ℕ) (a : Auction) → lookup i waiting.auctions ≡ some a → IsBook i a waiting.bids
unfolding lookup
no_books i a h = absurd (ground arith)

approve_opens_example :
    let v = (write_approval 500 10 9 5 lamp_pending waiting).1 in
    (lookup 5 v.listings ≡ some (approved_listing lamp_pending))
    × (v.auctions ≡ (
        if is_some (auction_of 5 waiting)
        then waiting.auctions
        else insert 10 (opened_auction 500 5 lamp_pending) waiting.auctions))
    × AreBooks v
approve_opens_example =
    approve_opens 500 10 9 5 lamp_pending waiting lamp_pending pending_there refl no_books

-- Admin 9 approves and admin 8 rejects.
stale_rejection_example :
    let approved = (write_approval 500 10 9 5 lamp_pending waiting).1 in
    let last = write_rejection 500 8 5 "blurred" lamp_pending approved in
    (last.0 ≡ next (ListingAnswer.rejected 5))
    × (lookup 5 last.1.listings ≡ some (rejected_listing "blurred" (approved_listing lamp_pending)))
    × (lookup 10 last.1.auctions ≡ some (opened_auction 500 5 lamp_pending))
stale_rejection_example =
    stale_rejection 500 10 9 8 5 "blurred" lamp_pending waiting pending_there refl

ListingCall-moves_example :
    let v = (approve_listing true 500 10 9 5 waiting).1 in
    (status_of (lookup 5 v.listings) ≡ status_of (lookup 5 waiting.listings))
    ⊎ (listing_moves (status_of (lookup 5 waiting.listings)) (status_of (lookup 5 v.listings))
        ≡ true)
ListingCall-moves_example =
    ListingCall-moves {q = scan_queries} 5 (ListingCall.approve true 500 10 9 5)
