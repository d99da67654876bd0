-- ===== src/Listings/Approval.antt =====
-- Approval against the auctions.
use bidvault_backend.Common.{
  ℕ, lookup, ◌≡◌, none, some, Bool, insert, arith, Option-cases, false, true, inl, inr, Table,
  count, String, lookup-insert_self, if◌then◌else◌, is_some, insert_cases,
}
use bidvault_backend.Store.{Listing, World, Flow, Auction, threw, next, Bid}
use bidvault_backend.Listings.Moderation.{
  write_approval, approved_listing, opened_auction, write_rejection, rejected_listing,
}
use bidvault_backend.Listings.{ListingAnswer}
use bidvault_backend.Recovery.Relist.{auction_of}
use bidvault_backend.Bidding.Books.{on_auction, AreBooks, IsBook}

module _ (now auction_id admin_user_id listing_id : ℕ) (listing : Listing) (w : World) where
  abbrev approval : Flow ListingAnswer (ℕ × Auction × Bool) × World
  approval = write_approval now auction_id admin_user_id listing_id listing w

  module _ (current : Listing) (found : lookup listing_id w.listings ≡ some current) where
    pub approval_listings :
        approval.1.listings ≡ insert listing_id (approved_listing current) w.listings
    unfolding write_approval
    approval_listings = elim (Option-cases (auction_of listing_id w)) [
      | inl fresh ↦ ground arith
      | inr ((i, a), e) ↦ ground arith
    ]

    pub approval_opens :
        auction_of listing_id w ≡ none
        → (approval.0 ≡ next (auction_id, opened_auction now listing_id listing, true))
          × (approval.1.auctions
              ≡ insert auction_id (opened_auction now listing_id listing) w.auctions)
          × (approval.1.bids ≡ w.bids)
    unfolding write_approval
    approval_opens none_yet = (ground arith, ground arith, ground arith)

    pub approval_keeps :
        {i : ℕ} {a : Auction}
        → auction_of listing_id w ≡ some (i, a)
        → (approval.0 ≡ next (i, a, false))
          × (approval.1.auctions ≡ w.auctions)
          × (approval.1.bids ≡ w.bids)
    unfolding write_approval
    approval_keeps e = (ground arith, ground arith, ground arith)

  pub approval_missing : lookup listing_id w.listings ≡ none → approval ≡ (threw, w)
  unfolding write_approval
  approval_missing gone = λ i. (missing_result i, missing_world i)
    where
      missing_result : approval.0 ≡ threw
      missing_result = ground arith

      missing_world : approval.1 ≡ w
      missing_world = ground arith

-- A fresh auction with no bid on its id keeps its book: no bid, and the start price.
opened-IsBook :
    (now auction_id listing_id : ℕ) (l : Listing) (bids : Table Bid)
    → count (on_auction auction_id) bids ≡ 0
    → IsBook auction_id (opened_auction now listing_id l) bids
opened-IsBook now auction_id listing_id l bids h = ground arith

module _ (now auction_id admin_user_id listing_id : ℕ) (listing : Listing) (w : World) where
  -- Approval writes the listing's row APPROVED with no rejection reason. Where the listing has no
  -- auction yet it opens one under the new id, ACTIVE, at the start price and with no bid;
  -- otherwise the auctions stay. Either way every auction's columns agree with its bids afterwards,
  -- if they did before and no bid is on the new id.
  pub approve_opens :
      (current : Listing)
      → lookup listing_id w.listings ≡ some current
      → count (on_auction auction_id) w.bids ≡ 0
      → AreBooks w
      → let v = (write_approval now auction_id admin_user_id listing_id listing w).1 in
        (lookup listing_id v.listings ≡ some (approved_listing current))
        × (v.auctions ≡ (
            if is_some (auction_of listing_id w)
            then w.auctions
            else insert auction_id (opened_auction now listing_id listing) w.auctions))
        × AreBooks v
  approve_opens current found unused books =
      let rows =
        approval_listings now auction_id admin_user_id listing_id listing w current found in
      let stored : lookup listing_id
            (write_approval now auction_id admin_user_id listing_id listing w).1.listings
          ≡ some (approved_listing current) =
        rw rows (lookup-insert_self listing_id (approved_listing current) w.listings) in
      elim (Option-cases (auction_of listing_id w)) [
        | inr ((i, a), e) ↦
            let (_, auctions, bids) =
              approval_keeps now auction_id admin_user_id listing_id listing w current found e in
            (stored, rw e auctions, λ b r h. rw bids (books b r (rw auctions at h)))
        | inl e ↦
            let (_, auctions, bids) =
              approval_opens now auction_id admin_user_id listing_id listing w current found e in
            (
              stored,
              rw e auctions,
              λ b r h.
                  rw bids
                    (elim (insert_cases auction_id b (opened_auction now listing_id listing)
                      w.auctions (rw auctions at h)) [
                        | inl (be, re) ↦
                            rw (be, re)
                              (opened-IsBook now auction_id listing_id listing w.bids unused)
                        | inr (ne, old) ↦ books b r old
                      ]),
            )
      ]

module _ (now auction_id admin_user_id other_admin_id listing_id : ℕ) (reason : String)
    (l : Listing) (w : World) where
  -- Two admins act on one pending listing: both routes read it PENDING before either writes. The
  -- approval commits first and opens an auction; the rejection then goes through as well, and the
  -- listing is REJECTED while its auction is ACTIVE.
  pub stale_rejection :
      lookup listing_id w.listings ≡ some l
      → auction_of listing_id w ≡ none
      → let approved = (write_approval now auction_id admin_user_id listing_id l w).1 in
        let last = write_rejection now other_admin_id listing_id reason l approved in
        (last.0 ≡ next (ListingAnswer.rejected listing_id))
        × (lookup listing_id last.1.listings ≡ some (rejected_listing reason (approved_listing l)))
        × (lookup auction_id last.1.auctions ≡ some (opened_auction now listing_id l))
  unfolding write_rejection
  stale_rejection found none_yet =
      let rows = approval_listings now auction_id admin_user_id listing_id l w l found in
      let stored = lookup-insert_self listing_id (approved_listing l) w.listings in
      let (_, auctions, _) =
        approval_opens now auction_id admin_user_id listing_id l w l found none_yet in
      (
        ground arith,
        ground (
          arith,
          lookup-insert_self listing_id (rejected_listing reason (approved_listing l))
              (write_approval now auction_id admin_user_id listing_id l w).1.listings,
        ),
        ground (arith, lookup-insert_self auction_id (opened_auction now listing_id l) w.auctions),
      )
