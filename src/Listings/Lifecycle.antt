-- ===== src/Listings/Lifecycle.antt =====
-- The statuses of a listing over all the operations that write the Listing table.
use bidvault_backend.Common.{
  ℕ, [], ◌∷◌, String, Option, ◌≡◌, some, lookup, Bool, Option-cases, inl, none, true, List, insert,
  false, arith, remove, Bool-cases, inr, ◌==◌, subst, ◌&&◌, is_none, ap, not, refl, ltb,
  lookup-insert_self, ◌∙◌, sym,
}
use bidvault_backend.Store.{
  World, Listing, ListingStatus, is_listing_pending, is_listing_rejected, Flow, next,
}
use bidvault_backend.Listings.{
  ListingRules, ListingLimits, ListingForm, resubmit_listing, create_listing, check_form, has_code,
  new_listing, has_foreign_image, resubmitted, submit_listing, announce_submitted, ListingAnswer,
}
use bidvault_backend.Listings.Moderation.{
  reject_listing, withdraw_listing, write_rejection, rejected_listing, approved_listing,
  approve_listing, approve_one, schedule_end, write_approval,
}
use bidvault_backend.Recovery.Relist.{auction_of}
use bidvault_backend.Recovery.{relisted_as}
use bidvault_backend.Sales.{Flow-cases, went_on}
use bidvault_backend.Listings.Approval.{approval_listings}

abbrev pub status_of : Option Listing → Option ListingStatus
status_of none = none
status_of (some l) = some l.status

-- The diagram; a listing that is not there is `none`. A relisted copy starts APPROVED.
abbrev pub listing_moves : Option ListingStatus → Option ListingStatus → Bool
listing_moves none (some ListingStatus.pending) = true
listing_moves none (some ListingStatus.approved) = true
listing_moves (some ListingStatus.pending) none = true
listing_moves (some ListingStatus.pending) (some ListingStatus.approved) = true
listing_moves (some ListingStatus.pending) (some ListingStatus.rejected) = true
listing_moves (some ListingStatus.rejected) (some ListingStatus.pending) = true
listing_moves (some ListingStatus.approved) (some ListingStatus.removed) = true
listing_moves _ _ = false

-- What one handler does to the listings.
pub data ListingStep (w w' : World) : Type 0 where
  kept : w'.listings ≡ w.listings → ListingStep w w'
  wrote :
      (listing_id : ℕ) (l : Listing)
      → listing_moves (status_of (lookup listing_id w.listings)) (some l.status) ≡ true
      → w'.listings ≡ insert listing_id l w.listings
      → ListingStep w w'
  deleted :
      (listing_id : ℕ) (l : Listing)
      → lookup listing_id w.listings ≡ some l
      → l.status ≡ ListingStatus.pending
      → w'.listings ≡ remove listing_id w.listings
      → ListingStep w w'

pub ListingStep-same :
    {w v v' : World} → v'.listings ≡ v.listings → ListingStep w v → ListingStep w v'
ListingStep-same e (kept a) = kept (e ∙ a)
ListingStep-same e (wrote i l m a) = wrote i l m (e ∙ a)
ListingStep-same e (deleted i l f p a) = deleted i l f p (e ∙ a)

module _ (rules : ListingRules) (limits : ListingLimits) (listing_id user_id : ℕ)
    (form : ListingForm) (w : World) where
  create_listing-ListingStep :
      (codes : List ℕ) (attributes : Option String)
      → lookup listing_id w.listings ≡ none
      → ListingStep w (create_listing listing_id codes user_id form attributes w).1
  unfolding create_listing
  create_listing-ListingStep [] attributes fresh = kept refl
  create_listing-ListingStep (code ∷ codes) attributes fresh = elim (Bool-cases (has_code code w)) [
    | inl taken ↦
        let again : (create_listing listing_id (code ∷ codes) user_id form attributes w).1
            ≡ (create_listing listing_id codes user_id form attributes w).1 =
          ground arith in
        subst (ListingStep w) (sym again) (create_listing-ListingStep codes attributes fresh)
    | inr free ↦
        wrote listing_id (new_listing code user_id form attributes) (ground arith) (ground arith)
  ]

  check_form_same : (check_form rules limits user_id form w).1 ≡ w
  unfolding check_form
  check_form_same = ground arith

  pub resubmit-ListingStep :
      ListingStep w (resubmit_listing rules limits listing_id user_id form w).1
  unfolding resubmit_listing check_form
  resubmit-ListingStep = elim (Option-cases (lookup listing_id w.listings)) [
    | inl missing ↦ kept (ground arith)
    | inr (l, found) ↦
        elim (Option-cases (rules.validate_category_attributes form.category form.attributes)) [
          | inl bad ↦ kept (ground arith)
          | inr (attributes, e) ↦
              elim (Bool-cases (
                l.seller_id == user_id
                && is_listing_rejected l.status
                && not (ltb form.start_price limits.min_listing_price)
                && not (has_foreign_image rules user_id form.image_url)
                && not (ltb limits.max_bid_increment form.min_increment))) [
                  | inl fine ↦ wrote listing_id (resubmitted form attributes l) (ground arith) (
                      ground (
                        arith,
                        lookup-insert_self listing_id (resubmitted form attributes l) w.listings,
                      ))
                  | inr other ↦ kept (ground arith)
                ]
        ]
  ]

  -- What follows the creation writes no listing.
  announce_same : (v : World) → (announce_submitted listing_id v).1.listings ≡ v.listings
  unfolding announce_submitted
  announce_same v = ground arith

  module _ (codes : List ℕ) where
    abbrev submission : Flow ListingAnswer ListingAnswer × World
    submission = submit_listing rules limits listing_id codes user_id form w

    submitted_stops :
        went_on (check_form rules limits user_id form w).0 ≡ false
        → submission.1.listings ≡ w.listings
    unfolding submit_listing check_form
    submitted_stops stop = ground arith

    submitted_writes :
        (attributes : Option String)
        → check_form rules limits user_id form w ≡ (next attributes, w)
        → submission.1.listings
          ≡ (create_listing listing_id codes user_id form attributes w).1.listings
    unfolding submit_listing
    submitted_writes attributes e =
        let announced =
          announce_same (create_listing listing_id codes user_id form attributes w).1 in
        ground arith

    pub submit-ListingStep : lookup listing_id w.listings ≡ none → ListingStep w submission.1
    submit-ListingStep fresh = elim (Flow-cases (check_form rules limits user_id form w).0) [
      | inr stop ↦ kept (submitted_stops stop)
      | inl (attributes, e) ↦
          ListingStep-same (submitted_writes attributes (λ i. (e i, check_form_same i)))
            (create_listing-ListingStep codes attributes fresh)
    ]

module _ (listing_id user_id : ℕ) (w : World) where
  pub withdraw-ListingStep : ListingStep w (withdraw_listing listing_id user_id w).1
  unfolding withdraw_listing
  withdraw-ListingStep = elim (Option-cases (lookup listing_id w.listings)) [
    | inl missing ↦ kept (ground arith)
    | inr (l, found) ↦
        elim (Bool-cases (
          l.seller_id == user_id
          && is_listing_pending l.status
          && is_none (auction_of listing_id w)
          && is_none (relisted_as listing_id w))) [
            | inl free ↦ deleted listing_id l found (ground arith) (ground arith)
            | inr other ↦ kept (ground arith)
          ]
  ]

module _ (now admin_user_id listing_id : ℕ) (reason : String) (w : World) where
  pub reject-ListingStep : ListingStep w (reject_listing now admin_user_id listing_id reason w).1
  unfolding reject_listing write_rejection
  reject-ListingStep = elim (Option-cases (lookup listing_id w.listings)) [
    | inl missing ↦ kept (ground arith)
    | inr (l, found) ↦ elim (Bool-cases (is_listing_pending l.status)) [
      | inl pending ↦ wrote listing_id (rejected_listing reason l) (ground arith) (ground arith)
      | inr other ↦ kept (ground arith)
    ]
  ]

module _ (schedules : Bool) (now auction_id admin_user_id listing_id : ℕ) (w : World) where
  abbrev approving : Flow ListingAnswer ListingAnswer × World
  approving = approve_listing schedules now auction_id admin_user_id listing_id w

  approving_writes :
      (l : Listing)
      → lookup listing_id w.listings ≡ some l
      → is_listing_pending l.status ≡ true
      → approving.1.listings
        ≡ (write_approval now auction_id admin_user_id listing_id l w).1.listings
  unfolding approve_listing approve_one schedule_end
  approving_writes l found pending = ground arith

  approving_stops :
      (l : Listing)
      → lookup listing_id w.listings ≡ some l
      → is_listing_pending l.status ≡ false
      → approving.1 ≡ w
  unfolding approve_listing approve_one
  approving_stops l found other = ground arith

  approving_missing : lookup listing_id w.listings ≡ none → approving.1 ≡ w
  unfolding approve_listing
  approving_missing missing = ground arith

  pub approve-ListingStep : ListingStep w approving.1
  approve-ListingStep = elim (Option-cases (lookup listing_id w.listings)) [
    | inl missing ↦ kept (ap (λ v. v.listings) (approving_missing missing))
    | inr (l, found) ↦ elim (Bool-cases (is_listing_pending l.status)) [
      | inr other ↦ kept (ap (λ v. v.listings) (approving_stops l found other))
      | inl pending ↦ wrote listing_id (approved_listing l) (ground arith) (
          approving_writes l found pending
          ∙ approval_listings now auction_id admin_user_id listing_id l w l found)
    ]
  ]
