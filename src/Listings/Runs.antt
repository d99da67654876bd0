-- ===== src/Listings/Runs.antt =====
-- Every handler that writes a listing moves it along the diagram.
use bidvault_backend.Common.{
  ℕ, [], ◌∷◌, List, String, lookup, Bool, ◌≡◌, Option, arith, none, some, refl, true, ap,
  Option-cases, inl, inr, Bool-cases, false, insert, ◌⊎◌, ◌∙◌, ◌++◌, ◌==◌, lookup-insert,
  lookup-remove,
}
use bidvault_backend.Recovery.{cancel_auction, Actor}
use bidvault_backend.Recovery.Relist.{
  relist, NewIds, after_attempt, cancel_if_active, RelistOnce, TakedownAnswer, takedown_listing,
  RelistAnswer, relist_once, write_relist, relisted_copy, removed_listing, auction_of,
}
use bidvault_backend.Store.Queries.{BidQueries}
use bidvault_backend.Store.{
  Flow, World, Auction, next, is_listing_approved, Listing, answer, threw, AuditAction, Notice,
}
use bidvault_backend.Listings.Lifecycle.{
  ListingStep, kept, wrote, status_of, ListingStep-same, submit-ListingStep, resubmit-ListingStep,
  listing_moves, withdraw-ListingStep, approve-ListingStep, reject-ListingStep, deleted,
}
use bidvault_backend.Sales.{went_on}
use bidvault_backend.Listings.{
  ListingRules, ListingLimits, ListingForm, submit_listing, resubmit_listing,
}
use bidvault_backend.Closing.{note}
use bidvault_backend.Listings.Moderation.{withdraw_listing, approve_listing, reject_listing}

module _ (start_time : ℕ) (ids : NewIds) (transaction_id seller_id : ℕ) (w : World)
    (fresh : lookup ids.listing_id w.listings ≡ none) where
  once-ListingStep :
      (code : ℕ) → ListingStep w (relist_once start_time ids code transaction_id seller_id w).1
  unfolding relist_once write_relist
  once-ListingStep code = elim (Option-cases (lookup transaction_id w.sales)) [
    | inl missing ↦ kept (ground arith)
    | inr (row, sold) ↦ elim (Option-cases (lookup row.auction_id w.auctions)) [
      | inl missing ↦ kept (ground arith)
      | inr (a, held) ↦ elim (Option-cases (lookup a.listing_id w.listings)) [
        | inl missing ↦ kept (ground arith)
        | inr (l, found) ↦
            elim (Bool-cases
              (went_on (relist_once start_time ids code transaction_id seller_id w).0)) [
                | inl done ↦
                    wrote ids.listing_id (relisted_copy code a.listing_id l) (ground arith)
                      (ground arith)
                | inr other ↦ kept (ground arith)
              ]
      ]
    ]
  ]

after_attempt-ListingStep :
    (r : Flow RelistOnce RelistOnce) (w v : World) (retry : Flow RelistAnswer RelistAnswer × World)
    → ListingStep w v
    → ListingStep w retry.1
    → ListingStep w (after_attempt r v retry).1
unfolding after_attempt
after_attempt-ListingStep (next (RelistOnce.created l a e)) w v retry h k = ListingStep-same refl h
after_attempt-ListingStep (answer RelistOnce.duplicate_code) w v retry h k = k
after_attempt-ListingStep (next (RelistOnce.refused r)) w v retry h k = h
after_attempt-ListingStep (next RelistOnce.duplicate_code) w v retry h k = h
after_attempt-ListingStep (next RelistOnce.duplicate_relist) w v retry h k = h
after_attempt-ListingStep (answer (RelistOnce.created l a e)) w v retry h k = h
after_attempt-ListingStep (answer (RelistOnce.refused r)) w v retry h k = h
after_attempt-ListingStep (answer RelistOnce.duplicate_relist) w v retry h k = h
after_attempt-ListingStep threw w v retry h k = h

relist-ListingStep :
    (start_time : ℕ) (ids : NewIds) (codes : List ℕ) (transaction_id seller_id : ℕ) (w : World)
    → lookup ids.listing_id w.listings ≡ none
    → ListingStep w (relist start_time ids codes transaction_id seller_id w).1
unfolding relist
relist-ListingStep start_time ids [] t s w fresh = kept refl
relist-ListingStep start_time ids (code ∷ codes) t s w fresh =
    after_attempt-ListingStep (relist_once start_time ids code t s w).0 w
      (relist_once start_time ids code t s w).1 (relist start_time ids codes t s w)
      (once-ListingStep start_time ids t s w fresh code)
      (relist-ListingStep start_time ids codes t s w fresh)

cancel_auction_listings :
    (q : BidQueries) (now auction_id : ℕ) (actor : Actor) (w : World)
    → (cancel_auction q now auction_id actor w).1.listings ≡ w.listings
unfolding cancel_auction
cancel_auction_listings q now auction_id actor w = ground arith

cancel_if_active_listings :
    (q : BidQueries) (now admin_user_id : ℕ) (reason : String) (o : Option (ℕ × Auction))
    (w : World)
    → (cancel_if_active q now admin_user_id reason o w).1.listings ≡ w.listings
unfolding cancel_if_active
cancel_if_active_listings q now admin_user_id reason none w = refl
cancel_if_active_listings q now admin_user_id reason (some (i, a)) w = ground (
  arith,
  cancel_auction_listings q now i
      (record { user_id = admin_user_id; is_admin = true; reason = reason }) w,
)

module _ (q : BidQueries) (now listing_id admin_user_id : ℕ) (reason for_cancel : String)
    (w : World) where
  abbrev takedown : Flow TakedownAnswer TakedownAnswer × World
  takedown = takedown_listing q now listing_id admin_user_id reason for_cancel w

  abbrev taken_down : Listing → World
  taken_down l = record w {
    listings = insert listing_id (removed_listing reason l) w.listings;
    audit_logs =
        w.audit_logs
        ++ record {
          actor_user_id = some admin_user_id;
          action = AuditAction.listing_removed_action;
          entity_id = listing_id;
          note = reason;
        }
          ∷ [];
    notifications =
        w.notifications ++ note now l.seller_id (Notice.listing_removed l.title reason) ∷ [];
  }

  takedown_writes :
      (l : Listing)
      → lookup listing_id w.listings ≡ some l
      → is_listing_approved l.status ≡ true
      → takedown.1.listings
        ≡ (cancel_if_active q now admin_user_id for_cancel
            (auction_of listing_id w)
            (taken_down l)).1.listings
  unfolding takedown_listing
  takedown_writes l found approved = ground arith

  takedown_stops :
      (l : Listing)
      → lookup listing_id w.listings ≡ some l
      → is_listing_approved l.status ≡ false
      → takedown.1 ≡ w
  unfolding takedown_listing
  takedown_stops l found other = ground arith

  takedown_missing : lookup listing_id w.listings ≡ none → takedown.1 ≡ w
  unfolding takedown_listing
  takedown_missing missing = ground arith

  takedown-ListingStep : ListingStep w takedown.1
  takedown-ListingStep = elim (Option-cases (lookup listing_id w.listings)) [
    | inl missing ↦ kept (ap (λ v. v.listings) (takedown_missing missing))
    | inr (l, found) ↦ elim (Bool-cases (is_listing_approved l.status)) [
      | inr other ↦ kept (ap (λ v. v.listings) (takedown_stops l found other))
      | inl approved ↦ wrote listing_id (removed_listing reason l) (ground arith) (
          takedown_writes l found approved
          ∙ cancel_if_active_listings q now admin_user_id for_cancel (auction_of listing_id w)
              (taken_down l))
    ]
  ]

-- One call of a handler that writes listings, where no other call writes between what it reads and what
-- it writes. A new listing has a new id.
pub data ListingCall (q : BidQueries) (w : World) : World → Type 0 where
  submit :
      (rules : ListingRules) (limits : ListingLimits) (listing_id seller_id : ℕ) (codes : List ℕ)
      (form : ListingForm)
      → lookup listing_id w.listings ≡ none
      → ListingCall q w (submit_listing rules limits listing_id codes seller_id form w).1
  resubmit :
      (rules : ListingRules) (limits : ListingLimits) (listing_id user_id : ℕ) (form : ListingForm)
      → ListingCall q w (resubmit_listing rules limits listing_id user_id form w).1
  withdraw : (listing_id user_id : ℕ) → ListingCall q w (withdraw_listing listing_id user_id w).1
  approve :
      (schedules : Bool) (now auction_id admin_user_id listing_id : ℕ)
      → ListingCall q w (approve_listing schedules now auction_id admin_user_id listing_id w).1
  reject :
      (now admin_user_id listing_id : ℕ) (reason : String)
      → ListingCall q w (reject_listing now admin_user_id listing_id reason w).1
  take_down :
      (now listing_id admin_user_id : ℕ) (reason for_cancel : String)
      → ListingCall q w (takedown_listing q now listing_id admin_user_id reason for_cancel w).1
  relist_item :
      (start_time : ℕ) (ids : NewIds) (codes : List ℕ) (t seller_id : ℕ)
      → lookup ids.listing_id w.listings ≡ none
      → ListingCall q w (relist start_time ids codes t seller_id w).1

ListingCall-ListingStep : {q : BidQueries} {w v : World} → ListingCall q w v → ListingStep w v
ListingCall-ListingStep {q} {w} (submit r l i u cs f fresh) =
    submit-ListingStep r l i u f w cs fresh
ListingCall-ListingStep {q} {w} (resubmit r l i u f) = resubmit-ListingStep r l i u f w
ListingCall-ListingStep {q} {w} (withdraw i u) = withdraw-ListingStep i u w
ListingCall-ListingStep {q} {w} (approve s now a u i) = approve-ListingStep s now a u i w
ListingCall-ListingStep {q} {w} (reject now u i r) = reject-ListingStep now u i r w
ListingCall-ListingStep {q} {w} (take_down now i u r c) = takedown-ListingStep q now i u r c w
ListingCall-ListingStep {q} {w} (relist_item s ids cs t u fresh) =
    relist-ListingStep s ids cs t u w fresh

ListingStep-moves :
    {w v : World} (i : ℕ)
    → ListingStep w v
    → (status_of (lookup i v.listings) ≡ status_of (lookup i w.listings))
      ⊎ (listing_moves (status_of (lookup i w.listings)) (status_of (lookup i v.listings)) ≡ true)
ListingStep-moves {w} i (kept a) = inl (rw a)
ListingStep-moves {w} i (wrote j l m a) = rw a (elim (Bool-cases (j == i)) [
  | inl same ↦
      let here : j ≡ i = ground arith in inr (ground (arith, lookup-insert j i l w.listings))
  | inr other ↦ inl (ground (arith, lookup-insert j i l w.listings))
])
ListingStep-moves {w} i (deleted j l found p a) = rw a (elim (Bool-cases (j == i)) [
  | inl same ↦ let here : j ≡ i = ground arith in inr (ground (arith, lookup-remove j i w.listings))
  | inr other ↦ inl (ground (arith, lookup-remove j i w.listings))
])

-- A call of a handler that writes listings, where no other call writes between what it reads and what it
-- writes (approvals, rejections, resubmissions, withdrawals and takedowns read without a lock), leaves
-- the status of each listing as it is or moves it along the diagram: only a PENDING listing is approved, rejected or withdrawn, only a REJECTED one
-- is submitted again, and only an APPROVED one is removed, for good.
pub ListingCall-moves :
    {q : BidQueries} {w v : World} (listing_id : ℕ)
    → ListingCall q w v
    → (status_of (lookup listing_id v.listings) ≡ status_of (lookup listing_id w.listings))
      ⊎ (listing_moves
            (status_of (lookup listing_id w.listings))
            (status_of (lookup listing_id v.listings))
          ≡ true)
ListingCall-moves i c = ListingStep-moves i (ListingCall-ListingStep c)
