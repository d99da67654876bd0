-- ===== src/Bidding/SellerNotices.antt =====
-- The seller's one unread notification for each auction.
use bidvault_backend.Common.{
  ℕ, List, String, Bool, count, All, ◌≡◌, ◌∷◌, true, arith, [], false, ◌<◌, refl, ◌≤◌, Option,
  Bool-cases, inl, some, inr, count-append, All-append, lookup, ◌+◌, none, ◌++◌,
}
use bidvault_backend.Store.{Notification, Notice, World, Auction, next}
use bidvault_backend.Bidding.{
  notify_outbid, refresh_notices, is_open_notice, any_open, notify_seller, fresh_notice, place_bid,
  BidAnswer, prev_highest,
}
use bidvault_backend.Store.Queries.{BidRow, BidQueries}
use bidvault_backend.Bidding.Acceptance.{place_bid_cases}

module _ (seller_id auction_id : ℕ) where
  abbrev is_open : Notification → Bool
  is_open = is_open_notice seller_id auction_id

  count_of_any : (ns : List Notification) → any_open is_open ns ≡ true → 0 < count is_open ns
  count_of_any [] h = cc
  count_of_any (n ∷ ns) h = ground (arith, count_of_any ns)

  count_of_not_any : (ns : List Notification) → any_open is_open ns ≡ false → count is_open ns ≡ 0
  count_of_not_any [] h = refl
  count_of_not_any (n ∷ ns) h = ground (arith, count_of_not_any ns)

  module _ (now amount bids : ℕ) (title : String) where
    abbrev latest : Notice
    latest = Notice.bid_received title bids amount

    count-refresh :
        (ns : List Notification)
        → count is_open (refresh_notices is_open latest now ns) ≡ count is_open ns
    unfolding refresh_notices is_open_notice
    count-refresh [] = refl
    count-refresh (n ∷ ns) = ground (arith, count-refresh ns)

    All-refresh :
        (ns : List Notification)
        → All (λ n. is_open n ≡ true → n.notice ≡ latest) (refresh_notices is_open latest now ns)
    unfolding refresh_notices is_open_notice
    All-refresh [] = tt
    All-refresh (n ∷ ns) = (ground arith, All-refresh ns)

    All-of_not_any :
        (ns : List Notification)
        → any_open is_open ns ≡ false
        → All (λ n. is_open n ≡ true → n.notice ≡ latest) ns
    All-of_not_any [] h = tt
    All-of_not_any (n ∷ ns) h = (ground arith, All-of_not_any ns (ground arith))

    abbrev fresh : Notification
    fresh = fresh_notice now seller_id auction_id latest

    count-fresh : count is_open (fresh ∷ []) ≡ 1
    unfolding is_open_notice
    count-fresh = ground arith

    -- The update or the fresh row: one open notification, with the latest text.
    notify_seller_one :
        (ns : List Notification)
        → count is_open ns ≤ 1
        → let ns' = notify_seller now seller_id auction_id latest ns in
          (count is_open ns' ≡ 1) × All (λ n. is_open n ≡ true → n.notice ≡ latest) ns'
    unfolding notify_seller
    notify_seller_one ns h = elim (Bool-cases (any_open is_open ns)) [
      | inl some_open ↦
          rw some_open (omega (arith, count-refresh ns, count_of_any ns some_open), All-refresh ns)
      | inr none_open ↦ rw none_open (
        omega (
          arith,
          count-append is_open ns (fresh ∷ []),
          count_of_not_any ns none_open,
          count-fresh,
        ),
        All-append (λ n. is_open n ≡ true → n.notice ≡ latest) ns (fresh ∷ [])
            (All-of_not_any ns none_open) ((λ _. refl), tt),
      )
    ]

outbid_not_open :
    (seller_id auction_id now buyer_id : ℕ) (notice : Notice) (prev : Option BidRow) (w : World)
    → count (is_open_notice seller_id auction_id) (notify_outbid now buyer_id notice prev w) ≡ 0
unfolding notify_outbid is_open_notice
outbid_not_open seller_id auction_id now buyer_id notice none w = refl
outbid_not_open seller_id auction_id now buyer_id notice (some (i, b)) w = ground arith

module _ (q : BidQueries) (live : Bool) (now bid_id auction_id buyer_id amount : ℕ) (w : World)
    (row : Auction) where
  abbrev latest_text : Notice
  latest_text = Notice.bid_received row.title (row.bid_count + 1) amount

  abbrev outbid_text : Notice
  outbid_text = Notice.bid_outbid row.title amount

  abbrev outbid : List Notification
  outbid = notify_outbid now buyer_id outbid_text (prev_highest q auction_id row w) w

  -- After a placed bid the seller has exactly one unread notification for the auction, if there was
  -- at most one before, and its text tells the new number of bids and the new leading amount.
  pub placed_one_open_notice :
      lookup auction_id w.auctions ≡ some row
      → count (is_open_notice row.seller_id auction_id) w.notifications ≤ 1
      → (place_bid q live now bid_id auction_id buyer_id amount w).0
        ≡ next (BidAnswer.placed bid_id)
      → let ns = (place_bid q live now bid_id auction_id buyer_id amount w).1.notifications in
        (count (is_open_notice row.seller_id auction_id) ns ≡ 1)
        × All (λ n. is_open_notice row.seller_id auction_id n ≡ true → n.notice ≡ latest_text) ns
  placed_one_open_notice found one done =
      elim (place_bid_cases q live now bid_id auction_id buyer_id amount w) [
        | inl (other, _) ↦ absurd (other done)
        | inr (r, found', _, _, _, _, notices) ↦
            let same : r ≡ row = cc in
            rw (notices, same)
              (notify_seller_one row.seller_id auction_id now amount (row.bid_count + 1) row.title
                (w.notifications ++ outbid)
                (omega (
                  arith,
                  count-append (is_open_notice row.seller_id auction_id) w.notifications outbid,
                  outbid_not_open row.seller_id auction_id now buyer_id outbid_text
                      (prev_highest q auction_id row w) w,
                )))
      ]
