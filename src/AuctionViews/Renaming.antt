-- ===== src/AuctionViews/Renaming.antt =====
-- A bid history without a reader's account is the same whoever the bidders are.
use mathlib.Core.List.{reverse, reverse_aux}
use bidvault_backend.Store.{Bid}
use bidvault_backend.Pagination.{
  ParsedNumber, CursorText, slice_page, list_page, Cursor, take, is_after, last, decode_cursor,
  cursor_of, parse_limit,
}
use bidvault_backend.Common.{
  ℕ, [], ◌∷◌, ◌≡◌, Option, Table, List, map, length, keep, some, false, not, refl, ap, Option-cases,
  Bool-cases, none, suc, arith, ◌==◌, zero, ltb, inl, inr, ◌∙◌,
}
use bidvault_backend.AuctionViews.History.{
  buyers_of, bid_view, rank_of, rank, distinct, buyer_name, BuyerName, bid_history, is_bid_on,
}

abbrev map_buyer : (ℕ → ℕ) → Option ℕ → Option ℕ
map_buyer f none = none
map_buyer f (some u) = some (f u)

module _ (f : ℕ → ℕ) where
  -- A bid with another id for its buyer.
  abbrev pub renamed : ℕ × Bid → ℕ × Bid
  renamed (i, bid) = (i, record bid { buyer_id = map_buyer f bid.buyer_id })

  keep_on-map :
      (auction_id : ℕ) (bids : Table Bid)
      → keep (is_bid_on auction_id) (map renamed bids)
        ≡ map renamed (keep (is_bid_on auction_id) bids)
  keep_on-map auction_id [] = refl
  keep_on-map auction_id ((i, bid) ∷ bids) = ground (arith, keep_on-map auction_id bids)

  reverse_aux-map :
      (bids acc : Table Bid)
      → reverse_aux (map renamed bids) (map renamed acc) ≡ map renamed (reverse_aux bids acc)
  reverse_aux-map [] acc = refl
  reverse_aux-map (x ∷ bids) acc = reverse_aux-map bids (x ∷ acc)

  reverse-map : (bids : Table Bid) → reverse (map renamed bids) ≡ map renamed (reverse bids)
  reverse-map bids = reverse_aux-map bids []

  keep_after-map :
      (c : Option Cursor) (bids : Table Bid)
      → keep (is_after (λ (b : Bid). b.created_at) false c) (map renamed bids)
        ≡ map renamed (keep (is_after (λ (b : Bid). b.created_at) false c) bids)
  keep_after-map c [] = refl
  keep_after-map none ((i, bid) ∷ bids) =
      ap (λ xs. renamed (i, bid) ∷ xs) (keep_after-map none bids)
  keep_after-map (some c) ((i, bid) ∷ bids) = ground (arith, keep_after-map (some c) bids)

  take-map : (n : ℕ) (bids : Table Bid) → take n (map renamed bids) ≡ map renamed (take n bids)
  take-map zero bids = refl
  take-map (suc n) [] = refl
  take-map (suc n) (x ∷ bids) = ap (λ xs. renamed x ∷ xs) (take-map n bids)

  length-map : (bids : Table Bid) → length (map renamed bids) ≡ length bids
  length-map [] = refl
  length-map (x ∷ bids) = ap suc (length-map bids)

  abbrev last_cursor : CursorText → Table Bid → Option (List ℕ)
  last_cursor text bids = elim (last bids) [
    | none ↦ none
    | some r ↦ some (text.encode (cursor_of (λ (b : Bid). b.created_at) r))
  ]

  last_cursor-map :
      (text : CursorText) (bids : Table Bid)
      → last_cursor text (map renamed bids) ≡ last_cursor text bids
  last_cursor-map text [] = refl
  last_cursor-map text ((i, bid) ∷ []) = refl
  last_cursor-map text (x ∷ (y ∷ bids)) = last_cursor-map text (y ∷ bids)

  slice_page-map :
      (text : CursorText) (bids : Table Bid) (n : ℕ)
      → slice_page (λ (b : Bid). b.created_at) text (map renamed bids) n ≡ (
        map renamed (slice_page (λ (b : Bid). b.created_at) text bids n).0,
        (slice_page (λ (b : Bid). b.created_at) text bids n).1,
      )
  unfolding slice_page
  slice_page-map text bids n = rw (length-map bids) (elim (Bool-cases (ltb n (length bids))) [
    | inl more ↦
        rw (more, take-map n bids)
          (ap (λ c. (map renamed (take n bids), c)) (last_cursor-map text (take n bids)))
    | inr less ↦ rw less refl
  ])

  list_page-map :
      (text : CursorText) (raw_limit : ParsedNumber) (raw_cursor : Option (List ℕ))
      (bids : Table Bid)
      → list_page (λ (b : Bid). b.created_at) false text raw_limit raw_cursor (map renamed bids) ≡ (
        map renamed (list_page (λ (b : Bid). b.created_at) false text raw_limit raw_cursor bids).0,
        (list_page (λ (b : Bid). b.created_at) false text raw_limit raw_cursor bids).1,
      )
  unfolding list_page
  list_page-map text raw_limit raw_cursor bids =
      rw
        (
          keep_after-map (decode_cursor (λ (b : Bid). b.created_at) text raw_cursor) bids,
          take-map (suc (parse_limit raw_limit)) (
              keep
                (is_after (λ (b : Bid). b.created_at) false
                  (decode_cursor (λ (b : Bid). b.created_at) text raw_cursor))
                bids),
        )
        (slice_page-map text _ (parse_limit raw_limit))

  module _ (injective : (u v : ℕ) → f u ≡ f v → u ≡ v) where
    keep_other-map :
        (x : ℕ) (xs : List ℕ)
        → keep (λ y. not (y == f x)) (map f xs) ≡ map f (keep (λ y. not (y == x)) xs)
    keep_other-map x [] = refl
    keep_other-map x (y ∷ xs) = ground (arith, injective y x, keep_other-map x xs)

    distinct-map : (xs : List ℕ) → distinct (map f xs) ≡ map f (distinct xs)
    distinct-map [] = refl
    distinct-map (x ∷ xs) =
        ap (λ ys. f x ∷ keep (λ y. not (y == f x)) ys) (distinct-map xs)
        ∙ ap (λ ys. f x ∷ ys) (keep_other-map x (distinct xs))

    rank-map : (u : ℕ) (xs : List ℕ) → rank (f u) (map f xs) ≡ rank u xs
    rank-map u [] = refl
    rank-map u (x ∷ xs) = ground (arith, injective x u, rank-map u xs)

    buyers_of-map : (bids : Table Bid) → buyers_of (map renamed bids) ≡ map f (buyers_of bids)
    buyers_of-map [] = refl
    buyers_of-map ((i, bid) ∷ bids) = elim (Option-cases bid.buyer_id) [
      | inl gone ↦ rw gone (buyers_of-map bids)
      | inr (u, known) ↦ rw known (ap (λ xs. f u ∷ xs) (buyers_of-map bids))
    ]

    rank_of-map :
        (auction_id u : ℕ) (bids : Table Bid)
        → rank_of auction_id (map renamed bids) (f u) ≡ rank_of auction_id bids u
    unfolding rank_of
    rank_of-map auction_id u bids =
        rw
          (
            keep_on-map auction_id bids,
            buyers_of-map (keep (is_bid_on auction_id) bids),
            distinct-map (buyers_of (keep (is_bid_on auction_id) bids)),
          )
          (rank-map u (distinct (buyers_of (keep (is_bid_on auction_id) bids))))

    name-map :
        (place place' : ℕ → Option ℕ)
        → ((u : ℕ) → place' (f u) ≡ place u)
        → (b : Option ℕ) → buyer_name place' (map_buyer f b) ≡ buyer_name place b
    name-map place place' same none = refl
    name-map place place' same (some u) = ap BuyerName.bidder (same u)

    view_one :
        (place place' : ℕ → Option ℕ)
        → ((u : ℕ) → place' (f u) ≡ place u)
        → (r : ℕ × Bid) → bid_view place' none (renamed r) ≡ bid_view place none r
    unfolding bid_view
    view_one place place' same (i, bid) =
        ap (λ (name : BuyerName). record (bid_view place none (i, bid)) { buyer_name = name })
          (name-map place place' same bid.buyer_id)

    view-map :
        (place place' : ℕ → Option ℕ)
        → ((u : ℕ) → place' (f u) ≡ place u)
        → (page : Table Bid)
        → map (bid_view place' none) (map renamed page) ≡ map (bid_view place none) page
    view-map place place' same [] = refl
    view-map place place' same (x ∷ page) =
        ap (λ v. v ∷ map (bid_view place' none) (map renamed page)) (view_one place place' same x)
        ∙ ap (λ vs. bid_view place none x ∷ vs) (view-map place place' same page)

    -- The answer to a reader without an account is the same if the bidders are any other users, as
    -- long as different bidders are different users: it tells nothing of who they are.
    pub renamed_history :
        (text : CursorText) (raw_limit : ParsedNumber) (raw_cursor : Option (List ℕ))
        (auction_id : ℕ) (bids : Table Bid)
        → bid_history text raw_limit raw_cursor none auction_id (map renamed bids)
          ≡ bid_history text raw_limit raw_cursor none auction_id bids
    unfolding bid_history
    renamed_history text raw_limit raw_cursor auction_id bids =
        rw
          (
            keep_on-map auction_id bids,
            reverse-map (keep (is_bid_on auction_id) bids),
            list_page-map text raw_limit raw_cursor (reverse (keep (is_bid_on auction_id) bids)),
          )
          (ap
            (λ views. (
              views,
              (list_page (λ (b : Bid). b.created_at) false text raw_limit raw_cursor
                  (reverse (keep (is_bid_on auction_id) bids))).1,
            ))
            (view-map (rank_of auction_id bids) (rank_of auction_id (map renamed bids))
              (λ u. rank_of-map auction_id u bids) _))
