-- ===== src/Watchlist/Watchers.antt =====
-- What watching and unwatching do to the number of an auction's watchers.
use bidvault_backend.AuctionViews.{WatchRow}
use bidvault_backend.Common.{
  ℕ, [], ◌∷◌, List, count, arith, Bool-cases, ◌≡◌, ◌+◌, ◌≤◌, if◌then◌else◌, inl, ◌==◌, inr, ◌&&◌,
  Table, ◌<◌, ap, lookup, refl, some,
}
use bidvault_backend.Watchlist.{upsert, delete_many, watchers, is_watch, watch, unwatch}
use bidvault_backend.Store.{Auction}

-- The primary key: no pair stands twice.
abbrev pub IsPaired : List WatchRow → Type 0
IsPaired [] = Unit
IsPaired (r ∷ rows) = (count (is_watch r.user_id r.auction_id) rows ≡ 0) × IsPaired rows

is_one : ℕ → ℕ → List WatchRow → ℕ
is_one user_id auction_id rows = count (is_watch user_id auction_id) rows

count-upsert :
    (user_id auction_id u a : ℕ) (rows : List WatchRow)
    → count (is_watch u a) (upsert user_id auction_id rows)
      ≡ count (is_watch u a) rows
        + (if user_id == u && auction_id == a && count (is_watch u a) rows == 0 then 1 else 0)
unfolding upsert
count-upsert user_id auction_id u a [] = ground arith
count-upsert user_id auction_id u a (r ∷ rows) =
    ground (arith, count-upsert user_id auction_id u a rows)

upsert-IsPaired :
    (user_id auction_id : ℕ) (rows : List WatchRow)
    → IsPaired rows
    → IsPaired (upsert user_id auction_id rows)
unfolding upsert
upsert-IsPaired user_id auction_id [] h = (omega arith, tt)
upsert-IsPaired user_id auction_id (r ∷ rows) h =
    elim (Bool-cases (is_watch user_id auction_id r)) [
      | inl old ↦ rw old h
      | inr new ↦ rw new (
        ground (arith, count-upsert user_id auction_id r.user_id r.auction_id rows),
        upsert-IsPaired user_id auction_id rows h.1,
      )
    ]

watchers-upsert :
    (user_id auction_id : ℕ) (rows : List WatchRow)
    → watchers auction_id (upsert user_id auction_id rows)
      ≡ watchers auction_id rows + (if count (is_watch user_id auction_id) rows == 0 then 1 else 0)
unfolding upsert
watchers-upsert user_id auction_id [] = ground arith
watchers-upsert user_id auction_id (r ∷ rows) =
    ground (arith, watchers-upsert user_id auction_id rows)

watchers-delete :
    (user_id auction_id : ℕ) (rows : List WatchRow)
    → watchers auction_id (delete_many user_id auction_id rows)
        + count (is_watch user_id auction_id) rows
      ≡ watchers auction_id rows
unfolding delete_many
watchers-delete user_id auction_id [] = omega arith
watchers-delete user_id auction_id (r ∷ rows) =
    ground (arith, watchers-delete user_id auction_id rows)

once : (u a : ℕ) (rows : List WatchRow) → IsPaired rows → count (is_watch u a) rows ≤ 1
once u a [] h = omega arith
once u a (r ∷ rows) h = ground (arith, once u a rows h.1)

upsert_kept :
    (user_id auction_id : ℕ) (rows : List WatchRow)
    → 0 < count (is_watch user_id auction_id) rows
    → upsert user_id auction_id rows ≡ rows
unfolding upsert
upsert_kept user_id auction_id [] h = absurd (omega arith)
upsert_kept user_id auction_id (r ∷ rows) h = elim (Bool-cases (is_watch user_id auction_id r)) [
  | inl old ↦ rw old refl
  | inr new ↦ rw new (ap (λ rs. r ∷ rs) (upsert_kept user_id auction_id rows (ground arith)))
]

module _ (user_id auction_id : ℕ) (auctions : Table Auction) (auction : Auction)
    (found : lookup auction_id auctions ≡ some auction) where
  watch-rows :
      (rows : List WatchRow)
      → (watch user_id auction_id auctions rows).1 ≡ upsert user_id auction_id rows
  unfolding watch
  watch-rows rows = rw (found, watch) refl

  -- A watch of an auction that exists keeps the rows' key, counts its user once among the auction's
  -- watchers, one more than an unwatch would leave, whether or not they were watching, and a repeat
  -- of it changes nothing.
  pub watched_once :
      (rows : List WatchRow)
      → IsPaired rows
      → IsPaired (watch user_id auction_id auctions rows).1
        × (watchers auction_id (watch user_id auction_id auctions rows).1
            ≡ watchers auction_id (unwatch user_id auction_id rows).1 + 1)
        × ((watch user_id auction_id auctions (watch user_id auction_id auctions rows).1).1
            ≡ (watch user_id auction_id auctions rows).1)
  unfolding unwatch
  watched_once rows paired =
      rw (watch-rows rows, watch-rows (upsert user_id auction_id rows))
        (
          upsert-IsPaired user_id auction_id rows paired,
          ground (
            arith,
            watchers-upsert user_id auction_id rows,
            watchers-delete user_id auction_id rows,
            once user_id auction_id rows paired,
          ),
          upsert_kept user_id auction_id (upsert user_id auction_id rows)
              (ground (arith, count-upsert user_id auction_id user_id auction_id rows)),
        )
