-- ===== src/Watchlist.antt =====
-- The routes of src/modules/watchlist/watchlist.routes.ts that write; the key of a row is the pair of
-- its user and its auction.
pub mod Watchers
use bidvault_backend.Store.{Auction}
use bidvault_backend.AuctionViews.{WatchRow}
use bidvault_backend.Common.{
  none, some, ℕ, [], ◌∷◌, Bool, List, Table, count, ◌==◌, if◌then◌else◌, false, keep, lookup, ◌&&◌,
  not, true,
}

abbrev pub is_watch : ℕ → ℕ → WatchRow → Bool
is_watch user_id auction_id r = r.user_id == user_id && r.auction_id == auction_id

-- `watchlist.upsert` with an empty update
unfoldable pub upsert : ℕ → ℕ → List WatchRow → List WatchRow
upsert user_id auction_id [] = record { user_id = user_id; auction_id = auction_id } ∷ []
upsert user_id auction_id (r ∷ rows) =
    if is_watch user_id auction_id r then r ∷ rows else r ∷ upsert user_id auction_id rows

-- `watchlist.deleteMany`
unfoldable pub delete_many : ℕ → ℕ → List WatchRow → List WatchRow
delete_many user_id auction_id rows = keep (λ r. not (is_watch user_id auction_id r)) rows

pub data WatchAnswer : Type 0 where
  auction_not_found : WatchAnswer
  watched : (auction_id : ℕ) (is_watched : Bool) → WatchAnswer

-- POST /:auctionId
unfoldable pub watch : ℕ → ℕ → Table Auction → List WatchRow → WatchAnswer × List WatchRow
watch user_id auction_id auctions rows = elim (lookup auction_id auctions) [
  | none ↦ (auction_not_found, rows)
  | some auction ↦ (watched auction_id true, upsert user_id auction_id rows)
]

-- DELETE /:auctionId
unfoldable pub unwatch : ℕ → ℕ → List WatchRow → WatchAnswer × List WatchRow
unwatch user_id auction_id rows = (watched auction_id false, delete_many user_id auction_id rows)

-- The number that `buildWatcherCountMap` gives for an auction.
abbrev pub watchers : ℕ → List WatchRow → ℕ
watchers auction_id rows = count (λ r. r.auction_id == auction_id) rows
