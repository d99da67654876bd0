-- ===== src/Sockets/Cache.antt =====
-- The cache of auction lookups stays within its capacity and remembers what it stored.
use bidvault_backend.Common.{
  ℕ, [], ◌∷◌, Bool, Table, ◌≡◌, length, if◌then◌else◌, ◌≤◌, ltb, ◌+◌, arith, length-insert, some,
  none, lookup-insert_self, insert,
}
use bidvault_backend.Sockets.{
  cache_store, cache_read, CacheEntry, cache_capacity, cache_ttl_ms, without_oldest,
}

stored_length :
    (now auction_id : ℕ) (exists : Bool) (entries : Table CacheEntry)
    → length entries ≤ cache_capacity
    → length (cache_store now auction_id exists entries) ≤ cache_capacity
unfolding cache_store insert
stored_length now auction_id exists [] h = ground arith
stored_length now auction_id exists (e ∷ entries) h = ground (
  arith,
  length-insert auction_id (record { exists = exists; expires_at = now + cache_ttl_ms })
      (e ∷ entries),
  length-insert auction_id (record { exists = exists; expires_at = now + cache_ttl_ms }) entries,
)

stored_answer :
    (now later auction_id : ℕ) (exists : Bool) (entries : Table CacheEntry)
    → (cache_read later auction_id (cache_store now auction_id exists entries)).0
      ≡ (if ltb later (now + cache_ttl_ms) then some exists else none)
unfolding cache_store cache_read
stored_answer now later auction_id exists entries = ground (
  arith,
  lookup-insert_self auction_id (record { exists = exists; expires_at = now + cache_ttl_ms })
      entries,
  lookup-insert_self auction_id (record { exists = exists; expires_at = now + cache_ttl_ms })
      (without_oldest entries),
)

-- A cache within its capacity stays within it when a lookup's result is stored; a read of that
-- auction right after gives this result until thirty seconds after the lookup began, and then
-- nothing.
pub cache_remembers :
    (now later auction_id : ℕ) (exists : Bool) (entries : Table CacheEntry)
    → length entries ≤ cache_capacity
    → (length (cache_store now auction_id exists entries) ≤ cache_capacity)
      × ((cache_read later auction_id (cache_store now auction_id exists entries)).0
          ≡ (if ltb later (now + cache_ttl_ms) then some exists else none))
cache_remembers now later auction_id exists entries h = (
  stored_length now auction_id exists entries h,
  stored_answer now later auction_id exists entries,
)
