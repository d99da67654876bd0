-- ===== src/Sockets.antt =====
-- The subscriptions of one socket to auction rooms (src/socket/auction-subscriptions.ts): the token
-- bucket, the rooms and the lookups in flight, and the cache of lookups. Times are milliseconds. A
-- token is 1200 units, what 1200 ms refill, so that 50 tokens in 60000 ms are exact; the source has
-- floating-point tokens.
pub mod Rate
pub mod Rooms
pub mod Joins
pub mod Cache
use bidvault_backend.Common.{
  ℕ, [], ◌∷◌, Bool, Table, false, ◌*◌, min, if◌then◌else◌, insert, List, true, Option, none,
  or_else, lookup, some, not, ◌+◌, is_some, ◌&&◌, keep, ltb, ◌==◌, ◌-◌, leb, contains, remove, ◌++◌,
  length,
}

abbrev pub token : ℕ
token = 1200

-- BUCKET_CAPACITY tokens
abbrev pub bucket_capacity : ℕ
bucket_capacity = 50 * token

abbrev pub max_auction_rooms : ℕ
max_auction_rooms = 25

abbrev pub cache_ttl_ms : ℕ
cache_ttl_ms = 30000

abbrev pub cache_capacity : ℕ
cache_capacity = 1000

pub record SubscriptionBucket : Type 0 where
  pub tokens : Option ℕ
  pub refilled_at : Option ℕ

abbrev pub available : SubscriptionBucket → ℕ → ℕ
available bucket now =
    min bucket_capacity
      (or_else bucket.tokens bucket_capacity + (now - or_else bucket.refilled_at now))

unfoldable pub consume_subscription_token : SubscriptionBucket → ℕ → Bool × SubscriptionBucket
consume_subscription_token bucket now =
    if ltb (available bucket now) token
    then (false, record { tokens = some (available bucket now); refilled_at = some now })
    else (true, record { tokens = some (available bucket now - token); refilled_at = some now })

-- The latest command for a room whose lookup is in flight.
pub data Command : Type 0 where
  join leave : Command

abbrev pub is_join : Command → Bool
is_join join = true
is_join leave = false

pub record Subscriptions : Type 0 where
  pub connected : Bool
  pub rooms : List ℕ
  pub pending : Table Command
  pub bucket : SubscriptionBucket

abbrev pub opened : Subscriptions
opened = record {
  connected = true;
  rooms = [];
  pending = [];
  bucket = record { tokens = none; refilled_at = none };
}

-- `socket.leave`, and the end of the connection, which leaves every room.
abbrev pub leave_room : ℕ → List ℕ → List ℕ
leave_room room rooms = keep (λ r. not (r == room)) rooms

abbrev pub disconnected : Subscriptions → Subscriptions
disconnected s = record s { connected = false; rooms = [] }

-- `auction:subscribe` with an id that passes the checks of its form
unfoldable pub subscribe : ℕ → ℕ → Subscriptions → Subscriptions
unfolding consume_subscription_token
subscribe now room s =
    let (granted, bucket) = consume_subscription_token s.bucket now in
    let s' = record s { bucket = bucket } in
    let wished = record s' { pending = insert room join s.pending } in
    if not granted
    then disconnected s'
    else if is_some (lookup room s.pending)
    then wished
    else if contains room s.rooms
    then s'
    else if leb max_auction_rooms (length s.rooms + length s.pending)
    then s'
    else wished

unfoldable pub unsubscribe : ℕ → Subscriptions → Subscriptions
unsubscribe room s = record s {
  rooms = leave_room room s.rooms;
  pending = if is_some (lookup room s.pending) then insert room leave s.pending else s.pending;
}

abbrev pub is_wanted : Option Command → Bool
is_wanted none = false
is_wanted (some c) = is_join c

-- The lookup of a room answers; `exists` is false where it failed.
unfoldable pub looked_up : ℕ → Bool → Subscriptions → Subscriptions
looked_up room exists s = record s {
  rooms =
      if exists && s.connected && is_wanted (lookup room s.pending)
      then (if contains room s.rooms then s.rooms else s.rooms ++ room ∷ [])
      else s.rooms;
  pending = remove room s.pending;
}

pub data SocketEvent : Type 0 where
  subscribed : (now room : ℕ) → SocketEvent
  unsubscribed : (room : ℕ) → SocketEvent
  answered : (room : ℕ) (exists : Bool) → SocketEvent
  closed : SocketEvent

unfoldable pub on_event : SocketEvent → Subscriptions → Subscriptions
unfolding subscribe unsubscribe looked_up
on_event (subscribed now room) s = subscribe now room s
on_event (unsubscribed room) s = unsubscribe room s
on_event (answered room exists) s = looked_up room exists s
on_event closed s = disconnected s

unfoldable pub on_events : List SocketEvent → Subscriptions → Subscriptions
on_events [] s = s
on_events (e ∷ es) s = on_events es (on_event e s)

-- AuctionExistenceCache: the entries in the order of insertion.
pub record CacheEntry : Type 0 where
  pub exists : Bool
  pub expires_at : ℕ

-- Up to the query: the entry that answers, if any, and the entries.
unfoldable pub cache_read : ℕ → ℕ → Table CacheEntry → Option Bool × Table CacheEntry
cache_read now auction_id entries = elim (lookup auction_id entries) [
  | none ↦ (none, entries)
  | some cached ↦
      if ltb now cached.expires_at
      then (some cached.exists, remove auction_id entries ++ (auction_id, cached) ∷ [])
      else (none, remove auction_id entries)
]

abbrev pub without_oldest : Table CacheEntry → Table CacheEntry
without_oldest [] = []
without_oldest (oldest ∷ entries) = entries

-- After the query, started at `now`.
unfoldable pub cache_store : ℕ → ℕ → Bool → Table CacheEntry → Table CacheEntry
cache_store now auction_id exists entries =
    insert auction_id (record { exists = exists; expires_at = now + cache_ttl_ms })
      (if leb cache_capacity (length entries) then without_oldest entries else entries)
