-- ===== src/Sockets/Joins.antt =====
-- A subscribe that was taken up gets in.
use bidvault_backend.Common.{ℕ, contains, ◌≡◌, Bool, ◌==◌, true, not, lookup, ◌||◌}
use bidvault_backend.Sockets.{SocketEvent, Subscriptions, is_wanted}

-- While the connection stands: in the room, or a lookup in flight that will join it.
abbrev pub IsComing : ℕ → Subscriptions → Type 0
IsComing room s =
    s.connected ≡ true → (contains room s.rooms || is_wanted (lookup room s.pending)) ≡ true

-- An event that leaves the wish for a room: no unsubscribe from it, and no lookup that fails or
-- finds no such auction.
abbrev pub leaves_wish : ℕ → SocketEvent → Bool
leaves_wish room (SocketEvent.unsubscribed r) = not (r == room)
leaves_wish room (SocketEvent.answered r exists) = not (r == room) || exists
leaves_wish room _ = true
