-- ===== src/Scenarios/Rooms.antt =====
-- One socket: it subscribes to auctions 4 and 5, and the lookups answer late.
use bidvault_backend.Common.{
  [], ◌∷◌, List, contains, ◌+◌, ◌≡◌, none, ◌≤◌, false, true, refl, ◌/◌, arith,
}
use bidvault_backend.Sockets.Rate.{granted, granted_bounded}
use bidvault_backend.Sockets.{on_events, Subscriptions, opened, SocketEvent, unsubscribe, Command}
use bidvault_backend.Sockets.Rooms.{unsubscribed_stays_out}

abbrev waiting_for_4 : Subscriptions
waiting_for_4 = record opened { pending = (4, Command.join) ∷ [] }

abbrev late_answers : List SocketEvent
late_answers =
    SocketEvent.subscribed 10 5 ∷ SocketEvent.answered 4 true ∷ SocketEvent.answered 5 true ∷ []

-- It unsubscribes from 4 before the lookup answers.
unsubscribed_stays_out_example :
    contains 4 (on_events late_answers (unsubscribe 4 waiting_for_4)).rooms ≡ false
unsubscribed_stays_out_example =
    unsubscribed_stays_out 4 late_answers waiting_for_4 (refl, (refl, (refl, tt)))

granted_bounded_example :
    granted (0 ∷ 0 ∷ 500 ∷ 2500 ∷ []) (record { tokens = none; refilled_at = none })
    ≤ 50 + 2500 / 1200
granted_bounded_example =
    granted_bounded (record { tokens = none; refilled_at = none }) 0 (0 ∷ 500 ∷ 2500 ∷ [])
      (omega arith)
