-- ===== src/Sockets/Rooms.antt =====
-- The cap on rooms and that the last command wins, over any order of commands and answers.
use bidvault_backend.Common.{
  ℕ, [], ◌∷◌, List, Bool, ◌==◌, All, length, lookup, ◌≡◌, arith, contains, false, length-append,
  lookup-insert, ◌+◌, keep, ◌≤◌, Bool-cases, not, refl, ◌++◌, inl, lookup-remove, inr,
  length-insert, length-remove,
}
use bidvault_backend.Sockets.{
  on_event, Subscriptions, on_events, looked_up, unsubscribe, SocketEvent, subscribe, join, leave,
  leave_room, is_wanted, max_auction_rooms,
}

-- Rooms joined and lookups in flight, within the cap.
abbrev pub IsWithinCap : Subscriptions → Type 0
IsWithinCap s = length s.rooms + length s.pending ≤ max_auction_rooms

length-keep : (p : ℕ → Bool) (xs : List ℕ) → length (keep p xs) ≤ length xs
length-keep p [] = omega arith
length-keep p (x ∷ xs) = ground (arith, length-keep p xs)

subscribe-IsWithinCap :
    (now room : ℕ) (s : Subscriptions) → IsWithinCap s → IsWithinCap (subscribe now room s)
unfolding subscribe
subscribe-IsWithinCap now room s h = ground (arith, length-insert room join s.pending)

unsubscribe-IsWithinCap :
    (room : ℕ) (s : Subscriptions) → IsWithinCap s → IsWithinCap (unsubscribe room s)
unfolding unsubscribe
unsubscribe-IsWithinCap room s h =
    ground
      (arith, length-insert room leave s.pending, length-keep (λ (r : ℕ). not (r == room)) s.rooms)

looked_up-IsWithinCap :
    (room : ℕ) (exists : Bool) (s : Subscriptions)
    → IsWithinCap s
    → IsWithinCap (looked_up room exists s)
unfolding looked_up
looked_up-IsWithinCap room exists s h =
    ground (arith, length-remove room s.pending, length-append s.rooms (room ∷ []))

on_event-IsWithinCap :
    (e : SocketEvent) (s : Subscriptions) → IsWithinCap s → IsWithinCap (on_event e s)
unfolding on_event
on_event-IsWithinCap (SocketEvent.subscribed now room) s h = subscribe-IsWithinCap now room s h
on_event-IsWithinCap (SocketEvent.unsubscribed room) s h = unsubscribe-IsWithinCap room s h
on_event-IsWithinCap (SocketEvent.answered room exists) s h = looked_up-IsWithinCap room exists s h
on_event-IsWithinCap SocketEvent.closed s h = omega arith

-- Whatever a client sends and whenever lookups answer, the rooms that it has joined and the lookups
-- in flight are at most twenty-five together, if they were before.
pub on_events-IsWithinCap :
    (es : List SocketEvent) (s : Subscriptions) → IsWithinCap s → IsWithinCap (on_events es s)
unfolding on_events
on_events-IsWithinCap [] s h = h
on_events-IsWithinCap (e ∷ es) s h =
    on_events-IsWithinCap es (on_event e s) (on_event-IsWithinCap e s h)

-- Not in the room, and no lookup in flight will join it.
abbrev pub IsLeft : ℕ → Subscriptions → Type 0
IsLeft room s = (contains room s.rooms ≡ false) × (is_wanted (lookup room s.pending) ≡ false)

contains-keep_self : (room : ℕ) (rooms : List ℕ) → contains room (leave_room room rooms) ≡ false
contains-keep_self room [] = refl
contains-keep_self room (r ∷ rooms) = ground (arith, contains-keep_self room rooms)

contains-keep :
    (room other : ℕ) (rooms : List ℕ)
    → contains room rooms ≡ false
    → contains room (leave_room other rooms) ≡ false
contains-keep room other [] h = refl
contains-keep room other (r ∷ rooms) h = ground (arith, contains-keep room other rooms)

contains-append :
    (room other : ℕ) (rooms : List ℕ)
    → contains room rooms ≡ false
    → (room == other) ≡ false
    → contains room (rooms ++ other ∷ []) ≡ false
contains-append room other [] h ne = ground arith
contains-append room other (r ∷ rooms) h ne = ground (arith, contains-append room other rooms)

abbrev pub is_subscribe : ℕ → SocketEvent → Bool
is_subscribe room (SocketEvent.subscribed now r) = r == room
is_subscribe room _ = false

on_event-IsLeft :
    (room : ℕ) (e : SocketEvent) (s : Subscriptions)
    → is_subscribe room e ≡ false
    → IsLeft room s
    → IsLeft room (on_event e s)
unfolding on_event
on_event-IsLeft room (SocketEvent.subscribed now r) s other (out, unwanted) =
    (ground arith, ground (arith, lookup-insert r room join s.pending))
on_event-IsLeft room (SocketEvent.unsubscribed r) s other (out, unwanted) =
    (contains-keep room r s.rooms out, ground (arith, lookup-insert r room leave s.pending))
on_event-IsLeft room (SocketEvent.answered r exists) s other (out, unwanted) =
    elim (Bool-cases (room == r)) [
      | inl same ↦
          let here : room ≡ r = ground arith in
          (ground arith, ground (arith, lookup-remove r room s.pending))
      | inr ne ↦ (
        ground (arith, contains-append room r s.rooms out ne),
        ground (arith, lookup-remove r room s.pending),
      )
    ]
on_event-IsLeft room SocketEvent.closed s other (out, unwanted) = (refl, unwanted)

unsubscribe-IsLeft : (room : ℕ) (s : Subscriptions) → IsLeft room (unsubscribe room s)
unfolding unsubscribe
unsubscribe-IsLeft room s =
    (contains-keep_self room s.rooms, ground (arith, lookup-insert room room leave s.pending))

on_events-IsLeft :
    (room : ℕ) (es : List SocketEvent) (s : Subscriptions)
    → All (λ e. is_subscribe room e ≡ false) es
    → IsLeft room s
    → IsLeft room (on_events es s)
unfolding on_events
on_events-IsLeft room [] s h left = left
on_events-IsLeft room (e ∷ es) s h left =
    on_events-IsLeft room es (on_event e s) h.1 (on_event-IsLeft room e s h.0 left)

-- After an unsubscribe the socket is out of the room and stays out, whatever lookups were in flight
-- and whenever they answer, until it subscribes to that room again.
pub unsubscribed_stays_out :
    (room : ℕ) (es : List SocketEvent) (s : Subscriptions)
    → All (λ e. is_subscribe room e ≡ false) es
    → contains room (on_events es (unsubscribe room s)).rooms ≡ false
unsubscribed_stays_out room es s h =
    (on_events-IsLeft room es (unsubscribe room s) h (unsubscribe-IsLeft room s)).0
