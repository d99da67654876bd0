-- ===== src/Accounts/Suspension.antt =====
-- A suspended account is refused.
use bidvault_backend.Common.{
  ℕ, ◌∷◌, List, String, Option, ◌≡◌, true, lookup, Option-cases, some, inl, arith, inr, ◌≢◌,
  lookup-insert_self, lookup-remove, none, false, ◌<◌, ◌+◌,
}
use bidvault_backend.Accounts.{
  AccountState, suspend_user, AllowedRoles, StatusAnswer, AuthAnswer, auth_starts, lookup_done,
  AuthStart, AccountAccess, AccessLookup, gate, lookup_at, access_ttl_ms,
}
use bidvault_backend.Accounts.Requests.{
  Says, AuthEvent, after_events, after_events-Says, NoneInFlight, waiting-Says, none_waiting,
}
use bidvault_backend.Store.{next, UserStatus}
use bidvault_backend.Auth.{Role}

abbrev IsShut : AccountAccess → Type 0
IsShut access = access.suspended ≡ true

suspend_in_flight :
    (user_id admin_user_id : ℕ) (reason : String) (s : AccountState)
    → (suspend_user user_id admin_user_id reason s).1.in_flight ≡ s.in_flight
unfolding suspend_user
suspend_in_flight user_id admin_user_id reason s = ground arith

suspend-Says :
    (user_id admin_user_id : ℕ) (reason : String) (s : AccountState)
    → NoneInFlight user_id s
    → (suspend_user user_id admin_user_id reason s).0 ≡ next StatusAnswer.status_changed
    → Says IsShut user_id (suspend_user user_id admin_user_id reason s).1
unfolding suspend_user
suspend-Says user_id admin_user_id reason s idle done =
    elim (Option-cases (lookup user_id s.world.users)) [
      | inl e ↦ absurd (ground arith)
      | inr (u, e) ↦ record {
        row = ground (
          arith,
          lookup-insert_self user_id (record u { status = UserStatus.suspended }) s.world.users,
        );
        cached = λ c h. absurd (ground (arith, lookup-remove user_id user_id s.cache));
        waiting =
            rw (suspend_in_flight user_id admin_user_id reason s)
              (none_waiting IsShut user_id s.in_flight idle);
      }
    ]

gate_shut :
    (roles : Option AllowedRoles) (user_id : ℕ) (role : Role) (access : AccountAccess)
    → IsShut access
    → gate roles user_id role access ≢ AuthAnswer.allowed user_id role
gate_shut roles user_id role access shut h = absurd (ground arith)

-- Neither at once nor after a lookup is a request of the user let through.
abbrev pub IsRefused : ℕ → Role → AccountState → Type 0
IsRefused user_id role s =
    ((roles : Option AllowedRoles) (now : ℕ)
      → auth_starts roles now (some (some (user_id, role))) s
        ≢ AuthStart.answered (AuthAnswer.allowed user_id role))
    × ((now n : ℕ) → (lookup_done now n s).0 ≢ some (AuthAnswer.allowed user_id role))

start_refused :
    (roles : Option AllowedRoles) (now user_id : ℕ) (role : Role) (s : AccountState)
    → Says IsShut user_id s
    → auth_starts roles now (some (some (user_id, role))) s
      ≢ AuthStart.answered (AuthAnswer.allowed user_id role)
unfolding auth_starts
start_refused roles now user_id role s says h = elim (Option-cases (lookup user_id s.cache)) [
  | inl e ↦ absurd (ground arith)
  | inr (c, e) ↦ absurd (ground (arith, says.cached c e))
]

done_refused :
    (now n user_id : ℕ) (role : Role) (s : AccountState)
    → Says IsShut user_id s
    → (lookup_done now n s).0 ≢ some (AuthAnswer.allowed user_id role)
unfolding lookup_done
done_refused now n user_id role s says h = elim (Option-cases (lookup_at n s.in_flight)) [
  | inl e ↦ absurd (ground arith)
  | inr (l, e) ↦
      let same : l.user_id ≡ user_id = ground arith in
      absurd (ground (arith, waiting-Says IsShut user_id n s l says e same))
]

-- Once a suspension has gone through, the process that made it lets no request of that user past
-- requireAuth, on any route and with any role in the token, neither at once nor after a lookup, after
-- any interleaving of the lookups of this and other requests: if, when it went through, no lookup of
-- that user was between its query and its answer.
pub suspend_user-IsRefused :
    (user_id admin_user_id : ℕ) (reason : String) (s : AccountState) (events : List AuthEvent)
    (role : Role)
    → NoneInFlight user_id s
    → (suspend_user user_id admin_user_id reason s).0 ≡ next StatusAnswer.status_changed
    → IsRefused user_id role (after_events events (suspend_user user_id admin_user_id reason s).1)
suspend_user-IsRefused user_id admin_user_id reason s events role idle done =
    let says =
      after_events-Says IsShut user_id events (suspend_user user_id admin_user_id reason s).1
        (suspend-Says user_id admin_user_id reason s idle done) in
    (
      λ roles now.
          start_refused roles now user_id role
            (after_events events (suspend_user user_id admin_user_id reason s).1) says,
      λ now n.
          done_refused now n user_id role
            (after_events events (suspend_user user_id admin_user_id reason s).1) says,
    )

-- A lookup that had read the row before the suspension lets its request through, and the cache has
-- the user active again: the requests that start in the next ten seconds are let through as well.
pub stale_lookup :
    (user_id later now : ℕ) (role : Role) (l : AccessLookup) (ls : List AccessLookup)
    (s : AccountState)
    → s.in_flight ≡ l ∷ ls
    → l.user_id ≡ user_id
    → l.access.suspended ≡ false
    → now < later + access_ttl_ms
    → auth_starts none now (some (some (user_id, role))) (lookup_done later 0 s).1
      ≡ AuthStart.answered (AuthAnswer.allowed user_id role)
unfolding lookup_done auth_starts
stale_lookup user_id later now role l ls s e own active soon =
    rw (e, own)
      (rw (lookup-insert_self user_id (record { access = l.access; at = later }) s.cache)
        (ground arith))
