-- ===== src/Accounts.antt =====
-- What an account may do: requireAuth of src/middleware/auth.ts, and the cached status with
-- suspension, reinstatement and the seller's enrolment of src/services/user-status.service.ts and
-- src/services/seller-account.service.ts. The cache is that of one process.
pub mod Requests
pub mod Suspension
pub mod Enrollment
pub mod Enrolled
use bidvault_backend.Common.{
  ℕ, [], ◌∷◌, Option, Bool, if◌then◌else◌, lookup, String, true, Table, false, insert, some, none,
  not, remove, ltb, ◌&&◌, ◌||◌, ◌-◌, ◌==◌, List, suc, zero,
}
use bidvault_backend.Auth.{Role}
use bidvault_backend.Store.{
  World, Flow, User, Tx, ◌>>=◌, next, modify, ◌>>◌, is_user_suspended, require, return_if, answer,
  gets, UserStatus, threw, audit, AuditAction, send, Effect, pure,
}

abbrev pub access_ttl_ms : ℕ
access_ttl_ms = 10000

pub record AccountAccess : Type 0 where
  pub suspended : Bool
  pub is_seller : Bool

pub record CachedAccess : Type 0 where
  pub access : AccountAccess
  pub at : ℕ

-- The roles that a route names.
pub record AllowedRoles : Type 0 where
  pub allows_buyer : Bool
  pub allows_seller : Bool
  pub allows_admin : Bool

-- A request whose `findUnique` has read the row, and that goes on when the answer comes.
pub record AccessLookup : Type 0 where
  pub roles : Option AllowedRoles
  pub user_id : ℕ
  pub role : Role
  pub access : AccountAccess

pub record AccountState : Type 0 where
  pub world : World
  pub cache : Table CachedAccess
  pub in_flight : List AccessLookup

abbrev pub access_of : Option User → AccountAccess
access_of none = record { suspended = false; is_seller = false }
access_of (some u) = record { suspended = is_user_suspended u.status; is_seller = u.is_seller }

-- `cached && Date.now() - cached.at < TTL_MS`
abbrev pub is_cached : ℕ → Option CachedAccess → Bool
is_cached now none = false
is_cached now (some c) = ltb (now - c.at) access_ttl_ms

pub data AuthAnswer : Type 0 where
  unauthorized invalid_token forbidden account_suspended : AuthAnswer
  allowed : (user_id : ℕ) (role : Role) → AuthAnswer

abbrev pub is_admin_role : Role → Bool
is_admin_role Role.admin = true
is_admin_role _ = false

-- The refusals that need no lookup: `isAdmin ? !includes('ADMIN') : !wantsAccount`.
abbrev pub is_barred : Option AllowedRoles → Role → Bool
is_barred none role = false
is_barred (some roles) role =
    if is_admin_role role
    then not roles.allows_admin
    else not (roles.allows_buyer || roles.allows_seller)

-- The role gate after the lookup.
abbrev pub is_kept_out : Option AllowedRoles → Role → AccountAccess → Bool
is_kept_out none role access = false
is_kept_out (some roles) role access =
    not (is_admin_role role)
    && not (roles.allows_buyer || (roles.allows_seller && access.is_seller))

-- `allowed` of requireAuth and what follows it, once the access is known.
abbrev pub gate : Option AllowedRoles → ℕ → Role → AccountAccess → AuthAnswer
gate roles user_id role access =
    if is_kept_out roles role access
    then forbidden
    else if access.suspended
    then account_suspended
    else allowed user_id role

-- A request is answered at once, or it looks its account up.
pub data AuthStart : Type 0 where
  answered : (a : AuthAnswer) → AuthStart
  looks_up : AuthStart

abbrev pub with_cached : Option AllowedRoles → ℕ → ℕ → Role → Option CachedAccess → AuthStart
with_cached roles now user_id role none = looks_up
with_cached roles now user_id role (some c) =
    if is_cached now (some c) then answered (gate roles user_id role c.access) else looks_up

-- requireAuth up to the query of getAccountAccess. `verified` is what verifyAccessToken gives for the
-- token of the header, if there is one.
unfoldable pub auth_starts :
    Option AllowedRoles → ℕ → Option (Option (ℕ × Role)) → AccountState → AuthStart
auth_starts roles now none s = answered unauthorized
auth_starts roles now (some none) s = answered invalid_token
auth_starts roles now (some (some (user_id, role))) s =
    if is_barred roles role
    then answered forbidden
    else with_cached roles now user_id role (lookup user_id s.cache)

-- The query of getAccountAccess reads the row.
unfoldable pub lookup_reads : Option AllowedRoles → ℕ → Role → AccountState → AccountState
lookup_reads roles user_id role s = record s {
  in_flight =
      record {
        roles = roles;
        user_id = user_id;
        role = role;
        access = access_of (lookup user_id s.world.users);
      }
      ∷ s.in_flight;
}

abbrev pub lookup_at : ℕ → List AccessLookup → Option AccessLookup
lookup_at n [] = none
lookup_at zero (l ∷ ls) = some l
lookup_at (suc n) (l ∷ ls) = lookup_at n ls

abbrev pub without : ℕ → List AccessLookup → List AccessLookup
without n [] = []
without zero (l ∷ ls) = ls
without (suc n) (l ∷ ls) = l ∷ without n ls

abbrev pub finished : ℕ → ℕ → Option AccessLookup → AccountState → Option AuthAnswer × AccountState
finished now n none s = (none, s)
finished now n (some l) s = (
  some (gate l.roles l.user_id l.role l.access),
  record s {
    cache = insert l.user_id (record { access = l.access; at = now }) s.cache;
    in_flight = without n s.in_flight;
  },
)

-- The answer of the n-th query in flight comes: `cache.set`, and the rest of requireAuth.
unfoldable pub lookup_done : ℕ → ℕ → AccountState → Option AuthAnswer × AccountState
lookup_done now n s = finished now n (lookup_at n s.in_flight) s

-- The n-th query in flight fails: requireAuth's `catch`.
unfoldable pub lookup_fails : ℕ → AccountState → AuthAnswer × AccountState
lookup_fails n s = (invalid_token, record s { in_flight = without n s.in_flight })

pub data StatusAnswer : Type 0 where
  status_changed self user_not_found already_suspended not_suspended : StatusAnswer

abbrev pub write_user : {R : Type 0} → ℕ → User → Tx R (Unit {0})
write_user user_id u = modify (λ w. record w { users = insert user_id u w.users })

-- The transaction and the mail of `suspendUser`.
unfoldable pub suspend_row : ℕ → ℕ → String → Tx StatusAnswer StatusAnswer
suspend_row user_id admin_user_id reason = do
  return_if (user_id == admin_user_id) self
  u ← require (← gets (λ w. lookup user_id w.users)) user_not_found
  return_if (is_user_suspended u.status) already_suspended
  write_user user_id (record u { status = UserStatus.suspended })
  audit (record {
    actor_user_id = some admin_user_id;
    action = AuditAction.user_suspended;
    entity_id = user_id;
    note = reason;
  })
  send (Effect.email_account_suspended user_id reason)
  pure status_changed

unfoldable pub reinstate_row : ℕ → ℕ → Tx StatusAnswer StatusAnswer
reinstate_row user_id admin_user_id = do
  u ← require (← gets (λ w. lookup user_id w.users)) user_not_found
  return_if (not (is_user_suspended u.status)) not_suspended
  write_user user_id (record u { status = UserStatus.active })
  audit (record {
    actor_user_id = some admin_user_id;
    action = AuditAction.user_reinstated;
    entity_id = user_id;
    note = "";
  })
  send (Effect.email_account_reinstated user_id)
  pure status_changed

-- `invalidateUserStatusCache`, after a transaction that changed the row.
abbrev pub after_change :
    ℕ
    → Flow StatusAnswer StatusAnswer × World
    → AccountState
    → Flow StatusAnswer StatusAnswer × AccountState
after_change user_id (next a, w) s =
    (next a, record s { world = w; cache = remove user_id s.cache })
after_change user_id (answer a, w) s = (answer a, record s { world = w })
after_change user_id (threw, w) s = (threw, record s { world = w })

unfoldable pub suspend_user :
    ℕ → ℕ → String → AccountState → Flow StatusAnswer StatusAnswer × AccountState
unfolding suspend_row
suspend_user user_id admin_user_id reason s =
    after_change user_id (suspend_row user_id admin_user_id reason s.world) s

unfoldable pub reinstate_user : ℕ → ℕ → AccountState → Flow StatusAnswer StatusAnswer × AccountState
unfolding reinstate_row
reinstate_user user_id admin_user_id s =
    after_change user_id (reinstate_row user_id admin_user_id s.world) s
