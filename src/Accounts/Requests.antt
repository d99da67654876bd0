-- ===== src/Accounts/Requests.antt =====
-- The requests that reach a process, in any interleaving of what requireAuth does before and after the
-- query of the account's row.
use bidvault_backend.Common.{
  ℕ, [], ◌∷◌, none, some, List, Option, lookup, ◌≡◌, arith, inl, inr, refl, insert_cases, zero, suc,
  All, sym, ◌≢◌, All-map, subst,
}
use bidvault_backend.Accounts.{
  AccountState, AccountAccess, CachedAccess, AccessLookup, AllowedRoles, access_of, without,
  lookup_at, finished, lookup_reads, lookup_done, lookup_fails,
}
use bidvault_backend.Auth.{Role}

-- What a request does to the process, besides being answered.
pub data AuthEvent : Type 0 where
  reads : (roles : Option AllowedRoles) (user_id : ℕ) (role : Role) → AuthEvent
  is_done : (now n : ℕ) → AuthEvent
  fails : (n : ℕ) → AuthEvent

abbrev pub happens : AuthEvent → AccountState → AccountState
happens (reads roles user_id role) s = lookup_reads roles user_id role s
happens (is_done now n) s = (lookup_done now n s).1
happens (fails n) s = (lookup_fails n s).1

unfoldable pub after_events : List AuthEvent → AccountState → AccountState
after_events [] s = s
after_events (e ∷ es) s = after_events es (happens e s)

-- No request of the user waits for a query that has read the row.
abbrev pub NoneInFlight : ℕ → AccountState → Type 0
NoneInFlight user_id s = All (λ (l : AccessLookup). l.user_id ≢ user_id) s.in_flight

module _ (P : AccountAccess → Type 0) (user_id : ℕ) where
  -- All that the process knows of the user, or will know, is as `P` says.
  pub record Says (s : AccountState) : Type 0 where
    pub row : P (access_of (lookup user_id s.world.users))
    pub cached : (c : CachedAccess) → lookup user_id s.cache ≡ some c → P c.access
    pub waiting : All (λ (l : AccessLookup). l.user_id ≡ user_id → P l.access) s.in_flight

  pub none_waiting :
      (ls : List AccessLookup)
      → All (λ (l : AccessLookup). l.user_id ≢ user_id) ls
      → All (λ (l : AccessLookup). l.user_id ≡ user_id → P l.access) ls
  none_waiting ls h = All-map (λ l ne same. absurd (ne same)) ls h

  without-All :
      (n : ℕ) (ls : List AccessLookup)
      → All (λ (l : AccessLookup). l.user_id ≡ user_id → P l.access) ls
      → All (λ (l : AccessLookup). l.user_id ≡ user_id → P l.access) (without n ls)
  without-All n [] h = tt
  without-All zero (l ∷ ls) h = h.1
  without-All (suc n) (l ∷ ls) h = (h.0, without-All n ls h.1)

  lookup_at-All :
      (n : ℕ) (ls : List AccessLookup) (l : AccessLookup)
      → All (λ (l : AccessLookup). l.user_id ≡ user_id → P l.access) ls
      → lookup_at n ls ≡ some l
      → l.user_id ≡ user_id
      → P l.access
  lookup_at-All n [] l h e same = absurd (ground arith)
  lookup_at-All zero (x ∷ ls) l h e same =
      let it : x ≡ l = ground arith in
      subst (λ (l : AccessLookup). l.user_id ≡ user_id → P l.access) it h.0 same
  lookup_at-All (suc n) (x ∷ ls) l h e same = lookup_at-All n ls l h.1 e same

  finished-Says :
      (now n : ℕ) (o : Option AccessLookup) (s : AccountState)
      → ((l : AccessLookup) → o ≡ some l → l.user_id ≡ user_id → P l.access)
      → Says s
      → Says (finished now n o s).1
  finished-Says now n none s h says = says
  finished-Says now n (some l) s h says = record {
    row = says.row;
    cached = λ c e.
        elim (insert_cases l.user_id user_id (record { access = l.access; at = now }) s.cache e) [
          | inl (same, is_new) ↦ rw is_new (h l refl (sym same))
          | inr (ne, old) ↦ says.cached c old
        ];
    waiting = without-All n s.in_flight says.waiting;
  }

  happens-Says : (e : AuthEvent) (s : AccountState) → Says s → Says (happens e s)
  unfolding lookup_reads lookup_done lookup_fails
  happens-Says (reads roles other role) s says = record {
    row = says.row;
    cached = says.cached;
    waiting = (λ same. rw same says.row, says.waiting);
  }
  happens-Says (is_done now n) s says =
      finished-Says now n (lookup_at n s.in_flight) s
        (λ l e same. lookup_at-All n s.in_flight l says.waiting e same) says
  happens-Says (fails n) s says = record {
    row = says.row;
    cached = says.cached;
    waiting = without-All n s.in_flight says.waiting;
  }

  pub after_events-Says :
      (es : List AuthEvent) (s : AccountState) → Says s → Says (after_events es s)
  unfolding after_events
  after_events-Says [] s says = says
  after_events-Says (e ∷ es) s says = after_events-Says es (happens e s) (happens-Says e s says)

  -- What a request is answered from.
  pub waiting-Says :
      (n : ℕ) (s : AccountState) (l : AccessLookup)
      → Says s
      → lookup_at n s.in_flight ≡ some l
      → l.user_id ≡ user_id
      → P l.access
  waiting-Says n s l says e same = lookup_at-All n s.in_flight l says.waiting e same
