-- ===== src/Auth/Refresh/Repeat.antt =====
-- Two requests with the same refresh token at about the same time, such as two tabs.
use bidvault_backend.Common.{
  ℕ, ◌≡◌, some, is_none, ◌&&◌, not, false, IsKeyed, none, lookup, Table, ◌<◌, insert, ◌==◌, arith,
  ◌-◌, lookup-insert, ◌≤◌, ◌+◌, lookup-insert_self, ◌⊎◌, inl, subst, inr, refl,
}
use bidvault_backend.Auth.{Tokens, SessionConfig, AuthStore, Claims, RefreshToken}
use bidvault_backend.Auth.Refresh.{
  TokenRequest, presented, find_token, successor_within_reuse_interval, refresh, spent_for,
  exchange, rotate, repeat_or_replay,
}
use bidvault_backend.Auth.Sessions.{SessionAnswer, new_session, sign_refresh_token, claims_of}
use bidvault_backend.Store.{find_by-lookup, find_by-insert_new, find_by-insert, find_by-fits}

module _ (t : Tokens) (config : SessionConfig) (now new_id : ℕ) (req : TokenRequest) (s : AuthStore)
    (token : ℕ) (claims : Claims) (i : ℕ) (r : RefreshToken) (sent : presented req ≡ some token)
    (trusted : (is_none req.body && not req.trusted_origin) ≡ false)
    (found : find_token (t.hash token) s.refresh_tokens ≡ some (i, r))
    (keyed : IsKeyed s.refresh_tokens) (alive : r.revoked_at ≡ none) (named : i ≡ claims.jti)
    (fresh : lookup new_id s.refresh_tokens ≡ none) where
  abbrev session : RefreshToken
  session = new_session t config now new_id r.user_id claims.remember

  abbrev spent_table : Table RefreshToken
  spent_table = insert new_id session (insert i (spent_for now new_id r) s.refresh_tokens)

  abbrev answer : SessionAnswer
  answer =
      SessionAnswer.signed_in r.user_id
        (sign_refresh_token t (claims_of r.user_id new_id claims.remember) now) claims.remember

  there : lookup i s.refresh_tokens ≡ some r
  there = (find_by-lookup (λ r. r.token_hash == t.hash token) i r s.refresh_tokens keyed found).0

  first_refresh :
      t.verify token now ≡ some claims
      → now < r.expires_at
      → refresh t config now new_id req s s ≡ (answer, record s { refresh_tokens = spent_table })
  unfolding refresh exchange rotate
  first_refresh reads unexpired = ground (arith, there)

  still_there : lookup i spent_table ≡ some (spent_for now new_id r)
  still_there = ground (
    arith,
    there,
    lookup-insert new_id i session (insert i (spent_for now new_id r) s.refresh_tokens),
    lookup-insert i i (spent_for now new_id r) s.refresh_tokens,
  )

  -- The first token's row is found by its hash as before.
  found_again : find_token (t.hash token) spent_table ≡ some (i, spent_for now new_id r)
  found_again =
      find_by-insert_new (λ r. r.token_hash == t.hash token) new_id i (spent_for now new_id r)
        session (insert i (spent_for now new_id r) s.refresh_tokens)
        (ground (arith, there, lookup-insert i new_id (spent_for now new_id r) s.refresh_tokens))
        (find_by-insert (λ r. r.token_hash == t.hash token) i r (spent_for now new_id r)
          s.refresh_tokens found
          (find_by-fits (λ r. r.token_hash == t.hash token) i r s.refresh_tokens found))

  successor :
      (now' : ℕ)
      → 0 < config.reuse_interval
      → now' - now ≤ config.reuse_interval
      → now' < now + config.lifetime
      → successor_within_reuse_interval t config now'
          (spent_for now new_id r)
          claims.remember
          (record s { refresh_tokens = spent_table })
        ≡ some (sign_refresh_token t (claims_of r.user_id new_id claims.remember) now)
  unfolding successor_within_reuse_interval
  successor now' on soon unexpired = ground (
    arith,
    lookup-insert_self new_id session (insert i (spent_for now new_id r) s.refresh_tokens),
  )

  repeated :
      (now' new_id' : ℕ) (seen : AuthStore)
      → t.verify token now' ≡ some claims
      → now' < r.expires_at
      → 0 < config.reuse_interval
      → now' - now ≤ config.reuse_interval
      → now' < now + config.lifetime
      → (seen ≡ s) ⊎ (seen ≡ record s { refresh_tokens = spent_table })
      → refresh t config now' new_id' req seen (record s { refresh_tokens = spent_table })
        ≡ (answer, record s { refresh_tokens = spent_table })
  unfolding refresh exchange rotate repeat_or_replay
  repeated now' new_id' seen reads unexpired on soon lasts (inl e) =
      ground (arith, still_there, successor now' on soon lasts)
  repeated now' new_id' seen reads unexpired on soon lasts (inr e) =
      ground (arith, found_again, successor now' on soon lasts)

  -- A live refresh token is presented twice, the second time within the reuse interval and before
  -- it and its successor expire: the first refresh signs in with a new token, and the second, even
  -- one that had read the token's row before the first one wrote, gives the same answer with the
  -- same token and changes nothing.
  pub refresh_twice :
      (now' new_id' : ℕ) (seen : AuthStore)
      → t.verify token now ≡ some claims
      → t.verify token now' ≡ some claims
      → now ≤ now'
      → now' < r.expires_at
      → 0 < config.reuse_interval
      → now' - now ≤ config.reuse_interval
      → now' < now + config.lifetime
      → (seen ≡ s) ⊎ (seen ≡ (refresh t config now new_id req s s).1)
      → ((refresh t config now new_id req s s).0 ≡ answer)
        × (refresh t config now' new_id' req seen (refresh t config now new_id req s s).1
            ≡ refresh t config now new_id req s s)
  refresh_twice now' new_id' seen first second order unexpired on soon lasts read =
      let e = first_refresh first (omega arith) in
      rw e (
        refl,
        repeated now' new_id' seen second unexpired on soon lasts
            (subst (λ x. (seen ≡ s) ⊎ (seen ≡ x.1)) e read),
      )
