-- ===== src/Auth/Refresh/Lockout.antt =====
-- A password reset: no earlier session goes on after it, and the new password signs in.
use bidvault_backend.Common.{
  ℕ, [], ◌∷◌, lookup, Table, ◌≡◌, some, ◌≢◌, none, arith, insert, Option-cases, Bool, inl, true,
  inr, IsKeyed, false, ◌==◌,
}
use bidvault_backend.Auth.{
  Passwords, revoke_where, CodeQueries, AuthStore, RefreshToken, Account, revoke_all, find_account,
  Tokens, SessionConfig, ArePasswords,
}
use bidvault_backend.Auth.Codes.{reset_password, CodeAnswer, guess}
use bidvault_backend.Auth.Sessions.{
  login, create_session_tokens, SessionAnswer, sign_refresh_token, claims_of,
}
use bidvault_backend.Auth.Refresh.{TokenRequest, refresh}
use bidvault_backend.Auth.Refresh.Calls.{AuthRun, revoked_stays}
use bidvault_backend.Store.{is_user_suspended, find_by-fits, find_by-insert}
use bidvault_backend.Auth.Refresh.Rotation.{refresh-IsSound}

ended :
    (now user_id j : ℕ) (row : RefreshToken) (t : Table RefreshToken)
    → lookup j (revoke_all now user_id t) ≡ some row
    → row.user_id ≡ user_id
    → row.revoked_at ≢ none
unfolding lookup revoke_where
ended now user_id j row [] h same = absurd (ground arith)
ended now user_id j row ((i, r) ∷ t) h same = ground (arith, ended now user_id j row t)

module _ (p : Passwords) (q : CodeQueries) (now salt email otp password : ℕ) (s : AuthStore) (u : ℕ)
    (a : Account) (found : find_account email s ≡ some (u, a))
    (done : (reset_password p q now salt email otp password s).0 ≡ CodeAnswer.password_reset) where
  reset_state :
      ((reset_password p q now salt email otp password s).1.accounts
        ≡ insert u (record a { password_hash = p.hash salt password }) s.accounts)
      × ((reset_password p q now salt email otp password s).1.refresh_tokens
          ≡ revoke_all now u s.refresh_tokens)
  unfolding reset_password
  reset_state = elim (Option-cases (guess q now u otp s.reset_codes).0) [
    | inl e ↦ absurd (ground arith)
    | inr (c, e) ↦ (ground arith, ground arith)
  ]

  abbrev pub reset : AuthStore
  reset = (reset_password p q now salt email otp password s).1

  -- No refresh token of the user has been made since the reset.
  abbrev pub NoneSince : AuthStore → Type 0
  NoneSince later =
      (j : ℕ) (row : RefreshToken)
      → lookup j later.refresh_tokens ≡ some row
      → row.user_id ≡ u
      → lookup j reset.refresh_tokens ≢ none

  stays_ended :
      (later : AuthStore) (j : ℕ) (r row : RefreshToken)
      → AuthRun reset later
      → lookup j reset.refresh_tokens ≡ some r
      → lookup j later.refresh_tokens ≡ some row
      → row.user_id ≡ u
      → row.revoked_at ≢ none
  stays_ended later j r row run before there own alive =
      let (accounts, tokens) = reset_state in
      let (r', there', (user, hash, expiry, creation, kept)) = revoked_stays j r run before in
      let same : r' ≡ row = ground arith in
      let spent : r.revoked_at ≢ none =
        ended now u j r s.refresh_tokens (rw (← tokens) before) (ground arith) in
      elim kept [ inl unspent ↦ spent unspent | inr stayed ↦ spent (ground arith) ]

  -- After a password reset that was accepted, and any further calls that make no new session of the
  -- account's user, no refresh signs the user in, whichever refresh token it presents: neither one
  -- that reads the token's row after the reset, nor one that had read it before.
  pub reset_locks_out :
      (t : Tokens) (config : SessionConfig) (now' new_id : ℕ) (req : TokenRequest)
      (seen later : AuthStore)
      → AuthRun reset later
      → NoneSince later
      → AuthRun seen later
      → IsKeyed seen.refresh_tokens
      → lookup new_id later.refresh_tokens ≡ none
      → (token : ℕ) (remember : Bool)
      → (refresh t config now' new_id req seen later).0 ≢ SessionAnswer.signed_in u token remember
  reset_locks_out t config now' new_id req seen later since none_new run keyed fresh token remember
        signed =
      let (j, row, there, own, alive) =
        (refresh-IsSound t config now' new_id req seen later run keyed fresh).1 u token remember
          signed in
      elim (Option-cases (lookup j reset.refresh_tokens)) [
        | inl missing ↦ none_new j row there own missing
        | inr (r, before) ↦ stays_ended later j r row since before there own alive
      ]

  -- After a password reset that was accepted, the new password signs the user in, at any later
  -- login with the same address, if the address is verified and the account not suspended.
  pub reset_then_login :
      (t : Tokens) (config : SessionConfig) (now' id salt' : ℕ) (remember : Bool)
      → ArePasswords p
      → a.is_email_verified ≡ true
      → is_user_suspended a.status ≡ false
      → (login p t config now' id salt' email password remember
          (reset_password p q now salt email otp password s).1).0
        ≡ SessionAnswer.signed_in u (sign_refresh_token t (claims_of u id remember) now') remember
  unfolding login create_session_tokens
  reset_then_login t config now' id salt' remember own verified active =
      let (accounts, tokens) = reset_state in
      ground (
        arith,
        own.verify_own salt password,
        find_by-insert (λ (b : Account). b.email == email) u a
            (record a { password_hash = p.hash salt password }) s.accounts,
        find_by_hit,
      )
    where
      find_by_hit : a.email == email ≡ true
      find_by_hit = find_by-fits (λ (b : Account). b.email == email) u a s.accounts found
