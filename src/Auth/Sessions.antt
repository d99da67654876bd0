-- ===== src/Auth/Sessions.antt =====
-- Sessions: login and change-password. An answer keeps the user, the refresh token of the cookie and
-- whether it is remembered; the access token, signed for the user and the role, is left out. `id` is
-- the UUID of a new row, `salt` what bcrypt draws.
use bidvault_backend.Common.{
  ℕ, Bool, Option, some, ◌/◌, true, insert, if◌then◌else◌, lookup, none, ◌+◌, not,
}
use bidvault_backend.Auth.{
  Account, Tokens, revoke_where, Passwords, SessionConfig, Claims, AuthStore, find_account,
  RefreshToken, revoke_all, mail, AuthMail,
}
use bidvault_backend.Store.{is_user_suspended}

pub data Denial : Type 0 where
  invalid_token expired_or_revoked token_mismatch session_invalidated : Denial

pub data SessionAnswer : Type 0 where
  signed_in : (user_id token : ℕ) (remember : Bool) → SessionAnswer
  wrong_credentials email_not_verified account_suspended : SessionAnswer
  no_token origin_not_allowed : SessionAnswer
  denied : (why : Denial) (cookie_cleared : Bool) → SessionAnswer
  signed_out user_not_found wrong_password : SessionAnswer
  not_deletable : (has_active_auction : Bool) → SessionAnswer
  account_deleted : SessionAnswer

abbrev pub claims_of : ℕ → ℕ → Bool → Claims
claims_of user_id id remember = record { sub = user_id; jti = id; remember = remember }

-- `iat` is in seconds.
abbrev pub sign_refresh_token : Tokens → Claims → ℕ → ℕ
sign_refresh_token t claims issued_at = t.sign claims (issued_at / 1000)

abbrev pub new_session : Tokens → SessionConfig → ℕ → ℕ → ℕ → Bool → RefreshToken
new_session t config now id user_id remember = record {
  user_id = user_id;
  token_hash = t.hash (sign_refresh_token t (claims_of user_id id remember) now);
  expires_at = now + config.lifetime;
  revoked_at = none;
  replaced_by = none;
  created_at = now;
}

unfoldable pub create_session_tokens :
    Tokens → SessionConfig → ℕ → ℕ → ℕ → Bool → AuthStore → SessionAnswer × AuthStore
create_session_tokens t config now id user_id remember s = (
  SessionAnswer.signed_in user_id (sign_refresh_token t (claims_of user_id id remember) now)
      remember,
  record s {
    refresh_tokens = insert id (new_session t config now id user_id remember) s.refresh_tokens;
  },
)

abbrev pub write_account : ℕ → Account → AuthStore → AuthStore
write_account user_id a s = record s { accounts = insert user_id a s.accounts }

-- `user?.passwordHash ?? DUMMY_PASSWORD_HASH`
abbrev pub compared_hash : Passwords → Option (ℕ × Account) → ℕ
compared_hash p none = p.dummy_hash
compared_hash p (some (u, a)) = a.password_hash

-- The account, re-hashed where its hash has the old cost.
abbrev pub rehashed : Passwords → ℕ → ℕ → ℕ → Account → AuthStore → AuthStore
rehashed p salt password u a s =
    if p.needs_rehash a.password_hash
    then write_account u (record a { password_hash = p.hash salt password }) s
    else s

unfoldable pub login :
    Passwords
    → Tokens
    → SessionConfig
    → ℕ
    → ℕ
    → ℕ
    → ℕ
    → ℕ
    → Bool
    → AuthStore
    → SessionAnswer × AuthStore
unfolding create_session_tokens
login p t config now id salt email password remember s =
    let found = find_account email s in
    let matched = p.verify password (compared_hash p found) in
    elim found [
      | none ↦ (SessionAnswer.wrong_credentials, s)
      | some (u, a) ↦
          if not matched
          then (SessionAnswer.wrong_credentials, s)
          else if not a.is_email_verified
          then (SessionAnswer.email_not_verified, s)
          else if is_user_suspended a.status
          then (SessionAnswer.account_suspended, s)
          else create_session_tokens t config now id u remember (rehashed p salt password u a s)
    ]

abbrev pub session_is_remembered : Tokens → ℕ → Option ℕ → Bool
session_is_remembered t now none = true
session_is_remembered t now (some token) = elim (t.verify token now) [
  | none ↦ true
  | some claims ↦ claims.remember
]

-- A new password, and the end of every session of the user.
abbrev pub with_password : Passwords → ℕ → ℕ → ℕ → ℕ → Account → AuthStore → AuthStore
with_password p now salt user_id password a s = record s {
  accounts = insert user_id (record a { password_hash = p.hash salt password }) s.accounts;
  refresh_tokens = revoke_all now user_id s.refresh_tokens;
}

unfoldable pub change_password :
    Passwords
    → Tokens
    → SessionConfig
    → ℕ
    → ℕ
    → ℕ
    → ℕ
    → ℕ
    → ℕ
    → Option ℕ
    → AuthStore
    → SessionAnswer × AuthStore
unfolding create_session_tokens revoke_where
change_password p t config now id salt user_id current password cookie s =
    elim (lookup user_id s.accounts) [
      | none ↦ (SessionAnswer.user_not_found, s)
      | some a ↦
          if not (p.verify current a.password_hash)
          then (SessionAnswer.wrong_password, s)
          else let (answer, s') =
              create_session_tokens t config now id user_id (session_is_remembered t now cookie)
                (with_password p now salt user_id password a s) in
            (answer, mail (AuthMail.password_reset_completed user_id) s')
    ]
