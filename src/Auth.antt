-- ===== src/Auth.antt =====
-- Accounts, one-time codes and refresh tokens, the state of src/modules/auth/auth.routes.ts: the
-- columns of model User that only these routes use, the tables of the two kinds of code, and the
-- RefreshToken table. An address is compared in lower case only, so it is a number, as are
-- passwords, hashes and tokens. Codes, Sessions and Refresh are the routes.
pub mod Codes
pub mod Cookies
pub mod Sessions
pub mod Refresh
pub mod Deletion
use bidvault_backend.Common.{
  ℕ, [], ◌∷◌, Bool, Option, ◌++◌, some, ◌≡◌, Table, if◌then◌else◌, count, List, ◌==◌, none, true,
  All, ◌&&◌, is_none, false, lookup, IsKeyed,
}
use bidvault_backend.Store.{UserStatus, find_by}

pub data Role : Type 0 where
  buyer seller admin : Role

-- model User, the columns that these routes read or write
pub record Account : Type 0 where
  pub email : ℕ
  pub password_hash : ℕ
  pub role : Role
  pub is_seller : Bool
  pub status : UserStatus
  pub is_email_verified : Bool

-- model EmailVerificationToken and model PasswordResetToken
pub record OtpCode : Type 0 where
  pub user_id : ℕ
  pub code : ℕ
  pub expires_at : ℕ
  pub consumed_at : Option ℕ
  pub attempts : ℕ
  pub created_at : ℕ

-- model RefreshToken; the address and agent of the request are left out
pub record RefreshToken : Type 0 where
  pub user_id : ℕ
  pub token_hash : ℕ
  pub expires_at : ℕ
  pub revoked_at : Option ℕ
  pub replaced_by : Option ℕ
  pub created_at : ℕ

pub data AuthMail : Type 0 where
  welcome verification_resent password_reset : (user_id code : ℕ) → AuthMail
  email_verified password_reset_completed sessions_revoked account_deleted :
      (user_id : ℕ) → AuthMail

pub record AuthStore : Type 0 where
  pub accounts : Table Account
  pub verification_codes : Table OtpCode
  pub reset_codes : Table OtpCode
  pub refresh_tokens : Table RefreshToken
  pub mails : List AuthMail

-- bcrypt (@node-rs/bcrypt): `hash` takes the salt that it draws.
pub record Passwords : Type 0 where
  pub hash : ℕ → ℕ → ℕ
  pub verify : ℕ → ℕ → Bool
  pub needs_rehash : ℕ → Bool
  pub dummy_hash : ℕ

-- A password matches its own hash, whatever the salt.
pub record ArePasswords (p : Passwords) : Type 0 where
  pub verify_own : (salt password : ℕ) → p.verify password (p.hash salt password) ≡ true

pub record Claims : Type 0 where
  pub sub : ℕ
  pub jti : ℕ
  pub remember : Bool

-- jsonwebtoken and the hash of a token: `sign` takes the time of issue, `verify` the present time.
pub record Tokens : Type 0 where
  pub sign : Claims → ℕ → ℕ
  pub verify : ℕ → ℕ → Option Claims
  pub hash : ℕ → ℕ

-- REFRESH_REUSE_INTERVAL_SECONDS and JWT_REFRESH_EXPIRES_IN_DAYS, in milliseconds
pub record SessionConfig : Type 0 where
  pub reuse_interval : ℕ
  pub lifetime : ℕ

-- `findFirst` with `orderBy: { createdAt: 'desc' }` over a table of codes.
pub record CodeQueries : Type 0 where
  pub latest : (OtpCode → Bool) → Table OtpCode → Option (ℕ × OtpCode)

pub record AreCodeQueries (q : CodeQueries) : Type 0 where
  pub latest_none :
      (p : OtpCode → Bool) (t : Table OtpCode) → q.latest p t ≡ none → All (λ r. p r.1 ≡ false) t
  pub latest_some :
      (p : OtpCode → Bool) (t : Table OtpCode) {i : ℕ} {c : OtpCode}
      → IsKeyed t
      → q.latest p t ≡ some (i, c)
      → (lookup i t ≡ some c) × (p c ≡ true)

abbrev pub find_account : ℕ → AuthStore → Option (ℕ × Account)
find_account email s = find_by (λ a. a.email == email) s.accounts

abbrev pub mail : AuthMail → AuthStore → AuthStore
mail m s = record s { mails = s.mails ++ m ∷ [] }

-- `refreshToken.updateMany({ where: { …, revokedAt: null }, data: { revokedAt } })`
abbrev pub revoked : ℕ → RefreshToken → RefreshToken
revoked now r = record r { revoked_at = some now }

abbrev pub is_live : ℕ → RefreshToken → Bool
is_live user_id r = r.user_id == user_id && is_none r.revoked_at

unfoldable pub revoke_where : ℕ → (RefreshToken → Bool) → Table RefreshToken → Table RefreshToken
revoke_where now p [] = []
revoke_where now p ((i, r) ∷ t) =
    (i, if p r && is_none r.revoked_at then revoked now r else r) ∷ revoke_where now p t

abbrev pub revoke_all : ℕ → ℕ → Table RefreshToken → Table RefreshToken
revoke_all now user_id t = revoke_where now (λ r. r.user_id == user_id) t

abbrev pub live : ℕ → Table RefreshToken → ℕ
live user_id t = count (λ (i, r). is_live user_id r) t
