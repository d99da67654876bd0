-- ===== src/Auth/Codes.antt =====
-- The routes over one-time codes: register, verify-email, resend-verification, forgot-password,
-- verify-reset-otp and reset-password. `code_id` and `code` are the new row's id and its six
-- digits, `salt` what bcrypt draws.
pub mod Guesses
pub mod Scan
pub mod Disclosure
use bidvault_backend.Common.{
  ℕ, [], ◌∷◌, Table, Bool, Option, some, lookup, insert, ◌+◌, keep, ◌==◌, none, if◌then◌else◌, not,
  is_none, ◌&&◌, leb, is_some, or_else, ltb, true, false,
}
use bidvault_backend.Auth.{
  OtpCode, AuthStore, Passwords, CodeQueries, revoke_all, find_account, Role, mail, Account,
  AuthMail, revoke_where,
}
use bidvault_backend.Store.{UserStatus}

pub data CodeAnswer : Type 0 where
  registered : (user_id : ℕ) → CodeAnswer
  email_taken invalid_code email_verified code_verified password_reset : CodeAnswer
  -- "If that email is registered, a code was sent."
  sent_if_known : CodeAnswer
  -- "Code sent.", with the code's expiry
  code_sent : (expires_at : ℕ) → CodeAnswer

abbrev pub max_otp_attempts : ℕ
max_otp_attempts = 5

abbrev pub otp_expiry_ms : ℕ
otp_expiry_ms = 90000

-- `where: { userId, consumedAt: null, expiresAt: { gt: now }, attempts: { lt: MAX_OTP_ATTEMPTS } }`
abbrev pub is_usable : ℕ → ℕ → OtpCode → Bool
is_usable now user_id c =
    c.user_id == user_id
    && is_none c.consumed_at
    && ltb now c.expires_at
    && ltb c.attempts max_otp_attempts

abbrev pub missed : ℕ → OtpCode → OtpCode
missed now c = record c {
  attempts = c.attempts + 1;
  consumed_at = if leb max_otp_attempts (c.attempts + 1) then some now else c.consumed_at;
}

-- recordVerificationMiss and recordResetMiss
unfoldable pub record_miss : ℕ → ℕ → Table OtpCode → Table OtpCode
record_miss now code_id t = elim (lookup code_id t) [
  | none ↦ t
  | some c ↦ if is_none c.consumed_at then insert code_id (missed now c) t else t
]

-- The search for a code and the comparison: the code that was hit, and the table with the miss.
unfoldable pub guess :
    CodeQueries → ℕ → ℕ → ℕ → Table OtpCode → Option (ℕ × OtpCode) × Table OtpCode
guess q now user_id otp t = elim (q.latest (is_usable now user_id) t) [
  | none ↦ (none, t)
  | some (i, c) ↦ if c.code == otp then (some (i, c), t) else (none, record_miss now i t)
]

abbrev pub consumed : ℕ → OtpCode → OtpCode
consumed now c = record c { consumed_at = some now }

abbrev pub new_code : ℕ → ℕ → ℕ → OtpCode
new_code now user_id code = record {
  user_id = user_id;
  code = code;
  expires_at = now + otp_expiry_ms;
  consumed_at = none;
  attempts = 0;
  created_at = now;
}

-- `deleteMany({ where: { userId, consumedAt: null } })`, and the new code.
unfoldable pub issue_code : ℕ → ℕ → ℕ → ℕ → Table OtpCode → Table OtpCode
issue_code now user_id code_id code t =
    insert code_id (new_code now user_id code)
      (keep (λ (i, c). not (c.user_id == user_id && is_none c.consumed_at)) t)

abbrev pub is_seller_role : Option Role → Bool
is_seller_role (some Role.seller) = true
is_seller_role _ = false

abbrev pub new_account : Passwords → ℕ → ℕ → ℕ → Option Role → Account
new_account p salt email password role = record {
  email = email;
  password_hash = p.hash salt password;
  role = or_else role Role.buyer;
  is_seller = is_seller_role role;
  status = UserStatus.active;
  is_email_verified = false;
}

unfoldable pub register :
    Passwords → ℕ → ℕ → ℕ → ℕ → ℕ → ℕ → ℕ → Option Role → AuthStore → CodeAnswer × AuthStore
register p now user_id code_id code salt email password role s =
    if is_some (find_account email s) then (CodeAnswer.email_taken, s) else (
      CodeAnswer.registered user_id,
      mail (AuthMail.welcome user_id code) (record s {
        accounts = insert user_id (new_account p salt email password role) s.accounts;
        verification_codes = insert code_id (new_code now user_id code) s.verification_codes;
      }),
    )

unfoldable pub verify_email : CodeQueries → ℕ → ℕ → ℕ → AuthStore → CodeAnswer × AuthStore
unfolding guess
verify_email q now email otp s = elim (find_account email s) [
  | none ↦ (CodeAnswer.invalid_code, s)
  | some (u, a) ↦
      let (hit, codes) = guess q now u otp s.verification_codes in
      elim hit [
        | none ↦ (CodeAnswer.invalid_code, record s { verification_codes = codes })
        | some (i, c) ↦ (
          CodeAnswer.email_verified,
          mail (AuthMail.email_verified u) (record s {
            accounts = insert u (record a { is_email_verified = true }) s.accounts;
            verification_codes = insert i (consumed now c) codes;
          }),
        )
      ]
]

unfoldable pub resend_verification : ℕ → ℕ → ℕ → ℕ → AuthStore → CodeAnswer × AuthStore
unfolding issue_code
resend_verification now code_id code email s = elim (find_account email s) [
  | none ↦ (CodeAnswer.sent_if_known, s)
  | some (u, a) ↦ if a.is_email_verified then (CodeAnswer.sent_if_known, s) else (
    CodeAnswer.code_sent (now + otp_expiry_ms),
    mail (AuthMail.verification_resent u code)
        (record s { verification_codes = issue_code now u code_id code s.verification_codes }),
  )
]

unfoldable pub forgot_password : ℕ → ℕ → ℕ → ℕ → AuthStore → CodeAnswer × AuthStore
unfolding issue_code
forgot_password now code_id code email s = elim (find_account email s) [
  | none ↦ (CodeAnswer.sent_if_known, s)
  | some (u, a) ↦ (
    CodeAnswer.code_sent (now + otp_expiry_ms),
    mail (AuthMail.password_reset u code)
        (record s { reset_codes = issue_code now u code_id code s.reset_codes }),
  )
]

unfoldable pub verify_reset_otp : CodeQueries → ℕ → ℕ → ℕ → AuthStore → CodeAnswer × AuthStore
unfolding guess
verify_reset_otp q now email otp s = elim (find_account email s) [
  | none ↦ (CodeAnswer.invalid_code, s)
  | some (u, a) ↦
      let (hit, codes) = guess q now u otp s.reset_codes in
      (
        if is_some hit then CodeAnswer.code_verified else CodeAnswer.invalid_code,
        record s { reset_codes = codes },
      )
]

unfoldable pub reset_password :
    Passwords → CodeQueries → ℕ → ℕ → ℕ → ℕ → ℕ → AuthStore → CodeAnswer × AuthStore
unfolding guess revoke_where
reset_password p q now salt email otp password s = elim (find_account email s) [
  | none ↦ (CodeAnswer.invalid_code, s)
  | some (u, a) ↦
      let (hit, codes) = guess q now u otp s.reset_codes in
      elim hit [
        | none ↦ (CodeAnswer.invalid_code, record s { reset_codes = codes })
        | some (i, c) ↦ (
          CodeAnswer.password_reset,
          mail (AuthMail.password_reset_completed u) (record s {
            accounts = insert u (record a { password_hash = p.hash salt password }) s.accounts;
            reset_codes = insert i (consumed now c) codes;
            refresh_tokens = revoke_all now u s.refresh_tokens;
          }),
        )
      ]
]
