-- ===== src/Scenarios/Accounts.antt =====
-- One account, user 2, with a session, and the theorems on codes and sessions at it.
use bidvault_backend.Store.{UserStatus}
use bidvault_backend.Common.{
  ℕ, [], ◌∷◌, lookup, ◌==◌, false, true, IsKeyed, ◌≡◌, none, ◌*◌, ◌≤◌, refl, ◌≢◌, arith, some, ◌+◌,
  inl, ◌/◌,
}
use bidvault_backend.Auth.{
  Tokens, AuthStore, Account, ArePasswords, RefreshToken, live, SessionConfig, Passwords, Role,
}
use bidvault_backend.Auth.Sessions.{new_session, SessionAnswer, claims_of}
use bidvault_backend.Auth.Refresh.{TokenRequest, refresh, logout}
use bidvault_backend.Auth.Codes.Guesses.{compared, guesses_bounded}
use bidvault_backend.Auth.Codes.{reset_password, new_code, issue_code, CodeAnswer}
use bidvault_backend.Auth.Codes.Scan.{scan_codes, scan_codes-AreCodeQueries}
use bidvault_backend.Auth.Refresh.Rotation.{refresh-live-le}
use bidvault_backend.Auth.Refresh.Repeat.{refresh_twice}
use bidvault_backend.Auth.Refresh.Steps.{Became}
use bidvault_backend.Auth.Refresh.Lockout.{reset_locks_out}
use bidvault_backend.Auth.Refresh.Calls.{revoked_stays, AuthRun, AuthCall}
use bidvault_backend.Auth.Deletion.{delete_account}
use bidvault_backend.Scenarios.Market.{market}

-- A hash that is the password and a token that spells its id and its time of issue stand for the
-- libraries here.
abbrev demo_passwords : Passwords
demo_passwords = record {
  hash = λ salt password. password;
  verify = λ password stored. password == stored;
  needs_rehash = λ stored. false;
  dummy_hash = 0;
}

verify_own_hash : (password : ℕ) → password == password ≡ true
verify_own_hash password = ground arith

demo_passwords-ArePasswords : ArePasswords demo_passwords
demo_passwords-ArePasswords = record { verify_own = λ salt password. verify_own_hash password }

abbrev demo_tokens : Tokens
demo_tokens = record {
  sign = λ c at. c.jti * 1000 + at;
  verify = λ token now. some (claims_of 2 (token / 1000) true);
  hash = λ token. token + 7;
}

abbrev demo_config : SessionConfig
demo_config = record { reuse_interval = 10000; lifetime = 1209600000 }

abbrev bilal : Account
bilal = record {
  email = 33;
  password_hash = 1111;
  role = Role.buyer;
  is_seller = false;
  status = UserStatus.active;
  is_email_verified = true;
}

abbrev laptop : RefreshToken
laptop = new_session demo_tokens demo_config 0 50 2 true

-- A reset code, 424242, sent at 1000.
abbrev accounts : AuthStore
accounts = record {
  accounts = (2, bilal) ∷ [];
  verification_codes = [];
  reset_codes = (60, new_code 1000 2 424242) ∷ [];
  refresh_tokens = (50, laptop) ∷ [];
  mails = [];
}

abbrev from_browser : TokenRequest
from_browser = record { body = none; cookie = some 50000; trusted_origin = true }

laptop_there : lookup 50 accounts.refresh_tokens ≡ some laptop
unfolding lookup
laptop_there = refl

tokens-IsKeyed : IsKeyed accounts.refresh_tokens
unfolding lookup
tokens-IsKeyed = (refl, tt)

codes-IsKeyed : IsKeyed accounts.reset_codes
unfolding lookup
codes-IsKeyed = (refl, tt)

fresh_token : lookup 51 accounts.refresh_tokens ≡ none
unfolding lookup
fresh_token = refl

fresh_code : lookup 61 accounts.reset_codes ≡ none
unfolding lookup
fresh_code = refl

reset_done :
    (reset_password demo_passwords scan_codes 2000 0 33 424242 2222 accounts).0
    ≡ CodeAnswer.password_reset
unfolding reset_password
reset_done = refl

-- User 2 signs out.
revoked_stays_example :
    (r' : RefreshToken) × (lookup 50
        (logout demo_tokens 3000 from_browser accounts).1.refresh_tokens
      ≡ some r')
    × Became laptop r'
revoked_stays_example =
    revoked_stays 50 laptop
      (AuthRun.then_call AuthRun.here (AuthCall.logout_call demo_tokens 3000 from_browser))
      laptop_there

refresh-live-le_example :
    live 2 (refresh demo_tokens demo_config 3000 51 from_browser accounts accounts).1.refresh_tokens
    ≤ live 2 accounts.refresh_tokens
refresh-live-le_example =
    refresh-live-le demo_tokens demo_config 3000 51 2 from_browser accounts accounts AuthRun.here
      tokens-IsKeyed fresh_token

-- Bilal's password is reset, the browser signs out, and then refreshes all the same.
abbrev after_reset : AuthStore
after_reset = (reset_password demo_passwords scan_codes 2000 0 33 424242 2222 accounts).1

abbrev signed_out : AuthStore
signed_out = (logout demo_tokens 2500 from_browser after_reset).1

fresh_after : lookup 51 signed_out.refresh_tokens ≡ none
unfolding lookup logout reset_password
fresh_after = refl

signed_out-IsKeyed : IsKeyed signed_out.refresh_tokens
unfolding lookup logout reset_password
signed_out-IsKeyed = (refl, tt)

none_new :
    (j : ℕ) (row : RefreshToken)
    → lookup j signed_out.refresh_tokens ≡ some row
    → row.user_id ≡ 2
    → lookup j after_reset.refresh_tokens ≢ none
unfolding lookup logout reset_password
none_new j row there own gone = absurd (ground arith)

reset_locks_out_example :
    (refresh demo_tokens demo_config 3000 51 from_browser signed_out signed_out).0
    ≢ SessionAnswer.signed_in 2 51003 true
reset_locks_out_example =
    reset_locks_out demo_passwords scan_codes 2000 0 33 424242 2222 accounts 2 bilal refl reset_done
      demo_tokens demo_config 3000 51 from_browser signed_out signed_out
      (AuthRun.then_call AuthRun.here (AuthCall.logout_call demo_tokens 2500 from_browser)) none_new
      AuthRun.here signed_out-IsKeyed fresh_after 51003 true

-- Two tabs refresh at 3000 and 4000; the second had read the row before the first one wrote.
refresh_twice_example :
    let first = refresh demo_tokens demo_config 3000 51 from_browser accounts accounts in
    (first.0 ≡ SessionAnswer.signed_in 2 51003 true)
    × (refresh demo_tokens demo_config 4000 53 from_browser accounts first.1 ≡ first)
refresh_twice_example =
    refresh_twice demo_tokens demo_config 3000 51 from_browser accounts 50000 (claims_of 2 50 true)
      50 laptop refl refl refl tokens-IsKeyed refl refl fresh_token 4000 53 accounts refl refl
      (omega arith) (omega arith) (omega arith) (omega arith) (omega arith) (inl refl)

-- Six guesses at a new reset code, every one wrong.
guesses_bounded_example :
    compared scan_codes 2
      ((7000, 1) ∷ (7001, 2) ∷ (7002, 3) ∷ (7003, 4) ∷ (7004, 5) ∷ (7005, 6) ∷ [])
      (issue_code 6000 2 61 535353 accounts.reset_codes)
    ≤ 5
guesses_bounded_example =
    guesses_bounded scan_codes-AreCodeQueries 6000 2 61 535353
      ((7000, 1) ∷ (7001, 2) ∷ (7002, 3) ∷ (7003, 4) ∷ (7004, 5) ∷ (7005, 6) ∷ [])
      accounts.reset_codes codes-IsKeyed fresh_code

account_closed :
    (delete_account demo_passwords 9000 0 987654 1002 2 1111 market accounts).0
    ≡ SessionAnswer.account_deleted
unfolding delete_account lookup
account_closed = refl
