-- ===== src/Auth/Refresh/Calls.antt =====
-- Every route of the authentication module as a call on its state, and what runs of calls do to the
-- RefreshToken table.
use bidvault_backend.Auth.Refresh.Exchanges.{refresh_run}
use bidvault_backend.Common.{ℕ, Option, ◌≡◌, Bool, lookup, none, some}
use bidvault_backend.Auth.Codes.{
  register, resend_verification, verify_email, forgot_password, reset_password, verify_reset_otp,
}
use bidvault_backend.Auth.{
  AuthStore, Passwords, RefreshToken, CodeQueries, Role, Tokens, SessionConfig,
}
use bidvault_backend.Auth.Refresh.Steps.{TokenRun, TokenRun-append, Became, run_row}
use bidvault_backend.Auth.Sessions.{login, change_password}
use bidvault_backend.Auth.Refresh.{TokenRequest, refresh, logout}
use bidvault_backend.Auth.Refresh.Runs.{
  Runs, register_run, verify_email_run, resend_run, forgot_run, verify_reset_run, reset_run,
  login_run, logout_run, change_password_run, delete_run,
}
use bidvault_backend.Store.{World}
use bidvault_backend.Auth.Deletion.{delete_account}

-- One request. A new session has a new id; a refresh may act on a row read in an earlier state.
pub data AuthCall (s : AuthStore) : AuthStore → Type 0 where
  register_call :
      (p : Passwords) (now user_id code_id code salt email password : ℕ) (role : Option Role)
      → AuthCall s (register p now user_id code_id code salt email password role s).1
  verify_email_call :
      (q : CodeQueries) (now email otp : ℕ) → AuthCall s (verify_email q now email otp s).1
  resend_call :
      (now code_id code email : ℕ) → AuthCall s (resend_verification now code_id code email s).1
  forgot_call :
      (now code_id code email : ℕ) → AuthCall s (forgot_password now code_id code email s).1
  verify_reset_call :
      (q : CodeQueries) (now email otp : ℕ) → AuthCall s (verify_reset_otp q now email otp s).1
  reset_call :
      (p : Passwords) (q : CodeQueries) (now salt email otp password : ℕ)
      → AuthCall s (reset_password p q now salt email otp password s).1
  login_call :
      (p : Passwords) (t : Tokens) (config : SessionConfig) (now id salt email password : ℕ)
      (remember : Bool)
      → lookup id s.refresh_tokens ≡ none
      → AuthCall s (login p t config now id salt email password remember s).1
  refresh_call :
      (t : Tokens) (config : SessionConfig) (now new_id : ℕ) (req : TokenRequest) (seen : AuthStore)
      → lookup new_id s.refresh_tokens ≡ none
      → AuthCall s (refresh t config now new_id req seen s).1
  logout_call : (t : Tokens) (now : ℕ) (req : TokenRequest) → AuthCall s (logout t now req s).1
  change_password_call :
      (p : Passwords) (t : Tokens) (config : SessionConfig)
      (now id salt user_id current password : ℕ) (cookie : Option ℕ)
      → lookup id s.refresh_tokens ≡ none
      → AuthCall s (change_password p t config now id salt user_id current password cookie s).1
  delete_call :
      (p : Passwords) (now salt unusable anonymous user_id password : ℕ) (w : World)
      → AuthCall s (delete_account p now salt unusable anonymous user_id password w s).1

pub data AuthRun (s : AuthStore) : AuthStore → Type 0 where
  here : AuthRun s s
  then_call : {u v : AuthStore} → AuthRun s u → AuthCall u v → AuthRun s v

-- Every call of the module is a run of the machine of refresh tokens.
pub AuthCall-run : {s s' : AuthStore} → AuthCall s s' → Runs s s'
AuthCall-run {s} (AuthCall.register_call p now user_id code_id code salt email password role) =
    register_run p now user_id code_id code salt email password role s
AuthCall-run {s} (AuthCall.verify_email_call q now email otp) = verify_email_run q now email otp s
AuthCall-run {s} (AuthCall.resend_call now code_id code email) = resend_run now code_id code email s
AuthCall-run {s} (AuthCall.forgot_call now code_id code email) = forgot_run now code_id code email s
AuthCall-run {s} (AuthCall.verify_reset_call q now email otp) = verify_reset_run q now email otp s
AuthCall-run {s} (AuthCall.reset_call p q now salt email otp password) =
    reset_run p q now salt email otp password s
AuthCall-run {s} (AuthCall.login_call p t config now id salt email password remember fresh) =
    login_run p t config now id salt email password remember s fresh
AuthCall-run {s} (AuthCall.refresh_call t config now new_id req seen fresh) =
    refresh_run t config now new_id req seen s fresh
AuthCall-run {s} (AuthCall.logout_call t now req) = logout_run t now req s
AuthCall-run {s} (AuthCall.change_password_call p t config now id salt u current password c fresh) =
    change_password_run p t config now id salt u current password c s fresh
AuthCall-run {s} (AuthCall.delete_call p now salt unusable anonymous user_id password w) =
    delete_run p now salt unusable anonymous user_id password w s

pub AuthRun-run : {s s' : AuthStore} → AuthRun s s' → Runs s s'
AuthRun-run AuthRun.here = TokenRun.here
AuthRun-run (AuthRun.then_call run call) = TokenRun-append (AuthRun-run run) (AuthCall-run call)

-- Through any run of calls, whatever each refresh read before, a refresh token's row is never
-- removed and keeps its user, its hash, its expiry and its time of creation; once it is revoked it
-- never changes again.
pub revoked_stays :
    (i : ℕ) (r : RefreshToken) {s s' : AuthStore}
    → AuthRun s s'
    → lookup i s.refresh_tokens ≡ some r
    → (r' : RefreshToken) × (lookup i s'.refresh_tokens ≡ some r') × Became r r'
revoked_stays i r run found = run_row i r (AuthRun-run run) found
