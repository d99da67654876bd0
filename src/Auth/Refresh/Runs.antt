-- ===== src/Auth/Refresh/Runs.antt =====
-- Each route of the authentication module as a run of the abstract machine of the RefreshToken table.
use bidvault_backend.Common.{
  ℕ, Table, Option, arith, ◌≡◌, inl, Bool, ◌⊎◌, inr, subst, sym, ◌==◌, lookup, Option-cases, none,
  insert, if◌then◌else◌, refl, Bool-cases, true, ◌&&◌, false, not, is_none, ap,
}
use bidvault_backend.Auth.Codes.{
  register, resend_verification, verify_email, forgot_password, reset_password, verify_reset_otp,
  guess,
}
use bidvault_backend.Auth.{
  AuthStore, Passwords, RefreshToken, CodeQueries, Role, Tokens, revoke_where, revoke_all,
  SessionConfig, find_account,
}
use bidvault_backend.Auth.Refresh.Steps.{
  TokenRun, TokenStep, TokenRun-append, lookup-revoke_where-none,
}
use bidvault_backend.Auth.Sessions.{
  login, change_password, SessionAnswer, create_session_tokens, new_session, session_is_remembered,
  with_password,
}
use bidvault_backend.Auth.Refresh.{TokenRequest, logout, presented}
use bidvault_backend.Store.{is_user_suspended, World}
use bidvault_backend.Auth.Deletion.{delete_account, deleted_or_unchanged}

abbrev pub Runs : AuthStore → AuthStore → Type 0
Runs s s' = TokenRun s.refresh_tokens s'.refresh_tokens

pub one_step : {t u : Table RefreshToken} → TokenStep t u → TokenRun t u
one_step step = TokenRun.then_step TokenRun.here step

same_tokens : {t u : Table RefreshToken} → u ≡ t → TokenRun t u
same_tokens {t} e = subst (TokenRun t) (sym e) TokenRun.here

pub if_Runs :
    (s : AuthStore) (x y : SessionAnswer × AuthStore) (b : Bool)
    → Runs s x.1
    → Runs s y.1
    → Runs s (if b then x else y).1
if_Runs s x y true h k = h
if_Runs s x y false h k = k

pub register_run :
    (p : Passwords) (now user_id code_id code salt email password : ℕ) (role : Option Role)
    (s : AuthStore)
    → Runs s (register p now user_id code_id code salt email password role s).1
unfolding register
register_run p now user_id code_id code salt email password role s = same_tokens (ground arith)

pub verify_email_run :
    (q : CodeQueries) (now email otp : ℕ) (s : AuthStore)
    → Runs s (verify_email q now email otp s).1
unfolding verify_email
verify_email_run q now email otp s = same_tokens (ground arith)

pub resend_run :
    (now code_id code email : ℕ) (s : AuthStore)
    → Runs s (resend_verification now code_id code email s).1
unfolding resend_verification
resend_run now code_id code email s = same_tokens (ground arith)

pub forgot_run :
    (now code_id code email : ℕ) (s : AuthStore)
    → Runs s (forgot_password now code_id code email s).1
unfolding forgot_password
forgot_run now code_id code email s = same_tokens (ground arith)

pub verify_reset_run :
    (q : CodeQueries) (now email otp : ℕ) (s : AuthStore)
    → Runs s (verify_reset_otp q now email otp s).1
unfolding verify_reset_otp
verify_reset_run q now email otp s = same_tokens (ground arith)

-- The tokens after a password reset: as they were, or with the user's revoked.
reset_tokens :
    (p : Passwords) (q : CodeQueries) (now salt email otp password : ℕ) (s : AuthStore)
    → ((reset_password p q now salt email otp password s).1.refresh_tokens ≡ s.refresh_tokens)
      ⊎ ((u : ℕ) × ((reset_password p q now salt email otp password s).1.refresh_tokens
            ≡ revoke_all now u s.refresh_tokens))
unfolding reset_password
reset_tokens p q now salt email otp password s = elim (Option-cases (find_account email s)) [
  | inl e ↦ inl (ground arith)
  | inr ((u, a), e) ↦ elim (Option-cases (guess q now u otp s.reset_codes).0) [
    | inl f ↦ inl (ground arith)
    | inr (c, f) ↦ inr (u, ground arith)
  ]
]

pub revoked_tokens :
    {t u : Table RefreshToken} (now : ℕ) (p : RefreshToken → Bool)
    → u ≡ revoke_where now p t
    → TokenRun t u
revoked_tokens {t} now p e = subst (TokenRun t) (sym e) (one_step (TokenStep.revoke now p))

pub reset_run :
    (p : Passwords) (q : CodeQueries) (now salt email otp password : ℕ) (s : AuthStore)
    → Runs s (reset_password p q now salt email otp password s).1
reset_run p q now salt email otp password s =
    elim (reset_tokens p q now salt email otp password s) [
      | inl e ↦ same_tokens e
      | inr (u, e) ↦ revoked_tokens now (λ r. r.user_id == u) e
    ]

started_run :
    (t : Tokens) (config : SessionConfig) (now id user_id : ℕ) (remember : Bool) (s : AuthStore)
    → lookup id s.refresh_tokens ≡ none
    → Runs s (create_session_tokens t config now id user_id remember s).1
unfolding create_session_tokens
started_run t config now id user_id remember s fresh =
    one_step (TokenStep.start id (new_session t config now id user_id remember) fresh refl)

pub login_run :
    (p : Passwords) (t : Tokens) (config : SessionConfig) (now id salt email password : ℕ)
    (remember : Bool) (s : AuthStore)
    → lookup id s.refresh_tokens ≡ none
    → Runs s (login p t config now id salt email password remember s).1
unfolding login
login_run p t config now id salt email password remember s fresh = elim (login_tokens) [
  | inl e ↦ same_tokens e
  | inr (u, e) ↦
      subst (TokenRun s.refresh_tokens) (sym e)
        (one_step (TokenStep.start id (new_session t config now id u remember) fresh refl))
]
  where
    login_tokens :
        ((login p t config now id salt email password remember s).1.refresh_tokens
          ≡ s.refresh_tokens)
        ⊎ ((u : ℕ) × ((login p t config now id salt email password remember s).1.refresh_tokens
              ≡ insert id (new_session t config now id u remember) s.refresh_tokens))
    login_tokens = elim (Option-cases (find_account email s)) [
      | inl e ↦ inl (ground arith)
      | inr ((u, a), e) ↦
          elim (Bool-cases (
            p.verify password a.password_hash
            && a.is_email_verified
            && not (is_user_suspended a.status))) [
              | inl f ↦ inr (u, ground arith)
              | inr f ↦ inl (ground arith)
            ]
    ]

pub logout_run :
    (t : Tokens) (now : ℕ) (req : TokenRequest) (s : AuthStore) → Runs s (logout t now req s).1
unfolding logout
logout_run t now req s = elim (Option-cases (presented req)) [
  | inl e ↦ rw (e, logout) TokenRun.here
  | inr (token, e) ↦
      rw (e, logout)
        (if_Runs s _ _ (is_none req.body && not req.trusted_origin) TokenRun.here
          (one_step (TokenStep.revoke now (λ r. r.token_hash == t.hash token))))
]

pub change_password_run :
    (p : Passwords) (t : Tokens) (config : SessionConfig) (now id salt user_id current password : ℕ)
    (cookie : Option ℕ) (s : AuthStore)
    → lookup id s.refresh_tokens ≡ none
    → Runs s (change_password p t config now id salt user_id current password cookie s).1
unfolding change_password
change_password_run p t config now id salt user_id current password cookie s fresh =
    elim (Option-cases (lookup user_id s.accounts)) [
      | inl e ↦ rw (e, change_password) TokenRun.here
      | inr (a, e) ↦
          rw (e, change_password)
            (if_Runs s _ _ (not (p.verify current a.password_hash)) TokenRun.here (
              TokenRun-append (one_step (TokenStep.revoke now (λ r. r.user_id == user_id))) (
                started_run t config now id user_id (session_is_remembered t now cookie)
                  (with_password p now salt user_id password a s)
                  (lookup-revoke_where-none now (λ r. r.user_id == user_id) id s.refresh_tokens
                    fresh))))
    ]

pub delete_run :
    (p : Passwords) (now salt unusable anonymous user_id password : ℕ) (w : World) (s : AuthStore)
    → Runs s (delete_account p now salt unusable anonymous user_id password w s).1
delete_run p now salt unusable anonymous user_id password w s =
    elim (deleted_or_unchanged p now salt unusable anonymous user_id password w s) [
      | inl (done, free, settled, address, tokens) ↦
          revoked_tokens now (λ r. r.user_id == user_id) tokens
      | inr same ↦ same_tokens (ap (λ (x : AuthStore). x.refresh_tokens) same)
    ]
