-- ===== src/Auth/Refresh.antt =====
-- The routes that take a refresh token: /refresh, with its rotation and its reuse interval, and
-- /logout. Steps is the abstract machine of the table, Runs, Exchanges and Calls show that the routes are runs
-- of it, and Rotation is about the live sessions that a refresh leaves.
pub mod Steps
pub mod Runs
pub mod Exchanges
pub mod Calls
pub mod Rotation
pub mod Lockout
pub mod Repeat
use bidvault_backend.Common.{
  ℕ, [], ◌∷◌, Option, Table, some, Bool, ◌==◌, lookup, if◌then◌else◌, none, is_none, ◌||◌, is_some,
  ltb, leb, ◌&&◌, ◌-◌, not, insert,
}
use bidvault_backend.Auth.{
  revoke_where, Tokens, RefreshToken, SessionConfig, AuthStore, Claims, revoke_all, live, mail,
  AuthMail,
}
use bidvault_backend.Store.{find_by}
use bidvault_backend.Auth.Sessions.{
  SessionAnswer, Denial, sign_refresh_token, claims_of, new_session,
}

-- What /refresh and /logout read of a request.
pub record TokenRequest : Type 0 where
  pub body : Option ℕ
  pub cookie : Option ℕ
  pub trusted_origin : Bool

unfoldable pub successor_within_reuse_interval :
    Tokens → SessionConfig → ℕ → RefreshToken → Bool → AuthStore → Option ℕ
successor_within_reuse_interval t config now spent remember s = elim spent.revoked_at [
  | none ↦ none
  | some at ↦ elim spent.replaced_by [
    | none ↦ none
    | some j ↦
        if config.reuse_interval == 0 || ltb config.reuse_interval (now - at)
        then none
        else elim (lookup j s.refresh_tokens) [
          | none ↦ none
          | some r ↦
              let candidate = sign_refresh_token t (claims_of r.user_id j remember) r.created_at in
              if not (r.user_id == spent.user_id)
              then none
              else if is_some r.revoked_at || leb r.expires_at now
              then none
              else if t.hash candidate == r.token_hash
              then some candidate
              else none
        ]
  ]
]

-- `rejectReplay`: the user's sessions end, and the owner is told if one of them was live.
unfoldable pub reject_replay : ℕ → ℕ → Bool → AuthStore → SessionAnswer × AuthStore
unfolding revoke_where
reject_replay now user_id via_cookie s =
    let s' = record s { refresh_tokens = revoke_all now user_id s.refresh_tokens } in
    (
      SessionAnswer.denied Denial.session_invalidated via_cookie,
      if ltb 0 (live user_id s.refresh_tokens)
          then mail (AuthMail.sessions_revoked user_id) s'
          else s',
    )

-- `if (!(await answerRepeat(spent))) await rejectReplay()`
unfoldable pub repeat_or_replay :
    Tokens
    → SessionConfig
    → ℕ
    → RefreshToken
    → ℕ
    → Bool
    → Bool
    → AuthStore
    → SessionAnswer × AuthStore
unfolding successor_within_reuse_interval reject_replay
repeat_or_replay t config now spent user_id remember via_cookie s =
    elim (successor_within_reuse_interval t config now spent remember s) [
      | some token ↦ (SessionAnswer.signed_in user_id token remember, s)
      | none ↦ reject_replay now user_id via_cookie s
    ]

abbrev pub spent_for : ℕ → ℕ → RefreshToken → RefreshToken
spent_for now new_id r = record r { revoked_at = some now; replaced_by = some new_id }

-- The transaction that spends a token, which another request may have spent since it was read.
unfoldable pub rotate :
    Tokens → SessionConfig → ℕ → ℕ → ℕ → ℕ → Bool → Bool → AuthStore → SessionAnswer × AuthStore
unfolding repeat_or_replay reject_replay
rotate t config now new_id id user_id remember via_cookie s = elim (lookup id s.refresh_tokens) [
  | none ↦ reject_replay now user_id via_cookie s
  | some r ↦
      if is_some r.revoked_at
      then repeat_or_replay t config now r user_id remember via_cookie s
      else (
        SessionAnswer.signed_in user_id
            (sign_refresh_token t (claims_of user_id new_id remember) now) remember,
        record s {
          refresh_tokens =
              insert new_id (new_session t config now new_id user_id remember)
                (insert id (spent_for now new_id r) s.refresh_tokens);
        },
      )
]

-- What follows the first read of the token's row.
unfoldable pub exchange :
    Tokens
    → SessionConfig
    → ℕ
    → ℕ
    → Claims
    → Bool
    → ℕ × RefreshToken
    → AuthStore
    → SessionAnswer × AuthStore
unfolding rotate repeat_or_replay
exchange t config now new_id claims via_cookie (i, r) s =
    if is_some r.revoked_at
    then repeat_or_replay t config now r r.user_id claims.remember via_cookie s
    else if leb r.expires_at now
    then (SessionAnswer.denied Denial.expired_or_revoked via_cookie, s)
    else if not (i == claims.jti)
    then (SessionAnswer.denied Denial.token_mismatch via_cookie, s)
    else rotate t config now new_id i r.user_id claims.remember via_cookie s

abbrev pub presented : TokenRequest → Option ℕ
presented req = elim req.body [ none ↦ req.cookie | some token ↦ some token ]

abbrev pub find_token : ℕ → Table RefreshToken → Option (ℕ × RefreshToken)
find_token token_hash t = find_by (λ r. r.token_hash == token_hash) t

-- `seen` is the state at the first read of the token's row, `s` the state at the writes.
unfoldable pub refresh :
    Tokens
    → SessionConfig
    → ℕ
    → ℕ
    → TokenRequest
    → AuthStore
    → AuthStore
    → SessionAnswer × AuthStore
unfolding exchange
refresh t config now new_id req seen s = elim (presented req) [
  | none ↦ (SessionAnswer.no_token, s)
  | some token ↦
      if is_none req.body && not req.trusted_origin
      then (SessionAnswer.origin_not_allowed, s)
      else elim (t.verify token now) [
        | none ↦ (SessionAnswer.denied Denial.invalid_token (is_none req.body), s)
        | some claims ↦ elim (find_token (t.hash token) seen.refresh_tokens) [
          | none ↦ (SessionAnswer.denied Denial.expired_or_revoked (is_none req.body), s)
          | some (i, r) ↦ exchange t config now new_id claims (is_none req.body) (i, r) s
        ]
      ]
]

unfoldable pub logout : Tokens → ℕ → TokenRequest → AuthStore → SessionAnswer × AuthStore
unfolding revoke_where
logout t now req s = elim (presented req) [
  | none ↦ (SessionAnswer.signed_out, s)
  | some token ↦
      if is_none req.body && not req.trusted_origin
      then (SessionAnswer.origin_not_allowed, s)
      else (
        SessionAnswer.signed_out,
        record s {
          refresh_tokens = revoke_where now (λ r. r.token_hash == t.hash token) s.refresh_tokens;
        },
      )
]
