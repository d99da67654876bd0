-- ===== src/Auth/Refresh/Exchanges.antt =====
-- A refresh as a run of the abstract machine of the RefreshToken table, part by part.
use bidvault_backend.Common.{
  ℕ, arith, ◌≡◌, inl, Bool, inr, ◌==◌, lookup, Option-cases, none, refl, is_some, lookup-insert,
  Bool-cases, ◌&&◌, leb, not, is_none,
}
use bidvault_backend.Auth.{AuthStore, RefreshToken, Tokens, SessionConfig, Claims}
use bidvault_backend.Auth.Refresh.Steps.{TokenRun, TokenStep}
use bidvault_backend.Auth.Sessions.{new_session}
use bidvault_backend.Auth.Refresh.{
  TokenRequest, refresh, reject_replay, rotate, exchange, repeat_or_replay,
  successor_within_reuse_interval, spent_for, presented, find_token,
}
use bidvault_backend.Auth.Refresh.Runs.{Runs, one_step, if_Runs, revoked_tokens}

reject_run :
    (now user_id : ℕ) (via_cookie : Bool) (s : AuthStore)
    → Runs s (reject_replay now user_id via_cookie s).1
unfolding reject_replay
reject_run now user_id via_cookie s = revoked_tokens now (λ r. r.user_id == user_id) (ground arith)

repeat_run :
    (t : Tokens) (config : SessionConfig) (now : ℕ) (spent : RefreshToken) (user_id : ℕ)
    (remember via_cookie : Bool) (s : AuthStore)
    → Runs s (repeat_or_replay t config now spent user_id remember via_cookie s).1
unfolding repeat_or_replay
repeat_run t config now spent user_id remember via_cookie s =
    elim (Option-cases (successor_within_reuse_interval t config now spent remember s)) [
      | inl e ↦ rw (e, repeat_or_replay) (reject_run now user_id via_cookie s)
      | inr (token, e) ↦ rw (e, repeat_or_replay) TokenRun.here
    ]

rotate_run :
    (t : Tokens) (config : SessionConfig) (now new_id id user_id : ℕ) (remember via_cookie : Bool)
    (s : AuthStore)
    → lookup new_id s.refresh_tokens ≡ none
    → Runs s (rotate t config now new_id id user_id remember via_cookie s).1
unfolding rotate
rotate_run t config now new_id id user_id remember via_cookie s fresh =
    elim (Option-cases (lookup id s.refresh_tokens)) [
      | inl e ↦ rw (e, rotate) (reject_run now user_id via_cookie s)
      | inr (r, e) ↦ elim (Bool-cases (is_some r.revoked_at)) [
        | inr live ↦
            rw (e, live, rotate)
              (TokenRun.then_step (one_step (TokenStep.spend id now new_id r e (ground arith))) (
                TokenStep.start new_id (new_session t config now new_id user_id remember)
                  (ground
                    (arith, lookup-insert id new_id (spent_for now new_id r) s.refresh_tokens))
                  refl))
        | inl dead ↦ rw (e, dead, rotate) (repeat_run t config now r user_id remember via_cookie s)
      ]
    ]

exchange_run :
    (t : Tokens) (config : SessionConfig) (now new_id : ℕ) (claims : Claims) (via_cookie : Bool)
    (i : ℕ) (r : RefreshToken) (s : AuthStore)
    → lookup new_id s.refresh_tokens ≡ none
    → Runs s (exchange t config now new_id claims via_cookie (i, r) s).1
unfolding exchange
exchange_run t config now new_id claims via_cookie i r s fresh =
    if_Runs s _ _ (is_some r.revoked_at)
      (repeat_run t config now r r.user_id claims.remember via_cookie s)
      (if_Runs s _ _ (leb r.expires_at now) TokenRun.here (
        if_Runs s _ _ (not (i == claims.jti)) TokenRun.here
          (rotate_run t config now new_id i r.user_id claims.remember via_cookie s fresh)))

pub refresh_run :
    (t : Tokens) (config : SessionConfig) (now new_id : ℕ) (req : TokenRequest) (seen s : AuthStore)
    → lookup new_id s.refresh_tokens ≡ none
    → Runs s (refresh t config now new_id req seen s).1
unfolding refresh
refresh_run t config now new_id req seen s fresh = elim (Option-cases (presented req)) [
  | inl e ↦ rw (e, refresh) TokenRun.here
  | inr (token, e) ↦
      rw (e, refresh)
        (if_Runs s _ _ (is_none req.body && not req.trusted_origin) TokenRun.here
          (elim (Option-cases (t.verify token now)) [
            | inl f ↦ rw (f, refresh) TokenRun.here
            | inr (claims, f) ↦
                elim (Option-cases (find_token (t.hash token) seen.refresh_tokens)) [
                  | inl g ↦ rw (f, g, refresh) TokenRun.here
                  | inr ((i, r), g) ↦
                      rw (f, g, refresh)
                        (exchange_run t config now new_id claims (is_none req.body) i r s fresh)
                ]
          ]))
]
