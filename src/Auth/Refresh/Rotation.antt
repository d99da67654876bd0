-- ===== src/Auth/Refresh/Rotation.antt =====
-- How many sessions a refresh leaves live, and what it needs to sign in, whatever it read before.
use bidvault_backend.Common.{
  ℕ, [], ◌∷◌, lookup, Bool, Table, ◌≡◌, IsKeyed, some, ◌≤◌, none, arith, true, Option-cases,
  Bool-cases, insert, inl, inr, insert_new, lookup-insert, count-append, count-insert, ◌==◌,
  is_some, if◌then◌else◌, ◌≢◌, false, leb, not, is_none, sym, refl, ◌&&◌,
}
use bidvault_backend.Auth.Refresh.{
  successor_within_reuse_interval, spent_for, exchange, reject_replay, refresh, TokenRequest,
  rotate, repeat_or_replay, presented, find_token,
}
use bidvault_backend.Auth.{
  RefreshToken, revoke_where, Tokens, live, SessionConfig, AuthStore, is_live, Claims,
}
use bidvault_backend.Store.{find_by-lookup}
use bidvault_backend.Auth.Sessions.{SessionAnswer, new_session}
use bidvault_backend.Auth.Refresh.Calls.{AuthRun, revoked_stays}

live-revoke_where :
    (now : ℕ) (p : RefreshToken → Bool) (user_id : ℕ) (t : Table RefreshToken)
    → live user_id (revoke_where now p t) ≤ live user_id t
unfolding revoke_where
live-revoke_where now p user_id [] = omega arith
live-revoke_where now p user_id ((i, r) ∷ t) = ground (arith, live-revoke_where now p user_id t)

-- A token spent for a session of its user leaves the number of live sessions of every user.
live_spent :
    (user_id id new_id now : ℕ) (r session : RefreshToken) (t : Table RefreshToken)
    → lookup id t ≡ some r
    → r.revoked_at ≡ none
    → lookup new_id t ≡ none
    → session.user_id ≡ r.user_id
    → session.revoked_at ≡ none
    → live user_id (insert new_id session (insert id (spent_for now new_id r) t)) ≡ live user_id t
live_spent user_id id new_id now r session t found alive fresh same new =
    rw
      (insert_new new_id session (insert id (spent_for now new_id r) t)
        (ground (arith, lookup-insert id new_id (spent_for now new_id r) t)))
      (ground (
        arith,
        count-append (λ (row : ℕ × RefreshToken). is_live user_id row.1)
            (insert id (spent_for now new_id r) t) ((new_id, session) ∷ []),
        count-insert (λ (row : ℕ × RefreshToken). is_live user_id row.1) id (spent_for now new_id r)
            r t found,
      ))

-- The successor that a repeat is given is a live session of the user.
successor_live :
    (t : Tokens) (config : SessionConfig) (now : ℕ) (spent : RefreshToken) (remember : Bool)
    (s : AuthStore) {token : ℕ}
    → successor_within_reuse_interval t config now spent remember s ≡ some token
    → (j : ℕ) × (row : RefreshToken) × (lookup j s.refresh_tokens ≡ some row)
      × (row.user_id ≡ spent.user_id)
      × (row.revoked_at ≡ none)
unfolding successor_within_reuse_interval
successor_live t config now spent remember s h = elim (Option-cases spent.replaced_by) [
  | inl e ↦ absurd (ground arith)
  | inr (j, e) ↦ elim (Option-cases (lookup j s.refresh_tokens)) [
    | inl f ↦ absurd (ground arith)
    | inr (row, f) ↦ (j, row, f, ground arith, ground arith)
  ]
]

-- A row of the table that is a live session of a user.
abbrev pub HasLive : ℕ → AuthStore → Type 0
HasLive user_id s =
    (j : ℕ) × (row : RefreshToken) × (lookup j s.refresh_tokens ≡ some row)
    × (row.user_id ≡ user_id)
    × (row.revoked_at ≡ none)

-- An outcome of a refresh leaves no user more live sessions, and signs in only where one was live.
abbrev pub IsSound : AuthStore → SessionAnswer × AuthStore → Type 0
IsSound s (answer, s') =
    ((u : ℕ) → live u s'.refresh_tokens ≤ live u s.refresh_tokens)
    × ((u token : ℕ) (remember : Bool)
        → answer ≡ SessionAnswer.signed_in u token remember
        → HasLive u s)

if_IsSound :
    (s : AuthStore) (x y : SessionAnswer × AuthStore) (b : Bool)
    → IsSound s x
    → IsSound s y
    → IsSound s (if b then x else y)
if_IsSound s x y true h k = h
if_IsSound s x y false h k = k

unsigned :
    (s : AuthStore) (answer : SessionAnswer)
    → ((u token : ℕ) (remember : Bool) → answer ≢ SessionAnswer.signed_in u token remember)
    → IsSound s (answer, s)
unsigned s answer other =
    (λ u. omega arith, λ u token remember e. absurd (other u token remember e))

reject_replay-IsSound :
    (now user_id : ℕ) (via_cookie : Bool) (s : AuthStore)
    → IsSound s (reject_replay now user_id via_cookie s)
unfolding reject_replay
reject_replay-IsSound now user_id via_cookie s = (
  λ u. ground (arith, live-revoke_where now (λ r. r.user_id == user_id) u s.refresh_tokens),
  λ u token remember e. absurd (ground arith),
)

repeat_or_replay-IsSound :
    (t : Tokens) (config : SessionConfig) (now : ℕ) (spent : RefreshToken) (user_id : ℕ)
    (remember via_cookie : Bool) (s : AuthStore)
    → spent.user_id ≡ user_id
    → IsSound s (repeat_or_replay t config now spent user_id remember via_cookie s)
unfolding repeat_or_replay
repeat_or_replay-IsSound t config now spent user_id remember via_cookie s same =
    elim (Option-cases (successor_within_reuse_interval t config now spent remember s)) [
      | inl e ↦ rw (e, repeat_or_replay) (reject_replay-IsSound now user_id via_cookie s)
      | inr (token, e) ↦
          let (j, row, found, own, alive) = successor_live t config now spent remember s e in
          rw (e, repeat_or_replay)
            (λ u. omega arith, λ u token' remember' h. (j, row, found, ground arith, alive))
    ]

rotate-IsSound :
    (t : Tokens) (config : SessionConfig) (now new_id id user_id : ℕ) (remember via_cookie : Bool)
    (s : AuthStore)
    → lookup new_id s.refresh_tokens ≡ none
    → ((row : RefreshToken) → lookup id s.refresh_tokens ≡ some row → row.user_id ≡ user_id)
    → IsSound s (rotate t config now new_id id user_id remember via_cookie s)
unfolding rotate
rotate-IsSound t config now new_id id user_id remember via_cookie s fresh same =
    elim (Option-cases (lookup id s.refresh_tokens)) [
      | inl e ↦ rw (e, rotate) (reject_replay-IsSound now user_id via_cookie s)
      | inr (r, e) ↦ elim (Bool-cases (is_some r.revoked_at)) [
        | inl dead ↦
            rw (e, dead, rotate)
              (repeat_or_replay-IsSound t config now r user_id remember via_cookie s (same r e))
        | inr alive ↦
            let none_yet : r.revoked_at ≡ none = ground arith in
            rw (e, alive, rotate)
              (
                λ u. omega (
                  arith,
                  live_spent u id new_id now r (new_session t config now new_id user_id remember)
                      s.refresh_tokens e none_yet fresh (sym (same r e)) refl,
                ),
                λ u token remember' h. (id, r, e, ground (arith, same r e), none_yet),
              )
      ]
    ]

exchange-IsSound :
    (t : Tokens) (config : SessionConfig) (now new_id : ℕ) (claims : Claims) (via_cookie : Bool)
    (i : ℕ) (r : RefreshToken) (s : AuthStore)
    → lookup new_id s.refresh_tokens ≡ none
    → ((row : RefreshToken) → lookup i s.refresh_tokens ≡ some row → row.user_id ≡ r.user_id)
    → IsSound s (exchange t config now new_id claims via_cookie (i, r) s)
unfolding exchange
exchange-IsSound t config now new_id claims via_cookie i r s fresh same =
    if_IsSound s _ _ (is_some r.revoked_at)
      (repeat_or_replay-IsSound t config now r r.user_id claims.remember via_cookie s refl)
      (if_IsSound s _ _ (leb r.expires_at now) (unsigned s _ (λ u token remember. cc)) (
        if_IsSound s _ _ (not (i == claims.jti)) (unsigned s _ (λ u token remember. cc))
          (rotate-IsSound t config now new_id i r.user_id claims.remember via_cookie s fresh same)))

pub refresh-IsSound :
    (t : Tokens) (config : SessionConfig) (now new_id : ℕ) (req : TokenRequest) (seen s : AuthStore)
    → AuthRun seen s
    → IsKeyed seen.refresh_tokens
    → lookup new_id s.refresh_tokens ≡ none
    → IsSound s (refresh t config now new_id req seen s)
unfolding refresh
refresh-IsSound t config now new_id req seen s run keyed fresh =
    elim (Option-cases (presented req)) [
      | inl e ↦ rw (e, refresh) (unsigned s _ (λ u token remember. cc))
      | inr (token, e) ↦
          rw (e, refresh)
            (if_IsSound s _ _ (is_none req.body && not req.trusted_origin)
              (unsigned s _ (λ u token remember. cc))
              (elim (Option-cases (t.verify token now)) [
                | inl f ↦ rw (f, refresh) (unsigned s _ (λ u token remember. cc))
                | inr (claims, f) ↦
                    elim (Option-cases (find_token (t.hash token) seen.refresh_tokens)) [
                      | inl g ↦ rw (f, g, refresh) (unsigned s _ (λ u token remember. cc))
                      | inr ((i, r), g) ↦
                          let (found, hit) =
                            find_by-lookup (λ r. r.token_hash == t.hash token) i r
                              seen.refresh_tokens keyed g in
                          let (r', now_found, became) = revoked_stays i r run found in
                          rw (f, g, refresh)
                            (exchange-IsSound t config now new_id claims (is_none req.body) i r s
                              fresh (λ row h. ground arith))
                    ]
              ]))
    ]

-- A refresh leaves no user with more live sessions than before, whatever it read before the calls
-- that came between its read and its writes.
pub refresh-live-le :
    (t : Tokens) (config : SessionConfig) (now new_id user_id : ℕ) (req : TokenRequest)
    (seen s : AuthStore)
    → AuthRun seen s
    → IsKeyed seen.refresh_tokens
    → lookup new_id s.refresh_tokens ≡ none
    → live user_id (refresh t config now new_id req seen s).1.refresh_tokens
      ≤ live user_id s.refresh_tokens
refresh-live-le t config now new_id user_id req seen s run keyed fresh =
    (refresh-IsSound t config now new_id req seen s run keyed fresh).0 user_id
