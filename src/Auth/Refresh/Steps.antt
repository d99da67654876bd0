-- ===== src/Auth/Refresh/Steps.antt =====
-- The abstract machine of the RefreshToken table: sessions start, are revoked, and are spent for one
-- successor. A row that is revoked never changes again, and a row keeps its user and its hash.
use bidvault_backend.Common.{
  ℕ, [], ◌∷◌, refl, Table, lookup, ◌∙◌, ◌≡◌, inr, Bool, none, some, arith, insert, ◌⊎◌,
  if◌then◌else◌, ◌&&◌, is_none, lookup-insert, ◌==◌,
}
use bidvault_backend.Auth.{RefreshToken, revoke_where, revoked}
use bidvault_backend.Auth.Refresh.{spent_for}

pub data TokenStep : Table RefreshToken → Table RefreshToken → Type 0 where
  revoke :
      (now : ℕ) (p : RefreshToken → Bool) {t : Table RefreshToken}
      → TokenStep t (revoke_where now p t)
  start :
      (id : ℕ) (r : RefreshToken) {t : Table RefreshToken}
      → lookup id t ≡ none
      → r.revoked_at ≡ none
      → TokenStep t (insert id r t)
  spend :
      (id now new_id : ℕ) (r : RefreshToken) {t : Table RefreshToken}
      → lookup id t ≡ some r
      → r.revoked_at ≡ none
      → TokenStep t (insert id (spent_for now new_id r) t)

pub data TokenRun (t : Table RefreshToken) : Table RefreshToken → Type 0 where
  here : TokenRun t t
  then_step : {u v : Table RefreshToken} → TokenRun t u → TokenStep u v → TokenRun t v

-- What a row becomes: itself, or itself with the time of its end and its successor.
abbrev pub Became : RefreshToken → RefreshToken → Type 0
Became r r' =
    (r'.user_id ≡ r.user_id)
    × (r'.token_hash ≡ r.token_hash)
    × (r'.expires_at ≡ r.expires_at)
    × (r'.created_at ≡ r.created_at)
    × (r.revoked_at ≡ none ⊎ (r' ≡ r))

Became-refl : (r : RefreshToken) → Became r r
Became-refl r = (refl, refl, refl, refl, inr refl)

Became-trans : (r s t : RefreshToken) → Became r s → Became s t → Became r t
Became-trans r s t (a, b, c, d, e) (a', b', c', d', e') =
    (a' ∙ a, b' ∙ b, c' ∙ c, d' ∙ d, ground arith)

pub lookup-revoke_where :
    (now : ℕ) (p : RefreshToken → Bool) (i : ℕ) (t : Table RefreshToken) (r : RefreshToken)
    → lookup i t ≡ some r
    → lookup i (revoke_where now p t)
      ≡ some (if p r && is_none r.revoked_at then revoked now r else r)
unfolding lookup revoke_where
lookup-revoke_where now p i [] r h = cc
lookup-revoke_where now p i ((j, v) ∷ t) r h = ground (arith, lookup-revoke_where now p i t r)

pub lookup-revoke_where-none :
    (now : ℕ) (p : RefreshToken → Bool) (i : ℕ) (t : Table RefreshToken)
    → lookup i t ≡ none
    → lookup i (revoke_where now p t) ≡ none
unfolding lookup revoke_where
lookup-revoke_where-none now p i [] h = refl
lookup-revoke_where-none now p i ((j, v) ∷ t) h = ground (arith, lookup-revoke_where-none now p i t)

step_row :
    (i : ℕ) (r : RefreshToken) {t u : Table RefreshToken}
    → TokenStep t u
    → lookup i t ≡ some r
    → (r' : RefreshToken) × (lookup i u ≡ some r') × Became r r'
step_row i r (revoke now p {t}) h = (
  if p r && is_none r.revoked_at then revoked now r else r,
  lookup-revoke_where now p i t r h,
  ground arith,
)
step_row i r (start id new {t} fresh live) h =
    (r, ground (arith, lookup-insert id i new t), Became-refl r)
step_row i r (spend id now new_id old {t} found live) h = (
  if id == i then spent_for now new_id old else r,
  ground (arith, lookup-insert id i (spent_for now new_id old) t),
  ground arith,
)

-- Through any run of steps, a row stays, with its user, its hash and its times; once it is revoked
-- it stays whole.
pub run_row :
    (i : ℕ) (r : RefreshToken) {t u : Table RefreshToken}
    → TokenRun t u
    → lookup i t ≡ some r
    → (r' : RefreshToken) × (lookup i u ≡ some r') × Became r r'
run_row i r here h = (r, h, Became-refl r)
run_row i r (then_step run step) h =
    let (r', h', became) = run_row i r run h in
    let (r'', h'', became') = step_row i r' step h' in
    (r'', h'', Became-trans r r' r'' became became')

pub TokenRun-append : {t u v : Table RefreshToken} → TokenRun t u → TokenRun u v → TokenRun t v
TokenRun-append run here = run
TokenRun-append run (then_step more step) = then_step (TokenRun-append run more) step
