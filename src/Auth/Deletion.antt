-- ===== src/Auth/Deletion.antt =====
-- Closing one's own account: POST /delete-account of src/modules/auth/auth.routes.ts, with the guard
-- and the anonymisation of src/services/account.service.ts. The row stays; the columns of the
-- seller's profile are left out. `unusable` is the random password, `anonymous` the address made of
-- the id.
use bidvault_backend.Common.{
  none, some, Option, ℕ, count, Bool, false, if◌then◌else◌, insert, ◌≡◌, ◌==◌, ltb, ◌&&◌, lookup,
  ◌⊎◌, ◌||◌, true, not, Option-cases, inl, inr, arith, Bool-cases, lookup-insert_self, refl,
}
use bidvault_backend.Auth.{revoke_where, Passwords, Account, AuthStore, revoke_all, mail, AuthMail}
use bidvault_backend.Store.{World, is_sale_pending, is_auction_active}
use bidvault_backend.Auth.Sessions.{SessionAnswer}

abbrev pub active_auctions : ℕ → World → ℕ
active_auctions user_id w =
    count (λ (i, a). a.seller_id == user_id && is_auction_active a.status) w.auctions

abbrev pub pending_transactions : ℕ → World → ℕ
pending_transactions user_id w =
    count (λ (i, s). is_sale_pending s.status && (s.winner_id == user_id || s.seller_id == user_id))
      w.sales

-- None: the account can be deleted; else whether an active auction is the reason.
unfoldable pub check_account_deletable : ℕ → World → Option Bool
check_account_deletable user_id w =
    if ltb 0 (active_auctions user_id w)
    then some true
    else if ltb 0 (pending_transactions user_id w)
    then some false
    else none

abbrev pub anonymized : Passwords → ℕ → ℕ → ℕ → Account → Account
anonymized p salt unusable anonymous a = record a {
  email = anonymous;
  password_hash = p.hash salt unusable;
  is_seller = false;
}

abbrev pub anonymize_user : Passwords → ℕ → ℕ → ℕ → ℕ → ℕ → Account → AuthStore → AuthStore
anonymize_user p now salt unusable anonymous user_id a s = record s {
  accounts = insert user_id (anonymized p salt unusable anonymous a) s.accounts;
  refresh_tokens = revoke_all now user_id s.refresh_tokens;
}

unfoldable pub delete_account :
    Passwords → ℕ → ℕ → ℕ → ℕ → ℕ → ℕ → World → AuthStore → SessionAnswer × AuthStore
unfolding check_account_deletable revoke_where
delete_account p now salt unusable anonymous user_id password w s =
    elim (lookup user_id s.accounts) [
      | none ↦ (SessionAnswer.user_not_found, s)
      | some a ↦
          if not (p.verify password a.password_hash)
          then (SessionAnswer.wrong_password, s)
          else elim (check_account_deletable user_id w) [
            | some auction ↦ (SessionAnswer.not_deletable auction, s)
            | none ↦ (
              SessionAnswer.account_deleted,
              anonymize_user p now salt unusable anonymous user_id a
                  (mail (AuthMail.account_deleted user_id) s),
            )
          ]
    ]

abbrev pub email_of : Option Account → Option ℕ
email_of none = none
email_of (some a) = some a.email

module _ (p : Passwords) (now salt unusable anonymous user_id password : ℕ) (w : World)
    (s : AuthStore) where
  -- A deletion that went through had no active auction of the user's and no sale waiting for
  -- payment on either side, and left the account under the address without an owner and with every
  -- session of the user revoked; any other answer changes nothing.
  pub deleted_or_unchanged :
      (((delete_account p now salt unusable anonymous user_id password w s).0
          ≡ SessionAnswer.account_deleted)
        × (active_auctions user_id w ≡ 0)
        × (pending_transactions user_id w ≡ 0)
        × (email_of (
              lookup user_id
                (delete_account p now salt unusable anonymous user_id password w s).1.accounts)
            ≡ some anonymous)
        × ((delete_account p now salt unusable anonymous user_id password w s).1.refresh_tokens
            ≡ revoke_all now user_id s.refresh_tokens))
      ⊎ ((delete_account p now salt unusable anonymous user_id password w s).1 ≡ s)
  unfolding delete_account
  deleted_or_unchanged = elim (Option-cases (lookup user_id s.accounts)) [
    | inl e ↦ inr (rw (e, delete_account) refl)
    | inr (a, e) ↦ elim (Option-cases (check_account_deletable user_id w)) [
      | inr (auction, f) ↦ inr (ground arith)
      | inl free ↦ elim (Bool-cases (p.verify password a.password_hash)) [
        | inr wrong ↦ inr (ground arith)
        | inl right ↦ inl (
          ground arith,
          ground arith,
          ground arith,
          ground (
            arith,
            lookup-insert_self user_id (anonymized p salt unusable anonymous a) s.accounts,
          ),
          ground arith,
        )
      ]
    ]
  ]
