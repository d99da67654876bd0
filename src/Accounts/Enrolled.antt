-- ===== src/Accounts/Enrolled.antt =====
-- What an enrolment grants, and what repeating it does.
use bidvault_backend.Store.{User, is_user_suspended}
use bidvault_backend.Auth.{Role}
use bidvault_backend.Common.{
  ℕ, ◌≡◌, lookup, Option, some, true, refl, arith, Bool-cases, none, inl, lookup-remove, inr,
  text_eq, lookup-insert_self, false, Bool, ◌⊎◌,
}
use bidvault_backend.Accounts.Enrollment.{
  EnrollSellerInput, SellerState, enroll_seller, EnrollAnswer, enroll_row, seller_terms_version,
  forget,
}
use bidvault_backend.Accounts.{
  AllowedRoles, AuthAnswer, access_of, AccountAccess, lookup_done, auth_starts, AccountState,
  AccessLookup, AuthStart, lookup_at,
}

abbrev IsSellerRow : Bool → ℕ → SellerState → Type 0
IsSellerRow suspended user_id s =
    (user : User) × (lookup user_id s.accounts.world.users ≡ some user)
    × (user.is_seller ≡ true)
    × (is_user_suspended user.status ≡ suspended)
    × (lookup user_id s.accounts.cache ≡ none)

enrolled_row :
    (now user_id : ℕ) (input : EnrollSellerInput) (s : SellerState) (row : Option User)
    → lookup user_id s.accounts.world.users ≡ row
    → (enroll_row now user_id input row s).0 ≡ EnrollAnswer.enrolled
    → IsSellerRow (access_of row).suspended user_id (enroll_row now user_id input row s).1
enrolled_row now user_id input s none found e = absurd (ground arith)
enrolled_row now user_id input s (some user) found e = elim (Bool-cases user.is_seller) [
  | inl already ↦
      rw already
        (user, found, already, refl, ground (arith, lookup-remove user_id user_id s.accounts.cache))
  | inr not_yet ↦ elim (Bool-cases (text_eq input.terms_version seller_terms_version)) [
    | inl agreed ↦
        rw (not_yet, agreed)
          (
            record user { is_seller = true },
            lookup-insert_self user_id (record user { is_seller = true }) s.accounts.world.users,
            refl,
            refl,
            ground (arith, lookup-remove user_id user_id s.accounts.cache),
          )
    | inr changed ↦ absurd (ground arith)
  ]
]

enroll-IsSellerRow :
    (now user_id : ℕ) (input : EnrollSellerInput) (s : SellerState)
    → (enroll_seller now user_id input s).0 ≡ EnrollAnswer.enrolled
    → IsSellerRow
        (access_of (lookup user_id s.accounts.world.users)).suspended
        user_id
        (enroll_seller now user_id input s).1
unfolding enroll_seller
enroll-IsSellerRow now user_id input s e =
    enrolled_row now user_id input s (lookup user_id s.accounts.world.users) refl e

enroll_seller-row :
    (suspended : Bool) (later user_id : ℕ) (again : EnrollSellerInput) (s : SellerState)
    → IsSellerRow suspended user_id s
    → enroll_seller later user_id again s
      ≡ (EnrollAnswer.enrolled, record s { accounts = forget user_id s.accounts })
unfolding enroll_seller
enroll_seller-row suspended later user_id again s (user, found, is_one, _, _) =
    rw (found, is_one) refl

-- Once an account is enrolled, a later enrolment of it, whatever it gives and whichever terms it
-- names, answers the same and changes no table, only clears the cached status again: the details and
-- the times of the first one stay, and there is no second audit entry.
pub enroll_twice :
    (now later user_id : ℕ) (input again : EnrollSellerInput) (s : SellerState)
    → (enroll_seller now user_id input s).0 ≡ EnrollAnswer.enrolled
    → enroll_seller later user_id again (enroll_seller now user_id input s).1 ≡ (
      EnrollAnswer.enrolled,
      record (enroll_seller now user_id input s).1 {
        accounts = forget user_id (enroll_seller now user_id input s).1.accounts;
      },
    )
enroll_twice now later user_id input again s e =
    enroll_seller-row (access_of (lookup user_id s.accounts.world.users)).suspended later user_id
      again (enroll_seller now user_id input s).1 (enroll-IsSellerRow now user_id input s e)

abbrev pub seller_only : AllowedRoles
seller_only = record { allows_buyer = false; allows_seller = true; allows_admin = false }

abbrev IsFreeSeller : AccountAccess → Type 0
IsFreeSeller access = (access.suspended ≡ false) × (access.is_seller ≡ true)

-- A request for a route of sellers is answered at once by letting it through, or it looks the account
-- up; and a lookup for such a request lets it through.
abbrev pub MaySell : ℕ → AccountState → Type 0
MaySell user_id s =
    ((now : ℕ)
      → (auth_starts (some seller_only) now (some (some (user_id, Role.buyer))) s
          ≡ AuthStart.answered (AuthAnswer.allowed user_id Role.buyer))
        ⊎ (auth_starts (some seller_only) now (some (some (user_id, Role.buyer))) s
            ≡ AuthStart.looks_up))
    × ((now n : ℕ) (l : AccessLookup)
        → lookup_at n s.in_flight ≡ some l
        → l.user_id ≡ user_id
        → l.roles ≡ some seller_only
        → l.role ≡ Role.buyer
        → (lookup_done now n s).0 ≡ some (AuthAnswer.allowed user_id Role.buyer))
