-- ===== src/Accounts/Enrollment.antt =====
-- src/services/seller-account.service.ts: an account becomes a seller. The columns that are written of
-- it, besides `isSeller`, stand in a table of their own.
use bidvault_backend.Store.{User, AuditAction, AuditLog}
use bidvault_backend.Common.{
  ℕ, [], ◌∷◌, some, lookup, insert, List, Option, if◌then◌else◌, String, remove, true, Table, not,
  ◌++◌, text_eq, none,
}
use bidvault_backend.Accounts.{AccountState}

-- SELLER_TERMS_VERSION, of src/config/seller.ts; texts are lists of character codes.
abbrev pub seller_terms_version : List ℕ
seller_terms_version = 50 ∷ 48 ∷ 50 ∷ 54 ∷ 45 ∷ 49 ∷ 48 ∷ []

pub record EnrollSellerInput : Type 0 where
  pub terms_version : List ℕ
  pub city : String
  pub province : String
  pub phone : Option String
  pub bio : Option String

pub record SellerDetails : Type 0 where
  pub seller_since : ℕ
  pub seller_terms_accepted_at : ℕ
  pub seller_terms_version : List ℕ
  pub age_confirmed_at : ℕ
  pub seller_city : String
  pub seller_province : String
  pub seller_phone : Option String
  pub seller_bio : Option String

pub record SellerState : Type 0 where
  pub accounts : AccountState
  pub details : Table SellerDetails

pub data EnrollAnswer : Type 0 where
  enrolled user_not_found terms_changed : EnrollAnswer

abbrev pub enrolled_details : ℕ → EnrollSellerInput → SellerDetails
enrolled_details now input = record {
  seller_since = now;
  seller_terms_accepted_at = now;
  seller_terms_version = input.terms_version;
  age_confirmed_at = now;
  seller_city = input.city;
  seller_province = input.province;
  seller_phone = input.phone;
  seller_bio = input.bio;
}

abbrev pub enrolled_audit : ℕ → EnrollSellerInput → AuditLog
enrolled_audit user_id input = record {
  actor_user_id = some user_id;
  action = AuditAction.seller_enrolled;
  entity_id = user_id;
  note = input.province;
}

-- `invalidateUserStatusCache`
abbrev pub forget : ℕ → AccountState → AccountState
forget user_id a = record a { cache = remove user_id a.cache }

abbrev pub write_enrolled : ℕ → ℕ → EnrollSellerInput → User → SellerState → SellerState
write_enrolled now user_id input user s = record {
  accounts = record s.accounts {
    world = record s.accounts.world {
      users = insert user_id (record user { is_seller = true }) s.accounts.world.users;
      audit_logs = s.accounts.world.audit_logs ++ enrolled_audit user_id input ∷ [];
    };
    cache = remove user_id s.accounts.cache;
  };
  details = insert user_id (enrolled_details now input) s.details;
}

abbrev pub enroll_row :
    ℕ → ℕ → EnrollSellerInput → Option User → SellerState → EnrollAnswer × SellerState
enroll_row now user_id input none s = (user_not_found, s)
enroll_row now user_id input (some user) s =
    if user.is_seller
    then (enrolled, record s { accounts = forget user_id s.accounts })
    else if not (text_eq input.terms_version seller_terms_version)
    then (terms_changed, s)
    else (enrolled, write_enrolled now user_id input user s)

unfoldable pub enroll_seller : ℕ → ℕ → EnrollSellerInput → SellerState → EnrollAnswer × SellerState
enroll_seller now user_id input s =
    enroll_row now user_id input (lookup user_id s.accounts.world.users) s
