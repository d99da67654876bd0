-- ===== src/Scenarios/Access.antt =====
-- Admin 9 suspends buyer 2, whose status the process has cached.
use bidvault_backend.Auth.{Role}
use bidvault_backend.Common.{[], ◌∷◌, none, lookup, false, ◌≡◌, refl}
use bidvault_backend.Accounts.{AccountState, suspend_user, StatusAnswer}
use bidvault_backend.Scenarios.Market.{market, with_bids}
use bidvault_backend.Store.{next}
use bidvault_backend.Accounts.Suspension.{suspend_user-IsRefused, IsRefused}
use bidvault_backend.Accounts.Enrollment.{
  enroll_seller, SellerState, EnrollSellerInput, seller_terms_version, EnrollAnswer, forget,
}
use bidvault_backend.Accounts.Enrolled.{enroll_twice}
use bidvault_backend.Accounts.Requests.{after_events, AuthEvent}

abbrev cached_buyer : AccountState
cached_buyer = record {
  world = market;
  cache = (2, record { access = record { suspended = false; is_seller = false }; at = 900 }) ∷ [];
  in_flight = [];
}

suspension_done : (suspend_user 2 9 "fraud" cached_buyer).0 ≡ next StatusAnswer.status_changed
unfolding suspend_user lookup
suspension_done = refl

-- Buyer 3's request is looked up in between, and one of buyer 2.
suspend_user-IsRefused_example : IsRefused 2 Role.buyer (
    after_events
      (AuthEvent.reads none 3 Role.buyer
        ∷ AuthEvent.reads none 2 Role.buyer
        ∷ AuthEvent.is_done 1050 0
        ∷ [])
      (suspend_user 2 9 "fraud" cached_buyer).1)
suspend_user-IsRefused_example =
    suspend_user-IsRefused 2 9 "fraud" cached_buyer
      (AuthEvent.reads none 3 Role.buyer
        ∷ AuthEvent.reads none 2 Role.buyer
        ∷ AuthEvent.is_done 1050 0
        ∷ [])
      Role.buyer tt suspension_done

-- Amna, user 3, becomes a seller, and then tries again with other details.
abbrev first_details : EnrollSellerInput
first_details = record {
  terms_version = seller_terms_version;
  city = "Lahore";
  province = "Punjab";
  phone = none;
  bio = none;
}

abbrev other_details : EnrollSellerInput
other_details = record first_details { terms_version = []; city = "Karachi" }

abbrev not_yet_seller : SellerState
not_yet_seller = record {
  accounts = record { world = with_bids; cache = []; in_flight = [] };
  details = [];
}

enrolls : (enroll_seller 500 3 first_details not_yet_seller).0 ≡ EnrollAnswer.enrolled
unfolding enroll_seller lookup
enrolls = refl

enrolls_again :
    enroll_seller 600 3 other_details (enroll_seller 500 3 first_details not_yet_seller).1 ≡ (
      EnrollAnswer.enrolled,
      record (enroll_seller 500 3 first_details not_yet_seller).1 {
        accounts = forget 3 (enroll_seller 500 3 first_details not_yet_seller).1.accounts;
      },
    )
enrolls_again = enroll_twice 500 600 3 first_details other_details not_yet_seller enrolls
