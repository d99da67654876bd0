-- ===== src/Scenarios/Columns.antt =====
-- A listing that is submitted, approved and bid for, and the columns of the market.
use bidvault_backend.Scenarios.Market.{market, lamp}
use bidvault_backend.Store.{World, ItemCondition}
use bidvault_backend.Requests.{
  RawNumber, SchemaRules, RawListing, submit_listing_schema, positive_int,
}
use bidvault_backend.Requests.Columns.{
  bids, AreStorable, Trade-AreStorable, approves, none_yet, IsStorable,
}
use bidvault_backend.Common.{[], ◌∷◌, lookup, ◌≡◌, true, some, none, refl, arith, subst, sym}
use bidvault_backend.Listings.{ListingForm, new_listing}
use bidvault_backend.Bidding.{place_bid}
use bidvault_backend.Store.Queries.Scan.{scan_queries}
use bidvault_backend.Listings.Moderation.{write_approval}

abbrev any_rules : SchemaRules
any_rules = record {
  as_text = λ s. "text";
  is_category = λ s. true;
  is_image_url = λ s. true;
  is_emoji = λ s. true;
}

abbrev vase_body : RawListing
vase_body = record {
  title = 32 ∷ 86 ∷ 97 ∷ 115 ∷ 101 ∷ [];
  category = 65 ∷ [];
  condition = some ItemCondition.used;
  description = 97 ∷ 98 ∷ 99 ∷ 100 ∷ 101 ∷ 102 ∷ 103 ∷ 104 ∷ 105 ∷ 106 ∷ [];
  start_price = RawNumber.whole 700;
  reserve_price = some (RawNumber.whole 2000000000);
  min_increment = RawNumber.whole 10;
  duration_days = RawNumber.whole 7;
  image_url = none;
  emoji = none;
  attributes = none;
}

abbrev vase_form : ListingForm
vase_form = record {
  title = "text";
  category = "text";
  condition = ItemCondition.used;
  description = "text";
  start_price = 700;
  reserve_price = some 2000000000;
  min_increment = 10;
  duration_days = 7;
  image_url = none;
  emoji = none;
  attributes = none;
}

vase_accepted : submit_listing_schema any_rules vase_body ≡ some vase_form
unfolding submit_listing_schema positive_int
vase_accepted = refl

lamp-IsStorable : IsStorable lamp
lamp-IsStorable = record {
  start_price = omega arith;
  min_increment = omega arith;
  reserve_price = tt;
  current_bid = omega arith;
}

market-AreStorable : AreStorable market
unfolding lookup
market-AreStorable a r e =
    let same : r ≡ lamp = ground arith in subst IsStorable (sym same) lamp-IsStorable

abbrev traded : World
traded =
    (place_bid scan_queries true 500 21 10 2 120
      (write_approval 400 11 9 6 (new_listing 77 1 vase_form none) market).1).1

Trade-AreStorable_example : AreStorable traded
Trade-AreStorable_example =
    Trade-AreStorable
      (bids (approves none_yet 400 11 9 6 77 1 none vase_body vase_form vase_accepted) true 500 21
        10 2 120)
      market-AreStorable
