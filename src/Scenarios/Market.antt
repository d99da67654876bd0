-- ===== src/Scenarios/Market.antt =====
-- A market: seller 1, buyers 2 and 3, and seller 1's lamp, listing 5 and auction 10.
use bidvault_backend.Common.{[], ◌∷◌, String, none, some, true, false}
use bidvault_backend.Store.{
  Sale, Listing, Auction, World, Bid, empty_world, User, ItemCondition, AuctionStatus, UserStatus,
  TransactionStatus, ListingStatus,
}
use bidvault_backend.Closing.{new_sale}
use bidvault_backend.Bidding.{new_bid, raised}
use bidvault_backend.Sales.{delivered_sale, entry_of}

abbrev pub person : String → User
person name = record {
  name = name;
  email = name;
  status = UserStatus.active;
  notify_outbid = true;
  notify_wins = true;
  ledger_balance = 0;
  is_seller = false;
}

abbrev pub lamp_listing : Listing
lamp_listing = record {
  listing_code = 77;
  seller_id = 1;
  title = "Lamp";
  category = "Home";
  condition = ItemCondition.used;
  description = "A lamp";
  start_price = 100;
  reserve_price = none;
  min_increment = 10;
  duration_days = 3;
  status = ListingStatus.approved;
  rejection_reason = none;
  image_url = none;
  emoji = none;
  attributes = none;
  relisted_from_id = none;
}

abbrev pub lamp : Auction
lamp = record {
  listing_id = 5;
  seller_id = 1;
  title = "Lamp";
  category = "Home";
  condition = ItemCondition.used;
  description = "A lamp";
  image_url = none;
  emoji = none;
  start_price = 100;
  reserve_price = none;
  reserve_met = none;
  min_increment = 10;
  current_bid = 100;
  bid_count = 0;
  attributes = none;
  status = AuctionStatus.active;
  start_time = 0;
  end_time = 1000;
}

abbrev pub market : World
market = record empty_world {
  users = (1, person "Sana") ∷ (2, person "Bilal") ∷ (3, person "Amna") ∷ [];
  listings = (5, lamp_listing) ∷ [];
  auctions = (10, lamp) ∷ [];
}

-- Buyer 2 bids 100 at 500, and buyer 3 bids 150 at 600.
abbrev pub first_bid : Bid
first_bid = new_bid 500 10 2 100

abbrev pub second_bid : Bid
second_bid = new_bid 600 10 3 150

abbrev pub lamp_after : Auction
lamp_after = raised (raised lamp 100) 150

abbrev pub with_bids : World
with_bids = record market {
  auctions = (10, lamp_after) ∷ [];
  bids = (20, first_bid) ∷ (21, second_bid) ∷ [];
}

abbrev pub lamp_cancelled : Auction
lamp_cancelled = record lamp_after { status = AuctionStatus.cancelled }

abbrev pub with_cancelled : World
with_cancelled = record with_bids { auctions = (10, lamp_cancelled) ∷ [] }

-- The sale of the lamp to buyer 3, shipped.
abbrev pub lamp_sale : Sale
lamp_sale = record (new_sale 1000 4601000 10 1 (record { buyer_id = 3; amount = 150 })) {
  status = TransactionStatus.shipped;
  delivery_address = some "12 Mall Road";
}

abbrev pub with_shipped : World
with_shipped = record with_bids { sales = (30, lamp_sale) ∷ [] }

abbrev pub with_delivered : World
with_delivered = record with_bids {
  sales = (30, delivered_sale lamp_sale) ∷ [];
  users =
      (1, record (person "Sana") { ledger_balance = 150 })
      ∷ (2, person "Bilal")
      ∷ (3, person "Amna")
      ∷ [];
  ledger_entries = entry_of 30 lamp_sale ∷ [];
}
