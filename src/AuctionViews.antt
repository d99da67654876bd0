-- ===== src/AuctionViews.antt =====
-- src/modules/auctions/auction-dto.ts: an auction as the public routes serve it. A rating is counted
-- in tenths.
pub mod Secrecy
pub mod History
pub mod Anonymity
pub mod Renaming
use bidvault_backend.Store.{AuctionStatus, ItemCondition, TransactionStatus, Auction, Sale}
use bidvault_backend.Common.{
  ℕ, [], ◌∷◌, String, Option, Bool, Table, some, List, ◌==◌, true, none, or_else, count, suc, false,
  total, leb, if◌then◌else◌, ◌*◌, contains, ◌&&◌, ◌+◌, ltb, ◌/◌, zero,
}
use bidvault_backend.Reviews.{Review}
use bidvault_backend.Fulfillment.{is_revenue}

pub record SellerStats : Type 0 where
  pub rating : Option ℕ
  pub sales_count : ℕ

-- The User columns that an auction includes of its seller.
pub record SellerProfile : Type 0 where
  pub name : String
  pub created_at : ℕ
  pub seller_city : Option String
  pub seller_province : Option String

abbrev is_review_of : ℕ → ℕ × Review → Bool
is_review_of seller_id r = (r.1).seller_id == seller_id

-- `Math.round(avg * 10)`, of the stars' sum and number.
abbrev rounded_average : ℕ → ℕ → Option ℕ
rounded_average sum zero = none
rounded_average sum (suc n) = some ((20 * sum + suc n) / (2 * suc n))

-- The entry of a seller in `buildSellerStatsMap`.
unfoldable pub seller_stats : Table Review → Table Sale → ℕ → SellerStats
seller_stats reviews sales seller_id = record {
  rating =
      rounded_average (total (is_review_of seller_id) (λ r. (r.1).stars) reviews)
        (count (is_review_of seller_id) reviews);
  sales_count = count (λ s. (s.1).seller_id == seller_id && is_revenue (s.1).status) sales;
}

unfoldable pub build_seller_stats_map : Table Review → Table Sale → List ℕ → ℕ → Option SellerStats
build_seller_stats_map reviews sales seller_ids seller_id =
    if contains seller_id seller_ids then some (seller_stats reviews sales seller_id) else none

-- The watchers of an auction; an auction that nobody watches is absent, which its readers take as 0.
pub record WatchRow : Type 0 where
  pub user_id : ℕ
  pub auction_id : ℕ

unfoldable pub build_watcher_count_map : List WatchRow → List ℕ → ℕ → Option ℕ
build_watcher_count_map watchlist auction_ids auction_id =
    let watchers = count (λ r. r.auction_id == auction_id) watchlist in
    if contains auction_id auction_ids && ltb 0 watchers then some watchers else none

pub record AuctionDto : Type 0 where
  pub auction_id : ℕ
  pub listing_id : ℕ
  pub title : String
  pub category : String
  pub condition : ItemCondition
  pub description : String
  pub emoji : String
  pub seller_id : ℕ
  pub seller_name : String
  pub seller_rating : Option ℕ
  pub seller_sales : Option ℕ
  pub seller_member_since : ℕ
  pub seller_city : Option String
  pub seller_province : Option String
  pub start_price : ℕ
  pub current_bid : ℕ
  pub min_increment : ℕ
  pub reserve_met : Option Bool
  pub bid_count : ℕ
  pub watcher_count : ℕ
  pub start_time : ℕ
  pub end_time : ℕ
  pub status : AuctionStatus
  pub image_url : String
  pub images : List String
  pub attributes : Option String

abbrev pub images_of : Option String → List String
images_of none = []
images_of (some String.[]) = []
images_of (some (String.◌∷◌ c s)) = String.◌∷◌ c s ∷ []

-- The verdict that goes out for the reserve.
abbrev pub verdict : Auction → Option Bool
verdict auction = elim auction.reserve_price [
  | none ↦ none
  | some reserve ↦ some (or_else auction.reserve_met (leb reserve auction.current_bid))
]

abbrev rating_of : Option SellerStats → Option ℕ
rating_of none = none
rating_of (some stats) = stats.rating

abbrev sales_of : Option SellerStats → Option ℕ
sales_of none = none
sales_of (some stats) = some stats.sales_count

unfoldable pub to_auction_dto :
    ℕ → Auction → SellerProfile → (ℕ → Option SellerStats) → (ℕ → Option ℕ) → AuctionDto
to_auction_dto auction_id auction seller stats_map watcher_counts =
    let stats = stats_map auction.seller_id in
    record {
      auction_id = auction_id;
      listing_id = auction.listing_id;
      title = auction.title;
      category = auction.category;
      condition = auction.condition;
      description = auction.description;
      emoji = or_else auction.emoji "📦";
      seller_id = auction.seller_id;
      seller_name = seller.name;
      seller_rating = rating_of stats;
      seller_sales = sales_of stats;
      seller_member_since = seller.created_at;
      seller_city = seller.seller_city;
      seller_province = seller.seller_province;
      start_price = auction.start_price;
      current_bid = auction.current_bid;
      min_increment = auction.min_increment;
      reserve_met = verdict auction;
      bid_count = auction.bid_count;
      watcher_count = or_else (watcher_counts auction_id) 0;
      start_time = auction.start_time;
      end_time = auction.end_time;
      status = auction.status;
      image_url = or_else auction.image_url "";
      images = images_of auction.image_url;
      attributes = auction.attributes;
    }
