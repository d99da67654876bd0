-- ===== src/Scenarios/Views.antt =====
-- The public views of an auction and of its bids on concrete data.
use bidvault_backend.Store.{Bid}
use bidvault_backend.Pagination.{ParsedNumber, list_page, parse_limit}
use bidvault_backend.Scenarios.Pages.{demo_text}
use bidvault_backend.Common.{
  ℕ, [], ◌∷◌, Option, some, Table, none, ◌≡◌, true, ◌++◌, map, ◌↔◌, leb, Memᴰ, ◌+◌, refl, arith,
}
use bidvault_backend.AuctionViews.History.{bid_history, BidView, BuyerName, bid_view, rank_of}
use bidvault_backend.AuctionViews.{SellerProfile}
use bidvault_backend.AuctionViews.Secrecy.{seen_with, reserve_seen_iff}
use bidvault_backend.AuctionViews.Anonymity.{shown_name, shown_name_iff}
use bidvault_backend.Scenarios.Market.{lamp}
use bidvault_backend.AuctionViews.Renaming.{renamed, renamed_history}

-- Three bids on auction 1 by two users and one whose account is gone, and a bid on another auction.
abbrev bid_of : ℕ → Option ℕ → ℕ → ℕ → Bid
bid_of auction_id buyer_id amount created_at = record {
  auction_id = auction_id;
  buyer_id = buyer_id;
  amount = amount;
  created_at = created_at;
}

abbrev first_bid : ℕ × Bid
first_bid = (1, bid_of 1 (some 40) 100 10)

abbrev bids_made : Table Bid
bids_made =
    first_bid
    ∷ (2, bid_of 2 (some 41) 500 11)
    ∷ (3, bid_of 1 none 110 12)
    ∷ (4, bid_of 1 (some 42) 120 13)
    ∷ []

abbrev later_bid : ℕ × Bid
later_bid = (5, bid_of 1 (some 40) 130 14)

shown_name_iff_example :
    (shown_name 1 bids_made (some 42) first_bid
      ≡ shown_name 1 (bids_made ++ later_bid ∷ []) (some 42) later_bid)
    ↔ (◌≡◌ {A = Option ℕ} (some 40) (some 40))
shown_name_iff_example =
    shown_name_iff 1 (some 42) bids_made (later_bid ∷ []) later_bid (Memᴰ.head refl) refl

renamed_history_example :
    bid_history demo_text
      (ParsedNumber.positive 2)
      none
      none
      1
      (map (renamed (λ u. u + 7)) bids_made)
    ≡ bid_history demo_text (ParsedNumber.positive 2) none none 1 bids_made
renamed_history_example =
    renamed_history (λ u. u + 7) (λ u v e. omega arith) demo_text (ParsedNumber.positive 2) none 1
      bids_made

newest_first : BidView
newest_first = record {
  bid_id = 4;
  auction_id = 1;
  is_mine = true;
  buyer_name = BuyerName.bidder (some 2);
  amount = 120;
  timestamp = 13;
}

-- The first page, read by the bidder who is second on the auction.
first_page_of_bids :
    (bid_history demo_text (ParsedNumber.positive 1) none (some 42) 1 bids_made).0
    ≡ newest_first ∷ []
unfolding bid_history list_page parse_limit bid_view rank_of newest_first
first_page_of_bids = refl

abbrev profile : SellerProfile
profile = record {
  name = "Zara";
  created_at = 0;
  seller_city = some "Lahore";
  seller_province = none;
}

-- The lamp's bid of 100 reaches neither 150 nor 190.
reserve_seen_iff_example :
    (seen_with 20 lamp profile (λ _. none) (λ _. none) 150
      ≡ seen_with 20 lamp profile (λ _. none) (λ _. none) 190)
    ↔ (leb 150 lamp.current_bid ≡ leb 190 lamp.current_bid)
reserve_seen_iff_example = reserve_seen_iff 20 lamp profile (λ _. none) (λ _. none) 150 190 refl
