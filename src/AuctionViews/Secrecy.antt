-- ===== src/AuctionViews/Secrecy.antt =====
-- What the public view of an auction tells of its reserve price.
use bidvault_backend.Common.{ℕ, Option, some, ◌≡◌, none, ◌↔◌, leb, ap, arith, Bool, or_else}
use bidvault_backend.Store.{Auction}
use bidvault_backend.AuctionViews.{SellerProfile, SellerStats, AuctionDto, to_auction_dto}

module _ (auction_id : ℕ) (auction : Auction) (seller : SellerProfile)
    (stats_map : ℕ → Option SellerStats) (watcher_counts : ℕ → Option ℕ) where
  -- The public view if the reserve price were this one.
  abbrev pub seen_with : ℕ → AuctionDto
  seen_with reserve =
      to_auction_dto auction_id (record auction { reserve_price = some reserve }) seller stats_map
        watcher_counts

  told :
      (r r' : ℕ)
      → auction.reserve_met ≡ none
      → seen_with r ≡ seen_with r'
      → leb r auction.current_bid ≡ leb r' auction.current_bid
  unfolding to_auction_dto
  told r r' open_auction same =
      ground (arith, open_auction, ap (λ (d : AuctionDto). d.reserve_met) same)

  untold :
      (r r' : ℕ)
      → leb r auction.current_bid ≡ leb r' auction.current_bid
      → seen_with r ≡ seen_with r'
  unfolding to_auction_dto
  untold r r' same =
      ap
        (λ (reached : Bool). record (seen_with 0) {
          reserve_met = some (or_else auction.reserve_met reached);
        })
        same

  -- Two reserve prices of an auction without a recorded verdict have the same public view exactly
  -- when the current bid reaches both or neither of them.
  pub reserve_seen_iff :
      (r r' : ℕ)
      → auction.reserve_met ≡ none
      → (seen_with r ≡ seen_with r') ↔ (leb r auction.current_bid ≡ leb r' auction.current_bid)
  reserve_seen_iff r r' open_auction = (told r r' open_auction, untold r r')
