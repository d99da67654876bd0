-- ===== src/Recovery/Offers.antt =====
-- Whom an unpaid sale is offered to, and that the preview of the offer agrees with it.
use bidvault_backend.Common.{
  ℕ, [], ◌∷◌, List, lookup, none, ◌≡◌, Option-cases, some, inl, arith, inr, count-pos, refl,
}
use bidvault_backend.Store.Queries.{BidQueries, IsLawful, top-amount}
use bidvault_backend.Store.{World, Sale, Flow}
use bidvault_backend.Recovery.{
  find_next_bid, find_next_bid_amounts, offer_to_next_bidder, OfferAnswer, is_next,
}
use bidvault_backend.Closing.Outcome.{count_of_unfit}

-- The preview, sale by sale, by the rule of the offer itself.
abbrev pub preview : BidQueries → List (ℕ × List ℕ) → World → List (ℕ × ℕ)
preview q [] w = []
preview q ((auction_id, exclude) ∷ sales) w = elim (find_next_bid q auction_id exclude w) [
  | none ↦ preview q sales w
  | some (i, b) ↦ (auction_id, b.amount) ∷ preview q sales w
]

module _ {q : BidQueries} (lawful : IsLawful q) where
  -- The amounts that one SQL query reads for a page of sales are those of the bids that the offer
  -- would choose, sale by sale; a sale that could be offered to nobody has no entry.
  pub next_amounts_agree :
      (sales : List (ℕ × List ℕ)) (w : World) → find_next_bid_amounts sales w ≡ preview q sales w
  unfolding find_next_bid_amounts find_next_bid
  next_amounts_agree [] w = refl
  next_amounts_agree ((a, exclude) ∷ sales) w =
      elim (Option-cases (q.top (is_next a exclude) w.bids)) [
        | inl e ↦
            let empty =
              count_of_unfit (is_next a exclude) w.bids
                (lawful.top_none (is_next a exclude) w.bids e) in
            ground (arith, next_amounts_agree sales w)
        | inr (r, e) ↦
            let (m, fits, _) = lawful.top_some (is_next a exclude) w.bids e in
            let some_bid = count-pos (is_next a exclude) w.bids m fits in
            let price = top-amount lawful (is_next a exclude) w.bids e in
            ground (arith, next_amounts_agree sales w)
      ]

module _ {q : BidQueries} (lawful : IsLawful q) (now hours transaction_id seller_id : ℕ) (w : World)
    (row : Sale) (found : lookup transaction_id w.sales ≡ some row) where
  abbrev offering : Flow OfferAnswer OfferAnswer × World
  offering = offer_to_next_bidder q now hours transaction_id seller_id w
