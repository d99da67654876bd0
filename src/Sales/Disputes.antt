-- ===== src/Sales/Disputes.antt =====
-- Closing an auction, and deciding a dispute, as steps of the machine.
use bidvault_backend.Common.{
  ℕ, lookup, String, ◌≡◌, some, none, Option-cases, inl, arith, inr, ◌&&◌, Bool-cases, not, false,
  refl, true,
}
use bidvault_backend.Store.Queries.{BidQueries}
use bidvault_backend.Store.{
  World, Dispute, Flow, Sale, TransactionStatus, Auction, next, is_dispute_open,
}
use bidvault_backend.Fulfillment.{
  Resolution, resolve_dispute, ResolveAnswer, decide_dispute, is_refund, FulfillmentAnswer,
  confirm_delivery,
}
use bidvault_backend.Closing.{
  close_auction, CloseResult, win_bid, WinBid, is_below, reserve_outcome, new_sale,
  payment_due_at_from,
}
use bidvault_backend.Sales.{
  SaleStep, still, went_on, SameMoney, opened, Flow-cases, moved, SaleStep-same, SameMoney-refl,
}
use bidvault_backend.Sales.Handlers.{confirm_delivery-SaleStep}

module _ (q : BidQueries) (now sale_id payment_deadline_hours auction_id : ℕ) (w : World) where
  abbrev closing : Flow CloseResult CloseResult × World
  closing = close_auction q now sale_id payment_deadline_hours auction_id w

  closing_missing : lookup auction_id w.auctions ≡ none → SaleStep false w closing.1
  unfolding close_auction
  closing_missing missing = still (ground arith) (ground arith) (ground arith)

  closing_none :
      (row : Auction)
      → lookup auction_id w.auctions ≡ some row
      → win_bid q auction_id w ≡ none
      → SaleStep false w closing.1
  unfolding close_auction
  closing_none row found e = still (ground arith) (ground arith) (ground arith)

  closing_some :
      (row : Auction) (win : WinBid)
      → lookup auction_id w.auctions ≡ some row
      → win_bid q auction_id w ≡ some win
      → lookup sale_id w.sales ≡ none
      → SaleStep false w closing.1
  unfolding close_auction
  closing_some row win found e fresh =
      elim (Bool-cases
        (went_on closing.0 && not (is_below (reserve_outcome row.reserve_price (some win))))) [
          | inl done ↦
              opened sale_id
                (new_sale now (payment_due_at_from now payment_deadline_hours) auction_id
                  row.seller_id win)
                fresh refl (ground arith) (ground arith) (ground arith)
          | inr unsold ↦ still (ground arith) (ground arith) (ground arith)
        ]

  -- A close opens one pending sale or leaves sales and money alone, if the new sale's id is new.
  pub close_auction-SaleStep : lookup sale_id w.sales ≡ none → SaleStep false w closing.1
  close_auction-SaleStep fresh = elim (Option-cases (lookup auction_id w.auctions)) [
    | inl missing ↦ closing_missing missing
    | inr (row, found) ↦ elim (Option-cases (win_bid q auction_id w)) [
      | inl e ↦ closing_none row found e
      | inr (win, e) ↦ closing_some row win found e fresh
    ]
  ]

-- The dispute, while it is open, is on a sale that is DISPUTED.
abbrev pub IsOnDisputed : ℕ → World → Type 0
IsOnDisputed dispute_id w =
    (d : Dispute)
    → lookup dispute_id w.disputes ≡ some d
    → is_dispute_open d.status ≡ true
    → (sale : Sale) × (lookup d.transaction_id w.sales ≡ some sale)
      × (sale.status ≡ TransactionStatus.disputed)

module _ (now dispute_id admin_user_id : ℕ) (resolution : Resolution) (text : String)
    (w : World) where
  abbrev resolving : Flow ResolveAnswer ResolveAnswer × World
  resolving = resolve_dispute now dispute_id admin_user_id resolution text w

  abbrev deciding : Flow ResolveAnswer (ℕ × Sale) × World
  deciding = decide_dispute now dispute_id admin_user_id resolution text w

  -- A decision that does not go through, or that releases, leaves sales and money alone.
  deciding_same : went_on deciding.0 && is_refund resolution ≡ false → SameMoney w deciding.1
  unfolding decide_dispute
  deciding_same h = (ground arith, ground arith, ground arith)

  -- A refund that goes through moves the dispute's sale from DISPUTED to REFUNDED.
  refund_moves :
      IsOnDisputed dispute_id w
      → resolution ≡ Resolution.refund
      → went_on deciding.0 ≡ true
      → SaleStep true w deciding.1
  unfolding decide_dispute
  refund_moves on refunded done = elim (Option-cases (lookup dispute_id w.disputes)) [
    | inl missing ↦ absurd (ground arith)
    | inr (d, e) ↦
        let (sale, found, disputed) = on d e (ground arith) in
        moved d.transaction_id sale (record sale { status = TransactionStatus.refunded }) found
          (ground arith) (ground arith) (ground arith) (ground arith)
  ]

  abbrev released : ℕ → Flow FulfillmentAnswer FulfillmentAnswer × World
  released t =
      confirm_delivery now t
        (record { require_winner_id = none; auto = false; from_disputed = true }) deciding.1

  resolving_stops : went_on deciding.0 ≡ false → SameMoney deciding.1 resolving.1
  unfolding resolve_dispute
  resolving_stops h = (ground arith, ground arith, ground arith)

  resolving_refunds :
      (t : ℕ) (sale : Sale)
      → deciding.0 ≡ next (t, sale)
      → is_refund resolution ≡ true
      → SameMoney deciding.1 resolving.1
  unfolding resolve_dispute
  resolving_refunds t sale e h = (ground arith, ground arith, ground arith)

  resolving_releases :
      (t : ℕ) (sale : Sale)
      → deciding.0 ≡ next (t, sale)
      → is_refund resolution ≡ false
      → SameMoney (released t).1 resolving.1
  unfolding resolve_dispute
  resolving_releases t sale e h = (ground arith, ground arith, ground arith)

  -- A decision refunds, pays out, or leaves sales and money alone.
  pub resolve_dispute-SaleStep : IsOnDisputed dispute_id w → SaleStep true w resolving.1
  resolve_dispute-SaleStep on = elim (Flow-cases deciding.0) [
    | inr stop ↦
        SaleStep-same {v = deciding.1} {v' = deciding.1} {w' = resolving.1}
          (deciding_same (rw stop)) (still refl refl refl) (resolving_stops stop)
    | inl ((t, sale), e) ↦ elim (Bool-cases (is_refund resolution)) [
      | inl refunded ↦
          SaleStep-same {v = w} {v' = deciding.1} {w' = resolving.1} (SameMoney-refl w)
            (refund_moves on (ground arith) (rw e)) (resolving_refunds t sale e refunded)
      | inr kept ↦
          SaleStep-same {v = deciding.1} {v' = (released t).1} {w' = resolving.1}
            (deciding_same (rw (e, kept)))
            (confirm_delivery-SaleStep now t
              (record { require_winner_id = none; auto = false; from_disputed = true }) deciding.1)
            (resolving_releases t sale e kept)
    ]
  ]
