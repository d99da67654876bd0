-- ===== src/Sales/Payments.antt =====
-- Paying, voiding and offering a sale again, and raising a dispute, as steps of the machine.
use bidvault_backend.Common.{
  ℕ, List, String, lookup, Option-cases, ◌≡◌, inl, none, some, inr, arith, refl, Bool-cases, ◌==◌,
  ◌&&◌, false,
}
use bidvault_backend.Store.{World, Flow, Sale, TransactionStatus}
use bidvault_backend.Store.Queries.{BidQueries}
use bidvault_backend.Sales.{SaleStep, still, went_on, moved}
use bidvault_backend.Payments.{
  void_transaction, pay, VoidAnswer, PayAnswer, ChargeResult, charge_card, is_payable_status,
  declined_sale, paid_sale,
}
use bidvault_backend.Recovery.{
  offer_to_next_bidder, void_overdue_payment, VoidOverdueAnswer, OfferAnswer, voided_sale,
  find_next_bid, already_offered, offered_sale,
}
use bidvault_backend.Fulfillment.{raise_dispute, FulfillmentAnswer}
use bidvault_backend.Closing.{narrow, payment_due_at_from}

module _ (now reference transaction_id winner_id : ℕ) (card_number : List ℕ)
    (address phone : String) (w : World) where
  abbrev payment : Flow PayAnswer PayAnswer × World
  payment = pay now reference transaction_id winner_id card_number address phone w

  -- On a payable sale of this winner the gateway's answer decides.
  payable_step :
      (row : Sale) (charge : ChargeResult)
      → lookup transaction_id w.sales ≡ some row
      → charge_card reference card_number ≡ charge
      → SaleStep false w payment.1
  unfolding pay
  payable_step row (ChargeResult.refused reason) found e =
      elim (Bool-cases (row.winner_id == winner_id && is_payable_status row.status)) [
        | inl open_sale ↦
            moved transaction_id row (declined_sale address phone reason row) found (ground arith)
              (ground arith) (ground arith) (ground arith)
        | inr other ↦ still (ground arith) (ground arith) (ground arith)
      ]
  payable_step row (ChargeResult.charged r) found e = elim (Bool-cases (went_on payment.0)) [
    | inl done ↦
        moved transaction_id row (paid_sale now r address phone row) found (ground arith)
          (ground arith) (ground arith) (ground arith)
    | inr other ↦ still (ground arith) (ground arith) (ground arith)
  ]

  pay_missing : lookup transaction_id w.sales ≡ none → SaleStep false w payment.1
  unfolding pay
  pay_missing missing = still (ground arith) (ground arith) (ground arith)

  pub pay-SaleStep : SaleStep false w payment.1
  pay-SaleStep = elim (Option-cases (lookup transaction_id w.sales)) [
    | inl missing ↦ pay_missing missing
    | inr (row, found) ↦ payable_step row (charge_card reference card_number) found refl
  ]

module _ (transaction_id admin_user_id : ℕ) (reason : String) (w : World) where
  abbrev voided : Flow VoidAnswer VoidAnswer × World
  voided = void_transaction transaction_id admin_user_id reason w

  pub void_transaction-SaleStep : SaleStep false w voided.1
  unfolding void_transaction
  void_transaction-SaleStep = elim (Option-cases (lookup transaction_id w.sales)) [
    | inl missing ↦ still (ground arith) (ground arith) (ground arith)
    | inr (row, found) ↦ elim (Bool-cases (went_on voided.0)) [
      | inl done ↦
          moved transaction_id row (voided_sale row) found (ground arith) (ground arith)
            (ground arith) (ground arith)
      | inr refused ↦ still (ground arith) (ground arith) (ground arith)
    ]
  ]

module _ (now payment_deadline_hours transaction_id : ℕ) (w : World) where
  abbrev lapsed : Flow VoidOverdueAnswer VoidOverdueAnswer × World
  lapsed = void_overdue_payment now payment_deadline_hours transaction_id w

  pub void_overdue_payment-SaleStep : SaleStep false w lapsed.1
  unfolding void_overdue_payment
  void_overdue_payment-SaleStep = elim (Option-cases (lookup transaction_id w.sales)) [
    | inl missing ↦ still (ground arith) (ground arith) (ground arith)
    | inr (row, found) ↦ elim (Bool-cases (went_on lapsed.0)) [
      | inl done ↦
          moved transaction_id row (voided_sale row) found (ground arith) (ground arith)
            (ground arith) (ground arith)
      | inr refused ↦ still (ground arith) (ground arith) (ground arith)
    ]
  ]

module _ (now dispute_id transaction_id buyer_id : ℕ) (reason : String) (w : World) where
  abbrev raised_run : Flow FulfillmentAnswer FulfillmentAnswer × World
  raised_run = raise_dispute now dispute_id transaction_id buyer_id reason w

  pub raise_dispute-SaleStep : SaleStep false w raised_run.1
  unfolding raise_dispute
  raise_dispute-SaleStep = elim (Option-cases (lookup transaction_id w.sales)) [
    | inl missing ↦ still (ground arith) (ground arith) (ground arith)
    | inr (row, found) ↦ elim (Bool-cases (went_on raised_run.0)) [
      | inl done ↦
          moved transaction_id row (record row { status = TransactionStatus.disputed }) found
            (ground arith) (ground arith) (ground arith) (ground arith)
      | inr refused ↦ still (ground arith) (ground arith) (ground arith)
    ]
  ]

module _ (q : BidQueries) (now payment_deadline_hours transaction_id seller_id : ℕ)
    (w : World) where
  abbrev offered : Flow OfferAnswer OfferAnswer × World
  offered = offer_to_next_bidder q now payment_deadline_hours transaction_id seller_id w

  offered_missing : lookup transaction_id w.sales ≡ none → SaleStep false w offered.1
  unfolding offer_to_next_bidder
  offered_missing missing = still (ground arith) (ground arith) (ground arith)

  offered_found :
      (row : Sale) → lookup transaction_id w.sales ≡ some row → SaleStep false w offered.1
  unfolding offer_to_next_bidder
  offered_found row found =
      elim (Option-cases (narrow w (find_next_bid q row.auction_id (already_offered row) w))) [
        | inl nobody ↦ still (ground arith) (ground arith) (ground arith)
        | inr (win, next_bid) ↦ elim (Bool-cases (went_on offered.0)) [
          | inl done ↦
              moved transaction_id row
                (offered_sale (payment_due_at_from now payment_deadline_hours) row win) found
                (ground arith) (ground arith) (ground arith) (ground arith)
          | inr refused ↦ still (ground arith) (ground arith) (ground arith)
        ]
      ]

  pub offer_to_next_bidder-SaleStep : SaleStep false w offered.1
  offer_to_next_bidder-SaleStep = elim (Option-cases (lookup transaction_id w.sales)) [
    | inl missing ↦ offered_missing missing
    | inr (row, found) ↦ offered_found row found
  ]
