-- ===== src/Routes/Told.antt =====
-- What a response says of a sale, against the sale that is stored.
use bidvault_backend.Common.{
  ℕ, lookup, ◌≡◌, some, insert, String, lookup-insert_self, Option-cases, inl, arith, inr, List,
  none, ◌≢◌, refl,
}
use bidvault_backend.Store.{World, TransactionStatus, Sale}
use bidvault_backend.Routes.{
  dispute_route, void_route, confirm_receipt_route, ship_route, Reply, offer_next_bidder_route,
  pay_route,
}
use bidvault_backend.Payments.{void_transaction, charge_card, pay, ChargeResult, paid_sale}
use bidvault_backend.Fulfillment.{raise_dispute, mark_shipped, confirm_delivery, pay_out}
use bidvault_backend.Recovery.{
  voided_sale, offer_to_next_bidder, find_next_bid, already_offered, offered_sale,
}
use bidvault_backend.Store.Queries.{BidQueries}
use bidvault_backend.Closing.{narrow, payment_due_at_from}

-- The stored sale has this status.
abbrev pub IsStored : ℕ → TransactionStatus → World → Type 0
IsStored transaction_id status w =
    (sale : Sale) × (lookup transaction_id w.sales ≡ some sale) × (sale.status ≡ status)

IsStored-insert :
    (t : ℕ) (sale : Sale) (status : TransactionStatus) (w w' : World)
    → w'.sales ≡ insert t sale w.sales
    → sale.status ≡ status
    → IsStored t status w'
IsStored-insert t sale status w w' e s = (sale, rw e (lookup-insert_self t sale w.sales), s)

module _ (now t user_id : ℕ) (w : World) (status : TransactionStatus) where
  ship_told :
      (ship_route now t user_id w).0 ≡ Reply.done status
      → IsStored t status (ship_route now t user_id w).1
  unfolding ship_route mark_shipped
  ship_told h = elim (Option-cases (lookup t w.sales)) [
    | inl missing ↦ absurd (ground arith)
    | inr (row, found) ↦
        IsStored-insert t (record row { status = TransactionStatus.shipped; shipped_at = some now })
          status w (ship_route now t user_id w).1 (ground arith) (ground arith)
  ]

  confirm_told :
      (confirm_receipt_route now t user_id w).0 ≡ Reply.done status
      → IsStored t status (confirm_receipt_route now t user_id w).1
  unfolding confirm_receipt_route confirm_delivery pay_out
  confirm_told h = elim (Option-cases (lookup t w.sales)) [
    | inl missing ↦ absurd (ground arith)
    | inr (row, found) ↦
        IsStored-insert t (record row { status = TransactionStatus.delivered }) status w
          (confirm_receipt_route now t user_id w).1 (ground arith) (ground arith)
  ]

  dispute_told :
      (dispute_id : ℕ) (reason : String)
      → (dispute_route now t user_id dispute_id reason w).0 ≡ Reply.done status
      → IsStored t status (dispute_route now t user_id dispute_id reason w).1
  unfolding dispute_route raise_dispute
  dispute_told dispute_id reason h = elim (Option-cases (lookup t w.sales)) [
    | inl missing ↦ absurd (ground arith)
    | inr (row, found) ↦
        IsStored-insert t (record row { status = TransactionStatus.disputed }) status w
          (dispute_route now t user_id dispute_id reason w).1 (ground arith) (ground arith)
  ]

  void_told :
      (reason : String)
      → (void_route t user_id reason w).0 ≡ Reply.done status
      → IsStored t status (void_route t user_id reason w).1
  unfolding void_route void_transaction
  void_told reason h = elim (Option-cases (lookup t w.sales)) [
    | inl missing ↦ absurd (ground arith)
    | inr (row, found) ↦
        IsStored-insert t (voided_sale row) status w (void_route t user_id reason w).1
          (ground arith) (ground arith)
  ]

  offer_told :
      (q : BidQueries) (hours : ℕ)
      → (offer_next_bidder_route now t user_id q hours w).0 ≡ Reply.done status
      → IsStored t status (offer_next_bidder_route now t user_id q hours w).1
  unfolding offer_next_bidder_route offer_to_next_bidder
  offer_told q hours h = elim (Option-cases (lookup t w.sales)) [
    | inl missing ↦ absurd (ground arith)
    | inr (row, found) ↦
        elim (Option-cases (narrow w (find_next_bid q row.auction_id (already_offered row) w))) [
          | inl nobody ↦ absurd (ground arith)
          | inr (win, next_bid) ↦
              IsStored-insert t (offered_sale (payment_due_at_from now hours) row win) status w
                (offer_next_bidder_route now t user_id q hours w).1 (ground arith) (ground arith)
        ]
  ]

  module _ (reference : ℕ) (card_number : List ℕ) (address phone : String) where
    charge_told :
        (row : Sale) (charge : ChargeResult)
        → lookup t w.sales ≡ some row
        → charge_card reference card_number ≡ charge
        → (pay_route now t user_id reference card_number address phone w).0 ≡ Reply.done status
        → IsStored t status (pay_route now t user_id reference card_number address phone w).1
    unfolding pay_route pay
    charge_told row (ChargeResult.refused reason) found e h = absurd (ground arith)
    charge_told row (ChargeResult.charged r) found e h =
        IsStored-insert t (paid_sale now r address phone row) status w
          (pay_route now t user_id reference card_number address phone w).1 (ground arith)
          (ground arith)

    pay_missing :
        lookup t w.sales ≡ none
        → (pay_route now t user_id reference card_number address phone w).0 ≢ Reply.done status
    unfolding pay_route pay
    pay_missing missing h = ground arith

    pay_told :
        (pay_route now t user_id reference card_number address phone w).0 ≡ Reply.done status
        → IsStored t status (pay_route now t user_id reference card_number address phone w).1
    pay_told h = elim (Option-cases (lookup t w.sales)) [
      | inl missing ↦ absurd (pay_missing missing h)
      | inr (row, found) ↦ charge_told row (charge_card reference card_number) found refl h
    ]

-- One request over the sale `t`, and its response.
pub data SaleRequest (t : ℕ) (w : World) : Reply × World → Type 0 where
  ship : (now user_id : ℕ) → SaleRequest t w (ship_route now t user_id w)
  confirm_receipt : (now user_id : ℕ) → SaleRequest t w (confirm_receipt_route now t user_id w)
  dispute :
      (now user_id dispute_id : ℕ) (reason : String)
      → SaleRequest t w (dispute_route now t user_id dispute_id reason w)
  offer_next_bidder :
      (now user_id hours : ℕ) (q : BidQueries)
      → SaleRequest t w (offer_next_bidder_route now t user_id q hours w)
  pay_sale :
      (now user_id reference : ℕ) (card_number : List ℕ) (address phone : String)
      → SaleRequest t w (pay_route now t user_id reference card_number address phone w)
  void :
      (admin_user_id : ℕ) (reason : String) → SaleRequest t w (void_route t admin_user_id reason w)

-- A response that tells a new status of the sale tells the truth: the stored row exists and has
-- that status. It covers shipping, receipt, disputes, second-chance offers, payment and voiding.
pub told_status :
    {t : ℕ} {w : World} {response : Reply × World} (status : TransactionStatus)
    → SaleRequest t w response
    → response.0 ≡ Reply.done status
    → IsStored t status response.1
told_status {t} {w} s (ship now u) h = ship_told now t u w s h
told_status {t} {w} s (confirm_receipt now u) h = confirm_told now t u w s h
told_status {t} {w} s (dispute now u d reason) h = dispute_told now t u w s d reason h
told_status {t} {w} s (offer_next_bidder now u hours q) h = offer_told now t u w s q hours h
told_status {t} {w} s (pay_sale now u r card a p) h = pay_told now t u w s r card a p h
told_status {t} {w} s (void u reason) h = void_told 0 t u w s reason h
