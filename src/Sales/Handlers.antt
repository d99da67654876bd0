-- ===== src/Sales/Handlers.antt =====
-- Every handler that writes sales or money is a step of the machine.
use bidvault_backend.Common.{
  ℕ, Option-cases, lookup, inl, arith, inr, Bool-cases, some, ◌∙◌, ◌≡◌, true, false, insert, ◌+◌,
  ◌++◌, ◌≤◌, ◌∷◌, [], none,
}
use bidvault_backend.Fulfillment.{
  ConfirmOptions, confirm_delivery, mark_shipped, FulfillmentAnswer, pay_out, max_int4,
}
use bidvault_backend.Store.{World, Flow, TransactionStatus, Sale, User, any_entry, threw}
use bidvault_backend.Sales.{
  SaleStep, still, went_on, moved, paid_out, can_deliver, delivered_sale, credited, entry_of,
}

module _ (now transaction_id seller_id : ℕ) (w : World) where
  abbrev shipped : Flow FulfillmentAnswer FulfillmentAnswer × World
  shipped = mark_shipped now transaction_id seller_id w

  pub mark_shipped-SaleStep : SaleStep false w shipped.1
  unfolding mark_shipped
  mark_shipped-SaleStep = elim (Option-cases (lookup transaction_id w.sales)) [
    | inl missing ↦ still (ground arith) (ground arith) (ground arith)
    | inr (row, found) ↦ elim (Bool-cases (went_on shipped.0)) [
      | inl done ↦
          moved transaction_id row
            (record row { status = TransactionStatus.shipped; shipped_at = some now }) found
            (ground arith) (ground arith) (ground arith) (ground arith)
      | inr refused ↦ still (ground arith) (ground arith) (ground arith)
    ]
  ]

module _ (transaction_id : ℕ) (row : Sale) (w : World) where
  abbrev payout : Flow FulfillmentAnswer (Unit {0}) × World
  payout = pay_out transaction_id row w

  -- A payout goes through or throws; it never answers for the handler.
  payout_threw : went_on payout.0 ≡ false → payout.0 ≡ threw
  unfolding pay_out
  payout_threw h = ground arith

  payout_seller :
      went_on payout.0 ≡ true → (seller : User) × (lookup row.seller_id w.users ≡ some seller)
  unfolding pay_out
  payout_seller h = elim (Option-cases (lookup row.seller_id w.users)) [
    | inl missing ↦ absurd (ground arith)
    | inr known ↦ known
  ]

  module _ (seller : User) (known : lookup row.seller_id w.users ≡ some seller)
      (done : went_on payout.0 ≡ true) where
    payout_fits : seller.ledger_balance + row.final_amount ≤ max_int4
    unfolding pay_out
    payout_fits = ground arith

    payout_fresh : any_entry transaction_id w.ledger_entries ≡ false
    unfolding pay_out
    payout_fresh = ground arith

    payout_sales : payout.1.sales ≡ w.sales
    unfolding pay_out
    payout_sales = ground arith

    payout_users : payout.1.users ≡ insert row.seller_id (credited row seller) w.users
    unfolding pay_out
    payout_users = ground arith

    payout_entries : payout.1.ledger_entries ≡ w.ledger_entries ++ entry_of transaction_id row ∷ []
    unfolding pay_out
    payout_entries = ground arith

module _ (now transaction_id : ℕ) (opts : ConfirmOptions) (w : World) where
  abbrev confirmed : Flow FulfillmentAnswer FulfillmentAnswer × World
  confirmed = confirm_delivery now transaction_id opts w

  module _ (row : Sale) (found : lookup transaction_id w.sales ≡ some row) where
    abbrev between : World
    between = record w { sales = insert transaction_id (delivered_sale row) w.sales }

    abbrev paid : Flow FulfillmentAnswer (Unit {0}) × World
    paid = pay_out transaction_id row between

    confirmed_refused : went_on confirmed.0 ≡ false → SaleStep opts.from_disputed w confirmed.1
    unfolding confirm_delivery
    confirmed_refused refused =
        let stuck = payout_threw transaction_id row between in
        still (ground (arith, stuck)) (ground (arith, stuck)) (ground (arith, stuck))

    confirmed_paid :
        went_on confirmed.0 ≡ true
        → (went_on paid.0 ≡ true)
          × (can_deliver opts.from_disputed row.status ≡ true)
          × (confirmed.1.sales ≡ paid.1.sales)
          × (confirmed.1.users ≡ paid.1.users)
          × (confirmed.1.ledger_entries ≡ paid.1.ledger_entries)
    unfolding confirm_delivery
    confirmed_paid done = (ground arith, ground arith, ground arith, ground arith, ground arith)

  confirmed_missing :
      lookup transaction_id w.sales ≡ none → SaleStep opts.from_disputed w confirmed.1
  unfolding confirm_delivery
  confirmed_missing missing = still (ground arith) (ground arith) (ground arith)

  pub confirm_delivery-SaleStep : SaleStep opts.from_disputed w confirmed.1
  confirm_delivery-SaleStep = elim (Option-cases (lookup transaction_id w.sales)) [
    | inl missing ↦ confirmed_missing missing
    | inr (row, found) ↦ elim (Bool-cases (went_on confirmed.0)) [
      | inl done ↦
          let (through, status, sales, users, entries) = confirmed_paid row found done in
          let (seller, known) = payout_seller transaction_id row (between row found) through in
          paid_out transaction_id row seller found status known
            (payout_fits transaction_id row (between row found) seller known through)
            (payout_fresh transaction_id row (between row found) seller known through)
            (sales ∙ payout_sales transaction_id row (between row found) seller known through)
            (users ∙ payout_users transaction_id row (between row found) seller known through)
            (entries ∙ payout_entries transaction_id row (between row found) seller known through)
      | inr refused ↦ confirmed_refused row found refused
    ]
  ]
