-- ===== src/Payments.antt =====
-- POST /transactions/:transactionId/pay (src/modules/payments/payments.routes.ts) with the
-- simulated gateway (src/services/payment-gateway.service.ts), and the admin's void
-- (src/modules/admin/admin.routes.ts). The random part of a payment reference is an argument.
pub mod Views
use bidvault_backend.Common.{
  ℕ, [], ◌∷◌, List, String, Bool, if◌then◌else◌, ◌==◌, true, some, none, ◌||◌, ◌&&◌, false, leb,
  lookup, is_some, not,
}
use bidvault_backend.Store.{
  Sale, TransactionStatus, Tx, transaction, ◌>>◌, ◌>>=◌, require, gets, return, throw_if, return_if,
  find_by, is_sale_pending, pure, send, audit, Effect, AuditAction,
}
use bidvault_backend.Fulfillment.{write_sale}

-- A card number is its character codes. JavaScript's `\s` and the hyphen are dropped.
unfoldable pub is_separator : ℕ → Bool
is_separator c =
    c == 45
    || (leb 9 c && leb c 13)
    || c == 32
    || c == 160
    || c == 5760
    || (leb 8192 c && leb c 8202)
    || c == 8232
    || c == 8233
    || c == 8239
    || c == 8287
    || c == 12288
    || c == 65279

unfoldable pub normalize_card : List ℕ → List ℕ
unfolding is_separator
normalize_card [] = []
normalize_card (c ∷ cs) = if is_separator c then normalize_card cs else c ∷ normalize_card cs

-- '4000000000000002'
abbrev pub declined_test_card : List ℕ
declined_test_card =
    52 ∷ 48 ∷ 48 ∷ 48 ∷ 48 ∷ 48 ∷ 48 ∷ 48 ∷ 48 ∷ 48 ∷ 48 ∷ 48 ∷ 48 ∷ 48 ∷ 48 ∷ 50 ∷ []

abbrev pub same_codes : List ℕ → List ℕ → Bool
same_codes [] [] = true
same_codes (c ∷ cs) (d ∷ ds) = c == d && same_codes cs ds
same_codes _ _ = false

pub data ChargeResult : Type 0 where
  charged : (reference : ℕ) → ChargeResult
  refused : (reason : String) → ChargeResult

unfoldable pub charge_card : ℕ → List ℕ → ChargeResult
unfolding normalize_card
charge_card reference card_number =
    if same_codes (normalize_card card_number) declined_test_card
    then ChargeResult.refused "Your card was declined."
    else ChargeResult.charged reference

pub data PayAnswer : Type 0 where
  paid not_found forbidden already_paid not_payable : PayAnswer
  declined : (reason : String) → PayAnswer

-- `PAID_STATUSES` and `PAYABLE_STATUSES`
abbrev pub is_paid_status : TransactionStatus → Bool
is_paid_status TransactionStatus.completed = true
is_paid_status TransactionStatus.shipped = true
is_paid_status TransactionStatus.delivered = true
is_paid_status TransactionStatus.disputed = true
is_paid_status TransactionStatus.refunded = true
is_paid_status _ = false

abbrev pub is_payable_status : TransactionStatus → Bool
is_payable_status TransactionStatus.pending = true
is_payable_status TransactionStatus.failed = true
is_payable_status _ = false

-- The unique key `AuctionTransaction.paymentReference`.
abbrev pub has_reference : ℕ → Sale → Bool
has_reference reference sale = elim sale.payment_reference [
  | none ↦ false
  | some r ↦ r == reference
]

-- The sale after a declined charge, and after an accepted one.
abbrev pub declined_sale : String → String → String → Sale → Sale
declined_sale address phone reason sale = record sale {
  delivery_address = some address;
  delivery_phone = some phone;
  last_payment_error = some reason;
}

abbrev pub paid_sale : ℕ → ℕ → String → String → Sale → Sale
paid_sale now reference address phone sale = record sale {
  delivery_address = some address;
  delivery_phone = some phone;
  payment_reference = some reference;
  status = TransactionStatus.completed;
  paid_at = some now;
  last_payment_error = none;
}

-- The update that the gateway's answer calls for; a decline is the transaction's own answer.
unfoldable pub record_charge :
    ℕ → ℕ → String → String → Sale → ChargeResult → Tx PayAnswer (Unit {0})
record_charge now transaction_id address phone row (ChargeResult.refused reason) = do
  write_sale transaction_id (declined_sale address phone reason row)
  return (PayAnswer.declined reason)
record_charge now transaction_id address phone row (ChargeResult.charged reference) = do
  throw_if (← gets (λ w. is_some (find_by (has_reference reference) w.sales)))
  write_sale transaction_id (paid_sale now reference address phone row)

unfoldable pub pay : ℕ → ℕ → ℕ → ℕ → List ℕ → String → String → Tx PayAnswer PayAnswer
unfolding record_charge
pay now reference transaction_id winner_id card_number address phone = do
  row ← transaction (do
    row ← require (← gets (λ w. lookup transaction_id w.sales)) PayAnswer.not_found
    return_if (not (row.winner_id == winner_id)) PayAnswer.forbidden
    return_if (is_paid_status row.status) PayAnswer.already_paid
    return_if (not (is_payable_status row.status)) PayAnswer.not_payable
    record_charge now transaction_id address phone row (charge_card reference card_number)
    pure row)
  send (Effect.email_payment_completed row.winner_id row.seller_id row.final_amount)
  pure PayAnswer.paid

pub data VoidAnswer : Type 0 where
  ok not_found not_pending : VoidAnswer

-- POST /admin/transactions/:transactionId/void
unfoldable pub void_transaction : ℕ → ℕ → String → Tx VoidAnswer VoidAnswer
void_transaction transaction_id admin_user_id reason = transaction (do
  row ← require (← gets (λ w. lookup transaction_id w.sales)) VoidAnswer.not_found
  return_if (not (is_sale_pending row.status)) VoidAnswer.not_pending
  write_sale transaction_id
      (record row { status = TransactionStatus.voided; last_payment_error = none })
  audit (record {
    actor_user_id = some admin_user_id;
    action = AuditAction.transaction_voided;
    entity_id = transaction_id;
    note = reason;
  })
  pure VoidAnswer.ok)
