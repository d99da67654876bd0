-- ===== src/Fulfillment.antt =====
-- The post-payment half of a sale (src/services/fulfillment.service.ts): shipping, receipt and the
-- payout, disputes and their resolution. A row of AuctionTransaction is a `Sale`.
use bidvault_backend.Common.{
  ℕ, [], ◌∷◌, String, Bool, Option, ◌+◌, false, true, ◌*◌, some, if◌then◌else◌, insert, none, ◌==◌,
  lookup, not, is_some, ◌++◌, ltb,
}
use bidvault_backend.Store.{
  Sale, Tx, World, ◌>>=◌, modify, Dispute, transaction, next, TransactionStatus, require, ◌>>◌,
  gets, find_by, throw_if, is_sale_disputed, notify, or_throw, answer, return_if, any_entry,
  DisputeStatus, is_sale_shipped, is_dispute_open, Notice, is_sale_completed, pure, audit, send,
  Effect, AuditAction, threw,
}
use bidvault_backend.Closing.{note}

-- REVENUE_STATUSES
abbrev pub is_revenue : TransactionStatus → Bool
is_revenue TransactionStatus.completed = true
is_revenue TransactionStatus.shipped = true
is_revenue TransactionStatus.delivered = true
is_revenue TransactionStatus.disputed = true
is_revenue _ = false

-- The answers of the operations; each uses the ones that the source declares for it.
pub data FulfillmentAnswer : Type 0 where
  ok not_found forbidden wrong_state no_address : FulfillmentAnswer

pub data RespondAnswer : Type 0 where
  ok : (responded_at : ℕ) → RespondAnswer
  not_found forbidden no_open_dispute already_responded : RespondAnswer

pub data ResolveAnswer : Type 0 where
  ok not_found not_open : ResolveAnswer

-- `lockTransaction`, and the answer of every caller where there is no row.
abbrev pub lock_transaction : ℕ → Tx FulfillmentAnswer Sale
lock_transaction transaction_id = do
  require (← gets (λ w. lookup transaction_id w.sales)) FulfillmentAnswer.not_found

abbrev pub write_sale : {R : Type 0} → ℕ → Sale → Tx R (Unit {0})
write_sale transaction_id sale =
    modify (λ w. record w { sales = insert transaction_id sale w.sales })

-- The title of the sale's auction: a required relation, so its row is there.
abbrev pub auction_title : {R : Type 0} → Sale → Tx R String
auction_title sale = do
  auction ← or_throw (← gets (λ w. lookup sale.auction_id w.auctions))
  pure auction.title

-- JavaScript's `!text`: no text, or an empty one.
abbrev pub is_blank : Option String → Bool
is_blank none = true
is_blank (some String.[]) = true
is_blank (some (String.◌∷◌ c s)) = false

unfoldable pub mark_shipped : ℕ → ℕ → ℕ → Tx FulfillmentAnswer FulfillmentAnswer
mark_shipped now transaction_id seller_id = do
  row ← transaction (do
    row ← lock_transaction transaction_id
    return_if (not (row.seller_id == seller_id)) FulfillmentAnswer.forbidden
    return_if (not (is_sale_completed row.status)) FulfillmentAnswer.wrong_state
    title ← auction_title row
    return_if (is_blank row.delivery_address) FulfillmentAnswer.no_address
    write_sale transaction_id
        (record row { status = TransactionStatus.shipped; shipped_at = some now })
    notify (note now row.winner_id (Notice.item_shipped title))
    pure row)
  send (Effect.email_item_shipped row.winner_id)
  pure FulfillmentAnswer.ok

-- `ledgerBalance` is a 32-bit column: an increment past its range is an error of the database.
abbrev pub max_int4 : ℕ
max_int4 = 2147483647

-- The payout: the ledger entry, one for each sale, and the seller's running balance.
unfoldable pub pay_out : ℕ → Sale → Tx FulfillmentAnswer (Unit {0})
pay_out transaction_id row = do
  throw_if (← gets (λ w. any_entry transaction_id w.ledger_entries))
  modify (λ w. record w {
    ledger_entries =
        w.ledger_entries
        ++ record {
          seller_id = row.seller_id;
          transaction_id = transaction_id;
          amount = row.final_amount;
        }
          ∷ [];
  })
  seller ← or_throw (← gets (λ w. lookup row.seller_id w.users))
  throw_if (ltb max_int4 (seller.ledger_balance + row.final_amount))
  modify (λ w. record w {
    users =
        insert row.seller_id
          (record seller { ledger_balance = seller.ledger_balance + row.final_amount }) w.users;
  })

-- `opts`: the winner who must be asking, whether the sweep asks, and whether a dispute is released.
pub record ConfirmOptions : Type 0 where
  pub require_winner_id : Option ℕ
  pub auto : Bool
  pub from_disputed : Bool

abbrev is_other_winner : Option ℕ → ℕ → Bool
is_other_winner none winner_id = false
is_other_winner (some u) winner_id = not (u == winner_id)

-- SHIPPED, or DISPUTED where an admin releases a dispute.
abbrev pub is_expected : Bool → TransactionStatus → Bool
is_expected true status = is_sale_disputed status
is_expected false status = is_sale_shipped status

unfoldable pub confirm_delivery : ℕ → ℕ → ConfirmOptions → Tx FulfillmentAnswer FulfillmentAnswer
confirm_delivery now transaction_id opts = do
  row ← transaction (do
    row ← lock_transaction transaction_id
    return_if (is_other_winner opts.require_winner_id row.winner_id) FulfillmentAnswer.forbidden
    return_if (not (is_expected opts.from_disputed row.status)) FulfillmentAnswer.wrong_state
    title ← auction_title row
    write_sale transaction_id (record row { status = TransactionStatus.delivered })
    pay_out transaction_id row
    notify (note now row.seller_id (Notice.payout_received row.final_amount title))
    pure row)
  send (Effect.email_delivery_confirmed row.seller_id row.final_amount opts.auto)
  pure FulfillmentAnswer.ok

abbrev pub dispute_response_window_days : ℕ
dispute_response_window_days = 3

abbrev pub day_ms : ℕ
day_ms = 86400000

unfoldable pub dispute_response_due_at : ℕ → ℕ
dispute_response_due_at raised_at = raised_at + dispute_response_window_days * day_ms

abbrev pub new_dispute : ℕ → ℕ → ℕ → String → Dispute
new_dispute now transaction_id buyer_id reason = record {
  transaction_id = transaction_id;
  raised_by_user_id = buyer_id;
  reason = reason;
  seller_response = none;
  seller_responded_at = none;
  status = DisputeStatus.open_dispute;
  resolved_by_user_id = none;
  resolution_note = none;
  resolved_at = none;
  created_at = now;
}

-- The dispute on a sale: `Dispute.transactionId` is unique.
abbrev pub dispute_of : ℕ → World → Option (ℕ × Dispute)
dispute_of transaction_id w = find_by (λ d. d.transaction_id == transaction_id) w.disputes

unfoldable pub raise_dispute : ℕ → ℕ → ℕ → ℕ → String → Tx FulfillmentAnswer FulfillmentAnswer
unfolding dispute_response_due_at
raise_dispute now dispute_id transaction_id buyer_id reason = do
  row ← transaction (do
    row ← lock_transaction transaction_id
    return_if (not (row.winner_id == buyer_id)) FulfillmentAnswer.forbidden
    return_if (not (is_sale_shipped row.status)) FulfillmentAnswer.wrong_state
    title ← auction_title row
    write_sale transaction_id (record row { status = TransactionStatus.disputed })
    throw_if (← gets (λ w. is_some (dispute_of transaction_id w)))
    modify (λ w. record w {
      disputes = insert dispute_id (new_dispute now transaction_id buyer_id reason) w.disputes;
    })
    notify (note now row.seller_id (Notice.dispute_raised title reason))
    pure row)
  send (Effect.email_dispute_raised row.seller_id reason (dispute_response_due_at now))
  pure FulfillmentAnswer.ok

unfoldable pub respond_to_dispute : ℕ → ℕ → ℕ → String → Tx RespondAnswer RespondAnswer
respond_to_dispute now transaction_id seller_id response = transaction (do
  sale ← require (← gets (λ w. lookup transaction_id w.sales)) RespondAnswer.not_found
  return_if (not (sale.seller_id == seller_id)) RespondAnswer.forbidden
  (dispute_id, dispute) ← require (← gets (dispute_of transaction_id)) RespondAnswer.no_open_dispute
  return_if (not (is_dispute_open dispute.status)) RespondAnswer.no_open_dispute
  return_if (is_some dispute.seller_response) RespondAnswer.already_responded
  modify (λ w. record w {
    disputes =
        insert dispute_id
          (record dispute { seller_response = some response; seller_responded_at = some now })
          w.disputes;
  })
  pure (RespondAnswer.ok now))

-- The two decisions of an admin.
pub data Resolution : Type 0 where
  refund release : Resolution

abbrev pub is_refund : Resolution → Bool
is_refund Resolution.refund = true
is_refund Resolution.release = false

abbrev pub resolved : ℕ → ℕ → Resolution → String → Dispute → Dispute
resolved now admin_user_id resolution text dispute = record dispute {
  status =
      if is_refund resolution
      then DisputeStatus.resolved_refunded
      else DisputeStatus.resolved_released;
  resolved_by_user_id = some admin_user_id;
  resolution_note = some text;
  resolved_at = some now;
}

-- `await` a call and drop its answer: only an exception goes on.
abbrev pub ignoring : {R A B : Type 0} → Tx A B → Tx R (Unit {0})
ignoring m w =
    let (r, w') = m w in
    elim r [ next _ ↦ (next tt, w') | answer _ ↦ (next tt, w') | threw ↦ (threw, w') ]

-- What the transaction writes for a decision besides the dispute's row and the audit log.
unfoldable pub write_resolution : ℕ → Resolution → ℕ → Sale → String → Tx ResolveAnswer (Unit {0})
write_resolution now Resolution.refund transaction_id sale title = do
  write_sale transaction_id (record sale { status = TransactionStatus.refunded })
  notify (note now sale.winner_id (Notice.dispute_refunded_buyer title))
  notify (note now sale.seller_id (Notice.dispute_refunded_seller title))
write_resolution now Resolution.release transaction_id sale title =
    notify (note now sale.winner_id (Notice.dispute_released_buyer title))

abbrev resolution_action : Resolution → AuditAction
resolution_action Resolution.refund = AuditAction.dispute_resolved_refunded
resolution_action Resolution.release = AuditAction.dispute_resolved_released

-- The transaction of `resolveDispute`: the dispute's row, the log, and what the decision writes.
unfoldable pub decide_dispute : ℕ → ℕ → ℕ → Resolution → String → Tx ResolveAnswer (ℕ × Sale)
unfolding write_resolution
decide_dispute now dispute_id admin_user_id resolution text = transaction (do
  dispute ← require (← gets (λ w. lookup dispute_id w.disputes)) ResolveAnswer.not_found
  return_if (not (is_dispute_open dispute.status)) ResolveAnswer.not_open
  sale ← or_throw (← gets (λ w. lookup dispute.transaction_id w.sales))
  title ← auction_title sale
  modify (λ w. record w {
    disputes = insert dispute_id (resolved now admin_user_id resolution text dispute) w.disputes;
  })
  audit (record {
    actor_user_id = some admin_user_id;
    action = resolution_action resolution;
    entity_id = dispute_id;
    note = text;
  })
  write_resolution now resolution dispute.transaction_id sale title
  pure (dispute.transaction_id, sale))

-- A release goes on to confirm the delivery, in a transaction of its own.
unfoldable pub resolve_dispute : ℕ → ℕ → ℕ → Resolution → String → Tx ResolveAnswer ResolveAnswer
resolve_dispute now dispute_id admin_user_id resolution text = do
  (transaction_id, sale) ← decide_dispute now dispute_id admin_user_id resolution text
  if is_refund resolution
      then pure tt
      else ignoring (
          confirm_delivery now transaction_id
            (record { require_winner_id = none; auto = false; from_disputed = true }))
  send (Effect.email_dispute_resolved sale.winner_id sale.seller_id (is_refund resolution) text)
  pure ResolveAnswer.ok
