-- ===== src/Sales/Stuck.antt =====
-- A release whose payout does not fit the seller's balance column.
use bidvault_backend.Common.{
  ℕ, String, lookup, ◌≡◌, some, true, ◌<◌, arith, ◌+◌, insert, none, false, lookup-insert_self,
}
use bidvault_backend.Store.{
  World, Dispute, Sale, Auction, User, Flow, TransactionStatus, is_dispute_open, next, threw,
}
use bidvault_backend.Fulfillment.{
  decide_dispute, resolve_dispute, max_int4, ResolveAnswer, Resolution, FulfillmentAnswer,
  confirm_delivery, resolved, pay_out,
}

abbrev releasing : ℕ → ℕ → World → Flow FulfillmentAnswer FulfillmentAnswer × World
releasing now t w =
    confirm_delivery now t (record { require_winner_id = none; auto = false; from_disputed = true })
      w

module _ (now t : ℕ) (w : World) (sale : Sale) (auction : Auction) (seller : User)
    (found : lookup t w.sales ≡ some sale) (disputed : sale.status ≡ TransactionStatus.disputed)
    (held : lookup sale.auction_id w.auctions ≡ some auction)
    (known : lookup sale.seller_id w.users ≡ some seller)
    (over : max_int4 < seller.ledger_balance + sale.final_amount) where
  releasing_throws : (releasing now t w).0 ≡ threw
  unfolding confirm_delivery pay_out
  releasing_throws = ground arith

  releasing_same : (releasing now t w).1 ≡ w
  unfolding confirm_delivery pay_out
  releasing_same = ground arith

module _ (now dispute_id admin_user_id : ℕ) (text : String) (w : World) (d : Dispute) (sale : Sale)
    (auction : Auction) (seller : User) (filed : lookup dispute_id w.disputes ≡ some d)
    (found : lookup d.transaction_id w.sales ≡ some sale)
    (held : lookup sale.auction_id w.auctions ≡ some auction) where
  abbrev decision : Flow ResolveAnswer (ℕ × Sale) × World
  decision = decide_dispute now dispute_id admin_user_id Resolution.release text w

  abbrev release_run : Flow ResolveAnswer ResolveAnswer × World
  release_run = resolve_dispute now dispute_id admin_user_id Resolution.release text w

  decision_next : is_dispute_open d.status ≡ true → decision.0 ≡ next (d.transaction_id, sale)
  unfolding decide_dispute
  decision_next undecided = ground arith

  decision_writes :
      is_dispute_open d.status ≡ true
      → (decision.1.sales ≡ w.sales)
        × (decision.1.auctions ≡ w.auctions)
        × (decision.1.users ≡ w.users)
        × (decision.1.disputes
            ≡ insert dispute_id (resolved now admin_user_id Resolution.release text d) w.disputes)
  unfolding decide_dispute
  decision_writes undecided = (ground arith, ground arith, ground arith, ground arith)

  release_after :
      decision.0 ≡ next (d.transaction_id, sale)
      → (releasing now d.transaction_id decision.1).0 ≡ threw
      → (releasing now d.transaction_id decision.1).1 ≡ decision.1
      → (release_run.0 ≡ threw) × (release_run.1 ≡ decision.1)
  unfolding resolve_dispute
  release_after e thrown same = (ground arith, ground arith)

  -- A release of an open dispute whose payout would take the seller's balance past its column
  -- throws; it leaves the dispute decided and its sale as it was, DISPUTED, with no payout.
  pub release_stuck :
      is_dispute_open d.status ≡ true
      → sale.status ≡ TransactionStatus.disputed
      → lookup sale.seller_id w.users ≡ some seller
      → max_int4 < seller.ledger_balance + sale.final_amount
      → (release_run.0 ≡ threw)
        × (lookup dispute_id release_run.1.disputes
            ≡ some (resolved now admin_user_id Resolution.release text d))
        × (lookup d.transaction_id release_run.1.sales ≡ some sale)
        × (release_run.1.users ≡ w.users)
  release_stuck undecided disputed known over =
      let (sales, auctions, users, disputes) = decision_writes undecided in
      let found' : lookup d.transaction_id decision.1.sales ≡ some sale = rw sales found in
      let held' : lookup sale.auction_id decision.1.auctions ≡ some auction = rw auctions held in
      let known' : lookup sale.seller_id decision.1.users ≡ some seller = rw users known in
      let (threw_up, left) =
        release_after (decision_next undecided)
          (releasing_throws now d.transaction_id decision.1 sale auction seller found' disputed
            held' known' over)
          (releasing_same now d.transaction_id decision.1 sale auction seller found' disputed held'
            known' over) in
      (
        threw_up,
        rw (left, disputes) (lookup-insert_self dispute_id _ w.disputes),
        rw left found',
        rw left users,
      )
