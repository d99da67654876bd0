-- ===== src/Scenarios/Trades.antt =====
-- The theorems on sales and on a seller's items, at the sale of the lamp.
use bidvault_backend.Common.{
  ℕ, lookup, ◌≡◌, arith, some, false, refl, ◌∷◌, insert, [], true, ◌↔◌, none, ◌≢◌, ◌+◌, total,
}
use bidvault_backend.Scenarios.Market.{lamp_sale, with_bids, with_shipped, with_delivered}
use bidvault_backend.Sales.Runs.{
  Run, Run-IsPaidOut, Run-final, then, Call-SaleStep, start, confirm, raise,
}
use bidvault_backend.Sales.Payouts.{IsPaidOut, due_entries}
use bidvault_backend.Sales.{SaleStep, delivered_sale, entry_of}
use bidvault_backend.Fulfillment.{confirm_delivery, raise_dispute, mark_shipped, pay_out}
use bidvault_backend.Store.{
  User, Sale, World, next, TransactionStatus, ListingStatus, AuctionStatus,
}
use bidvault_backend.Store.Queries.Scan.{scan_queries, scan_queries-IsLawful}
use bidvault_backend.SellerItems.Filters.{stage_where, stage_where_iff}
use bidvault_backend.Recovery.{
  void_overdue_payment, find_next_bid_amounts, VoidOverdueAnswer, overdue_where, voided_sale,
}
use bidvault_backend.SellerItems.{ItemRow, SellerItemStage, derive_stage, facts_of}
use bidvault_backend.Recovery.Offers.{preview, next_amounts_agree}
use bidvault_backend.Recovery.Overdue.{IsOverdue, voided_iff}
use bidvault_backend.Sweeps.{auto_void_overdue_payments}
use bidvault_backend.Routes.{ship_route, Reply}
use bidvault_backend.Sweeps.Overdue.{auto_void_voids}
use bidvault_backend.Payments.Views.{earnings, Earnings, seller_totals, sale_amount}
use bidvault_backend.Sales.Revenue.{AreSettled, is_in_progress_of, Run-revenue}
use bidvault_backend.Sales.Disputed.{AreDisputed}

-- Before any sale the accounts are kept: no entry, and every balance 0.
no_balance : (s : ℕ) (u : User) → lookup s with_bids.users ≡ some u → u.ledger_balance ≡ 0
unfolding lookup
no_balance s u e = ground arith

not_due : (t : ℕ) → 0 ≡ due_entries (lookup t with_shipped.sales)
unfolding lookup
not_due t = ground arith

with_shipped-IsPaidOut : IsPaidOut with_shipped
with_shipped-IsPaidOut = record {
  once = λ t. not_due t;
  balanced = λ s u e. no_balance s u e;
  fits = λ s u e. omega (arith, no_balance s u e);
}

-- Nor is there a dispute.
undisputed : (w : World) → w.disputes ≡ [] → AreDisputed w
unfolding lookup
undisputed w none_yet = record {
  keyed = rw none_yet tt;
  on = λ i d h is_open. absurd (ground arith);
  alone = λ i j d e h k same. absurd (ground arith);
}

-- Buyer 3 confirms the delivery of sale 30 at 900000.
confirmed-Run :
    Run scan_queries with_shipped
      (confirm_delivery 900000 30
        (record { require_winner_id = some 3; auto = false; from_disputed = false })
        with_shipped).1
confirmed-Run = then start (confirm 900000 30 (some 3) false)

Run-IsPaidOut_example :
    IsPaidOut
      (confirm_delivery 900000 30
        (record { require_winner_id = some 3; auto = false; from_disputed = false })
        with_shipped).1
Run-IsPaidOut_example =
    Run-IsPaidOut confirmed-Run (undisputed with_shipped refl) with_shipped-IsPaidOut

Call-SaleStep_example :
    SaleStep false with_shipped
      (confirm_delivery 900000 30
        (record { require_winner_id = some 3; auto = false; from_disputed = false })
        with_shipped).1
Call-SaleStep_example =
    Call-SaleStep {q = scan_queries} (confirm 900000 30 (some 3) false)
      (undisputed with_shipped refl)

delivered_found : lookup 30 with_delivered.sales ≡ some (delivered_sale lamp_sale)
unfolding lookup
delivered_found = refl

-- A dispute raised after the delivery leaves the sale as it is.
Run-final_example :
    lookup 30 (raise_dispute 900000 40 30 3 "broken" with_delivered).1.sales
    ≡ some (delivered_sale lamp_sale)
Run-final_example =
    Run-final {q = scan_queries} 30 (delivered_sale lamp_sale)
      (then start (raise 900000 40 30 3 "broken")) (undisputed with_delivered refl) delivered_found
      refl

-- The sale was voided unpaid: the next buyer after 3 is 2, at 100.
abbrev lamp_unpaid : Sale
lamp_unpaid = record lamp_sale { status = TransactionStatus.voided }

abbrev with_unpaid : World
with_unpaid = record with_bids { sales = (30, lamp_unpaid) ∷ [] }

next_amounts_agree_example :
    find_next_bid_amounts ((10, 3 ∷ []) ∷ (11, []) ∷ []) with_bids
    ≡ preview scan_queries ((10, 3 ∷ []) ∷ (11, []) ∷ []) with_bids
next_amounts_agree_example =
    next_amounts_agree scan_queries-IsLawful ((10, 3 ∷ []) ∷ (11, []) ∷ []) with_bids

-- A sale that waits for payment since 1000, a day long.
abbrev lamp_pending : Sale
lamp_pending = record lamp_sale {
  status = TransactionStatus.pending;
  payment_due_at = some 86401000;
}

abbrev with_pending : World
with_pending = record with_bids { sales = (30, lamp_pending) ∷ [] }

pending_found : lookup 30 with_pending.sales ≡ some lamp_pending
unfolding lookup
pending_found = refl

voided_iff_example :
    let lapse = void_overdue_payment 86401001 24 30 with_pending in
    ((lapse.0 ≡ next VoidOverdueAnswer.ok) ↔ IsOverdue 86401001 24 lamp_pending)
    × ((overdue_where 86401001 24 lamp_pending ≡ true) ↔ IsOverdue 86401001 24 lamp_pending)
    × (lapse.0 ≡ next VoidOverdueAnswer.ok
        → lapse.1.sales ≡ insert 30 (voided_sale lamp_pending) with_pending.sales)
    × (lapse.0 ≢ next VoidOverdueAnswer.ok → lapse.1 ≡ with_pending)
voided_iff_example = voided_iff 86401001 24 30 with_pending lamp_pending pending_found

-- An auction that closed with bids, its reserve not met.
abbrev low_item : ItemRow
low_item = record {
  seller_id = 3;
  title = 76 ∷ 97 ∷ 109 ∷ 112 ∷ [];
  listing_code = 66 ∷ 86 ∷ 49 ∷ [];
  submitted_at = 100;
  status = ListingStatus.approved;
  auction = some (record {
    status = AuctionStatus.closed;
    reserve_met = some false;
    bid_count = 2;
    end_time = 900;
    sale = none;
  });
  is_relisted = false;
}

stage_where_iff_example :
    (stage_where SellerItemStage.ended_reserve_not_met low_item ≡ true)
    ↔ (derive_stage (facts_of low_item false) ≡ SellerItemStage.ended_reserve_not_met)
stage_where_iff_example = stage_where_iff SellerItemStage.ended_reserve_not_met low_item false

-- The seller ships the paid sale.
abbrev with_paid : World
with_paid = record with_bids {
  sales = (30, record lamp_sale { status = TransactionStatus.completed }) ∷ [];
}

shipped_reply : (ship_route 5000 30 1 with_paid).0 ≡ Reply.done TransactionStatus.shipped
unfolding ship_route mark_shipped lookup
shipped_reply = refl

-- The sweep runs a minute after the deadline, and reaches each sale a second later.
auto_void_voids_example :
    let swept = auto_void_overdue_payments 86461000 (λ t. 86462000) 24 with_pending in
    (swept.0 ≡ true)
    × ((t : ℕ) (row : Sale)
        → lookup t with_pending.sales ≡ some row
        → (IsOverdue 86461000 24 row → lookup t swept.1.sales ≡ some (voided_sale row))
          × (¬ IsOverdue 86462000 24 row → lookup t swept.1.sales ≡ some row))
auto_void_voids_example =
    auto_void_voids 86461000 (λ t. 86462000) 24 with_pending (λ t. omega arith)

settled_start : AreSettled with_shipped
unfolding lookup
settled_start s u e = ground (arith, no_balance s u e)

abbrev sana_earns : Earnings
sana_earns = record { ledger_balance = 150; entries = entry_of 30 lamp_sale ∷ [] }

earned :
    earnings 1
      (confirm_delivery 900000 30
        (record { require_winner_id = some 3; auto = false; from_disputed = false })
        with_shipped).1
    ≡ some sana_earns
unfolding earnings confirm_delivery lookup insert pay_out
earned = refl

-- Sana has sold one lamp, which is delivered.
Run-revenue_example :
    (seller_totals 1
      (confirm_delivery 900000 30
        (record { require_winner_id = some 3; auto = false; from_disputed = false })
        with_shipped).1).total_revenue
    ≡ 150
      + total
          (is_in_progress_of 1)
          sale_amount
          (confirm_delivery 900000 30
            (record { require_winner_id = some 3; auto = false; from_disputed = false })
            with_shipped).1.sales
Run-revenue_example =
    Run-revenue 1 confirmed-Run (undisputed with_shipped refl) settled_start earned
