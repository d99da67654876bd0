-- ===== src/Sales/Runs.antt =====
-- The runs of the handlers, in any order, under the conditions that `Call` states.
use bidvault_backend.Common.{
  ℕ, Bool, lookup, true, ◌≡◌, some, false, arith, none, lookup-insert, List, String, Option, subst,
  refl,
}
use bidvault_backend.Store.{World, Sale, TransactionStatus}
use bidvault_backend.Store.Queries.{BidQueries}
use bidvault_backend.Sales.Payouts.{IsPaidOut, SaleStep-IsPaidOut}
use bidvault_backend.Sales.{
  moves, SaleStep, can_deliver, still, opened, moved, paid_out, delivered_sale,
}
use bidvault_backend.Bidding.{place_bid}
use bidvault_backend.Sales.Others.{
  place_bid-SaleStep, cancel_auction-SaleStep, relist-SaleStep, respond_to_dispute-SaleStep,
}
use bidvault_backend.Recovery.{Actor, cancel_auction, void_overdue_payment, offer_to_next_bidder}
use bidvault_backend.Sales.Disputes.{close_auction-SaleStep, resolve_dispute-SaleStep}
use bidvault_backend.Sales.Payments.{
  pay-SaleStep, void_transaction-SaleStep, void_overdue_payment-SaleStep,
  offer_to_next_bidder-SaleStep, raise_dispute-SaleStep,
}
use bidvault_backend.Closing.{close_auction}
use bidvault_backend.Payments.{pay, void_transaction}
use bidvault_backend.Sales.Handlers.{mark_shipped-SaleStep, confirm_delivery-SaleStep}
use bidvault_backend.Recovery.Relist.{NewIds, relist}
use bidvault_backend.Fulfillment.{
  mark_shipped, confirm_delivery, raise_dispute, respond_to_dispute, Resolution, resolve_dispute,
}
use bidvault_backend.Sales.Disputed.{AreDisputed, SaleStep-AreDisputed}
use bidvault_backend.Sales.Untouched.{
  place_bid-disputes, cancel_auction-disputes, close_auction-disputes, pay-disputes, void-disputes,
  void_overdue-disputes, offer-disputes, relist-disputes, ship-disputes, confirm-disputes,
}
use bidvault_backend.Sales.Decisions.{raise-AreDisputed, respond-AreDisputed, resolve-AreDisputed}

-- One handler call. A new sale has a new id; only the decision of a dispute confirms a delivery from
-- DISPUTED.
pub data Call (q : BidQueries) (w : World) : World → Type 0 where
  bid :
      (live : Bool) (now bid_id auction_id buyer_id amount : ℕ)
      → Call q w (place_bid q live now bid_id auction_id buyer_id amount w).1
  cancel :
      (now auction_id : ℕ) (actor : Actor) → Call q w (cancel_auction q now auction_id actor w).1
  close :
      (now sale_id hours auction_id : ℕ)
      → lookup sale_id w.sales ≡ none
      → Call q w (close_auction q now sale_id hours auction_id w).1
  pay_sale :
      (now reference t winner_id : ℕ) (card : List ℕ) (address phone : String)
      → Call q w (pay now reference t winner_id card address phone w).1
  void :
      (t admin_user_id : ℕ) (reason : String)
      → Call q w (void_transaction t admin_user_id reason w).1
  void_overdue : (now hours t : ℕ) → Call q w (void_overdue_payment now hours t w).1
  offer : (now hours t seller_id : ℕ) → Call q w (offer_to_next_bidder q now hours t seller_id w).1
  relist_item :
      (start_time : ℕ) (ids : NewIds) (codes : List ℕ) (t seller_id : ℕ)
      → Call q w (relist start_time ids codes t seller_id w).1
  ship : (now t seller_id : ℕ) → Call q w (mark_shipped now t seller_id w).1
  confirm :
      (now t : ℕ) (by : Option ℕ) (auto : Bool)
      → Call q w
          (confirm_delivery now t
            (record { require_winner_id = by; auto = auto; from_disputed = false })
            w).1
  raise :
      (now dispute_id t buyer_id : ℕ) (reason : String)
      → Call q w (raise_dispute now dispute_id t buyer_id reason w).1
  respond :
      (now t seller_id : ℕ) (response : String)
      → Call q w (respond_to_dispute now t seller_id response w).1
  resolve :
      (now dispute_id admin_user_id : ℕ) (resolution : Resolution) (text : String)
      → Call q w (resolve_dispute now dispute_id admin_user_id resolution text w).1

pub data Run (q : BidQueries) (w : World) : World → Type 0 where
  start : Run q w w
  then : {v u : World} → Run q w v → Call q v u → Run q w u

-- Whether a call decides a dispute.
abbrev pub decides : {q : BidQueries} {w v : World} → Call q w v → Bool
decides (resolve _ _ _ _ _) = true
decides _ = false

-- Where open disputes are on DISPUTED sales, each on its own, each handler call is one step of the
-- abstract machine of sales: sales and money stay as they are, or a new sale is opened as PENDING,
-- or one sale makes an allowed move, or one sale is paid out; and only a decision of a dispute writes
-- a sale that is DISPUTED.
pub Call-SaleStep :
    {q : BidQueries} {w v : World} (c : Call q w v) → AreDisputed w → SaleStep (decides c) w v
Call-SaleStep {q} {w} (bid live now i a b n) inv = place_bid-SaleStep q live now i a b n w
Call-SaleStep {q} {w} (cancel now a actor) inv = cancel_auction-SaleStep q now a actor w
Call-SaleStep {q} {w} (close now s h a fresh) inv = close_auction-SaleStep q now s h a w fresh
Call-SaleStep {q} {w} (pay_sale now r t u c d p) inv = pay-SaleStep now r t u c d p w
Call-SaleStep {q} {w} (void t a r) inv = void_transaction-SaleStep t a r w
Call-SaleStep {q} {w} (void_overdue now h t) inv = void_overdue_payment-SaleStep now h t w
Call-SaleStep {q} {w} (offer now h t s) inv = offer_to_next_bidder-SaleStep q now h t s w
Call-SaleStep {q} {w} (relist_item now ids cs t s) inv = relist-SaleStep now ids cs t s w
Call-SaleStep {q} {w} (ship now t s) inv = mark_shipped-SaleStep now t s w
Call-SaleStep {q} {w} (confirm now t by auto) inv =
    confirm_delivery-SaleStep now t
      (record { require_winner_id = by; auto = auto; from_disputed = false }) w
Call-SaleStep {q} {w} (raise now d t b r) inv = raise_dispute-SaleStep now d t b r w
Call-SaleStep {q} {w} (respond now t s r) inv = respond_to_dispute-SaleStep now t s r w
Call-SaleStep {q} {w} (resolve now d a r text) inv =
    resolve_dispute-SaleStep now d a r text w (inv.on d)

-- A call that writes no dispute keeps them as they should be.
undecided :
    {q : BidQueries} {w v : World} (c : Call q w v)
    → decides c ≡ false
    → v.disputes ≡ w.disputes
    → AreDisputed w
    → AreDisputed v
undecided {q} {w} {v} c plain same inv =
    SaleStep-AreDisputed (subst (λ b. SaleStep b w v) plain (Call-SaleStep c inv)) same inv

Call-AreDisputed : {q : BidQueries} {w v : World} → Call q w v → AreDisputed w → AreDisputed v
Call-AreDisputed {q} {w} (bid live now i a b n) inv =
    undecided (bid live now i a b n) refl (place_bid-disputes q now w live i a b n) inv
Call-AreDisputed {q} {w} (cancel now a actor) inv =
    undecided (cancel now a actor) refl (cancel_auction-disputes q now w a actor) inv
Call-AreDisputed {q} {w} (close now s h a fresh) inv =
    undecided (close now s h a fresh) refl (close_auction-disputes q now w s h a) inv
Call-AreDisputed {q} {w} (pay_sale now r t u c d p) inv =
    undecided {q = q} (pay_sale now r t u c d p) refl (pay-disputes now w r t u c d p) inv
Call-AreDisputed {q} {w} (void t a r) inv =
    undecided {q = q} (void t a r) refl (void-disputes 0 w t a r) inv
Call-AreDisputed {q} {w} (void_overdue now h t) inv =
    undecided {q = q} (void_overdue now h t) refl (void_overdue-disputes now w h t) inv
Call-AreDisputed {q} {w} (offer now h t s) inv =
    undecided (offer now h t s) refl (offer-disputes q now w h t s) inv
Call-AreDisputed {q} {w} (relist_item now ids cs t s) inv =
    undecided {q = q} (relist_item now ids cs t s) refl (relist-disputes now ids cs t s w) inv
Call-AreDisputed {q} {w} (ship now t s) inv =
    undecided {q = q} (ship now t s) refl (ship-disputes now w t s) inv
Call-AreDisputed {q} {w} (confirm now t by auto) inv =
    undecided {q = q} (confirm now t by auto) refl
      (confirm-disputes now w t
        (record { require_winner_id = by; auto = auto; from_disputed = false }))
      inv
Call-AreDisputed {q} {w} (raise now d t b r) inv = raise-AreDisputed now t w inv d b r
Call-AreDisputed {q} {w} (respond now t s r) inv = respond-AreDisputed now t w inv s r
Call-AreDisputed {q} {w} (resolve now d a r text) inv = resolve-AreDisputed now d a r text w inv

-- Open disputes stay on DISPUTED sales, each on its own, through any run.
pub Run-AreDisputed : {q : BidQueries} {w v : World} → Run q w v → AreDisputed w → AreDisputed v
Run-AreDisputed start inv = inv
Run-AreDisputed (then r c) inv = Call-AreDisputed c (Run-AreDisputed r inv)

-- Through any run from kept accounts, with open disputes on DISPUTED sales, each on its own, the
-- accounts are kept: each delivered sale has exactly one
-- ledger entry and no other sale has one, every balance is the sum of its seller's entries, and it
-- fits its column.
pub Run-IsPaidOut :
    {q : BidQueries} {w v : World} → Run q w v → AreDisputed w → IsPaidOut w → IsPaidOut v
Run-IsPaidOut start disputes inv = inv
Run-IsPaidOut (then r c) disputes inv =
    SaleStep-IsPaidOut (Call-SaleStep c (Run-AreDisputed r disputes)) (Run-IsPaidOut r disputes inv)

-- The statuses that nothing follows.
abbrev pub is_final : TransactionStatus → Bool
is_final TransactionStatus.delivered = true
is_final TransactionStatus.refunded = true
is_final _ = false

moves_not_final :
    (b : Bool) (old new : TransactionStatus) → moves b old new ≡ true → is_final old ≡ false
moves_not_final b old new h = ground arith

deliver_not_final : (b : Bool) (s : TransactionStatus) → can_deliver b s ≡ true → is_final s ≡ false
deliver_not_final b s h = ground arith

abbrev IsFixed : ℕ → Sale → World → Type 0
IsFixed t sale w = (lookup t w.sales ≡ some sale) × (is_final sale.status ≡ true)

SaleStep-IsFixed :
    {d : Bool} {w w' : World} (t : ℕ) (sale : Sale)
    → SaleStep d w w'
    → IsFixed t sale w
    → IsFixed t sale w'
SaleStep-IsFixed {d} {w} t sale (still a b c) (found, final) = (rw a found, final)
SaleStep-IsFixed {d} {w} t sale (opened t' new x y a b c) (found, final) =
    (rw a (ground (arith, lookup-insert t' t new w.sales)), final)
SaleStep-IsFixed {d} {w} t sale (moved t' old new x y a b c) (found, final) = (
  rw a (ground (arith, lookup-insert t' t new w.sales, moves_not_final d old.status new.status y)),
  final,
)
SaleStep-IsFixed {d} {w} t sale (paid_out t' old seller x y z l f a b c) (found, final) = (
  rw a (
      ground
        (arith, lookup-insert t' t (delivered_sale old) w.sales, deliver_not_final d old.status y)),
  final,
)

Run-IsFixed :
    {q : BidQueries} {w v : World} (t : ℕ) (sale : Sale)
    → Run q w v
    → AreDisputed w
    → IsFixed t sale w
    → IsFixed t sale v
Run-IsFixed t sale start disputes h = h
Run-IsFixed t sale (then r c) disputes h =
    SaleStep-IsFixed t sale (Call-SaleStep c (Run-AreDisputed r disputes))
      (Run-IsFixed t sale r disputes h)

-- A sale that is DELIVERED or REFUNDED keeps its whole row through any run of the handlers that
-- starts with open disputes on DISPUTED sales, each on its own.
pub Run-final :
    {q : BidQueries} {w v : World} (t : ℕ) (sale : Sale)
    → Run q w v
    → AreDisputed w
    → lookup t w.sales ≡ some sale
    → is_final sale.status ≡ true
    → lookup t v.sales ≡ some sale
Run-final t sale r disputes found final = (Run-IsFixed t sale r disputes (found, final)).0
