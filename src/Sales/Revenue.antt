-- ===== src/Sales/Revenue.antt =====
-- What a seller reads of revenue and of earnings agrees, through any run of the handlers.
use bidvault_backend.Store.{World, Sale, User, TransactionStatus, is_sale_delivered}
use bidvault_backend.Sales.Runs.{Run, Call-SaleStep, Run-AreDisputed}
use bidvault_backend.Store.Queries.{BidQueries}
use bidvault_backend.Sales.{opened, still, moved, paid_out, credited}
use bidvault_backend.Common.{
  ℕ, [], ◌∷◌, Bool, lookup, ◌≡◌, ◌==◌, true, none, ◌&&◌, some, total, false, not, insert, arith,
  insert_new, total-insert, total-append, ◌+◌, if◌then◌else◌, ◌∙◌, Table, sym, insert_cases, inl,
  refl, inr, Option-cases,
}
use bidvault_backend.Sales.{SaleStep, can_deliver, still, moves, delivered_sale}
use bidvault_backend.Fulfillment.{is_revenue}
use bidvault_backend.Payments.Views.{sale_amount, earnings, is_revenue_of, seller_totals, Earnings}
use bidvault_backend.Sales.Disputed.{AreDisputed}

abbrev pub is_delivered_of : ℕ → ℕ × Sale → Bool
is_delivered_of seller_id r = (r.1).seller_id == seller_id && is_sale_delivered (r.1).status

-- Paid, and not delivered yet: completed, shipped or disputed.
abbrev pub is_in_progress_of : ℕ → ℕ × Sale → Bool
is_in_progress_of seller_id r =
    (r.1).seller_id == seller_id && is_revenue (r.1).status && not (is_sale_delivered (r.1).status)

-- Each balance is the sum of the seller's delivered sales.
abbrev pub AreSettled : World → Type 0
AreSettled w =
    (seller_id : ℕ) (seller : User)
    → lookup seller_id w.users ≡ some seller
    → seller.ledger_balance ≡ total (is_delivered_of seller_id) sale_amount w.sales

opened-delivered :
    (seller_id t : ℕ) (sale : Sale) (w : World)
    → lookup t w.sales ≡ none
    → is_sale_delivered sale.status ≡ false
    → total (is_delivered_of seller_id) sale_amount (insert t sale w.sales)
      ≡ total (is_delivered_of seller_id) sale_amount w.sales
opened-delivered seller_id t sale w fresh not_yet =
    rw
      (
        insert_new t sale w.sales fresh,
        total-append (is_delivered_of seller_id) sale_amount w.sales ((t, sale) ∷ []),
      )
      (ground arith)

moved-delivered :
    (seller_id t : ℕ) (old new : Sale) (w : World)
    → lookup t w.sales ≡ some old
    → is_sale_delivered old.status ≡ false
    → is_sale_delivered new.status ≡ false
    → total (is_delivered_of seller_id) sale_amount (insert t new w.sales)
      ≡ total (is_delivered_of seller_id) sale_amount w.sales
moved-delivered seller_id t old new w found not_before not_after =
    ground (arith, total-insert (is_delivered_of seller_id) sale_amount t new old w.sales found)

moves-undelivered :
    (decides : Bool) (a b : TransactionStatus)
    → moves decides a b ≡ true
    → (is_sale_delivered a ≡ false) × (is_sale_delivered b ≡ false)
moves-undelivered decides TransactionStatus.pending b h = ground arith
moves-undelivered decides a b h = ground arith

can_deliver-undelivered :
    (decides : Bool) (a : TransactionStatus)
    → can_deliver decides a ≡ true
    → is_sale_delivered a ≡ false
can_deliver-undelivered decides TransactionStatus.pending h = ground arith
can_deliver-undelivered decides a h = ground arith

paid-delivered :
    (seller_id t : ℕ) (sale : Sale) (w : World)
    → lookup t w.sales ≡ some sale
    → is_sale_delivered sale.status ≡ false
    → total (is_delivered_of seller_id) sale_amount (insert t (delivered_sale sale) w.sales)
      ≡ total (is_delivered_of seller_id) sale_amount w.sales
        + (if sale.seller_id == seller_id then sale.final_amount else 0)
paid-delivered seller_id t sale w found not_yet = ground (
  arith,
  total-insert (is_delivered_of seller_id) sale_amount t (delivered_sale sale) sale w.sales found,
)

paid_balance :
    (s t : ℕ) (sale : Sale) (seller u : User) (w : World)
    → AreSettled w
    → lookup t w.sales ≡ some sale
    → is_sale_delivered sale.status ≡ false
    → lookup sale.seller_id w.users ≡ some seller
    → lookup s (insert sale.seller_id (credited sale seller) w.users) ≡ some u
    → u.ledger_balance
      ≡ total (is_delivered_of s) sale_amount (insert t (delivered_sale sale) w.sales)
paid_balance s t sale seller u w h found not_yet known e =
    rw (paid-delivered s t sale w found not_yet)
      (elim (insert_cases sale.seller_id s (credited sale seller) w.users e) [
        | inl (here, same) ↦ let sum = h sale.seller_id seller known in ground arith
        | inr (there, old) ↦ let sum = h s u old in ground arith
      ])

SaleStep-AreSettled :
    {decides : Bool} {w w' : World} → SaleStep decides w w' → AreSettled w → AreSettled w'
SaleStep-AreSettled (still a b c) h = λ s u e. rw a (h s u (rw b at e))
SaleStep-AreSettled {decides} {w} (opened t sale x y a b c) h =
    λ s u e. rw a (h s u (rw b at e) ∙ sym (opened-delivered s t sale w x (rw y refl)))
SaleStep-AreSettled {decides} {w} (moved t old new x y a b c) h =
    let undelivered = moves-undelivered decides old.status new.status y in
    λ s u e.
      rw a (h s u (rw b at e) ∙ sym (moved-delivered s t old new w x undelivered.0 undelivered.1))
SaleStep-AreSettled {decides} {w} (paid_out t sale seller x y known room fresh a b c) h = λ s u e.
    rw a (
      paid_balance s t sale seller u w h x (can_deliver-undelivered decides sale.status y) known
        (rw b at e))

Run-AreSettled :
    {q : BidQueries} {w v : World} → Run q w v → AreDisputed w → AreSettled w → AreSettled v
Run-AreSettled Run.start disputes h = h
Run-AreSettled (Run.then r c) disputes h =
    SaleStep-AreSettled (Call-SaleStep c (Run-AreDisputed r disputes)) (Run-AreSettled r disputes h)

delivered_revenue :
    (status : TransactionStatus) → is_sale_delivered status ≡ true → is_revenue status ≡ true
delivered_revenue TransactionStatus.pending h = ground arith
delivered_revenue status h = ground arith

revenue_split :
    (seller_id : ℕ) (sales : Table Sale)
    → total (is_revenue_of seller_id) sale_amount sales
      ≡ total (is_delivered_of seller_id) sale_amount sales
        + total (is_in_progress_of seller_id) sale_amount sales
revenue_split seller_id [] = refl
revenue_split seller_id ((t, sale) ∷ sales) =
    ground (arith, revenue_split seller_id sales, delivered_revenue sale.status)

earnings-balance :
    (seller_id : ℕ) (w : World) (shown : Earnings)
    → earnings seller_id w ≡ some shown
    → (seller : User) × (lookup seller_id w.users ≡ some seller)
      × (shown.ledger_balance ≡ seller.ledger_balance)
unfolding earnings
earnings-balance seller_id w shown e = elim (Option-cases (lookup seller_id w.users)) [
  | inl gone ↦ absurd (ground arith)
  | inr (seller, known) ↦ (seller, known, ground arith)
]

-- Through any run of the handlers from settled balances, with open disputes on DISPUTED sales, each on
-- its own, the revenue that GET /seller-stats gives a
-- seller is the balance that GET /earnings gives, and the amounts of the sales that are paid and not
-- delivered yet.
pub Run-revenue :
    {q : BidQueries} {w v : World} (seller_id : ℕ) {shown : Earnings}
    → Run q w v
    → AreDisputed w
    → AreSettled w
    → earnings seller_id v ≡ some shown
    → (seller_totals seller_id v).total_revenue
      ≡ shown.ledger_balance + total (is_in_progress_of seller_id) sale_amount v.sales
unfolding seller_totals
Run-revenue {q} {w} {v} seller_id {shown} r disputes h e =
    let (seller, known, same) = earnings-balance seller_id v shown e in
    omega (
      arith,
      revenue_split seller_id v.sales,
      Run-AreSettled r disputes h seller_id seller known,
      same,
    )
