-- ===== src/Sales.antt =====
-- The life of a sale, over all the operations that write the AuctionTransaction, LedgerEntry and
-- User tables: one abstract machine (this file), each handler as a step of it (Handlers, Payments,
-- Disputes, Others), the disputes it relies on (Disputed, Untouched, Decisions), and what the machine
-- keeps (Payouts) through runs (Runs), where a release fails (Stuck), and a seller's revenue
-- (Revenue). The status diagram is the one of prisma/schema.prisma.
pub mod Handlers
pub mod Payments
pub mod Disputes
pub mod Disputed
pub mod Untouched
pub mod Decisions
pub mod Payouts
pub mod Others
pub mod Runs
pub mod Stuck
pub mod Revenue
use bidvault_backend.Common.{
  ℕ, [], ◌∷◌, Bool, ◌≡◌, true, ◌+◌, lookup, none, false, insert, some, ◌≤◌, ◌++◌, ◌∙◌, ap, ◌⊎◌,
  refl, inl, inr,
}
use bidvault_backend.Store.{
  TransactionStatus, Sale, Flow, World, LedgerEntry, User, next, any_entry, answer, threw,
}
use bidvault_backend.Fulfillment.{max_int4}

-- The moves between statuses other than into DELIVERED; only a step that decides a dispute moves a
-- sale that is DISPUTED. A declined charge and a later retry leave the status as it is.
abbrev pub moves : Bool → TransactionStatus → TransactionStatus → Bool
moves decides TransactionStatus.pending TransactionStatus.pending = true
moves decides TransactionStatus.failed TransactionStatus.failed = true
moves decides TransactionStatus.pending TransactionStatus.completed = true
moves decides TransactionStatus.failed TransactionStatus.completed = true
moves decides TransactionStatus.pending TransactionStatus.voided = true
moves decides TransactionStatus.voided TransactionStatus.pending = true
moves decides TransactionStatus.completed TransactionStatus.shipped = true
moves decides TransactionStatus.shipped TransactionStatus.disputed = true
moves decides TransactionStatus.disputed TransactionStatus.refunded = decides
moves _ _ _ = false

abbrev pub can_deliver : Bool → TransactionStatus → Bool
can_deliver decides TransactionStatus.shipped = true
can_deliver decides TransactionStatus.disputed = decides
can_deliver _ _ = false

abbrev pub delivered_sale : Sale → Sale
delivered_sale sale = record sale { status = TransactionStatus.delivered }

abbrev pub entry_of : ℕ → Sale → LedgerEntry
entry_of transaction_id sale = record {
  seller_id = sale.seller_id;
  transaction_id = transaction_id;
  amount = sale.final_amount;
}

abbrev pub credited : Sale → User → User
credited sale seller = record seller { ledger_balance = seller.ledger_balance + sale.final_amount }

-- What one handler does to sales and money, and whether it decides a dispute.
pub data SaleStep (decides : Bool) (w w' : World) : Type 0 where
  still :
      w'.sales ≡ w.sales
      → w'.users ≡ w.users
      → w'.ledger_entries ≡ w.ledger_entries
      → SaleStep decides w w'
  opened :
      (transaction_id : ℕ) (sale : Sale)
      → lookup transaction_id w.sales ≡ none
      → sale.status ≡ TransactionStatus.pending
      → w'.sales ≡ insert transaction_id sale w.sales
      → w'.users ≡ w.users
      → w'.ledger_entries ≡ w.ledger_entries
      → SaleStep decides w w'
  moved :
      (transaction_id : ℕ) (old new : Sale)
      → lookup transaction_id w.sales ≡ some old
      → moves decides old.status new.status ≡ true
      → w'.sales ≡ insert transaction_id new w.sales
      → w'.users ≡ w.users
      → w'.ledger_entries ≡ w.ledger_entries
      → SaleStep decides w w'
  paid_out :
      (transaction_id : ℕ) (sale : Sale) (seller : User)
      → lookup transaction_id w.sales ≡ some sale
      → can_deliver decides sale.status ≡ true
      → lookup sale.seller_id w.users ≡ some seller
      → seller.ledger_balance + sale.final_amount ≤ max_int4
      → any_entry transaction_id w.ledger_entries ≡ false
      → w'.sales ≡ insert transaction_id (delivered_sale sale) w.sales
      → w'.users ≡ insert sale.seller_id (credited sale seller) w.users
      → w'.ledger_entries ≡ w.ledger_entries ++ entry_of transaction_id sale ∷ []
      → SaleStep decides w w'

-- Sales and money as they were.
abbrev pub SameMoney : World → World → Type 0
SameMoney w w' =
    (w'.sales ≡ w.sales) × (w'.users ≡ w.users) × (w'.ledger_entries ≡ w.ledger_entries)

-- A step may be read from, and to, any world with the same sales and money.
pub SaleStep-same :
    {decides : Bool} {w v v' w' : World}
    → SameMoney w v
    → SaleStep decides v v'
    → SameMoney v' w'
    → SaleStep decides w w'
SaleStep-same (s, u, e) (still a b c) (s', u', e') = still (s' ∙ a ∙ s) (u' ∙ b ∙ u) (e' ∙ c ∙ e)
SaleStep-same (s, u, e) (opened t sale x y a b c) (s', u', e') =
    opened t sale (rw s at x) y (s' ∙ a ∙ ap (insert t sale) s) (u' ∙ b ∙ u) (e' ∙ c ∙ e)
SaleStep-same (s, u, e) (moved t old new x y a b c) (s', u', e') =
    moved t old new (rw s at x) y (s' ∙ a ∙ ap (insert t new) s) (u' ∙ b ∙ u) (e' ∙ c ∙ e)
SaleStep-same (s, u, e) (paid_out t sale seller x y z l f a b c) (s', u', e') =
    paid_out t sale seller (rw s at x) y (rw u at z) l (rw e at f)
      (s' ∙ a ∙ ap (insert t (delivered_sale sale)) s)
      (u' ∙ b ∙ ap (insert sale.seller_id (credited sale seller)) u)
      (e' ∙ c ∙ ap (λ es. es ++ entry_of t sale ∷ []) e)

-- Whether a handler went through to its end.
abbrev pub went_on : {R A : Type 0} → Flow R A → Bool
went_on (next _) = true
went_on _ = false

pub Flow-cases : {R A : Type 0} (r : Flow R A) → ((a : A) × (r ≡ next a)) ⊎ (went_on r ≡ false)
Flow-cases (next a) = inl (a, refl)
Flow-cases (answer r) = inr refl
Flow-cases threw = inr refl

pub SameMoney-refl : (w : World) → SameMoney w w
SameMoney-refl w = (refl, refl, refl)
