-- ===== src/Sales/Payouts.antt =====
-- What the machine keeps: each sale is paid out at most once, and a seller's balance is the sum of
-- the seller's ledger entries.
use bidvault_backend.Common.{
  ℕ, Option, Bool, count, some, lookup, if◌then◌else◌, ◌==◌, ◌≡◌, insert, true, Bool-cases, false,
  none, total, inl, arith, ◌≤◌, lookup-insert, inr, ◌+◌, ◌++◌, insert_cases, ◌∷◌, ◌∙◌, sym, [],
  total-append, count-append,
}
use bidvault_backend.Store.{LedgerEntry, Sale, World, TransactionStatus, User, is_sale_delivered}
use bidvault_backend.Sales.{
  moves, SaleStep, credited, can_deliver, still, entry_of, opened, delivered_sale, moved, paid_out,
}
use bidvault_backend.Fulfillment.{max_int4}

abbrev pub is_entry_of : ℕ → LedgerEntry → Bool
is_entry_of transaction_id e = e.transaction_id == transaction_id

abbrev pub is_seller_entry : ℕ → LedgerEntry → Bool
is_seller_entry seller_id e = e.seller_id == seller_id

abbrev pub amount_of : LedgerEntry → ℕ
amount_of e = e.amount

-- 1 for a sale that is DELIVERED, 0 for any other and for none.
abbrev pub due_entries : Option Sale → ℕ
due_entries none = 0
due_entries (some sale) = if is_sale_delivered sale.status then 1 else 0

pub record IsPaidOut (w : World) : Type 0 where
  -- exactly the delivered sales have an entry, and each has one
  pub once :
      (transaction_id : ℕ)
      → count (is_entry_of transaction_id) w.ledger_entries
        ≡ due_entries (lookup transaction_id w.sales)
  -- a balance is the sum of the seller's entries
  pub balanced :
      (seller_id : ℕ) (seller : User)
      → lookup seller_id w.users ≡ some seller
      → seller.ledger_balance ≡ total (is_seller_entry seller_id) amount_of w.ledger_entries
  -- and fits its column
  pub fits :
      (seller_id : ℕ) (seller : User)
      → lookup seller_id w.users ≡ some seller
      → seller.ledger_balance ≤ max_int4

-- A sale's row changes to one with as many entries due.
once_insert :
    (t t' : ℕ) (new : Sale) (w : World)
    → due_entries (lookup t w.sales) ≡ due_entries (some new)
    → due_entries (lookup t' (insert t new w.sales)) ≡ due_entries (lookup t' w.sales)
once_insert t t' new w h = elim (Bool-cases (t == t')) [
  | inl same ↦ ground (arith, lookup-insert t t' new w.sales)
  | inr other ↦ ground (arith, lookup-insert t t' new w.sales)
]

moves_due :
    (decides : Bool) (old new : TransactionStatus)
    → moves decides old new ≡ true
    → (is_sale_delivered old ≡ false) × (is_sale_delivered new ≡ false)
moves_due decides old new h = ground arith

-- The new entry of a payout counts for its own sale alone.
once_paid :
    (decides : Bool) (t t' : ℕ) (sale : Sale) (w : World)
    → lookup t w.sales ≡ some sale
    → can_deliver decides sale.status ≡ true
    → count (is_entry_of t') w.ledger_entries ≡ due_entries (lookup t' w.sales)
    → count (is_entry_of t') (w.ledger_entries ++ entry_of t sale ∷ [])
      ≡ due_entries (lookup t' (insert t (delivered_sale sale) w.sales))
once_paid decides t t' sale w found ready h = elim (Bool-cases (t == t')) [
  | inl same ↦
      let here : t ≡ t' = ground arith in
      let found' : lookup t' w.sales ≡ some sale = rw here at found in
      ground (
        arith,
        lookup-insert t t' (delivered_sale sale) w.sales,
        count-append (is_entry_of t') w.ledger_entries (entry_of t sale ∷ []),
      )
  | inr other ↦ ground (
    arith,
    lookup-insert t t' (delivered_sale sale) w.sales,
    count-append (is_entry_of t') w.ledger_entries (entry_of t sale ∷ []),
  )
]

-- The credited seller's balance grows by the new entry; every other balance stays.
balanced_paid :
    (t s : ℕ) (sale : Sale) (seller u : User) (w : World)
    → IsPaidOut w
    → lookup sale.seller_id w.users ≡ some seller
    → lookup s (insert sale.seller_id (credited sale seller) w.users) ≡ some u
    → u.ledger_balance
      ≡ total (is_seller_entry s) amount_of (w.ledger_entries ++ entry_of t sale ∷ [])
balanced_paid t s sale seller u w inv known e =
    rw (total-append (is_seller_entry s) amount_of w.ledger_entries (entry_of t sale ∷ []))
      (elim (insert_cases sale.seller_id s (credited sale seller) w.users e) [
        | inl (here, same) ↦ let sum = inv.balanced sale.seller_id seller known in ground arith
        | inr (there, old) ↦ let sum = inv.balanced s u old in ground arith
      ])

fits_paid :
    (s : ℕ) (sale : Sale) (seller u : User) (w : World)
    → IsPaidOut w
    → seller.ledger_balance + sale.final_amount ≤ max_int4
    → lookup s (insert sale.seller_id (credited sale seller) w.users) ≡ some u
    → u.ledger_balance ≤ max_int4
fits_paid s sale seller u w inv room e =
    elim (insert_cases sale.seller_id s (credited sale seller) w.users e) [
      | inl (here, same) ↦ ground arith
      | inr (there, old) ↦ inv.fits s u old
    ]

-- Every step of the machine keeps the accounts: one entry for each delivered sale and none for
-- another, and each balance the sum of its seller's entries and within its column.
pub SaleStep-IsPaidOut :
    {decides : Bool} {w w' : World} → SaleStep decides w w' → IsPaidOut w → IsPaidOut w'
SaleStep-IsPaidOut {decides} {w} (still a b c) inv = record {
  once = λ t. rw (a, c) (inv.once t);
  balanced = λ s u e. rw c (inv.balanced s u (rw b at e));
  fits = λ s u e. inv.fits s u (rw b at e);
}
SaleStep-IsPaidOut {decides} {w} (opened t sale x y a b c) inv = record {
  once = λ t'. rw (a, c) (inv.once t' ∙ sym (once_insert t t' sale w (ground arith)));
  balanced = λ s u e. rw c (inv.balanced s u (rw b at e));
  fits = λ s u e. inv.fits s u (rw b at e);
}
SaleStep-IsPaidOut {decides} {w} (moved t old new x y a b c) inv =
    let due = moves_due decides old.status new.status y in
    record {
      once = λ t'. rw (a, c) (inv.once t' ∙ sym (once_insert t t' new w (ground arith)));
      balanced = λ s u e. rw c (inv.balanced s u (rw b at e));
      fits = λ s u e. inv.fits s u (rw b at e);
    }
SaleStep-IsPaidOut {decides} {w} (paid_out t sale seller x y known room fresh a b c) inv = record {
  once = λ t'. rw (a, c) (once_paid decides t t' sale w x y (inv.once t'));
  balanced = λ s u e. rw c (balanced_paid t s sale seller u w inv known (rw b at e));
  fits = λ s u e. fits_paid s sale seller u w inv room (rw b at e);
}
