-- ===== src/Store/State.antt =====
-- The state that the handlers share: the tables, and the effects made so far.
use bidvault_backend.Common.{
  ℕ, Bool, Option, none, some, List, [], ◌∷◌, if◌then◌else◌, Table, false, ◌==◌, true, lookup,
  insert, ◌≡◌, arith, IsKeyed, Bool-cases, inl, inr,
}
use bidvault_backend.Store.Rows.{User, Listing, Auction, Bid, Sale, LedgerEntry, Dispute}
use bidvault_backend.Store.Notices.{Notification, AuditLog, Effect}

pub record World : Type 0 where
  pub users : Table User
  pub listings : Table Listing
  pub auctions : Table Auction
  pub bids : Table Bid
  pub sales : Table Sale
  pub ledger_entries : List LedgerEntry
  pub disputes : Table Dispute
  pub notifications : List Notification
  pub audit_logs : List AuditLog
  pub effects : List Effect

-- The row that a unique foreign key names: `findUnique({ where: { transactionId } })`.
module _ {ℓ} {V : Type ℓ} where
  abbrev pub find_by : (V → Bool) → Table V → Option (ℕ × V)
  find_by p [] = none
  find_by p ((k, v) ∷ t) = if p v then some (k, v) else find_by p t

pub find_by-lookup {ℓ} :
    {V : Type ℓ} (p : V → Bool) (i : ℕ) (v : V) (t : Table V)
    → IsKeyed t
    → find_by p t ≡ some (i, v)
    → (lookup i t ≡ some v) × (p v ≡ true)
unfolding lookup
find_by-lookup p i v [] keyed h = absurd (ground arith)
find_by-lookup p i v ((j, w) ∷ t) keyed h = elim (Bool-cases (p w)) [
  | inl hit ↦ ground arith
  | inr miss ↦ ground (arith, find_by-lookup p i v t keyed.1)
]

pub find_by-insert {ℓ} :
    {V : Type ℓ} (p : V → Bool) (i : ℕ) (v w : V) (t : Table V)
    → find_by p t ≡ some (i, v)
    → p w ≡ true
    → find_by p (insert i w t) ≡ some (i, w)
unfolding insert
find_by-insert p i v w [] h hit = absurd (ground arith)
find_by-insert p i v w ((j, x) ∷ t) h hit = ground (arith, find_by-insert p i v w t)

pub find_by-fits {ℓ} :
    {V : Type ℓ} (p : V → Bool) (i : ℕ) (v : V) (t : Table V)
    → find_by p t ≡ some (i, v)
    → p v ≡ true
find_by-fits p i v [] h = absurd (ground arith)
find_by-fits p i v ((j, w) ∷ t) h = ground (arith, find_by-fits p i v t)

-- A write of a row that fails the test, over a new key, leaves what the test finds.
pub find_by-insert_new {ℓ} :
    {V : Type ℓ} (p : V → Bool) (k i : ℕ) (v w : V) (t : Table V)
    → lookup k t ≡ none
    → find_by p t ≡ some (i, v)
    → find_by p (insert k w t) ≡ some (i, v)
unfolding lookup insert
find_by-insert_new p k i v w [] fresh h = absurd (ground arith)
find_by-insert_new p k i v w ((j, x) ∷ t) fresh h = ground (arith, find_by-insert_new p k i v w t)

abbrev pub empty_world : World
empty_world = record {
  users = [];
  listings = [];
  auctions = [];
  bids = [];
  sales = [];
  ledger_entries = [];
  disputes = [];
  notifications = [];
  audit_logs = [];
  effects = [];
}

-- The unique key `LedgerEntry.transactionId`.
abbrev pub any_entry : ℕ → List LedgerEntry → Bool
any_entry transaction_id [] = false
any_entry transaction_id (e ∷ es) =
    if e.transaction_id == transaction_id then true else any_entry transaction_id es
