-- ===== src/Payments/Views.antt =====
-- The routes of src/modules/payments/payments.routes.ts that only read: a buyer's purchases, a
-- seller's sales, revenue and earnings, and the invoice of a sale.
use mathlib.Core.List.{reverse}
use bidvault_backend.Store.{
  DisputeStatus, Sale, Auction, Dispute, LedgerEntry, World, TransactionStatus,
}
use bidvault_backend.Reviews.{Review, hour_ms}
use bidvault_backend.Pagination.{ParsedNumber, CursorText, list_page}
use bidvault_backend.Auth.{Role}
use bidvault_backend.Common.{
  ℕ, [], ◌∷◌, or_else, Table, total, Option, Bool, List, String, suc, if◌then◌else◌, count, ◌==◌,
  map, lookup, some, is_some, false, zero, keep, ◌+◌, ◌&&◌, none, ◌*◌, not,
}
use bidvault_backend.Fulfillment.{is_revenue}
use bidvault_backend.Accounts.{is_admin_role}

-- The User columns that the routes select of a winner and of a seller.
pub record Party : Type 0 where
  pub name : String
  pub email : String
  pub seller_phone : Option String

-- A sale with the rows that the routes include.
pub record IncludedSale : Type 0 where
  pub sale : Sale
  pub auction : Auction
  pub winner : Party
  pub seller : Party
  pub dispute : Option Dispute
  pub review : Option (ℕ × Review)

-- The phone that a seller gave is private until the buyer has paid.
abbrev pub shown_phone : Sale → Party → Option String
shown_phone sale seller = if is_revenue sale.status then seller.seller_phone else none

abbrev pub review_deadline : ℕ → Option ℕ → Option ℕ
review_deadline review_timeout_hours none = none
review_deadline review_timeout_hours (some shipped_at) =
    some (shipped_at + review_timeout_hours * hour_ms)

abbrev pub dispute_reason : Option Dispute → Option String
dispute_reason none = none
dispute_reason (some dispute) = some dispute.reason

pub record WinView : Type 0 where
  pub transaction_id : ℕ
  pub auction_id : ℕ
  pub auction_title : String
  pub auction_emoji : String
  pub auction_image_url : String
  pub seller_name : String
  pub seller_phone : Option String
  pub final_amount : ℕ
  pub status : TransactionStatus
  pub last_payment_error : Option String
  pub shipped_at : Option ℕ
  pub review_deadline_at : Option ℕ
  pub dispute_reason : Option String
  pub created_at : ℕ
  pub reviewed : Bool
  pub review_id : Option ℕ
  pub review_stars : Option ℕ
  pub review_comment : Option String

abbrev review_id : Option (ℕ × Review) → Option ℕ
review_id none = none
review_id (some r) = some (r.0)

abbrev review_stars : Option (ℕ × Review) → Option ℕ
review_stars none = none
review_stars (some r) = some (r.1).stars

abbrev review_comment : Option (ℕ × Review) → Option String
review_comment none = none
review_comment (some r) = (r.1).comment

unfoldable pub win_view : ℕ → ℕ × IncludedSale → WinView
win_view review_timeout_hours (i, tx) = record {
  transaction_id = i;
  auction_id = tx.sale.auction_id;
  auction_title = tx.auction.title;
  auction_emoji = or_else tx.auction.emoji "📦";
  auction_image_url = or_else tx.auction.image_url "";
  seller_name = tx.seller.name;
  seller_phone = shown_phone tx.sale tx.seller;
  final_amount = tx.sale.final_amount;
  status = tx.sale.status;
  last_payment_error = tx.sale.last_payment_error;
  shipped_at = tx.sale.shipped_at;
  review_deadline_at = review_deadline review_timeout_hours tx.sale.shipped_at;
  dispute_reason = dispute_reason tx.dispute;
  created_at = tx.sale.created_at;
  reviewed = is_some tx.review;
  review_id = review_id tx.review;
  review_stars = review_stars tx.review;
  review_comment = review_comment tx.review;
}

-- GET /my-wins; `rows` are the sales, newest first.
unfoldable pub my_wins : ℕ → ℕ → Table IncludedSale → List WinView
unfolding win_view
my_wins review_timeout_hours winner_id rows =
    map (win_view review_timeout_hours) (keep (λ r. (r.1).sale.winner_id == winner_id) rows)

pub record SellerTotals : Type 0 where
  pub total_revenue : ℕ
  pub items_sold : ℕ

abbrev pub is_revenue_of : ℕ → ℕ × Sale → Bool
is_revenue_of seller_id r = (r.1).seller_id == seller_id && is_revenue (r.1).status

abbrev pub sale_amount : ℕ × Sale → ℕ
sale_amount r = (r.1).final_amount

-- GET /seller-stats
unfoldable pub seller_totals : ℕ → World → SellerTotals
seller_totals seller_id w = record {
  total_revenue = total (is_revenue_of seller_id) sale_amount w.sales;
  items_sold = count (is_revenue_of seller_id) w.sales;
}

pub record Earnings : Type 0 where
  pub ledger_balance : ℕ
  pub entries : List LedgerEntry

-- GET /earnings; the entries come oldest first, and the newest fifty are shown. `none` where the
-- account is gone, which throws.
abbrev pub first_entries : ℕ → List LedgerEntry → List LedgerEntry
first_entries zero entries = []
first_entries (suc n) [] = []
first_entries (suc n) (e ∷ entries) = e ∷ first_entries n entries

unfoldable pub earnings : ℕ → World → Option Earnings
earnings seller_id w = elim (lookup seller_id w.users) [
  | none ↦ none
  | some seller ↦ some (record {
    ledger_balance = seller.ledger_balance;
    entries = first_entries 50 (reverse (keep (λ e. e.seller_id == seller_id) w.ledger_entries));
  })
]

pub record SoldView : Type 0 where
  pub transaction_id : ℕ
  pub auction_id : ℕ
  pub auction_title : String
  pub auction_emoji : String
  pub auction_image_url : String
  pub buyer_name : String
  pub final_amount : ℕ
  pub status : TransactionStatus
  pub delivery_address : Option String
  pub delivery_phone : Option String
  pub shipped_at : Option ℕ
  pub review_deadline_at : Option ℕ
  pub dispute_reason : Option String
  pub created_at : ℕ

unfoldable pub sold_view : ℕ → ℕ × IncludedSale → SoldView
sold_view review_timeout_hours (i, tx) = record {
  transaction_id = i;
  auction_id = tx.sale.auction_id;
  auction_title = tx.auction.title;
  auction_emoji = or_else tx.auction.emoji "📦";
  auction_image_url = or_else tx.auction.image_url "";
  buyer_name = tx.winner.name;
  final_amount = tx.sale.final_amount;
  status = tx.sale.status;
  delivery_address = tx.sale.delivery_address;
  delivery_phone = tx.sale.delivery_phone;
  shipped_at = tx.sale.shipped_at;
  review_deadline_at = review_deadline review_timeout_hours tx.sale.shipped_at;
  dispute_reason = dispute_reason tx.dispute;
  created_at = tx.sale.created_at;
}

-- GET /my-sales; `rows` are the sales, newest first and then by id.
unfoldable pub my_sales :
    CursorText
    → ParsedNumber
    → Option (List ℕ)
    → ℕ
    → ℕ
    → Table IncludedSale
    → List SoldView × Option (List ℕ)
unfolding sold_view
my_sales text raw_limit raw_cursor review_timeout_hours seller_id rows =
    let (page_rows, next_cursor) =
      list_page (λ (tx : IncludedSale). tx.sale.created_at) false text raw_limit raw_cursor
        (keep (λ r. (r.1).sale.seller_id == seller_id) rows) in
    (map (sold_view review_timeout_hours) page_rows, next_cursor)

abbrev pub dispute_status : Option Dispute → Option DisputeStatus
dispute_status none = none
dispute_status (some dispute) = some dispute.status

abbrev pub dispute_note : Option Dispute → Option String
dispute_note none = none
dispute_note (some dispute) = dispute.resolution_note

-- The invoice's number, a text of the sale's id, is left out.
pub record Invoice : Type 0 where
  pub transaction_id : ℕ
  pub auction_title : String
  pub category : String
  pub buyer_name : String
  pub buyer_email : String
  pub seller_name : String
  pub seller_email : String
  pub seller_phone : Option String
  pub amount : ℕ
  pub status : TransactionStatus
  pub payment_reference : Option ℕ
  pub delivery_address : Option String
  pub delivery_phone : Option String
  pub created_at : ℕ
  pub shipped_at : Option ℕ
  pub dispute_status : Option DisputeStatus
  pub dispute_reason : Option String
  pub dispute_resolution_note : Option String

pub data InvoiceAnswer : Type 0 where
  transaction_not_found forbidden : InvoiceAnswer
  invoice : (i : Invoice) → InvoiceAnswer

-- GET /:transactionId/invoice
unfoldable pub read_invoice : Role → ℕ → ℕ → Table IncludedSale → InvoiceAnswer
read_invoice role user_id transaction_id rows = elim (lookup transaction_id rows) [
  | none ↦ transaction_not_found
  | some tx ↦
      if not (is_admin_role role)
        && not (tx.sale.winner_id == user_id)
        && not (tx.sale.seller_id == user_id)
      then forbidden
      else invoice (record {
        transaction_id = transaction_id;
        auction_title = tx.auction.title;
        category = tx.auction.category;
        buyer_name = tx.winner.name;
        buyer_email = tx.winner.email;
        seller_name = tx.seller.name;
        seller_email = tx.seller.email;
        seller_phone = shown_phone tx.sale tx.seller;
        amount = tx.sale.final_amount;
        status = tx.sale.status;
        payment_reference = tx.sale.payment_reference;
        delivery_address = tx.sale.delivery_address;
        delivery_phone = tx.sale.delivery_phone;
        created_at = tx.sale.created_at;
        shipped_at = tx.sale.shipped_at;
        dispute_status = dispute_status tx.dispute;
        dispute_reason = dispute_reason tx.dispute;
        dispute_resolution_note = dispute_note tx.dispute;
      })
]
