-- ===== src/Reviews.antt =====
-- Reviews of sellers (src/modules/reviews/reviews.routes.ts): the routes that write. The sales are
-- those of the shared state; the reviews and their notifications are a state of their own.
pub mod Genuine
pub mod Runs
use bidvault_backend.Common.{
  none, some, ℕ, [], ◌∷◌, Option, lookup, String, Bool, or_else, Table, some, is_some, ltb, List,
  ◌+◌, ◌*◌, ◌==◌, if◌then◌else◌, not, remove, insert, ◌++◌,
}
use bidvault_backend.Store.{World, find_by, Sale, is_sale_delivered}

-- model SellerReview; its auction is that of the sale
pub record Review : Type 0 where
  pub transaction_id : ℕ
  pub auction_id : ℕ
  pub buyer_id : ℕ
  pub seller_id : ℕ
  pub stars : ℕ
  pub comment : Option String
  pub updated_at : Option ℕ
  pub seller_reply : Option String
  pub seller_reply_at : Option ℕ
  pub created_at : ℕ

pub data ReviewNotice : Type 0 where
  review_received : (user_id stars : ℕ) → ReviewNotice
  reply_received : (user_id : ℕ) (reply : String) → ReviewNotice

pub record ReviewState : Type 0 where
  pub world : World
  pub reviews : Table Review
  pub notices : List ReviewNotice

pub data ReviewAnswer : Type 0 where
  reviewed : (review_id : ℕ) → ReviewAnswer
  transaction_not_found not_the_winner not_delivered already_reviewed : ReviewAnswer
  edited deleted replied : (review_id : ℕ) → ReviewAnswer
  review_not_found forbidden too_late already_replied : ReviewAnswer

abbrev pub new_review : ℕ → ℕ → Sale → ℕ → Option String → Review
new_review now transaction_id sale stars comment = record {
  transaction_id = transaction_id;
  auction_id = sale.auction_id;
  buyer_id = sale.winner_id;
  seller_id = sale.seller_id;
  stars = stars;
  comment = comment;
  updated_at = none;
  seller_reply = none;
  seller_reply_at = none;
  created_at = now;
}

-- The check before the creation and the unique key behind it give one answer.
abbrev pub is_reviewed : ℕ → ReviewState → Bool
is_reviewed transaction_id s = is_some (find_by (λ r. r.transaction_id == transaction_id) s.reviews)

unfoldable pub create_review :
    ℕ → ℕ → ℕ → ℕ → ℕ → Option String → ReviewState → ReviewAnswer × ReviewState
create_review now review_id transaction_id buyer_id stars comment s =
    elim (lookup transaction_id s.world.sales) [
      | none ↦ (transaction_not_found, s)
      | some sale ↦
          if not (sale.winner_id == buyer_id)
          then (not_the_winner, s)
          else if not (is_sale_delivered sale.status)
          then (not_delivered, s)
          else if is_reviewed transaction_id s
          then (already_reviewed, s)
          else (
            reviewed review_id,
            record s {
              reviews =
                  insert review_id (new_review now transaction_id sale stars comment) s.reviews;
              notices = s.notices ++ ReviewNotice.review_received sale.seller_id stars ∷ [];
            },
          )
    ]

abbrev pub hour_ms : ℕ
hour_ms = 3600000

-- `Date.now() > deadline`
abbrev pub is_past_window : ℕ → ℕ → Review → Bool
is_past_window now edit_window_hours r = ltb (r.created_at + edit_window_hours * hour_ms) now

-- `stars ?? review.stars`, and the comment, which may be null, if the body has one.
abbrev pub edited_review : ℕ → Option ℕ → Option (Option String) → Review → Review
edited_review now stars comment r = record r {
  stars = or_else stars r.stars;
  comment = or_else comment r.comment;
  updated_at = some now;
}

unfoldable pub edit_review :
    ℕ → ℕ → ℕ → ℕ → Option ℕ → Option (Option String) → ReviewState → ReviewAnswer × ReviewState
edit_review now edit_window_hours review_id user_id stars comment s =
    elim (lookup review_id s.reviews) [
      | none ↦ (review_not_found, s)
      | some r ↦
          if not (r.buyer_id == user_id)
          then (forbidden, s)
          else if is_past_window now edit_window_hours r
          then (too_late, s)
          else (
            edited review_id,
            record s { reviews = insert review_id (edited_review now stars comment r) s.reviews },
          )
    ]

unfoldable pub delete_review : ℕ → ℕ → ℕ → ℕ → ReviewState → ReviewAnswer × ReviewState
delete_review now edit_window_hours review_id user_id s = elim (lookup review_id s.reviews) [
  | none ↦ (review_not_found, s)
  | some r ↦
      if not (r.buyer_id == user_id)
      then (forbidden, s)
      else if is_past_window now edit_window_hours r
      then (too_late, s)
      else (deleted review_id, record s { reviews = remove review_id s.reviews })
]

abbrev pub replied_review : ℕ → String → Review → Review
replied_review now reply r = record r { seller_reply = some reply; seller_reply_at = some now }

unfoldable pub reply_to_review : ℕ → ℕ → ℕ → String → ReviewState → ReviewAnswer × ReviewState
reply_to_review now review_id user_id reply s = elim (lookup review_id s.reviews) [
  | none ↦ (review_not_found, s)
  | some r ↦
      if not (r.seller_id == user_id)
      then (forbidden, s)
      else if is_some r.seller_reply
      then (already_replied, s)
      else (
        replied review_id,
        record s {
          reviews = insert review_id (replied_review now reply r) s.reviews;
          notices = s.notices ++ ReviewNotice.reply_received r.buyer_id reply ∷ [];
        },
      )
]
