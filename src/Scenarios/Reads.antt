-- ===== src/Scenarios/Reads.antt =====
-- Searches, cookies and the seller's items on concrete data.
use bidvault_backend.Store.{AuctionStatus, ListingStatus}
use bidvault_backend.Common.{
  ℕ, [], ◌∷◌, Table, List, arith, some, ◌==◌, refl, Bool, ◌≡◌, if◌then◌else◌, ◌||◌, true, false,
  count, ◌&&◌, ◌++◌, none,
}
use bidvault_backend.SellerItems.{ItemRow, AuctionFacts}
use bidvault_backend.SellerItems.Counts.{counts_total, summary_total}
use bidvault_backend.Search.{IsLike, Like, escape_like, percent, underscore, backslash}
use bidvault_backend.Auth.Cookies.{IsExpress, Express, read_refresh_cookie, set_refresh_cookie}
use bidvault_backend.SellerItems.Items.{items_summary, OrderBy}
use bidvault_backend.Auth.Cookies.RoundTrip.{Cookie, cookie_string, stored, read-set}
use bidvault_backend.Search.Matching.{holds, contains-escape_like}
use bidvault_backend.SellerItems.Orders.{precedes}

-- LIKE with equal characters, by its pattern.
abbrev some_end : (List ℕ → Bool) → List ℕ → Bool
some_end matches [] = matches []
some_end matches (d ∷ text) = matches (d ∷ text) || some_end matches text

abbrev first_is : ℕ → (List ℕ → Bool) → List ℕ → Bool
first_is c matches [] = false
first_is c matches (d ∷ text) = c == d && matches text

abbrev any_first : (List ℕ → Bool) → List ℕ → Bool
any_first matches [] = false
any_first matches (d ∷ text) = matches text

abbrev is_nil : List ℕ → Bool
is_nil [] = true
is_nil (d ∷ text) = false

mutual
  -- The pattern from a character on, and the pattern after a backslash.
  like_from : List ℕ → List ℕ → Bool
  like_from [] text = is_nil text
  like_from (c ∷ pattern) text =
      if c == percent
      then some_end (like_from pattern) text
      else if c == underscore
      then any_first (like_from pattern) text
      else if c == backslash
      then like_escaped_from pattern text
      else first_is c (like_from pattern) text

  like_escaped_from : List ℕ → List ℕ → Bool
  like_escaped_from [] text = is_nil text
  like_escaped_from (c ∷ pattern) text = first_is c (like_from pattern) text

abbrev demo_like : Like
demo_like = record {
  same = ◌==◌;
  like = like_from;
  contains = λ term text. like_from (percent ∷ (term ++ percent ∷ [])) text;
}

demo_like-IsLike : IsLike demo_like
unfolding like_from like_escaped_from
demo_like-IsLike = record {
  like_nil = refl;
  like_end = λ d text. refl;
  like_percent_nil = λ pattern. refl;
  like_percent = λ pattern d text. refl;
  like_escaped_nil = λ c pattern. refl;
  like_escaped = λ c pattern d text. refl;
  like_plain_nil = λ c pattern plain. ground arith;
  like_plain = λ c pattern d text plain. ground arith;
  contains_like = λ term text. refl;
}

-- The term `5%`, which the text `5x` does not hold.
contains-escape_like_example :
    demo_like.contains (escape_like (53 ∷ 37 ∷ [])) (53 ∷ 120 ∷ [])
    ≡ holds ◌==◌ (53 ∷ 37 ∷ []) (53 ∷ 120 ∷ [])
contains-escape_like_example =
    contains-escape_like demo_like demo_like-IsLike (53 ∷ 37 ∷ []) (53 ∷ 120 ∷ [])

abbrev plain_express : Express
plain_express = record { cookie_value = λ value. value }

plain_express-IsExpress : IsExpress plain_express
plain_express-IsExpress = record { value_kept = λ value h. refl }

-- The cookie `t=1`, and the token `a.b`.
abbrev theme : Cookie
theme = record { name = 116 ∷ []; value = 49 ∷ [] }

read-set_example :
    read_refresh_cookie (
      some (
        cookie_string (
          theme
          ∷ stored (set_refresh_cookie plain_express true 14 (97 ∷ 46 ∷ 98 ∷ []) true)
          ∷ theme
          ∷ [])))
    ≡ some (97 ∷ 46 ∷ 98 ∷ [])
read-set_example =
    read-set plain_express plain_express-IsExpress true 14 true (97 ∷ 46 ∷ 98 ∷ []) (theme ∷ [])
      (theme ∷ []) ((((refl, tt), (refl, tt)), refl), tt) (((refl, tt), (refl, tt)), tt)
      (refl, (refl, (refl, tt))) (omega arith)

abbrev low_auction : ℕ → AuctionFacts
low_auction end_time = record {
  status = AuctionStatus.closed;
  reserve_met = some false;
  bid_count = 2;
  end_time = end_time;
  sale = none;
}

-- Two listings whose auctions ended under their reserve, and one that waits for approval.
abbrev unsold_item : ℕ → ItemRow
unsold_item end_time = record {
  seller_id = 3;
  title = 76 ∷ 97 ∷ 109 ∷ 112 ∷ [];
  listing_code = 66 ∷ 86 ∷ 49 ∷ [];
  submitted_at = 100;
  status = ListingStatus.approved;
  auction = some (low_auction end_time);
  is_relisted = false;
}

abbrev waiting_item : ItemRow
waiting_item = record (unsold_item 0) { status = ListingStatus.pending; auction = none }

abbrev inventory : Table ItemRow
inventory = (4, unsold_item 800) ∷ (6, waiting_item) ∷ (5, unsold_item 900) ∷ []

summary_total_example :
    counts_total (items_summary 3 inventory) ≡ count (λ r. (r.1).seller_id == 3) inventory
summary_total_example = summary_total 3 inventory

-- A database that sorts by insertion.
abbrev put : List OrderBy → ℕ × ItemRow → Table ItemRow → Table ItemRow
put order r [] = r ∷ []
put order r (s ∷ rows) = if precedes order r s then r ∷ (s ∷ rows) else s ∷ put order r rows

abbrev demo_ordered : List OrderBy → Table ItemRow → Table ItemRow
demo_ordered order [] = []
demo_ordered order (r ∷ rows) = put order r (demo_ordered order rows)
