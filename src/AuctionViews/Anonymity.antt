-- ===== src/AuctionViews/Anonymity.antt =====
-- What the pseudonyms of a bid history tell, and what they do not.
use bidvault_backend.Store.{Bid}
use bidvault_backend.Common.{
  ℕ, [], ◌∷◌, List, Bool, Table, keep, Memᴰ, is_some, contains, ◌≢◌, ◌++◌, ◌≡◌, not, true, arith,
  Bool-cases, ◌==◌, some, Option-cases, inl, subst, ap, if◌then◌else◌, refl, inr, ◌∙◌, false,
  Option, ◌↔◌, none,
}
use bidvault_backend.AuctionViews.History.{
  distinct, buyers_of, rank, bid_view, rank_of, buyer_name, BuyerName, is_bid_on,
}

contains-keep_other :
    (u x : ℕ) (xs : List ℕ)
    → contains u (keep (λ y. not (y == x)) xs) ≡ (if x == u then false else contains u xs)
contains-keep_other u x [] = ground arith
contains-keep_other u x (y ∷ xs) = ground (arith, contains-keep_other u x xs)

contains-distinct : (u : ℕ) (xs : List ℕ) → contains u (distinct xs) ≡ contains u xs
contains-distinct u [] = refl
contains-distinct u (x ∷ xs) =
    ground (arith, contains-keep_other u x (distinct xs), contains-distinct u xs)

rank-contains : (u : ℕ) (xs : List ℕ) → is_some (rank u xs) ≡ contains u xs
rank-contains u [] = refl
rank-contains u (x ∷ xs) = ground (arith, rank-contains u xs)

rank-append : (u : ℕ) (xs ys : List ℕ) → contains u xs ≡ true → rank u (xs ++ ys) ≡ rank u xs
rank-append u [] ys h = absurd (ground arith)
rank-append u (x ∷ xs) ys h = ground (arith, rank-append u xs ys)

keep-append : (p : ℕ → Bool) (xs ys : List ℕ) → keep p (xs ++ ys) ≡ keep p xs ++ keep p ys
keep-append p [] ys = refl
keep-append p (x ∷ xs) ys = elim (Bool-cases (p x)) [
  | inl kept ↦ rw kept (ap (λ zs. x ∷ zs) (keep-append p xs ys))
  | inr left ↦ rw left (keep-append p xs ys)
]

-- A list begins with the distinct values of a part that it begins with.
distinct-append : (xs ys : List ℕ) → (zs : List ℕ) × (distinct (xs ++ ys) ≡ distinct xs ++ zs)
distinct-append [] ys = (distinct ys, refl)
distinct-append (x ∷ xs) ys =
    let (zs, e) = distinct-append xs ys in
    (
      keep (λ y. not (y == x)) zs,
      ap (λ ws. x ∷ keep (λ y. not (y == x)) ws) e
          ∙ ap (λ ws. x ∷ ws) (keep-append (λ y. not (y == x)) (distinct xs) zs),
    )

rank-pos : (u : ℕ) (xs : List ℕ) → rank u xs ≢ some 0
rank-pos u [] h = cc
rank-pos u (x ∷ xs) h = ground arith

rank-injective : (u v : ℕ) (xs : List ℕ) → contains u xs ≡ true → rank u xs ≡ rank v xs → u ≡ v
rank-injective u v [] h e = absurd (ground arith)
rank-injective u v (x ∷ xs) h e =
    ground (arith, rank-injective u v xs, rank-pos u xs, rank-pos v xs, rank-contains u xs)

buyers_of-append : (xs ys : Table Bid) → buyers_of (xs ++ ys) ≡ buyers_of xs ++ buyers_of ys
buyers_of-append [] ys = refl
buyers_of-append ((i, bid) ∷ xs) ys = elim (Option-cases bid.buyer_id) [
  | inl gone ↦ rw gone (buyers_of-append xs ys)
  | inr (u, known) ↦ rw known (ap (λ zs. u ∷ zs) (buyers_of-append xs ys))
]

keep-on :
    (auction_id : ℕ) (xs ys : Table Bid)
    → keep (is_bid_on auction_id) (xs ++ ys)
      ≡ keep (is_bid_on auction_id) xs ++ keep (is_bid_on auction_id) ys
keep-on auction_id [] ys = refl
keep-on auction_id (x ∷ xs) ys = elim (Bool-cases (is_bid_on auction_id x)) [
  | inl kept ↦ rw kept (ap (λ zs. x ∷ zs) (keep-on auction_id xs ys))
  | inr left ↦ rw left (keep-on auction_id xs ys)
]

buyer-listed_more :
    (auction_id u i : ℕ) (bid : Bid) (bids : Table Bid)
    → contains u (buyers_of (keep (is_bid_on auction_id) bids)) ≡ true
    → contains u (buyers_of (keep (is_bid_on auction_id) ((i, bid) ∷ bids))) ≡ true
buyer-listed_more auction_id u i bid bids h = ground arith

-- The buyer of a bid on the auction is among its buyers.
buyer-listed :
    (auction_id u : ℕ) (bids : Table Bid) {r : ℕ × Bid}
    → Memᴰ r bids
    → is_bid_on auction_id r ≡ true
    → (r.1).buyer_id ≡ some u
    → contains u (buyers_of (keep (is_bid_on auction_id) bids)) ≡ true
buyer-listed auction_id u [] m on mine = elim m [ ]
buyer-listed auction_id u ((i, bid) ∷ bids) (Memᴰ.head e) on mine =
    let here : is_bid_on auction_id (i, bid) ≡ true =
      subst (λ s. is_bid_on auction_id s ≡ true) e on in
    let known : bid.buyer_id ≡ some u = subst (λ (s : ℕ × Bid). (s.1).buyer_id ≡ some u) e mine in
    rw here (rw known (ground arith))
buyer-listed auction_id u ((i, bid) ∷ bids) (Memᴰ.tail m) on mine =
    buyer-listed_more auction_id u i bid bids (buyer-listed auction_id u bids m on mine)

-- Later bids leave the place of a buyer who has bid.
rank_of-later :
    (auction_id u : ℕ) (bids later : Table Bid)
    → contains u (buyers_of (keep (is_bid_on auction_id) bids)) ≡ true
    → rank_of auction_id (bids ++ later) u ≡ rank_of auction_id bids u
unfolding rank_of
rank_of-later auction_id u bids later listed =
    let (zs, e) =
      distinct-append (buyers_of (keep (is_bid_on auction_id) bids))
        (buyers_of (keep (is_bid_on auction_id) later)) in
    ap (λ xs. rank u (distinct (buyers_of xs))) (keep-on auction_id bids later)
    ∙ ap (λ xs. rank u (distinct xs))
        (buyers_of-append (keep (is_bid_on auction_id) bids) (keep (is_bid_on auction_id) later))
    ∙ ap (rank u) e
    ∙ rank-append u (distinct (buyers_of (keep (is_bid_on auction_id) bids))) zs
        (contains-distinct u (buyers_of (keep (is_bid_on auction_id) bids)) ∙ listed)

rank_of-injective :
    (auction_id u v : ℕ) (bids : Table Bid)
    → contains u (buyers_of (keep (is_bid_on auction_id) bids)) ≡ true
    → rank_of auction_id bids u ≡ rank_of auction_id bids v
    → u ≡ v
unfolding rank_of
rank_of-injective auction_id u v bids listed =
    rank-injective u v (distinct (buyers_of (keep (is_bid_on auction_id) bids)))
      (contains-distinct u (buyers_of (keep (is_bid_on auction_id) bids)) ∙ listed)

-- The pseudonym of a bid's row in the history over these bids.
abbrev pub shown_name : ℕ → Table Bid → Option ℕ → ℕ × Bid → BuyerName
shown_name auction_id bids requester_id r =
    (bid_view (rank_of auction_id bids) requester_id r).buyer_name

name_iff :
    (place place' : ℕ → Option ℕ) (a b : Option ℕ)
    → ((u : ℕ) → a ≡ some u → place' u ≡ place u)
    → ((u v : ℕ) → a ≡ some u → place' u ≡ place' v → u ≡ v)
    → (buyer_name place a ≡ buyer_name place' b) ↔ (a ≡ b)
name_iff place place' none b later injective = ground arith
name_iff place place' (some u) none later injective = ground arith
name_iff place place' (some u) (some v) later injective =
    ground (arith, later u refl, injective u v refl)

mem-append : (bids later : Table Bid) {r : ℕ × Bid} → Memᴰ r bids → Memᴰ r (bids ++ later)
mem-append [] later m = elim m [ ]
mem-append (x ∷ bids) later (Memᴰ.head e) = Memᴰ.head e
mem-append (x ∷ bids) later (Memᴰ.tail m) = Memᴰ.tail (mem-append bids later m)

-- A bid of an auction, and any bid that is shown in its history then or later, are shown under one
-- name exactly when they have one buyer, or none of them has one any more: the names tell bidders
-- apart, and later bids do not change them.
pub shown_name_iff :
    (auction_id : ℕ) (requester_id : Option ℕ) (bids later : Table Bid) {r : ℕ × Bid} (s : ℕ × Bid)
    → Memᴰ r bids
    → is_bid_on auction_id r ≡ true
    → (shown_name auction_id bids requester_id r
        ≡ shown_name auction_id (bids ++ later) requester_id s)
      ↔ ((r.1).buyer_id ≡ (s.1).buyer_id)
unfolding bid_view
shown_name_iff auction_id requester_id bids later {r} s here on =
    name_iff (rank_of auction_id bids) (rank_of auction_id (bids ++ later)) (r.1).buyer_id
      (s.1).buyer_id
      (λ u mine.
        rank_of-later auction_id u bids later (buyer-listed auction_id u bids here on mine))
      (λ u v mine same.
        rank_of-injective auction_id u v (bids ++ later)
          (buyer-listed auction_id u (bids ++ later) (mem-append bids later here) on mine) same)
