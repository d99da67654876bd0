-- ===== src/Requests/Columns.antt =====
-- The amounts that are stored of accepted bodies fit their 32-bit columns.
use bidvault_backend.Listings.{ListingForm, new_listing, ListingAnswer}
use bidvault_backend.Common.{
  ℕ, Option, ◌≤◌, some, ◌≡◌, none, arith, Option-cases, inl, inr, refl, String, lookup, Bool, subst,
  sym, insert_cases,
}
use bidvault_backend.Requests.{
  ◌>>=◌, positive_int, max_money, RawNumber, optional, submit_listing_schema, SchemaRules,
  RawListing, listing_texts, listing_numbers, form_of, ListingNumbers,
}
use bidvault_backend.Store.{World, Auction, Listing, Flow}
use bidvault_backend.Store.Queries.{BidQueries}
use bidvault_backend.Listings.Moderation.{opened_auction, write_approval}
use bidvault_backend.Bidding.{max_stored_money, raised, place_bid}
use bidvault_backend.Bidding.Acceptance.{place_bid_cases}
use bidvault_backend.Listings.Approval.{approval_missing, approval_keeps, approval_opens}
use bidvault_backend.Recovery.Relist.{auction_of}

abbrev pub IsMoney : ℕ → Type 0
IsMoney n = (1 ≤ n) × (n ≤ max_money)

abbrev pub IsOptionalMoney : Option ℕ → Type 0
IsOptionalMoney none = Unit
IsOptionalMoney (some n) = IsMoney n

>>=-some {ℓ κ} :
    {A : Type ℓ} {B : Type κ} (m : Option A) (f : A → Option B) {b : B}
    → (m >>= f) ≡ some b
    → (a : A) × (m ≡ some a) × (f a ≡ some b)
>>=-some none f e = absurd (cc)
>>=-some (some a) f e = (a, refl, e)

some-injective : (f g : ListingForm) → ◌≡◌ {A = Option ListingForm} (some f) (some g) → f ≡ g
some-injective f g e = cc

positive_int-bounds :
    (limit : ℕ) (raw : RawNumber) {n : ℕ} → positive_int limit raw ≡ some n → (1 ≤ n) × (n ≤ limit)
unfolding positive_int
positive_int-bounds limit RawNumber.not_a_number e = ground arith
positive_int-bounds limit RawNumber.fractional e = ground arith
positive_int-bounds limit RawNumber.negative e = ground arith
positive_int-bounds limit (RawNumber.whole n) e = ground arith

optional-money :
    (raw : Option RawNumber) (reserve : Option ℕ)
    → optional (positive_int max_money) raw ≡ some reserve
    → IsOptionalMoney reserve
optional-money none none e = tt
optional-money none (some n) e = absurd (ground arith)
optional-money (some raw) none e = tt
optional-money (some raw) (some n) e = elim (Option-cases (positive_int max_money raw)) [
  | inl refused ↦ absurd (ground arith)
  | inr (m, fine) ↦ ground (arith, positive_int-bounds max_money raw fine)
]

-- The columns of an accepted form.
pub record FormFits (form : ListingForm) : Type 0 where
  pub start_price : IsMoney form.start_price
  pub min_increment : IsMoney form.min_increment
  pub reserve_price : IsOptionalMoney form.reserve_price
  pub duration : (1 ≤ form.duration_days) × (form.duration_days ≤ 30)

numbers-fit :
    (raw : RawListing) (n : ListingNumbers)
    → listing_numbers raw ≡ some n
    → IsMoney n.start_price
      × IsMoney n.min_increment
      × IsOptionalMoney n.reserve_price
      × (1 ≤ n.duration_days)
      × (n.duration_days ≤ 30)
unfolding listing_numbers
numbers-fit raw n e = elim (Option-cases (positive_int max_money raw.start_price)) [
  | inl refused ↦ absurd (ground arith)
  | inr (start_price, start) ↦
      elim (Option-cases (optional (positive_int max_money) raw.reserve_price)) [
        | inl refused ↦ absurd (ground arith)
        | inr (reserve_price, reserve) ↦
            elim (Option-cases (positive_int max_money raw.min_increment)) [
              | inl refused ↦ absurd (ground arith)
              | inr (min_increment, increment) ↦
                  elim (Option-cases (positive_int 30 raw.duration_days)) [
                    | inl refused ↦ absurd (ground arith)
                    | inr (duration_days, duration) ↦
                        let started : n.start_price ≡ start_price = ground arith in
                        let reserved : n.reserve_price ≡ reserve_price = ground arith in
                        let incremented : n.min_increment ≡ min_increment = ground arith in
                        let lasting : n.duration_days ≡ duration_days = ground arith in
                        (
                          rw started (positive_int-bounds max_money raw.start_price start),
                          rw incremented
                              (positive_int-bounds max_money raw.min_increment increment),
                          rw reserved (optional-money raw.reserve_price reserve_price reserve),
                          rw lasting ((positive_int-bounds 30 raw.duration_days duration).0),
                          rw lasting ((positive_int-bounds 30 raw.duration_days duration).1),
                        )
                  ]
            ]
      ]
]

schema-FormFits :
    (rules : SchemaRules) (raw : RawListing) (form : ListingForm)
    → submit_listing_schema rules raw ≡ some form
    → FormFits form
unfolding submit_listing_schema
schema-FormFits rules raw form e =
    let (texts, _, e') =
      >>=-some (listing_texts rules raw)
        (λ texts. listing_numbers raw >>= λ numbers. some (form_of rules raw texts numbers)) e in
    let (numbers, fine, e'') =
      >>=-some (listing_numbers raw) (λ numbers. some (form_of rules raw texts numbers)) e' in
    let (start, increment, reserve, low, high) = numbers-fit raw numbers fine in
    subst FormFits (some-injective _ _ e'') (record {
      start_price = start;
      min_increment = increment;
      reserve_price = reserve;
      duration = (low, high);
    })

-- The amounts of an auction.
pub record IsStorable (row : Auction) : Type 0 where
  pub start_price : IsMoney row.start_price
  pub min_increment : IsMoney row.min_increment
  pub reserve_price : IsOptionalMoney row.reserve_price
  pub current_bid : IsMoney row.current_bid

abbrev pub AreStorable : World → Type 0
AreStorable w =
    (auction_id : ℕ) (row : Auction) → lookup auction_id w.auctions ≡ some row → IsStorable row

-- Bids, and approvals of listings that were submitted by an accepted body, in any order.
pub data Trade (q : BidQueries) (rules : SchemaRules) (w : World) : World → Type 0 where
  none_yet : Trade q rules w w
  bids :
      {v : World}
      → Trade q rules w v
      → (live : Bool) (now bid_id auction_id buyer_id amount : ℕ)
      → Trade q rules w (place_bid q live now bid_id auction_id buyer_id amount v).1
  approves :
      {v : World}
      → Trade q rules w v
      → (now auction_id admin_user_id listing_id code seller_id : ℕ) (attributes : Option String)
        (raw : RawListing) (form : ListingForm)
      → submit_listing_schema rules raw ≡ some form
      → Trade q rules w
          (write_approval now auction_id admin_user_id listing_id
            (new_listing code seller_id form attributes)
            v).1

raised-IsStorable :
    (row : Auction) (amount : ℕ)
    → IsStorable row
    → row.current_bid ≤ amount
    → amount ≤ max_stored_money
    → IsStorable (raised row amount)
raised-IsStorable row amount h above below = record {
  start_price = h.start_price;
  min_increment = h.min_increment;
  reserve_price = h.reserve_price;
  current_bid = omega (arith, h.current_bid);
}

opened-IsStorable :
    (now listing_id code seller_id : ℕ) (attributes : Option String) (form : ListingForm)
    → FormFits form
    → IsStorable (opened_auction now listing_id (new_listing code seller_id form attributes))
opened-IsStorable now listing_id code seller_id attributes form fits = record {
  start_price = fits.start_price;
  min_increment = fits.min_increment;
  reserve_price = fits.reserve_price;
  current_bid = fits.start_price;
}

place_bid-AreStorable :
    (q : BidQueries) (live : Bool) (now bid_id auction_id buyer_id amount : ℕ) (w : World)
    → AreStorable w
    → AreStorable (place_bid q live now bid_id auction_id buyer_id amount w).1
place_bid-AreStorable q live now bid_id auction_id buyer_id amount w h =
    elim (place_bid_cases q live now bid_id auction_id buyer_id amount w) [
      | inl (_, same) ↦ subst AreStorable (sym same) h
      | inr (row, found, fine, _, auctions, _, _) ↦ λ a r e.
          elim (insert_cases auction_id a (raised row amount) w.auctions (rw auctions at e)) [
            | inl (ae, re) ↦ rw re (
                raised-IsStorable row amount (h auction_id row found)
                  (ground (arith, fine.first_bid, fine.later_bid)) fine.storable)
            | inr (ne, old) ↦ h a r old
          ]
    ]

approval-AreStorable :
    (now auction_id admin_user_id listing_id : ℕ) (listing : Listing) (w : World)
    → IsStorable (opened_auction now listing_id listing)
    → AreStorable w
    → AreStorable (write_approval now auction_id admin_user_id listing_id listing w).1
approval-AreStorable now auction_id admin_user_id listing_id listing w fits h =
    elim (Option-cases (lookup listing_id w.listings)) [
      | inl gone ↦
          subst (λ (r : Flow ListingAnswer (ℕ × Auction × Bool) × World). AreStorable (r.1))
            (sym (approval_missing now auction_id admin_user_id listing_id listing w gone)) h
      | inr (current, found) ↦ elim (Option-cases (auction_of listing_id w)) [
        | inr ((i, a), e) ↦
            let (_, auctions, _) =
              approval_keeps now auction_id admin_user_id listing_id listing w current found e in
            λ b r f. h b r (rw auctions at f)
        | inl e ↦
            let (_, auctions, _) =
              approval_opens now auction_id admin_user_id listing_id listing w current found e in
            λ b r f.
              elim (insert_cases auction_id b (opened_auction now listing_id listing) w.auctions
                (rw auctions at f)) [ inl (be, re) ↦ rw re fits | inr (ne, old) ↦ h b r old ]
      ]
    ]

-- Through any run of bids and of approvals of listings that were submitted by an accepted body, each
-- auction's start price, current bid, increment and reserve stay between 1 and 2,000,000,000, if
-- they were there at the start: they fit their 32-bit columns.
pub Trade-AreStorable :
    {q : BidQueries} {rules : SchemaRules} {w v : World}
    → Trade q rules w v
    → AreStorable w
    → AreStorable v
Trade-AreStorable none_yet h = h
Trade-AreStorable {q} (bids {v} t live now bid_id auction_id buyer_id amount) h =
    place_bid-AreStorable q live now bid_id auction_id buyer_id amount v (Trade-AreStorable t h)
Trade-AreStorable {q} {rules}
      (approves {v} t now auction_id admin_user_id listing_id code seller_id attributes raw form
        fine)
      h =
    approval-AreStorable now auction_id admin_user_id listing_id
      (new_listing code seller_id form attributes) v
      (opened-IsStorable now listing_id code seller_id attributes form
        (schema-FormFits rules raw form fine))
      (Trade-AreStorable t h)
