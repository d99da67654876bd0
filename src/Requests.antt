-- ===== src/Requests.antt =====
-- src/openapi/requests.ts: the body of a submitted listing and of a bid, as the schemas accept them.
-- Texts are lists of code units; the URL, emoji and category tests are parameters.
pub mod Columns
use bidvault_backend.Listings.{ListingForm}
use bidvault_backend.Store.{ItemCondition}
use bidvault_backend.Common.{
  ℕ, [], ◌∷◌, Option, List, if◌then◌else◌, Bool, String, some, ltb, leb, none, ◌&&◌, length, trim,
}

-- MAX_MONEY
abbrev pub max_money : ℕ
max_money = 2000000000

-- What `Number(value)` gives: NaN, a number that is no integer, a negative integer, or a natural one.
pub data RawNumber : Type 0 where
  not_a_number fractional negative : RawNumber
  whole : (n : ℕ) → RawNumber

-- `z.coerce.number().int().positive().max(limit)`
unfoldable pub positive_int : ℕ → RawNumber → Option ℕ
positive_int limit (whole n) = if ltb 0 n && leb n limit then some n else none
positive_int limit not_a_number = none
positive_int limit fractional = none
positive_int limit negative = none

-- `.optional()`; the outer `none` is a refusal.
abbrev pub optional {ℓ κ} :
    {A : Type ℓ} {B : Type κ} → (A → Option B) → Option A → Option (Option B)
optional check none = some none
optional check (some a) = elim (check a) [ none ↦ none | some b ↦ some (some b) ]

-- `z.string().trim().min(low).max(high)`
unfoldable pub trimmed_text : ℕ → ℕ → List ℕ → Option (List ℕ)
trimmed_text low high raw =
    if leb low (length (trim raw)) && leb (length (trim raw)) high then some (trim raw) else none

pub record SchemaRules : Type 0 where
  pub as_text : List ℕ → String
  pub is_category : List ℕ → Bool
  pub is_image_url : List ℕ → Bool
  pub is_emoji : List ℕ → Bool

abbrev passed : (List ℕ → Bool) → List ℕ → Option (List ℕ)
passed test raw = if test raw then some raw else none

pub record RawListing : Type 0 where
  pub title : List ℕ
  pub category : List ℕ
  pub condition : Option ItemCondition
  pub description : List ℕ
  pub start_price : RawNumber
  pub reserve_price : Option RawNumber
  pub min_increment : RawNumber
  pub duration_days : RawNumber
  pub image_url : Option (List ℕ)
  pub emoji : Option (List ℕ)
  pub attributes : Option String

infixl 5 ◌>>=◌
abbrev pub ◌>>=◌ {ℓ κ} : {A : Type ℓ} {B : Type κ} → Option A → (A → Option B) → Option B
none >>= f = none
some a >>= f = f a

-- The fields of submitListingSchema that are numbers, and the others.
pub record ListingNumbers : Type 0 where
  pub start_price : ℕ
  pub reserve_price : Option ℕ
  pub min_increment : ℕ
  pub duration_days : ℕ

pub record ListingTexts : Type 0 where
  pub title : List ℕ
  pub category : List ℕ
  pub condition : ItemCondition
  pub description : List ℕ
  pub image_url : Option (List ℕ)
  pub emoji : Option (List ℕ)

unfoldable pub listing_numbers : RawListing → Option ListingNumbers
listing_numbers raw = do
  start_price ← positive_int max_money raw.start_price
  reserve_price ← optional (positive_int max_money) raw.reserve_price
  min_increment ← positive_int max_money raw.min_increment
  duration_days ← positive_int 30 raw.duration_days
  some (record {
    start_price = start_price;
    reserve_price = reserve_price;
    min_increment = min_increment;
    duration_days = duration_days;
  })

unfoldable pub listing_texts : SchemaRules → RawListing → Option ListingTexts
unfolding trimmed_text
listing_texts rules raw = do
  title ← trimmed_text 3 150 raw.title
  category ← passed rules.is_category raw.category
  condition ← raw.condition
  description ← trimmed_text 10 5000 raw.description
  image_url ← optional (passed rules.is_image_url) raw.image_url
  emoji ← optional (passed rules.is_emoji) raw.emoji
  some (record {
    title = title;
    category = category;
    condition = condition;
    description = description;
    image_url = image_url;
    emoji = emoji;
  })

abbrev pub form_of : SchemaRules → RawListing → ListingTexts → ListingNumbers → ListingForm
form_of rules raw texts numbers = record {
  title = rules.as_text texts.title;
  category = rules.as_text texts.category;
  condition = texts.condition;
  description = rules.as_text texts.description;
  start_price = numbers.start_price;
  reserve_price = numbers.reserve_price;
  min_increment = numbers.min_increment;
  duration_days = numbers.duration_days;
  image_url = elim texts.image_url [ none ↦ none | some u ↦ some (rules.as_text u) ];
  emoji = elim texts.emoji [ none ↦ none | some e ↦ some (rules.as_text e) ];
  attributes = raw.attributes;
}

-- submitListingSchema
unfoldable pub submit_listing_schema : SchemaRules → RawListing → Option ListingForm
unfolding listing_numbers listing_texts
submit_listing_schema rules raw = do
  texts ← listing_texts rules raw
  numbers ← listing_numbers raw
  some (form_of rules raw texts numbers)

-- placeBidSchema
unfoldable pub place_bid_schema : RawNumber → Option ℕ
unfolding positive_int
place_bid_schema raw = positive_int max_money raw
