-- ===== src/Sockets/Rate.antt =====
-- The rate that the token bucket allows.
use bidvault_backend.Common.{
  ℕ, [], ◌∷◌, List, ◌≤◌, ◌≡◌, if◌then◌else◌, arith, some, ◌+◌, ◌*◌, ◌-◌, Bool-cases, ltb, inl, inr,
  ◌/◌,
}
use bidvault_backend.Sockets.{
  consume_subscription_token, SubscriptionBucket, token, available, bucket_capacity,
}

-- How many of the calls, each at its time, are granted.
unfoldable pub granted : List ℕ → SubscriptionBucket → ℕ
granted [] bucket = 0
granted (now ∷ times) bucket =
    let (ok, bucket') = consume_subscription_token bucket now in
    (if ok then 1 else 0) + granted times bucket'

-- Times that do not go back, from a first one.
abbrev pub IsRising : ℕ → List ℕ → Type 0
IsRising from [] = Unit
IsRising from (now ∷ times) = (from ≤ now) × IsRising now times

abbrev pub end_of : ℕ → List ℕ → ℕ
end_of from [] = from
end_of from (now ∷ times) = end_of now times

consumed :
    (bucket : SubscriptionBucket) (from now stock : ℕ)
    → bucket.tokens ≡ some stock
    → bucket.refilled_at ≡ some from
    → from ≤ now
    → (stock' : ℕ) × ((consume_subscription_token bucket now).1.tokens ≡ some stock')
      × ((consume_subscription_token bucket now).1.refilled_at ≡ some now)
      × ((if (consume_subscription_token bucket now).0 then token else 0) + stock'
          ≤ stock + (now - from))
unfolding consume_subscription_token
consumed bucket from now stock e f rising = elim (Bool-cases (ltb (available bucket now) token)) [
  | inl poor ↦ (available bucket now, ground arith, ground arith, ground arith)
  | inr rich ↦ (available bucket now - token, ground arith, ground arith, ground arith)
]

end_of-le : (from : ℕ) (times : List ℕ) → IsRising from times → from ≤ end_of from times
end_of-le from [] h = omega arith
end_of-le from (now ∷ times) h = omega (arith, end_of-le now times h.1)

granted-le_stock :
    (times : List ℕ) (bucket : SubscriptionBucket) (from stock : ℕ)
    → bucket.tokens ≡ some stock
    → bucket.refilled_at ≡ some from
    → IsRising from times
    → granted times bucket * token ≤ stock + (end_of from times - from)
unfolding granted
granted-le_stock [] bucket from stock e f h = omega arith
granted-le_stock (now ∷ times) bucket from stock e f (first, rest) =
    let (stock', e', f', paid) = consumed bucket from now stock e f first in
    let later =
      granted-le_stock times (consume_subscription_token bucket now).1 now stock' e' f' rest in
    let reached = end_of-le now times rest in
    elim (Bool-cases (consume_subscription_token bucket now).0) [
      | inl ok ↦ ground arith
      | inr refused ↦ ground arith
    ]

first_call :
    (bucket : SubscriptionBucket) (now : ℕ)
    → (stock : ℕ) × ((consume_subscription_token bucket now).1.tokens ≡ some stock)
      × ((consume_subscription_token bucket now).1.refilled_at ≡ some now)
      × ((if (consume_subscription_token bucket now).0 then token else 0) + stock ≤ bucket_capacity)
unfolding consume_subscription_token
first_call bucket now = elim (Bool-cases (ltb (available bucket now) token)) [
  | inl poor ↦ (available bucket now, ground arith, ground arith, ground arith)
  | inr rich ↦ (available bucket now - token, ground arith, ground arith, ground arith)
]

-- From any state of the bucket, at times that do not go back, the commands that are granted are at
-- most fifty, and one more for each 1200 ms between the first and the last.
pub granted_bounded :
    (bucket : SubscriptionBucket) (start : ℕ) (times : List ℕ)
    → IsRising start times
    → granted (start ∷ times) bucket ≤ 50 + (end_of start times - start) / 1200
unfolding granted
granted_bounded bucket start times rising =
    let (stock, e, f, paid) = first_call bucket start in
    let later =
      granted-le_stock times (consume_subscription_token bucket start).1 start stock e f rising in
    elim (Bool-cases (consume_subscription_token bucket start).0) [
      | inl ok ↦ ground arith
      | inr refused ↦ ground arith
    ]
