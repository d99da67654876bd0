-- ===== src/Common/Lists.antt =====
-- Lists measured by native numbers, `All`, sums and filters.
use Prim.Native.Nat.{ℕ, suc, ◌+◌, ◌<◌}
use mathlib.Core.Path.{◌≡◌, refl, sym, subst}
use mathlib.Core.Bool.{Bool, true, false}
use mathlib.Core.List.{List, [], ◌∷◌, ◌++◌, Memᴰ}
use native.Mathlib.Omega.{arith}
use bidvault_backend.Common.Tests.{if◌then◌else◌, ◌==◌}

module _ {ℓ} {A : Type ℓ} where
  abbrev pub length : List A → ℕ
  length [] = 0
  length (x ∷ xs) = suc (length xs)

  -- Every element satisfies a predicate; computes to a product.
  abbrev pub All {κ} : (A → Type κ) → List A → Type κ
  All P [] = Unit
  All P (x ∷ xs) = P x × All P xs

  -- The rows that a Boolean test keeps.
  abbrev pub keep : (A → Bool) → List A → List A
  keep p [] = []
  keep p (x ∷ xs) = if p x then x ∷ keep p xs else keep p xs

  -- How many rows pass a test.
  abbrev pub count : (A → Bool) → List A → ℕ
  count p [] = 0
  count p (x ∷ xs) = (if p x then 1 else 0) + count p xs

  -- The sum of a column over the rows that pass a test.
  abbrev pub total : (A → Bool) → (A → ℕ) → List A → ℕ
  total p f [] = 0
  total p f (x ∷ xs) = (if p x then f x else 0) + total p f xs

  pub length-append : (xs ys : List A) → length (xs ++ ys) ≡ length xs + length ys
  length-append [] ys = omega arith
  length-append (x ∷ xs) ys = omega (arith, length-append xs ys)

  pub count-append : (p : A → Bool) (xs ys : List A) → count p (xs ++ ys) ≡ count p xs + count p ys
  count-append p [] ys = omega arith
  count-append p (x ∷ xs) ys = omega (arith, count-append p xs ys)

  pub total-append :
      (p : A → Bool) (f : A → ℕ) (xs ys : List A)
      → total p f (xs ++ ys) ≡ total p f xs + total p f ys
  total-append p f [] ys = omega arith
  total-append p f (x ∷ xs) ys = omega (arith, total-append p f xs ys)

  pub All-append {κ} : (P : A → Type κ) (xs ys : List A) → All P xs → All P ys → All P (xs ++ ys)
  All-append P [] ys hx hy = hy
  All-append P (x ∷ xs) ys hx hy = (hx.0, All-append P xs ys hx.1 hy)

  pub All-map {κ μ} :
      {P : A → Type κ} {Q : A → Type μ}
      → ((a : A) → P a → Q a)
      → (xs : List A) → All P xs
      → All Q xs
  All-map f [] h = tt
  All-map f (x ∷ xs) h = (f x h.0, All-map f xs h.1)

  pub All-mem {κ} : (P : A → Type κ) (xs : List A) {a : A} → All P xs → Memᴰ a xs → P a
  All-mem P [] h m = elim m [ ]
  All-mem P (x ∷ xs) h (Memᴰ.head e) = subst P (sym e) h.0
  All-mem P (x ∷ xs) h (Memᴰ.tail m) = All-mem P xs h.1 m

  pub count-pos : (p : A → Bool) (xs : List A) {a : A} → Memᴰ a xs → p a ≡ true → 0 < count p xs
  count-pos p [] m e = elim m [ ]
  count-pos p (x ∷ xs) (Memᴰ.head h) e =
      subst (λ y. p y ≡ true → 0 < count p (x ∷ xs)) (sym h) (λ f. rw f (omega arith)) e
  count-pos p (x ∷ xs) (Memᴰ.tail m) e = omega (arith, count-pos p xs m e)

  pub All-of_mem {κ} : (P : A → Type κ) (xs : List A) → ((a : A) → Memᴰ a xs → P a) → All P xs
  All-of_mem P [] h = tt
  All-of_mem P (x ∷ xs) h = (h x (Memᴰ.head refl), All-of_mem P xs (λ a m. h a (Memᴰ.tail m)))

-- Whether a number stands in a list: `Array.includes`, and SQL's `IN`.
abbrev pub contains : ℕ → List ℕ → Bool
contains a [] = false
contains a (x ∷ xs) = if x == a then true else contains a xs
