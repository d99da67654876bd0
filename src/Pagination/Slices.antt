-- ===== src/Pagination/Slices.antt =====
-- A list cut at a number of rows, and at its last row.
use bidvault_backend.Common.{
  ℕ, [], ◌∷◌, Table, length, ◌≡◌, ◌++◌, suc, ◌-◌, ◌≤◌, ap, min, zero, refl, some, arith,
}
use bidvault_backend.Pagination.{take, last}

module _ {ℓ} {V : Type ℓ} where
  abbrev pub drop : ℕ → Table V → Table V
  drop zero xs = xs
  drop (suc n) [] = []
  drop (suc n) (x ∷ xs) = drop n xs

  pub take-drop : (n : ℕ) (xs : Table V) → xs ≡ take n xs ++ drop n xs
  take-drop zero xs = refl
  take-drop (suc n) [] = refl
  take-drop (suc n) (x ∷ xs) = ap (λ ys. x ∷ ys) (take-drop n xs)

  pub take-take : (n : ℕ) (xs : Table V) → take n (take (suc n) xs) ≡ take n xs
  take-take zero xs = refl
  take-take (suc n) [] = refl
  take-take (suc n) (x ∷ xs) = ap (λ ys. x ∷ ys) (take-take n xs)

  pub length-take : (n : ℕ) (xs : Table V) → length (take n xs) ≡ min n (length xs)
  length-take zero xs = omega arith
  length-take (suc n) [] = omega arith
  length-take (suc n) (x ∷ xs) = omega (arith, length-take n xs)

  pub length-drop : (n : ℕ) (xs : Table V) → length (drop n xs) ≡ length xs - n
  length-drop zero xs = omega arith
  length-drop (suc n) [] = omega arith
  length-drop (suc n) (x ∷ xs) = omega (arith, length-drop n xs)

  pub take_all : (n : ℕ) (xs : Table V) → length xs ≤ n → take n xs ≡ xs
  take_all zero [] h = refl
  take_all zero (x ∷ xs) h = absurd (omega arith)
  take_all (suc n) [] h = refl
  take_all (suc n) (x ∷ xs) h = ap (λ ys. x ∷ ys) (take_all n xs (omega arith))

  -- A list with a row is its rows before the last, and the last.
  pub split_last :
      (x : ℕ × V) (xs : Table V)
      → (init : Table V) × (r : ℕ × V) × (x ∷ xs ≡ init ++ r ∷ []) × (last (x ∷ xs) ≡ some r)
  split_last x [] = ([], x, refl, refl)
  split_last x (y ∷ xs) =
      let (init, r, e, l) = split_last y xs in (x ∷ init, r, ap (λ ys. x ∷ ys) e, l)
