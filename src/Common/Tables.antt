-- ===== src/Common/Tables.antt =====
-- A database table: rows by primary key. Keys are only compared, so they are numbers.
use Prim.Native.Nat.{ℕ, ◌+◌, ◌≤◌}
use mathlib.Core.Bool.{Bool}
use bidvault_backend.Common.Lists.{count, total, length}
use mathlib.Core.Path.{◌≡◌, refl}
use mathlib.Core.Logic.{◌≢◌, ◌⊎◌}
use mathlib.Core.Option.{Option, none, some}
use mathlib.Core.List.{List, [], ◌∷◌, ◌++◌}
use native.Mathlib.Omega.{arith}
use bidvault_backend.Common.Tests.{if◌then◌else◌, ◌==◌, is_some}

abbrev pub Table {ℓ} : Type ℓ → Type ℓ
Table V = List (ℕ × V)

module _ {ℓ} {V : Type ℓ} where
  -- `findUnique({ where: { id } })`
  unfoldable pub lookup : ℕ → Table V → Option V
  lookup k [] = none
  lookup k ((j, v) ∷ t) = if j == k then some v else lookup k t

  -- `create` with a new key, `update` with an old one.
  unfoldable pub insert : ℕ → V → Table V → Table V
  insert k v [] = (k, v) ∷ []
  insert k v ((j, w) ∷ t) = if j == k then (k, v) ∷ t else (j, w) ∷ insert k v t

  pub lookup-insert :
      (k j : ℕ) (v : V) (t : Table V)
      → lookup j (insert k v t) ≡ (if k == j then some v else lookup j t)
  unfolding lookup insert
  lookup-insert k j v [] = ground arith
  lookup-insert k j v ((i, w) ∷ t) = ground (arith, lookup-insert k j v t)

  pub lookup-insert_self : (k : ℕ) (v : V) (t : Table V) → lookup k (insert k v t) ≡ some v
  lookup-insert_self k v t = ground (arith, lookup-insert k k v t)

  pub lookup-insert_ne :
      (k j : ℕ) (v : V) (t : Table V) → k ≢ j → lookup j (insert k v t) ≡ lookup j t
  lookup-insert_ne k j v t h = ground (arith, lookup-insert k j v t)

  -- A row with a new key comes last.
  pub insert_new :
      (k : ℕ) (v : V) (t : Table V) → lookup k t ≡ none → insert k v t ≡ t ++ (k, v) ∷ []
  unfolding lookup insert
  insert_new k v [] h = refl
  insert_new k v ((j, w) ∷ t) h = ground (arith, insert_new k v t)

  -- No key stands twice: a primary key.
  abbrev pub IsKeyed : Table V → Type ℓ
  IsKeyed [] = Unit
  IsKeyed ((k, v) ∷ t) = (lookup k t ≡ none) × IsKeyed t

  pub insert-IsKeyed : (k : ℕ) (v : V) (t : Table V) → IsKeyed t → IsKeyed (insert k v t)
  unfolding lookup insert
  insert-IsKeyed k v [] h = (refl, tt)
  insert-IsKeyed k v ((j, w) ∷ t) h =
      ground (arith, insert-IsKeyed k v t h.1, lookup-insert k j v t)

  -- `delete({ where: { id } })`
  unfoldable pub remove : ℕ → Table V → Table V
  remove k [] = []
  remove k ((j, v) ∷ t) = if j == k then remove k t else (j, v) ∷ remove k t

  pub lookup-remove :
      (k j : ℕ) (t : Table V) → lookup j (remove k t) ≡ (if k == j then none else lookup j t)
  unfolding lookup remove
  lookup-remove k j [] = ground arith
  lookup-remove k j ((i, w) ∷ t) = ground (arith, lookup-remove k j t)

  pub length-insert :
      (k : ℕ) (v : V) (t : Table V)
      → length (insert k v t) ≡ (if is_some (lookup k t) then length t else length t + 1)
  unfolding insert lookup
  length-insert k v [] = ground arith
  length-insert k v ((j, w) ∷ t) = ground (arith, length-insert k v t)

  pub length-remove :
      (k : ℕ) (t : Table V)
      → length (remove k t) + (if is_some (lookup k t) then 1 else 0) ≤ length t
  unfolding remove lookup
  length-remove k [] = ground arith
  length-remove k ((j, w) ∷ t) = ground (arith, length-remove k t)

  -- A write over an old row changes a count, and a sum, by the difference of the two rows.
  pub count-insert :
      (p : ℕ × V → Bool) (k : ℕ) (v old : V) (t : Table V)
      → lookup k t ≡ some old
      → count p (insert k v t) + (if p (k, old) then 1 else 0)
        ≡ count p t + (if p (k, v) then 1 else 0)
  unfolding lookup insert
  count-insert p k v old [] found = absurd (ground arith)
  count-insert p k v old ((j, w) ∷ t) found = ground (arith, count-insert p k v old t)

  pub total-insert :
      (p : ℕ × V → Bool) (f : ℕ × V → ℕ) (k : ℕ) (v old : V) (t : Table V)
      → lookup k t ≡ some old
      → total p f (insert k v t) + (if p (k, old) then f (k, old) else 0)
        ≡ total p f t + (if p (k, v) then f (k, v) else 0)
  unfolding lookup insert
  total-insert p f k v old [] found = absurd (ground arith)
  total-insert p f k v old ((j, w) ∷ t) found = ground (arith, total-insert p f k v old t)

module _ {V : Type 0} where
  -- What is found after a write: the row written, or another row that was there.
  pub insert_cases :
      (k j : ℕ) (v : V) (t : Table V) {r : V}
      → lookup j (insert k v t) ≡ some r
      → ((j ≡ k) × (r ≡ v)) ⊎ ((j ≢ k) × (lookup j t ≡ some r))
  insert_cases k j v t h = ground (arith, lookup-insert k j v t)
