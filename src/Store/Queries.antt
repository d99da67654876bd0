-- ===== src/Store/Queries.antt =====
-- The searches of the Bid table whose order or distinctness the database decides (`findFirst` with
-- `orderBy`, `distinct`). The database is not part of the repository, so they are a parameter,
-- with what Prisma and PostgreSQL document of them as laws.
pub mod Scan
use bidvault_backend.Common.{
  ℕ, Bool, true, false, ◌&&◌, ◌||◌, ◌≡◌, refl, Option, none, some, List, [], ◌∷◌, ◌++◌, Memᴰ, ◌==◌,
  ltb, if◌then◌else◌, Table, All, max, ◌≤◌, arith, All-map, subst, sym, count,
}
use bidvault_backend.Store.Rows.{Bid}

abbrev pub BidRow : Type 0
BidRow = ℕ × Bid

-- `orderBy: [{ amount: 'desc' }, { createdAt: 'asc' }, { id: 'asc' }]`: `a` comes before `b`.
abbrev pub outranks : BidRow → BidRow → Bool
outranks (i, a) (j, b) =
    ltb b.amount a.amount
    || (a.amount == b.amount
        && (ltb a.created_at b.created_at || (a.created_at == b.created_at && ltb i j)))

pub record BidQueries : Type 0 where
  -- `findFirst` in the order of `outranks`
  pub top : (BidRow → Bool) → Table Bid → Option BidRow
  -- `findFirst` with `orderBy: { createdAt: 'desc' }`
  pub latest : (BidRow → Bool) → Table Bid → Option BidRow
  -- `findMany` with `distinct: ['buyerId']` over the bids that have a buyer
  pub distinct_buyers : (BidRow → Bool) → Table Bid → List ℕ

-- A search answers nothing only where no row fits; what it answers is a row that fits, and no row
-- that fits comes before it.
pub record IsLawful (q : BidQueries) : Type 0 where
  pub top_none : (p : BidRow → Bool) (t : Table Bid) → q.top p t ≡ none → All (λ r. p r ≡ false) t
  pub top_some :
      (p : BidRow → Bool) (t : Table Bid) {r : BidRow}
      → q.top p t ≡ some r
      → Memᴰ r t × (p r ≡ true) × All (λ s. p s ≡ true → outranks s r ≡ false) t
  pub latest_none :
      (p : BidRow → Bool) (t : Table Bid) → q.latest p t ≡ none → All (λ r. p r ≡ false) t
  pub latest_some :
      (p : BidRow → Bool) (t : Table Bid) {r : BidRow}
      → q.latest p t ≡ some r
      → Memᴰ r t
        × (p r ≡ true)
        × All (λ s. p s ≡ true → ltb r.1.created_at s.1.created_at ≡ false) t

-- `max(amount)` over the rows that fit, and 0 where none does.
abbrev pub best : (BidRow → Bool) → Table Bid → ℕ
best p [] = 0
best p (r ∷ t) = max (if p r then r.1.amount else 0) (best p t)

pub best-append :
    (p : BidRow → Bool) (t u : Table Bid) → best p (t ++ u) ≡ max (best p t) (best p u)
best-append p [] u = omega arith
best-append p (r ∷ t) u = omega (arith, best-append p t u)

pub best-le :
    (p : BidRow → Bool) (n : ℕ) (t : Table Bid)
    → All (λ r. p r ≡ true → r.1.amount ≤ n) t
    → best p t ≤ n
best-le p n [] h = omega arith
best-le p n (r ∷ t) h = ground (arith, best-le p n t h.1)

best-head :
    (p : BidRow → Bool) (t : Table Bid) (s : BidRow) → p s ≡ true → s.1.amount ≤ best p (s ∷ t)
best-head p t s e = rw e (omega arith)

pub amount-le-best :
    (p : BidRow → Bool) (t : Table Bid) {r : BidRow} → Memᴰ r t → p r ≡ true → r.1.amount ≤ best p t
amount-le-best p [] m e = elim m [ ]
amount-le-best p (s ∷ t) (Memᴰ.head h) e =
    subst (λ x. p x ≡ true → x.1.amount ≤ best p (s ∷ t)) (sym h) (best-head p t s) e
amount-le-best p (s ∷ t) (Memᴰ.tail m) e = omega (arith, amount-le-best p t m e)

pub outranks-amount : (s r : BidRow) → outranks s r ≡ false → s.1.amount ≤ r.1.amount
outranks-amount s r h = ground arith

-- Without a row that fits the maximum is 0.
pub best_of_count : (p : BidRow → Bool) (bids : Table Bid) → count p bids ≡ 0 → best p bids ≡ 0
best_of_count p [] h = refl
best_of_count p (r ∷ bids) h = ground (arith, best_of_count p bids)

-- No row fits: the maximum is that of no row.
pub best_of_none : (p : BidRow → Bool) (t : Table Bid) → All (λ r. p r ≡ false) t → best p t ≡ 0
best_of_none p [] h = refl
best_of_none p (r ∷ t) h = rw h.0 (omega (arith, best_of_none p t h.1))

module _ {q : BidQueries} (lawful : IsLawful q) where
  -- The first row in the order has the largest amount.
  pub top-amount :
      (p : BidRow → Bool) (t : Table Bid) {r : BidRow} → q.top p t ≡ some r → r.1.amount ≡ best p t
  top-amount p t {r} e =
      let (m, fits, first) = lawful.top_some p t e in
      omega (
        arith,
        amount-le-best p t m fits,
        best-le p r.1.amount t (All-map (λ s h f. outranks-amount s r (h f)) t first),
      )
