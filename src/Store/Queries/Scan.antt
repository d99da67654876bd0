-- ===== src/Store/Queries/Scan.antt =====
-- One way to answer the searches, by a scan of the table, with the proof that it is lawful: the
-- assumptions about the database can be met, and the examples run with it.
use bidvault_backend.Common.{
  not, ℕ, Bool, true, false, ◌&&◌, ◌≡◌, refl, subst, inl, inr, Option, none, some, List, [], ◌∷◌,
  Memᴰ, ltb, if◌then◌else◌, Table, All, All-map, arith, Bool-cases, contains,
}
use bidvault_backend.Store.Rows.{Bid}
use bidvault_backend.Store.Queries.{BidRow, BidQueries, IsLawful, outranks}

abbrev later : BidRow → BidRow → Bool
later a b = ltb b.1.created_at a.1.created_at

module _ (before : BidRow → BidRow → Bool) where
  abbrev better : BidRow → Option BidRow → BidRow
  better r none = r
  better r (some s) = if before s r then s else r

  abbrev scan : (BidRow → Bool) → Table Bid → Option BidRow
  scan p [] = none
  scan p (r ∷ t) = let rest = scan p t in if p r then some (better r rest) else rest

scan-none :
    (before : BidRow → BidRow → Bool) (p : BidRow → Bool) (t : Table Bid)
    → scan before p t ≡ none
    → All (λ r. p r ≡ false) t
scan-none before p [] h = tt
scan-none before p (r ∷ t) h = ground (arith, scan-none before p t)

abbrev IsFirst : (BidRow → BidRow → Bool) → (BidRow → Bool) → Table Bid → BidRow → Type 0
IsFirst before p t r = Memᴰ r t × (p r ≡ true) × All (λ s. p s ≡ true → before s r ≡ false) t

module _ (before : BidRow → BidRow → Bool)
    (asym : (a b : BidRow) → before a b ≡ true → before b a ≡ false)
    (through : (a b c : BidRow)
      → before a b ≡ false
      → before b c ≡ false
      → before a c ≡ false) where
  irrefl : (a : BidRow) → before a a ≡ false
  irrefl a = elim (Bool-cases (before a a)) [ inl e ↦ asym a a e | inr e ↦ e ]

  better-IsFirst :
      (p : BidRow → Bool) (x : BidRow) (t : Table Bid) (rest : Option BidRow)
      → (rest ≡ none → All (λ r. p r ≡ false) t)
      → ((s : BidRow) → rest ≡ some s → IsFirst before p t s)
      → p x ≡ true
      → IsFirst before p (x ∷ t) (better before x rest)
  better-IsFirst p x t none n f e =
      (Memᴰ.head refl, e, ((λ _. irrefl x), All-map (λ s unfit fit. cc) t (n refl)))
  better-IsFirst p x t (some s) n f e =
      let (m, fits, first) = f s refl in
      elim (Bool-cases (before s x)) [
        | inl b ↦
            subst (IsFirst before p (x ∷ t)) {x = s} {y = better before x (some s)} (rw b)
              (Memᴰ.tail m, fits, ((λ _. asym s x b), first))
        | inr b ↦ subst (IsFirst before p (x ∷ t)) {x = x} {y = better before x (some s)} (rw b) (
          Memᴰ.head refl,
          e,
          ((λ _. irrefl x), All-map (λ y h fit. through y s x (h fit) b) t first),
        )
      ]

  scan-some :
      (p : BidRow → Bool) (t : Table Bid) (r : BidRow)
      → scan before p t ≡ some r
      → IsFirst before p t r
  scan-some p [] r h = cc
  scan-some p (x ∷ t) r h = elim (Bool-cases (p x)) [
    | inl e ↦
        let same : better before x (scan before p t) ≡ r = ground arith in
        subst (IsFirst before p (x ∷ t)) same
          (better-IsFirst p x t (scan before p t) (scan-none before p t) (λ s. scan-some p t s) e)
    | inr e ↦
        let rest : scan before p t ≡ some r = ground arith in
        let (m, fits, first) = scan-some p t r rest in (Memᴰ.tail m, fits, ((λ fit. cc), first))
  ]

outranks_asym : (a b : BidRow) → outranks a b ≡ true → outranks b a ≡ false
outranks_asym a b h = ground arith

outranks_through :
    (a b c : BidRow) → outranks a b ≡ false → outranks b c ≡ false → outranks a c ≡ false
outranks_through a b c h k = ground arith

later_asym : (a b : BidRow) → later a b ≡ true → later b a ≡ false
later_asym a b h = ground arith

later_through : (a b c : BidRow) → later a b ≡ false → later b c ≡ false → later a c ≡ false
later_through a b c h k = ground arith

abbrev distinct_from : List ℕ → (BidRow → Bool) → Table Bid → List ℕ
distinct_from seen p [] = []
distinct_from seen p ((i, b) ∷ t) = elim b.buyer_id [
  | none ↦ distinct_from seen p t
  | some u ↦
      if p (i, b) && not (contains u seen)
      then u ∷ distinct_from (u ∷ seen) p t
      else distinct_from seen p t
]

abbrev pub scan_queries : BidQueries
scan_queries = record {
  top = scan outranks;
  latest = scan later;
  distinct_buyers = distinct_from [];
}

pub scan_queries-IsLawful : IsLawful scan_queries
scan_queries-IsLawful = record {
  top_none = scan-none outranks;
  top_some = λ p t {r} h. scan-some outranks outranks_asym outranks_through p t r h;
  latest_none = scan-none later;
  latest_some = λ p t {r} h. scan-some later later_asym later_through p t r h;
}
