-- ===== src/Pagination/Following.antt =====
-- Following the cursors reads every row once, in order.
use mathlib.Core.List.{append_assoc}
use bidvault_backend.Common.{
  ℕ, [], ◌∷◌, Bool, Table, All, length, ◌≡◌, ◌++◌, suc, ◌≤◌, ap, true, keep, zero, refl, some,
  arith, false, ◌<◌, none, Option, ltb, Bool-cases, inr, inl, ◌∙◌, subst, sym, List, ltb→lt,
}
use bidvault_backend.Pagination.{
  parse_limit, ParsedNumber, take, is_after, last, max_limit, cursor_of, CursorText, slice_page,
  IsCursorText, follow, decode_cursor, list_page,
}
use bidvault_backend.Pagination.Slices.{
  drop, take-drop, take-take, length-take, length-drop, take_all, split_last,
}

pub parse_limit_bounds :
    (raw : ParsedNumber) → (1 ≤ parse_limit raw) × (parse_limit raw ≤ max_limit)
unfolding parse_limit
parse_limit_bounds ParsedNumber.not_finite = omega arith
parse_limit_bounds ParsedNumber.not_positive = omega arith
parse_limit_bounds (ParsedNumber.positive floor) = omega arith

module _ {ℓ} {V : Type ℓ} where
  keep-All : (p : ℕ × V → Bool) (xs : Table V) → All (λ r. p r ≡ true) xs → keep p xs ≡ xs
  keep-All p [] h = refl
  keep-All p (x ∷ xs) h = rw (h.0) (ap (λ ys. x ∷ ys) (keep-All p xs h.1))

  All-true : (xs : Table V) → All (λ r. ◌≡◌ {A = Bool} true true) xs
  All-true [] = tt
  All-true (x ∷ xs) = (refl, All-true xs)

  module _ (sort_value : V → ℕ) (ascending : Bool) where
    -- The order of the query: each row comes after all rows that stand before it.
    abbrev pub IsOrdered : Table V → Type ℓ
    IsOrdered [] = Unit
    IsOrdered (r ∷ rows) =
        All (λ s. is_after sort_value ascending (some (cursor_of sort_value r)) s ≡ true) rows
        × IsOrdered rows

    -- The rows after the cursor of a row are those that follow it.
    keep_after :
        (before rest : Table V) (r : ℕ × V)
        → IsOrdered (before ++ r ∷ rest)
        → keep (is_after sort_value ascending (some (cursor_of sort_value r))) (before ++ r ∷ rest)
          ≡ rest
    keep_after [] rest (i, v) h =
        let same : is_after sort_value ascending (some (cursor_of sort_value (i, v))) (i, v)
            ≡ false =
          ground arith in
        rw same
          (keep-All (is_after sort_value ascending (some (cursor_of sort_value (i, v)))) rest h.0)
    keep_after ((j, w) ∷ before) rest (i, v) h =
        let later : is_after sort_value ascending (some (cursor_of sort_value (j, w))) (i, v)
            ≡ true =
          middle before h.0 in
        let earlier : is_after sort_value ascending (some (cursor_of sort_value (i, v))) (j, w)
            ≡ false =
          ground arith in
        rw earlier (keep_after before rest (i, v) h.1)
      where
        middle :
            (xs : Table V)
            → All
                (λ s. is_after sort_value ascending (some (cursor_of sort_value (j, w))) s ≡ true)
                (xs ++ (i, v) ∷ rest)
            → is_after sort_value ascending (some (cursor_of sort_value (j, w))) (i, v) ≡ true
        middle [] g = g.0
        middle (x ∷ xs) g = middle xs g.1

    module _ (text : CursorText) where
      page_last :
          (n : ℕ) (rest : Table V)
          → length rest ≤ n
          → slice_page sort_value text (take (suc n) rest) n ≡ (rest, none)
      unfolding slice_page
      page_last n rest short =
          let whole = take_all (suc n) rest (omega arith) in rw whole (ground arith)

      slice_more :
          (n : ℕ) (found page : Table V) (r : ℕ × V)
          → ltb n (length found) ≡ true
          → take n found ≡ page
          → last page ≡ some r
          → slice_page sort_value text found n ≡ (page, some (text.encode (cursor_of sort_value r)))
      unfolding slice_page
      slice_more n found page r more e l = rw (more, e, l) refl

      page_more :
          (n : ℕ) (rest : Table V)
          → 1 ≤ n
          → n < length rest
          → (init : Table V) × (r : ℕ × V) × (take n rest ≡ init ++ r ∷ [])
            × (slice_page sort_value text (take (suc n) rest) n
                ≡ (take n rest, some (text.encode (cursor_of sort_value r))))
      page_more zero rest some_row long = absurd (omega arith)
      page_more (suc n) [] some_row long = absurd (omega arith)
      page_more (suc n) (x ∷ rest) some_row long =
          let (init, r, e, l) = split_last x (take n rest) in
          (
            init,
            r,
            e,
            slice_more (suc n) (take (suc (suc n)) (x ∷ rest)) (x ∷ take n rest) r
                (ground (arith, length-take (suc (suc n)) (x ∷ rest)))
                (take-take (suc n) (x ∷ rest)) l,
          )

      module _ (lawful : IsCursorText text) (raw_limit : ParsedNumber) (rows : Table V)
          (ordered : IsOrdered rows) where
        page_of :
            (raw_cursor : Option (List ℕ)) (rest : Table V)
            → keep (is_after sort_value ascending (decode_cursor sort_value text raw_cursor)) rows
              ≡ rest
            → list_page sort_value ascending text raw_limit raw_cursor rows
              ≡ slice_page sort_value text
                  (take (suc (parse_limit raw_limit)) rest)
                  (parse_limit raw_limit)
        unfolding list_page
        page_of raw_cursor rest kept =
            ap
              (λ found.
                slice_page sort_value text (take (suc (parse_limit raw_limit)) found)
                  (parse_limit raw_limit))
              kept

        -- What stands after the last row of a page.
        next_kept :
            (before rest : Table V) (init : Table V) (r : ℕ × V)
            → rows ≡ before ++ rest
            → take (parse_limit raw_limit) rest ≡ init ++ r ∷ []
            → rows ≡ (before ++ init) ++ r ∷ drop (parse_limit raw_limit) rest
        next_kept before rest init r e page =
            e
            ∙ ap (λ ys. before ++ ys)
                (take-drop (parse_limit raw_limit) rest
                  ∙ ap (λ ys. ys ++ drop (parse_limit raw_limit) rest) page)
            ∙ simp append_assoc

        follow_last :
            (fuel : ℕ) (raw_cursor : Option (List ℕ)) (page : Table V)
            → list_page sort_value ascending text raw_limit raw_cursor rows ≡ (page, none)
            → follow sort_value ascending text raw_limit (suc fuel) raw_cursor rows ≡ some page
        unfolding follow
        follow_last fuel raw_cursor page e = ground arith

        follow_more :
            (fuel : ℕ) (raw_cursor : Option (List ℕ)) (c : List ℕ) (page more : Table V)
            → list_page sort_value ascending text raw_limit raw_cursor rows ≡ (page, some c)
            → follow sort_value ascending text raw_limit fuel (some c) rows ≡ some more
            → follow sort_value ascending text raw_limit (suc fuel) raw_cursor rows
              ≡ some (page ++ more)
        unfolding follow
        follow_more fuel raw_cursor c page more e later = ground arith

        follow_rest :
            (fuel : ℕ) (raw_cursor : Option (List ℕ)) (before rest : Table V)
            → rows ≡ before ++ rest
            → keep (is_after sort_value ascending (decode_cursor sort_value text raw_cursor)) rows
              ≡ rest
            → length rest < fuel
            → follow sort_value ascending text raw_limit fuel raw_cursor rows ≡ some rest
        follow_rest zero raw_cursor before rest e kept enough = absurd (omega arith)
        follow_rest (suc fuel) raw_cursor before rest e kept enough =
            elim (Bool-cases (ltb (parse_limit raw_limit) (length rest))) [
              | inr short ↦ follow_last fuel raw_cursor rest (
                  page_of raw_cursor rest kept
                  ∙ page_last (parse_limit raw_limit) rest (ground arith))
              | inl long ↦
                  let (positive_limit, _) = parse_limit_bounds raw_limit in
                  let (init, r, page, sliced) =
                    page_more (parse_limit raw_limit) rest positive_limit (ground arith) in
                  let split = next_kept before rest init r e page in
                  let later =
                    follow_rest fuel (some (text.encode (cursor_of sort_value r)))
                      (before ++ init ++ r ∷ []) (drop (parse_limit raw_limit) rest)
                      (split ∙ simp append_assoc)
                      (rw (lawful.decode_encode (cursor_of sort_value r), split)
                        (keep_after (before ++ init) (drop (parse_limit raw_limit) rest) r
                          (subst IsOrdered split ordered)))
                      (omega (
                        arith,
                        ltb→lt (parse_limit raw_limit) (length rest) long,
                        length-drop (parse_limit raw_limit) rest,
                      )) in
                  follow_more fuel raw_cursor (text.encode (cursor_of sort_value r))
                    (take (parse_limit raw_limit) rest) (drop (parse_limit raw_limit) rest)
                    (page_of raw_cursor rest kept ∙ sliced) later
                  ∙ ap some (sym (take-drop (parse_limit raw_limit) rest))
            ]

        -- A client that starts without a cursor and follows the cursor of each page reads every row
        -- of an ordered list once, in its order, whatever limit it asks for, and comes to a page
        -- without a cursor after at most one page more than there are rows.
        pub follow_all :
            (fuel : ℕ)
            → length rows < fuel
            → follow sort_value ascending text raw_limit fuel none rows ≡ some rows
        follow_all fuel enough =
            follow_rest fuel none [] rows refl (keep-All (λ r. true) rows (All-true rows)) enough
