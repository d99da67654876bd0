-- ===== src/Pagination.antt =====
-- Keyset pages: src/utils/pagination.ts, and the query that the list routes build with it, such as
-- GET /mine and GET /my-sales. `rows` are the rows of the query without its cursor, in its order; the
-- JSON and base64 text of a cursor, a list of characters, is a parameter.
pub mod Slices
pub mod Following
use bidvault_backend.Common.{
  ℕ, [], ◌∷◌, min, Table, ◌≡◌, Option, some, ltb, suc, max, Bool, ◌+◌, none, length, true, keep,
  zero, if◌then◌else◌, ◌||◌, ◌==◌, ◌&&◌, ◌++◌, List,
}

abbrev pub default_limit : ℕ
default_limit = 24

abbrev pub max_limit : ℕ
max_limit = 100

-- What `Number(raw)` gives: NaN or an infinity, a number that is not positive, or a positive one
-- with its floor.
pub data ParsedNumber : Type 0 where
  not_finite not_positive : ParsedNumber
  positive : (floor : ℕ) → ParsedNumber

unfoldable pub parse_limit : ParsedNumber → ℕ
parse_limit not_finite = default_limit
parse_limit not_positive = default_limit
parse_limit (positive floor) = min (max floor 1) max_limit

-- DecodedCursor; the sort value is a date.
pub record Cursor : Type 0 where
  pub sort_value : ℕ
  pub id : ℕ

-- `encodeCursor` and the parser in `decodeCursor`, which gives nothing for a malformed text.
pub record CursorText : Type 0 where
  pub encode : Cursor → List ℕ
  pub decode : List ℕ → Option Cursor

-- Base64 and JSON read back what they wrote.
pub record IsCursorText (text : CursorText) : Type 0 where
  pub decode_encode : (c : Cursor) → text.decode (text.encode c) ≡ some c

-- `[dir === 'asc' ? 'gt' : 'lt']`; the other routes have a fixed one of the two.
abbrev pub beyond : Bool → ℕ → ℕ → Bool
beyond ascending a b = if ascending then ltb b a else ltb a b

module _ {ℓ} {V : Type ℓ} where
  -- `rows.slice(0, limit)`
  abbrev pub take : ℕ → Table V → Table V
  take zero xs = []
  take (suc n) [] = []
  take (suc n) (x ∷ xs) = x ∷ take n xs

  -- `pageRows[pageRows.length - 1]`
  abbrev pub last : Table V → Option (ℕ × V)
  last [] = none
  last (x ∷ []) = some x
  last (x ∷ (y ∷ xs)) = last (y ∷ xs)

  module _ (sort_value : V → ℕ) where
    abbrev pub cursor_of : ℕ × V → Cursor
    cursor_of (i, v) = record { sort_value = sort_value v; id = i }

    unfoldable pub slice_page : CursorText → Table V → ℕ → Table V × Option (List ℕ)
    slice_page text rows limit =
        let has_more = ltb limit (length rows) in
        let page_rows = if has_more then take limit rows else rows in
        (
          page_rows,
          if has_more
              then elim (last page_rows) [ none ↦ none | some r ↦ some (text.encode (cursor_of r)) ]
              else none,
        )

    -- A malformed cursor is no cursor.
    abbrev pub decode_cursor : CursorText → Option (List ℕ) → Option Cursor
    decode_cursor text none = none
    decode_cursor text (some raw) = text.decode raw

    module _ (ascending : Bool) where
      -- `OR: [{ submittedAt: { lt: … } }, { submittedAt: …, id: { lt: … } }]`
      abbrev pub is_after : Option Cursor → ℕ × V → Bool
      is_after none r = true
      is_after (some c) (i, v) =
          beyond ascending (sort_value v) c.sort_value
          || (sort_value v == c.sort_value && beyond ascending i c.id)

      -- The body of a list route, `take: limit + 1` included.
      unfoldable pub list_page :
          CursorText → ParsedNumber → Option (List ℕ) → Table V → Table V × Option (List ℕ)
      unfolding slice_page
      list_page text raw_limit raw_cursor rows =
          let limit = parse_limit raw_limit in
          slice_page text (take (suc limit) (keep (is_after (decode_cursor text raw_cursor)) rows))
            limit

      -- A client that follows the cursors, for at most `fuel` pages.
      unfoldable pub follow :
          CursorText → ParsedNumber → ℕ → Option (List ℕ) → Table V → Option (Table V)
      follow text raw_limit zero raw_cursor rows = none
      follow text raw_limit (suc fuel) raw_cursor rows =
          let (page, next_cursor) = list_page text raw_limit raw_cursor rows in
          elim next_cursor [
            | none ↦ some page
            | some c ↦ elim (follow text raw_limit fuel (some c) rows) [
              | none ↦ none
              | some more ↦ some (page ++ more)
            ]
          ]
