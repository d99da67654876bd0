-- ===== src/Scenarios/Pages.antt =====
-- Three listings in pages of two.
use bidvault_backend.Common.{ℕ, [], ◌∷◌, List, Table, false, Option, none, ◌≡◌, some, refl}
use bidvault_backend.Pagination.{
  IsCursorText, list_page, CursorText, ParsedNumber, Cursor, parse_limit,
}

abbrev pub demo_decode : List ℕ → Option Cursor
demo_decode (a ∷ (b ∷ [])) = some (record { sort_value = a; id = b })
demo_decode _ = none

abbrev pub demo_text : CursorText
demo_text = record { encode = λ c. c.sort_value ∷ c.id ∷ []; decode = demo_decode }

pub demo_text-IsCursorText : IsCursorText demo_text
demo_text-IsCursorText = record { decode_encode = λ c. refl }

-- Rows by id, with their dates; two of them have one date.
abbrev dated : Table ℕ
dated = (7, 300) ∷ (9, 200) ∷ (4, 200) ∷ []

-- The first page ends with a cursor that stands between the rows of one date.
first_page :
    list_page (λ (date : ℕ). date) false demo_text (ParsedNumber.positive 2) none dated
    ≡ ((7, 300) ∷ (9, 200) ∷ [], some (200 ∷ 9 ∷ []))
unfolding list_page parse_limit
first_page = refl
