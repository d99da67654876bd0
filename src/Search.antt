-- ===== src/Search.antt =====
-- src/utils/escape-like.ts: a typed search term as a LIKE pattern. A text is a list of character
-- codes. PostgreSQL's LIKE and Prisma's `contains` are parameters with their documented laws.
pub mod Matching
use bidvault_backend.Common.{
  ℕ, [], ◌∷◌, ◌≡◌, Bool, List, ◌==◌, true, if◌then◌else◌, false, ◌||◌, ◌&&◌, ◌++◌,
}

abbrev pub percent : ℕ
percent = 37

abbrev pub backslash : ℕ
backslash = 92

abbrev pub underscore : ℕ
underscore = 95

-- `[\\%_]`
abbrev pub is_pattern_char : ℕ → Bool
is_pattern_char c = c == backslash || c == percent || c == underscore

unfoldable pub escape_like : List ℕ → List ℕ
escape_like [] = []
escape_like (c ∷ term) =
    if is_pattern_char c then backslash ∷ c ∷ escape_like term else c ∷ escape_like term

-- Whether a text matches a LIKE pattern, when two characters are the same (in any case, under
-- `mode: 'insensitive'`), and Prisma's `contains`.
pub record Like : Type 0 where
  pub same : ℕ → ℕ → Bool
  pub like : List ℕ → List ℕ → Bool
  pub contains : List ℕ → List ℕ → Bool

-- A pattern ends where the text ends; `%` takes any run of characters, `\` makes the next character
-- stand for itself, and so does a character that is none of `%`, `_` and `\`. Prisma puts the term
-- between two `%`.
pub record IsLike (l : Like) : Type 0 where
  pub like_nil : l.like [] [] ≡ true
  pub like_end : (d : ℕ) (text : List ℕ) → l.like [] (d ∷ text) ≡ false
  pub like_percent_nil : (pattern : List ℕ) → l.like (percent ∷ pattern) [] ≡ l.like pattern []
  pub like_percent :
      (pattern : List ℕ) (d : ℕ) (text : List ℕ)
      → l.like (percent ∷ pattern) (d ∷ text)
        ≡ (l.like pattern (d ∷ text) || l.like (percent ∷ pattern) text)
  pub like_escaped_nil : (c : ℕ) (pattern : List ℕ) → l.like (backslash ∷ c ∷ pattern) [] ≡ false
  pub like_escaped :
      (c : ℕ) (pattern : List ℕ) (d : ℕ) (text : List ℕ)
      → l.like (backslash ∷ c ∷ pattern) (d ∷ text) ≡ (l.same c d && l.like pattern text)
  pub like_plain_nil :
      (c : ℕ) (pattern : List ℕ) → is_pattern_char c ≡ false → l.like (c ∷ pattern) [] ≡ false
  pub like_plain :
      (c : ℕ) (pattern : List ℕ) (d : ℕ) (text : List ℕ)
      → is_pattern_char c ≡ false
      → l.like (c ∷ pattern) (d ∷ text) ≡ (l.same c d && l.like pattern text)
  pub contains_like :
      (term text : List ℕ) → l.contains term text ≡ l.like (percent ∷ (term ++ percent ∷ [])) text
