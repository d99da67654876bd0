-- ===== src/Search/Matching.antt =====
-- A search with an escaped term finds the texts that hold the term as it was typed.
use bidvault_backend.Common.{
  ℕ, [], ◌∷◌, Bool, List, true, ◌||◌, ◌≡◌, ◌++◌, false, ◌&&◌, ◌∙◌, Bool-cases, arith, inl, inr, ap,
}
use bidvault_backend.Search.{Like, IsLike, escape_like, percent, is_pattern_char}

-- Whether a text begins with a term, or holds it somewhere, character by character.
abbrev pub begins_with : (ℕ → ℕ → Bool) → List ℕ → List ℕ → Bool
begins_with same [] text = true
begins_with same (c ∷ term) [] = false
begins_with same (c ∷ term) (d ∷ text) = same c d && begins_with same term text

abbrev pub holds : (ℕ → ℕ → Bool) → List ℕ → List ℕ → Bool
holds same term [] = begins_with same term []
holds same term (d ∷ text) = begins_with same term (d ∷ text) || holds same term text

module _ (l : Like) (lawful : IsLike l) where
  like_any : (text : List ℕ) → l.like (percent ∷ []) text ≡ true
  like_any [] = lawful.like_percent_nil [] ∙ lawful.like_nil
  like_any (d ∷ text) = ground (arith, lawful.like_percent [] d text, like_any text)

  like_escape :
      (term text : List ℕ)
      → l.like (escape_like term ++ percent ∷ []) text ≡ begins_with l.same term text
  unfolding escape_like
  like_escape [] text = like_any text
  like_escape (c ∷ term) [] = elim (Bool-cases (is_pattern_char c)) [
    | inl special ↦ rw special (lawful.like_escaped_nil c (escape_like term ++ percent ∷ []))
    | inr plain ↦ rw plain (lawful.like_plain_nil c (escape_like term ++ percent ∷ []) plain)
  ]
  like_escape (c ∷ term) (d ∷ text) = elim (Bool-cases (is_pattern_char c)) [
    | inl special ↦ rw special (
        lawful.like_escaped c (escape_like term ++ percent ∷ []) d text
        ∙ ap (λ b. l.same c d && b) (like_escape term text))
    | inr plain ↦ rw plain (
        lawful.like_plain c (escape_like term ++ percent ∷ []) d text plain
        ∙ ap (λ b. l.same c d && b) (like_escape term text))
  ]

  like_holds :
      (term text : List ℕ)
      → l.like (percent ∷ (escape_like term ++ percent ∷ [])) text ≡ holds l.same term text
  like_holds term [] =
      lawful.like_percent_nil (escape_like term ++ percent ∷ []) ∙ like_escape term []
  like_holds term (d ∷ text) = ground (
    arith,
    lawful.like_percent (escape_like term ++ percent ∷ []) d text,
    like_escape term (d ∷ text),
    like_holds term text,
  )

  -- A search by the escaped term finds a text exactly when the text holds the typed term somewhere,
  -- with `%`, `_` and the backslash standing for themselves.
  pub contains-escape_like :
      (term text : List ℕ) → l.contains (escape_like term) text ≡ holds l.same term text
  contains-escape_like term text =
      lawful.contains_like (escape_like term) text ∙ like_holds term text
