-- ===== src/Auth/Cookies/RoundTrip.antt =====
-- The token that setRefreshCookie writes comes back from readRefreshCookie, in a header in the form of
-- RFC 6265: pairs of a name and a value, `name=value`, one after the other with `; ` between them.
use bidvault_backend.Common.{
  ℕ, [], ◌∷◌, Bool, All, List, ◌==◌, ◌&&◌, ◌++◌, ◌≡◌, not, false, true, refl, All-append, All-map,
  some, arith, ◌≤◌, length, ap, ◌∙◌, trim_kept, text_eq, is_space, trim,
}
use bidvault_backend.Auth.Cookies.{
  refresh_cookie, split, split_first, cut, read_refresh_cookie, SetCookie, is_jwt_char, Express,
  read_parts, non_empty, IsExpress, set_refresh_cookie,
}

pub record Cookie : Type 0 where
  pub name : List ℕ
  pub value : List ℕ

abbrev pub cookie_pair : Cookie → List ℕ
cookie_pair c = c.name ++ 61 ∷ c.value

abbrev pub more_pairs : List Cookie → List ℕ
more_pairs [] = []
more_pairs (c ∷ cookies) = 59 ∷ 32 ∷ (cookie_pair c ++ more_pairs cookies)

-- The header of a browser that holds these cookies.
abbrev pub cookie_string : List Cookie → List ℕ
cookie_string [] = []
cookie_string (c ∷ cookies) = cookie_pair c ++ more_pairs cookies

-- A character that may stand in the name and in the value of a cookie: no white space, no `;`; a name
-- has no `=` either.
abbrev pub is_value_char : ℕ → Bool
is_value_char c = not (is_space c) && not (c == 59)

abbrev pub is_name_char : ℕ → Bool
is_name_char c = is_value_char c && not (c == 61)

abbrev pub IsCookie : Cookie → Type 0
IsCookie c = All (λ x. is_name_char x ≡ true) c.name × All (λ x. is_value_char x ≡ true) c.value

abbrev pub IsOther : Cookie → Type 0
IsOther c = IsCookie c × (text_eq c.name refresh_cookie ≡ false)

-- The parts of the header.
abbrev parts : List Cookie → List (List ℕ)
parts [] = []
parts (c ∷ cookies) = (32 ∷ cookie_pair c) ∷ parts cookies

split_first-part :
    (s : List ℕ) (rest : List ℕ) (cookies : List (List ℕ))
    → All (λ x. (x == 59) ≡ false) s
    → split_first 59 rest ≡ ([], cookies)
    → split_first 59 (s ++ rest) ≡ (s, cookies)
split_first-part [] rest cookies clean e = e
split_first-part (c ∷ s) rest cookies clean e =
    rw (split_first-part s rest cookies clean.1 e, clean.0) refl

pair-clean : (c : Cookie) → IsCookie c → All (λ x. (x == 59) ≡ false) (cookie_pair c)
pair-clean c h =
    All-append (λ x. (x == 59) ≡ false) c.name (61 ∷ c.value)
      (All-map (λ x p. ground arith) c.name h.0) (refl, All-map (λ x p. ground arith) c.value h.1)

split_more :
    (cookies : List Cookie)
    → All IsCookie cookies
    → split_first 59 (more_pairs cookies) ≡ ([], parts cookies)
split_more [] h = refl
split_more (c ∷ cookies) h =
    rw
      (split_first-part (cookie_pair c) (more_pairs cookies) (parts cookies) (pair-clean c h.0)
        (split_more cookies h.1))
      refl

split-string :
    (c : Cookie) (cookies : List Cookie)
    → IsCookie c
    → All IsCookie cookies
    → split 59 (cookie_string (c ∷ cookies)) ≡ cookie_pair c ∷ parts cookies
split-string c cookies h hs =
    rw
      (split_first-part (cookie_pair c) (more_pairs cookies) (parts cookies) (pair-clean c h)
        (split_more cookies hs))
      refl

cut-pair :
    (s value : List ℕ) → All (λ x. (x == 61) ≡ false) s → cut 61 (s ++ 61 ∷ value) ≡ some (s, value)
cut-pair [] value clean = refl
cut-pair (c ∷ s) value clean = rw (clean.0, cut-pair s value clean.1) refl

name-unspaced : (c : Cookie) → IsCookie c → All (λ x. is_space x ≡ false) c.name
name-unspaced c h = All-map (λ x p. ground arith) c.name h.0

value-unspaced : (c : Cookie) → IsCookie c → All (λ x. is_space x ≡ false) c.value
value-unspaced c h = All-map (λ x p. ground arith) c.value h.1

name-uncut : (c : Cookie) → IsCookie c → All (λ x. (x == 61) ≡ false) c.name
name-uncut c h = All-map (λ x p. ground arith) c.name h.0

read_header : (header : List ℕ) → read_refresh_cookie (some header) ≡ read_parts (split 59 header)
unfolding read_refresh_cookie
read_header [] = refl
read_header (c ∷ header) = refl

read_other :
    (part name value : List ℕ) (rest : List (List ℕ))
    → cut 61 part ≡ some (name, value)
    → text_eq (trim name) refresh_cookie ≡ false
    → read_parts (part ∷ rest) ≡ read_parts rest
unfolding read_parts
read_other part name value rest e other = rw (e, read_parts) (rw other refl)

read_here :
    (part name value : List ℕ) (rest : List (List ℕ))
    → cut 61 part ≡ some (name, value)
    → text_eq (trim name) refresh_cookie ≡ true
    → read_parts (part ∷ rest) ≡ non_empty (trim value)
unfolding read_parts
read_here part name value rest e here = rw (e, read_parts) (rw here refl)

-- A pair that is not the first has a space before its name, which `trim` removes.
read_spaced :
    (before after : List Cookie) (c : Cookie)
    → All IsOther before
    → IsCookie c
    → text_eq c.name refresh_cookie ≡ true
    → read_parts (parts (before ++ c ∷ after)) ≡ non_empty c.value
read_spaced [] after c others h here =
    rw
      (read_here (32 ∷ cookie_pair c) (32 ∷ c.name) c.value (parts after)
        (cut-pair (32 ∷ c.name) c.value (refl, name-uncut c h))
        (rw (trim_kept c.name (name-unspaced c h)) here))
      (ap non_empty (trim_kept c.value (value-unspaced c h)))
read_spaced (o ∷ before) after c others h here =
    read_other (32 ∷ cookie_pair o) (32 ∷ o.name) o.value (parts (before ++ c ∷ after))
      (cut-pair (32 ∷ o.name) o.value (refl, name-uncut o others.0.0))
      (rw (trim_kept o.name (name-unspaced o others.0.0)) (others.0.1))
    ∙ read_spaced before after c others.1 h here

read_named :
    (before after : List Cookie) (c : Cookie)
    → All IsOther before
    → All IsCookie after
    → IsCookie c
    → text_eq c.name refresh_cookie ≡ true
    → read_refresh_cookie (some (cookie_string (before ++ c ∷ after))) ≡ non_empty c.value
read_named [] after c others rest h here =
    read_header (cookie_string (c ∷ after))
    ∙ ap read_parts (split-string c after h rest)
    ∙ read_here (cookie_pair c) c.name c.value (parts after)
        (cut-pair c.name c.value (name-uncut c h)) (rw (trim_kept c.name (name-unspaced c h)) here)
    ∙ ap non_empty (trim_kept c.value (value-unspaced c h))
read_named (o ∷ before) after c others rest h here =
    read_header (cookie_string (o ∷ (before ++ c ∷ after)))
    ∙ ap read_parts (
        split-string o (before ++ c ∷ after) others.0.0
          (All-append IsCookie before (c ∷ after) (All-map (λ x p. p.0) before others.1) (h, rest)))
    ∙ read_other (cookie_pair o) o.name o.value (parts (before ++ c ∷ after))
        (cut-pair o.name o.value (name-uncut o others.0.0))
        (rw (trim_kept o.name (name-unspaced o others.0.0)) (others.0.1))
    ∙ read_spaced before after c others.1 h here

-- The cookie that a browser keeps of a response.
abbrev pub stored : SetCookie → Cookie
stored s = record { name = s.name; value = s.value }

name-IsCookie : All (λ x. is_name_char x ≡ true) refresh_cookie
name-IsCookie = (refl, (refl, (refl, (refl, (refl, (refl, (refl, (refl, (refl, (refl, tt))))))))))

jwt-value : (c : ℕ) → is_jwt_char c ≡ true → is_value_char c ≡ true
jwt-value c h = ground arith

non_empty-kept : (s : List ℕ) → 1 ≤ length s → non_empty s ≡ some s
non_empty-kept [] h = absurd (omega arith)
non_empty-kept (c ∷ s) h = refl

module _ (express : Express) (lawful : IsExpress express) (secure : Bool) (days : ℕ)
    (remember : Bool) where
  set-IsCookie :
      (token : List ℕ)
      → All (λ c. is_jwt_char c ≡ true) token
      → IsCookie (stored (set_refresh_cookie express secure days token remember))
  unfolding set_refresh_cookie
  set-IsCookie token h = (name-IsCookie, rw (lawful.value_kept token h) (All-map jwt-value token h))

  -- The token that a response sets comes back from the next request's header, among any other
  -- cookies, remembered or not, if it is not empty and has the characters of a JWT, and if no cookie
  -- before it has its name.
  pub read-set :
      (token : List ℕ) (before after : List Cookie)
      → All IsOther before
      → All IsCookie after
      → All (λ c. is_jwt_char c ≡ true) token
      → 1 ≤ length token
      → read_refresh_cookie (
          some (
            cookie_string
              (before ++ stored (set_refresh_cookie express secure days token remember) ∷ after)))
        ≡ some token
  unfolding set_refresh_cookie
  read-set token before after others rest h full =
      read_named before after (stored (set_refresh_cookie express secure days token remember))
        others rest (set-IsCookie token h) refl
      ∙ ap non_empty (lawful.value_kept token h)
      ∙ non_empty-kept token full
