-- ===== src/Auth/Cookies.antt =====
-- src/modules/auth/refresh-cookie.ts: the refresh token in a cookie. Texts are lists of character
-- codes. How Express writes a cookie's value is a parameter with what the code relies on.
pub mod RoundTrip
use bidvault_backend.Common.{
  ℕ, [], ◌∷◌, Bool, List, Option, ◌==◌, leb, none, some, String, true, if◌then◌else◌, All, false,
  ◌≡◌, ◌&&◌, ◌||◌, ◌*◌, text_eq, contains_text, trim,
}

-- `header.split(';')`: the first part, and the others.
abbrev pub split_first : ℕ → List ℕ → List ℕ × List (List ℕ)
split_first sep [] = ([], [])
split_first sep (c ∷ s) =
    let (part, parts) = split_first sep s in
    if c == sep then ([], part ∷ parts) else (c ∷ part, parts)

abbrev pub split : ℕ → List ℕ → List (List ℕ)
split sep s = let (part, parts) = split_first sep s in part ∷ parts

-- The text before and after the first `=`; `none` for an `indexOf` of -1.
abbrev pub cut : ℕ → List ℕ → Option (List ℕ × List ℕ)
cut sep [] = none
cut sep (c ∷ s) =
    if c == sep
    then some ([], s)
    else elim (cut sep s) [ none ↦ none | some (before, after) ↦ some (c ∷ before, after) ]

-- `bv_refresh`
abbrev pub refresh_cookie : List ℕ
refresh_cookie = 98 ∷ 118 ∷ 95 ∷ 114 ∷ 101 ∷ 102 ∷ 114 ∷ 101 ∷ 115 ∷ 104 ∷ []

-- `value || undefined`
abbrev pub non_empty : List ℕ → Option (List ℕ)
non_empty [] = none
non_empty (c ∷ s) = some (c ∷ s)

-- The loop over the parts of the header.
unfoldable pub read_parts : List (List ℕ) → Option (List ℕ)
read_parts [] = none
read_parts (part ∷ parts) =
    let rest = read_parts parts in
    elim (cut 61 part) [
      | none ↦ rest
      | some (name, value) ↦
          if text_eq (trim name) refresh_cookie then non_empty (trim value) else rest
    ]

unfoldable pub read_refresh_cookie : Option (List ℕ) → Option (List ℕ)
unfolding read_parts
read_refresh_cookie none = none
read_refresh_cookie (some []) = none
read_refresh_cookie (some (c ∷ header)) = read_parts (split 59 (c ∷ header))

-- The request's Origin against the configured origins.
unfoldable pub came_from_trusted_origin : List (List ℕ) → Option (List ℕ) → Bool
came_from_trusted_origin client_origins none = false
came_from_trusted_origin client_origins (some origin) = contains_text origin client_origins

-- `res.cookie` and `res.clearCookie`: the value that Express writes for a value that it is given.
pub record Express : Type 0 where
  pub cookie_value : List ℕ → List ℕ

-- The characters of a JWT: letters, digits, `-`, `_` and `.`.
abbrev pub is_jwt_char : ℕ → Bool
is_jwt_char c =
    c == 45
    || c == 46
    || c == 95
    || (leb 48 c && leb c 57)
    || (leb 65 c && leb c 90)
    || (leb 97 c && leb c 122)

-- Percent-encoding leaves the characters of a JWT as they are.
pub record IsExpress (express : Express) : Type 0 where
  pub value_kept :
      (value : List ℕ) → All (λ c. is_jwt_char c ≡ true) value → express.cookie_value value ≡ value

pub record SetCookie : Type 0 where
  pub name : List ℕ
  pub value : List ℕ
  pub http_only : Bool
  pub secure : Bool
  pub same_site_strict : Bool
  pub path : String
  pub max_age : Option ℕ

unfoldable pub set_refresh_cookie : Express → Bool → ℕ → List ℕ → Bool → SetCookie
set_refresh_cookie express cookie_secure expires_in_days token remember = record {
  name = refresh_cookie;
  value = express.cookie_value token;
  http_only = true;
  secure = cookie_secure;
  same_site_strict = true;
  path = "/api/v1/auth";
  max_age = if remember then some (expires_in_days * 24 * 60 * 60 * 1000) else none;
}
