-- ===== src/Common/Texts.antt =====
-- Texts as lists of their code units: what `trim` removes, and equality.
use Prim.Native.Nat.{ℕ}
use mathlib.Core.Path.{◌≡◌, refl}
use mathlib.Core.Bool.{Bool, true, false, ◌&&◌, ◌||◌}
use mathlib.Core.List.{List, [], ◌∷◌}
use bidvault_backend.Common.Tests.{if◌then◌else◌, ◌==◌, leb}
use bidvault_backend.Common.Lists.{All}

-- The white space that `trim` removes.
abbrev pub is_space : ℕ → Bool
is_space c =
    (leb 9 c && leb c 13)
    || c == 32
    || c == 160
    || c == 5760
    || (leb 8192 c && leb c 8202)
    || c == 8232
    || c == 8233
    || c == 8239
    || c == 8287
    || c == 12288
    || c == 65279

abbrev pub trim_start : List ℕ → List ℕ
trim_start [] = []
trim_start (c ∷ s) = if is_space c then trim_start s else c ∷ s

abbrev pub trim_end : List ℕ → List ℕ
trim_end [] = []
trim_end (c ∷ s) = elim (trim_end s) [
  | [] ↦ if is_space c then [] else c ∷ []
  | (d ∷ t) ↦ c ∷ d ∷ t
]

abbrev pub trim : List ℕ → List ℕ
trim s = trim_end (trim_start s)

abbrev pub text_eq : List ℕ → List ℕ → Bool
text_eq [] [] = true
text_eq (c ∷ s) (d ∷ t) = c == d && text_eq s t
text_eq _ _ = false

abbrev pub contains_text : List ℕ → List (List ℕ) → Bool
contains_text s [] = false
contains_text s (t ∷ ts) = text_eq s t || contains_text s ts

trim_start_kept : (s : List ℕ) → All (λ x. is_space x ≡ false) s → trim_start s ≡ s
trim_start_kept [] h = refl
trim_start_kept (c ∷ s) h = rw (h.0) refl

trim_end_kept : (s : List ℕ) → All (λ x. is_space x ≡ false) s → trim_end s ≡ s
trim_end_kept [] h = refl
trim_end_kept (c ∷ []) h = rw (h.0) refl
trim_end_kept (c ∷ (d ∷ s)) h = rw (trim_end_kept (d ∷ s) h.1) refl

pub trim_kept : (s : List ℕ) → All (λ x. is_space x ≡ false) s → trim s ≡ s
trim_kept s h = rw (trim_start_kept s h, trim_end_kept s h) refl
