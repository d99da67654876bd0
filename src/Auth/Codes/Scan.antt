-- ===== src/Auth/Codes/Scan.antt =====
-- The latest code that fits, by a scan of the table, with the proof that it meets the laws: the
-- assumptions about the database can be met, and the examples run with it.
use bidvault_backend.Common.{
  ℕ, [], ◌∷◌, lookup, Option, Bool, some, Table, if◌then◌else◌, ◌≡◌, none, IsKeyed, All, leb, true,
  false, arith, Option-cases, inl, inr,
}
use bidvault_backend.Auth.{AreCodeQueries, CodeQueries, OtpCode}

abbrev newer : ℕ × OtpCode → Option (ℕ × OtpCode) → ℕ × OtpCode
newer r none = r
newer r (some s) = if leb s.1.created_at r.1.created_at then r else s

abbrev scan : (OtpCode → Bool) → Table OtpCode → Option (ℕ × OtpCode)
scan p [] = none
scan p ((i, c) ∷ t) = let rest = scan p t in if p c then some (newer (i, c) rest) else rest

abbrev pub scan_codes : CodeQueries
scan_codes = record { latest = scan }

scan-none : (p : OtpCode → Bool) (t : Table OtpCode) → scan p t ≡ none → All (λ r. p r.1 ≡ false) t
scan-none p [] h = tt
scan-none p ((i, c) ∷ t) h = ground (arith, scan-none p t)

scan-some :
    (p : OtpCode → Bool) (t : Table OtpCode) {i : ℕ} {c : OtpCode}
    → IsKeyed t
    → scan p t ≡ some (i, c)
    → (lookup i t ≡ some c) × (p c ≡ true)
unfolding lookup
scan-some p [] keyed h = absurd (ground arith)
scan-some p ((j, d) ∷ t) {i} {c} keyed h = elim (Option-cases (scan p t)) [
  | inl e ↦ ground arith
  | inr ((k, f), e) ↦ ground (arith, scan-some p t {i = k} {c = f} keyed.1 e)
]

pub scan_codes-AreCodeQueries : AreCodeQueries scan_codes
scan_codes-AreCodeQueries = record {
  latest_none = scan-none;
  latest_some = λ p t {i} {c} keyed h. scan-some p t {i = i} {c = c} keyed h;
}
