-- ===== src/Auth/Codes/Disclosure.antt =====
-- What an answer tells of the accounts.
use bidvault_backend.Common.{ℕ, ◌≡◌, ◌+◌, ◌↔◌, is_some, true, Option-cases, inl, arith, inr}
use bidvault_backend.Auth.Codes.{forgot_password, CodeAnswer, otp_expiry_ms}
use bidvault_backend.Auth.{AuthStore, find_account}

-- POST /forgot-password answers that a code was sent, with its expiry, exactly when the address has
-- an account; where it has none, the answer is another.
pub forgot_tells :
    (now code_id code email : ℕ) (s : AuthStore)
    → ((forgot_password now code_id code email s).0 ≡ CodeAnswer.code_sent (now + otp_expiry_ms))
      ↔ (is_some (find_account email s) ≡ true)
unfolding forgot_password
forgot_tells now code_id code email s = elim (Option-cases (find_account email s)) [
  | inl e ↦ (λ h. absurd (ground arith), λ h. absurd (ground arith))
  | inr ((u, a), e) ↦ (λ h. ground arith, λ h. ground arith)
]
