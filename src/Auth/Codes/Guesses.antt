-- ===== src/Auth/Codes/Guesses.antt =====
-- How often a code can be guessed, over any run of guesses one after the other.
use bidvault_backend.Common.{
  ℕ, [], ◌∷◌, Table, lookup, total, List, Bool, keep, ◌==◌, if◌then◌else◌, not, ◌≡◌, ◌-◌, ◌≤◌,
  is_some, none, ◌&&◌, arith, some, Option-cases, insert_new, is_none, refl, true, inl, ◌+◌, inr,
  total-insert, total-append, IsKeyed, Bool-cases, insert-IsKeyed,
}
use bidvault_backend.Auth.Codes.{
  guess, issue_code, max_otp_attempts, record_miss, is_usable, new_code, missed,
}
use bidvault_backend.Auth.{CodeQueries, OtpCode, AreCodeQueries}

abbrev is_open_code : ℕ → ℕ × OtpCode → Bool
is_open_code user_id (i, c) = c.user_id == user_id && is_none c.consumed_at

abbrev attempts_left : ℕ × OtpCode → ℕ
attempts_left (i, c) = max_otp_attempts - c.attempts

-- The wrong guesses that a user's open codes still allow.
abbrev pub budget : ℕ → Table OtpCode → ℕ
budget user_id t = total (is_open_code user_id) attempts_left t

-- How many of these guesses, each with its time, are compared with a code of the user, up to the
-- first that hits.
unfoldable pub compared : CodeQueries → ℕ → List (ℕ × ℕ) → Table OtpCode → ℕ
unfolding guess
compared q user_id [] t = 0
compared q user_id ((now, otp) ∷ gs) t =
    let (hit, t') = guess q now user_id otp t in
    let rest = compared q user_id gs t' in
    if is_some hit
    then 1
    else if is_some (q.latest (is_usable now user_id) t)
    then rest + 1
    else rest

record_miss-IsKeyed : (now i : ℕ) (t : Table OtpCode) → IsKeyed t → IsKeyed (record_miss now i t)
unfolding record_miss
record_miss-IsKeyed now i t keyed = elim (Option-cases (lookup i t)) [
  | inl e ↦ rw (e, record_miss) keyed
  | inr (c, e) ↦ elim (Bool-cases (is_none c.consumed_at)) [
    | inl f ↦ rw (e, f, record_miss) (insert-IsKeyed i (missed now c) t keyed)
    | inr f ↦ rw (e, f, record_miss) keyed
  ]
]

module _ {q : CodeQueries} (lawful : AreCodeQueries q) (user_id : ℕ) where
  miss_costs :
      (now i : ℕ) (c : OtpCode) (t : Table OtpCode)
      → lookup i t ≡ some c
      → is_usable now user_id c ≡ true
      → budget user_id (record_miss now i t) + 1 ≡ budget user_id t
  unfolding record_miss
  miss_costs now i c t found fits =
      ground (arith, total-insert (is_open_code user_id) attempts_left i (missed now c) c t found)

  pub compared-le-budget :
      (gs : List (ℕ × ℕ)) (t : Table OtpCode)
      → IsKeyed t
      → compared q user_id gs t ≤ budget user_id t
  unfolding compared
  compared-le-budget [] t keyed = omega arith
  compared-le-budget ((now, otp) ∷ gs) t keyed =
      elim (Option-cases (q.latest (is_usable now user_id) t)) [
        | inl nobody ↦ ground (arith, compared-le-budget gs t keyed)
        | inr ((i, c), e) ↦
            let (found, fits) = lawful.latest_some (is_usable now user_id) t keyed e in
            let cost = miss_costs now i c t found fits in
            ground (
              arith,
              compared-le-budget gs (record_miss now i t) (record_miss-IsKeyed now i t keyed),
            )
      ]

budget-keep :
    (user_id : ℕ) (t : Table OtpCode)
    → budget user_id (keep (λ (i, c). not (c.user_id == user_id && is_none c.consumed_at)) t) ≡ 0
budget-keep user_id [] = refl
budget-keep user_id ((i, c) ∷ t) = ground (arith, budget-keep user_id t)

lookup-keep-none :
    (p : ℕ × OtpCode → Bool) (i : ℕ) (t : Table OtpCode)
    → lookup i t ≡ none
    → lookup i (keep p t) ≡ none
unfolding lookup
lookup-keep-none p i [] h = refl
lookup-keep-none p i ((j, c) ∷ t) h = ground (arith, lookup-keep-none p i t)

keep-IsKeyed : (p : ℕ × OtpCode → Bool) (t : Table OtpCode) → IsKeyed t → IsKeyed (keep p t)
unfolding lookup
keep-IsKeyed p [] h = tt
keep-IsKeyed p ((j, c) ∷ t) h = ground (arith, keep-IsKeyed p t h.1, lookup-keep-none p j t)

-- After a code is issued to a user under a new id, at most five guesses are ever compared with a
-- code of that user, until one is right or another code is issued: whatever digits are tried,
-- however often, and whenever, one guess after the other.
pub guesses_bounded :
    {q : CodeQueries} (lawful : AreCodeQueries q) (now user_id code_id code : ℕ) (gs : List (ℕ × ℕ))
    (t : Table OtpCode)
    → IsKeyed t
    → lookup code_id t ≡ none
    → compared q user_id gs (issue_code now user_id code_id code t) ≤ 5
unfolding issue_code
guesses_bounded lawful now user_id code_id code gs t keyed fresh = omega (
  arith,
  compared-le-budget lawful user_id gs (issue_code now user_id code_id code t) (
      insert-IsKeyed code_id (new_code now user_id code)
        (keep (λ (i, c). not (c.user_id == user_id && is_none c.consumed_at)) t)
        (keep-IsKeyed (λ (i, c). not (c.user_id == user_id && is_none c.consumed_at)) t keyed)),
  budget-keep user_id t,
  issued_budget,
)
  where
    issued_budget : budget user_id (issue_code now user_id code_id code t) ≡ 5
    issued_budget =
        rw
          (insert_new code_id (new_code now user_id code)
            (keep (λ (i, c). not (c.user_id == user_id && is_none c.consumed_at)) t)
            (lookup-keep-none (λ (i, c). not (c.user_id == user_id && is_none c.consumed_at))
              code_id t fresh))
          (ground (
            arith,
            budget-keep user_id t,
            total-append (is_open_code user_id) attempts_left
                (keep (λ (i, c). not (c.user_id == user_id && is_none c.consumed_at)) t)
                ((code_id, new_code now user_id code) ∷ []),
          ))
