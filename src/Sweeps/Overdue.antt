-- ===== src/Sweeps/Overdue.antt =====
-- The sweep of unpaid sales voids every sale that it lists, and no other.
use bidvault_backend.Common.{
  ℕ, [], ◌∷◌, lookup, List, Bool, ◌≡◌, some, none, true, Table, ◌≢◌, arith, false, ◌≤◌, contains,
  inl, ◌⊎◌, inr, lookup-insert_self, lookup-insert, insert, refl, Option-cases, Bool-cases, subst,
  ap, ◌==◌, sym,
}
use bidvault_backend.Sweeps.{for_each_sale, after_call_of_return, auto_void_overdue_payments}
use bidvault_backend.Recovery.{
  overdue_where, void_overdue_payment, voided_sale, VoidOverdueAnswer, ids_where,
  find_overdue_payments,
}
use bidvault_backend.Store.{World, Sale, Flow, threw}
use bidvault_backend.Recovery.Overdue.{voided_iff, IsOverdue, where_of_late, late_of_where}

module _ (now hours t : ℕ) (w : World) where
  abbrev one : Flow VoidOverdueAnswer VoidOverdueAnswer × World
  one = void_overdue_payment now hours t w

  one_missing : lookup t w.sales ≡ none → one.1.sales ≡ w.sales
  unfolding void_overdue_payment
  one_missing missing = ground arith

  one_returns : one.0 ≢ threw
  unfolding void_overdue_payment
  one_returns h = ground arith

  one_cases :
      (((row : Sale) → lookup t w.sales ≡ some row → overdue_where now hours row ≡ false)
        × (one.1.sales ≡ w.sales))
      ⊎ ((row : Sale) × (lookup t w.sales ≡ some row)
          × (overdue_where now hours row ≡ true)
          × (one.1.sales ≡ insert t (voided_sale row) w.sales))
  one_cases = elim (Option-cases (lookup t w.sales)) [
    | inl missing ↦ inl ((λ row found. absurd (ground arith)), one_missing missing)
    | inr (row, found) ↦
        let (done, listed, writes, same) = voided_iff now hours t w row found in
        elim (Bool-cases (overdue_where now hours row)) [
          | inl late ↦ inr (row, found, late, writes (done.1 (listed.0 late)))
          | inr early ↦ inl (
            (λ row' found'.
                let here : row ≡ row' = cc in
                subst (λ r. overdue_where now hours r ≡ false) here early),
            ap (λ v. v.sales) (same (λ h. absurd (ground (arith, listed.1 (done.0 h))))),
          )
        ]
  ]

  module _ (s : ℕ) (row : Sale) (found : lookup s w.sales ≡ some row) where
    one_keeps : overdue_where now hours row ≡ false → lookup s one.1.sales ≡ some row
    one_keeps early = elim one_cases [
      | inl (_, same) ↦ rw same found
      | inr (r, here, late, sales) ↦
          rw sales (ground (arith, lookup-insert t s (voided_sale r) w.sales))
    ]

    one_other : t ≢ s → lookup s one.1.sales ≡ some row
    one_other other = elim one_cases [
      | inl (_, same) ↦ rw same found
      | inr (r, here, late, sales) ↦
          rw sales (ground (arith, lookup-insert t s (voided_sale r) w.sales))
    ]

  one_voids :
      (row : Sale)
      → lookup t w.sales ≡ some row
      → overdue_where now hours row ≡ true
      → lookup t one.1.sales ≡ some (voided_sale row)
  one_voids row found late = elim one_cases [
    | inl (none_late, _) ↦ absurd (ground (arith, none_late row found))
    | inr (r, here, _, sales) ↦
        rw sales (ground (arith, lookup-insert_self t (voided_sale r) w.sales))
  ]

voided_not_due : (now hours : ℕ) (row : Sale) → overdue_where now hours (voided_sale row) ≡ false
unfolding overdue_where
voided_not_due now hours row = ground arith

due_later :
    (now later hours : ℕ) (row : Sale)
    → overdue_where now hours row ≡ true
    → now ≤ later
    → overdue_where later hours row ≡ true
unfolding overdue_where
due_later now later hours row late h = ground arith

contains-ids_where :
    (p : Sale → Bool) (s : ℕ) (row : Sale) (t : Table Sale)
    → lookup s t ≡ some row
    → p row ≡ true
    → contains s (ids_where p t) ≡ true
unfolding lookup
contains-ids_where p s row [] found h = absurd (ground arith)
contains-ids_where p s row ((k, v) ∷ t) found h = ground (arith, contains-ids_where p s row t)

module _ (clock : ℕ → ℕ) (hours : ℕ) where
  abbrev each : List ℕ → World → Bool × World
  each = for_each_sale (λ t. void_overdue_payment (clock t) hours t)

  each_step :
      (t : ℕ) (ts : List ℕ) (w : World)
      → each (t ∷ ts) w ≡ each ts (void_overdue_payment (clock t) hours t w).1
  unfolding for_each_sale
  each_step t ts w =
      let step = void_overdue_payment (clock t) hours t w in
      after_call_of_return step.0 (each ts step.1) step.1 (one_returns (clock t) hours t w)

  each_ends : (ts : List ℕ) (w : World) → (each ts w).0 ≡ true
  unfolding for_each_sale
  each_ends [] w = refl
  each_ends (t ∷ ts) w =
      rw (each_step t ts w) (each_ends ts (void_overdue_payment (clock t) hours t w).1)

  each_keeps :
      (ts : List ℕ) (w : World) (s : ℕ) (row : Sale)
      → lookup s w.sales ≡ some row
      → overdue_where (clock s) hours row ≡ false
      → lookup s (each ts w).1.sales ≡ some row
  unfolding for_each_sale
  each_keeps [] w s row found early = found
  each_keeps (t ∷ ts) w s row found early =
      let v = (void_overdue_payment (clock t) hours t w).1 in
      let after : lookup s v.sales ≡ some row = elim (Bool-cases (t == s)) [
        | inl same ↦
            let here : t ≡ s = ground arith in
            one_keeps (clock t) hours t w s row found (rw here early)
        | inr other ↦ one_other (clock t) hours t w s row found (ground arith)
      ] in
      subst (λ r. lookup s r.1.sales ≡ some row) (sym (each_step t ts w))
        (each_keeps ts v s row after early)

  each_voids :
      (ts : List ℕ) (w : World) (s : ℕ) (row : Sale)
      → lookup s w.sales ≡ some row
      → overdue_where (clock s) hours row ≡ true
      → contains s ts ≡ true
      → lookup s (each ts w).1.sales ≡ some (voided_sale row)
  each_voids [] w s row found late listed = absurd (ground arith)
  each_voids (t ∷ ts) w s row found late listed =
      let v = (void_overdue_payment (clock t) hours t w).1 in
      subst (λ r. lookup s r.1.sales ≡ some (voided_sale row)) (sym (each_step t ts w))
        (elim (Bool-cases (t == s)) [
          | inl same ↦
              let here : s ≡ t = ground arith in
              each_keeps ts v s (voided_sale row)
                (subst
                  (λ u.
                    lookup s (void_overdue_payment (clock u) hours u w).1.sales
                    ≡ some (voided_sale row))
                  here (one_voids (clock s) hours s w row found late))
                (voided_not_due (clock s) hours row)
          | inr other ↦
              each_voids ts v s row (one_other (clock t) hours t w s row found (ground arith)) late
                (ground arith)
        ])

-- The sweep of unpaid sales, each reached no earlier than the query ran, comes to the end of its
-- list. A sale that was past its payment time at the query is VOIDED after it, its payment error
-- cleared, and a sale that is not past its time when the sweep would reach it keeps its row.
pub auto_void_voids :
    (now : ℕ) (clock : ℕ → ℕ) (hours : ℕ) (w : World)
    → ((t : ℕ) → now ≤ clock t)
    → let swept = auto_void_overdue_payments now clock hours w in
      (swept.0 ≡ true)
      × ((t : ℕ) (row : Sale)
          → lookup t w.sales ≡ some row
          → (IsOverdue now hours row → lookup t swept.1.sales ≡ some (voided_sale row))
            × (¬ IsOverdue (clock t) hours row → lookup t swept.1.sales ≡ some row))
unfolding auto_void_overdue_payments find_overdue_payments
auto_void_voids now clock hours w in_time = (
  each_ends clock hours (find_overdue_payments now hours w) w,
  λ t row found. (
    (λ late.
        each_voids clock hours (find_overdue_payments now hours w) w t row found
          (due_later now (clock t) hours row (where_of_late now hours row late) (in_time t))
          (contains-ids_where (overdue_where now hours) t row w.sales found
            (where_of_late now hours row late))),
    λ early.
        each_keeps clock hours (find_overdue_payments now hours w) w t row found
          (elim (Bool-cases (overdue_where (clock t) hours row)) [
            | inl late ↦ absurd (early (late_of_where (clock t) hours row late))
            | inr quiet ↦ quiet
          ]),
  ),
)
