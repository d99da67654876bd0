-- ===== src/Recovery/Overdue.antt =====
-- The sweep's query and the decision under the lock: the two halves of the payment deadline.
use bidvault_backend.Common.{
  ℕ, lookup, ◌≡◌, some, true, Option-cases, arith, ◌<◌, none, inl, ◌↔◌, ◌+◌, inr, insert, ◌*◌, ◌≢◌,
}
use bidvault_backend.Store.{Sale, World, TransactionStatus, Flow, next}
use bidvault_backend.Recovery.{
  overdue_where, void_overdue_payment, VoidOverdueAnswer, is_payment_overdue, voided_sale,
}
use bidvault_backend.Closing.{hour_ms}

-- A sale still waits for payment and its time has run out: at its own due date, or, where it has
-- none, so many hours after it was created.
pub record IsOverdue (now payment_deadline_hours : ℕ) (row : Sale) : Type 0 where
  pub waiting : row.status ≡ TransactionStatus.pending
  pub past_due : (due : ℕ) → row.payment_due_at ≡ some due → due < now
  pub past_default :
      row.payment_due_at ≡ none → row.created_at + payment_deadline_hours * hour_ms < now

pub late_of_where : (now h : ℕ) (row : Sale) → overdue_where now h row ≡ true → IsOverdue now h row
unfolding overdue_where
late_of_where now h row e = record {
  waiting = ground arith;
  past_due = λ due d. ground arith;
  past_default = λ d. ground arith;
}

pub where_of_late : (now h : ℕ) (row : Sale) → IsOverdue now h row → overdue_where now h row ≡ true
unfolding overdue_where
where_of_late now h row late = elim (Option-cases row.payment_due_at) [
  | inl no_date ↦ let past = late.past_default no_date in ground (arith, late.waiting)
  | inr (due, e) ↦ let past = late.past_due due e in ground (arith, late.waiting)
]

module _ (now payment_deadline_hours transaction_id : ℕ) (w : World) (row : Sale)
    (found : lookup transaction_id w.sales ≡ some row) where
  abbrev lapse : Flow VoidOverdueAnswer VoidOverdueAnswer × World
  lapse = void_overdue_payment now payment_deadline_hours transaction_id w

  lapse_where :
      (lapse.0 ≡ next VoidOverdueAnswer.ok) ↔ (overdue_where now payment_deadline_hours row ≡ true)
  unfolding void_overdue_payment overdue_where is_payment_overdue
  lapse_where = ((λ h. ground arith), λ h. ground arith)

  -- The sweep voids a sale exactly when it still waits for payment and is past its time; that is
  -- also exactly when the sweep's query lists it at the same moment. Only then does its row change,
  -- to VOIDED with no payment error.
  pub voided_iff :
      ((lapse.0 ≡ next VoidOverdueAnswer.ok) ↔ IsOverdue now payment_deadline_hours row)
      × ((overdue_where now payment_deadline_hours row ≡ true)
          ↔ IsOverdue now payment_deadline_hours row)
      × (lapse.0 ≡ next VoidOverdueAnswer.ok
          → lapse.1.sales ≡ insert transaction_id (voided_sale row) w.sales)
      × (lapse.0 ≢ next VoidOverdueAnswer.ok → lapse.1 ≡ w)
  unfolding void_overdue_payment
  voided_iff = (
    (
      (λ h. late_of_where now payment_deadline_hours row (lapse_where.0 h)),
      λ h. lapse_where.1 (where_of_late now payment_deadline_hours row h),
    ),
    (late_of_where now payment_deadline_hours row, where_of_late now payment_deadline_hours row),
    (λ h. ground arith),
    (λ h. ground arith),
  )
