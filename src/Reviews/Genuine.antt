-- ===== src/Reviews/Genuine.antt =====
-- Reviews against sales, over one route.
use bidvault_backend.Common.{
  [], ◌∷◌, ℕ, ◌≡◌, Option, String, lookup, none, some, Option-cases, false, inl, inr, true,
  Bool-cases, ◌==◌, insert, ◌&&◌, remove, not, arith, refl, subst, Table, insert_cases, sym,
  is_some, ◌∙◌, lookup-remove, ◌⊎◌, ◌≢◌,
}
use bidvault_backend.Reviews.{
  create_review, ReviewState, Review, is_reviewed, new_review, reply_to_review, edit_review,
  delete_review, is_past_window, replied_review, edited_review,
}
use bidvault_backend.Store.{Sale, TransactionStatus, is_sale_delivered, find_by}

-- Each review is about a DELIVERED sale, by its winner and about its seller, and no sale has two.
pub record AreGenuine (s : ReviewState) : Type 0 where
  pub of_sale :
      (i : ℕ) (r : Review)
      → lookup i s.reviews ≡ some r
      → (sale : Sale) × (lookup r.transaction_id s.world.sales ≡ some sale)
        × (sale.status ≡ TransactionStatus.delivered)
        × (sale.winner_id ≡ r.buyer_id)
        × (sale.seller_id ≡ r.seller_id)
  pub once :
      (i j : ℕ) (r r' : Review)
      → lookup i s.reviews ≡ some r
      → lookup j s.reviews ≡ some r'
      → r.transaction_id ≡ r'.transaction_id
      → i ≡ j

-- What one route does.
pub data ReviewStep (s s' : ReviewState) : Type 0 where
  kept : s' ≡ s → ReviewStep s s'
  added :
      (id t : ℕ) (r : Review) (sale : Sale)
      → lookup id s.reviews ≡ none
      → is_reviewed t s ≡ false
      → r.transaction_id ≡ t
      → lookup t s.world.sales ≡ some sale
      → is_sale_delivered sale.status ≡ true
      → sale.winner_id ≡ r.buyer_id
      → sale.seller_id ≡ r.seller_id
      → s'.reviews ≡ insert id r s.reviews
      → s'.world ≡ s.world
      → ReviewStep s s'
  changed :
      (id : ℕ) (r r' : Review)
      → lookup id s.reviews ≡ some r
      → r'.transaction_id ≡ r.transaction_id
      → r'.buyer_id ≡ r.buyer_id
      → r'.seller_id ≡ r.seller_id
      → s'.reviews ≡ insert id r' s.reviews
      → s'.world ≡ s.world
      → ReviewStep s s'
  dropped : (id : ℕ) → s'.reviews ≡ remove id s.reviews → s'.world ≡ s.world → ReviewStep s s'

pub create-ReviewStep :
    (now id t buyer_id stars : ℕ) (comment : Option String) (s : ReviewState)
    → lookup id s.reviews ≡ none
    → ReviewStep s (create_review now id t buyer_id stars comment s).1
unfolding create_review
create-ReviewStep now id t buyer_id stars comment s fresh =
    elim (Option-cases (lookup t s.world.sales)) [
      | inl e ↦ rw (e, create_review) (kept refl)
      | inr (sale, e) ↦
          elim (Bool-cases (
            sale.winner_id == buyer_id && is_sale_delivered sale.status && not (is_reviewed t s))) [
              | inl fine ↦
                  added id t (new_review now t sale stars comment) sale fresh (ground arith) refl e
                    (ground arith) refl refl (ground arith) (ground arith)
              | inr other ↦ kept (ground arith)
            ]
    ]

pub edit-ReviewStep :
    (now hours id user_id : ℕ) (stars : Option ℕ) (comment : Option (Option String))
    (s : ReviewState)
    → ReviewStep s (edit_review now hours id user_id stars comment s).1
unfolding edit_review
edit-ReviewStep now hours id user_id stars comment s = elim (Option-cases (lookup id s.reviews)) [
  | inl e ↦ rw (e, edit_review) (kept refl)
  | inr (r, e) ↦ elim (Bool-cases (r.buyer_id == user_id && not (is_past_window now hours r))) [
    | inl fine ↦
        changed id r (edited_review now stars comment r) e refl refl refl (ground arith)
          (ground arith)
    | inr other ↦ kept (ground arith)
  ]
]

pub delete-ReviewStep :
    (now hours id user_id : ℕ) (s : ReviewState)
    → ReviewStep s (delete_review now hours id user_id s).1
unfolding delete_review
delete-ReviewStep now hours id user_id s = elim (Option-cases (lookup id s.reviews)) [
  | inl e ↦ rw (e, delete_review) (kept refl)
  | inr (r, e) ↦ elim (Bool-cases (r.buyer_id == user_id && not (is_past_window now hours r))) [
    | inl fine ↦ dropped id (ground arith) (ground arith)
    | inr other ↦ kept (ground arith)
  ]
]

pub reply-ReviewStep :
    (now id user_id : ℕ) (reply : String) (s : ReviewState)
    → ReviewStep s (reply_to_review now id user_id reply s).1
unfolding reply_to_review
reply-ReviewStep now id user_id reply s = elim (Option-cases (lookup id s.reviews)) [
  | inl e ↦ rw (e, reply_to_review) (kept refl)
  | inr (r, e) ↦ elim (Bool-cases (r.seller_id == user_id && not (is_some r.seller_reply))) [
    | inl fine ↦
        changed id r (replied_review now reply r) e refl refl refl (ground arith) (ground arith)
    | inr other ↦ kept (ground arith)
  ]
]

unreviewed :
    (t i : ℕ) (r : Review) (rows : Table Review)
    → is_some (find_by (λ (x : Review). x.transaction_id == t) rows) ≡ false
    → lookup i rows ≡ some r
    → (r.transaction_id == t) ≡ false
unfolding lookup
unreviewed t i r [] h found = absurd (ground arith)
unreviewed t i r ((j, x) ∷ rows) h found = ground (arith, unreviewed t i r rows)

placed :
    (id i : ℕ) (new r : Review) (rows rows' : Table Review)
    → rows' ≡ insert id new rows
    → lookup i rows' ≡ some r
    → ((i ≡ id) × (r ≡ new)) ⊎ ((i ≢ id) × (lookup i rows ≡ some r))
placed id i new r rows rows' e h =
    insert_cases id i new rows (subst (λ (x : Table Review). lookup i x ≡ some r) e h)

module _ (s s' : ReviewState) (good : AreGenuine s) where
  step_sale :
      ReviewStep s s'
      → (i : ℕ) (r : Review) → lookup i s'.reviews ≡ some r
      → (sale : Sale) × (lookup r.transaction_id s'.world.sales ≡ some sale)
        × (sale.status ≡ TransactionStatus.delivered)
        × (sale.winner_id ≡ r.buyer_id)
        × (sale.seller_id ≡ r.seller_id)
  step_sale (kept e) i r h =
      subst
        (λ (x : ReviewState).
          lookup i x.reviews ≡ some r
          → (sale : Sale) × (lookup r.transaction_id x.world.sales ≡ some sale)
            × (sale.status ≡ TransactionStatus.delivered)
            × (sale.winner_id ≡ r.buyer_id)
            × (sale.seller_id ≡ r.seller_id))
        (sym e) (good.of_sale i r) h
  step_sale (added id t new sale fresh unseen about sold done buyer seller rows same) i r h =
      rw same (elim (placed id i new r s.reviews s'.reviews rows h) [
        | inl (here, e) ↦ (sale, ground arith, ground arith, ground arith, ground arith)
        | inr (ne, old) ↦ good.of_sale i r old
      ])
  step_sale (changed id old new found t b u rows same) i r h =
      let (sale, sold, done, buyer, seller) = good.of_sale id old found in
      rw same (elim (placed id i new r s.reviews s'.reviews rows h) [
        | inl (here, e) ↦ (sale, ground arith, done, ground arith, ground arith)
        | inr (ne, was) ↦ good.of_sale i r was
      ])
  step_sale (dropped id rows same) i r h =
      rw same (good.of_sale i r (ground (arith, lookup-remove id i s.reviews)))

  step_once :
      ReviewStep s s'
      → (i j : ℕ) (r r' : Review) → lookup i s'.reviews ≡ some r
      → lookup j s'.reviews ≡ some r'
      → r.transaction_id ≡ r'.transaction_id
      → i ≡ j
  step_once (kept e) i j r r' h h' same =
      good.once i j r r' (subst (λ (x : ReviewState). lookup i x.reviews ≡ some r) e h)
        (subst (λ (x : ReviewState). lookup j x.reviews ≡ some r') e h') same
  step_once (added id t new sale fresh unseen about sold done buyer seller rows w) i j r r' h h'
        same =
      elim (placed id i new r s.reviews s'.reviews rows h) [
        | inl (a, e) ↦ elim (placed id j new r' s.reviews s'.reviews rows h') [
          | inl (b, f) ↦ a ∙ sym b
          | inr (ne, old) ↦ absurd (ground (arith, unreviewed t j r' s.reviews unseen old))
        ]
        | inr (ne, old) ↦ elim (placed id j new r' s.reviews s'.reviews rows h') [
          | inl (b, f) ↦ absurd (ground (arith, unreviewed t i r s.reviews unseen old))
          | inr (ne', old') ↦ good.once i j r r' old old' same
        ]
      ]
  step_once (changed id was new found t b u rows w) i j r r' h h' same =
      elim (placed id i new r s.reviews s'.reviews rows h) [
        | inl (a, e) ↦ elim (placed id j new r' s.reviews s'.reviews rows h') [
          | inl (b, f) ↦ a ∙ sym b
          | inr (ne, old) ↦ a ∙ good.once id j was r' found old (ground arith)
        ]
        | inr (ne, old) ↦ elim (placed id j new r' s.reviews s'.reviews rows h') [
          | inl (b, f) ↦ good.once i id r was old found (ground arith) ∙ sym b
          | inr (ne', old') ↦ good.once i j r r' old old' same
        ]
      ]
  step_once (dropped id rows w) i j r r' h h' same =
      good.once i j r r' (ground (arith, lookup-remove id i s.reviews))
        (ground (arith, lookup-remove id j s.reviews)) same

  pub step-AreGenuine : ReviewStep s s' → AreGenuine s'
  step-AreGenuine step = record { of_sale = step_sale step; once = step_once step }
