-- ===== src/Sales/Decisions.antt =====
-- What a response, a new dispute and a decision do to the disputes.
use bidvault_backend.Common.{
  ℕ, ◌≡◌, lookup, some, true, false, none, String, arith, refl, inl, inr, insert, lookup-insert,
  Bool-cases, ◌≢◌, Option-cases, lookup-insert_self, if◌then◌else◌, ◌∙◌, ◌==◌,
}
use bidvault_backend.Store.{
  World, Dispute, Sale, TransactionStatus, Flow, is_dispute_open, next, find_by-lookup,
}
use bidvault_backend.Sales.{still, went_on, Flow-cases}
use bidvault_backend.Sales.Disputed.{
  AreDisputed, SaleStep-AreDisputed, responded-AreDisputed, raised-AreDisputed, decided-AreDisputed,
}
use bidvault_backend.Sales.Payments.{raise_dispute-SaleStep}
use bidvault_backend.Sales.Others.{respond_to_dispute-SaleStep}
use bidvault_backend.Fulfillment.{
  confirm_delivery, raise_dispute, respond_to_dispute, Resolution, resolve_dispute, decide_dispute,
  ResolveAnswer, is_refund, new_dispute, resolved, dispute_of,
}
use bidvault_backend.Sales.Untouched.{confirm-others, confirm-disputes}

module _ (now t : ℕ) (w : World) (inv : AreDisputed w) where
  abbrev responding : ℕ → String → World
  responding seller_id response = (respond_to_dispute now t seller_id response w).1

  -- A response keeps which disputes are open.
  pub respond-AreDisputed :
      (seller_id : ℕ) (response : String) → AreDisputed (responding seller_id response)
  unfolding respond_to_dispute
  respond-AreDisputed seller_id response = elim (Option-cases (dispute_of t w)) [
    | inl missing ↦
        SaleStep-AreDisputed (respond_to_dispute-SaleStep now t seller_id response w) (ground arith)
          inv
    | inr ((i, d), hit) ↦
        elim (Bool-cases (went_on (respond_to_dispute now t seller_id response w).0)) [
          | inl done ↦
              responded-AreDisputed i
                (record d { seller_response = some response; seller_responded_at = some now })
                (ground arith) inv d (respond_to_dispute-SaleStep now t seller_id response w)
                (find_by-lookup (λ (d : Dispute). d.transaction_id == t) i d w.disputes inv.keyed
                  hit).0
                refl refl
          | inr refused ↦
              SaleStep-AreDisputed (respond_to_dispute-SaleStep now t seller_id response w)
                (ground arith) inv
        ]
  ]

  -- A dispute that is raised is on a sale that it makes DISPUTED.
  pub raise-AreDisputed :
      (dispute_id buyer_id : ℕ) (reason : String)
      → AreDisputed (raise_dispute now dispute_id t buyer_id reason w).1
  unfolding raise_dispute
  raise-AreDisputed dispute_id buyer_id reason = elim (Option-cases (lookup t w.sales)) [
    | inl missing ↦
        SaleStep-AreDisputed (raise_dispute-SaleStep now dispute_id t buyer_id reason w)
          (ground arith) inv
    | inr (row, found) ↦
        elim (Bool-cases (went_on (raise_dispute now dispute_id t buyer_id reason w).0)) [
          | inl done ↦
              raised-AreDisputed dispute_id (new_dispute now t buyer_id reason) (ground arith) inv
                (raise_dispute-SaleStep now dispute_id t buyer_id reason w)
                (
                  record row { status = TransactionStatus.disputed },
                  ground (
                    arith,
                    lookup-insert_self t (record row { status = TransactionStatus.disputed })
                        w.sales,
                  ),
                  refl,
                )
                (ground arith)
          | inr refused ↦
              SaleStep-AreDisputed (raise_dispute-SaleStep now dispute_id t buyer_id reason w)
                (ground arith) inv
        ]
  ]

module _ (now dispute_id admin_user_id : ℕ) (resolution : Resolution) (text : String)
    (w : World) where
  abbrev deciding : Flow ResolveAnswer (ℕ × Sale) × World
  deciding = decide_dispute now dispute_id admin_user_id resolution text w

  abbrev resolving : World
  resolving = (resolve_dispute now dispute_id admin_user_id resolution text w).1

  decide_stops :
      went_on deciding.0 ≡ false
      → (resolving.disputes ≡ w.disputes)
        × (resolving.sales ≡ w.sales)
        × (resolving.users ≡ w.users)
        × (resolving.ledger_entries ≡ w.ledger_entries)
  unfolding resolve_dispute decide_dispute
  decide_stops h = (ground arith, ground arith, ground arith, ground arith)

  module _ (t : ℕ) (sale : Sale) (e : deciding.0 ≡ next (t, sale)) (d : Dispute)
      (found : lookup dispute_id w.disputes ≡ some d) where
    decide_about : t ≡ d.transaction_id
    unfolding decide_dispute
    decide_about = ground arith

    decide_writes :
        deciding.1.disputes
        ≡ insert dispute_id (resolved now admin_user_id resolution text d) w.disputes
    unfolding decide_dispute
    decide_writes = ground arith

    decide_others :
        (other : ℕ)
        → other ≢ d.transaction_id
        → lookup other deciding.1.sales ≡ lookup other w.sales
    unfolding decide_dispute
    decide_others other ne = elim (Option-cases (lookup d.transaction_id w.sales)) [
      | inl missing ↦ ground arith
      | inr (s, sold) ↦ ground (
        arith,
        lookup-insert d.transaction_id other (record s { status = TransactionStatus.refunded })
            w.sales,
      )
    ]

    abbrev released : World
    released =
        (confirm_delivery now t
          (record { require_winner_id = none; auto = false; from_disputed = true }) deciding.1).1

    -- A release goes on to the confirmation, and a refund stops there.
    resolve_goes_on :
        (resolving.disputes
          ≡ (if is_refund resolution then deciding.1.disputes else released.disputes))
        × (resolving.sales ≡ (if is_refund resolution then deciding.1.sales else released.sales))
    unfolding resolve_dispute
    resolve_goes_on = (ground arith, ground arith)

    resolved_others :
        (other : ℕ) → other ≢ d.transaction_id → lookup other resolving.sales ≡ lookup other w.sales
    resolved_others other ne = elim (Bool-cases (is_refund resolution)) [
      | inl refunds ↦ rw (resolve_goes_on.1, refunds) (decide_others other ne)
      | inr releases ↦
          rw (resolve_goes_on.1, releases)
            (confirm-others now deciding.1 t
                (record { require_winner_id = none; auto = false; from_disputed = true }) other
                (λ same. ne (same ∙ decide_about))
              ∙ decide_others other ne)
    ]

    resolved_writes :
        resolving.disputes
        ≡ insert dispute_id (resolved now admin_user_id resolution text d) w.disputes
    resolved_writes = elim (Bool-cases (is_refund resolution)) [
      | inl refunds ↦
          let stays : resolving.disputes ≡ deciding.1.disputes =
            resolve_goes_on.0 ∙ rw refunds refl in
          stays ∙ decide_writes
      | inr releases ↦
          let goes : resolving.disputes ≡ released.disputes =
            resolve_goes_on.0 ∙ rw releases refl in
          goes
          ∙ confirm-disputes now deciding.1 t
              (record { require_winner_id = none; auto = false; from_disputed = true })
          ∙ decide_writes
    ]

  decided_open : went_on deciding.0 ≡ true → (d : Dispute) × (lookup dispute_id w.disputes ≡ some d)
  unfolding decide_dispute
  decided_open done = elim (Option-cases (lookup dispute_id w.disputes)) [
    | inl missing ↦ absurd (ground arith)
    | inr known ↦ known
  ]

  -- A decision closes the dispute and writes no sale but its own.
  pub resolve-AreDisputed : AreDisputed w → AreDisputed resolving
  resolve-AreDisputed inv = elim (Flow-cases deciding.0) [
    | inr stop ↦
        let (disputes, sales, users, entries) = decide_stops stop in
        SaleStep-AreDisputed (still sales users entries) disputes inv
    | inl ((t, sale), e) ↦
        let (d, found) = decided_open (rw e refl) in
        decided-AreDisputed dispute_id (resolved now admin_user_id resolution text d)
          (resolved_writes t sale e d found) inv d found refl (closed d)
          (resolved_others t sale e d found)
  ]
    where
      closed :
          (d : Dispute)
          → is_dispute_open (resolved now admin_user_id resolution text d).status ≡ false
      closed d = ground arith
