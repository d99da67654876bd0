-- ===== src/Sales/Disputed.antt =====
-- Open disputes are on sales that are DISPUTED, each on its own: what every handler keeps.
use bidvault_backend.Common.{
  ℕ, ◌≡◌, lookup, some, true, false, none, [], ◌∷◌, arith, refl, inl, inr, insert, lookup-insert,
  insert_cases, ◌==◌, Table, ◌≢◌, ◌∙◌, sym, ap, insert-IsKeyed, IsKeyed,
}
use bidvault_backend.Store.{World, Dispute, Sale, TransactionStatus, is_dispute_open, find_by}
use bidvault_backend.Sales.{SaleStep, still, opened, moved, paid_out, moves, delivered_sale}

abbrev pub IsDisputedSale : ℕ → World → Type 0
IsDisputedSale t w =
    (sale : Sale) × (lookup t w.sales ≡ some sale) × (sale.status ≡ TransactionStatus.disputed)

pub record AreDisputed (w : World) : Type 0 where
  -- an id has one row
  pub keyed : IsKeyed w.disputes
  -- an open dispute is on a sale that is DISPUTED
  pub on :
      (i : ℕ) (d : Dispute)
      → lookup i w.disputes ≡ some d
      → is_dispute_open d.status ≡ true
      → IsDisputedSale d.transaction_id w
  -- and no sale has two disputes
  pub alone :
      (i j : ℕ) (d e : Dispute)
      → lookup i w.disputes ≡ some d
      → lookup j w.disputes ≡ some e
      → d.transaction_id ≡ e.transaction_id
      → i ≡ j

-- A step that decides no dispute leaves a sale that is DISPUTED as it is.
step_disputed :
    {w w' : World} (t : ℕ) → SaleStep false w w' → IsDisputedSale t w → IsDisputedSale t w'
step_disputed t (still a b c) (sale, found, at) = (sale, rw a found, at)
step_disputed {w} t (opened t' new x y a b c) (sale, found, at) =
    (sale, rw a (ground (arith, lookup-insert t' t new w.sales)), at)
step_disputed {w} t (moved t' old new x y a b c) (sale, found, at) = (
  sale,
  rw a (ground (arith, lookup-insert t' t new w.sales, moves_undisputed old.status new.status y)),
  at,
)
  where
    moves_undisputed :
        (a b : TransactionStatus) → moves false a b ≡ true → a ≢ TransactionStatus.disputed
    moves_undisputed TransactionStatus.disputed b h e = ground arith
    moves_undisputed _ b h e = cc
step_disputed {w} t (paid_out t' old seller x y z l f a b c) (sale, found, at) =
    (sale, rw a (ground (arith, lookup-insert t' t (delivered_sale old) w.sales)), at)

-- The dispute of a sale is found.
pub find_by-none :
    (t i : ℕ) (d : Dispute) (table : Table Dispute)
    → find_by (λ (d : Dispute). d.transaction_id == t) table ≡ none
    → lookup i table ≡ some d
    → d.transaction_id ≢ t
unfolding lookup
find_by-none t i d [] h e = absurd (ground arith)
find_by-none t i d ((j, x) ∷ table) h e = ground (arith, find_by-none t i d table)

-- Disputes as they were.
pub SaleStep-AreDisputed :
    {w w' : World} → SaleStep false w w' → w'.disputes ≡ w.disputes → AreDisputed w → AreDisputed w'
SaleStep-AreDisputed step same inv = record {
  keyed = rw same inv.keyed;
  on = λ i d found is_open.
      step_disputed d.transaction_id step (inv.on i d (rw same at found) is_open);
  alone = λ i j d e h k. inv.alone i j d e (rw same at h) (rw same at k);
}

abbrev AreAlone : Table Dispute → Type 0
AreAlone disputes =
    (i j : ℕ) (d e : Dispute)
    → lookup i disputes ≡ some d
    → lookup j disputes ≡ some e
    → d.transaction_id ≡ e.transaction_id
    → i ≡ j

-- A dispute's row is written again, still about its sale.
rewritten_alone :
    (i : ℕ) (old new : Dispute) (disputes : Table Dispute)
    → lookup i disputes ≡ some old
    → new.transaction_id ≡ old.transaction_id
    → AreAlone disputes
    → AreAlone (insert i new disputes)
rewritten_alone i old new disputes found about alone = λ j k d e h l same.
    let (d', h', d_is) = before j d h in
    let (e', l', e_is) = before k e l in alone j k d' e' h' l' (omega arith)
  where
    before :
        (j : ℕ) (d : Dispute)
        → lookup j (insert i new disputes) ≡ some d
        → (d' : Dispute) × (lookup j disputes ≡ some d') × (d'.transaction_id ≡ d.transaction_id)
    before j d h = elim (insert_cases i j new disputes h) [
      | inl (here, is_new) ↦ (old, rw here found, rw is_new (sym about))
      | inr (there, e) ↦ (d, e, refl)
    ]

-- The first dispute of a sale is written.
added_alone :
    (i : ℕ) (new : Dispute) (disputes : Table Dispute)
    → find_by (λ (d : Dispute). d.transaction_id == new.transaction_id) disputes ≡ none
    → AreAlone disputes
    → AreAlone (insert i new disputes)
added_alone i new disputes first alone j k d e h l same = elim (insert_cases i j new disputes h) [
  | inl (here, is_new) ↦ elim (insert_cases i k new disputes l) [
    | inl (here', is_new') ↦ omega arith
    | inr (there', old') ↦ absurd (
        find_by-none new.transaction_id k e disputes first old'
          (sym same ∙ ap (λ (x : Dispute). x.transaction_id) is_new))
  ]
  | inr (there, old) ↦ elim (insert_cases i k new disputes l) [
    | inl (here', is_new') ↦ absurd (
        find_by-none new.transaction_id j d disputes first old
          (same ∙ ap (λ (x : Dispute). x.transaction_id) is_new'))
    | inr (there', old') ↦ alone j k d e old old' same
  ]
]

module _ {w w' : World} (i : ℕ) (new : Dispute) (a : w'.disputes ≡ insert i new w.disputes)
    (inv : AreDisputed w) where
  -- A response: the row stays as open as it was.
  pub responded-AreDisputed :
      (old : Dispute)
      → SaleStep false w w'
      → lookup i w.disputes ≡ some old
      → new.transaction_id ≡ old.transaction_id
      → new.status ≡ old.status
      → AreDisputed w'
  responded-AreDisputed old step found about status = record {
    keyed = rw a (insert-IsKeyed i new w.disputes inv.keyed);
    on = λ j d h is_open.
        step_disputed d.transaction_id step (elim (insert_cases i j new w.disputes (rw a at h)) [
          | inl (here, is_new) ↦
              rw (is_new, about) (inv.on i old found (rw (is_new, status) at is_open))
          | inr (there, e) ↦ inv.on j d e is_open
        ]);
    alone = rw a (rewritten_alone i old new w.disputes found about inv.alone);
  }

  -- A new dispute, on a sale that is DISPUTED now.
  pub raised-AreDisputed :
      SaleStep false w w'
      → IsDisputedSale new.transaction_id w'
      → find_by (λ (d : Dispute). d.transaction_id == new.transaction_id) w.disputes ≡ none
      → AreDisputed w'
  raised-AreDisputed step now_disputed first = record {
    keyed = rw a (insert-IsKeyed i new w.disputes inv.keyed);
    on = λ j d h is_open. elim (insert_cases i j new w.disputes (rw a at h)) [
      | inl (here, is_new) ↦ rw is_new now_disputed
      | inr (there, e) ↦ step_disputed d.transaction_id step (inv.on j d e is_open)
    ];
    alone = rw a (added_alone i new w.disputes first inv.alone);
  }

  -- A decision: the dispute is closed, and no other sale is written.
  pub decided-AreDisputed :
      (old : Dispute)
      → lookup i w.disputes ≡ some old
      → new.transaction_id ≡ old.transaction_id
      → is_dispute_open new.status ≡ false
      → ((t : ℕ) → t ≢ old.transaction_id → lookup t w'.sales ≡ lookup t w.sales)
      → AreDisputed w'
  decided-AreDisputed old found about closed others = record {
    keyed = rw a (insert-IsKeyed i new w.disputes inv.keyed);
    on = λ j d h is_open. elim (insert_cases i j new w.disputes (rw a at h)) [
      | inl (here, is_new) ↦ absurd (ground arith)
      | inr (there, e) ↦
          let (sale, sold, disputed) = inv.on j d e is_open in
          (
            sale,
            others d.transaction_id (λ same. there (inv.alone j i d old e found same)) ∙ sold,
            disputed,
          )
    ];
    alone = rw a (rewritten_alone i old new w.disputes found about inv.alone);
  }
