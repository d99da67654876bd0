-- ===== src/Sweeps.antt =====
-- The two sweeps over sales of src/workers/auction-lifecycle.worker.ts, with the query of
-- findTimedOutShipments (src/services/fulfillment.service.ts). `clock` gives the moment at which a
-- sweep reaches a sale; a sweep answers whether it came to the end of its list.
pub mod Overdue
pub mod Shipments
use bidvault_backend.Common.{
  ℕ, [], ◌∷◌, List, Bool, true, none, ◌&&◌, false, some, ltb, ◌+◌, ◌*◌, ◌≢◌, ◌≡◌, refl,
}
use bidvault_backend.Store.{World, Sale, Flow, is_sale_shipped, next, answer, threw}
use bidvault_backend.Fulfillment.{confirm_delivery}
use bidvault_backend.Recovery.{ids_where, void_overdue_payment, find_overdue_payments}
use bidvault_backend.Closing.{hour_ms}

-- `where: { status: 'SHIPPED', shippedAt: { lt: cutoff } }`
abbrev pub timed_out_where : ℕ → ℕ → Sale → Bool
timed_out_where now review_timeout_hours row = is_sale_shipped row.status && (elim row.shipped_at [
  | none ↦ false
  | some at ↦ ltb (at + review_timeout_hours * hour_ms) now
])

unfoldable pub find_timed_out_shipments : ℕ → ℕ → World → List ℕ
find_timed_out_shipments now review_timeout_hours w =
    ids_where (timed_out_where now review_timeout_hours) w.sales

-- After one call the loop goes on, whatever the answer; an exception ends it.
abbrev pub after_call : {A : Type 0} → Flow A A → Bool × World → World → Bool × World
after_call (next _) rest w = rest
after_call (answer _) rest w = rest
after_call threw rest w = (false, w)

-- One call for each sale of the list.
unfoldable pub for_each_sale :
    {A : Type 0} → (ℕ → World → Flow A A × World) → List ℕ → World → Bool × World
for_each_sale call [] w = (true, w)
for_each_sale call (t ∷ ts) w = let (r, w') = call t w in after_call r (for_each_sale call ts w') w'

pub after_call_of_return :
    {A : Type 0} (r : Flow A A) (rest : Bool × World) (w : World)
    → r ≢ threw
    → after_call r rest w ≡ rest
after_call_of_return (next _) rest w h = refl
after_call_of_return (answer _) rest w h = refl
after_call_of_return threw rest w h = absurd (h refl)

pub after_call_either :
    {A : Type 0} (P : World → Type 0) (r : Flow A A) (rest : Bool × World) (w : World)
    → P rest.1
    → P w
    → P (after_call r rest w).1
after_call_either P (next _) rest w a b = a
after_call_either P (answer _) rest w a b = a
after_call_either P threw rest w a b = b

unfoldable pub auto_confirm_timed_out_shipments : ℕ → (ℕ → ℕ) → ℕ → World → Bool × World
auto_confirm_timed_out_shipments now clock review_timeout_hours w =
    for_each_sale
      (λ t.
        confirm_delivery (clock t) t
          (record { require_winner_id = none; auto = true; from_disputed = false }))
      (find_timed_out_shipments now review_timeout_hours w) w

unfoldable pub auto_void_overdue_payments : ℕ → (ℕ → ℕ) → ℕ → World → Bool × World
auto_void_overdue_payments now clock payment_deadline_hours w =
    for_each_sale (λ t. void_overdue_payment (clock t) payment_deadline_hours t)
      (find_overdue_payments now payment_deadline_hours w) w
