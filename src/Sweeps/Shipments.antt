-- ===== src/Sweeps/Shipments.antt =====
-- The sweep of shipments keeps the accounts, wherever it stops.
use bidvault_backend.Common.{ℕ, [], ◌∷◌, List, none, true, false}
use bidvault_backend.Sweeps.{
  for_each_sale, auto_confirm_timed_out_shipments, find_timed_out_shipments, after_call_either,
}
use bidvault_backend.Store.Queries.{BidQueries}
use bidvault_backend.Store.{World}
use bidvault_backend.Sales.Payouts.{IsPaidOut}
use bidvault_backend.Sales.Runs.{Run-IsPaidOut, Run, start, then, confirm}
use bidvault_backend.Store.Queries.Scan.{scan_queries}
use bidvault_backend.Fulfillment.{confirm_delivery}
use bidvault_backend.Sales.Disputed.{AreDisputed}

confirm_each-Run :
    {q : BidQueries} (clock : ℕ → ℕ) (ts : List ℕ) (w v : World)
    → Run q w v
    → Run q w
        (for_each_sale
          (λ t.
            confirm_delivery
              (clock t)
              t
              (record { require_winner_id = none; auto = true; from_disputed = false }))
          ts
          v).1
unfolding for_each_sale
confirm_each-Run clock [] w v r = r
confirm_each-Run {q} clock (t ∷ ts) w v r =
    let one =
      confirm_delivery (clock t) t
        (record { require_winner_id = none; auto = true; from_disputed = false }) v in
    let first : Run q w one.1 = then r (confirm (clock t) t none true) in
    let rest = confirm_each-Run {q = q} clock ts w one.1 first in
    after_call_either (Run q w) one.0
      (for_each_sale
        (λ t.
          confirm_delivery (clock t) t
            (record { require_winner_id = none; auto = true; from_disputed = false }))
        ts one.1)
      one.1 rest first

-- The sweep of timed-out shipments keeps the accounts, also where an exception ends it early, if open
-- disputes are on DISPUTED sales, each on its own.
pub auto_confirm-IsPaidOut :
    (now : ℕ) (clock : ℕ → ℕ) (review_timeout_hours : ℕ) (w : World)
    → AreDisputed w
    → IsPaidOut w
    → IsPaidOut (auto_confirm_timed_out_shipments now clock review_timeout_hours w).1
unfolding auto_confirm_timed_out_shipments
auto_confirm-IsPaidOut now clock hours w =
    Run-IsPaidOut {q = scan_queries}
      (confirm_each-Run clock (find_timed_out_shipments now hours w) w w start)
