-- ===== src/Scenarios/Jobs.antt =====
-- The sweep for overdue auctions over a queue that is a table of jobs, and a watchlist.
use bidvault_backend.Scenarios.Market.{market, lamp}
use bidvault_backend.Lifecycle.{
  JobQueue, JobState, IsJobQueue, is_pending, reconcile_overdue_auctions,
}
use bidvault_backend.Common.{
  ℕ, [], ◌∷◌, lookup, Table, arith, if◌then◌else◌, some, remove, is_some, false, lookup-insert_self,
  lookup-insert_ne, insert, lookup-remove, refl, ◌≡◌, true, List, ◌+◌,
}
use bidvault_backend.Lifecycle.Reconciled.{reconciled_pending}
use bidvault_backend.Watchlist.Watchers.{IsPaired, watched_once}
use bidvault_backend.AuctionViews.{WatchRow}
use bidvault_backend.Watchlist.{watch, watchers, unwatch}

abbrev add_job : ℕ → Table JobState → Table JobState
add_job id jobs = if is_some (lookup id jobs) then jobs else insert id JobState.waiting jobs

abbrev table_queue : JobQueue
table_queue = record {
  Jobs = Table JobState;
  state_of = lookup;
  add = λ id delay jobs. add_job id jobs;
  remove = λ id jobs. some (remove id jobs);
}

table_queue-IsJobQueue : IsJobQueue table_queue
table_queue-IsJobQueue = record {
  add_new = λ id delay jobs new. ground (arith, lookup-insert_self id JobState.waiting jobs);
  add_again = λ id delay jobs found. rw found refl;
  add_other =
      λ id other delay jobs ne. ground (arith, lookup-insert_ne id other JobState.waiting jobs);
  remove_finished = λ id jobs found finished. refl;
  remove_same = λ id jobs gone. ground (arith, lookup-remove id id jobs);
  remove_other = λ id other jobs gone ne. ground (arith, lookup-remove id other jobs);
}

-- The lamp's first job has failed.
abbrev failed_jobs : Table JobState
failed_jobs = (10, JobState.failed) ∷ []

lamp_found : lookup 10 market.auctions ≡ some lamp
unfolding lookup
lamp_found = refl

reconciled_pending_example :
    is_pending (
      lookup 10
        (reconcile_overdue_auctions table_queue false 5000000 market.auctions failed_jobs).1)
    ≡ true
reconciled_pending_example =
    reconciled_pending table_queue table_queue-IsJobQueue 5000000 10 market.auctions failed_jobs
      lamp lamp_found refl (omega arith)

-- User 4 watches the lamp, which users 2 and 4 watch already.
abbrev watching : List WatchRow
watching = record { user_id = 2; auction_id = 10 } ∷ record { user_id = 4; auction_id = 10 } ∷ []

watched_lamp :
    IsPaired (watch 4 10 market.auctions watching).1
    × (watchers 10 (watch 4 10 market.auctions watching).1
        ≡ watchers 10 (unwatch 4 10 watching).1 + 1)
    × ((watch 4 10 market.auctions (watch 4 10 market.auctions watching).1).1
        ≡ (watch 4 10 market.auctions watching).1)
watched_lamp = watched_once 4 10 market.auctions lamp lamp_found watching (refl, (refl, tt))
