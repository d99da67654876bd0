-- ===== src/Lifecycle.antt =====
-- src/queues/auction-lifecycle.queue.ts, and the sweep of src/workers/auction-lifecycle.worker.ts for
-- auctions that are past their end and still ACTIVE. The queue (BullMQ) is a parameter with the laws
-- that the code relies on; a job is named by its auction.
pub mod Reconciled
use bidvault_backend.Store.{Auction, is_auction_active}
use bidvault_backend.Common.{
  ℕ, [], ◌∷◌, Bool, List, ◌≡◌, Option, ◌-◌, Table, map, if◌then◌else◌, none, false, some, true, ◌≢◌,
  ◌+◌, ◌&&◌, not, keep, ltb, is_some,
}

-- What `getState` gives of a job.
pub data JobState : Type 0 where
  waiting delayed active completed failed : JobState

abbrev pub is_finished : JobState → Bool
is_finished JobState.completed = true
is_finished JobState.failed = true
is_finished _ = false

-- `add` with a delay and a job's id, `getJob` with `getState`, and `remove`, which can throw.
pub record JobQueue : Type 1 where
  pub Jobs : Type 0
  pub state_of : ℕ → Jobs → Option JobState
  pub add : ℕ → ℕ → Jobs → Jobs
  pub remove : ℕ → Jobs → Option Jobs

abbrev pub is_pending : Option JobState → Bool
is_pending none = false
is_pending (some state) = not (is_finished state)

-- A job that is added to a queue without one of its id waits or is delayed; with one of its id, in
-- whatever state, nothing is added. A finished job can be removed, and is gone then. Neither touches
-- a job of another id.
pub record IsJobQueue (queue : JobQueue) : Type 0 where
  pub add_new :
      (id delay : ℕ) (jobs : queue.Jobs)
      → queue.state_of id jobs ≡ none
      → is_pending (queue.state_of id (queue.add id delay jobs)) ≡ true
  pub add_again :
      (id delay : ℕ) (jobs : queue.Jobs) {state : JobState}
      → queue.state_of id jobs ≡ some state
      → queue.add id delay jobs ≡ jobs
  pub add_other :
      (id other delay : ℕ) (jobs : queue.Jobs)
      → id ≢ other
      → queue.state_of other (queue.add id delay jobs) ≡ queue.state_of other jobs
  pub remove_finished :
      (id : ℕ) (jobs : queue.Jobs) {state : JobState}
      → queue.state_of id jobs ≡ some state
      → is_finished state ≡ true
      → is_some (queue.remove id jobs) ≡ true
  pub remove_same :
      (id : ℕ) (jobs : queue.Jobs) {after : queue.Jobs}
      → queue.remove id jobs ≡ some after
      → queue.state_of id after ≡ none
  pub remove_other :
      (id other : ℕ) (jobs : queue.Jobs) {after : queue.Jobs}
      → queue.remove id jobs ≡ some after
      → id ≢ other
      → queue.state_of other after ≡ queue.state_of other jobs

module _ (queue : JobQueue) where
  -- `Math.max(0, endTime - now)`
  unfoldable pub schedule_auction_lifecycle : ℕ → ℕ → ℕ → queue.Jobs → queue.Jobs
  schedule_auction_lifecycle now auction_id end_time jobs =
      queue.add auction_id (end_time - now) jobs

  -- The job is cleared only when it is finished; `none` where `remove` throws.
  abbrev pub enqueue_with : ℕ → Option JobState → queue.Jobs → Option (Bool × queue.Jobs)
  enqueue_with auction_id none jobs = some (true, queue.add auction_id 0 jobs)
  enqueue_with auction_id (some state) jobs =
      if is_finished state
      then elim (queue.remove auction_id jobs) [
        | none ↦ none
        | some cleared ↦ some (true, queue.add auction_id 0 cleared)
      ]
      else some (false, jobs)

  unfoldable pub enqueue_auction_end_now : ℕ → queue.Jobs → Option (Bool × queue.Jobs)
  enqueue_auction_end_now auction_id jobs =
      enqueue_with auction_id (queue.state_of auction_id jobs) jobs

  unfoldable pub cancel_scheduled_job : ℕ → queue.Jobs → Option queue.Jobs
  cancel_scheduled_job auction_id jobs = elim (queue.state_of auction_id jobs) [
    | none ↦ some jobs
    | some state ↦ queue.remove auction_id jobs
  ]

  -- One round of the loop, with its `catch`: the number re-queued, and the queue.
  abbrev pub requeue_with : Option (Bool × queue.Jobs) → ℕ × queue.Jobs → ℕ × queue.Jobs
  requeue_with none s = s
  requeue_with (some (true, after)) s = ((s.0) + 1, after)
  requeue_with (some (false, after)) s = (s.0, after)

  abbrev pub requeue : ℕ → ℕ × queue.Jobs → ℕ × queue.Jobs
  requeue auction_id s = requeue_with (enqueue_auction_end_now auction_id (s.1)) s

  abbrev pub requeue_each : List ℕ → ℕ × queue.Jobs → ℕ × queue.Jobs
  requeue_each [] s = s
  requeue_each (auction_id ∷ ids) s = requeue_each ids (requeue auction_id s)

  -- `where: { status: 'ACTIVE', endTime: { lt: now } }`
  abbrev pub is_overdue : ℕ → ℕ × Auction → Bool
  is_overdue now r = is_auction_active (r.1).status && ltb (r.1).end_time now

  abbrev pub overdue_ids : ℕ → Table Auction → List ℕ
  overdue_ids now auctions = map (λ r. r.0) (keep (is_overdue now) auctions)

  -- A sweep that starts while another runs does nothing.
  unfoldable pub reconcile_overdue_auctions : Bool → ℕ → Table Auction → queue.Jobs → ℕ × queue.Jobs
  reconcile_overdue_auctions sweep_in_flight now auctions jobs =
      if sweep_in_flight then (0, jobs) else requeue_each (overdue_ids now auctions) (0, jobs)
