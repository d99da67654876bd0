-- ===== src/Lifecycle/Reconciled.antt =====
-- After the sweep each auction that is past its end and still ACTIVE has a close job to come.
use bidvault_backend.Store.{Auction, AuctionStatus}
use bidvault_backend.Common.{
  ℕ, [], ◌∷◌, lookup, Table, Option, ◌≢◌, ◌≡◌, Bool, List, true, Memᴰ, some, Bool-cases, ◌∙◌, ◌<◌,
  ◌==◌, false, refl, Option-cases, inl, inr, subst, arith, none, ==_iff,
}
use bidvault_backend.Lifecycle.{
  JobQueue, IsJobQueue, JobState, is_pending, enqueue_auction_end_now, requeue_each, enqueue_with,
  requeue, requeue_with, is_finished, is_overdue, overdue_ids, reconcile_overdue_auctions,
}

module _ (queue : JobQueue) (lawful : IsJobQueue queue) where
  abbrev Pends : ℕ → queue.Jobs → Type 0
  Pends id jobs = is_pending (queue.state_of id jobs) ≡ true

  -- An enqueuing goes through, its job is to come after it, and no other job is touched.
  abbrev Enqueues : ℕ → queue.Jobs → Option (Bool × queue.Jobs) → Type 0
  Enqueues id jobs result =
      (added : Bool) × (after : queue.Jobs) × (result ≡ some (added, after))
      × Pends id after
      × ((other : ℕ) → id ≢ other → queue.state_of other after ≡ queue.state_of other jobs)

  readded :
      (id : ℕ) (jobs cleared : queue.Jobs)
      → queue.remove id jobs ≡ some cleared
      → Pends id (queue.add id 0 cleared)
        × ((other : ℕ)
            → id ≢ other
            → queue.state_of other (queue.add id 0 cleared) ≡ queue.state_of other jobs)
  readded id jobs cleared gone = (
    lawful.add_new id 0 cleared (lawful.remove_same id jobs gone),
    λ other ne. lawful.add_other id other 0 cleared ne ∙ lawful.remove_other id other jobs gone ne,
  )

  enqueue_finished :
      (id : ℕ) (jobs : queue.Jobs) (state : JobState)
      → queue.state_of id jobs ≡ some state
      → is_finished state ≡ true
      → Enqueues id jobs (enqueue_with queue id (some state) jobs)
  enqueue_finished id jobs state found finished = elim (Option-cases (queue.remove id jobs)) [
    | inl stuck ↦ absurd (ground (arith, lawful.remove_finished id jobs found finished))
    | inr (cleared, gone) ↦
        let (pends, others) = readded id jobs cleared gone in
        (true, queue.add id 0 cleared, rw (finished, gone) refl, pends, others)
  ]

  enqueue_any :
      (id : ℕ) (jobs : queue.Jobs) (state : Option JobState)
      → queue.state_of id jobs ≡ state
      → Enqueues id jobs (enqueue_with queue id state jobs)
  enqueue_any id jobs none new = (
    true,
    queue.add id 0 jobs,
    refl,
    lawful.add_new id 0 jobs new,
    λ other ne. lawful.add_other id other 0 jobs ne,
  )
  enqueue_any id jobs (some state) found = elim (Bool-cases (is_finished state)) [
    | inl finished ↦ enqueue_finished id jobs state found finished
    | inr pending ↦ (false, jobs, rw pending refl, rw (found, pending) refl, λ other ne. refl)
  ]

  kept :
      (id : ℕ) (s : ℕ × queue.Jobs) (after : queue.Jobs) (other : ℕ)
      → Pends id after
      → ((other : ℕ) → id ≢ other → queue.state_of other after ≡ queue.state_of other (s.1))
      → Pends other (s.1)
      → Pends other after
  kept id s after other pends others h = elim (Bool-cases (id == other)) [
    | inl same ↦ subst (λ i. Pends i after) ((==_iff id other).0 same) pends
    | inr differs ↦ rw (others other (λ e. ground arith)) h
  ]

  requeued :
      (id : ℕ) (s : ℕ × queue.Jobs) (added : Bool) (after : queue.Jobs)
      → Pends id after
      → ((other : ℕ) → id ≢ other → queue.state_of other after ≡ queue.state_of other (s.1))
      → Pends id (requeue_with queue (some (added, after)) s).1
        × ((other : ℕ)
            → Pends other (s.1)
            → Pends other (requeue_with queue (some (added, after)) s).1)
  requeued id s true after pends others = (pends, λ other h. kept id s after other pends others h)
  requeued id s false after pends others = (pends, λ other h. kept id s after other pends others h)

  requeue-Pends :
      (id : ℕ) (s : ℕ × queue.Jobs)
      → Pends id (requeue queue id s).1
        × ((other : ℕ) → Pends other (s.1) → Pends other (requeue queue id s).1)
  unfolding enqueue_auction_end_now
  requeue-Pends id s =
      let (added, after, e, pends, others) = enqueue_any id (s.1) (queue.state_of id (s.1)) refl in
      rw e (requeued id s added after pends others)

  requeue_each-keeps :
      (ids : List ℕ) (s : ℕ × queue.Jobs) (other : ℕ)
      → Pends other (s.1)
      → Pends other (requeue_each queue ids s).1
  requeue_each-keeps [] s other h = h
  requeue_each-keeps (id ∷ ids) s other h =
      requeue_each-keeps ids (requeue queue id s) other ((requeue-Pends id s).1 other h)

  requeue_each-Pends :
      (ids : List ℕ) (s : ℕ × queue.Jobs) {id : ℕ}
      → Memᴰ id ids
      → Pends id (requeue_each queue ids s).1
  requeue_each-Pends [] s m = elim m [ ]
  requeue_each-Pends (x ∷ ids) s (Memᴰ.head e) =
      requeue_each-keeps ids (requeue queue x s) _ (rw e ((requeue-Pends x s).0))
  requeue_each-Pends (x ∷ ids) s (Memᴰ.tail m) = requeue_each-Pends ids (requeue queue x s) m

  -- The section's queue plays no part in which auctions are overdue.
  overdue_head :
      (now j : ℕ) (a : Auction) (auctions : Table Auction)
      → is_overdue queue now (j, a) ≡ true
      → Memᴰ j (overdue_ids queue now ((j, a) ∷ auctions))
  overdue_head now j a auctions here = rw here (Memᴰ.head refl)

  overdue_tail :
      (now id j : ℕ) (a : Auction) (auctions : Table Auction)
      → Memᴰ id (overdue_ids queue now auctions)
      → Memᴰ id (overdue_ids queue now ((j, a) ∷ auctions))
  overdue_tail now id j a auctions m = elim (Bool-cases (is_overdue queue now (j, a))) [
    | inl here ↦ rw here (Memᴰ.tail m)
    | inr not_here ↦ rw not_here m
  ]

  overdue_listed :
      (now id : ℕ) (auctions : Table Auction) (row : Auction)
      → lookup id auctions ≡ some row
      → row.status ≡ AuctionStatus.active
      → row.end_time < now
      → Memᴰ id (overdue_ids queue now auctions)
  unfolding lookup
  overdue_listed now id [] row found live past = absurd (ground arith)
  overdue_listed now id ((j, a) ∷ auctions) row found live past = elim (Bool-cases (j == id)) [
    | inl same ↦
        subst (λ i. Memᴰ i (overdue_ids queue now ((j, a) ∷ auctions))) ((==_iff j id).0 same)
          (overdue_head now j a auctions (here same))
    | inr differs ↦
        overdue_tail now id j a auctions
          (overdue_listed now id auctions row (ground arith) live past)
  ]
    where
      here : (j == id) ≡ true → is_overdue queue now (j, a) ≡ true
      here same = ground arith

  -- After a sweep that does not find another one running, each auction that was ACTIVE and past its
  -- end has a close job that is not finished: one that was still to come, or a new one, also where
  -- an old one had completed or failed.
  pub reconciled_pending :
      (now id : ℕ) (auctions : Table Auction) (jobs : queue.Jobs) (row : Auction)
      → lookup id auctions ≡ some row
      → row.status ≡ AuctionStatus.active
      → row.end_time < now
      → is_pending (queue.state_of id (reconcile_overdue_auctions queue false now auctions jobs).1)
        ≡ true
  unfolding reconcile_overdue_auctions
  reconciled_pending now id auctions jobs row found live past =
      requeue_each-Pends (overdue_ids queue now auctions) (0, jobs)
        (overdue_listed now id auctions row found live past)
