-- ===== src/Closing/Outcome.antt =====
-- The outcome of a close against the bids on the auction: who wins, at what price, and when nobody.
use bidvault_backend.Common.{
  ℕ, [], ◌∷◌, Bool, All, Memᴰ, Table, ◌≡◌, some, none, false, count, is_some, arith, lookup, ◌⊎◌,
  true, refl, ◌<◌, Option-cases, inl, inr, All-mem, count-pos, sym, ◌∙◌, Option, leb, ltb, ◌&&◌,
  not, ◌==◌, insert, ap, subst, lt→ltb, Bool-cases,
}
use bidvault_backend.Store.Queries.{BidQueries, BidRow, IsLawful, best, top-amount, best_of_count}
use bidvault_backend.Store.{World, Bid, Auction, is_auction_closed, find_by, Flow, next, Sale}
use bidvault_backend.Closing.{
  WinBid, win_bid, can_win, narrow, reserve_outcome, is_below, close_auction, CloseResult,
  closed_row, new_sale, payment_due_at_from,
}

-- Every bid's buyer has an account row: `Bid.buyerId` is a foreign key.
abbrev pub BuyersExist : World → Type 0
BuyersExist w =
    All (λ r. (u : ℕ) → r.1.buyer_id ≡ some u → is_some (lookup u w.users) ≡ true) w.bids

-- A row of the table that `u` bid on the auction, and its amount.
abbrev pub BidBy : ℕ → World → WinBid → Type 0
BidBy auction_id w win =
    (r : BidRow) × Memᴰ r w.bids
    × (r.1.auction_id ≡ auction_id)
    × (r.1.buyer_id ≡ some win.buyer_id)
    × (r.1.amount ≡ win.amount)

pub count_of_unfit : (p : BidRow → Bool) (t : Table Bid) → All (λ r. p r ≡ false) t → count p t ≡ 0
count_of_unfit p [] h = refl
count_of_unfit p (r ∷ t) h = rw h.0 (omega (arith, count_of_unfit p t h.1))

-- A row that can win, by a buyer with an account, is a winning bid.
narrow_fit :
    (auction_id : ℕ) (w : World) (r : BidRow)
    → can_win auction_id r ≡ true
    → ((u : ℕ) → r.1.buyer_id ≡ some u → is_some (lookup u w.users) ≡ true)
    → (win : WinBid) × (narrow w (some r) ≡ some win)
      × (r.1.auction_id ≡ auction_id)
      × (r.1.buyer_id ≡ some win.buyer_id)
      × (r.1.amount ≡ win.amount)
unfolding narrow
narrow_fit auction_id w (i, b) fits known = elim (Option-cases b.buyer_id) [
  | inl e ↦ absurd (ground arith)
  | inr (u, e) ↦ (
    record { buyer_id = u; amount = b.amount },
    ground (arith, known u e),
    ground arith,
    ground arith,
    refl,
  )
]

module _ {q : BidQueries} (lawful : IsLawful q) (auction_id : ℕ) (w : World)
    (buyers : BuyersExist w) where
  -- The two answers of the search for a winner.
  pub win_bid_cases :
      ((win_bid q auction_id w ≡ none) × (count (can_win auction_id) w.bids ≡ 0))
      ⊎ ((win : WinBid) × (win_bid q auction_id w ≡ some win)
          × (0 < count (can_win auction_id) w.bids)
          × (win.amount ≡ best (can_win auction_id) w.bids)
          × BidBy auction_id w win)
  unfolding win_bid
  win_bid_cases = elim (Option-cases (q.top (can_win auction_id) w.bids)) [
    | inl e ↦ inl (
      rw e,
      count_of_unfit (can_win auction_id) w.bids (lawful.top_none (can_win auction_id) w.bids e),
    )
    | inr (r, e) ↦
        let (m, fits, _) = lawful.top_some (can_win auction_id) w.bids e in
        let (win, narrowed, here, by, price) = narrow_fit auction_id w r fits (
          All-mem (λ r. (u : ℕ) → r.1.buyer_id ≡ some u → is_some (lookup u w.users) ≡ true) w.bids
            buyers m) in
        inr (
          win,
          rw e narrowed,
          count-pos (can_win auction_id) w.bids m fits,
          sym price ∙ top-amount lawful (can_win auction_id) w.bids e,
          (r, m, here, by, price),
        )
  ]

-- Whether the highest winnable bid reaches the reserve: empty where no reserve is set.
abbrev pub met_by : Option ℕ → ℕ → Option Bool
met_by none top = none
met_by (some reserve) top = some (leb reserve top)

abbrev pub top_bid : ℕ → World → ℕ
top_bid auction_id w = best (can_win auction_id) w.bids

-- Sold: there is a winnable bid, and the reserve, if there is one, is reached.
abbrev pub sells : ℕ → Option ℕ → World → Bool
sells auction_id reserve w =
    ltb 0 (count (can_win auction_id) w.bids)
    && not (is_below (met_by reserve (top_bid auction_id w)))

reserve_outcome-none : (reserve : Option ℕ) → reserve_outcome reserve none ≡ met_by reserve 0
unfolding reserve_outcome
reserve_outcome-none none = refl
reserve_outcome-none (some r) = refl

reserve_outcome-some :
    (reserve : Option ℕ) (win : WinBid)
    → reserve_outcome reserve (some win) ≡ met_by reserve win.amount
unfolding reserve_outcome
reserve_outcome-some none win = refl
reserve_outcome-some (some r) win = refl

module _ {q : BidQueries} (lawful : IsLawful q) (now sale_id payment_deadline_hours auction_id : ℕ)
    (w : World) (buyers : BuyersExist w) (row : Auction)
    (found : lookup auction_id w.auctions ≡ some row)
    (is_due : is_auction_closed row.status ≡ false)
    (unsold : find_by (λ s. s.auction_id == auction_id) w.sales ≡ none) where
  abbrev run : Flow CloseResult CloseResult × World
  run = close_auction q now sale_id payment_deadline_hours auction_id w

  abbrev met : Option Bool
  met = met_by row.reserve_price (top_bid auction_id w)

  abbrev CloseAs : Option WinBid → Option Bool → Table Sale → Type 0
  CloseAs win m sales =
      (run.0
        ≡ next (record {
          already_closed = false;
          reserve_met = m;
          sold = is_some win && not (is_below m);
        }))
      × (run.1.auctions ≡ insert auction_id (closed_row m row) w.auctions)
      × (run.1.sales ≡ sales)

  abbrev sale_of : WinBid → Sale
  sale_of win =
      new_sale now (payment_due_at_from now payment_deadline_hours) auction_id row.seller_id win

  close_none :
      win_bid q auction_id w ≡ none → CloseAs none (reserve_outcome row.reserve_price none) w.sales
  unfolding close_auction
  close_none e = (ground arith, ground arith, ground arith)

  close_below :
      (win : WinBid)
      → win_bid q auction_id w ≡ some win
      → is_below (reserve_outcome row.reserve_price (some win)) ≡ true
      → CloseAs (some win) (reserve_outcome row.reserve_price (some win)) w.sales
  unfolding close_auction
  close_below win e low = (ground arith, ground arith, ground arith)

  close_sold :
      (win : WinBid)
      → win_bid q auction_id w ≡ some win
      → is_below (reserve_outcome row.reserve_price (some win)) ≡ false
      → CloseAs
          (some win)
          (reserve_outcome row.reserve_price (some win))
          (insert sale_id (sale_of win) w.sales)
  unfolding close_auction
  close_sold win e high = (ground arith, ground arith, ground arith)

  -- The job on an auction that is not closed and has no sale, whose bids' buyers exist. It closes
  -- the auction, its reserve decided against the highest winnable bid (0 for none). It sells exactly
  -- when there is a winnable bid and the reserve, if set, is reached: then it writes one sale, to a
  -- buyer who bid that highest amount on the auction. Otherwise the sales stay as they were.
  pub close_outcome :
      (run.0
        ≡ next (record {
          already_closed = false;
          reserve_met = met;
          sold = sells auction_id row.reserve_price w;
        }))
      × (run.1.auctions ≡ insert auction_id (closed_row met row) w.auctions)
      × (sells auction_id row.reserve_price w ≡ false → run.1.sales ≡ w.sales)
      × (sells auction_id row.reserve_price w ≡ true
          → (win : WinBid) × (win.amount ≡ top_bid auction_id w)
            × BidBy auction_id w win
            × (run.1.sales
                ≡ insert sale_id
                    (new_sale now
                      (payment_due_at_from now payment_deadline_hours)
                      auction_id
                      row.seller_id
                      win)
                    w.sales))
  close_outcome = elim (win_bid_cases lawful auction_id w buyers) [
    | inl (e, c) ↦
        let same : reserve_outcome row.reserve_price none ≡ met =
          reserve_outcome-none row.reserve_price
          ∙ ap (met_by row.reserve_price) (sym (best_of_count (can_win auction_id) w.bids c)) in
        let (r, auctions, sales) = subst (λ m. CloseAs none m w.sales) same (close_none e) in
        let not_sold : sells auction_id row.reserve_price w ≡ false = rw c in
        (rw not_sold r, auctions, (λ _. sales), (λ h. cc))
    | inr (win, e, c, top, by) ↦
        let same : reserve_outcome row.reserve_price (some win) ≡ met =
          reserve_outcome-some row.reserve_price win ∙ ap (met_by row.reserve_price) top in
        let sold : sells auction_id row.reserve_price w ≡ not (is_below met) = rw (lt→ltb _ _ c) in
        elim (Bool-cases (is_below met)) [
          | inl low ↦
              let (r, auctions, sales) =
                subst (λ m. is_below m ≡ true → CloseAs (some win) m w.sales) same
                  (close_below win e) low in
              (rw sold r, auctions, (λ _. sales), (λ h. cc))
          | inr high ↦
              let (r, auctions, sales) =
                subst
                  (λ m.
                    is_below m ≡ false
                    → CloseAs (some win) m (insert sale_id (sale_of win) w.sales))
                  same (close_sold win e) high in
              (rw sold r, auctions, (λ h. cc), (λ _. (win, top, by, sales)))
        ]
  ]
