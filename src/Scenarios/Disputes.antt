-- ===== src/Scenarios/Disputes.antt =====
-- A dispute on the sale of the lamp, whose seller's balance is almost at the limit of its column.
use bidvault_backend.Common.{[], ◌∷◌, lookup, ◌≡◌, some, refl, arith}
use bidvault_backend.Scenarios.Market.{person, lamp_sale, lamp_after, with_bids}
use bidvault_backend.Store.{Sale, World, Dispute, User, TransactionStatus, threw}
use bidvault_backend.Fulfillment.{resolve_dispute, new_dispute, Resolution, resolved}
use bidvault_backend.Sales.Stuck.{release_stuck}

abbrev lamp_disputed : Sale
lamp_disputed = record lamp_sale { status = TransactionStatus.disputed }

abbrev lamp_dispute : Dispute
lamp_dispute = new_dispute 800000 30 3 "broken"

abbrev rich_seller : User
rich_seller = record (person "Sana") { ledger_balance = 2147483600 }

abbrev with_disputed : World
with_disputed = record with_bids {
  sales = (30, lamp_disputed) ∷ [];
  disputes = (40, lamp_dispute) ∷ [];
  users = (1, rich_seller) ∷ [];
}

dispute_found : lookup 40 with_disputed.disputes ≡ some lamp_dispute
unfolding lookup
dispute_found = refl

disputed_found : lookup 30 with_disputed.sales ≡ some lamp_disputed
unfolding lookup
disputed_found = refl

disputed_held : lookup 10 with_disputed.auctions ≡ some lamp_after
unfolding lookup
disputed_held = refl

seller_found : lookup 1 with_disputed.users ≡ some rich_seller
unfolding lookup
seller_found = refl

release_stuck_example :
    let released = resolve_dispute 900000 40 9 Resolution.release "as described" with_disputed in
    (released.0 ≡ threw)
    × (lookup 40 released.1.disputes
        ≡ some (resolved 900000 9 Resolution.release "as described" lamp_dispute))
    × (lookup 30 released.1.sales ≡ some lamp_disputed)
    × (released.1.users ≡ with_disputed.users)
release_stuck_example =
    release_stuck 900000 40 9 "as described" with_disputed lamp_dispute lamp_disputed lamp_after
      rich_seller dispute_found disputed_found disputed_held refl refl seller_found (omega arith)
