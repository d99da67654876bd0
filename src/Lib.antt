-- ===== src/Lib.antt =====
-- bidvault-backend: the auction marketplace's core, from a bid to the payout of a sale.
--
-- The program is an Express server with a PostgreSQL database behind Prisma, and a worker that
-- closes auctions and sweeps sales. A listing is approved into an auction; buyers bid on it; the
-- worker closes it and writes a sale for the winner; the sale is paid, shipped and confirmed, or it
-- is disputed, or it is voided unpaid and then offered to the next bidder or relisted.
--
-- Files and the code they are about (paths from the repository's root):
-- - Common, with its children: numbers, options, lists, and tables as association lists by id.
-- - Store: the rows of prisma/schema.prisma (Rows), notifications, audit entries and effects
--   (Notices), the database as one record (State), and the monad of the handlers (Monad): a handler
--   goes on with a value, answers early, or throws, and `transaction` gives the writes of a
--   transaction that throws back. `prisma.$transaction` with a row lock is one step here: two
--   transactions that lock the same row are ordered one after the other.
-- - Store/Queries: the ordered and distinct searches of the Bid table as a parameter with laws, and
--   a scan of the table that meets them (Scan).
-- - Bidding: POST /:auctionId/bids of src/modules/auctions/auctions.routes.ts (place_bid).
-- - Closing: closeAuction of src/workers/close-auction.ts (close_auction).
-- - Fulfillment: src/services/fulfillment.service.ts (mark_shipped, confirm_delivery, raise_dispute,
--   respond_to_dispute, resolve_dispute).
-- - Pagination: src/utils/pagination.ts and the list query of the routes that use it, in either
--   direction.
-- - Search: src/utils/escape-like.ts (escape_like), with the database's text search as a parameter.
-- - Payments: chargeCard of src/services/payment-gateway.service.ts, the pay route of
--   src/modules/payments/payments.routes.ts (pay), and the void route of
--   src/modules/admin/admin.routes.ts (void_transaction); the routes that read are Payments/Views.
-- - Recovery: src/services/auction-control.service.ts (cancel_auction, void_overdue_payment,
--   offer_to_next_bidder; relist and takedown_listing in Recovery/Relist).
-- - Lifecycle: src/queues/auction-lifecycle.queue.ts and the sweep of
--   src/workers/auction-lifecycle.worker.ts over auctions past their end, with the queue as a
--   parameter.
-- - Listings: src/modules/listings/listings.routes.ts before a listing is live (submit_listing,
--   resubmit_listing; withdraw_listing, approve_listing, approve_each and reject_listing in
--   Listings/Moderation), with its status machine (Lifecycle, Runs) and its auction (Approval).
-- - AuctionViews: src/modules/auctions/auction-dto.ts (to_auction_dto) and the bid history of
--   src/modules/auctions/auctions.routes.ts (bid_history).
-- - Analytics: the category breakdown of src/modules/admin/admin.routes.ts (category_breakdown).
-- - Accounts: requireAuth of src/middleware/auth.ts and src/services/user-status.service.ts, a
--   request in two parts, before and after the query of its account (auth_starts, lookup_reads,
--   lookup_done), which may interleave (Accounts/Requests);
--   Accounts/Enrollment is src/services/seller-account.service.ts.
-- - Auth: src/modules/auth/auth.routes.ts over a state of its own: one-time codes in Auth/Codes
--   (register, verify_email, reset_password and the others), login and change_password in
--   Auth/Sessions, refresh and logout in Auth/Refresh. A refresh takes the state in which it read the
--   token's row and the state in which it writes; Auth/Refresh/Calls is a run of requests.
--   Auth/Deletion is the end of an account, with src/services/account.service.ts; Auth/Cookies is
--   src/modules/auth/refresh-cookie.ts.
-- - Requests: the schemas of a submitted listing and of a bid in src/openapi/requests.ts
--   (submit_listing_schema, place_bid_schema).
-- - Reviews: the routes of src/modules/reviews/reviews.routes.ts that write.
-- - Routes: the responses of the routes over a sale in src/modules/payments/payments.routes.ts and
--   src/modules/admin/admin.routes.ts, and what they tell of the stored sale (Routes/Told).
-- - Sales: the abstract machine of sales and money, each handler as a step of it, and what runs of
--   the handlers keep (Runs); the disputes, which the refund's write relies on, are in Disputed,
--   Untouched and Decisions.
-- - SellerItems: src/modules/seller-items/seller-item-stage.ts and factsOf of
--   src/modules/seller-items/seller-items.routes.ts (stages, tabs, actions; the stage filters in
--   SellerItems/Filters); the routes' query, page and summary in SellerItems/Items.
-- - Settings: src/services/settings.service.ts, the settings of one process: the row, the cache and
--   the fetch in flight as one state; Settings/Timeline is what happens to it over time.
-- - Sockets: src/socket/auction-subscriptions.ts, one socket's rooms, lookups and token bucket.
-- - Sweeps: the sweeps of src/workers/auction-lifecycle.worker.ts over unpaid sales and over shipments.
-- - Watchlist: the routes of src/modules/watchlist/watchlist.routes.ts that write.
-- - Scenarios: one market and one account, and the theorems applied to them.
--
-- Conventions. Ids, times (in milliseconds) and amounts are natural numbers; the clock, new ids,
-- the random payment reference and listing codes are arguments. A handler with its result is a
-- function from the database to a result and a database. Mails, broadcasts and queue jobs are
-- effects, listed in order, which always succeed. Unique keys and required relations of the schema
-- raise an exception where the code would meet the database's error. The one bounded column that
-- matters, ledgerBalance, raises at its 32-bit limit. The retry loops, of relisting and of submitting
-- a listing, recurse on the list of the codes drawn, at most three. The client of Pagination that
-- follows cursors takes fuel, one page more than there are rows: each page but the last holds one.
--
-- Not modelled: the other request schemas and rate limits, the remaining read-only routes and DTOs,
-- notifications, mail texts, the URL test of a listing's image and the schemas of a category's
-- attributes (both are parameters), Redis and the timers (a sweep of sales is one run, never two at
-- once).
pub mod Common
pub mod Store
pub mod Accounts
pub mod AuctionViews
pub mod Analytics
pub mod Auth
pub mod Bidding
pub mod Closing
pub mod Fulfillment
pub mod Lifecycle
pub mod Listings
pub mod Pagination
pub mod Payments
pub mod Recovery
pub mod Requests
pub mod Reviews
pub mod Routes
pub mod Sales
pub mod Search
mod Scenarios
pub mod SellerItems
pub mod Settings
pub mod Sockets
pub mod Sweeps
pub mod Watchlist
