-- ===== src/Scenarios.antt =====
-- Concrete runs of the handlers, and the theorems at them: a small market with one auction.
mod Market
mod Auctions
mod Trades
mod Disputes
mod Listings
mod Accounts
mod Pages
mod Reads
mod Views
mod Figures
mod Jobs
mod Columns
mod Rooms
mod Access
mod Ratings
