-- ===== src/Store.antt =====
-- The rows of the database (prisma/schema.prisma), the state that every handler reads and writes,
-- and the transaction monad that the handlers run in.
mod Rows
mod Notices
mod Status
mod State
pub mod Queries
mod Monad
pub use Rows.*
pub use Notices.*
pub use Status.*
pub use State.*
pub use Monad.*
