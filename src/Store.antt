-- ===== src/Store.antt =====
-- The Redis adapter of the balance store: backend/infra/database/redis/adapters/balance_store.py,
-- and the port that it implements: backend/app/shared/ports/billing/balance_store.py.
mod Types
mod Retrying
mod Codec
pub mod Methods
pub mod Retry
pub mod Running
pub mod Recognises
pub mod Reservation
pub mod RoundTrip
pub mod Stale
unfoldable pub use Types.*
unfoldable pub use Retrying.*
unfoldable pub use Codec.*
