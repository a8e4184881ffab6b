-- ===== src/Policy.antt =====
-- The admission policy and the breakdown of a preliminary debit:
-- backend/domain/generation.py, lines 12 to 226. Identifiers (UUIDs) are only compared and sorted,
-- so they are numbers.
mod Types
mod Authorize
pub mod Fill
pub mod Plan
pub mod Access
pub mod Exact
unfoldable pub use Types.*
unfoldable pub use Authorize.*
