-- ===== src/Billing.antt =====
-- The services over the store: backend/app/billing. Each method is a computation of the machine.
-- The two configurations are arguments of every definition.
mod Configs
mod Remote
mod Loader
mod Refunder
mod Reaper
mod Generation
mod Balances
pub mod Calm
pub mod Denials
pub mod Steps
pub mod Facts
pub mod Outcomes
pub mod Loaded
pub mod Following
pub mod Attempts
pub mod Settled
pub mod Redelivery
pub mod Answers
pub mod Reserved
pub mod Executed
pub mod Reaped
pub mod Converted
pub mod Charged
pub mod Settings
pub mod Promises
pub mod Redelivered
pub mod Credited
pub mod Once
unfoldable pub use Configs.*
unfoldable pub use Remote.*
unfoldable pub use Loader.*
unfoldable pub use Refunder.*
unfoldable pub use Reaper.*
unfoldable pub use Generation.*
unfoldable pub use Balances.*
