-- ===== src/Redis.antt =====
-- The hot store: the keys that the service keeps in Redis and the eight Lua scripts over them
-- (backend/infra/database/redis/scripts.py). Redis runs one script at a time, so whatever several
-- processes do is a sequence of script calls.
-- Hash fields that the source writes as decimal strings are integers here. A key's time to live is
-- kept as the number of seconds that the last EXPIRE gave it, and `expire_generation` and the like are its end.
mod State
mod Scripts
mod CallData
mod Calls
pub mod Versions
pub mod Generations
pub mod Ledger
pub mod Returns
pub mod Traces
pub mod Credits
pub mod Closings
unfoldable pub use State.*
unfoldable pub use Scripts.*
unfoldable pub use Calls.*
pub use CallData.{Call}
