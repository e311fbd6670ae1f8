-- ===== src/Io.antt =====
-- Stateful code as actions on an explicit state, with calls of foreign libraries recorded.
mod State
mod Monad
pub mod Granted
pub mod Keeps
pub mod Runs
pub mod Steps
pub mod Safe
pub use State.*
pub use Monad.*
unfoldable pub use Monad.{for_from}
