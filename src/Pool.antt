-- ===== src/Pool.antt =====
-- internal/worker/runtime/pool.go: the containers that a worker keeps warm. Each function is one
-- region under the pool's mutex; it returns the containers that are stopped once the mutex is free.
-- The inner runtime boots a new container for every entry, so the container's number also tells
-- entries apart where the code compares their pointers.
mod Entries
mod Starting
mod Ending
pub mod Sums
pub mod Dropped
pub mod Oldest
pub mod Changes
pub mod World
pub mod Invariant
pub mod Moves
pub mod Stops
pub mod Isolation
pub mod Handout
pub mod Gauge
mod Examples
unfoldable pub use Entries.*
unfoldable pub use Starting.*
unfoldable pub use Ending.*
