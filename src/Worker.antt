-- ===== src/Worker.antt =====
-- internal/worker: the RPC handlers of a worker that stage the sources of a compile. A stream of a
-- gRPC call is the sequence of its messages with its end; JWT parsing and BLAKE3 are arguments.
mod Token
pub mod Sources
mod Upload
mod Missing
mod Staging
mod Verify
mod Directories
pub mod Headers
pub mod Uploads
pub mod Settled
pub mod Examples
pub mod Escapes
pub mod Manifests
pub mod Disk
pub mod Probes
pub mod Staged
pub mod Stuck
unfoldable pub use Token.*
unfoldable pub use Upload.*
unfoldable pub use Missing.*
unfoldable pub use Staging.*
unfoldable pub use Verify.*
unfoldable pub use Directories.*
