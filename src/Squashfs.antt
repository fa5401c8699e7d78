-- ===== src/Squashfs.antt =====
-- squashfs: the image writer's compressor, metadata blocks, file blocks and link counts. The output
-- file is the sequence of the bytes written; its writes do not fail.
mod Compressor
mod Metadata
mod Files
mod Ids
pub mod Interned
mod Inodes
mod Listing
pub mod Listings
mod Links
pub mod LinkOrder
pub mod Stream
pub mod Readback
pub mod FileBlocks
pub mod Streaming
pub mod WholeFiles
pub mod Batches
pub mod IdLookup
pub mod Listed
pub mod Examples
pub mod FileInode
unfoldable pub use Compressor.*
unfoldable pub use Inodes.*
unfoldable pub use Listing.*
unfoldable pub use Links.*
unfoldable pub use Ids.*
unfoldable pub use Files.*
unfoldable pub use Metadata.*
