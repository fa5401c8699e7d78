-- ===== src/Dispatch.antt =====
-- internal/daemon/dispatch/dispatch.go: the upload of the sources of a compile to a worker, over the
-- two calls FindMissingBlobs and UploadBlobs that the worker answers.
mod Upload
pub mod Sent
pub mod Delivered
pub mod Uploaded
mod Examples
unfoldable pub use Upload.*
