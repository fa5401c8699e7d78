-- ===== src/Compiler.antt =====
-- internal/compiler and internal/enum: argument grammars, parsers and the compile-cache key.
pub mod Invocation
pub mod Grammar
pub mod Response
pub mod Gnu
pub mod Msvc
pub mod Key
pub mod Manifest
pub mod Rewrite
mod Examples
