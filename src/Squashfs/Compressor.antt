-- ===== src/Squashfs/Compressor.antt =====
-- The interface Compressor of squashfs/compressor.go, and what reads the blocks of an image.
use hpcc.Prelude.{ℕ, ◌<◌, ◌≡◌, Bytes, length}

-- The outcomes of Compress: a block, ErrIncompressible, any other error.
pub data Compressed : Type 0 where
  packed : Bytes → Compressed
  incompressible : Compressed
  failed : Compressed

-- A caller's compressor, with the decompressor of the kernel that mounts the image. A compressed
-- form is never empty: a zlib stream has its header and its checksum.
pub record Codec : Type 0 where
  pub id : ℕ
  pub compress : Bytes → Compressed
  pub decompress : Bytes → Bytes
  pub decompress-compress : (s t : Bytes) → compress s ≡ packed t → decompress t ≡ s
  pub length-compress : (s t : Bytes) → compress s ≡ packed t → 0 < length t

-- StoredCompressor.
abbrev pub stored_compress : Bytes → Compressed
stored_compress s = incompressible
