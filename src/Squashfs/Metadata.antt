-- ===== src/Squashfs/Metadata.antt =====
-- squashfs/metadata.go: metaWriter. The scratch buffer of the compressor carries no content between
-- calls and is left out, as is the count that Write returns, which no caller reads. Offsets are sums
-- of lengths of slices in memory, below 2 ^ 64.
use hpcc.Prelude.{
  ℕ, zero, suc, ◌+◌, ◌-◌, ◌*◌, ◌^◌, Bool, true, false, Option, none, some, List, [], ◌∷◌, ◌++◌,
  Bytes, length, take, drop, ltb, leb, ◌==◌, if◌then◌else◌,
}
use hpcc.Prelude.Endian.{le_bytes}
use hpcc.Squashfs.Compressor.{packed, incompressible, failed, Codec}

abbrev pub metadata_block_size : ℕ
metadata_block_size = 8192

abbrev pub metadata_uncompressed_bit : ℕ
metadata_uncompressed_bit = 2 ^ 15

pub record MetaRef : Type 0 where
  pub block_idx : ℕ
  pub offset : ℕ

pub record MetaBlock : Type 0 where
  pub payload : Bytes
  pub uncompressed : Bool
  pub uncompressed_size : ℕ

pub record MetaWriter : Type 0 where
  pub cur : Bytes
  pub blocks : List MetaBlock

unfoldable pub new_meta_writer : MetaWriter
new_meta_writer = record { cur = []; blocks = [] }

-- The length is below the block size whenever a caller asks, so it fits the 16 bits of the offset.
unfoldable pub ref : MetaWriter → MetaRef
ref m = record { block_idx = length m.blocks; offset = length m.cur }

unfoldable pub push_block : MetaWriter → Bytes → Bool → MetaWriter
push_block m payload uncompressed = record {
  cur = [];
  blocks =
      m.blocks
      ++ record { payload = payload; uncompressed = uncompressed; uncompressed_size = length m.cur }
        ∷ [];
}

unfoldable pub min : ℕ → ℕ → ℕ
min a b = if leb a b then a else b

module _ (c : Codec) where
  -- sealCurrent; none is the compressor's error.
  unfoldable pub seal_current : MetaWriter → Option MetaWriter
  unfolding push_block
  seal_current m = if length m.cur == 0 then some m else elim (c.compress m.cur) [
    | failed ↦ none
    | incompressible ↦ some (push_block m m.cur true)
    | packed out ↦
        if leb (length m.cur) (length out)
        then some (push_block m m.cur true)
        else some (push_block m out false)
  ]

  unfoldable pub flush : MetaWriter → Option MetaWriter
  flush m = seal_current m

  -- What stands in the open block after one round of the loop of Write.
  unfoldable pub filled : MetaWriter → Bytes → MetaWriter
  unfolding min
  filled m p = record m {
    cur = m.cur ++ take (min (length p) (metadata_block_size - length m.cur)) p;
  }

  -- The loop of Write on fuel: none is the compressor's error, or fuel that ran out.
  unfoldable pub write_loop : ℕ → Bytes → MetaWriter → Option MetaWriter
  unfolding filled min
  write_loop fuel [] m = some m
  write_loop zero (b ∷ p) m = none
  write_loop (suc fuel) (b ∷ p) m =
      let n = min (length (b ∷ p)) (metadata_block_size - length m.cur) in
      let m' = filled m (b ∷ p) in
      elim (length m'.cur == metadata_block_size) [
        | false ↦ write_loop fuel (drop n (b ∷ p)) m'
        | true ↦ elim (seal_current m') [
          | none ↦ none
          | some sealed ↦ write_loop fuel (drop n (b ∷ p)) sealed
        ]
      ]

  -- A round takes at least one byte, so that the length is fuel enough.
  unfoldable pub write : MetaWriter → Bytes → Option MetaWriter
  write m p = write_loop (length p) p m

-- BlockByteOffset.
unfoldable pub block_byte_offset : List MetaBlock → ℕ → ℕ
block_byte_offset blocks zero = 0
block_byte_offset [] (suc k) = 0
block_byte_offset (b ∷ blocks) (suc k) = 2 + length b.payload + block_byte_offset blocks k

-- Resolve.
unfoldable pub resolve : List MetaBlock → MetaRef → ℕ
unfolding block_byte_offset
resolve blocks r = block_byte_offset blocks r.block_idx + r.offset

-- The bit is clear in a size that EmitTo lets through, so that `|=` adds it.
unfoldable pub block_header : MetaBlock → ℕ
block_header b = length b.payload + (if b.uncompressed then metadata_uncompressed_bit else 0)

-- EmitTo: what is written, none where a block is too long.
unfoldable pub emit_to : List MetaBlock → Option Bytes
unfolding block_header
emit_to [] = some []
emit_to (b ∷ blocks) =
    let rest = emit_to blocks in
    if ltb metadata_block_size (length b.payload) then none else elim rest [
      | none ↦ none
      | some out ↦ some (le_bytes 2 (block_header b) ++ b.payload ++ out)
    ]

-- metaRef.encode.
unfoldable pub encode_ref : MetaRef → ℕ → ℕ
encode_ref r block_offset = block_offset * 2 ^ 16 + r.offset
