-- ===== src/Squashfs/Files.antt =====
-- fileWriter of squashfs/writer.go: how a file's content reaches the output. A failing call, after
-- which every caller gives the image up, is none; the scratch buffer is left out.
use hpcc.Prelude.{
  ℕ, zero, suc, ◌+◌, ◌-◌, ◌^◌, Bool, true, false, Option, none, some, List, [], ◌∷◌, ◌++◌, Bytes,
  length, take, drop, leb, ◌==◌, if◌then◌else◌,
}
use hpcc.Squashfs.Compressor.{packed, incompressible, failed, Codec}
use hpcc.Squashfs.Metadata.{min}

abbrev pub data_block_uncompressed_bit : ℕ
data_block_uncompressed_bit = 2 ^ 24

-- A file writer with what it changes of its Writer (output, position, closed) and of its entry.
pub record FileWriter : Type 0 where
  pub out : Bytes
  pub out_pos : ℕ
  pub closed : Bool
  pub blocks_start : ℕ
  pub block_sizes : List ℕ
  pub file_size : ℕ
  pub buf : Bytes
  pub stale : Bool

-- What CreateFile makes of a Writer that is open.
unfoldable pub create_file : Bytes → ℕ → FileWriter
create_file out out_pos = record {
  out = out;
  out_pos = out_pos;
  closed = false;
  blocks_start = out_pos;
  block_sizes = [];
  file_size = 0;
  buf = [];
  stale = false;
}

-- The block is below 2 ^ 24 bytes, so that `|` adds the bit.
unfoldable pub size_word : Bytes → Bool → ℕ
size_word disk raw = length disk + (if raw then data_block_uncompressed_bit else 0)

unfoldable pub put_block : FileWriter → Bytes → Bool → FileWriter
unfolding size_word
put_block f disk raw = record f {
  out = f.out ++ disk;
  out_pos = f.out_pos + length disk;
  block_sizes = f.block_sizes ++ size_word disk raw ∷ [];
  buf = [];
}

module _ (c : Codec) where
  unfoldable pub emit_block : FileWriter → Option FileWriter
  unfolding put_block
  emit_block f = if length f.buf == 0 then some f else elim (c.compress f.buf) [
    | failed ↦ none
    | incompressible ↦ some (put_block f f.buf true)
    | packed out ↦
        if leb (length f.buf) (length out)
        then some (put_block f f.buf true)
        else some (put_block f out false)
  ]

  unfoldable pub flush_tail : FileWriter → Option FileWriter
  flush_tail f = if length f.buf == 0 then some f else emit_block f

  module _ (block_size : ℕ) where
    -- The loop of Write on fuel.
    unfoldable pub file_loop : ℕ → Bytes → FileWriter → Option FileWriter
    unfolding min
    file_loop fuel [] f = some f
    file_loop zero (b ∷ p) f = none
    file_loop (suc fuel) (b ∷ p) f =
        let n = min (length (b ∷ p)) (block_size - length f.buf) in
        let f' : FileWriter = record f { buf = f.buf ++ take n (b ∷ p) } in
        elim (length f'.buf == block_size) [
          | false ↦ file_loop fuel (drop n (b ∷ p)) f'
          | true ↦ elim (emit_block f') [
            | none ↦ none
            | some emptied ↦ file_loop fuel (drop n (b ∷ p)) emptied
          ]
        ]

    -- Write: the loop has taken all of p where it ends without an error.
    unfoldable pub file_write : FileWriter → Bytes → Option FileWriter
    file_write f p =
        let looped = file_loop (length p) p f in
        if f.stale then none else if f.closed then none else elim looped [
          | none ↦ none
          | some f' ↦ some (record f' { file_size = f'.file_size + length p })
        ]
