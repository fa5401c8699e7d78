-- ===== src/Squashfs/Ids.antt =====
-- squashfs/idtable.go: the table of the owners' numbers. The index is an association list; the
-- buffers that are filled field after field are sequences of fields.
use hpcc.Prelude.{
  ℕ, ◌+◌, ◌%◌, Option, none, some, List, [], ◌∷◌, ◌++◌, map, Bytes, length, leb, ◌==◌,
  if◌then◌else◌,
}
use hpcc.Prelude.Endian.{le_bytes}
use hpcc.Squashfs.Compressor.{Codec}
use hpcc.Squashfs.Metadata.{MetaWriter, new_meta_writer, write, flush, block_byte_offset, emit_to}

abbrev pub ids_per_meta_block : ℕ
ids_per_meta_block = 2048

abbrev pub max_ids : ℕ
max_ids = 0xffff

pub record IdTable : Type 0 where
  pub index : List (ℕ × ℕ)
  pub list : List ℕ

unfoldable pub new_id_table : IdTable
new_id_table = record { index = []; list = [] }

unfoldable pub find_id : ℕ → List (ℕ × ℕ) → Option ℕ
find_id id [] = none
find_id id ((j, n) ∷ index) = if j == id then some n else find_id id index

unfoldable pub intern : IdTable → ℕ → Option (IdTable × ℕ)
intern t id = elim (find_id id t.index) [
  | some n ↦ some (t, n)
  | none ↦
      if leb max_ids (length t.list)
      then none
      else some (
        record { index = (id, length t.list) ∷ t.index; list = t.list ++ id ∷ [] },
        length t.list,
      )
]

module _ (c : Codec) where
  -- What a round does at the start of a batch: the block is sealed, and its index is noted.
  unfoldable pub batch_start : ℕ → MetaWriter → Option (MetaWriter × List ℕ)
  batch_start i m =
      if i % ids_per_meta_block == 0
      then elim (if i == 0 then some m else flush c m) [
        | none ↦ none
        | some m' ↦ some (m', length m'.blocks ∷ [])
      ]
      else some (m, [])

  -- The loop over the ids: the writer behind it, and the blocks at which the batches start.
  unfoldable pub id_rounds : ℕ → List ℕ → MetaWriter → Option (MetaWriter × List ℕ)
  unfolding batch_start
  id_rounds i [] m = some (m, [])
  id_rounds i (id ∷ ids) m = elim (batch_start i m) [
    | none ↦ none
    | some (m', started) ↦ elim (write c m' (le_bytes 4 id)) [
      | none ↦ none
      | some n ↦ elim (id_rounds (i + 1) ids n) [
        | none ↦ none
        | some (l, starts) ↦ some (l, started ++ starts)
      ]
    ]
  ]

  -- WriteData: the offsets of the blocks and what is written.
  unfoldable pub write_data : IdTable → ℕ → Option (List ℕ × Bytes)
  unfolding id_rounds
  write_data t base =
      if length t.list == 0 then some ([], []) else elim (id_rounds 0 t.list new_meta_writer) [
        | none ↦ none
        | some (l, starts) ↦ elim (flush c l) [
          | none ↦ none
          | some n ↦ elim (emit_to n.blocks) [
            | none ↦ none
            | some out ↦ some (map (λ s. base + block_byte_offset n.blocks s) starts, out)
          ]
        ]
      ]

unfoldable pub write_lookup : List ℕ → Bytes
write_lookup [] = []
write_lookup (o ∷ offsets) = le_bytes 8 o ++ write_lookup offsets
