-- ===== src/Squashfs/Listing.antt =====
-- squashfs/directory.go: writeDirListing. Names are distinct, so that sort.Slice has one result. The
-- count of bytes is a sum of lengths in memory, below 2 ^ 32.
use hpcc.Prelude.{
  ℕ, zero, suc, ◌+◌, ◌-◌, ◌%◌, ◌^◌, Bool, not, ◌||◌, Option, none, some, List, [], ◌∷◌, ◌++◌, Bytes,
  length, take, drop, ltb, ◌==◌, if◌then◌else◌,
}
use hpcc.Prelude.Endian.{le_bytes}
use hpcc.Compiler.Key.{bytes_lt}
use hpcc.Squashfs.Compressor.{Codec}
use hpcc.Squashfs.Metadata.{MetaRef, MetaWriter, ref, write}

pub record DirEntry : Type 0 where
  pub name : Bytes
  pub child_inode : ℕ
  pub inode_block_byte : ℕ
  pub inode_block_off : ℕ
  pub basic_type : ℕ

unfoldable pub place_entry : DirEntry → List DirEntry → List DirEntry
place_entry e [] = e ∷ []
place_entry e (f ∷ entries) =
    if bytes_lt f.name e.name then f ∷ place_entry e entries else e ∷ f ∷ entries

unfoldable pub sort_entries : List DirEntry → List DirEntry
unfolding place_entry
sort_entries [] = []
sort_entries (e ∷ entries) = place_entry e (sort_entries entries)

-- The difference to the header's inode number leaves the range of an int16.
unfoldable pub far_apart : DirEntry → DirEntry → Bool
far_apart base e =
    ltb (base.child_inode + 32767) e.child_inode || ltb (e.child_inode + 32768) base.child_inode

-- How many of the next entries, and at most so many, go under the header of base.
unfoldable pub run_length : DirEntry → ℕ → List DirEntry → ℕ
unfolding far_apart
run_length base zero entries = 0
run_length base (suc k) [] = 0
run_length base (suc k) (e ∷ entries) =
    let rest = run_length base k entries in
    if not (e.inode_block_byte == base.inode_block_byte)
    then 0
    else if far_apart base e
    then 0
    else suc rest

unfoldable pub group_header : DirEntry → ℕ → Bytes
group_header base more =
    le_bytes 4 more ++ (le_bytes 4 base.inode_block_byte ++ le_bytes 4 base.child_inode)

-- uint16(int16(e - base)).
unfoldable pub inode_delta : DirEntry → DirEntry → ℕ
inode_delta base e = (e.child_inode + 2 ^ 32 - base.child_inode) % 2 ^ 16

unfoldable pub entry_bytes : DirEntry → DirEntry → Bytes
unfolding inode_delta
entry_bytes base e =
    le_bytes 2 e.inode_block_off
    ++ (le_bytes 2 (inode_delta base e)
        ++ (le_bytes 2 e.basic_type ++ (le_bytes 2 (length e.name - 1) ++ e.name)))

module _ (c : Codec) where
  -- The entries of one group; none is a name of a wrong length or the compressor's error.
  unfoldable pub write_entries : DirEntry → List DirEntry → MetaWriter → Option (MetaWriter × ℕ)
  unfolding entry_bytes
  write_entries base [] m = some (m, 0)
  write_entries base (e ∷ entries) m =
      if length e.name == 0 || ltb 256 (length e.name)
      then none
      else elim (write c m (entry_bytes base e)) [
        | none ↦ none
        | some n ↦ elim (write_entries base entries n) [
          | none ↦ none
          | some (l, k) ↦ some (l, length (entry_bytes base e) + k)
        ]
      ]

  -- The loop over the groups, on fuel: a group takes one entry at least.
  unfoldable pub write_groups : ℕ → List DirEntry → MetaWriter → Option (MetaWriter × ℕ)
  unfolding run_length group_header write_entries
  write_groups fuel [] m = some (m, 0)
  write_groups zero (base ∷ entries) m = none
  write_groups (suc fuel) (base ∷ entries) m =
      let n = run_length base 255 entries in
      elim (write c m (group_header base n)) [
        | none ↦ none
        | some h ↦ elim (write_entries base (base ∷ take n entries) h) [
          | none ↦ none
          | some (g, k) ↦ elim (write_groups fuel (drop n entries) g) [
            | none ↦ none
            | some (l, j) ↦ some (l, 12 + k + j)
          ]
        ]
      ]

  -- writeDirListing: the start of the listing, its size, and the table.
  unfoldable pub write_dir_listing : MetaWriter → List DirEntry → Option (MetaRef × ℕ × MetaWriter)
  unfolding sort_entries write_groups ref
  write_dir_listing m entries =
      elim (write_groups (length (sort_entries entries)) (sort_entries entries) m) [
        | none ↦ none
        | some (l, n) ↦ some (ref m, n, l)
      ]
