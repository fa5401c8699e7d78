-- ===== src/Squashfs/Examples.antt =====
-- Runs of the image writer on small inputs, and the theorems about it at such inputs.
use hpcc.Prelude.{
  ◌+◌, ◌<◌, ◌≡◌, ◌≢◌, refl, none, some, List, [], ◌∷◌, ◌++◌, Bytes, codes, bytes_eq, bytes_eq_iff,
  length, arith, ℕ, ◌≤◌, take, ◌^◌,
}
use hpcc.Squashfs.{
  DirEntry, write_dir_listing, sort_entries, ref, Codec, packed, failed, stored_compress,
  MetaWriter, new_meta_writer, write, FileWriter, create_file, flush_tail, file, hardlink, Entry,
  inode_body, compute_link_counts, IdTable, new_id_table, intern, write_data, write_lookup,
  write_loop, flush, emit_to, seal_current, block_byte_offset,
}
use hpcc.Prelude.Endian.{le_bytes}
use hpcc.Squashfs.Stream.{concat, write_all}
use hpcc.Squashfs.Readback.{Finished, disk_ref, read_ref, read_ref-write}
use hpcc.Squashfs.Listings.{IsNarrow, read_listing}
use hpcc.Squashfs.Listed.{write_dir_listing-read}
use hpcc.Squashfs.Streaming.{file_write_all}
use hpcc.Squashfs.FileInode.{read_file_inode, entry_of, read_file_inode-inode_body}
use hpcc.Squashfs.LinkOrder.{links_to, compute_link_counts-file}
use hpcc.Squashfs.Interned.{Interned, new_id_table-IsIndexed, intern-Interned}
use hpcc.Squashfs.IdLookup.{read_id, read_id-write_data}

stored_decompress : (s t : Bytes) → stored_compress s ≡ packed t → t ≡ s
stored_decompress s t e = cc

stored_length : (s t : Bytes) → stored_compress s ≡ packed t → 0 < length t
stored_length s t e = cc

-- StoredCompressor, whose blocks are all raw.
abbrev stored : Codec
stored = record {
  id = 1;
  compress = stored_compress;
  decompress = λ s. s;
  decompress-compress = stored_decompress;
  length-compress = stored_length;
}

stored_sound : (s : Bytes) → stored.compress s ≢ failed
stored_sound s e = cc

abbrev plain : Entry
plain = record {
  path = codes "/a";
  kind = file;
  mode = 0o644;
  inode_number = 2;
  nlinks = 1;
  uid_idx = 0;
  gid_idx = 0;
  file_blocks_start = 0;
  file_block_sizes = [];
  file_size = 0;
  symlink_target = [];
  hardlink_target = none;
  dev_major = 0;
  dev_minor = 0;
  dir_block_start = 0;
  dir_block_offset = 0;
  dir_listing_size = 0;
  parent_inode = 1;
}

abbrev link : Entry
link = record plain { kind = hardlink; hardlink_target = some (codes "/a") }

-- Five bytes in two calls of Write, with blocks of four bytes.
abbrev chunks : List Bytes
chunks = (1 ∷ 2 ∷ 3 ∷ []) ∷ (4 ∷ 5 ∷ []) ∷ []

read_file_inode-inode_body_example :
    (f g : FileWriter) × (body : Bytes) × (file_write_all stored 4
        (9 ∷ [])
        (create_file (9 ∷ []) 1)
        chunks
      ≡ some f)
    × (flush_tail stored f ≡ some g)
    × (inode_body (entry_of plain g) 0 4 ≡ some body)
    × (read_file_inode stored 4 body (g.out ++ 8 ∷ []) ≡ concat chunks)
unfolding concat
read_file_inode-inode_body_example =
    read_file_inode-inode_body stored 4 plain 0 (9 ∷ []) (8 ∷ []) chunks (omega arith) (omega arith)
      stored_sound (omega arith) (omega arith)

read_ref-write_example :
    (m n : MetaWriter) × (out : Bytes) × (write_all stored new_meta_writer ((1 ∷ 2 ∷ []) ∷ [])
      ≡ some m)
    × Finished stored m ((3 ∷ 4 ∷ []) ∷ (5 ∷ []) ∷ []) n out
    × (read_ref stored (disk_ref stored m n) out ≡ (3 ∷ 4 ∷ []) ++ concat ((5 ∷ []) ∷ []))
read_ref-write_example =
    read_ref-write stored ((1 ∷ 2 ∷ []) ∷ []) ((5 ∷ []) ∷ []) (3 ∷ 4 ∷ []) stored_sound

-- A hard link that the map visits before its file is not counted.
link_before :
    compute_link_counts ((codes "/b", link) ∷ (codes "/a", plain) ∷ []) (λ _. 0) (codes "/a") ≡ 1
unfolding compute_link_counts bytes_eq
link_before = refl

link_behind :
    compute_link_counts ((codes "/a", plain) ∷ (codes "/b", link) ∷ []) (λ _. 0) (codes "/a") ≡ 2
unfolding compute_link_counts bytes_eq
link_behind = refl

distinct : codes "/c" ≢ codes "/a"
unfolding bytes_eq
distinct e = let t = (bytes_eq_iff (codes "/c") (codes "/a")).1 e in cc

compute_link_counts-file_example :
    compute_link_counts
      (((codes "/b", link) ∷ []) ++ (codes "/a", plain) ∷ (codes "/c", link) ∷ [])
      (λ _. 0)
      (codes "/a")
    ≡ 1 + links_to (codes "/a") ((codes "/c", link) ∷ [])
compute_link_counts-file_example =
    compute_link_counts-file (codes "/a") plain ((codes "/b", link) ∷ []) ((codes "/c", link) ∷ [])
      (λ _. 0) refl (distinct, tt) (omega arith)

intern-Interned_example : Interned new_id_table 1000 (intern new_id_table 1000)
intern-Interned_example = intern-Interned new_id_table 1000 new_id_table-IsIndexed

abbrev owners : IdTable
owners = record { index = (7, 1) ∷ (1000, 0) ∷ []; list = 1000 ∷ 7 ∷ [] }

abbrev owner_table : Bytes
owner_table = 8 ∷ 128 ∷ 232 ∷ 3 ∷ 0 ∷ 0 ∷ 7 ∷ 0 ∷ 0 ∷ 0 ∷ []

owners_written : write_data stored owners 96 ≡ some (96 ∷ [], owner_table)
unfolding write_data write write_loop new_meta_writer le_bytes flush emit_to seal_current
    block_byte_offset
owners_written = refl

read_id-write_data_example : read_id stored 96 (write_lookup (96 ∷ [])) owner_table 1 ≡ 7
read_id-write_data_example =
    read_id-write_data stored owners 96 1 7 (96 ∷ []) owner_table owners_written (omega arith)
      (omega arith) refl

-- Two entries under one header, given in the wrong order.
abbrev two_entries : List DirEntry
two_entries =
    record {
      name = codes "b";
      child_inode = 3;
      inode_block_byte = 0;
      inode_block_off = 64;
      basic_type = 2;
    }
    ∷ record {
      name = codes "a";
      child_inode = 2;
      inode_block_byte = 0;
      inode_block_off = 32;
      basic_type = 1;
    }
    ∷ []

entry-IsNarrow :
    (e : DirEntry)
    → (0 < length e.name) × (length e.name ≤ 256)
    → (e.child_inode < 2 ^ 32) × (e.inode_block_byte < 2 ^ 32)
    → (e.inode_block_off < 2 ^ 16) × (e.basic_type < 2 ^ 16)
    → IsNarrow e
entry-IsNarrow e n i t = record {
  named = n.0;
  short = n.1;
  inode = i.0;
  block = i.1;
  off = t.0;
  typed = t.1;
}

write_dir_listing-read_example :
    (l n : MetaWriter) × (size : ℕ) × (out : Bytes) × (write_dir_listing stored new_meta_writer
        two_entries
      ≡ some (ref new_meta_writer, size, l))
    × Finished stored l ((7 ∷ []) ∷ []) n out
    × (read_listing
          (length (sort_entries two_entries))
          (take size (read_ref stored (disk_ref stored new_meta_writer n) out))
        ≡ sort_entries two_entries)
unfolding new_meta_writer
write_dir_listing-read_example =
    write_dir_listing-read stored new_meta_writer two_entries ((7 ∷ []) ∷ [])
      (record { room = omega arith; short = tt })
      (
        entry-IsNarrow _ (omega arith, omega arith) (omega arith, omega arith)
            (omega arith, omega arith),
        (
          entry-IsNarrow _ (omega arith, omega arith) (omega arith, omega arith)
              (omega arith, omega arith),
          tt,
        ),
      )
      stored_sound
