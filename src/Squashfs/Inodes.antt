-- ===== src/Squashfs/Inodes.antt =====
-- squashfs/inode.go and squashfs/superblock.go: entries, their inodes on disk, and the superblock. A
-- buffer that is filled field after field is the sequence of its fields.
use hpcc.Prelude.{
  ℕ, ◌+◌, ◌-◌, ◌*◌, ◌/◌, ◌%◌, ◌^◌, Bool, true, false, not, Option, none, some, List, [], ◌∷◌, ◌++◌,
  Bytes, length, ltb, ◌==◌, if◌then◌else◌,
}
use hpcc.Prelude.Endian.{le_bytes}

pub data Kind : Type 0 where
  file : Kind
  dir : Kind
  symlink : Kind
  hardlink : Kind
  char_dev : Kind
  block_dev : Kind
  fifo : Kind
  socket : Kind

-- An entry points at a hard link's target by the target's path: entries are never replaced.
pub record Entry : Type 0 where
  pub path : Bytes
  pub kind : Kind
  pub mode : ℕ
  pub inode_number : ℕ
  pub nlinks : ℕ
  pub uid_idx : ℕ
  pub gid_idx : ℕ
  pub file_blocks_start : ℕ
  pub file_block_sizes : List ℕ
  pub file_size : ℕ
  pub symlink_target : Bytes
  pub hardlink_target : Option Bytes
  pub dev_major : ℕ
  pub dev_minor : ℕ
  pub dir_block_start : ℕ
  pub dir_block_offset : ℕ
  pub dir_listing_size : ℕ
  pub parent_inode : ℕ

abbrev pub invalid_fragment : ℕ
invalid_fragment = 0xffff_ffff

-- The permission bits are the lowest nine, and 07000 masks the next three.
unfoldable encode_perm : Entry → ℕ
encode_perm e = e.mode % 2 ^ 9 + e.mode / 2 ^ 9 % 2 ^ 3 * 2 ^ 9

-- encodeDevice; the minor number is below 2 ^ 8 where it is put in.
unfoldable encode_device : ℕ → ℕ → Option ℕ
encode_device major minor =
    if ltb 0xfff major then none else if ltb 0xff minor then none else some (major * 2 ^ 8 + minor)

unfoldable pub common_header : ℕ → Entry → ℕ → Bytes
unfolding encode_perm
common_header typ e mtime =
    le_bytes 2 typ
    ++ (le_bytes 2 (encode_perm e)
        ++ (le_bytes 2 e.uid_idx
            ++ (le_bytes 2 e.gid_idx ++ (le_bytes 4 mtime ++ le_bytes 4 e.inode_number))))

unfoldable encode_basic_dir : Entry → ℕ → Option Bytes
unfolding common_header
encode_basic_dir e mtime =
    let listing_size = (e.dir_listing_size + 3) % 2 ^ 32 in
    if ltb 0xffff_ffff e.dir_block_start
    then none
    else if ltb 0xffff listing_size
    then none
    else some (
        common_header 1 e mtime
        ++ (le_bytes 4 e.dir_block_start
            ++ (le_bytes 4 e.nlinks
                ++ (le_bytes 2 listing_size
                    ++ (le_bytes 2 e.dir_block_offset ++ le_bytes 4 e.parent_inode)))))

-- The block sizes at the end of a file's inode.
unfoldable pub size_list : List ℕ → Bytes
size_list [] = []
size_list (s ∷ sizes) = le_bytes 4 s ++ size_list sizes

unfoldable pub encode_basic_file : Entry → ℕ → ℕ → Option Bytes
unfolding common_header size_list
encode_basic_file e mtime block_size =
    if ltb 0xffff_ffff e.file_blocks_start
    then none
    else if ltb 0xffff_ffff e.file_size
    then none
    else if not (length e.file_block_sizes == (e.file_size + block_size - 1) / block_size)
    then none
    else some (
        common_header 2 e mtime
        ++ (le_bytes 4 e.file_blocks_start
            ++ (le_bytes 4 invalid_fragment
                ++ (le_bytes 4 0 ++ (le_bytes 4 e.file_size ++ size_list e.file_block_sizes)))))

unfoldable encode_basic_symlink : Entry → ℕ → Option Bytes
unfolding common_header
encode_basic_symlink e mtime =
    if ltb 0xffff (length e.symlink_target)
    then none
    else some (
        common_header 3 e mtime
        ++ (le_bytes 4 e.nlinks ++ (le_bytes 4 (length e.symlink_target) ++ e.symlink_target)))

unfoldable encode_basic_device : Entry → ℕ → Bool → Option Bytes
unfolding common_header encode_device
encode_basic_device e mtime block = elim (encode_device e.dev_major e.dev_minor) [
  | none ↦ none
  | some dev ↦
      some
        (common_header (if block then 4 else 5) e mtime ++ (le_bytes 4 e.nlinks ++ le_bytes 4 dev))
]

unfoldable encode_basic_ipc : Entry → ℕ → Bool → Bytes
unfolding common_header
encode_basic_ipc e mtime socket_kind =
    common_header (if socket_kind then 7 else 6) e mtime ++ le_bytes 4 e.nlinks

-- What writeOneInode puts into the inode table for an entry whose time is known.
unfoldable pub inode_body : Entry → ℕ → ℕ → Option Bytes
unfolding encode_basic_file encode_basic_dir encode_basic_symlink encode_basic_device
    encode_basic_ipc
inode_body e mtime block_size = elim e.kind [
  | file ↦ encode_basic_file e mtime block_size
  | dir ↦ encode_basic_dir e mtime
  | symlink ↦ encode_basic_symlink e mtime
  | char_dev ↦ encode_basic_device e mtime false
  | block_dev ↦ encode_basic_device e mtime true
  | fifo ↦ some (encode_basic_ipc e mtime false)
  | socket ↦ some (encode_basic_ipc e mtime true)
  | hardlink ↦ none
]

pub record Superblock : Type 0 where
  pub inode_count : ℕ
  pub mod_time : ℕ
  pub block_size : ℕ
  pub frag_count : ℕ
  pub compressor : ℕ
  pub block_log : ℕ
  pub flags : ℕ
  pub id_count : ℕ
  pub root_inode_ref : ℕ
  pub bytes_used : ℕ
  pub id_table_start : ℕ
  pub xattr_table_start : ℕ
  pub inode_table_start : ℕ
  pub directory_table_start : ℕ
  pub fragment_table_start : ℕ
  pub export_table_start : ℕ

-- Fields one behind the other, each with its width.
unfoldable pub fields : List (ℕ × ℕ) → Bytes
fields [] = []
fields ((width, n) ∷ rest) = le_bytes width n ++ fields rest

-- superblock.encode.
unfoldable encode_superblock : Superblock → Bytes
unfolding fields
encode_superblock sb = fields (
    (4, 0x7371_7368)
    ∷ (4, sb.inode_count)
    ∷ (4, sb.mod_time)
    ∷ (4, sb.block_size)
    ∷ (4, sb.frag_count)
    ∷ (2, sb.compressor)
    ∷ (2, sb.block_log)
    ∷ (2, sb.flags)
    ∷ (2, sb.id_count)
    ∷ (2, 4)
    ∷ (2, 0)
    ∷ (8, sb.root_inode_ref)
    ∷ (8, sb.bytes_used)
    ∷ (8, sb.id_table_start)
    ∷ (8, sb.xattr_table_start)
    ∷ (8, sb.inode_table_start)
    ∷ (8, sb.directory_table_start)
    ∷ (8, sb.fragment_table_start)
    ∷ (8, sb.export_table_start)
    ∷ [])
