-- ===== src/Squashfs/Links.antt =====
-- computeLinkCounts of squashfs/writer.go: its first loop, over the entries in the order in which
-- `range` visits the map, on the link count that each path's entry has.
use hpcc.Prelude.{
  ℕ, ◌+◌, ◌%◌, ◌^◌, Option, none, some, List, [], ◌∷◌, Bytes, bytes_eq, if◌then◌else◌,
}
use hpcc.Squashfs.Inodes.{
  Kind, file, dir, symlink, hardlink, char_dev, block_dev, fifo, socket, Entry,
}

unfoldable pub set_count : (Bytes → ℕ) → Bytes → ℕ → Bytes → ℕ
set_count counts p n q = if bytes_eq p q then n else counts q

-- The switch on an entry's kind.
unfoldable pub count_kind : Kind → Option Bytes → Bytes → (Bytes → ℕ) → Bytes → ℕ
unfolding set_count
count_kind hardlink none p counts = counts
count_kind hardlink (some target) p counts = set_count counts target ((counts target + 1) % 2 ^ 32)
count_kind dir o p counts = counts
count_kind file o p counts = set_count counts p 1
count_kind symlink o p counts = set_count counts p 1
count_kind char_dev o p counts = set_count counts p 1
count_kind block_dev o p counts = set_count counts p 1
count_kind fifo o p counts = set_count counts p 1
count_kind socket o p counts = set_count counts p 1

unfoldable pub compute_link_counts : List (Bytes × Entry) → (Bytes → ℕ) → Bytes → ℕ
unfolding count_kind
compute_link_counts [] counts = counts
compute_link_counts ((p, e) ∷ entries) counts =
    compute_link_counts entries (count_kind e.kind e.hardlink_target p counts)

-- The second loop: a directory has two links and one for each child that is a directory.
unfoldable dir_links : List Entry → ℕ
dir_links [] = 2
dir_links (e ∷ children) =
    let n = dir_links children in elim e.kind [ dir ↦ (n + 1) % 2 ^ 32 | _ ↦ n ]
