-- ===== src/Squashfs/LinkOrder.antt =====
-- The link count of a file depends on the order in which the map of entries is visited.
use hpcc.Prelude.{
  ℕ, ◌+◌, ◌^◌, ◌≤◌, ◌<◌, ◌≡◌, ◌≢◌, refl, ap, ◌∙◌, Option, none, some, List, [], ◌∷◌, ◌++◌, Bytes,
  bytes_eq, bytes_eq_iff, if◌then◌else◌, length, All, Bool-cases, inl, inr, arith,
}
use hpcc.Squashfs.Inodes.{
  Kind, file, dir, symlink, hardlink, char_dev, block_dev, fifo, socket, Entry,
}
use hpcc.Squashfs.Links.{set_count, count_kind, compute_link_counts}

-- How many of the entries are hard links to a path.
abbrev pub link_to : Bytes → Kind → Option Bytes → ℕ
link_to t hardlink (some target) = if bytes_eq target t then 1 else 0
link_to t _ _ = 0

abbrev pub links_to : Bytes → List (Bytes × Entry) → ℕ
links_to t [] = 0
links_to t ((p, e) ∷ entries) = link_to t e.kind e.hardlink_target + links_to t entries

link_to-le : (t : Bytes) (k : Kind) (o : Option Bytes) → link_to t k o ≤ 1
link_to-le t hardlink none = omega arith
link_to-le t hardlink (some target) = ground arith
link_to-le t file o = omega arith
link_to-le t dir o = omega arith
link_to-le t symlink o = omega arith
link_to-le t char_dev o = omega arith
link_to-le t block_dev o = omega arith
link_to-le t fifo o = omega arith
link_to-le t socket o = omega arith

set_file :
    (e : Entry) (t : Bytes) (counts : Bytes → ℕ)
    → e.kind ≡ file
    → count_kind e.kind e.hardlink_target t counts t ≡ 1
unfolding count_kind set_count
set_file e t counts k = rw (k, (bytes_eq_iff t t).1 refl) refl

-- An entry of another path adds to a count where it links to it.
count_kind-other :
    (k : Kind) (o : Option Bytes) (t p : Bytes) (counts : Bytes → ℕ)
    → p ≢ t
    → counts t + 1 < 2 ^ 32
    → count_kind k o p counts t ≡ counts t + link_to t k o
unfolding count_kind
count_kind-other hardlink none t p counts h small = omega arith
count_kind-other hardlink (some target) t p counts h small = elim (Bool-cases (bytes_eq target t)) [
  | inl e ↦ rw (e, ap counts ((bytes_eq_iff target t).0 e)) (omega arith)
  | inr e ↦ rw e (omega arith)
]
count_kind-other dir o t p counts h small = omega arith
count_kind-other file o t p counts h small = ground (arith, bytes_eq_iff p t)
count_kind-other symlink o t p counts h small = ground (arith, bytes_eq_iff p t)
count_kind-other char_dev o t p counts h small = ground (arith, bytes_eq_iff p t)
count_kind-other block_dev o t p counts h small = ground (arith, bytes_eq_iff p t)
count_kind-other fifo o t p counts h small = ground (arith, bytes_eq_iff p t)
count_kind-other socket o t p counts h small = ground (arith, bytes_eq_iff p t)

-- No entry of the list has the path.
abbrev pub Apart : Bytes → List (Bytes × Entry) → Type 0
Apart t entries = All (λ e. e.0 ≢ t) entries

-- Entries of other paths add their links to a count.
compute-others :
    (t : Bytes) (entries : List (Bytes × Entry)) (counts : Bytes → ℕ)
    → Apart t entries
    → counts t + length entries < 2 ^ 32
    → compute_link_counts entries counts t ≡ counts t + links_to t entries
unfolding compute_link_counts
compute-others t [] counts h small = omega arith
compute-others t ((p, e) ∷ entries) counts h small =
    let first = count_kind-other e.kind e.hardlink_target t p counts h.0 (omega arith) in
    let bound = link_to-le t e.kind e.hardlink_target in
    compute-others t entries (count_kind e.kind e.hardlink_target p counts) h.1 (omega arith)
    ∙ omega arith

compute-append :
    (xs ys : List (Bytes × Entry)) (counts : Bytes → ℕ)
    → compute_link_counts (xs ++ ys) counts ≡ compute_link_counts ys (compute_link_counts xs counts)
unfolding compute_link_counts
compute-append [] ys counts = refl
compute-append ((p, e) ∷ xs) ys counts =
    compute-append xs ys (count_kind e.kind e.hardlink_target p counts)

-- Whatever the order in which the map of entries is visited, the first loop of compute_link_counts
-- leaves the entry of a file with one link and one for each hard link to it that is visited behind
-- it, so those that are visited before it are not counted; no entry behind has the path of the
-- file, and fewer than 2^31 entries stand behind.
pub compute_link_counts-file :
    (t : Bytes) (e : Entry) (before behind : List (Bytes × Entry)) (counts : Bytes → ℕ)
    → e.kind ≡ file
    → Apart t behind
    → length behind < 2 ^ 31
    → compute_link_counts (before ++ (t, e) ∷ behind) counts t ≡ 1 + links_to t behind
unfolding compute_link_counts
compute_link_counts-file t e before behind counts k h small =
    let held = compute_link_counts before counts in
    let one : count_kind e.kind e.hardlink_target t held t ≡ 1 = set_file e t held k in
    ap (λ f. f t) (compute-append before ((t, e) ∷ behind) counts)
    ∙ compute-others t behind (count_kind e.kind e.hardlink_target t held) h (omega arith)
    ∙ omega arith
