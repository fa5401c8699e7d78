-- ===== src/Squashfs/Listings.antt =====
-- A directory listing on disk, read the way a kernel reads it.
use hpcc.Prelude.{
  ℕ, zero, suc, ◌+◌, ◌-◌, ◌^◌, ◌≤◌, ◌<◌, ◌≡◌, refl, sym, ap, subst, ◌∙◌, true, false, List, [], ◌∷◌,
  ◌++◌, Bytes, length, take, drop, ltb, ◌==◌, if◌then◌else◌, All, take-length-append,
  drop-length-append, take-append-drop, length-take, length-drop, inl, inr, Bool-cases, arith,
}
use mathlib.Core.List.{append_assoc}
use hpcc.Prelude.Endian.{le_bytes, le_value, le_value-le_bytes}
use hpcc.Squashfs.Listing.{DirEntry, far_apart, run_length, group_header, inode_delta, entry_bytes}

-- What the next entry says, under a header with an inode number and a block.
unfoldable pub read_entry : ℕ → ℕ → Bytes → DirEntry
read_entry inode block s =
    let delta = le_value (take 2 (drop 2 s)) in
    record {
      name = take (le_value (take 2 (drop 6 s)) + 1) (drop 8 s);
      child_inode = if ltb delta (2 ^ 15) then inode + delta else inode + delta - 2 ^ 16;
      inode_block_byte = block;
      inode_block_off = le_value (take 2 s);
      basic_type = le_value (take 2 (drop 4 s));
    }

unfoldable read_entries : ℕ → ℕ → ℕ → Bytes → List DirEntry × Bytes
unfolding read_entry
read_entries zero inode block s = ([], s)
read_entries (suc k) inode block s =
    let rest = read_entries k inode block (drop (le_value (take 2 (drop 6 s)) + 1) (drop 8 s)) in
    (read_entry inode block s ∷ rest.0, rest.1)

-- The fields fit their widths, and a name has 1 to 256 bytes.
pub record IsNarrow (e : DirEntry) : Type 0 where
  pub named : 0 < length e.name
  pub short : length e.name ≤ 256
  pub inode : e.child_inode < 2 ^ 32
  pub block : e.inode_block_byte < 2 ^ 32
  pub off : e.inode_block_off < 2 ^ 16
  pub typed : e.basic_type < 2 ^ 16

-- An entry may stand under the header of another.
pub record Under (base e : DirEntry) : Type 0 where
  pub same : e.inode_block_byte ≡ base.inode_block_byte
  pub above : e.child_inode ≤ base.child_inode + 32767
  pub below : base.child_inode ≤ e.child_inode + 32768

delta_reads :
    (base e : DirEntry)
    → IsNarrow base
    → Under base e
    → (if ltb (inode_delta base e) (2 ^ 15)
        then base.child_inode + inode_delta base e
        else base.child_inode + inode_delta base e - 2 ^ 16)
      ≡ e.child_inode
unfolding inode_delta
delta_reads base e v u = ground arith

inode_delta-lt : (base e : DirEntry) → inode_delta base e < 256 ^ 2
unfolding inode_delta
inode_delta-lt base e = omega arith

-- The length that an entry gives for its name.
name_length :
    (e : DirEntry) → IsNarrow e → le_value (le_bytes 2 (length e.name - 1)) + 1 ≡ length e.name
name_length e v =
    let short = v.short in
    let named = v.named in
    ap (λ n. n + 1) (le_value-le_bytes 2 (length e.name - 1) (omega arith)) ∙ omega arith

read_entry-entry_bytes :
    (base e : DirEntry) (s : Bytes)
    → IsNarrow base
    → IsNarrow e
    → Under base e
    → read_entry base.child_inode base.inode_block_byte (entry_bytes base e ++ s) ≡ e
unfolding read_entry entry_bytes le_bytes
read_entry-entry_bytes base e s v w u =
    let named : take (le_value (le_bytes 2 (length e.name - 1)) + 1) (e.name ++ s) ≡ e.name =
      ap (λ n. take n (e.name ++ s)) (name_length e w) ∙ take-length-append e.name s in
    let child =
      ap (λ (d : ℕ). if ltb d (2 ^ 15) then base.child_inode + d else base.child_inode + d - 2 ^ 16)
        (le_value-le_bytes 2 (inode_delta base e) (inode_delta-lt base e))
      ∙ delta_reads base e v u in
    let off = le_value-le_bytes 2 e.inode_block_off w.off in
    let typed = le_value-le_bytes 2 e.basic_type w.typed in
    let block = sym u.same in
    λ i. record {
      name = named i;
      child_inode = child i;
      inode_block_byte = block i;
      inode_block_off = off i;
      basic_type = typed i;
    }

-- The entries of a group, one behind the other.
unfoldable pub entries_bytes : DirEntry → List DirEntry → Bytes
entries_bytes base [] = []
entries_bytes base (e ∷ entries) = entry_bytes base e ++ entries_bytes base entries

skip_entry :
    (base e : DirEntry) (s : Bytes)
    → IsNarrow e
    → drop
        (le_value (take 2 (drop 6 (entry_bytes base e ++ s))) + 1)
        (drop 8 (entry_bytes base e ++ s))
      ≡ s
unfolding entry_bytes le_bytes
skip_entry base e s w =
    ap (λ n. drop n (e.name ++ s)) (name_length e w) ∙ drop-length-append e.name s

read_entries-entries_bytes :
    (base : DirEntry) (entries : List DirEntry) (s : Bytes)
    → IsNarrow base
    → All IsNarrow entries
    → All (Under base) entries
    → read_entries
        (length entries)
        base.child_inode
        base.inode_block_byte
        (entries_bytes base entries ++ s)
      ≡ (entries, s)
unfolding read_entries entries_bytes
read_entries-entries_bytes base [] s v w u = refl
read_entries-entries_bytes base (e ∷ entries) s v w u =
    let behind = entries_bytes base entries ++ s in
    let rest =
      ap (read_entries (length entries) base.child_inode base.inode_block_byte)
        (skip_entry base e behind w.0)
      ∙ read_entries-entries_bytes base entries s v w.1 u.1 in
    subst
      (λ t.
        read_entries (suc (length entries)) base.child_inode base.inode_block_byte t
        ≡ (e ∷ entries, s))
      (sym (append_assoc (entry_bytes base e) (entries_bytes base entries) s))
      (λ i. (read_entry-entry_bytes base e behind v w.0 u.0 i ∷ (rest i).0, (rest i).1))

near-Under :
    (base e : DirEntry)
    → (e.inode_block_byte == base.inode_block_byte) ≡ true
    → far_apart base e ≡ false
    → Under base e
unfolding far_apart
near-Under base e b f = record { same = ground arith; above = ground arith; below = ground arith }

-- The entries that run_length counts may stand under the header.
run_length-Under :
    (base : DirEntry) (k : ℕ) (entries : List DirEntry)
    → (run_length base k entries ≤ k)
      × (run_length base k entries ≤ length entries)
      × All (Under base) (take (run_length base k entries) entries)
unfolding run_length
run_length-Under base zero entries = (omega arith, omega arith, tt)
run_length-Under base (suc k) [] = (omega arith, omega arith, tt)
run_length-Under base (suc k) (e ∷ entries) =
    elim (Bool-cases (e.inode_block_byte == base.inode_block_byte)) [
      | inr other ↦ rw other (omega arith, omega arith, tt)
      | inl same ↦ elim (Bool-cases (far_apart base e)) [
        | inl far ↦ rw (same, far) (omega arith, omega arith, tt)
        | inr near ↦
            let (low, fits, under) = run_length-Under base k entries in
            rw (same, near) (omega arith, omega arith, (near-Under base e same near, under))
      ]
    ]

-- The listing of sorted entries, and how it is read: a header gives the count of its entries less
-- one, the block and the inode number.
unfoldable pub groups_bytes : ℕ → List DirEntry → Bytes
groups_bytes zero entries = []
groups_bytes (suc fuel) [] = []
groups_bytes (suc fuel) (base ∷ entries) =
    let n = run_length base 255 entries in
    group_header base n
    ++ (entries_bytes base (base ∷ take n entries) ++ groups_bytes fuel (drop n entries))

unfoldable pub read_listing : ℕ → Bytes → List DirEntry
unfolding read_entries
read_listing zero s = []
read_listing (suc fuel) [] = []
read_listing (suc fuel) (x ∷ t) =
    let s = x ∷ t in
    let group =
      read_entries (le_value (take 4 s) + 1) (le_value (take 4 (drop 8 s)))
        (le_value (take 4 (drop 4 s))) (drop 12 s) in
    group.0 ++ read_listing fuel group.1

self-Under : (e : DirEntry) → Under e e
self-Under e = record { same = refl; above = omega arith; below = omega arith }

pub All-take :
    (n : ℕ) (entries : List DirEntry) → All IsNarrow entries → All IsNarrow (take n entries)
All-take zero entries h = tt
All-take (suc n) [] h = tt
All-take (suc n) (e ∷ entries) h = (h.0, All-take n entries h.1)

pub All-drop :
    (n : ℕ) (entries : List DirEntry) → All IsNarrow entries → All IsNarrow (drop n entries)
All-drop zero entries h = h
All-drop (suc n) [] h = tt
All-drop (suc n) (e ∷ entries) h = All-drop n entries h.1

-- One group is read back, with what stands behind it.
read_group :
    (base : DirEntry) (entries : List DirEntry) (n : ℕ) (s : Bytes)
    → IsNarrow base
    → All IsNarrow entries
    → n ≤ 255
    → n ≤ length entries
    → All (Under base) (take n entries)
    → read_entries
        (le_value (le_bytes 4 n) + 1)
        (le_value (le_bytes 4 base.child_inode))
        (le_value (le_bytes 4 base.inode_block_byte))
        (entries_bytes base (base ∷ take n entries) ++ s)
      ≡ (base ∷ take n entries, s)
read_group base entries n s v w low fits u =
    let count : le_value (le_bytes 4 n) + 1 ≡ suc (length (take n entries)) =
      ap (λ k. k + 1) (le_value-le_bytes 4 n (omega arith))
      ∙ omega (arith, length-take n entries fits) in
    (λ i.
      read_entries (count i) (le_value-le_bytes 4 base.child_inode v.inode i)
        (le_value-le_bytes 4 base.inode_block_byte v.block i)
        (entries_bytes base (base ∷ take n entries) ++ s))
    ∙ read_entries-entries_bytes base (base ∷ take n entries) s v (v, All-take n entries w)
        (self-Under base, u)

pub read_listing-groups_bytes :
    (fuel : ℕ) (entries : List DirEntry)
    → length entries ≤ fuel
    → All IsNarrow entries
    → read_listing fuel (groups_bytes fuel entries) ≡ entries
unfolding read_listing groups_bytes group_header le_bytes
read_listing-groups_bytes zero [] h w = refl
read_listing-groups_bytes zero (e ∷ entries) h w = absurd (omega arith)
read_listing-groups_bytes (suc fuel) [] h w = refl
read_listing-groups_bytes (suc fuel) (base ∷ entries) h w =
    let n = run_length base 255 entries in
    let (low, fits, under) = run_length-Under base 255 entries in
    let rest = groups_bytes fuel (drop n entries) in
    let group = read_group base entries n rest w.0 w.1 low fits under in
    ap (λ g. g.0 ++ read_listing fuel g.1) group
    ∙ ap (λ t. base ∷ (take n entries ++ t))
        (read_listing-groups_bytes fuel (drop n entries) (omega (arith, length-drop n entries))
          (All-drop n entries w.1))
    ∙ ap (◌∷◌ base) (take-append-drop n entries)
