-- ===== src/Squashfs/Listed.antt =====
-- A directory listing in the directory table: what is written, and how it is found again.
use hpcc.Prelude.{
  ℕ, zero, suc, ◌+◌, ◌≤◌, ◌≡◌, ◌≢◌, refl, sym, ap, subst, ◌∙◌, false, ◌||◌, Option, none, some,
  List, [], ◌∷◌, ◌++◌, Bytes, length, take, drop, ltb, ◌==◌, All, length-append, length-drop,
  take-length-append, inl, inr, Bool-cases, arith,
}
use mathlib.Core.Path.{ap₂}
use mathlib.Core.List.{append-nil}
use hpcc.Prelude.Endian.{le_bytes}
use hpcc.Compiler.Key.{bytes_lt}
use hpcc.Squashfs.Compressor.{failed, Codec}
use hpcc.Squashfs.Metadata.{MetaRef, MetaWriter, ref, write, flush}
use hpcc.Squashfs.Stream.{
  IsOpen, Grown, Grown-trans, Failing, Ran, Sealed, write-Ran, write_all, write_all-Ran, concat,
  seal_current-Sealed,
}
use hpcc.Squashfs.Readback.{
  Finished, emit_to-Reads, finished_read, disk_ref, read_ref, read_ref-disk_ref,
}
use hpcc.Squashfs.Listing.{
  DirEntry, place_entry, sort_entries, run_length, group_header, entry_bytes, write_entries,
  write_groups, write_dir_listing,
}
use hpcc.Squashfs.Listings.{
  IsNarrow, entries_bytes, groups_bytes, read_listing, read_listing-groups_bytes, All-take,
  All-drop,
}

place_entry-All :
    (e : DirEntry) (entries : List DirEntry)
    → IsNarrow e
    → All IsNarrow entries
    → All IsNarrow (place_entry e entries)
unfolding place_entry
place_entry-All e [] h w = (h, tt)
place_entry-All e (f ∷ entries) h w = elim (Bool-cases (bytes_lt f.name e.name)) [
  | inl less ↦ rw less (w.0, place_entry-All e entries h w.1)
  | inr not_less ↦ rw not_less (h, w)
]

sort_entries-All :
    (entries : List DirEntry) → All IsNarrow entries → All IsNarrow (sort_entries entries)
unfolding sort_entries
sort_entries-All [] w = tt
sort_entries-All (e ∷ entries) w =
    place_entry-All e (sort_entries entries) w.0 (sort_entries-All entries w.1)

module _ (c : Codec) where
  -- The bytes p were added, and their count was returned.
  abbrev Counted : MetaWriter → Bytes → Option (MetaWriter × ℕ) → Type 0
  Counted m p none = Failing c
  Counted m p (some (l, k)) = Grown c m p l × IsOpen l × (k ≡ length p)

  nothing : (m : MetaWriter) → Grown c m [] m
  nothing m = record { added = sym (append-nil _); more = []; kept = sym (append-nil _) }

  -- A write, and what follows it with its count.
  then_counted :
      (m : MetaWriter) (p q : Bytes) (next : MetaWriter → Option (MetaWriter × ℕ))
      (r : Option MetaWriter)
      → Ran c m p r
      → ((n : MetaWriter) → IsOpen n → Counted n q (next n))
      → (size : ℕ) → size ≡ length p
      → Counted m (p ++ q) (elim r [
        | none ↦ none
        | some n ↦ elim (next n) [ none ↦ none | some (l, k) ↦ some (l, size + k) ]
      ])
  then_counted m p q next none h run size e = h
  then_counted m p q next (some n) h run size e = join (next n) (run n h.1)
    where
      join :
          (r : Option (MetaWriter × ℕ))
          → Counted n q r
          → Counted m (p ++ q) (elim r [ none ↦ none | some (l, k) ↦ some (l, size + k) ])
      join none f = f
      join (some (l, k)) f =
          (Grown-trans c m n l p q h.0 f.0, f.1, omega (arith, length-append p q, f.2))

  write_entries-Counted :
      (base : DirEntry) (entries : List DirEntry) (m : MetaWriter)
      → All IsNarrow entries
      → IsOpen m
      → Counted m (entries_bytes base entries) (write_entries c base entries m)
  unfolding write_entries entries_bytes
  write_entries-Counted base [] m w v = (nothing m, v, refl)
  write_entries-Counted base (e ∷ entries) m w v =
      let named = w.0.named in
      let short = w.0.short in
      let fine : (length e.name == 0 || ltb 256 (length e.name)) ≡ false = ground arith in
      rw fine (
        then_counted m (entry_bytes base e) (entries_bytes base entries)
          (λ n. write_entries c base entries n) (write c m (entry_bytes base e))
          (write-Ran c m (entry_bytes base e) v) (λ n o. write_entries-Counted base entries n w.1 o)
          (length (entry_bytes base e)) refl)

  module _ (p q s : Bytes) (f g : MetaWriter → Option (MetaWriter × ℕ)) where
    -- The three parts of a group, one behind the other.
    last_part :
        (m h x : MetaWriter) (k : ℕ)
        → 12 ≡ length p
        → Grown c m p h
        → Grown c h q x
        → k ≡ length q
        → (r : Option (MetaWriter × ℕ)) → Counted x s r
        → Counted m (p ++ (q ++ s)) (elim r [ none ↦ none | some (l, j) ↦ some (l, 12 + k + j) ])
    last_part m h x k e a b size none t = t
    last_part m h x k e a b size (some (l, j)) t = (
      Grown-trans c m h l p (q ++ s) a (Grown-trans c h x l q s b t.0),
      t.1,
      omega (arith, length-append p (q ++ s), length-append q s, t.2),
    )

    group_counted :
        (m : MetaWriter) (r : Option MetaWriter)
        → Ran c m p r
        → 12 ≡ length p
        → ((n : MetaWriter) → IsOpen n → Counted n q (f n))
        → ((n : MetaWriter) → IsOpen n → Counted n s (g n))
        → Counted m (p ++ (q ++ s)) (elim r [
          | none ↦ none
          | some h ↦ elim (f h) [
            | none ↦ none
            | some (x, k) ↦ elim (g x) [ none ↦ none | some (l, j) ↦ some (l, 12 + k + j) ]
          ]
        ])
    group_counted m none t e run_f run_g = t
    group_counted m (some h) t e run_f run_g = middle (f h) (run_f h t.1)
      where
        middle :
            (r : Option (MetaWriter × ℕ))
            → Counted h q r
            → Counted m (p ++ (q ++ s)) (elim r [
              | none ↦ none
              | some (x, k) ↦ elim (g x) [ none ↦ none | some (l, j) ↦ some (l, 12 + k + j) ]
            ])
        middle none u = u
        middle (some (x, k)) u = last_part m h x k e t.0 u.0 u.2 (g x) (run_g x u.1)

  header_size : (base : DirEntry) (n : ℕ) → 12 ≡ length (group_header base n)
  unfolding group_header le_bytes
  header_size base n = refl

  write_groups-Counted :
      (fuel : ℕ) (entries : List DirEntry) (m : MetaWriter)
      → length entries ≤ fuel
      → All IsNarrow entries
      → IsOpen m
      → Counted m (groups_bytes fuel entries) (write_groups c fuel entries m)
  unfolding write_groups groups_bytes
  write_groups-Counted zero [] m h w v = (nothing m, v, refl)
  write_groups-Counted zero (e ∷ entries) m h w v = absurd (omega arith)
  write_groups-Counted (suc fuel) [] m h w v = (nothing m, v, refl)
  write_groups-Counted (suc fuel) (base ∷ entries) m h w v =
      let n = run_length base 255 entries in
      group_counted (group_header base n) (entries_bytes base (base ∷ take n entries))
        (groups_bytes fuel (drop n entries)) (λ h. write_entries c base (base ∷ take n entries) h)
        (λ x. write_groups c fuel (drop n entries) x) m (write c m (group_header base n))
        (write-Ran c m (group_header base n) v) (header_size base n)
        (λ x o.
          write_entries-Counted base (base ∷ take n entries) x (w.0, All-take n entries w.1) o)
        (λ x o.
          write_groups-Counted fuel (drop n entries) x (omega (arith, length-drop n entries))
            (All-drop n entries w.1) o)

  -- Later records, Flush and EmitTo behind a listing.
  close_behind :
      (m l : MetaWriter) (p : Bytes) (later : List Bytes)
      → IsOpen m
      → Grown c m p l
      → IsOpen l
      → ((s : Bytes) → c.compress s ≢ failed)
      → (n : MetaWriter) × (out : Bytes) × Finished c l later n out
        × (read_ref c (disk_ref c m n) out ≡ p ++ concat later)
  unfolding flush
  close_behind m l p later v g w sound =
      written (write_all c l later) refl (write_all-Ran c l later w)
    where
      sealed :
          (k : MetaWriter)
          → write_all c l later ≡ some k
          → Grown c l (concat later) k
          → (r : Option MetaWriter) → flush c k ≡ r
          → Sealed c k r
          → (n : MetaWriter) × (out : Bytes) × Finished c l later n out
            × (read_ref c (disk_ref c m n) out ≡ p ++ concat later)
      sealed k e h none f t = absurd (sound t.0 t.1)
      sealed k e h (some n) f t =
          let r = emit_to-Reads c n.blocks t.1.short in
          let grown : Grown c m (p ++ concat later) n =
            subst (λ x. Grown c m x n) (append-nil _)
              (Grown-trans c m k n (p ++ concat later) [] (Grown-trans c m l k p (concat later) g h)
                t.0) in
          (
            n,
            r.0,
            (k, e, f, r.1.emitted),
            read_ref-disk_ref c m n r.0 v.room
                ∙ finished_read c m n (p ++ concat later) r.0 grown t.2 t.1.short r.1.emitted,
          )

      written :
          (r : Option MetaWriter)
          → write_all c l later ≡ r
          → Ran c l (concat later) r
          → (n : MetaWriter) × (out : Bytes) × Finished c l later n out
            × (read_ref c (disk_ref c m n) out ≡ p ++ concat later)
      written none e h = absurd (sound h.0 h.1)
      written (some k) e h =
          sealed k e h.0 (flush c k) refl
            (seal_current-Sealed c k (let room = h.1.room in omega arith) h.1.short)

  -- In a directory table that is between two writes, with a compressor that never fails,
  -- write_dir_listing writes any entries whose fields fit their widths and whose names have 1 to
  -- 256 bytes, and answers with the reference of the next byte and a size; after any later records
  -- and the emission of the table, a reader that follows this reference, takes as many bytes and
  -- reads headers with their counts, blocks and inode numbers, and entries with their differences
  -- of inode numbers, gets back the sorted entries.
  pub write_dir_listing-read :
      (m : MetaWriter) (entries : List DirEntry) (later : List Bytes)
      → IsOpen m
      → All IsNarrow entries
      → ((s : Bytes) → c.compress s ≢ failed)
      → (l n : MetaWriter) × (size : ℕ) × (out : Bytes) × (write_dir_listing c m entries
          ≡ some (ref m, size, l))
        × Finished c l later n out
        × (read_listing
              (length (sort_entries entries))
              (take size (read_ref c (disk_ref c m n) out))
            ≡ sort_entries entries)
  unfolding write_dir_listing
  write_dir_listing-read m entries later v w sound =
      listed (write_groups c (length sorted) sorted m) refl
        (write_groups-Counted (length sorted) sorted m (omega arith) narrow v)
    where
      sorted : List DirEntry
      sorted = sort_entries entries

      narrow : All IsNarrow sorted
      narrow = sort_entries-All entries w

      answer : Option (MetaWriter × ℕ) → Option (MetaRef × ℕ × MetaWriter)
      answer r = elim r [ none ↦ none | some (l, k) ↦ some (ref m, k, l) ]

      listed :
          (r : Option (MetaWriter × ℕ))
          → write_groups c (length sorted) sorted m ≡ r
          → Counted m (groups_bytes (length sorted) sorted) r
          → (l n : MetaWriter) × (size : ℕ) × (out : Bytes) × (write_dir_listing c m entries
              ≡ some (ref m, size, l))
            × Finished c l later n out
            × (read_listing (length sorted) (take size (read_ref c (disk_ref c m n) out)) ≡ sorted)
      listed none e h = absurd (sound h.0 h.1)
      listed (some (l, k)) e h =
          let (n, out, finished, found) =
            close_behind m l (groups_bytes (length sorted) sorted) later v h.0 h.1 sound in
          let cut : take k (read_ref c (disk_ref c m n) out) ≡ groups_bytes (length sorted) sorted =
            ap₂ take h.2 found
            ∙ take-length-append (groups_bytes (length sorted) sorted) (concat later) in
          (
            l,
            n,
            k,
            out,
            ap answer e,
            finished,
            ap (read_listing (length sorted)) cut
                ∙ read_listing-groups_bytes (length sorted) sorted (omega arith) narrow,
          )
