-- ===== src/Store/Namespaces.antt =====
-- The scan of a store whose blobs all stand in namespaces, one level deeper than the scan reads.
use hpcc.Prelude.{
  ℕ, ◌-◌, ◌<◌, ◌≡◌, refl, ap, ◌⊎◌, inl, inr, Bool, true, false, Option, none, some, List, [], ◌∷◌,
  Bytes, All, All-append, arith, Bool-cases, leb,
}
use hpcc.Store.{
  DirFile, KeyDir, Shard, EntryInfo, join, dir_stats_from, dir_stats, scan_keys, scan_shards,
  total_size, place_entry, sort_entries, evict_loop, cutoff_of, clean,
}

-- Directories only, as under a namespace: its tenants or its shards.
abbrev pub OnlyDirs : Option (List DirFile) → Type 0
OnlyDirs none = Unit
OnlyDirs (some files) = All (λ f. f.is_dir ≡ true) files

abbrev NestedKeys : Option (List KeyDir) → Type 0
NestedKeys none = Unit
NestedKeys (some keys) = All (λ k. OnlyDirs k.files) keys

abbrev pub Nested : List Shard → Type 0
Nested shards = All (λ s. NestedKeys s.keys) shards

abbrev Void : EntryInfo → Type 0
Void e = (e.size ≡ 0) × (e.mod_time ≡ 0)

dir_stats_void :
    (files : List DirFile) → All (λ f. f.is_dir ≡ true) files → dir_stats_from 0 0 files ≡ (0, 0)
unfolding dir_stats_from
dir_stats_void [] a = refl
dir_stats_void (f ∷ files) a = rw a.0 (dir_stats_void files a.1)

dir_stats-OnlyDirs :
    (files : Option (List DirFile))
    → OnlyDirs files
    → (dir_stats files ≡ none) ⊎ (dir_stats files ≡ some (0, 0))
unfolding dir_stats
dir_stats-OnlyDirs none a = inl refl
dir_stats-OnlyDirs (some files) a = inr (ap (λ (x : ℕ × ℕ). some x) (dir_stats_void files a))

scan_keys-Void :
    (shard : Bytes) (keys : List KeyDir)
    → All (λ k. OnlyDirs k.files) keys
    → All Void (scan_keys shard keys)
unfolding scan_keys
scan_keys-Void shard [] a = tt
scan_keys-Void shard (k ∷ keys) a = elim (Bool-cases k.is_dir) [
  | inr file ↦ rw file (scan_keys-Void shard keys a.1)
  | inl dir ↦ elim (dir_stats-OnlyDirs k.files a.0) [
    | inl failed ↦ rw (dir, failed) (scan_keys-Void shard keys a.1)
    | inr empty ↦ rw (dir, empty) ((refl, refl), scan_keys-Void shard keys a.1)
  ]
]

place_entry-Void :
    (e : EntryInfo) (entries : List EntryInfo)
    → Void e
    → All Void entries
    → All Void (place_entry e entries)
unfolding place_entry
place_entry-Void e [] v a = (v, tt)
place_entry-Void e (f ∷ entries) v a = elim (Bool-cases (leb e.mod_time f.mod_time)) [
  | inl h ↦ rw h (v, a)
  | inr h ↦ rw h (a.0, place_entry-Void e entries v a.1)
]

sort_entries-Void : (entries : List EntryInfo) → All Void entries → All Void (sort_entries entries)
unfolding sort_entries
sort_entries-Void [] a = tt
sort_entries-Void (e ∷ entries) a =
    place_entry-Void e (sort_entries entries) a.0 (sort_entries-Void entries a.1)

total_size-Void : (entries : List EntryInfo) → All Void entries → total_size entries ≡ 0
unfolding total_size
total_size-Void [] a = refl
total_size-Void (e ∷ entries) a = omega (arith, a.0.0, total_size-Void entries a.1)

scan_shards-Void :
    (dir : Bytes) (shards : List Shard) → Nested shards → All Void (scan_shards dir shards)
unfolding scan_shards
scan_shards-Void dir [] a = tt
scan_shards-Void dir (s ∷ shards) a =
    from s.is_dir s.keys refl refl a.0 (scan_shards-Void dir shards a.1)
  where
    from :
        (b : Bool) (keys : Option (List KeyDir))
        → s.is_dir ≡ b
        → s.keys ≡ keys
        → NestedKeys keys
        → All Void (scan_shards dir shards)
        → All Void (scan_shards dir (s ∷ shards))
    from false keys e f n rest = rw e rest
    from true none e f n rest = rw (e, f) rest
    from true (some keys) e f n rest =
        rw (e, f)
          (All-append Void (scan_keys (join dir s.name) keys) (scan_shards dir shards)
            (scan_keys-Void (join dir s.name) keys n) rest)

-- The loop on such entries: nothing goes by size, everything by age.
loop_keeps :
    (past : EntryInfo → Bool) (over : ℕ → Bool) (entries : List EntryInfo)
    → ((e : EntryInfo) → past e ≡ false)
    → over 0 ≡ false
    → (evict_loop (λ path. true) past over 0 entries).0 ≡ []
unfolding evict_loop
loop_keeps past over [] p o = refl
loop_keeps past over (e ∷ entries) p o = rw (p e, o) refl

loop_drops :
    (past : EntryInfo → Bool) (over : ℕ → Bool) (total : ℕ) (entries : List EntryInfo)
    → All Void entries
    → ((e : EntryInfo) → e.mod_time ≡ 0 → past e ≡ true)
    → (evict_loop (λ path. true) past over total entries).1 ≡ []
unfolding evict_loop
loop_drops past over total [] a p = refl
loop_drops past over total (e ∷ entries) a p =
    rw (p e a.0.1) (loop_drops past over (total - e.size) entries a.1 p)

-- For a store whose entries, as its scan finds them, hold directories only, as is the case where
-- all blobs stand in namespaces, clean removes nothing by size, whatever the limit, and with an
-- age limit that is shorter than the clock it removes everything, however new.
pub clean-Nested :
    (dir : Bytes) (now max_size max_age : ℕ) (shards : List Shard)
    → Nested shards
    → ((clean (λ path. true) now max_size 0 (scan_shards dir shards)).0 ≡ [])
      × (0 < max_age
          → max_age < now
          → (clean (λ path. true) now max_size max_age (scan_shards dir shards)).1 ≡ [])
unfolding clean cutoff_of
clean-Nested dir now max_size max_age shards n = (
  rw (total_size-Void (scan_shards dir shards) v)
      (loop_keeps _ _ (sort_entries (scan_shards dir shards)) (λ e. refl) (ground arith)),
  λ on before.
      loop_drops _ _ (total_size (scan_shards dir shards)) (sort_entries (scan_shards dir shards))
        (sort_entries-Void (scan_shards dir shards) v) (λ e h. ground arith),
)
  where
    v : All Void (scan_shards dir shards)
    v = scan_shards-Void dir shards n
