-- ===== src/Worker/Disk.antt =====
-- The source store of a worker on a disk: the namespace "source" of the first disk cache, and in it
-- a namespace for each tenant (NewWorker of internal/worker/worker.go).
use hpcc.Prelude.{
  ℕ, ◌/◌, ◌%◌, ◌≡◌, ◌≢◌, refl, sym, ap, subst, ◌∙◌, inl, inr, true, false, ◌&&◌, Option, none, some,
  [], ◌∷◌, ◌++◌, Bytes, codes, bytes_eq, bytes_eq_iff, if◌then◌else◌, and-true, Bool-cases,
  Option-cases, arith,
}
use hpcc.Prelude.Assoc.{lookup}
use hpcc.Prelude.Cut.{Without, last_injective}
use mathlib.Core.Path.{ap₂}
use mathlib.Core.List.{append_assoc}
use hpcc.Store.{
  DiskCacheStore, FileSystem, Disk, Files, made_dirs, enforce, with_blob, Read, invalid, missing,
  found, namespace, validate_name, validate_namespace, hex_digit, hex, entry_dir, blob_path,
  tmp_path, write_atomic,
}
use hpcc.Store as Store
use hpcc.Store.Paths.{IsBytes, hex_injective, hex-Without, hex_digit_slash, has_separator-Without}
use hpcc.Store.Blobs.{lookup-write_atomic}
use hpcc.Worker.Sources.{SourceStore, Presence, present, absent, panics}

abbrev blob_data : Bytes
blob_data = codes "data"

abbrev pub IsDigest : Bytes → Type 0
IsDigest k = IsBytes k × (k ≢ [])

unfoldable pub found_value : Read → Option Bytes
found_value (found v) = some v
found_value invalid = none
found_value missing = none

-- Get of the namespace of a tenant; a tenant on which Namespace panics has no store and holds
-- nothing.
unfoldable pub disk_get : DiskCacheStore → Disk → Bytes → Bytes → Option Bytes
unfolding found_value
disk_get d disk tenant key = elim (namespace d tenant) [
  | none ↦ none
  | some n ↦ found_value (Store.get n disk.files key blob_data)
]

unfoldable pub disk_has : DiskCacheStore → Disk → Bytes → Bytes → Presence
disk_has d disk tenant key = elim (namespace d tenant) [
  | none ↦ panics
  | some n ↦ if Store.has n disk key then present else absent
]

unfoldable pub disk_put : FileSystem → DiskCacheStore → Bytes → Bytes → Bytes → Disk → Option Disk
disk_put fs d tenant key value disk = elim (namespace d tenant) [
  | none ↦ none
  | some n ↦
      let (after, done) = Store.put fs n key blob_data value disk in
      if done then some after else none
]

-- A Put that fails behind MkdirAll: its directories are made, and no blob.
unfoldable pub disk_failed_put : DiskCacheStore → Bytes → Bytes → Disk → Disk
disk_failed_put d tenant key disk = elim (namespace d tenant) [
  | none ↦ disk
  | some n ↦ record disk { dirs = made_dirs n key ++ disk.dirs }
]

-- The file of a blob.
abbrev source_path : DiskCacheStore → Bytes → Bytes → Bytes
source_path d tenant key =
    blob_path (record { dir = d.dir ++ (b'/' ∷ tenant); max_size = 0 }) key blob_data

tenant-Without : (t : Bytes) → validate_namespace t ≡ true → Without b'/' t
unfolding validate_namespace
tenant-Without t h = has_separator-Without t (ground arith)

data_plain : Without b'/' blob_data
data_plain = omega arith

tmp_plain : Without b'/' (codes "data.tmp")
tmp_plain = omega arith

abbrev shard : ℕ → Bytes
shard c = hex_digit (c / 16) ∷ hex_digit (c % 16) ∷ []

shard-Without : (c : ℕ) → Without b'/' (shard c)
shard-Without c = (hex_digit_slash (c / 16), (hex_digit_slash (c % 16), tt))

source_path_injective :
    (d : DiskCacheStore) (t u k j : Bytes)
    → validate_namespace t ≡ true
    → validate_namespace u ≡ true
    → IsDigest k
    → IsDigest j
    → source_path d t k ≡ source_path d u j
    → (t ≡ u) × (k ≡ j)
unfolding blob_path entry_dir
source_path_injective d t u [] j v w a b e = absurd (a.1 refl)
source_path_injective d t u (c ∷ k) [] v w a b e = absurd (b.1 refl)
source_path_injective d t u (c ∷ k) (x ∷ j) v w a b e =
    let (dirs, _) = last_injective b'/' _ _ blob_data blob_data data_plain data_plain e in
    let (shards, keys) =
      last_injective b'/' _ _ (hex (c ∷ k)) (hex (x ∷ j)) (hex-Without (c ∷ k) a.0)
        (hex-Without (x ∷ j) b.0) dirs in
    let (tenants, _) =
      last_injective b'/' _ _ (shard c) (shard x) (shard-Without c) (shard-Without x) shards in
    (
      (last_injective b'/' d.dir d.dir t u (tenant-Without t v) (tenant-Without u w) tenants).1,
      hex_injective (c ∷ k) (x ∷ j) a.0 b.0 keys,
    )

tmp-source_path :
    (d : DiskCacheStore) (t u k j : Bytes) → tmp_path (source_path d t k) ≢ source_path d u j
unfolding blob_path tmp_path
tmp-source_path d t u k j e =
    let tmp : tmp_path (source_path d t k) ≡ entry ++ (b'/' ∷ codes "data.tmp") =
      append_assoc entry (b'/' ∷ blob_data) (codes ".tmp") in
    let names =
      (last_injective b'/' entry _ (codes "data.tmp") blob_data tmp_plain data_plain
        (sym tmp ∙ e)).1 in
    absurd (let q : ⊥ = cc in q)
  where
    entry : Bytes
    entry = entry_dir (record { dir = d.dir ++ (b'/' ∷ t); max_size = 0 }) k

data_valid : validate_name blob_data ≡ true
unfolding validate_name bytes_eq Store.has_separator
data_valid = refl

disk_get-lookup :
    (d : DiskCacheStore) (disk : Disk) (t k : Bytes)
    → disk_get d disk t k
      ≡ (if validate_namespace t then lookup (source_path d t k) disk.files else none)
unfolding disk_get namespace Store.get found_value
disk_get-lookup d disk t k = elim (Bool-cases (validate_namespace t)) [
  | inr bad ↦ ground (arith, bad)
  | inl valid ↦ elim (Option-cases (lookup (source_path d t k) disk.files)) [
    | inl none_there ↦ ground (arith, valid, none_there, data_valid)
    | inr (v, there) ↦ ground (arith, valid, there, data_valid)
  ]
]

written-lookup :
    (d : DiskCacheStore) (t k value : Bytes) (c : Files) (u j : Bytes)
    → validate_namespace t ≡ true
    → validate_namespace u ≡ true
    → IsDigest k
    → IsDigest j
    → lookup (source_path d u j) (write_atomic (source_path d t k) value c)
      ≡ (if bytes_eq t u && bytes_eq k j then some value else lookup (source_path d u j) c)
written-lookup d t k value c u j v w a b =
    let at = lookup-write_atomic (source_path d u j) (source_path d t k) value c in
    let other : bytes_eq (tmp_path (source_path d t k)) (source_path d u j) ≡ false =
      elim (Bool-cases (bytes_eq (tmp_path (source_path d t k)) (source_path d u j))) [
        | inr differs ↦ differs
        | inl same ↦ absurd (tmp-source_path d t u k j ((bytes_eq_iff _ _).0 same))
      ] in
    elim (Bool-cases (bytes_eq (source_path d t k) (source_path d u j))) [
      | inl same ↦
          let (tenants, keys) =
            source_path_injective d t u k j v w a b ((bytes_eq_iff _ _).0 same) in
          ground (arith, at, same, bytes_eq_iff t u, bytes_eq_iff k j, tenants, keys)
      | inr differs ↦ elim (Bool-cases (bytes_eq t u && bytes_eq k j)) [
        | inr apart ↦ ground (arith, at, differs, other, apart)
        | inl together ↦
            let parts = and-true (bytes_eq t u) (bytes_eq k j) together in
            let paths : source_path d t k ≡ source_path d u j =
              ap₂ (source_path d) ((bytes_eq_iff t u).0 parts.0) ((bytes_eq_iff k j).0 parts.1) in
            absurd (
              let x : ⊥ =
                ground (arith, differs, bytes_eq_iff (source_path d t k) (source_path d u j)) in
              x)
      ]
    ]

-- The disk store refines the source store that the handlers rely on: after a put that succeeds, a
-- get under a digest of bytes that is not empty returns the value that was put for the same tenant
-- and digest, and for every other tenant or digest what it returned before.
pub disk_get-disk_put :
    (fs : FileSystem) (d : DiskCacheStore) (t k value : Bytes) (c after : Disk) (u j : Bytes)
    → IsDigest k
    → IsDigest j
    → disk_put fs d t k value c ≡ some after
    → disk_get d after u j ≡ (if bytes_eq t u && bytes_eq k j then some value else disk_get d c u j)
unfolding disk_put namespace Store.put enforce with_blob
disk_get-disk_put fs d t k value c after u j a b e = elim (Bool-cases (validate_namespace t)) [
  | inr bad ↦ absurd (let q : ⊥ = ground (arith, bad) in q)
  | inl valid ↦
      let q : write_atomic (source_path d t k) value c.files ≡ after.files =
        ground (arith, valid, data_valid) in
      let read : disk_get d after u j
          ≡ (if validate_namespace u then lookup (source_path d u j) after.files else none) =
        disk_get-lookup d after u j in
      let old = disk_get-lookup d c u j in
      elim (Bool-cases (validate_namespace u)) [
        | inr bad ↦ ground (arith, read, old, bad, valid, bytes_eq_iff t u)
        | inl good ↦
            let at =
              subst
                (λ f. lookup (source_path d u j) f ≡ (
                  if bytes_eq t u && bytes_eq k j
                  then some value
                  else lookup (source_path d u j) c.files))
                q (written-lookup d t k value c.files u j valid good a b) in
            ground (arith, read, old, good, at)
      ]
]

failed_files :
    (d : DiskCacheStore) (t k : Bytes) (c : Disk) → (disk_failed_put d t k c).files ≡ c.files
unfolding disk_failed_put
failed_files d t k c = ground arith

pub disk_get-disk_failed_put :
    (d : DiskCacheStore) (t k : Bytes) (c : Disk) (u j : Bytes)
    → disk_get d (disk_failed_put d t k c) u j ≡ disk_get d c u j
disk_get-disk_failed_put d t k c u j =
    disk_get-lookup d (disk_failed_put d t k c) u j
    ∙ ap (λ f. if validate_namespace u then lookup (source_path d u j) f else none)
        (failed_files d t k c)
    ∙ sym (disk_get-lookup d c u j)

abbrev pub disk_sources : FileSystem → DiskCacheStore → SourceStore
disk_sources fs d = record {
  Contents = Disk;
  IsKey = IsDigest;
  is_tenant = validate_namespace;
  get = disk_get d;
  has = disk_has d;
  put = disk_put fs d;
  failed_put = λ t k value c. disk_failed_put d t k c;
  get-put = disk_get-disk_put fs d;
  get-failed_put = λ t k value c u j a b. disk_get-disk_failed_put d t k c u j;
}
