-- ===== src/Store/Blobs.antt =====
-- Put and Get.
use hpcc.Prelude.{
  ◌<◌, ◌⊎◌, List, [], ◌∷◌, Option-cases, ltb, ltb→lt, ltb_false→le, ◌≡◌, refl, sym, ◌∙◌, ap, subst,
  inl, inr, true, false, none, some, ◌++◌, Bytes, codes, bytes_eq, bytes_eq_iff, length,
  length-append, arith, Bool-cases, if◌then◌else◌,
}
use hpcc.Prelude.Assoc.{lookup, insert, erase, lookup-insert, lookup-erase}
use hpcc.Store.{
  DiskCacheStore, FileSystem, Disk, EntryInfo, Files, Read, invalid, missing, found, validate_name,
  blob_path, tmp_path, get, write_atomic, put, with_blob, enforce, is_below, remove_files,
  remove_all, scan_entries, evict,
}
use hpcc.Store.Paths.{IsBytes, blob_path_injective, tmp_path-blob_path}

pub lookup-write_atomic :
    (path dst value : Bytes) (files : Files)
    → lookup path (write_atomic dst value files) ≡ (
        if bytes_eq dst path
        then some value
        else if bytes_eq (tmp_path dst) path
        then none
        else lookup path files)
unfolding write_atomic
lookup-write_atomic path dst value files = ground (
  arith,
  lookup-insert dst path value (erase (tmp_path dst) (insert (tmp_path dst) value files)),
  lookup-erase (tmp_path dst) path (insert (tmp_path dst) value files),
  lookup-insert (tmp_path dst) path value files,
)

-- What a read gives once the entries of `gone` are removed.
abbrev pub expunge : List EntryInfo → Bytes → Read → Read
expunge gone path invalid = invalid
expunge gone path missing = missing
expunge gone path (found value) = if is_below gone path then missing else found value

-- The entries that a Put evicts: none without a limit, and otherwise those that evict removes of
-- the scan that follows the write.
abbrev pub Gone : FileSystem → DiskCacheStore → Disk → List EntryInfo → Type 0
Gone fs d disk gone =
    ((d.max_size ≡ 0) × (gone ≡ []))
    ⊎ ((0 < d.max_size)
        × ((entries : List EntryInfo) × (scan_entries d (fs.read_root d.dir disk) ≡ some entries)
            × (gone ≡ (evict fs.remove d.max_size entries).0)))

-- What a Get reads after a Put.
pub record Stored (fs : FileSystem) (d : DiskCacheStore) (k name value : Bytes) (disk after : Disk)
    : Type 0 where
  pub gone : List EntryInfo
  pub evicted : Gone fs d (with_blob d k name value disk) gone
  pub same : get d after.files k name ≡ expunge gone (blob_path d k name) (found value)
  pub temporary : get d after.files k (name ++ codes ".tmp") ≡ missing
  pub others :
      (j other : Bytes)
      → IsBytes j
      → ¬ ((k ≡ j) × (name ≡ other))
      → ¬ ((k ≡ j) × (name ++ codes ".tmp" ≡ other))
      → get d after.files j other ≡ expunge gone (blob_path d j other) (get d disk.files j other)

get-lookup :
    (d : DiskCacheStore) (f g : Files) (k name : Bytes)
    → (validate_name name ≡ true → lookup (blob_path d k name) f ≡ lookup (blob_path d k name) g)
    → get d f k name ≡ get d g k name
unfolding get
get-lookup d f g k name h = elim (Bool-cases (validate_name name)) [
  | inl v ↦ rw (v, h v) refl
  | inr bad ↦ rw bad refl
]

lookup-remove_files :
    (gone : List EntryInfo) (files : Files) (path : Bytes)
    → lookup path (remove_files gone files)
      ≡ (if is_below gone path then none else lookup path files)
unfolding remove_files lookup
lookup-remove_files gone [] path = ground arith
lookup-remove_files gone ((p, value) ∷ files) path =
    ground (arith, lookup-remove_files gone files path, bytes_eq_iff p path)

get-remove_files :
    (d : DiskCacheStore) (gone : List EntryInfo) (files : Files) (k name : Bytes)
    → get d (remove_files gone files) k name
      ≡ expunge gone (blob_path d k name) (get d files k name)
unfolding get
get-remove_files d gone files k name =
    let at = lookup-remove_files gone files (blob_path d k name) in
    elim (Bool-cases (validate_name name)) [
      | inr bad ↦ rw bad refl
      | inl v ↦ elim (Option-cases (lookup (blob_path d k name) files)) [
        | inl e ↦ ground (arith, at, v, e)
        | inr (value, e) ↦ ground (arith, at, v, e)
      ]
    ]

-- What a Get reads once a blob is written, before anything is evicted.
record Wrote (d : DiskCacheStore) (k name value : Bytes) (files after : Files) : Type 0 where
  same : get d after k name ≡ found value
  temporary : get d after k (name ++ codes ".tmp") ≡ missing
  others :
      (j other : Bytes)
      → IsBytes j
      → ¬ ((k ≡ j) × (name ≡ other))
      → ¬ ((k ≡ j) × (name ++ codes ".tmp" ≡ other))
      → get d after j other ≡ get d files j other

write_atomic-Wrote :
    (d : DiskCacheStore) (k name value : Bytes) (files : Files)
    → IsBytes k
    → validate_name name ≡ true
    → Wrote d k name value files (write_atomic (blob_path d k name) value files)
unfolding get
write_atomic-Wrote d k name value files a valid = record {
  same = ground (
    arith,
    at (blob_path d k name),
    bytes_eq_iff (blob_path d k name) (blob_path d k name),
    valid,
  );
  temporary = ground (
    arith,
    at (blob_path d k (name ++ codes ".tmp")),
    tmp.0,
    tmp.1,
    valid,
    longer,
    bytes_eq_iff (tmp_path (blob_path d k name)) (blob_path d k (name ++ codes ".tmp")),
  );
  others = λ j other b apart apart'. get-lookup d after files j other (λ v. ground (
    arith,
    at (blob_path d j other),
    bytes_eq_iff (blob_path d k name) (blob_path d j other),
    bytes_eq_iff (tmp_path (blob_path d k name)) (blob_path d j other),
    (λ (e : blob_path d k name ≡ blob_path d j other).
        apart (blob_path_injective d k j name other a b valid v e)),
    (λ (e : tmp_path (blob_path d k name) ≡ blob_path d j other).
        apart'
          (blob_path_injective d k j (name ++ codes ".tmp") other a b tmp.0 v (sym tmp.1 ∙ e))),
  ));
}
  where
    after : Files
    after = write_atomic (blob_path d k name) value files

    at :
        (path : Bytes)
        → lookup path after ≡ (
            if bytes_eq (blob_path d k name) path
            then some value
            else if bytes_eq (tmp_path (blob_path d k name)) path
            then none
            else lookup path files)
    at path = lookup-write_atomic path (blob_path d k name) value files

    tmp :
        (validate_name (name ++ codes ".tmp") ≡ true)
        × (tmp_path (blob_path d k name) ≡ blob_path d k (name ++ codes ".tmp"))
    tmp = tmp_path-blob_path d k name valid

    longer : bytes_eq (blob_path d k name) (blob_path d k (name ++ codes ".tmp")) ≡ false
    longer =
        elim (Bool-cases (bytes_eq (blob_path d k name) (blob_path d k (name ++ codes ".tmp")))) [
          | inr differs ↦ differs
          | inl equal ↦
              let e : blob_path d k name ≡ blob_path d k (name ++ codes ".tmp") =
                (bytes_eq_iff (blob_path d k name) (blob_path d k (name ++ codes ".tmp"))).0
                  equal in
              let names =
                (blob_path_injective d k k name (name ++ codes ".tmp") a a valid tmp.0 e).1 in
              absurd (omega (arith, ap length names, length-append name (codes ".tmp")))
        ]

-- Where nothing is evicted, reads stay as they are.
expunge-none : (path : Bytes) (r : Read) → expunge [] path r ≡ r
unfolding is_below
expunge-none path invalid = refl
expunge-none path missing = refl
expunge-none path (found value) = refl

Stored-from :
    (fs : FileSystem) (d : DiskCacheStore) (k name value : Bytes) (disk after : Disk)
    (gone : List EntryInfo)
    → Gone fs d (with_blob d k name value disk) gone
    → Wrote d k name value disk.files (write_atomic (blob_path d k name) value disk.files)
    → ((j other : Bytes)
        → get d after.files j other
          ≡ expunge gone
              (blob_path d j other)
              (get d (write_atomic (blob_path d k name) value disk.files) j other))
    → Stored fs d k name value disk after
Stored-from fs d k name value disk after gone g w read = record {
  gone = gone;
  evicted = g;
  same = read k name ∙ ap (expunge gone (blob_path d k name)) w.same;
  temporary =
      read k (name ++ codes ".tmp")
      ∙ ap (expunge gone (blob_path d k (name ++ codes ".tmp"))) w.temporary;
  others = λ j other b apart apart'.
      read j other ∙ ap (expunge gone (blob_path d j other)) (w.others j other b apart apart');
}

-- After a Put that returns no error, Get reads what the write alone leaves, less the entries that
-- were evicted: the value under its key and name, nothing under the name with the suffix .tmp, and
-- for every other key and valid or invalid name what it returned before, except that an evicted
-- entry holds nothing. Without a size limit no entry is evicted, and with one those that evict
-- removes of the scan after the write; keys are strings of bytes.
pub put-Stored :
    (fs : FileSystem) (d : DiskCacheStore) (k name value : Bytes) (disk after : Disk)
    → IsBytes k
    → put fs d k name value disk ≡ (after, true)
    → Stored fs d k name value disk after
unfolding put enforce with_blob remove_all
put-Stored fs d k name value disk after a h = elim (Bool-cases (ltb 0 d.max_size)) [
  | inr free ↦
      let e : with_blob d k name value disk ≡ after = ground (arith, free, valid) in
      Stored-from fs d k name value disk after []
        (inl (omega (arith, ltb_false→le 0 d.max_size free), refl)) wrote
        (λ j other.
          subst
            (λ (x : Disk).
              get d x.files j other ≡ expunge [] (blob_path d j other) (get d new j other))
            e (files_of j other ∙ sym (expunge-none (blob_path d j other) (get d new j other))))
  | inl limited ↦ elim (Option-cases (scan_entries d (fs.read_root d.dir here))) [
    | inl failed ↦ absurd (let q : ⊥ = ground (arith, limited, failed, valid) in q)
    | inr (entries, scanned) ↦
        let out = (evict fs.remove d.max_size entries).0 in
        let e : remove_all out here ≡ after = ground (arith, limited, scanned, valid) in
        Stored-from fs d k name value disk after out
          (inr (ltb→lt 0 d.max_size limited, (entries, scanned, refl))) wrote
          (λ j other.
            subst
              (λ (x : Disk).
                get d x.files j other ≡ expunge out (blob_path d j other) (get d new j other))
              e (removed out j other))
  ]
]
  where
    here : Disk
    here = with_blob d k name value disk

    new : Files
    new = write_atomic (blob_path d k name) value disk.files

    valid : validate_name name ≡ true
    valid = ground arith

    wrote : Wrote d k name value disk.files new
    wrote = write_atomic-Wrote d k name value disk.files a valid

    files_of : (j other : Bytes) → get d here.files j other ≡ get d new j other
    files_of j other = refl

    removed :
        (out : List EntryInfo) (j other : Bytes)
        → get d (remove_all out here).files j other
          ≡ expunge out (blob_path d j other) (get d new j other)
    removed out j other = get-remove_files d out new j other
