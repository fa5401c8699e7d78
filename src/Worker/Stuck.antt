-- ===== src/Worker/Stuck.antt =====
-- FindMissingBlobs and the staging of a compile behind a Put that failed, on the disk store.
use hpcc.Prelude.{
  ◌≡◌, refl, ap, ◌∙◌, inl, true, false, none, List, [], ◌∷◌, ◌++◌, Bytes, bytes_eq_refl, contains,
  arith,
}
use hpcc.Prelude.FilePath.{is_abs}
use hpcc.Store as Store
use hpcc.Store.{
  DiskCacheStore, FileSystem, Disk, made_dirs, entry_dir, namespace, validate_namespace,
}
use hpcc.Worker.{
  Worker, BlobDigest, BlobRef, recv, eof, find_missing_blobs, materialize_cas_blobs,
  materialize_blob, validate_blob_path, refused, unavailable,
}
use hpcc.Worker.Sources.{present}
use hpcc.Worker.Disk.{disk_get, disk_has, disk_failed_put, disk_sources, disk_get-disk_failed_put}
use hpcc.Worker.Probes.{IsTrusted, missing_of, find_missing_blobs-Proper}

made_dirs-entry_dir :
    (d : DiskCacheStore) (key : Bytes) (dirs : List Bytes)
    → contains (entry_dir d key) (made_dirs d key ++ dirs) ≡ true
unfolding made_dirs entry_dir contains
made_dirs-entry_dir d [] dirs = rw (bytes_eq_refl d.dir) refl
made_dirs-entry_dir d (c ∷ key) dirs = rw (bytes_eq_refl (entry_dir d (c ∷ key))) refl

failed_has :
    (d : DiskCacheStore) (tenant key : Bytes) (c : Disk)
    → validate_namespace tenant ≡ true
    → disk_has d (disk_failed_put d tenant key c) tenant key ≡ present
unfolding disk_has disk_failed_put namespace Store.has
failed_has d tenant key c v =
    let held =
      made_dirs-entry_dir (record { dir = Store.join d.dir tenant; max_size = 0 }) key c.dirs in
    ground (arith, v, held)

-- The worker's store on a disk, behind a Put that made the directory of an entry and failed before
-- it wrote the blob, of a tenant with a namespace: FindMissingBlobs answers a trusted request for
-- the digest by no digest and no error, as if the blob were there, and the staging of a compile
-- with a relative, valid path of this digest is refused since the blob is missing.
pub disk_failed_put-Stuck :
    (fs : FileSystem) (d : DiskCacheStore) (w : Worker) (c : Disk) (r : BlobDigest)
    (src_dir : Bytes) (b : BlobRef)
    → IsTrusted w [] r
    → validate_namespace r.tenant_id ≡ true
    → disk_get d c r.tenant_id r.digest ≡ none
    → b.digest ≡ r.digest
    → is_abs b.path ≡ false
    → validate_blob_path b.path ≡ true
    → ((find_missing_blobs
          (disk_sources fs d)
          w
          (disk_failed_put d r.tenant_id r.digest c)
          (recv r eof)).1
        ≡ none)
      × ((find_missing_blobs
            (disk_sources fs d)
            w
            (disk_failed_put d r.tenant_id r.digest c)
            (recv r eof)).0
          ≡ [])
      × (materialize_cas_blobs
            (disk_sources fs d)
            (disk_failed_put d r.tenant_id r.digest c)
            r.tenant_id
            src_dir
            (b ∷ [])
          ≡ refused unavailable)
unfolding materialize_cas_blobs materialize_blob
disk_failed_put-Stuck fs d w c r src_dir b trusted v absent same relative valid =
    let after = disk_failed_put d r.tenant_id r.digest c in
    let there = failed_has d r.tenant_id r.digest c v in
    let (proper, answers) = find_missing_blobs-Proper (disk_sources fs d) w after (recv r eof) in
    let fine = proper.1 (trusted, inl there, tt) in
    let gone : disk_get d after r.tenant_id b.digest ≡ none =
      ap (disk_get d after r.tenant_id) same
      ∙ disk_get-disk_failed_put d r.tenant_id r.digest c r.tenant_id r.digest
      ∙ absent in
    (fine, answers fine ∙ rw (there, missing_of) refl, ground (arith, relative, valid, gone))
