-- ===== src/Dispatch/Examples.antt =====
-- An upload to a worker whose store is on a disk.
use hpcc.Prelude.{
  ◌≡◌, ◌⊎◌, refl, inl, inr, true, Option, some, List, [], ◌∷◌, Bytes, codes, bytes_eq, has_prefix,
  contains, All,
}
use hpcc.Prelude.Assoc.{lookup, insert, erase}
use hpcc.Prelude.FilePath.{is_abs, clean, clean_parts, join_parts, segments, resolve, push_segment}
use hpcc.Store as Store
use hpcc.Compiler.Manifest.{BlobRef}
use hpcc.Worker.{
  upload_blobs, upload_from, upload_step, header_step, open_blob, check_header, commit, commit_blob,
  add_data, reject, received, pin, validate_scheduler_token_for_cas, parse_scheduler_token,
  claim_is, find_missing_blobs, find_from, answer, Write, staged, materialize_cas_blobs,
  validate_blob_path, has_byte,
}
use hpcc.Worker.Sources.{IsSound, IsComplete}
use hpcc.Worker.Disk.{disk_get, disk_has, disk_put}
use hpcc.Worker.Staged.{Written}
use hpcc.Worker.Examples.{sources, toy_hash, toy_hash-IsDigest, worker, empty, full, absolute}
use hpcc.Dispatch.{
  Client, project_blobs, blob_header, probes, digests_of, send_chunks, stream_upload, upload_stream,
  send_missing, probe_and_send, cas_upload,
}
use hpcc.Dispatch.Delivered.{Keyed}
use hpcc.Dispatch.Uploaded.{request_blobs, cas_upload-staged}

abbrev file_chunks : Bytes → Option (List Bytes)
file_chunks path = some (codes "int " ∷ codes "x;" ∷ [])

abbrev client : Client
client = record {
  tenant_id = codes "acme";
  scheduler_token = codes "token";
  read_chunks = file_chunks;
}

abbrev source : BlobRef
source = record { path = codes "a.c"; digest = toy_hash (codes "int x;"); size = 6 }

abbrev system : BlobRef
system = record { path = codes "/usr/include/a.h"; digest = toy_hash (codes "x"); size = 1 }

abbrev blobs : List BlobRef
blobs = source ∷ system ∷ []

run : cas_upload sources worker client (codes "/proj") blobs empty ≡ (full, true)
unfolding cas_upload probe_and_send send_missing digests_of probes upload_stream stream_upload
    send_chunks blob_header project_blobs is_abs find_missing_blobs find_from answer contains
    upload_blobs upload_from upload_step header_step open_blob check_header commit commit_blob
    add_data reject received pin validate_scheduler_token_for_cas parse_scheduler_token claim_is
    lookup insert erase bytes_eq disk_put disk_get Store.put Store.get Store.namespace
    Store.validate_namespace Store.validate_name Store.has_separator Store.blob_path Store.tmp_path
    Store.entry_dir Store.hex Store.write_atomic Store.enforce Store.with_blob Store.made_dirs
    Store.has disk_has
run = refl

keyed : Keyed sources worker client (project_blobs blobs)
unfolding project_blobs is_abs
keyed = (((λ e. cc), toy_hash-IsDigest (codes "int x;")), tt)

empty-IsComplete : IsComplete sources empty (codes "acme")
unfolding disk_has Store.has Store.namespace Store.validate_namespace Store.has_separator bytes_eq
    contains
empty-IsComplete key e = absurd (let q : ⊥ = cc in q)

paths : All (λ b. (is_abs b.path ≡ true) ⊎ (validate_blob_path b.path ≡ true)) blobs
unfolding is_abs validate_blob_path has_byte has_prefix bytes_eq clean clean_parts join_parts
    segments resolve push_segment
paths = (inr refl, (inl refl, tt))

empty-IsSound : IsSound sources toy_hash empty (codes "acme")
unfolding disk_get Store.get Store.namespace Store.validate_namespace Store.validate_name
    Store.has_separator lookup bytes_eq
empty-IsSound k v key e = absurd (let q : ⊥ = cc in q)

cas_upload-staged_example :
    (ws : List Write) × (materialize_cas_blobs sources full
        (codes "acme")
        (codes "/tmp")
        (request_blobs blobs)
      ≡ staged ws)
    × Written sources full (codes "acme") (codes "/tmp") (request_blobs blobs) ws
    × IsSound sources toy_hash full (codes "acme")
cas_upload-staged_example =
    cas_upload-staged sources worker client toy_hash-IsDigest (codes "/proj") (codes "/tmp") blobs
      empty full absolute keyed empty-IsComplete paths empty-IsSound run
