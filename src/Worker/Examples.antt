-- ===== src/Worker/Examples.antt =====
-- Runs of a worker, and the theorems at concrete inputs.
use hpcc.Prelude.{
  ◌%◌, ◌≡◌, ◌⊎◌, ◌↔◌, refl, inl, true, false, Option, none, some, List, [], ◌∷◌, Bytes, codes,
  bytes_eq, length, has_prefix, arith,
}
use hpcc.Prelude.Assoc.{lookup, insert, erase}
use hpcc.Prelude.FilePath.{
  join_path, is_abs, clean, clean_parts, join_parts, segments, resolve, push_segment,
}
use hpcc.Scheduler.{Claim, text}
use hpcc.Store.{DiskCacheStore, FileSystem, Disk, absent}
use hpcc.Compiler.Key.Collisions.{Collision}
use hpcc.Compiler.Manifest.{
  sort_blobs, aggregate_manifest_digest, manifest_bytes, place_blob, ascii_lower,
}
use hpcc.Compiler.Key.{bytes_lt}
use hpcc.Prelude.Endian.{be_bytes, le_bytes}
use hpcc.Store as Store
use hpcc.Worker.{
  upload_from, upload_step, header_step, open_blob, check_header, commit, commit_blob, add_data,
  reject, received, pin, validate_scheduler_token_for_cas, parse_scheduler_token, claim_is, Worker,
  ok, BlobDigest, Body, header, chunk, Stream, eof, recv, UploadResult, upload_blobs,
  find_missing_blobs, BlobRef, CasDescriptor, staged, refused, unavailable, materialize_cas_blobs,
  materialize_blob, then_write, validate_blob_path, has_byte, check_blobs, verify_manifest_digest,
  mkdir_search_paths,
}
use hpcc.Worker.Sources.{SourceStore, Present}
use hpcc.Worker.Disk.{
  IsDigest, disk_get, disk_put, disk_sources, disk_failed_put, disk_get-disk_put,
}
use hpcc.Worker.Headers.{first_tenant, Announced}
use hpcc.Worker.Uploads.{Kept, upload_blobs-Kept}
use hpcc.Worker.Settled.{Listed, upload_blobs-Settled}
use hpcc.Worker.Probes.{IsTrusted, IsProper, missing_of, find_missing_blobs-Proper}
use hpcc.Worker.Stuck.{disk_failed_put-Stuck}
use hpcc.Worker.Staged.{Written, materialize_cas_blobs-Written}
use hpcc.Worker.Manifests.{entries, manifest_blobs, verify_manifest_digest-Collision}
use hpcc.Worker.Escapes.{mkdir_search_paths-outside}

abbrev pub store : DiskCacheStore
store = record { dir = codes "/var/source"; max_size = 0 }

abbrev file_system : FileSystem
file_system = record { remove = λ path. true; read_root = λ dir disk. absent }

abbrev pub sources : SourceStore
sources = disk_sources file_system store

abbrev pub empty : Disk
empty = record { dirs = []; files = [] }

abbrev zeros : Bytes
zeros =
    0 ∷ 0 ∷ 0 ∷ 0 ∷ 0 ∷ 0 ∷ 0 ∷ 0 ∷ 0 ∷ 0 ∷ 0 ∷ 0 ∷ 0 ∷ 0 ∷ 0 ∷ 0 ∷ 0 ∷ 0 ∷ 0 ∷ 0 ∷ 0 ∷ 0 ∷ 0 ∷ 0
    ∷ 0 ∷ 0 ∷ 0 ∷ 0 ∷ 0 ∷ 0 ∷ 0 ∷ []

abbrev pub toy_hash : Bytes → Bytes
toy_hash x = length x % 256 ∷ zeros

pub toy_hash-IsDigest : (x : Bytes) → IsDigest (toy_hash x)
toy_hash-IsDigest x = (omega arith, λ e. cc)

abbrev claims : List (Bytes × Claim)
claims = (codes "tenant_id", text (codes "acme")) ∷ (codes "worker_id", text (codes "w1")) ∷ []

abbrev signed : Bytes → Bytes → Option (List (Bytes × Claim))
signed key raw = elim raw [ [] ↦ none | c ∷ s ↦ some claims ]

abbrev pub worker : Worker
worker = record {
  worker_id = codes "w1";
  scheduler_pub_key = codes "pub";
  parse_jwt = signed;
  blake3 = toy_hash;
}

abbrev blob : BlobDigest
blob = record {
  digest = toy_hash (codes "int x;");
  size = 6;
  tenant_id = codes "acme";
  scheduler_token = codes "token";
}

abbrev upload : Stream Body
upload = recv (header (some blob)) (recv (chunk (codes "int ")) (recv (chunk (codes "x;")) eof))

abbrev uploaded : UploadResult
uploaded = record { blobs_received = 1; bytes_received = 6; rejected_digests = [] }

-- The store behind the upload.
abbrev pub full : Disk
full = record {
  dirs =
      codes "/var/source/acme/06/0600000000000000000000000000000000000000000000000000000000000000"
      ∷ codes "/var/source/acme/06"
      ∷ codes "/var/source/acme"
      ∷ [];
  files =
      (
        codes
            "/var/source/acme/06/0600000000000000000000000000000000000000000000000000000000000000/data",
        codes "int x;",
      )
      ∷ [];
}

run : upload_blobs sources worker upload empty ≡ (full, ok uploaded)
unfolding upload_blobs upload_from upload_step header_step open_blob check_header commit commit_blob
    add_data reject received pin validate_scheduler_token_for_cas parse_scheduler_token claim_is
    lookup insert erase bytes_eq disk_put disk_get Store.put Store.namespace
    Store.validate_namespace Store.validate_name Store.has_separator Store.blob_path Store.tmp_path
    Store.entry_dir Store.hex Store.write_atomic Store.enforce Store.with_blob Store.made_dirs
run = refl

-- A chunk that was tampered with.
forged : Stream Body
forged = recv (header (some blob)) (recv (chunk (codes "int y")) eof)

forged_run : upload_blobs sources worker forged empty ≡ (
  empty,
  ok (record {
    blobs_received = 0;
    bytes_received = 0;
    rejected_digests = toy_hash (codes "int x;") ∷ [];
  }),
)
unfolding forged upload_blobs upload_from upload_step header_step open_blob check_header commit
    commit_blob add_data reject received pin validate_scheduler_token_for_cas parse_scheduler_token
    claim_is lookup bytes_eq
forged_run = refl

put_run :
    disk_put file_system store (codes "acme") (toy_hash (codes "int x;")) (codes "int x;") empty
    ≡ some full
unfolding insert erase bytes_eq disk_put Store.put Store.namespace Store.validate_namespace
    Store.validate_name Store.has_separator Store.blob_path Store.tmp_path Store.entry_dir Store.hex
    Store.write_atomic Store.enforce Store.with_blob Store.made_dirs
put_run = refl

pub absolute : is_abs (codes "/tmp") ≡ true
unfolding is_abs
absolute = refl

upload_blobs-Kept_example :
    Kept sources worker toy_hash-IsDigest empty
      (upload_blobs sources worker upload empty).0
      (codes "acme")
      (toy_hash (codes "int x;"))
      ((codes "acme" ≡ first_tenant upload)
        × Announced worker (codes "acme") (toy_hash (codes "int x;")) upload)
upload_blobs-Kept_example =
    upload_blobs-Kept sources worker toy_hash-IsDigest upload empty (codes "acme")
      (toy_hash (codes "int x;")) (toy_hash-IsDigest (codes "int x;"))

upload_blobs-Settled_example :
    Listed (toy_hash (codes "int x;")) []
    ⊎ Present sources full (codes "acme") (toy_hash (codes "int x;"))
upload_blobs-Settled_example =
    upload_blobs-Settled sources worker toy_hash-IsDigest upload empty full uploaded (codes "acme")
      (toy_hash (codes "int x;")) (toy_hash-IsDigest (codes "int x;")) run (inl (inl (refl, refl)))

abbrev probe : Stream BlobDigest
probe = recv blob (recv (record blob { digest = toy_hash (codes "x") }) eof)

find_missing_blobs-Proper_example :
    (((find_missing_blobs sources worker full probe).1 ≡ none)
      ↔ IsProper sources worker full [] probe)
    × ((find_missing_blobs sources worker full probe).1 ≡ none
        → (find_missing_blobs sources worker full probe).0 ≡ missing_of sources worker full probe)
find_missing_blobs-Proper_example = find_missing_blobs-Proper sources worker full probe

disk_get-disk_put_example :
    disk_get store full (codes "acme") (toy_hash (codes "int x;")) ≡ some (codes "int x;")
unfolding bytes_eq
disk_get-disk_put_example =
    disk_get-disk_put file_system store (codes "acme") (toy_hash (codes "int x;")) (codes "int x;")
      empty full (codes "acme") (toy_hash (codes "int x;")) (toy_hash-IsDigest (codes "int x;"))
      (toy_hash-IsDigest (codes "int x;")) put_run

mkdir_search_paths-outside_example :
    mkdir_search_paths (codes "-I../other" ∷ []) (codes "/tmp/src")
    ≡ join_path (codes "/tmp") (codes "other") ∷ []
mkdir_search_paths-outside_example =
    mkdir_search_paths-outside (codes "/tmp") (codes "src") (codes "other") absolute (omega arith)
      (λ e. cc) (λ e. cc) (λ e. cc) (λ e. cc)

abbrev source : BlobRef
source = record { digest = toy_hash (codes "int x;"); path = codes "a.c"; size = 6 }

abbrev header_file : BlobRef
header_file = record { digest = toy_hash (codes "x"); path = codes "/usr/include/a.h"; size = 1 }

materialized :
    materialize_cas_blobs sources full (codes "acme") (codes "/tmp") (source ∷ header_file ∷ [])
    ≡ staged ((codes "/tmp/a.c", codes "int x;") ∷ [])
unfolding materialize_cas_blobs materialize_blob then_write validate_blob_path has_byte bytes_eq
    has_prefix lookup disk_get Store.get Store.namespace Store.validate_namespace
    Store.validate_name Store.has_separator Store.blob_path Store.entry_dir Store.hex is_abs clean
    clean_parts join_parts join_path segments resolve push_segment
materialized = refl

materialize_cas_blobs-Written_example :
    Written sources full
      (codes "acme")
      (codes "/tmp")
      (source ∷ header_file ∷ [])
      ((codes "/tmp/a.c", codes "int x;") ∷ [])
materialize_cas_blobs-Written_example =
    materialize_cas_blobs-Written sources full (codes "acme") (codes "/tmp")
      (source ∷ header_file ∷ []) ((codes "/tmp/a.c", codes "int x;") ∷ []) absolute materialized

-- Two requests whose manifests are listed in different orders.
abbrev descriptor : List BlobRef → CasDescriptor
descriptor blobs = record {
  manifest_digest =
      toy_hash (manifest_bytes (sort_blobs (manifest_blobs (source ∷ header_file ∷ []))));
  blobs = blobs;
  entry_path = codes "a.c";
}

verified :
    (verify_manifest_digest worker (descriptor (source ∷ header_file ∷ []))
      ≡ ok (descriptor []).manifest_digest)
    × (verify_manifest_digest worker (descriptor (header_file ∷ source ∷ []))
        ≡ ok (descriptor []).manifest_digest)
unfolding verify_manifest_digest check_blobs aggregate_manifest_digest manifest_bytes sort_blobs
    place_blob bytes_lt ascii_lower be_bytes le_bytes bytes_eq
verified = (refl, refl)

verify_manifest_digest-Collision_example :
    (entries (sort_blobs (manifest_blobs (source ∷ header_file ∷ [])))
      ≡ entries (sort_blobs (manifest_blobs (header_file ∷ source ∷ []))))
    ⊎ Collision toy_hash
unfolding ascii_lower
verify_manifest_digest-Collision_example =
    verify_manifest_digest-Collision worker (descriptor (source ∷ header_file ∷ []))
      (descriptor (header_file ∷ source ∷ [])) (descriptor []).manifest_digest
      (omega arith, (omega arith, tt)) (omega arith, (omega arith, tt)) verified.0 verified.1

trusted : IsTrusted worker [] blob
unfolding validate_scheduler_token_for_cas parse_scheduler_token claim_is lookup bytes_eq
trusted = ((λ e. cc), (λ e. cc), refl, inl refl)

absent_blob : disk_get store empty (codes "acme") (toy_hash (codes "int x;")) ≡ none
unfolding lookup disk_get Store.get Store.namespace Store.validate_namespace Store.validate_name
    Store.has_separator Store.blob_path Store.entry_dir Store.hex bytes_eq
absent_blob = refl

acme_tenant : Store.validate_namespace (codes "acme") ≡ true
unfolding Store.validate_namespace Store.has_separator bytes_eq
acme_tenant = refl

relative_source : is_abs source.path ≡ false
unfolding is_abs
relative_source = refl

valid_source : validate_blob_path source.path ≡ true
unfolding validate_blob_path has_byte has_prefix bytes_eq clean clean_parts join_parts segments
    resolve push_segment is_abs
valid_source = refl

-- The store behind a Put of the blob that failed.
abbrev half_put : Disk
half_put = disk_failed_put store (codes "acme") (toy_hash (codes "int x;")) empty

disk_failed_put-Stuck_example :
    ((find_missing_blobs sources worker half_put (recv blob eof)).1 ≡ none)
    × ((find_missing_blobs sources worker half_put (recv blob eof)).0 ≡ [])
    × (materialize_cas_blobs sources half_put (codes "acme") (codes "/tmp") (source ∷ [])
        ≡ refused unavailable)
disk_failed_put-Stuck_example =
    disk_failed_put-Stuck file_system store worker empty blob (codes "/tmp") source trusted
      acme_tenant absent_blob refl relative_source valid_source
