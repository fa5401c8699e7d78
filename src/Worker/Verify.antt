-- ===== src/Worker/Verify.antt =====
-- verifyManifestDigest of internal/worker/cas.go.
use hpcc.Prelude.{not, ◌==◌, List, [], ◌∷◌, Bytes, bytes_eq, if◌then◌else◌, length}
use hpcc.Compiler.Manifest.{aggregate_manifest_digest, sort_blobs}
use hpcc.Compiler.Manifest as Manifest
use hpcc.Worker.Token.{Result, ok, err, invalid_argument, Worker}
use hpcc.Worker.Staging.{BlobRef, CasDescriptor}

abbrev pub manifest_blob : BlobRef → Manifest.BlobRef
manifest_blob b = record { path = b.path; digest = b.digest; size = b.size }

-- The blobs of a descriptor, none of whose digests may have another length.
unfoldable pub check_blobs : List BlobRef → Result (List Manifest.BlobRef)
check_blobs [] = ok []
check_blobs (b ∷ blobs) =
    if not (length b.digest == 32)
    then err invalid_argument
    else elim (check_blobs blobs) [ err e ↦ err e | ok rest ↦ ok (manifest_blob b ∷ rest) ]

unfoldable pub verify_manifest_digest : Worker → CasDescriptor → Result Bytes
verify_manifest_digest w cas =
    if not (length cas.manifest_digest == 32)
    then err invalid_argument
    else elim (check_blobs cas.blobs) [
      | err e ↦ err e
      | ok blobs ↦
          let recomputed = aggregate_manifest_digest w.blake3 (sort_blobs blobs) in
          if not (bytes_eq recomputed cas.manifest_digest)
          then err invalid_argument
          else ok recomputed
    ]
