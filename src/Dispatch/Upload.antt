-- ===== src/Dispatch/Upload.antt =====
-- casUpload, streamUpload and projectBlobs of internal/daemon/dispatch/dispatch.go.
use hpcc.Prelude.{
  Bool, true, false, not, Option, none, some, List, [], ◌∷◌, Bytes, contains, if◌then◌else◌,
}
use hpcc.Prelude.FilePath.{is_abs, join_path}
use hpcc.Compiler.Manifest.{BlobRef}
use hpcc.Worker.{
  Worker, ok, err, BlobDigest, Body, header, chunk, Stream, eof, broken, recv, find_missing_blobs,
  upload_blobs,
}
use hpcc.Worker.Sources.{SourceStore}

-- The blobs that are uploaded: those whose path is relative.
unfoldable pub project_blobs : List BlobRef → List BlobRef
project_blobs [] = []
project_blobs (b ∷ blobs) =
    if not (is_abs b.path) then b ∷ project_blobs blobs else project_blobs blobs

-- What a client is set up with: its tenant, the token that Route gave it, and the chunks that the
-- reads of a file give, none where it cannot be opened or read.
pub record Client : Type 0 where
  pub tenant_id : Bytes
  pub scheduler_token : Bytes
  pub read_chunks : Bytes → Option (List Bytes)

unfoldable pub blob_header : Client → BlobRef → BlobDigest
blob_header cl b = record {
  digest = b.digest;
  size = b.size;
  tenant_id = cl.tenant_id;
  scheduler_token = cl.scheduler_token;
}

unfoldable pub probes : Client → List BlobRef → Stream BlobDigest
probes cl [] = eof
probes cl (b ∷ blobs) = recv (blob_header cl b) (probes cl blobs)

-- The digests that the worker answers with.
unfoldable pub digests_of : List BlobDigest → List Bytes
digests_of [] = []
digests_of (m ∷ answers) = m.digest ∷ digests_of answers

unfoldable pub send_chunks : List Bytes → Stream Body → Stream Body
send_chunks [] rest = rest
send_chunks (c ∷ chunks) rest = recv (chunk c) (send_chunks chunks rest)

-- streamUpload: where the file cannot be read, the call is abandoned behind the header.
unfoldable pub stream_upload : Client → Bytes → BlobRef → Stream Body → Stream Body
unfolding send_chunks blob_header
stream_upload cl root b rest =
    recv (header (some (blob_header cl b))) (elim (cl.read_chunks (join_path root b.path)) [
      | none ↦ broken
      | some chunks ↦ send_chunks chunks rest
    ])

-- The loop over the blobs, with the digests that the worker misses.
unfoldable pub upload_stream : Client → Bytes → List Bytes → List BlobRef → Stream Body
unfolding stream_upload
upload_stream cl root missing [] = eof
upload_stream cl root missing (b ∷ blobs) =
    if not (contains b.digest missing)
    then upload_stream cl root missing blobs
    else stream_upload cl root b (upload_stream cl root missing blobs)

module _ (S : SourceStore) where
  open S use {Contents}

  -- The worker's store behind the upload, and whether casUpload returns without an error.
  unfoldable pub send_missing :
      Worker → Client → Bytes → List BlobRef → List Bytes → Contents → Contents × Bool
  send_missing w cl root blobs [] c = (c, true)
  send_missing w cl root blobs (d ∷ missing) c =
      let (after, r) = upload_blobs S w (upload_stream cl root (d ∷ missing) blobs) c in
      elim r [
        | err e ↦ (after, false)
        | ok result ↦ elim result.rejected_digests [ [] ↦ (after, true) | _ ∷ _ ↦ (after, false) ]
      ]

  unfoldable pub probe_and_send :
      Worker → Client → Bytes → List BlobRef → Contents → Contents × Bool
  probe_and_send w cl root blobs c =
      let (answers, e) = find_missing_blobs S w c (probes cl blobs) in
      elim e [ some _ ↦ (c, false) | none ↦ send_missing w cl root blobs (digests_of answers) c ]

  unfoldable pub cas_upload : Worker → Client → Bytes → List BlobRef → Contents → Contents × Bool
  cas_upload w cl root blobs c = elim (project_blobs blobs) [
    | [] ↦ (c, true)
    | b ∷ rest ↦ probe_and_send w cl root (b ∷ rest) c
  ]
