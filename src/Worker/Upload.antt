-- ===== src/Worker/Upload.antt =====
-- UploadBlobs of internal/worker/cas.go.
use hpcc.Prelude.{
  ℕ, ◌+◌, ◌%◌, ◌^◌, Bool, true, false, not, Option, none, some, List, [], ◌∷◌, ◌++◌, Bytes,
  bytes_eq, length, ltb, ◌==◌, if◌then◌else◌,
}
use hpcc.Worker.Sources.{SourceStore}
use hpcc.Worker.Token.{
  Error, invalid_argument, unauthenticated, internal, broken_stream, panicked, Result, ok, err,
  Worker, validate_scheduler_token_for_cas,
}

pub record BlobDigest : Type 0 where
  pub digest : Bytes
  pub size : ℕ
  pub tenant_id : Bytes
  pub scheduler_token : Bytes

-- The body of a BlobChunk; the header may be nil.
pub data Body : Type 0 where
  header : Option BlobDigest → Body
  chunk : Bytes → Body
  unknown : Body

-- What Recv gives: messages, and then the end of the stream or an error.
pub data Stream {ℓ} (A : Type ℓ) : Type ℓ where
  eof : Stream A
  broken : Stream A
  recv : A → Stream A → Stream A

abbrev pub max_source_blob_bytes : ℕ
max_source_blob_bytes = 268435456

-- `hashed` is what the hasher was fed.
pub record BlobInProgress : Type 0 where
  pub head : BlobDigest
  pub hashed : Bytes
  pub buf : Bytes
  pub rejected : Bool

pub record UploadResult : Type 0 where
  pub blobs_received : ℕ
  pub bytes_received : ℕ
  pub rejected_digests : List Bytes

-- `b.header.TenantId`, pinned to the tenant of the stream.
unfoldable pub pin : Bytes → Bytes → Option Bytes
pin stream_tenant tenant =
    if bytes_eq stream_tenant []
    then some tenant
    else if not (bytes_eq tenant stream_tenant)
    then none
    else some stream_tenant

-- A message's header, checked against the tenant of the stream: the new tenant of the stream.
unfoldable pub check_header : Worker → Bytes → BlobDigest → Result Bytes
unfolding pin
check_header w stream_tenant h =
    if not (length h.digest == 32)
    then err invalid_argument
    else if bytes_eq h.tenant_id []
    then err invalid_argument
    else if not (validate_scheduler_token_for_cas w h.scheduler_token h.tenant_id)
    then err unauthenticated
    else elim (pin stream_tenant h.tenant_id) [ none ↦ err invalid_argument | some t ↦ ok t ]

-- A chunk of data for the open blob.
unfoldable pub add_data : Bytes → BlobInProgress → BlobInProgress
add_data data_bytes b =
    if b.rejected
    then b
    else if ltb max_source_blob_bytes (length b.buf + length data_bytes)
    then record b { rejected = true; buf = [] }
    else record b { hashed = b.hashed ++ data_bytes; buf = b.buf ++ data_bytes }

module _ (S : SourceStore) where
  open S use {Contents, is_tenant, put, failed_put}

  pub record UploadState : Type 0 where
    pub contents : Contents
    pub active : Option BlobInProgress
    pub stream_tenant : Bytes
    pub result : UploadResult

  unfoldable pub reject : Bytes → UploadState → UploadState
  reject digest u = record u {
    active = none;
    result = record u.result { rejected_digests = u.result.rejected_digests ++ (digest ∷ []) };
  }

  unfoldable pub received : BlobInProgress → Contents → UploadState → UploadState
  received b c u = record u {
    contents = c;
    active = none;
    result = record u.result {
      blobs_received = (u.result.blobs_received + 1) % 2 ^ 64;
      bytes_received = (u.result.bytes_received + length b.buf) % 2 ^ 64;
    };
  }

  -- The end of the open blob: none where the store fails.
  unfoldable pub commit_blob : Worker → BlobInProgress → UploadState → Option UploadState
  commit_blob w b u =
      if b.rejected
      then some (reject b.head.digest u)
      else if not (bytes_eq (w.blake3 b.hashed) b.head.digest)
      then some (reject b.head.digest u)
      else elim (put b.head.tenant_id (w.blake3 b.hashed) b.buf u.contents) [
        | none ↦ none
        | some c ↦ some (received b c u)
      ]

  unfoldable pub commit : Worker → UploadState → Option UploadState
  commit w u = elim u.active [ none ↦ some u | some b ↦ commit_blob w b u ]

  unfoldable pub open_blob : Worker → BlobDigest → UploadState → Result UploadState
  open_blob w h u = elim (check_header w u.stream_tenant h) [
    | err e ↦ err e
    | ok t ↦ ok (record u {
      active = some (record { head = h; hashed = []; buf = []; rejected = false });
      stream_tenant = t;
    })
  ]

  -- What is left where the end of the open blob fails.
  unfoldable pub abandon : Worker → UploadState → UploadState
  abandon w u = elim u.active [
    | none ↦ u
    | some b ↦ record u {
      contents = failed_put b.head.tenant_id (w.blake3 b.hashed) b.buf u.contents;
    }
  ]

  -- The error of Put, or the panic of Namespace.
  unfoldable pub commit_error : UploadState → Error
  commit_error u = elim u.active [
    | none ↦ internal
    | some b ↦ if is_tenant b.head.tenant_id then internal else panicked
  ]

  -- One message: what was stored stays where the call fails.
  pub data Stepped : Type 0 where
    going : UploadState → Stepped
    stopped : UploadState → Error → Stepped

  -- A header, once the blob before it is committed.
  unfoldable pub header_step : Worker → Option BlobDigest → UploadState → Stepped
  header_step w none u = stopped u invalid_argument
  header_step w (some d) u = elim (open_blob w d u) [ err e ↦ stopped u e | ok v ↦ going v ]

  unfoldable pub upload_step : Worker → Body → UploadState → Stepped
  upload_step w (header h) u = elim (commit w u) [
    | none ↦ stopped (abandon w u) (commit_error u)
    | some u' ↦ header_step w h u'
  ]
  upload_step w (chunk data_bytes) u = elim u.active [
    | none ↦ stopped u invalid_argument
    | some b ↦ going (record u { active = some (add_data data_bytes b) })
  ]
  upload_step w unknown u = stopped u invalid_argument

  unfoldable pub upload_from : Worker → Stream Body → UploadState → Contents × Result UploadResult
  upload_from w eof u = elim (commit w u) [
    | none ↦ ((abandon w u).contents, err (commit_error u))
    | some u' ↦ (u'.contents, ok u'.result)
  ]
  upload_from w broken u = (u.contents, err broken_stream)
  upload_from w (recv m s) u = elim (upload_step w m u) [
    | stopped u' e ↦ (u'.contents, err e)
    | going u' ↦ upload_from w s u'
  ]

  unfoldable pub upload_blobs : Worker → Stream Body → Contents → Contents × Result UploadResult
  upload_blobs w s c = upload_from w s (record {
    contents = c;
    active = none;
    stream_tenant = [];
    result = record { blobs_received = 0; bytes_received = 0; rejected_digests = [] };
  })
