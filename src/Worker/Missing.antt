-- ===== src/Worker/Missing.antt =====
-- FindMissingBlobs of internal/worker/cas.go.
use hpcc.Prelude.{not, Option, none, some, List, [], ◌∷◌, Bytes, bytes_eq, if◌then◌else◌}
use hpcc.Worker.Sources.{SourceStore, Presence, present, absent, unreadable, panics}
use hpcc.Worker.Token.{
  Error, invalid_argument, unauthenticated, internal, broken_stream, panicked, Worker,
  validate_scheduler_token_for_cas,
}
use hpcc.Worker.Upload.{BlobDigest, Stream, eof, broken, recv, pin}

module _ (S : SourceStore) where
  open S use {Contents, has}

  -- What is sent back, and the error that ends the call.
  abbrev pub Answers : Type 0
  Answers = List BlobDigest × Option Error

  unfoldable pub answer : Presence → BlobDigest → Answers → Answers
  answer present req rest = rest
  answer absent req rest = (req ∷ rest.0, rest.1)
  answer unreadable req rest = ([], some internal)
  answer panics req rest = ([], some panicked)

  unfoldable pub find_from : Worker → Contents → Bytes → Stream BlobDigest → Answers
  unfolding pin
  find_from w c stream_tenant eof = ([], none)
  find_from w c stream_tenant broken = ([], some broken_stream)
  find_from w c stream_tenant (recv req s) =
      if bytes_eq req.digest []
      then ([], some invalid_argument)
      else if bytes_eq req.tenant_id []
      then ([], some invalid_argument)
      else if not (validate_scheduler_token_for_cas w req.scheduler_token req.tenant_id)
      then ([], some unauthenticated)
      else elim (pin stream_tenant req.tenant_id) [
        | none ↦ ([], some invalid_argument)
        | some t ↦ answer (has c req.tenant_id req.digest) req (find_from w c t s)
      ]

  unfoldable pub find_missing_blobs : Worker → Contents → Stream BlobDigest → Answers
  find_missing_blobs w c s = find_from w c [] s
