-- ===== src/Dispatch/Uploaded.antt =====
-- What an upload that succeeds leaves in the worker's store.
use hpcc.Prelude.{
  ◌≡◌, ◌⊎◌, sym, ap, subst, inl, inr, true, List, [], ◌∷◌, Bytes, Bool-cases, Option-cases, All,
  arith,
}
use hpcc.Prelude.FilePath.{is_abs}
use hpcc.Compiler.Manifest.{BlobRef}
use hpcc.Worker.{
  Worker, Result, ok, err, Result-cases, BlobDigest, Body, header, chunk, Stream, eof, broken, recv,
  UploadResult, upload_blobs, find_missing_blobs, validate_scheduler_token_for_cas,
}
use hpcc.Worker.Sources.{SourceStore, Present, IsSound, IsComplete}
use hpcc.Worker as Worker
use hpcc.Worker.{staged, Write, validate_blob_path, materialize_cas_blobs}
use hpcc.Worker.Uploads.{upload_blobs-IsSound}
use hpcc.Worker.Staged.{
  Written, IsReady, materialize_cas_blobs-staged, materialize_cas_blobs-Written,
}
use hpcc.Dispatch.{
  Client, project_blobs, probes, digests_of, upload_stream, send_missing, probe_and_send,
  cas_upload,
}
use hpcc.Dispatch.Sent.{List-cases}
use hpcc.Dispatch.Delivered.{Keyed, probe_and_send-Present}

-- The blobs as the request of the compile names them: manifestBlobsToProto.
abbrev pub request_blobs : List BlobRef → List Worker.BlobRef
request_blobs [] = []
request_blobs (b ∷ blobs) =
    record { digest = b.digest; path = b.path; size = b.size } ∷ request_blobs blobs

module _ (S : SourceStore) (w : Worker) (cl : Client) where
  open S use {Contents, IsKey, get}

  -- The call of cas_upload that returns no error leaves every relative blob in the store.
  cas_upload-Present :
      (hash_key : (x : Bytes) → IsKey (w.blake3 x)) (root : Bytes)
      → (blobs : List BlobRef) (c after : Contents) → Keyed S w cl (project_blobs blobs)
      → IsComplete S c cl.tenant_id
      → cas_upload S w cl root blobs c ≡ (after, true)
      → All (λ b. Present S after cl.tenant_id b.digest) (project_blobs blobs)
  unfolding cas_upload
  cas_upload-Present hash_key root blobs c after k complete e =
      elim (List-cases (project_blobs blobs)) [
        | inl empty ↦ subst (All (λ b. Present S after cl.tenant_id b.digest)) (sym empty) tt
        | inr (b, bs, some_blobs) ↦
            let q : probe_and_send S w cl root (b ∷ bs) c ≡ (after, true) = ground arith in
            subst (All (λ x. Present S after cl.tenant_id x.digest)) (sym some_blobs) (
              probe_and_send-Present S w cl hash_key root (b ∷ bs) c after
                (subst (Keyed S w cl) some_blobs k) complete q)
      ]

  -- It keeps the store sound.
  send_missing-IsSound :
      (hash_key : (x : Bytes) → IsKey (w.blake3 x)) (root : Bytes) (missing : List Bytes)
      → (blobs : List BlobRef) (c : Contents) → IsSound S w.blake3 c cl.tenant_id
      → IsSound S w.blake3 (send_missing S w cl root blobs missing c).0 cl.tenant_id
  unfolding send_missing
  send_missing-IsSound hash_key root [] blobs c h = h
  send_missing-IsSound hash_key root (d ∷ missing) blobs c h =
      let s = upload_stream cl root (d ∷ missing) blobs in
      let q : (send_missing S w cl root blobs (d ∷ missing) c).0 ≡ (upload_blobs S w s c).0 =
        elim (Result-cases (upload_blobs S w s c).1) [
          | inl (x, failed) ↦ ground (arith, failed)
          | inr (r, done) ↦ ground (arith, done)
        ] in
      subst (λ x. IsSound S w.blake3 x cl.tenant_id) (sym q)
        (upload_blobs-IsSound S w hash_key s c cl.tenant_id h)

  cas_upload-IsSound :
      (hash_key : (x : Bytes) → IsKey (w.blake3 x)) (root : Bytes)
      → (blobs : List BlobRef) (c : Contents) → IsSound S w.blake3 c cl.tenant_id
      → IsSound S w.blake3 (cas_upload S w cl root blobs c).0 cl.tenant_id
  unfolding cas_upload probe_and_send
  cas_upload-IsSound hash_key root blobs c h = elim (List-cases (project_blobs blobs)) [
    | inl empty ↦
        let q : (cas_upload S w cl root blobs c).0 ≡ c = ground arith in
        subst (λ x. IsSound S w.blake3 x cl.tenant_id) (sym q) h
    | inr (b, bs, some_blobs) ↦
        let a = find_missing_blobs S w c (probes cl (b ∷ bs)) in
        elim (Option-cases a.1) [
          | inr (x, failed) ↦
              let q : (cas_upload S w cl root blobs c).0 ≡ c = ground (arith, failed) in
              subst (λ x. IsSound S w.blake3 x cl.tenant_id) (sym q) h
          | inl fine ↦
              let q : (cas_upload S w cl root blobs c).0
                  ≡ (send_missing S w cl root (b ∷ bs) (digests_of a.0) c).0 =
                ground (arith, fine) in
              subst (λ x. IsSound S w.blake3 x cl.tenant_id) (sym q)
                (send_missing-IsSound hash_key root (digests_of a.0) (b ∷ bs) c h)
        ]
  ]

  ready :
      (c : Contents) (blobs : List BlobRef)
      → All (λ b. (is_abs b.path ≡ true) ⊎ (validate_blob_path b.path ≡ true)) blobs
      → All (λ b. Present S c cl.tenant_id b.digest) (project_blobs blobs)
      → All (IsReady S c cl.tenant_id) (request_blobs blobs)
  unfolding project_blobs
  ready c [] paths present = tt
  ready c (b ∷ blobs) (p, paths) present = elim (Bool-cases (is_abs b.path)) [
    | inl a ↦
        let q : project_blobs (b ∷ blobs) ≡ project_blobs blobs = ground arith in
        (
          inl a,
          ready c blobs paths (subst (All (λ x. Present S c cl.tenant_id x.digest)) q present),
        )
    | inr a ↦
        let q : project_blobs (b ∷ blobs) ≡ b ∷ project_blobs blobs = ground arith in
        let here = subst (All (λ x. Present S c cl.tenant_id x.digest)) q present in
        (
          elim p [ inl absolute ↦ inl absolute | inr valid ↦ inr (valid, here.0) ],
          ready c blobs paths here.1,
        )
  ]

  -- When cas_upload returns without an error, for blobs whose digests the store can keep and whose
  -- paths are absolute or accepted by validate_blob_path, and a store that holds the blob wherever
  -- Has finds an entry of the tenant, the worker then stages the compile: materialize_cas_blobs
  -- succeeds on the blobs of the request, it writes for each relative path, below the directory,
  -- what the store holds under the digest of the blob, and every content that the store holds for
  -- the tenant still has its key for its hash, as before the call.
  pub cas_upload-staged :
      (hash_key : (x : Bytes) → IsKey (w.blake3 x)) (root dir : Bytes)
      → (blobs : List BlobRef) (c after : Contents) → is_abs dir ≡ true
      → Keyed S w cl (project_blobs blobs)
      → IsComplete S c cl.tenant_id
      → All (λ b. (is_abs b.path ≡ true) ⊎ (validate_blob_path b.path ≡ true)) blobs
      → IsSound S w.blake3 c cl.tenant_id
      → cas_upload S w cl root blobs c ≡ (after, true)
      → (ws : List Write) × (materialize_cas_blobs S after cl.tenant_id dir (request_blobs blobs)
          ≡ staged ws)
        × Written S after cl.tenant_id dir (request_blobs blobs) ws
        × IsSound S w.blake3 after cl.tenant_id
  cas_upload-staged hash_key root dir blobs c after d k complete paths sound e =
      let present = cas_upload-Present hash_key root blobs c after k complete e in
      let (ws, s) =
        materialize_cas_blobs-staged S after cl.tenant_id dir (request_blobs blobs)
          (ready after blobs paths present) in
      (
        ws,
        s,
        materialize_cas_blobs-Written S after cl.tenant_id dir (request_blobs blobs) ws d s,
        subst (λ x. IsSound S w.blake3 x cl.tenant_id) (ap (λ x. x.0) e)
            (cas_upload-IsSound hash_key root blobs c sound),
      )
