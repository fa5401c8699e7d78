-- ===== src/Worker/Uploads.antt =====
-- What an upload changes in the source store.
use hpcc.Prelude.{
  ◌≤◌, ◌≡◌, ◌≢◌, ◌⊎◌, refl, sym, ap, subst, ◌∙◌, inl, inr, Bool, true, false, ◌&&◌, Option, none,
  some, [], Bytes, bytes_eq, bytes_eq_iff, length, if◌then◌else◌, and-true, Bool-cases,
  Option-cases, arith,
}
use hpcc.Worker.{
  Worker, invalid_argument, Result, ok, err, Result-cases, BlobDigest, Body, header, chunk, unknown,
  Stream, eof, broken, recv, max_source_blob_bytes, BlobInProgress, UploadResult, check_header,
  add_data, UploadState, commit_blob, commit, open_blob, upload_step, header_step, upload_from,
  upload_blobs, abandon, commit_error, validate_scheduler_token_for_cas, reject, received, going,
  stopped,
}
use hpcc.Worker.Sources.{SourceStore, IsSound}
use hpcc.Worker.Headers.{
  first_tenant, Announced, IsOpen, tenant_of, WhenOpen, Opened, add_data-IsOpen, add_data-head,
  tenant_of-pinned, check_header-IsAccepted, IsAccepted,
}

module _ (S : SourceStore) (w : Worker) (hash_key : (x : Bytes) → S.IsKey (w.blake3 x)) where
  open S use {Contents, IsKey, get, put, get-put, failed_put, get-failed_put}

  -- What a call leaves of an entry: what was there, or bytes whose hash is the key.
  abbrev pub Kept : Contents → Contents → Bytes → Bytes → Type 0 → Type 0
  Kept c after t k Source =
      (get after t k ≡ get c t k)
      ⊎ ((v : Bytes) × (get after t k ≡ some v)
          × (w.blake3 v ≡ k)
          × (length v ≤ max_source_blob_bytes)
          × Source)

  Kept-weaken :
      {A B : Type 0} {c after : Contents} {t k : Bytes}
      → (A → B)
      → Kept c after t k A
      → Kept c after t k B
  Kept-weaken f (inl same) = inl same
  Kept-weaken f (inr (v, e, h, n, a)) = inr (v, e, h, n, f a)

  Kept-trans :
      {A : Type 0} {c d after : Contents} {t k : Bytes}
      → Kept c d t k A
      → Kept d after t k A
      → Kept c after t k A
  Kept-trans (inl e) (inl f) = inl (f ∙ e)
  Kept-trans (inr (v, e, h, n, a)) (inl f) = inr (v, f ∙ e, h, n, a)
  Kept-trans p (inr q) = inr q

  abbrev Ends : Bytes → BlobInProgress → UploadState S → Bytes → Bytes → UploadState S → Type 0
  Ends tenant b u t k v =
      Kept u.contents v.contents t k ((tenant ≡ t) × (b.head.digest ≡ k))
      × (v.active ≡ none)
      × (v.stream_tenant ≡ u.stream_tenant)

  stored-Kept :
      (tenant : Bytes) (b : BlobInProgress) (u : UploadState S) (c : Contents) (t k : Bytes)
      → IsKey k
      → IsOpen w tenant b
      → b.rejected ≡ false
      → bytes_eq (w.blake3 b.hashed) b.head.digest ≡ true
      → put b.head.tenant_id (w.blake3 b.hashed) b.buf u.contents ≡ some c
      → Ends tenant b u t k (received S b c u)
  unfolding received
  stored-Kept tenant b u c t k key o r same stored = elim (Bool-cases hit) [
    | inr miss ↦ (inl (read ∙ rw miss), refl, refl)
    | inl at ↦
        let parts = and-true (bytes_eq b.head.tenant_id t) (bytes_eq (w.blake3 b.hashed) k) at in
        let digest = (bytes_eq_iff (w.blake3 b.hashed) k).0 parts.1 in
        (
          inr (
            b.buf,
            read ∙ rw at,
            ap w.blake3 (sym (o.held r).0) ∙ digest,
            (o.held r).1,
            (
              sym o.pinned ∙ (bytes_eq_iff b.head.tenant_id t).0 parts.0,
              sym ((bytes_eq_iff (w.blake3 b.hashed) b.head.digest).0 same) ∙ digest,
            ),
          ),
          refl,
          refl,
        )
  ]
    where
      hit : Bool
      hit = bytes_eq b.head.tenant_id t && bytes_eq (w.blake3 b.hashed) k

      read : get c t k ≡ (if hit then some b.buf else get u.contents t k)
      read =
          get-put b.head.tenant_id (w.blake3 b.hashed) b.buf u.contents c t k (hash_key b.hashed)
            key stored

  -- The end of the open blob.
  commit_blob-Kept :
      (tenant : Bytes) (b : BlobInProgress) (u v : UploadState S) (t k : Bytes)
      → IsKey k
      → IsOpen w tenant b
      → commit_blob S w b u ≡ some v
      → Kept u.contents v.contents t k ((tenant ≡ t) × (b.head.digest ≡ k))
        × (v.active ≡ none)
        × (v.stream_tenant ≡ u.stream_tenant)
  unfolding commit_blob reject received
  commit_blob-Kept tenant b u v t k key o e = elim (Bool-cases b.rejected) [
    | inl r ↦
        let q : reject S b.head.digest u ≡ v = ground arith in
        subst (Ends tenant b u t k) q (inl refl, refl, refl)
    | inr r ↦ elim (Bool-cases (bytes_eq (w.blake3 b.hashed) b.head.digest)) [
      | inr other ↦
          let q : reject S b.head.digest u ≡ v = ground arith in
          subst (Ends tenant b u t k) q (inl refl, refl, refl)
      | inl same ↦ elim (Option-cases (put b.head.tenant_id (w.blake3 b.hashed) b.buf u.contents)) [
        | inl failed ↦ absurd (let q : ⊥ = ground arith in q)
        | inr (c, stored) ↦
            let q : received S b c u ≡ v = ground arith in
            subst (Ends tenant b u t k) q (stored-Kept tenant b u c t k key o r same stored)
      ]
    ]
  ]

  abandon-get :
      (u : UploadState S) (t k : Bytes)
      → IsKey k
      → get (abandon S w u).contents t k ≡ get u.contents t k
  unfolding abandon
  abandon-get u t k key = elim (Option-cases u.active) [
    | inl e ↦ rw e refl
    | inr (b, e) ↦ rw e (
        get-failed_put b.head.tenant_id (w.blake3 b.hashed) b.buf u.contents t k (hash_key b.hashed)
          key)
  ]

  abbrev OpenOk : UploadState S → Type 0
  OpenOk u = WhenOpen (λ b. (u.stream_tenant ≢ []) × IsOpen w u.stream_tenant b) u.active

  abbrev FromActive : UploadState S → Bytes → Bytes → Type 0
  FromActive u t k = (u.stream_tenant ≢ []) × (u.stream_tenant ≡ t) × Opened t k u.active

  commit-Kept :
      (u v : UploadState S) (t k : Bytes)
      → IsKey k
      → OpenOk u
      → commit S w u ≡ some v
      → Kept u.contents v.contents t k (FromActive u t k)
        × (v.active ≡ none)
        × (v.stream_tenant ≡ u.stream_tenant)
  unfolding commit
  commit-Kept u v t k key o e = elim (Option-cases u.active) [
    | inl closed ↦
        let q : u ≡ v = ground arith in
        subst
          (λ (x : UploadState S).
            Kept u.contents x.contents t k (FromActive u t k)
            × (x.active ≡ none)
            × (x.stream_tenant ≡ u.stream_tenant))
          q (inl refl, closed, refl)
    | inr (b, at) ↦
        let q : commit_blob S w b u ≡ some v = ground arith in
        let open_b =
          subst (WhenOpen (λ x. (u.stream_tenant ≢ []) × IsOpen w u.stream_tenant x)) at o in
        let r = commit_blob-Kept u.stream_tenant b u v t k key open_b.1 q in
        (
          Kept-weaken
              (λ x. (open_b.0, x.0, subst (Opened t k) (sym at) (open_b.1.pinned ∙ x.0, x.1))) r.0,
          r.1,
          r.2,
        )
  ]

  abbrev Source : UploadState S → Stream Body → Bytes → Bytes → Type 0
  Source u s t k = (t ≡ tenant_of u.stream_tenant s) × (Opened t k u.active ⊎ Announced w t k s)

  active-Source :
      (u : UploadState S) (s : Stream Body) (t k : Bytes) → FromActive u t k → Source u s t k
  active-Source u s t k f = (sym f.1 ∙ sym (tenant_of-pinned u.stream_tenant s f.0), inl f.2)

  -- A header that is accepted opens its blob.
  abbrev opened : BlobDigest → Bytes → UploadState S → UploadState S
  opened d tenant u = record u {
    active = some (record { head = d; hashed = []; buf = []; rejected = false });
    stream_tenant = tenant;
  }

  opened-Ok :
      (d : BlobDigest) (tenant : Bytes) (u : UploadState S) (s : Stream Body)
      → IsAccepted w u.stream_tenant tenant d s
      → OpenOk (opened d tenant u)
  opened-Ok d tenant u s a =
      (a.present, record { held = λ _. (refl, omega arith); pinned = a.own; trusted = a.trusted })

  opened-Source :
      (d : BlobDigest) (tenant : Bytes) (u : UploadState S) (s : Stream Body) (t k : Bytes)
      → IsAccepted w u.stream_tenant tenant d s
      → Source (opened d tenant u) s t k
      → Source u (recv (header (some d)) s) t k
  opened-Source d tenant u s t k a (e, from) =
      let here = e ∙ tenant_of-pinned tenant s a.present in
      (
        here ∙ sym a.first,
        elim from [
          | inr later ↦ inr (inr later)
          | inl now ↦ inr (
              inl (
                now.0,
                now.1,
                subst (λ x. validate_scheduler_token_for_cas w d.scheduler_token x ≡ true)
                    (sym here) a.trusted,
              ))
        ],
      )

  abbrev Ran : UploadState S → Stream Body → Bytes → Bytes → Contents × Result UploadResult → Type 0
  Ran u s t k r = Kept u.contents r.0 t k (Source u s t k)

  abbrev Committed : UploadState S → UploadState S → Bytes → Bytes → Type 0
  Committed u v t k =
      Kept u.contents v.contents t k (FromActive u t k)
      × (v.active ≡ none)
      × (v.stream_tenant ≡ u.stream_tenant)

  committed-Source :
      (u v : UploadState S) (s : Stream Body) (t k : Bytes)
      → v.active ≡ none
      → v.stream_tenant ≡ u.stream_tenant
      → Source v s t k
      → Source u s t k
  committed-Source u v s t k closed same (e, from) = (
    subst (λ x. t ≡ tenant_of x s) same e,
    elim from [ inl now ↦ absurd (subst (Opened t k) closed now).1 | inr later ↦ inr later ],
  )

  after_header : Option BlobDigest → Stream Body → UploadState S → Contents × Result UploadResult
  unfolding header_step
  after_header h s v = elim (header_step S w h v) [
    | stopped x e ↦ (x.contents, err e)
    | going x ↦ upload_from S w s x
  ]

  -- A header, once the blob before it is done.
  header-Ran :
      (h : Option BlobDigest) (s : Stream Body) (u v : UploadState S) (t k : Bytes)
      → IsKey k
      → Committed u v t k
      → ((x : UploadState S) → OpenOk x → Ran x s t k (upload_from S w s x))
      → Ran u (recv (header h) s) t k (after_header h s v)
  unfolding after_header open_blob
  header-Ran none s u v t k key c rest =
      Kept-weaken (active-Source u (recv (header none) s) t k) c.0
  header-Ran (some d) s u v t k key c rest =
      elim (Result-cases (check_header w v.stream_tenant d)) [
        | inl (e, bad) ↦
            let q : after_header (some d) s v ≡ (v.contents, err e) = ground arith in
            subst (Ran u (recv (header (some d)) s) t k) (sym q)
              (Kept-weaken (active-Source u (recv (header (some d)) s) t k) c.0)
        | inr (tenant, good) ↦
            let a = check_header-IsAccepted w v.stream_tenant tenant d s good in
            let x = opened d tenant v in
            let q : after_header (some d) s v ≡ upload_from S w s x = ground arith in
            let later = rest x (opened-Ok d tenant v s a) in
            subst (Ran u (recv (header (some d)) s) t k) (sym q) (
              Kept-trans (Kept-weaken (active-Source u (recv (header (some d)) s) t k) c.0) (
                Kept-weaken
                  (λ y.
                    committed-Source u v (recv (header (some d)) s) t k c.1 c.2
                      (opened-Source d tenant v s t k a y))
                  later))
      ]

  -- One message, and what the rest of the stream leaves.
  step-Ran :
      (m : Body) (s : Stream Body) (u : UploadState S) (t k : Bytes)
      → IsKey k
      → OpenOk u
      → ((v : UploadState S) → OpenOk v → Ran v s t k (upload_from S w s v))
      → Ran u (recv m s) t k (upload_from S w (recv m s) u)
  unfolding upload_from upload_step after_header
  step-Ran unknown s u t k key o rest = inl refl
  step-Ran (chunk d) s u t k key o rest = elim (Option-cases u.active) [
    | inl closed ↦
        let q : upload_from S w (recv (chunk d) s) u ≡ (u.contents, err invalid_argument) =
          ground arith in
        subst (Ran u (recv (chunk d) s) t k) (sym q) (inl refl)
    | inr (b, at) ↦
        let next = record u { active = some (add_data d b) } in
        let q : upload_from S w (recv (chunk d) s) u ≡ upload_from S w s next = ground arith in
        let ob = subst (WhenOpen (λ x. (u.stream_tenant ≢ []) × IsOpen w u.stream_tenant x)) at o in
        let open_next : OpenOk next = (ob.0, add_data-IsOpen w u.stream_tenant d b ob.1) in
        let source : Source next s t k → Source u (recv (chunk d) s) t k = λ x. (
          x.0,
          elim x.1 [
            | inr later ↦ inr later
            | inl now ↦ inl (
                subst (Opened t k) (sym at) (
                  sym (ap (λ (y : BlobDigest). y.tenant_id) (add_data-head d b)) ∙ now.0,
                  sym (ap (λ (y : BlobDigest). y.digest) (add_data-head d b)) ∙ now.1,
                ))
          ],
        ) in
        subst (Ran u (recv (chunk d) s) t k) (sym q) (Kept-weaken source (rest next open_next))
  ]
  step-Ran (header h) s u t k key o rest = elim (Option-cases (commit S w u)) [
    | inl failed ↦
        let q : upload_from S w (recv (header h) s) u
            ≡ ((abandon S w u).contents, err (commit_error S u)) =
          ground arith in
        subst (Ran u (recv (header h) s) t k) (sym q) (inl (abandon-get u t k key))
    | inr (v, done) ↦
        let q : upload_from S w (recv (header h) s) u ≡ after_header h s v = ground arith in
        subst (Ran u (recv (header h) s) t k) (sym q)
          (header-Ran h s u v t k key (commit-Kept u v t k key o done) rest)
  ]

  upload_from-Kept :
      (s : Stream Body) (u : UploadState S) (t k : Bytes)
      → IsKey k
      → OpenOk u
      → Ran u s t k (upload_from S w s u)
  unfolding upload_from
  upload_from-Kept eof u t k key o = elim (Option-cases (commit S w u)) [
    | inl failed ↦
        let q : upload_from S w eof u ≡ ((abandon S w u).contents, err (commit_error S u)) =
          ground arith in
        subst (Ran u eof t k) (sym q) (inl (abandon-get u t k key))
    | inr (v, done) ↦
        let q : upload_from S w eof u ≡ (v.contents, ok v.result) = ground arith in
        subst (Ran u eof t k) (sym q)
          (Kept-weaken (active-Source u eof t k) (commit-Kept u v t k key o done).0)
  ]
  upload_from-Kept broken u t k key o = inl refl
  upload_from-Kept (recv m s) u t k key o =
      step-Ran m s u t k key o (λ v. upload_from-Kept s v t k key)

  -- Whatever is sent to UploadBlobs, an entry of the source store is what it was before, or it now
  -- holds bytes whose hash is its key, of at most the size limit, its tenant is that of the first
  -- header of the stream, and the stream has a header with this tenant, this digest and a valid
  -- token for the tenant. It is assumed that the store can keep every hash as a key.
  pub upload_blobs-Kept :
      (s : Stream Body) (c : Contents) (tenant k : Bytes)
      → IsKey k
      → Kept c
          (upload_blobs S w s c).0
          tenant
          k
          ((tenant ≡ first_tenant s) × Announced w tenant k s)
  unfolding upload_blobs bytes_eq
  upload_blobs-Kept s c tenant k key =
      Kept-weaken (λ x. (x.0, elim x.1 [ inl none_open ↦ absurd none_open.1 | inr a ↦ a ]))
        (upload_from-Kept s _ tenant k key (tt))

  -- A sound store stays sound, for every tenant.
  pub upload_blobs-IsSound :
      (s : Stream Body) (c : Contents) (tenant : Bytes)
      → IsSound S w.blake3 c tenant
      → IsSound S w.blake3 (upload_blobs S w s c).0 tenant
  upload_blobs-IsSound s c tenant h k v key e = elim (upload_blobs-Kept s c tenant k key) [
    | inl same ↦ h k v key (sym same ∙ e)
    | inr (x, stored, hash, size, from) ↦ let q : x ≡ v = cc in subst (λ y. w.blake3 y ≡ k) q hash
  ]
