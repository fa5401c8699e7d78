-- ===== src/Worker/Settled.antt =====
-- What an upload that succeeds has done with every blob.
use hpcc.Prelude.{
  ◌≡◌, ◌⊎◌, refl, sym, subst, ◌∙◌, inl, inr, true, false, ◌&&◌, Option, none, some, List, [], ◌∷◌,
  ◌++◌, Bytes, bytes_eq, bytes_eq_iff, Bool-cases, Option-cases, Some, arith,
}
use hpcc.Worker.{
  Worker, Error, Result, ok, err, Result-cases, BlobDigest, Body, header, chunk, unknown, Stream,
  eof, broken, recv, BlobInProgress, UploadResult, check_header, add_data, UploadState, reject,
  received, commit_blob, commit, open_blob, header_step, upload_step, upload_from, upload_blobs,
  abandon, commit_error, Stepped, going, stopped,
}
use hpcc.Worker.Sources.{SourceStore, Present}

-- The stream has a header with this tenant and this digest.
abbrev pub Headed : Bytes → Bytes → Stream Body → Type 0
Headed t k eof = Unit {0} × ⊥
Headed t k broken = Unit {0} × ⊥
Headed t k (recv (header none) s) = Headed t k s
Headed t k (recv (header (some d)) s) = ((d.tenant_id ≡ t) × (d.digest ≡ k)) ⊎ Headed t k s
Headed t k (recv (chunk b) s) = Headed t k s
Headed t k (recv unknown s) = Headed t k s

-- The stream ends by its close.
abbrev pub IsWhole : Stream Body → Type 0
IsWhole eof = Unit
IsWhole broken = Unit {0} × ⊥
IsWhole (recv m s) = IsWhole s

abbrev Opened : Bytes → Bytes → Option BlobInProgress → Type 0
Opened t k none = Unit {0} × ⊥
Opened t k (some b) = (b.head.tenant_id ≡ t) × (b.head.digest ≡ k)

abbrev pub Listed : Bytes → List Bytes → Type 0
Listed k l = Some (λ d. d ≡ k) l

Listed-append : (k d : Bytes) (l : List Bytes) → Listed k l → Listed k (l ++ (d ∷ []))
Listed-append k d [] h = absurd h.1
Listed-append k d (x ∷ l) (inl e) = inl e
Listed-append k d (x ∷ l) (inr h) = inr (Listed-append k d l h)

Listed-last : (k d : Bytes) (l : List Bytes) → d ≡ k → Listed k (l ++ (d ∷ []))
Listed-last k d [] e = inl e
Listed-last k d (x ∷ l) e = inr (Listed-last k d l e)

add_data-head : (d : Bytes) (b : BlobInProgress) → (add_data d b).head ≡ b.head
unfolding add_data
add_data-head d b = ground arith

module _ (S : SourceStore) (w : Worker) (hash_key : (x : Bytes) → S.IsKey (w.blake3 x)) where
  open S use {Contents, IsKey, get, put, get-put}

  put-Present :
      (tenant key value : Bytes) (c after : Contents) (t k : Bytes)
      → IsKey key
      → IsKey k
      → put tenant key value c ≡ some after
      → Present S c t k ⊎ ((tenant ≡ t) × (key ≡ k))
      → Present S after t k
  put-Present tenant key value c after t k a b e h =
      elim (Bool-cases (bytes_eq tenant t && bytes_eq key k)) [
        | inl hit ↦ (value, get-put tenant key value c after t k a b e ∙ rw hit)
        | inr miss ↦ elim h [
          | inl old ↦ (old.0, get-put tenant key value c after t k a b e ∙ rw miss old.1)
          | inr same ↦
              absurd (let q : ⊥ = ground (arith, bytes_eq_iff tenant t, bytes_eq_iff key k) in q)
        ]
      ]

  abbrev Now : UploadState S → Bytes → Bytes → Type 0
  Now u t k = Listed k u.result.rejected_digests ⊎ Present S u.contents t k

  -- A blob that is done, open or still to come.
  abbrev Due : UploadState S → Stream Body → Bytes → Bytes → Type 0
  Due u s t k = Now u t k ⊎ (Opened t k u.active ⊎ Headed t k s)

  reject-Now :
      (d : Bytes) (u : UploadState S) (t k : Bytes) → Now u t k ⊎ (d ≡ k) → Now (reject S d u) t k
  unfolding reject
  reject-Now d u t k (inl (inl l)) = inl (Listed-append k d u.result.rejected_digests l)
  reject-Now d u t k (inl (inr p)) = inr p
  reject-Now d u t k (inr e) = inl (Listed-last k d u.result.rejected_digests e)

  commit_blob-Now :
      (b : BlobInProgress) (u v : UploadState S) (t k : Bytes)
      → IsKey k
      → commit_blob S w b u ≡ some v
      → Now u t k ⊎ ((b.head.tenant_id ≡ t) × (b.head.digest ≡ k))
      → Now v t k
  unfolding commit_blob received
  commit_blob-Now b u v t k key e h = elim (Bool-cases b.rejected) [
    | inl r ↦
        let q : reject S b.head.digest u ≡ v = ground arith in
        subst (λ (x : UploadState S). Now x t k) q (reject-Now b.head.digest u t k (digest h))
    | inr r ↦ elim (Bool-cases (bytes_eq (w.blake3 b.hashed) b.head.digest)) [
      | inr other ↦
          let q : reject S b.head.digest u ≡ v = ground arith in
          subst (λ (x : UploadState S). Now x t k) q (reject-Now b.head.digest u t k (digest h))
      | inl same ↦ elim (Option-cases (put b.head.tenant_id (w.blake3 b.hashed) b.buf u.contents)) [
        | inl failed ↦ absurd (let q : ⊥ = ground arith in q)
        | inr (c, stored) ↦
            let q : received S b c u ≡ v = ground arith in
            subst (λ (x : UploadState S). Now x t k) q (stored-Now c stored same h)
      ]
    ]
  ]
    where
      digest :
          Now u t k ⊎ ((b.head.tenant_id ≡ t) × (b.head.digest ≡ k))
          → Now u t k ⊎ (b.head.digest ≡ k)
      digest (inl n) = inl n
      digest (inr x) = inr x.1

      stored-Now :
          (c : Contents)
          → put b.head.tenant_id (w.blake3 b.hashed) b.buf u.contents ≡ some c
          → bytes_eq (w.blake3 b.hashed) b.head.digest ≡ true
          → Now u t k ⊎ ((b.head.tenant_id ≡ t) × (b.head.digest ≡ k))
          → Now (received S b c u) t k
      stored-Now c stored same (inl (inl l)) = inl l
      stored-Now c stored same (inl (inr p)) = inr (
          put-Present b.head.tenant_id (w.blake3 b.hashed) b.buf u.contents c t k
            (hash_key b.hashed) key stored (inl p))
      stored-Now c stored same (inr x) = inr (
          put-Present b.head.tenant_id (w.blake3 b.hashed) b.buf u.contents c t k
            (hash_key b.hashed) key stored
            (inr (x.0, (bytes_eq_iff (w.blake3 b.hashed) b.head.digest).0 same ∙ x.1)))

  commit-Now :
      (u v : UploadState S) (t k : Bytes)
      → IsKey k
      → commit S w u ≡ some v
      → Now u t k ⊎ Opened t k u.active
      → Now v t k
  unfolding commit
  commit-Now u v t k key e h = elim (Option-cases u.active) [
    | inl closed ↦
        let q : u ≡ v = ground arith in
        subst (λ (x : UploadState S). Now x t k) q
          (elim h [ inl n ↦ n | inr o ↦ absurd (subst (Opened t k) closed o).1 ])
    | inr (b, at) ↦
        let q : commit_blob S w b u ≡ some v = ground arith in
        commit_blob-Now b u v t k key q
          (elim h [ inl n ↦ inl n | inr o ↦ inr (subst (Opened t k) at o) ])
  ]

  step-Due :
      (m : Body) (s : Stream Body) (u v : UploadState S) (t k : Bytes)
      → IsKey k
      → upload_step S w m u ≡ going v
      → Due u (recv m s) t k
      → Due v s t k
  unfolding upload_step header_step open_blob
  step-Due unknown s u v t k key e h = absurd (let q : ⊥ = cc in q)
  step-Due (chunk d) s u v t k key e h = elim (Option-cases u.active) [
    | inl closed ↦ absurd (let q : ⊥ = ground arith in q)
    | inr (b, at) ↦
        let q : record u { active = some (add_data d b) } ≡ v = ground arith in
        subst (λ (x : UploadState S). Due x s t k) q
          (elim h [
            | inl n ↦ inl n
            | inr rest ↦ inr (elim rest [
              | inr later ↦ inr later
              | inl o ↦ inl (
                  subst (λ (x : BlobDigest). (x.tenant_id ≡ t) × (x.digest ≡ k))
                    (sym (add_data-head d b)) (subst (Opened t k) at o))
            ])
          ])
  ]
  step-Due (header none) s u v t k key e h = absurd (let q : ⊥ = ground arith in q)
  step-Due (header (some d)) s u v t k key e h = elim (Option-cases (commit S w u)) [
    | inl failed ↦ absurd (let q : ⊥ = ground arith in q)
    | inr (x, done) ↦ elim (Result-cases (check_header w x.stream_tenant d)) [
      | inl (bad, refused) ↦ absurd (let q : ⊥ = ground arith in q)
      | inr (tenant, good) ↦
          let q : record x {
            active = some (record { head = d; hashed = []; buf = []; rejected = false });
            stream_tenant = tenant;
          }
              ≡ v =
            ground arith in
          subst (λ (y : UploadState S). Due y s t k) q
            (elim h [
              | inl n ↦ inl (commit-Now u x t k key done (inl n))
              | inr rest ↦ elim rest [
                | inl o ↦ inl (commit-Now u x t k key done (inr o))
                | inr later ↦ elim later [ inl here ↦ inr (inl here) | inr more ↦ inr (inr more) ]
              ]
            ])
    ]
  ]

  Stepped-cases :
      (x : Stepped S)
      → ((v : UploadState S) × (e : Error) × (x ≡ stopped v e))
        ⊎ ((v : UploadState S) × (x ≡ going v))
  Stepped-cases (going v) = inr (v, refl)
  Stepped-cases (stopped v e) = inl (v, e, refl)

  abbrev Settled : Bytes → Bytes → Contents × Result UploadResult → Type 0
  Settled t k (c, err e) = Unit
  Settled t k (c, ok r) = Listed k r.rejected_digests ⊎ Present S c t k

  upload_from-Settled :
      (s : Stream Body) (u : UploadState S) (t k : Bytes)
      → IsKey k
      → Due u s t k
      → Settled t k (upload_from S w s u)
  unfolding upload_from
  upload_from-Settled eof u t k key h = elim (Option-cases (commit S w u)) [
    | inl failed ↦
        let q : upload_from S w eof u ≡ ((abandon S w u).contents, err (commit_error S u)) =
          ground arith in
        subst (Settled t k) (sym q) tt
    | inr (v, done) ↦
        let q : upload_from S w eof u ≡ (v.contents, ok v.result) = ground arith in
        subst (Settled t k) (sym q) (
          commit-Now u v t k key done (elim h [
            | inl n ↦ inl n
            | inr rest ↦ elim rest [ inl o ↦ inr o | inr none_left ↦ absurd none_left.1 ]
          ]))
  ]
  upload_from-Settled broken u t k key h = tt
  upload_from-Settled (recv m s) u t k key h = elim (Stepped-cases (upload_step S w m u)) [
    | inl (v, e, q) ↦
        let r : upload_from S w (recv m s) u ≡ (v.contents, err e) = ground arith in
        subst (Settled t k) (sym r) tt
    | inr (v, q) ↦
        let r : upload_from S w (recv m s) u ≡ upload_from S w s v = ground arith in
        subst (Settled t k) (sym r) (upload_from-Settled s v t k key (step-Due m s u v t k key q h))
  ]

  -- When UploadBlobs answers with a result, every blob that a header of the stream announced, and
  -- every entry that the store held before, is listed in the result as rejected or is in the store
  -- under its digest for its tenant.
  pub upload_blobs-Settled :
      (s : Stream Body) (c after : Contents) (r : UploadResult) (t k : Bytes)
      → IsKey k
      → upload_blobs S w s c ≡ (after, ok r)
      → Headed t k s ⊎ Present S c t k
      → Listed k r.rejected_digests ⊎ Present S after t k
  unfolding upload_blobs
  upload_blobs-Settled s c after r t k key e h = subst (Settled t k) e (
      upload_from-Settled s _ t k key
        (elim h [ inl later ↦ inr (inr later) | inr now ↦ inl (inr now) ]))

  upload_from-IsWhole :
      (s : Stream Body) (u : UploadState S) (after : Contents) (r : UploadResult)
      → upload_from S w s u ≡ (after, ok r)
      → IsWhole s
  unfolding upload_from
  upload_from-IsWhole eof u after r e = tt
  upload_from-IsWhole broken u after r e = absurd (let q : ⊥ = cc in q)
  upload_from-IsWhole (recv m s) u after r e = elim (Stepped-cases (upload_step S w m u)) [
    | inl (v, x, q) ↦ absurd (let q : ⊥ = ground arith in q)
    | inr (v, q) ↦
        let rest : upload_from S w s v ≡ (after, ok r) = ground arith in
        upload_from-IsWhole s v after r rest
  ]

  pub upload_blobs-IsWhole :
      (s : Stream Body) (c after : Contents) (r : UploadResult)
      → upload_blobs S w s c ≡ (after, ok r)
      → IsWhole s
  unfolding upload_blobs
  upload_blobs-IsWhole s c after r e = upload_from-IsWhole s _ after r e
