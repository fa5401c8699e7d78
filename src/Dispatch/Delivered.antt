-- ===== src/Dispatch/Delivered.antt =====
-- Every blob that a worker missed is sent, and stored where the upload succeeds.
use hpcc.Prelude.{
  ◌≡◌, ◌≢◌, ◌⊎◌, refl, sym, subst, inl, inr, true, false, List, [], ◌∷◌, Bytes, bytes_eq_refl,
  contains, Option-cases, All, All-imp, Some, arith,
}
use hpcc.Compiler.Manifest.{BlobRef}
use hpcc.Worker.{
  Worker, ok, Result-cases, Body, Stream, UploadResult, upload_blobs, find_missing_blobs,
}
use hpcc.Worker.Sources.{SourceStore, Present, IsComplete}
use hpcc.Worker.Settled.{Headed, upload_blobs-Settled, upload_blobs-IsWhole}
use hpcc.Worker.Probes.{IsProper, missing_of, find_missing_blobs-Proper}
use hpcc.Dispatch.{
  Client, blob_header, probes, digests_of, upload_stream, send_missing, probe_and_send,
}
use hpcc.Dispatch.Sent.{All-and, List-cases, pair_eq, Sent, upload_stream-Sent}

module _ (S : SourceStore) (w : Worker) (cl : Client) where
  open S use {Contents, IsKey}

  -- The store can keep the digests.
  abbrev pub Keyed : List BlobRef → Type 0
  Keyed = All (λ b. (b.digest ≢ []) × IsKey b.digest)

  contains_head : (d : Bytes) (l : List Bytes) → contains d (d ∷ l) ≡ true
  unfolding contains
  contains_head d l = rw (bytes_eq_refl d) refl

  Headed-or_Present :
      (c : Contents) (missing : List Bytes) (s : Stream Body) (b : BlobRef)
      → Present S c cl.tenant_id b.digest ⊎ (contains b.digest missing ≡ true)
      → (contains b.digest missing ≡ false) ⊎ Headed cl.tenant_id b.digest s
      → Headed cl.tenant_id b.digest s ⊎ Present S c cl.tenant_id b.digest
  Headed-or_Present c missing s b (inl held) q = inr held
  Headed-or_Present c missing s b (inr wanted) (inl known) = absurd (let q : ⊥ = cc in q)
  Headed-or_Present c missing s b (inr wanted) (inr sent) = inl sent

  contains-cons : (d x : Bytes) (l : List Bytes) → contains d l ≡ true → contains d (x ∷ l) ≡ true
  unfolding contains
  contains-cons d x l h = ground (arith, h)

  abbrev Probed : Contents → List Bytes → BlobRef → Type 0
  Probed c missing b = Present S c cl.tenant_id b.digest ⊎ (contains b.digest missing ≡ true)

  probes-Probed :
      (c : Contents) (old : Bytes) (blobs : List BlobRef)
      → IsComplete S c cl.tenant_id
      → IsProper S w c old (probes cl blobs)
      → All (Probed c (digests_of (missing_of S w c (probes cl blobs)))) blobs
  unfolding probes blob_header digests_of
  probes-Probed c old [] whole proper = tt
  probes-Probed c old (b ∷ blobs) whole (_, answered, proper) =
      let ih = probes-Probed c cl.tenant_id blobs whole proper in
      let rest = missing_of S w c (probes cl blobs) in
      elim answered [
        | inl there ↦
            let q : missing_of S w c (probes cl (b ∷ blobs)) ≡ rest = ground arith in
            subst (λ m. All (Probed c (digests_of m)) (b ∷ blobs)) (sym q)
              (inl (whole b.digest there), ih)
        | inr away ↦
            let q : missing_of S w c (probes cl (b ∷ blobs)) ≡ blob_header cl b ∷ rest =
              ground arith in
            subst (λ m. All (Probed c (digests_of m)) (b ∷ blobs)) (sym q)
              (
                inr (contains_head b.digest (digests_of rest)),
                All-imp (Probed c (digests_of rest)) (Probed c (b.digest ∷ digests_of rest))
                    (λ x y. elim y [
                      | inl held ↦ inl held
                      | inr found ↦ inr (contains-cons x.digest b.digest (digests_of rest) found)
                    ])
                    blobs ih,
              )
      ]

  -- What the loop over the blobs has sent, put together with what the worker missed.
  sent-Present :
      (hash_key : (x : Bytes) → IsKey (w.blake3 x)) (root : Bytes) (missing : List Bytes)
      → (blobs : List BlobRef) (c after : Contents) (r : UploadResult)
      → All (λ b. (b.digest ≢ []) × IsKey b.digest) blobs
      → All (Probed c missing) blobs
      → upload_blobs S w (upload_stream cl root missing blobs) c ≡ (after, ok r)
      → r.rejected_digests ≡ []
      → All (λ b. Present S after cl.tenant_id b.digest) blobs
  sent-Present hash_key root missing blobs c after r keys probed e clean =
      let s = upload_stream cl root missing blobs in
      let sent =
        upload_stream-Sent cl root missing blobs
          (upload_blobs-IsWhole S w hash_key s c after r e) in
      All-imp
        (λ b. ((b.digest ≢ []) × IsKey b.digest) × (Probed c missing b × Sent cl root missing s b))
        (λ b. Present S after cl.tenant_id b.digest)
        (λ b (k, (p, q)).
          elim (upload_blobs-Settled S w hash_key s c after r cl.tenant_id b.digest k.1 e
            (Headed-or_Present c missing s b p q)) [
              | inr held ↦ held
              | inl listed ↦ absurd (subst (λ l. Some (λ d. d ≡ b.digest) l) clean listed).1
            ])
        blobs (All-and _ _ blobs keys (All-and _ _ blobs probed sent))

  pub send_missing-Present :
      (hash_key : (x : Bytes) → IsKey (w.blake3 x)) (root : Bytes) (missing : List Bytes)
      → (blobs : List BlobRef) (c after : Contents)
      → All (λ b. (b.digest ≢ []) × IsKey b.digest) blobs
      → All (Probed c missing) blobs
      → send_missing S w cl root blobs missing c ≡ (after, true)
      → All (λ b. Present S after cl.tenant_id b.digest) blobs
  unfolding send_missing contains
  send_missing-Present hash_key root [] blobs c after keys probed e =
      let same : c ≡ after = cc in
      All-imp (Probed c []) (λ b. Present S after cl.tenant_id b.digest)
        (λ b p. elim p [
          | inl held ↦ subst (λ x. Present S x cl.tenant_id b.digest) same held
          | inr wanted ↦ absurd (let q : ⊥ = cc in q)
        ])
        blobs probed
  send_missing-Present hash_key root (d ∷ missing) blobs c after keys probed e =
      let s = upload_stream cl root (d ∷ missing) blobs in
      elim (Result-cases (upload_blobs S w s c).1) [
        | inl (x, failed) ↦ absurd (let q : ⊥ = ground (arith, failed) in q)
        | inr (r, done) ↦ elim (List-cases r.rejected_digests) [
          | inr (y, ys, bad) ↦ absurd (let q : ⊥ = ground (arith, done, bad) in q)
          | inl clean ↦
              let end : (upload_blobs S w s c).0 ≡ after = ground (arith, done, clean) in
              let whole : upload_blobs S w s c ≡ (after, ok r) =
                pair_eq (upload_blobs S w s c) end done in
              sent-Present hash_key root (d ∷ missing) blobs c after r keys probed whole clean
        ]
      ]

  pub probe_and_send-Present :
      (hash_key : (x : Bytes) → IsKey (w.blake3 x)) (root : Bytes)
      → (blobs : List BlobRef) (c after : Contents) → Keyed blobs
      → IsComplete S c cl.tenant_id
      → probe_and_send S w cl root blobs c ≡ (after, true)
      → All (λ b. Present S after cl.tenant_id b.digest) blobs
  unfolding probe_and_send
  probe_and_send-Present hash_key root blobs c after k complete e =
      let s = probes cl blobs in
      let (proper, answered) = find_missing_blobs-Proper S w c s in
      elim (Option-cases (find_missing_blobs S w c s).1) [
        | inr (x, failed) ↦ absurd (let q : ⊥ = ground (arith, failed) in q)
        | inl fine ↦
            let q : send_missing S w cl root blobs (digests_of (find_missing_blobs S w c s).0) c
                ≡ (after, true) =
              ground (arith, fine) in
            send_missing-Present hash_key root (digests_of (missing_of S w c s)) blobs c after k
              (probes-Probed c [] blobs complete (proper.0 fine))
              (subst (λ m. send_missing S w cl root blobs (digests_of m) c ≡ (after, true))
                (answered fine) q)
      ]
