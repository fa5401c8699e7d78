-- ===== src/Dispatch/Sent.antt =====
-- What stands in the stream of an upload.
use hpcc.Prelude.{
  ◌≡◌, ◌⊎◌, refl, sym, ap, subst, inl, inr, false, Option, none, some, List, [], ◌∷◌, Bytes,
  contains, Bool-cases, Option-cases, All, All-imp, arith,
}
use hpcc.Prelude.FilePath.{join_path}
use hpcc.Compiler.Manifest.{BlobRef}
use hpcc.Worker.{Body, Stream, broken}
use hpcc.Worker.Settled.{Headed, IsWhole}
use hpcc.Dispatch.{Client, blob_header, send_chunks, stream_upload, upload_stream}

send_chunks-IsWhole :
    (cs : List Bytes) (rest : Stream Body) → IsWhole (send_chunks cs rest) → IsWhole rest
unfolding send_chunks
send_chunks-IsWhole [] rest h = h
send_chunks-IsWhole (c ∷ cs) rest h = send_chunks-IsWhole cs rest h

send_chunks-Headed :
    (cs : List Bytes) (rest : Stream Body) (t k : Bytes)
    → Headed t k rest
    → Headed t k (send_chunks cs rest)
unfolding send_chunks
send_chunks-Headed [] rest t k h = h
send_chunks-Headed (c ∷ cs) rest t k h = send_chunks-Headed cs rest t k h

-- Every entry has both properties.
pub All-and {ℓ κ μ} :
    {A : Type ℓ} (P : A → Type κ) (Q : A → Type μ) (xs : List A)
    → All P xs
    → All Q xs
    → All (λ x. P x × Q x) xs
All-and P Q [] h k = tt
All-and P Q (x ∷ xs) h k = ((h.0, k.0), All-and P Q xs h.1 k.1)

pub List-cases {ℓ} : {A : Type ℓ} (l : List A) → (l ≡ []) ⊎ ((x : A) × (xs : List A) × (l ≡ x ∷ xs))
List-cases [] = inl refl
List-cases (x ∷ xs) = inr (x, xs, refl)

pub pair_eq {ℓ κ} :
    {A : Type ℓ} {B : Type κ} (p : A × B) {a : A} {b : B} → p.0 ≡ a → p.1 ≡ b → p ≡ (a, b)
pair_eq (x, y) e f = cc

module _ (cl : Client) (root : Bytes) where
  -- A blob that is sent: its header comes first, and the rest of the stream follows.
  stream_upload-Headed :
      (b : BlobRef) (rest : Stream Body)
      → IsWhole (stream_upload cl root b rest)
      → Headed cl.tenant_id b.digest (stream_upload cl root b rest)
        × IsWhole rest
        × ((k : Bytes)
            → Headed cl.tenant_id k rest
            → Headed cl.tenant_id k (stream_upload cl root b rest))
  unfolding stream_upload blob_header
  stream_upload-Headed b rest h = elim (Option-cases (cl.read_chunks (join_path root b.path))) [
    | inl failed ↦ absurd (let q : ⊥ = (subst IsWhole (ap sent failed) h).1 in q)
    | inr (cs, read) ↦ (
      inl (refl, refl),
      send_chunks-IsWhole cs rest (subst IsWhole (ap sent read) h),
      λ k x. inr (
          subst (Headed cl.tenant_id k) (sym (ap sent read))
            (send_chunks-Headed cs rest cl.tenant_id k x)),
    )
  ]
    where
      sent : Option (List Bytes) → Stream Body
      sent none = broken
      sent (some cs) = send_chunks cs rest

  abbrev pub Sent : List Bytes → Stream Body → BlobRef → Type 0
  Sent missing s b = (contains b.digest missing ≡ false) ⊎ Headed cl.tenant_id b.digest s

  pub upload_stream-Sent :
      (missing : List Bytes) (blobs : List BlobRef)
      → IsWhole (upload_stream cl root missing blobs)
      → All (Sent missing (upload_stream cl root missing blobs)) blobs
  unfolding upload_stream
  upload_stream-Sent missing [] h = tt
  upload_stream-Sent missing (b ∷ blobs) h = elim (Bool-cases (contains b.digest missing)) [
    | inr known ↦
        let q : upload_stream cl root missing (b ∷ blobs) ≡ upload_stream cl root missing blobs =
          ground arith in
        subst (λ s. All (Sent missing s) (b ∷ blobs)) (sym q)
          (inl known, upload_stream-Sent missing blobs (subst IsWhole q h))
    | inl wanted ↦
        let rest = upload_stream cl root missing blobs in
        let q : upload_stream cl root missing (b ∷ blobs) ≡ stream_upload cl root b rest =
          ground arith in
        let (head, whole, lift) = stream_upload-Headed b rest (subst IsWhole q h) in
        subst (λ s. All (Sent missing s) (b ∷ blobs)) (sym q)
          (
            inr head,
            All-imp (Sent missing rest) (Sent missing (stream_upload cl root b rest))
                (λ x y. elim y [ inl known ↦ inl known | inr sent ↦ inr (lift x.digest sent) ])
                blobs (upload_stream-Sent missing blobs whole),
          )
  ]
