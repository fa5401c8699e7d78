-- ===== src/Worker/Manifests.antt =====
-- What two manifests with one verified digest have in common.
use hpcc.Prelude.{
  ◌%◌, ◌^◌, ◌<◌, ◌≤◌, ◌≡◌, ◌⊎◌, refl, sym, ap, subst, ◌∙◌, inl, inr, List, [], ◌∷◌, ◌++◌, Bytes,
  bytes_eq, bytes_eq_iff, Bool-cases, All, length, append-injective, length-append, ◌==◌, ==_iff,
  arith,
}
use mathlib.Core.Path.{ap₂}
use hpcc.Prelude.Endian.{be_bytes, be_bytes_injective, length-be_bytes}
use hpcc.Compiler.Manifest.{
  BlobRef, ascii_lower, manifest_bytes, aggregate_manifest_digest, place_blob, sort_blobs,
}
use hpcc.Compiler.Key.{bytes_lt}
use hpcc.Compiler.Key.Collisions.{Collision, same_or_Collision}
use hpcc.Worker.{
  Worker, Result, ok, err, Result-cases, CasDescriptor, check_blobs, manifest_blob,
  verify_manifest_digest,
}
use hpcc.Worker as Worker

-- The entries of a manifest as its digest sees them: paths in lower case, with their digests.
abbrev pub entries : List BlobRef → List (Bytes × Bytes)
entries [] = []
entries (b ∷ blobs) = (ascii_lower b.path, b.digest) ∷ entries blobs

abbrev pub IsBlob : BlobRef → Type 0
IsBlob b = (length b.digest ≡ 32) × (length (ascii_lower b.path) < 2 ^ 64)

long : (b : BlobRef) (blobs : List BlobRef) → 8 ≤ length (manifest_bytes (b ∷ blobs))
unfolding manifest_bytes
long b blobs = omega (
  arith,
  length-append (be_bytes 8 (length (ascii_lower b.path) % 2 ^ 64))
      (ascii_lower b.path ++ (b.digest ++ manifest_bytes blobs)),
  length-be_bytes 8 (length (ascii_lower b.path) % 2 ^ 64),
)

manifest_bytes_injective :
    (a b : List BlobRef)
    → All IsBlob a
    → All IsBlob b
    → manifest_bytes a ≡ manifest_bytes b
    → entries a ≡ entries b
unfolding manifest_bytes
manifest_bytes_injective [] [] h k e = refl
manifest_bytes_injective [] (y ∷ b) h k e = absurd (omega (arith, ap length e, long y b))
manifest_bytes_injective (x ∷ a) [] h k e = absurd (omega (arith, ap length e, long x a))
manifest_bytes_injective (x ∷ a) (y ∷ b) h k e =
    let lx = length (ascii_lower x.path) % 2 ^ 64 in
    let ly = length (ascii_lower y.path) % 2 ^ 64 in
    let (heads, rest) =
      append-injective (be_bytes 8 lx) (be_bytes 8 ly) _ _
        (length-be_bytes 8 lx ∙ sym (length-be_bytes 8 ly)) e in
    let lengths = be_bytes_injective 8 lx ly (omega arith) (omega arith) heads in
    let same : length (ascii_lower x.path) ≡ length (ascii_lower y.path) =
      omega (arith, lengths, h.0.1, k.0.1) in
    let (paths, rest') = append-injective (ascii_lower x.path) (ascii_lower y.path) _ _ same rest in
    let (digests, blobs) = append-injective x.digest y.digest _ _ (h.0.0 ∙ sym k.0.0) rest' in
    ap₂ ◌∷◌ (ap₂ (λ (p d : Bytes). (p, d)) paths digests)
      (manifest_bytes_injective a b h.1 k.1 blobs)

place_blob-IsBlob :
    (b : BlobRef) (blobs : List BlobRef)
    → IsBlob b
    → All IsBlob blobs
    → All IsBlob (place_blob b blobs)
unfolding place_blob
place_blob-IsBlob b [] h k = (h, tt)
place_blob-IsBlob b (c ∷ blobs) h k = elim (Bool-cases (bytes_lt c.path b.path)) [
  | inl before ↦ rw before (k.0, place_blob-IsBlob b blobs h k.1)
  | inr after ↦ rw after (h, k)
]

sort_blobs-IsBlob : (blobs : List BlobRef) → All IsBlob blobs → All IsBlob (sort_blobs blobs)
unfolding sort_blobs
sort_blobs-IsBlob [] h = tt
sort_blobs-IsBlob (b ∷ blobs) h =
    place_blob-IsBlob b (sort_blobs blobs) h.0 (sort_blobs-IsBlob blobs h.1)

abbrev pub manifest_blobs : List Worker.BlobRef → List BlobRef
manifest_blobs [] = []
manifest_blobs (b ∷ blobs) = manifest_blob b ∷ manifest_blobs blobs

-- The paths of a request, in lower case, are shorter than 2^64 bytes.
abbrev pub PathsFit : List Worker.BlobRef → Type 0
PathsFit blobs = All (λ b. length (ascii_lower b.path) < 2 ^ 64) blobs

check_blobs-ok :
    (blobs : List Worker.BlobRef) (l : List BlobRef)
    → PathsFit blobs
    → check_blobs blobs ≡ ok l
    → (l ≡ manifest_blobs blobs) × All IsBlob l
unfolding check_blobs
check_blobs-ok [] l f e = let q : [] ≡ l = cc in subst (λ x. (x ≡ []) × All IsBlob x) q (refl, tt)
check_blobs-ok (b ∷ blobs) l f e = elim (Bool-cases (length b.digest == 32)) [
  | inr bad ↦ absurd (let q : ⊥ = ground arith in q)
  | inl long ↦ elim (Result-cases (check_blobs blobs)) [
    | inl (x, bad) ↦ absurd (let q : ⊥ = ground arith in q)
    | inr (rest, good) ↦
        let (same, all) = check_blobs-ok blobs rest f.1 good in
        let q : manifest_blob b ∷ rest ≡ l = ground arith in
        subst (λ x. (x ≡ manifest_blobs (b ∷ blobs)) × All IsBlob x) q
          (ap (◌∷◌ (manifest_blob b)) same, (((==_iff _ _).0 long, f.0), all))
  ]
]

-- What is hashed of a descriptor that is accepted.
verify-hash :
    (w : Worker) (cas : CasDescriptor) (digest : Bytes)
    → PathsFit cas.blobs
    → verify_manifest_digest w cas ≡ ok digest
    → (digest ≡ cas.manifest_digest)
      × (w.blake3 (manifest_bytes (sort_blobs (manifest_blobs cas.blobs))) ≡ digest)
      × All IsBlob (sort_blobs (manifest_blobs cas.blobs))
unfolding verify_manifest_digest aggregate_manifest_digest
verify-hash w cas digest f e = elim (Bool-cases (length cas.manifest_digest == 32)) [
  | inr bad ↦ absurd (let q : ⊥ = ground arith in q)
  | inl long ↦ elim (Result-cases (check_blobs cas.blobs)) [
    | inl (x, bad) ↦ absurd (let q : ⊥ = ground arith in q)
    | inr (l, good) ↦
        let (same, all) = check_blobs-ok cas.blobs l f good in
        let hash = w.blake3 (manifest_bytes (sort_blobs l)) in
        elim (Bool-cases (bytes_eq hash cas.manifest_digest)) [
          | inr bad ↦ absurd (let q : ⊥ = ground arith in q)
          | inl equal ↦
              let q : hash ≡ digest = ground arith in
              (
                sym q ∙ (bytes_eq_iff hash cas.manifest_digest).0 equal,
                ap (λ x. w.blake3 (manifest_bytes (sort_blobs x))) (sym same) ∙ q,
                subst (λ x. All IsBlob (sort_blobs x)) same (sort_blobs-IsBlob l all),
              )
        ]
  ]
]

-- Two descriptors that verify_manifest_digest accepts with one digest list the same paths, up to
-- the case of ASCII letters, with the same digests of their contents, once they are sorted, or
-- else two different texts with one hash are exhibited; paths are shorter than 2^64 bytes.
pub verify_manifest_digest-Collision :
    (w : Worker) (a b : CasDescriptor) (digest : Bytes)
    → PathsFit a.blobs
    → PathsFit b.blobs
    → verify_manifest_digest w a ≡ ok digest
    → verify_manifest_digest w b ≡ ok digest
    → (entries (sort_blobs (manifest_blobs a.blobs))
        ≡ entries (sort_blobs (manifest_blobs b.blobs)))
      ⊎ Collision w.blake3
verify_manifest_digest-Collision w a b digest fa fb ea eb =
    let p = verify-hash w a digest fa ea in
    let q = verify-hash w b digest fb eb in
    elim (same_or_Collision w.blake3 (manifest_bytes (sort_blobs (manifest_blobs a.blobs)))
      (manifest_bytes (sort_blobs (manifest_blobs b.blobs))) (p.1 ∙ sym q.1)) [
        | inr collision ↦ inr collision
        | inl same ↦ inl (manifest_bytes_injective _ _ p.2 q.2 same)
      ]
