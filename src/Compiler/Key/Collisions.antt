-- ===== src/Compiler/Key/Collisions.antt =====
-- CacheKey: what two invocations share when they have one key, and the two sides of a remote
-- compile that have to arrive at one key.
use hpcc.Prelude.{
  ◌≡◌, ◌≢◌, refl, sym, ap, ◌∙◌, ◌⊎◌, inl, inr, List, [], ◌∷◌, ◌++◌, Bytes, arith, ◌<◌, ◌^◌, ◌%◌,
  length, Option, bytes_eq, bytes_eq_iff, Bool-cases, append-injective,
}
use mathlib.Core.List.{append_assoc}
use hpcc.Prelude.Endian.{be_bytes, be_bytes_injective, length-be_bytes}
use hpcc.Compiler.Invocation.{Invocation}
use hpcc.Compiler.Key.{
  Context, ok, err, KeyResult, write_chunk, key_bytes, source_chunk, compiler_identity_of,
  cache_key_flags, cache_key_with_manifest,
}
use hpcc.Compiler.Key.Flags.{IsKeyable, SameFlags, cache_key_flags_injective}

abbrev pub Fits : Bytes → Type 0
Fits s = length s < 2 ^ 64

write_chunk_inv :
    (x y r q : Bytes)
    → Fits x
    → Fits y
    → write_chunk x ++ r ≡ write_chunk y ++ q
    → (x ≡ y) × (r ≡ q)
unfolding write_chunk
write_chunk_inv x y r q hx hy e =
    let lx = length x % 2 ^ 64 in
    let ly = length y % 2 ^ 64 in
    let framed =
      append-injective (be_bytes 8 lx) (be_bytes 8 ly) (x ++ r) (y ++ q)
        (length-be_bytes 8 lx ∙ sym (length-be_bytes 8 ly))
        (sym (append_assoc (be_bytes 8 lx) x r) ∙ e ∙ append_assoc (be_bytes 8 ly) y q) in
    let lengths : lx ≡ ly = be_bytes_injective 8 lx ly (omega arith) (omega arith) framed.0 in
    append-injective x y r q (omega (arith, lengths)) framed.1

-- The framing by lengths determines the three chunks.
pub key_bytes_injective :
    (s i f s' i' f' : Bytes)
    → Fits s × Fits i × Fits f
    → Fits s' × Fits i' × Fits f'
    → key_bytes s i f ≡ key_bytes s' i' f'
    → (s ≡ s') × (i ≡ i') × (f ≡ f')
unfolding key_bytes
key_bytes_injective s i f s' i' f' h h' e =
    let one = write_chunk_inv s s' _ _ h.0 h'.0 e in
    let two = write_chunk_inv i i' _ _ h.1 h'.1 one.1 in
    let three = write_chunk_inv f f' _ _ h.2 h'.2 two.1 in (one.0, two.0, three.0)

-- Two texts with one hash.
abbrev pub Collision : (Bytes → Bytes) → Type 0
Collision h = (x : Bytes) × (y : Bytes) × (x ≢ y) × (h x ≡ h y)

pub same_or_Collision : (h : Bytes → Bytes) (x y : Bytes) → h x ≡ h y → (x ≡ y) ⊎ Collision h
same_or_Collision h x y e = elim (Bool-cases (bytes_eq x y)) [
  | inl same ↦ inl ((bytes_eq_iff x y).0 same)
  | inr other ↦ inr (x, y, (λ p. let q = (bytes_eq_iff x y).1 p in cc), e)
]

-- What went into a key that was computed.
pub record KeyParts (ctx : Context) (inv : Invocation) (key : Bytes) (manifest : Option Bytes)
    : Type 0 where
  pub id : Bytes
  pub source : Bytes
  pub identified : compiler_identity_of ctx ≡ ok id
  pub sourced : source_chunk ctx inv ≡ ok (source, manifest)
  pub hashed : key ≡ ctx.blake3 (key_bytes source id (cache_key_flags inv))

-- The parts of a key, by what each step returned.
parts_from :
    (ctx : Context) (inv : Invocation) (key : Bytes) (manifest : Option Bytes) (ins : List Bytes)
    (id : KeyResult Bytes) (source : KeyResult (Bytes × Option Bytes))
    → inv.inputs ≡ ins
    → compiler_identity_of ctx ≡ id
    → source_chunk ctx inv ≡ source
    → cache_key_with_manifest ctx inv ≡ ok (key, manifest)
    → KeyParts ctx inv key manifest
unfolding cache_key_with_manifest
parts_from ctx inv key manifest [] id source e1 e2 e3 e = absurd (let q : ⊥ = ground arith in q)
parts_from ctx inv key manifest (i ∷ is) (err x) source e1 e2 e3 e =
    absurd (let q : ⊥ = ground arith in q)
parts_from ctx inv key manifest (i ∷ is) (ok id) (err x) e1 e2 e3 e =
    absurd (let q : ⊥ = ground arith in q)
parts_from ctx inv key manifest (i ∷ is) (ok id) (ok (s, m)) e1 e2 e3 e = record {
  id = id;
  source = s;
  identified = e2;
  sourced = ground arith;
  hashed = ground arith;
}

cache_key-KeyParts :
    (ctx : Context) (inv : Invocation) (key : Bytes) (manifest : Option Bytes)
    → cache_key_with_manifest ctx inv ≡ ok (key, manifest)
    → KeyParts ctx inv key manifest
cache_key-KeyParts ctx inv key manifest e = parts_from ctx inv key manifest _ _ _ refl refl refl e

-- Two compiles with one key.
pub record SameCompile (c d : Context) (a b : Invocation) : Type 0 where
  pub flags : SameFlags a b
  pub identity : compiler_identity_of c ≡ compiler_identity_of d
  pub source :
      (s : Bytes) × (m : Option Bytes) × (n : Option Bytes) × (source_chunk c a ≡ ok (s, m))
      × (source_chunk d b ≡ ok (s, n))

-- The digests and identities that the key takes in have lengths below 2^64.
abbrev pub PartsFit : Context → Invocation → Type 0
PartsFit ctx inv =
    ((i : Bytes) → compiler_identity_of ctx ≡ ok i → Fits i)
    × ((s : Bytes) (m : Option Bytes) → source_chunk ctx inv ≡ ok (s, m) → Fits s)
    × Fits (cache_key_flags inv)

-- Whenever cache_key_with_manifest returns one key for two invocations, in two contexts with one
-- hash function, then the two agree in every flag of the key, in the compiler identity and in the
-- source digest, or else two different texts with one hash are exhibited. It is assumed that the
-- invocations hold no nulls and no empty list entries, and that digests, identities and flags
-- chunks are shorter than 2^64 bytes.
pub cache_key-Collision :
    (c d : Context) (a b : Invocation) (key : Bytes) (m n : Option Bytes)
    → c.blake3 ≡ d.blake3
    → IsKeyable a
    → IsKeyable b
    → PartsFit c a
    → PartsFit d b
    → cache_key_with_manifest c a ≡ ok (key, m)
    → cache_key_with_manifest d b ≡ ok (key, n)
    → SameCompile c d a b ⊎ Collision c.blake3
cache_key-Collision c d a b key m n h ka kb fa fb ea eb =
    let p = cache_key-KeyParts c a key m ea in
    let q = cache_key-KeyParts d b key n eb in
    let x = key_bytes p.source p.id (cache_key_flags a) in
    let y = key_bytes q.source q.id (cache_key_flags b) in
    let hashes : c.blake3 x ≡ c.blake3 y =
      sym p.hashed ∙ q.hashed ∙ ap (λ (f : Bytes → Bytes). f y) (sym h) in
    elim (same_or_Collision c.blake3 x y hashes) [
      | inr collision ↦ inr collision
      | inl same ↦
          let parts =
            key_bytes_injective p.source p.id (cache_key_flags a) q.source q.id (cache_key_flags b)
              (fa.1 p.source m p.sourced, fa.0 p.id p.identified, fa.2)
              (fb.1 q.source n q.sourced, fb.0 q.id q.identified, fb.2) same in
          inl (record {
            flags = cache_key_flags_injective a b ka kb parts.2;
            identity = p.identified ∙ ap (λ (i : Bytes). ok i) parts.1 ∙ sym q.identified;
            source = (
              p.source,
              m,
              n,
              p.sourced,
              q.sourced ∙ ap (λ (s : Bytes). ok (s, n)) (sym parts.0),
            );
          })
    ]
