-- ===== src/Worker/Staged.antt =====
-- Where the sources of a compile are written.
use hpcc.Prelude.{
  ◌≡◌, ◌≢◌, ◌⊎◌, refl, inl, inr, true, false, some, List, [], ◌∷◌, ◌++◌, Bytes, bytes_eq_iff,
  Bool-cases, Option-cases, All, arith,
}
use hpcc.Prelude.FilePath.{
  segments, is_abs, clean_parts, join_parts, dots, join_path, resolve, Inside, Inside-or,
}
use hpcc.Prelude.FilePath.Joins.{clean-escapes, join_path-Inside, clean_parts-Plain}
use hpcc.Worker.{
  BlobRef, StagingResult, staged, refused, Write, validate_blob_path, then_write, materialize_blob,
  materialize_cas_blobs,
}
use hpcc.Worker.Sources.{SourceStore}

-- A path below a directory, for the parts of another one: none of these is "..".
pub record IsBelow (dir path at : Bytes) : Type 0 where
  pub parts : at ≡ b'/' ∷ join_parts (clean_parts dir ++ clean_parts path)
  pub plain : All (λ p. p ≢ dots) (clean_parts path)

validate-Inside :
    (p : Bytes)
    → is_abs p ≡ false
    → validate_blob_path p ≡ true
    → (p ≢ []) × Inside (resolve false [] (segments p))
unfolding validate_blob_path
validate-Inside p a v = (
  (λ e. ground (arith, bytes_eq_iff p [])),
  elim (Inside-or (resolve false [] (segments p))) [
    | inl i ↦ i
    | inr (pre, e) ↦
        let out = clean-escapes p pre a e in absurd (let q : ⊥ = ground (arith, out) in q)
  ],
)

pub validate_blob_path-IsBelow :
    (dir p : Bytes)
    → is_abs dir ≡ true
    → is_abs p ≡ false
    → validate_blob_path p ≡ true
    → IsBelow dir p (join_path dir p)
validate_blob_path-IsBelow dir p d a v =
    let (present, inside) = validate-Inside p a v in
    record {
      parts = join_path-Inside dir p d a present inside;
      plain = clean_parts-Plain p a inside;
    }

module _ (S : SourceStore) where
  open S use {Contents, get}

  -- The files that are written for the blobs, in their order: one for each blob with a relative
  -- path, below the directory, with what the store holds under its digest.
  abbrev pub Written : Contents → Bytes → Bytes → List BlobRef → List Write → Type 0
  Written c tenant dir [] ws = ws ≡ []
  Written c tenant dir (b ∷ bs) ws =
      ((is_abs b.path ≡ true) × Written c tenant dir bs ws)
      ⊎ ((is_abs b.path ≡ false)
          × ((at : Bytes) × (v : Bytes) × (rest : List Write) × (ws ≡ (at, v) ∷ rest)
              × (get c tenant b.digest ≡ some v)
              × IsBelow dir b.path at
              × Written c tenant dir bs rest))

  then_write-staged :
      (w : Write) (r : StagingResult) (ws : List Write)
      → then_write w r ≡ staged ws
      → (rest : List Write) × (r ≡ staged rest) × (ws ≡ w ∷ rest)
  unfolding then_write
  then_write-staged w (staged rest) ws e = (rest, refl, cc)
  then_write-staged w (refused x) ws e = absurd (let q : ⊥ = cc in q)

  -- When materialize_cas_blobs succeeds in an absolute directory, it has written one file for each
  -- blob with a relative path, in the order of the blobs, with the content that the store holds
  -- for the tenant under the digest of the blob; the cleaned path of the file is that of the
  -- directory followed by parts of which none is "..", so nothing is written outside.
  pub materialize_cas_blobs-Written :
      (c : Contents) (tenant dir : Bytes) (blobs : List BlobRef) (ws : List Write)
      → is_abs dir ≡ true
      → materialize_cas_blobs S c tenant dir blobs ≡ staged ws
      → Written c tenant dir blobs ws
  unfolding materialize_cas_blobs materialize_blob
  materialize_cas_blobs-Written c tenant dir [] ws d e = cc
  materialize_cas_blobs-Written c tenant dir (b ∷ bs) ws d e = elim (Bool-cases (is_abs b.path)) [
    | inl a ↦
        let q : materialize_cas_blobs S c tenant dir bs ≡ staged ws = ground arith in
        inl (a, materialize_cas_blobs-Written c tenant dir bs ws d q)
    | inr a ↦ elim (Bool-cases (validate_blob_path b.path)) [
      | inr bad ↦ absurd (let q : ⊥ = ground arith in q)
      | inl valid ↦ elim (Option-cases (get c tenant b.digest)) [
        | inl missing ↦ absurd (let q : ⊥ = ground arith in q)
        | inr (v, present) ↦
            let q : then_write (join_path dir b.path, v) (materialize_cas_blobs S c tenant dir bs)
                ≡ staged ws =
              ground arith in
            let (rest, r, eq) =
              then_write-staged (join_path dir b.path, v) (materialize_cas_blobs S c tenant dir bs)
                ws q in
            inr (
              a,
              (
                join_path dir b.path,
                v,
                rest,
                eq,
                present,
                validate_blob_path-IsBelow dir b.path d a valid,
                materialize_cas_blobs-Written c tenant dir bs rest d r,
              ),
            )
      ]
    ]
  ]

  -- A blob that can be staged.
  abbrev pub IsReady : Contents → Bytes → BlobRef → Type 0
  IsReady c tenant b =
      (is_abs b.path ≡ true)
      ⊎ ((validate_blob_path b.path ≡ true) × ((v : Bytes) × (get c tenant b.digest ≡ some v)))

  pub materialize_cas_blobs-staged :
      (c : Contents) (tenant dir : Bytes) (blobs : List BlobRef)
      → All (IsReady c tenant) blobs
      → (ws : List Write) × (materialize_cas_blobs S c tenant dir blobs ≡ staged ws)
  unfolding materialize_cas_blobs materialize_blob then_write
  materialize_cas_blobs-staged c tenant dir [] h = ([], refl)
  materialize_cas_blobs-staged c tenant dir (b ∷ bs) (ready, h) =
      let (ws, e) = materialize_cas_blobs-staged c tenant dir bs h in
      elim (Bool-cases (is_abs b.path)) [
        | inl a ↦ (ws, ground (arith, a, e))
        | inr a ↦ elim ready [
          | inl abs ↦ absurd (let q : ⊥ = cc in q)
          | inr (valid, (v, present)) ↦
              ((join_path dir b.path, v) ∷ ws, ground (arith, a, valid, present, e))
        ]
      ]
