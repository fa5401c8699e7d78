-- ===== src/Squashfs/Stream.antt =====
-- What a metaWriter holds, read back through the decompressor, and what its operations add to it.
use hpcc.Prelude.{
  ℕ, zero, suc, ◌+◌, ◌-◌, ◌≤◌, ◌<◌, ◌≡◌, refl, sym, ap, subst, ◌∙◌, Bool, true, false, Option, none,
  some, List, [], ◌∷◌, ◌++◌, Bytes, length, take, drop, leb, ◌==◌, if◌then◌else◌, inl, inr, All,
  All-append, Bool-cases, length-append, length-take, take-append-drop, length-drop, arith,
}
use mathlib.Core.List.{append-nil, append_assoc}
use hpcc.Squashfs.Compressor.{Compressed, packed, incompressible, failed, Codec}
use hpcc.Squashfs.Metadata.{
  metadata_block_size, MetaBlock, MetaWriter, push_block, seal_current, filled, min, write_loop,
  write,
}

module _ (c : Codec) where
  -- The bytes that a block stands for, and those of a sequence of blocks.
  abbrev pub block_bytes : MetaBlock → Bytes
  block_bytes b = if b.uncompressed then b.payload else c.decompress b.payload

  abbrev pub all_bytes : List MetaBlock → Bytes
  all_bytes [] = []
  all_bytes (b ∷ blocks) = block_bytes b ++ all_bytes blocks

  abbrev pub content : MetaWriter → Bytes
  content m = all_bytes m.blocks ++ m.cur

  pub all_bytes-append :
      (xs ys : List MetaBlock) → all_bytes (xs ++ ys) ≡ all_bytes xs ++ all_bytes ys
  all_bytes-append [] ys = refl
  all_bytes-append (b ∷ xs) ys =
      ap (λ t. block_bytes b ++ t) (all_bytes-append xs ys)
      ∙ sym (append_assoc (block_bytes b) (all_bytes xs) (all_bytes ys))

abbrev pub Short : MetaBlock → Type 0
Short b = length b.payload ≤ metadata_block_size

-- The state between two calls.
pub record IsOpen (m : MetaWriter) : Type 0 where
  pub room : length m.cur < metadata_block_size
  pub short : All Short m.blocks

-- From m to n the bytes p were added, and no sealed block changed.
pub record Grown (c : Codec) (m : MetaWriter) (p : Bytes) (n : MetaWriter) : Type 0 where
  pub added : content c n ≡ content c m ++ p
  pub more : List MetaBlock
  pub kept : n.blocks ≡ m.blocks ++ more

pub length-zero : (s : Bytes) → length s ≡ 0 → s ≡ []
length-zero [] h = refl
length-zero (b ∷ s) h = absurd (omega arith)

unfoldable pub concat : List Bytes → Bytes
concat [] = []
concat (p ∷ ps) = p ++ concat ps

-- The compressor refused some block.
abbrev pub Failing : Codec → Type 0
Failing c = (s : Bytes) × (c.compress s ≡ failed)

abbrev pub Ran : Codec → MetaWriter → Bytes → Option MetaWriter → Type 0
Ran c m p none = Failing c
Ran c m p (some n) = Grown c m p n × IsOpen n

-- As Ran, with the open block empty.
abbrev pub Sealed : Codec → MetaWriter → Option MetaWriter → Type 0
Sealed c m none = Failing c
Sealed c m (some n) = Grown c m [] n × IsOpen n × (n.cur ≡ [])

module _ (c : Codec) (m : MetaWriter) where
  -- A block that stands for what was open takes its place.
  push_block-Sealed :
      (payload : Bytes) (raw : Bool)
      → (if raw then payload else c.decompress payload) ≡ m.cur
      → length payload ≤ metadata_block_size
      → All Short m.blocks
      → Sealed c m (some (push_block m payload raw))
  unfolding push_block
  push_block-Sealed payload raw e short blocks =
      let b : MetaBlock = record {
        payload = payload;
        uncompressed = raw;
        uncompressed_size = length m.cur;
      } in
      (
        record {
          added =
              ap (λ t. t ++ [])
                (all_bytes-append c m.blocks (b ∷ [])
                  ∙ ap (λ t. all_bytes c m.blocks ++ t) (append-nil _ ∙ e));
          more = b ∷ [];
          kept = refl;
        },
        record {
          room = omega arith;
          short = All-append Short m.blocks (b ∷ []) blocks (short, tt);
        },
        refl,
      )

  pack-Sealed :
      (r : Compressed)
      → c.compress m.cur ≡ r
      → length m.cur ≤ metadata_block_size
      → All Short m.blocks
      → Sealed c m (elim r [
        | failed ↦ none
        | incompressible ↦ some (push_block m m.cur true)
        | packed out ↦
            if leb (length m.cur) (length out)
            then some (push_block m m.cur true)
            else some (push_block m out false)
      ])
  pack-Sealed failed e h s = (m.cur, e)
  pack-Sealed incompressible e h s = push_block-Sealed m.cur true refl h s
  pack-Sealed (packed out) e h s = elim (Bool-cases (leb (length m.cur) (length out))) [
    | inl larger ↦ rw larger (push_block-Sealed m.cur true refl h s)
    | inr smaller ↦
        rw smaller
          (push_block-Sealed out false (c.decompress-compress m.cur out e) (ground arith) s)
  ]

  pub seal_current-Sealed :
      length m.cur ≤ metadata_block_size → All Short m.blocks → Sealed c m (seal_current c m)
  unfolding seal_current
  seal_current-Sealed h s = elim (Bool-cases (length m.cur == 0)) [
    | inl empty ↦
        let nothing : m.cur ≡ [] = length-zero m.cur (ground arith) in
        rw empty (
          record { added = sym (append-nil _); more = []; kept = sym (append-nil _) },
          record { room = ground arith; short = s },
          nothing,
        )
    | inr full ↦ rw full (pack-Sealed (c.compress m.cur) refl h s)
  ]

pub min_bounds : (a b : ℕ) → (min a b ≤ a) × (min a b ≤ b) × (0 < a → 0 < b → 0 < min a b)
unfolding min
min_bounds a b = (ground arith, ground arith, λ h k. ground arith)

module _ (c : Codec) where
  pub Grown-trans :
      (m n k : MetaWriter) (p q : Bytes) → Grown c m p n → Grown c n q k → Grown c m (p ++ q) k
  Grown-trans m n k p q g h = record {
    added = h.added ∙ ap (λ t. t ++ q) g.added ∙ append_assoc (content c m) p q;
    more = g.more ++ h.more;
    kept = h.kept ∙ ap (λ t. t ++ h.more) g.kept ∙ append_assoc m.blocks g.more h.more;
  }

  Ran-trans :
      (m n : MetaWriter) (p q : Bytes) (r : Option MetaWriter)
      → Grown c m p n
      → Ran c n q r
      → Ran c m (p ++ q) r
  Ran-trans m n p q none g h = h
  Ran-trans m n p q (some k) g h = (Grown-trans m n k p q g h.0, h.1)

  -- The rest of a write runs where the block is sealed.
  after_seal :
      (m : MetaWriter) (q : Bytes) (next : MetaWriter → Option MetaWriter) (r : Option MetaWriter)
      → Sealed c m r
      → ((n : MetaWriter) → IsOpen n → Ran c n q (next n))
      → Ran c m q (elim r [ none ↦ none | some sealed ↦ next sealed ])
  after_seal m q next none h run = h
  after_seal m q next (some n) h run = Ran-trans m n [] q (next n) h.0 (run n h.1)

  -- One round adds a first part of what is written, which is not empty and fits.
  filled-Grown :
      (m : MetaWriter) (p : Bytes) (n : ℕ)
      → Grown c m (take n p) (record m { cur = m.cur ++ take n p })
  filled-Grown m p n = record {
    added = sym (append_assoc (all_bytes c m.blocks) m.cur (take n p));
    more = [];
    kept = sym (append-nil _);
  }

  module _ (p : Bytes) (n : ℕ) (next : MetaWriter → Option MetaWriter) where
    round :
        (m : MetaWriter)
        → IsOpen m
        → n ≤ length p
        → n ≤ metadata_block_size - length m.cur
        → ((k : MetaWriter) → IsOpen k → Ran c k (drop n p) (next k))
        → (full : Bool) → (length (m.cur ++ take n p) == metadata_block_size) ≡ full
        → Ran c m p (elim full [
          | false ↦ next (record m { cur = m.cur ++ take n p })
          | true ↦ elim (seal_current c (record m { cur = m.cur ++ take n p })) [
            | none ↦ none
            | some sealed ↦ next sealed
          ]
        ])
    round m v fits room run full e =
        let m' : MetaWriter = record m { cur = m.cur ++ take n p } in
        let held : length m'.cur ≡ length m.cur + n =
          length-append m.cur (take n p) ∙ ap (λ k. length m.cur + k) (length-take n p fits) in
        let low = v.room in
        subst (λ t. Ran c m t (after full m')) (take-append-drop n p)
          (Ran-trans m m' (take n p) (drop n p) (after full m') (filled-Grown m p n)
            (go full m' e (omega arith) v.short))
      where
        after : Bool → MetaWriter → Option MetaWriter
        after full m' = elim full [
          | false ↦ next m'
          | true ↦ elim (seal_current c m') [ none ↦ none | some sealed ↦ next sealed ]
        ]

        go :
            (full : Bool) (m' : MetaWriter)
            → (length m'.cur == metadata_block_size) ≡ full
            → length m'.cur ≤ metadata_block_size
            → All Short m'.blocks
            → Ran c m' (drop n p) (after full m')
        go false m' e h s = run m' (record { room = ground arith; short = s })
        go true m' e h s =
            after_seal m' (drop n p) next (seal_current c m') (seal_current-Sealed c m' h s) run

  pub write_loop-Ran :
      (fuel : ℕ) (p : Bytes) (m : MetaWriter)
      → length p ≤ fuel
      → IsOpen m
      → Ran c m p (write_loop c fuel p m)
  unfolding write_loop filled
  write_loop-Ran fuel [] m h v =
      (record { added = sym (append-nil _); more = []; kept = sym (append-nil _) }, v)
  write_loop-Ran zero (b ∷ p) m h v = absurd (omega arith)
  write_loop-Ran (suc fuel) (b ∷ p) m h v =
      let s = min_bounds (suc (length p)) (metadata_block_size - length m.cur) in
      let room = v.room in
      round (b ∷ p) (min (suc (length p)) (metadata_block_size - length m.cur))
        (write_loop c fuel
          (drop (min (suc (length p)) (metadata_block_size - length m.cur)) (b ∷ p)))
        m v s.0 s.1
        (λ k. write_loop-Ran fuel _ k (
          omega (
            arith,
            length-drop (min (suc (length p)) (metadata_block_size - length m.cur)) (b ∷ p),
            s.2,
          )))
        _ refl

  pub write-Ran : (m : MetaWriter) (p : Bytes) → IsOpen m → Ran c m p (write c m p)
  unfolding write
  write-Ran m p v = write_loop-Ran (length p) p m (omega arith) v

  -- A client's writes, one after the other, until one fails.
  unfoldable pub write_all : MetaWriter → List Bytes → Option MetaWriter
  write_all m [] = some m
  write_all m (p ∷ ps) = elim (write c m p) [ none ↦ none | some n ↦ write_all n ps ]

  pub write_all-Ran :
      (m : MetaWriter) (ps : List Bytes) → IsOpen m → Ran c m (concat ps) (write_all m ps)
  unfolding write_all concat
  write_all-Ran m [] v =
      (record { added = sym (append-nil _); more = []; kept = sym (append-nil _) }, v)
  write_all-Ran m (p ∷ ps) v = chain (write c m p) (write-Ran m p v) (λ n w. write_all-Ran n ps w)
    where
      chain :
          (r : Option MetaWriter)
          → Ran c m p r
          → ((n : MetaWriter) → IsOpen n → Ran c n (concat ps) (write_all n ps))
          → Ran c m (p ++ concat ps) (elim r [ none ↦ none | some n ↦ write_all n ps ])
      chain none h rest = h
      chain (some n) h rest = Ran-trans m n p (concat ps) (write_all n ps) h.0 (rest n h.1)
