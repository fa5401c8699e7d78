-- ===== src/Squashfs/Readback.antt =====
-- The emitted metadata stream, read the way a kernel reads it: a header of two bytes, whose top bit
-- says that the block is raw and whose other bits give its size, then the block.
use hpcc.Prelude.{
  ℕ, zero, suc, ◌+◌, ◌*◌, ◌%◌, ◌/◌, ◌^◌, ◌≤◌, ◌<◌, ◌≡◌, ◌≢◌, refl, sym, ap, subst, ◌∙◌, false,
  Option, none, some, List, [], ◌∷◌, ◌++◌, ◌⊎◌, inl, inr, Bytes, length, take, drop, ltb, leb,
  if◌then◌else◌, Option-cases, All, append-injective, le→ltb_false, length-append,
  take-length-append, drop-length-append, arith,
}
use mathlib.Core.List.{append-nil, append_assoc}
use hpcc.Prelude.Endian.{le_bytes, length-le_bytes}
use hpcc.Squashfs.Compressor.{failed, Codec}
use hpcc.Squashfs.Metadata.{
  metadata_block_size, MetaBlock, MetaWriter, block_header, emit_to, block_byte_offset, ref,
  encode_ref, flush, new_meta_writer,
}
use hpcc.Squashfs.Stream.{
  block_bytes, all_bytes, all_bytes-append, content, Short, IsOpen, Grown, Grown-trans, Failing,
  Ran, Sealed, seal_current-Sealed, write_all, write_all-Ran, concat,
}

-- The reader, on fuel: the count of bytes is enough, since a block takes two at least.
unfoldable pub read_blocks : Codec → ℕ → Bytes → Bytes
read_blocks c (suc fuel) (x ∷ y ∷ s) =
    let h = x + 256 * y in
    let block = take (h % 2 ^ 15) s in
    (if leb (2 ^ 15) h then block else c.decompress block)
    ++ read_blocks c fuel (drop (h % 2 ^ 15) s)
read_blocks c _ _ = []

-- What a block of the stream starts with: its header tells its size and whether it is raw.
block_header-reads :
    (b : MetaBlock)
    → Short b
    → (block_header b < 2 ^ 16)
      × (block_header b % 2 ^ 15 ≡ length b.payload)
      × (leb (2 ^ 15) (block_header b) ≡ b.uncompressed)
unfolding block_header
block_header-reads b h = (ground arith, ground arith, ground arith)

read_block :
    (c : Codec) (b : MetaBlock) (fuel : ℕ) (s : Bytes)
    → Short b
    → read_blocks c (suc fuel) (le_bytes 2 (block_header b) ++ b.payload ++ s)
      ≡ block_bytes c b ++ read_blocks c fuel s
unfolding read_blocks le_bytes
read_block c b fuel s h =
    let k = block_header-reads b h in
    let low = k.0 in
    let word : block_header b % 256 + 256 * (block_header b / 256 % 256) ≡ block_header b =
      omega arith in
    rw (word, k.1, k.2, take-length-append b.payload s, drop-length-append b.payload s) refl

-- The stream of the blocks, where it reads back.
pub record Reads (c : Codec) (blocks : List MetaBlock) (out : Bytes) : Type 0 where
  pub emitted : emit_to blocks ≡ some out
  pub reads : (fuel : ℕ) → length out ≤ fuel → read_blocks c fuel out ≡ all_bytes c blocks

emitted_size :
    (b : MetaBlock) (out : Bytes)
    → length (le_bytes 2 (block_header b) ++ b.payload ++ out) ≡ 2 + length b.payload + length out
unfolding le_bytes
emitted_size b out = omega (
  arith,
  length-append (le_bytes 2 (block_header b)) (b.payload ++ out),
  length-append b.payload out,
  length-le_bytes 2 (block_header b),
)

read_nothing : (c : Codec) (fuel : ℕ) → read_blocks c fuel [] ≡ []
unfolding read_blocks
read_nothing c zero = refl
read_nothing c (suc fuel) = refl

pub emit_to-Reads :
    (c : Codec) (blocks : List MetaBlock) → All Short blocks → (out : Bytes) × Reads c blocks out
unfolding emit_to
emit_to-Reads c [] s = ([], record { emitted = refl; reads = λ fuel h. read_nothing c fuel })
emit_to-Reads c (b ∷ blocks) s =
    let rest = emit_to-Reads c blocks s.1 in
    let short : ltb metadata_block_size (length b.payload) ≡ false = le→ltb_false _ _ s.0 in
    (
      le_bytes 2 (block_header b) ++ b.payload ++ rest.0,
      record {
        emitted = rw (short, rest.1.emitted) refl;
        reads = λ fuel h. step fuel rest.0 (λ k. rest.1.reads k) h;
      },
    )
  where
    step :
        (fuel : ℕ) (out : Bytes)
        → ((k : ℕ) → length out ≤ k → read_blocks c k out ≡ all_bytes c blocks)
        → length (le_bytes 2 (block_header b) ++ b.payload ++ out) ≤ fuel
        → read_blocks c fuel (le_bytes 2 (block_header b) ++ b.payload ++ out)
          ≡ all_bytes c (b ∷ blocks)
    step zero out reads h = absurd (omega (arith, emitted_size b out))
    step (suc fuel) out reads h =
        read_block c b fuel out s.0
        ∙ ap (λ t. block_bytes c b ++ t) (reads fuel (omega (arith, emitted_size b out)))

drop-add-append : (p s : Bytes) (k : ℕ) → drop (length p + k) (p ++ s) ≡ drop k s
drop-add-append [] s k = ap (λ n. drop n s) (omega arith)
drop-add-append (b ∷ p) s k =
    ap (λ n. drop n (b ∷ (p ++ s)))
      (let e : suc (length p) + k ≡ suc (length p + k) = omega arith in e)
    ∙ drop-add-append p s k

drop-block :
    (b : MetaBlock) (s : Bytes) (k : ℕ)
    → drop (2 + length b.payload + k) (le_bytes 2 (block_header b) ++ b.payload ++ s) ≡ drop k s
unfolding le_bytes
drop-block b s k =
    ap (λ n. drop n (le_bytes 2 (block_header b) ++ b.payload ++ s))
      (let e : 2 + length b.payload + k ≡ suc (suc (length b.payload + k)) = omega arith in e)
    ∙ drop-add-append b.payload s k

-- From the offset of a block on stands the stream of the blocks from there.
emit_to-drop :
    (xs ys : List MetaBlock) {out : Bytes}
    → emit_to (xs ++ ys) ≡ some out
    → emit_to ys ≡ some (drop (block_byte_offset (xs ++ ys) (length xs)) out)
unfolding emit_to block_byte_offset
emit_to-drop [] ys e = e
emit_to-drop (x ∷ xs) ys {out} e = elim (Option-cases (emit_to (xs ++ ys))) [
  | inl refused ↦ absurd (ground arith)
  | inr (rest, some_rest) ↦
      let short : ltb metadata_block_size (length x.payload) ≡ false = ground arith in
      let same : le_bytes 2 (block_header x) ++ x.payload ++ rest ≡ out = ground arith in
      emit_to-drop xs ys some_rest
      ∙ ap some (
          sym (drop-block x rest (block_byte_offset (xs ++ ys) (length xs)))
          ∙ ap (drop (2 + length x.payload + block_byte_offset (xs ++ ys) (length xs))) same)
]

All-behind : (xs ys : List MetaBlock) → All Short (xs ++ ys) → All Short ys
All-behind [] ys h = h
All-behind (x ∷ xs) ys h = All-behind xs ys h.1

some_injective : {s t : Bytes} → some s ≡ some t → s ≡ t
some_injective e = cc

append_cancel : (p x y : Bytes) → p ++ x ≡ p ++ y → x ≡ y
append_cancel p x y e = (append-injective p p x y refl e).1

module _ (c : Codec) where
  -- The table that a client's records make: the writes, Flush, then EmitTo.
  abbrev pub Finished : MetaWriter → List Bytes → MetaWriter → Bytes → Type 0
  Finished m records n out =
      (l : MetaWriter) × (write_all c m records ≡ some l)
      × (flush c l ≡ some n)
      × (emit_to n.blocks ≡ some out)

  -- What a reader finds from a reference on.
  abbrev pub read_at : MetaWriter → MetaWriter → Bytes → Bytes
  read_at m n out =
      let rest = drop (block_byte_offset n.blocks (ref m).block_idx) out in
      drop (ref m).offset (read_blocks c (length rest) rest)

  read_from :
      (xs more : List MetaBlock) (cur p out : Bytes)
      → All Short (xs ++ more)
      → all_bytes c (xs ++ more) ≡ (all_bytes c xs ++ cur) ++ p
      → emit_to (xs ++ more) ≡ some out
      → let rest = drop (block_byte_offset (xs ++ more) (length xs)) out in
        drop (length cur) (read_blocks c (length rest) rest) ≡ p
  read_from xs more cur p out short e emitted =
      let rest = drop (block_byte_offset (xs ++ more) (length xs)) out in
      let r = emit_to-Reads c more (All-behind xs more short) in
      let found : rest ≡ r.0 = some_injective (sym (emit_to-drop xs more emitted) ∙ r.1.emitted) in
      let held : all_bytes c more ≡ cur ++ p =
        append_cancel (all_bytes c xs) (all_bytes c more) (cur ++ p)
          (sym (all_bytes-append c xs more) ∙ e ∙ append_assoc (all_bytes c xs) cur p) in
      ap (λ t. drop (length cur) (read_blocks c (length t) t)) found
      ∙ ap (drop (length cur)) (r.1.reads (length r.0) (omega arith) ∙ held)
      ∙ drop-length-append cur p

  -- A finished table holds the records from where they started.
  pub finished_read :
      (m n : MetaWriter) (p out : Bytes)
      → Grown c m p n
      → n.cur ≡ []
      → All Short n.blocks
      → emit_to n.blocks ≡ some out
      → read_at m n out ≡ p
  unfolding ref
  finished_read m n p out g closed short e =
      subst
        (λ bs.
          All Short bs
          → all_bytes c bs ≡ content c m ++ p
          → emit_to bs ≡ some out
          → let rest = drop (block_byte_offset bs (length m.blocks)) out in
            drop (length m.cur) (read_blocks c (length rest) rest) ≡ p)
        (sym g.kept) (λ s a o. read_from m.blocks g.more m.cur p out s a o) short
        (sym (append-nil _) ∙ ap (λ t. all_bytes c n.blocks ++ t) (sym closed) ∙ g.added) e

  abbrev Closed : MetaWriter → List Bytes → Type 0
  Closed m records =
      (n : MetaWriter) × (out : Bytes) × Finished m records n out
      × (read_at m n out ≡ concat records)

  close_after :
      (m l : MetaWriter) (records : List Bytes)
      → IsOpen m
      → write_all c m records ≡ some l
      → Grown c m (concat records) l
      → IsOpen l
      → Failing c ⊎ Closed m records
  unfolding flush
  close_after m l records v written g w =
      sealed (flush c l) refl (seal_current-Sealed c l (let room = w.room in omega arith) w.short)
    where
      sealed : (r : Option MetaWriter) → flush c l ≡ r → Sealed c l r → Failing c ⊎ Closed m records
      sealed none e h = inl h
      sealed (some n) e h =
          let r = emit_to-Reads c n.blocks h.1.short in
          let grown : Grown c m (concat records) n =
            subst (λ t. Grown c m t n) (append-nil _)
              (Grown-trans c m l n (concat records) [] g h.0) in
          inr (
            n,
            r.0,
            (l, written, e, r.1.emitted),
            finished_read m n (concat records) r.0 grown h.2 h.1.short r.1.emitted,
          )

  -- The same from any state of the writer on.
  close_from : (m : MetaWriter) (records : List Bytes) → IsOpen m → Failing c ⊎ Closed m records
  close_from m records v = ran (write_all c m records) refl (write_all-Ran c m records v)
    where
      ran :
          (r : Option MetaWriter)
          → write_all c m records ≡ r
          → Ran c m (concat records) r
          → Failing c ⊎ Closed m records
      ran none e h = inl h
      ran (some l) e h = close_after m l records v e h.0 h.1

  -- The reference that is put on disk for the next byte of m, in the finished table n.
  abbrev pub disk_ref : MetaWriter → MetaWriter → ℕ
  disk_ref m n = encode_ref (ref m) (block_byte_offset n.blocks (ref m).block_idx)

  -- What a reader of a reference does: the block's offset is above 16 bits, the place in it below.
  abbrev pub read_ref : ℕ → Bytes → Bytes
  read_ref r out =
      let rest = drop (r / 2 ^ 16) out in drop (r % 2 ^ 16) (read_blocks c (length rest) rest)

  pub read_ref-disk_ref :
      (m n : MetaWriter) (out : Bytes)
      → length m.cur < metadata_block_size
      → read_ref (disk_ref m n) out ≡ read_at m n out
  unfolding encode_ref ref
  read_ref-disk_ref m n out h =
      let block = block_byte_offset n.blocks (length m.blocks) in
      let high : (block * 2 ^ 16 + length m.cur) / 2 ^ 16 ≡ block = omega arith in
      let low : (block * 2 ^ 16 + length m.cur) % 2 ^ 16 ≡ length m.cur = omega arith in
      rw (high, low) refl

  -- With a compressor that never fails, a metadata table is written whatever the records are, and
  -- the reference that encode_ref puts on disk for a record finds it: after earlier records, a
  -- record, later records, a flush and the emission, a reader that splits the reference, goes to
  -- the block at that offset of the emitted stream, reads the blocks from there by their headers
  -- and skips to the offset in them finds the record followed by the later ones.
  pub read_ref-write :
      (earlier later : List Bytes) (p : Bytes)
      → ((s : Bytes) → c.compress s ≢ failed)
      → (m n : MetaWriter) × (out : Bytes) × (write_all c new_meta_writer earlier ≡ some m)
        × Finished m (p ∷ later) n out
        × (read_ref (disk_ref m n) out ≡ p ++ concat later)
  unfolding new_meta_writer concat
  read_ref-write earlier later p sound =
      first (write_all c new_meta_writer earlier) refl
        (write_all-Ran c new_meta_writer earlier (record { room = omega arith; short = tt }))
    where
      first :
          (r : Option MetaWriter)
          → write_all c new_meta_writer earlier ≡ r
          → Ran c new_meta_writer (concat earlier) r
          → (m n : MetaWriter) × (out : Bytes) × (write_all c new_meta_writer earlier ≡ some m)
            × Finished m (p ∷ later) n out
            × (read_ref (disk_ref m n) out ≡ p ++ concat later)
      first none e h = absurd (sound h.0 h.1)
      first (some m) e h = elim (close_from m (p ∷ later) h.1) [
        | inl fail ↦ absurd (sound fail.0 fail.1)
        | inr (n, out, finished, found) ↦
            (m, n, out, e, finished, read_ref-disk_ref m n out h.1.room ∙ found)
      ]
