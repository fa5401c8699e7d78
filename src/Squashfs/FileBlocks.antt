-- ===== src/Squashfs/FileBlocks.antt =====
-- What a kernel reads of the file blocks in the output, and what the file writer keeps true of them.
use hpcc.Prelude.{
  ℕ, zero, suc, ◌+◌, ◌%◌, ◌^◌, ◌<◌, ◌≡◌, refl, sym, ap, ◌∙◌, Bool, true, false, Option, none, some,
  List, [], ◌∷◌, ◌++◌, Bytes, length, take, drop, leb, ◌==◌, if◌then◌else◌, inl, inr, All,
  All-append, Bool-cases, length-append, take-length-append, drop-length-append, arith,
}
use mathlib.Core.List.{append-nil, append_assoc}
use hpcc.Squashfs.Compressor.{Compressed, packed, incompressible, failed, Codec}
use hpcc.Squashfs.Stream.{Failing}
use hpcc.Squashfs.Files.{data_block_uncompressed_bit, FileWriter, size_word, put_block, emit_block}

pub zeros : ℕ → Bytes
zeros zero = []
zeros (suc n) = 0 ∷ zeros n

-- A block of the format: a hole where the word is 0, else as many bytes as the low 24 bits say,
-- raw where bit 24 is set.
abbrev data_block : Codec → ℕ → ℕ → Bytes → Bytes
data_block c block_size word s =
    if word == 0
    then zeros block_size
    else if leb data_block_uncompressed_bit word
    then take (word % 2 ^ 24) s
    else c.decompress (take (word % 2 ^ 24) s)

unfoldable pub read_file : Codec → ℕ → List ℕ → Bytes → Bytes
read_file c block_size [] s = []
read_file c block_size (word ∷ words) s =
    data_block c block_size word s ++ read_file c block_size words (drop (word % 2 ^ 24) s)

-- A block on disk, and whether it is raw.
abbrev pub Stored : Type 0
Stored = Bytes × Bool

abbrev pub words_of : List Stored → List ℕ
words_of [] = []
words_of ((disk, raw) ∷ blocks) = size_word disk raw ∷ words_of blocks

abbrev pub disk_of : List Stored → Bytes
disk_of [] = []
disk_of ((disk, raw) ∷ blocks) = disk ++ disk_of blocks

abbrev pub plain_of : Codec → List Stored → Bytes
plain_of c [] = []
plain_of c ((disk, raw) ∷ blocks) = (if raw then disk else c.decompress disk) ++ plain_of c blocks

abbrev pub Fits : Stored → Type 0
Fits b = (0 < length b.0) × (length b.0 < 2 ^ 24)

words_of-append : (xs ys : List Stored) → words_of (xs ++ ys) ≡ words_of xs ++ words_of ys
words_of-append [] ys = refl
words_of-append ((disk, raw) ∷ xs) ys = ap (◌∷◌ (size_word disk raw)) (words_of-append xs ys)

disk_of-append : (xs ys : List Stored) → disk_of (xs ++ ys) ≡ disk_of xs ++ disk_of ys
disk_of-append [] ys = refl
disk_of-append ((disk, raw) ∷ xs) ys =
    ap (λ t. disk ++ t) (disk_of-append xs ys) ∙ sym (append_assoc disk (disk_of xs) (disk_of ys))

plain_of-append :
    (c : Codec) (xs ys : List Stored) → plain_of c (xs ++ ys) ≡ plain_of c xs ++ plain_of c ys
plain_of-append c [] ys = refl
plain_of-append c ((disk, raw) ∷ xs) ys =
    ap (λ t. (if raw then disk else c.decompress disk) ++ t) (plain_of-append c xs ys)
    ∙ sym (append_assoc (if raw then disk else c.decompress disk) (plain_of c xs) (plain_of c ys))

size_word-reads :
    (disk : Bytes) (raw : Bool)
    → Fits (disk, raw)
    → ((size_word disk raw == 0) ≡ false)
      × (size_word disk raw % 2 ^ 24 ≡ length disk)
      × (leb data_block_uncompressed_bit (size_word disk raw) ≡ raw)
unfolding size_word
size_word-reads disk raw h = (ground arith, ground arith, ground arith)

-- The words of the blocks find them in the output, whatever stands behind.
pub read_file-disk_of :
    (c : Codec) (block_size : ℕ) (blocks : List Stored) (rest : Bytes)
    → All Fits blocks
    → read_file c block_size (words_of blocks) (disk_of blocks ++ rest) ≡ plain_of c blocks
unfolding read_file
read_file-disk_of c block_size [] rest h = refl
read_file-disk_of c block_size ((disk, raw) ∷ blocks) rest h =
    let w = size_word-reads disk raw h.0 in
    rw append_assoc (
      rw
        (
          w.0,
          w.1,
          w.2,
          take-length-append disk (disk_of blocks ++ rest),
          drop-length-append disk (disk_of blocks ++ rest),
        )
        (rw (read_file-disk_of c block_size blocks rest h.1) (pick raw)))
  where
    pick :
        (raw : Bool)
        → (if raw then disk else c.decompress disk) ++ plain_of c blocks
          ≡ plain_of c ((disk, raw) ∷ blocks)
    pick raw = refl

-- What the writer holds once the bytes s were written to a file of an output that was start.
pub record Held (c : Codec) (block_size : ℕ) (start : Bytes) (f : FileWriter) (s : Bytes)
    : Type 0 where
  pub blocks : List Stored
  pub sizes : f.block_sizes ≡ words_of blocks
  pub output : f.out ≡ start ++ disk_of blocks
  pub position : f.out_pos ≡ length f.out
  pub content : s ≡ plain_of c blocks ++ f.buf
  pub fit : All Fits blocks

module _ (c : Codec) (block_size : ℕ) (start : Bytes) where
  put_block-Held :
      (f : FileWriter) (s disk : Bytes) (raw : Bool)
      → Held c block_size start f s
      → (if raw then disk else c.decompress disk) ≡ f.buf
      → Fits (disk, raw)
      → Held c block_size start (put_block f disk raw) s
  unfolding put_block
  put_block-Held f s disk raw h e fits = record {
    blocks = h.blocks ++ (disk, raw) ∷ [];
    sizes =
        ap (λ t. t ++ size_word disk raw ∷ []) h.sizes
        ∙ sym (words_of-append h.blocks ((disk, raw) ∷ []));
    output =
        ap (λ t. t ++ disk) h.output
        ∙ append_assoc start (disk_of h.blocks) disk
        ∙ ap (λ t. start ++ t)
            (ap (λ t. disk_of h.blocks ++ t) (sym (append-nil disk))
              ∙ sym (disk_of-append h.blocks ((disk, raw) ∷ [])));
    position = omega (arith, length-append f.out disk, h.position);
    content =
        h.content
        ∙ ap (λ t. plain_of c h.blocks ++ t) (sym (append-nil _ ∙ e))
        ∙ sym (plain_of-append c h.blocks ((disk, raw) ∷ []))
        ∙ sym (append-nil _);
    fit = All-append Fits h.blocks ((disk, raw) ∷ []) h.fit (fits, tt);
  }

  -- A block of the buffer was added, and nothing else of the state changed.
  abbrev pub Emitted : FileWriter → Bytes → Option FileWriter → Type 0
  Emitted f s none = Failing c
  Emitted f s (some g) =
      Held c block_size start g s
      × (g.buf ≡ [])
      × (length g.block_sizes ≡ length f.block_sizes + 1)
      × (g.file_size ≡ f.file_size)
      × (g.stale ≡ f.stale)
      × (g.closed ≡ f.closed)
      × (g.blocks_start ≡ f.blocks_start)

  put_block-Emitted :
      (f : FileWriter) (s disk : Bytes) (raw : Bool)
      → Held c block_size start f s
      → (if raw then disk else c.decompress disk) ≡ f.buf
      → Fits (disk, raw)
      → Emitted f s (some (put_block f disk raw))
  unfolding put_block
  put_block-Emitted f s disk raw h e fits = (
    put_block-Held f s disk raw h e fits,
    refl,
    length-append f.block_sizes (size_word disk raw ∷ []),
    refl,
    refl,
    refl,
    refl,
  )

  pub emit_block-Emitted :
      (f : FileWriter) (s : Bytes)
      → Held c block_size start f s
      → 0 < length f.buf
      → length f.buf < 2 ^ 24
      → Emitted f s (emit_block c f)
  unfolding emit_block
  emit_block-Emitted f s h full small =
      let some_bytes : (length f.buf == 0) ≡ false = ground arith in
      rw some_bytes (pack (c.compress f.buf) refl)
    where
      pack :
          (r : Compressed)
          → c.compress f.buf ≡ r
          → Emitted f s (elim r [
            | failed ↦ none
            | incompressible ↦ some (put_block f f.buf true)
            | packed out ↦
                if leb (length f.buf) (length out)
                then some (put_block f f.buf true)
                else some (put_block f out false)
          ])
      pack failed e = (f.buf, e)
      pack incompressible e = put_block-Emitted f s f.buf true h refl (full, small)
      pack (packed out) e = elim (Bool-cases (leb (length f.buf) (length out))) [
        | inl larger ↦ rw larger (put_block-Emitted f s f.buf true h refl (full, small))
        | inr smaller ↦ rw smaller (
            put_block-Emitted f s out false h (c.decompress-compress f.buf out e)
              (c.length-compress f.buf out e, ground arith))
      ]
