-- ===== src/Squashfs/WholeFiles.antt =====
-- What a file is left with once its writer is sealed.
use hpcc.Prelude.{
  ℕ, ◌+◌, ◌-◌, ◌*◌, ◌/◌, ◌^◌, ◌≤◌, ◌<◌, ◌≡◌, ◌≢◌, refl, sym, ap, subst, ◌∙◌, true, false, Option,
  none, some, List, [], ◌∷◌, ◌++◌, Bytes, length, drop, ◌==◌, inl, inr, ◌⊎◌, All, Bool-cases,
  ==_iff, drop-length-append, arith,
}
use mathlib.Core.Path.{ap₂}
use native.Mathlib.Nat.{add-mul, le-div_iff_mul-le, div-lt_iff_lt-mul}
use mathlib.Core.List.{append-nil, append_assoc}
use hpcc.Squashfs.Compressor.{failed, Codec}
use hpcc.Squashfs.Stream.{Failing, length-zero, concat}
use hpcc.Squashfs.Files.{FileWriter, create_file, size_word, flush_tail}
use hpcc.Squashfs.FileBlocks.{
  read_file, read_file-disk_of, Stored, words_of, disk_of, plain_of, Fits, Held, Emitted,
  emit_block-Emitted,
}
use hpcc.Squashfs.Streaming.{Streams, Streamed, file_write_all, file_write_all-Streamed}

ceil_lem : (n size q : ℕ) → 0 < size → q * size ≤ n → n < (q + 1) * size → n / size ≡ q
ceil_lem n size q pos low high =
    let a = (le-div_iff_mul-le pos).1 low in let b = (div-lt_iff_lt-mul pos).1 high in omega arith

-- How many blocks a file has.
ceil_exact : (k size left : ℕ) → 0 < size → left ≡ 0 → (k * size + left + size - 1) / size ≡ k
ceil_exact k size left pos h =
    ceil_lem (k * size + left + size - 1) size k pos (omega arith)
      (rw (add-mul k 1 size) (omega arith))

ceil_more : (k size left : ℕ) → 0 < left → left < size → (k * size + left + size - 1) / size ≡ k + 1
ceil_more k size left pos h =
    ceil_lem (k * size + left + size - 1) size (k + 1) (omega arith)
      (rw (add-mul k 1 size) (omega arith))
      (rw (add-mul (k + 1) 1 size, add-mul k 1 size) (omega arith))

words_of-narrow : (blocks : List Stored) → All Fits blocks → All (λ w. w < 2 ^ 32) (words_of blocks)
unfolding size_word
words_of-narrow [] h = tt
words_of-narrow ((disk, raw) ∷ blocks) h =
    let small = h.0.1 in (ground arith, words_of-narrow blocks h.1)

module _ (c : Codec) (block_size : ℕ) (start : Bytes) where
  flush_tail-Emitted :
      (k : ℕ) (f : FileWriter) (s : Bytes)
      → block_size < 2 ^ 24
      → Streams c block_size start k f s
      → length f.buf < block_size
      → 0 < length f.buf
      → Emitted c block_size start f s (flush_tail c f)
  unfolding flush_tail
  flush_tail-Emitted k f s small v room full =
      let some_bytes : (length f.buf == 0) ≡ false = ground arith in
      rw some_bytes (emit_block-Emitted c block_size start f s v.held full (omega arith))

  -- What the entry and the output are left with.
  pub record IsWhole (rest : Bytes) (g : FileWriter) (s : Bytes) : Type 0 where
    pub readable : read_file c block_size g.block_sizes (drop g.blocks_start (g.out ++ rest)) ≡ s
    pub sized : g.file_size ≡ length s
    pub counted : length g.block_sizes ≡ (g.file_size + block_size - 1) / block_size
    pub position : g.out_pos ≡ length g.out
    pub narrow : All (λ w. w < 2 ^ 32) g.block_sizes
    pub started : g.blocks_start ≡ length start

  Held-readable :
      (g : FileWriter) (s rest : Bytes)
      → Held c block_size start g s
      → g.buf ≡ []
      → g.blocks_start ≡ length start
      → read_file c block_size g.block_sizes (drop g.blocks_start (g.out ++ rest)) ≡ s
  Held-readable g s rest h empty from =
      let behind : drop g.blocks_start (g.out ++ rest) ≡ disk_of h.blocks ++ rest =
        ap₂ drop from (ap (λ t. t ++ rest) h.output ∙ append_assoc start (disk_of h.blocks) rest)
        ∙ drop-length-append start (disk_of h.blocks ++ rest) in
      ap₂ (read_file c block_size) h.sizes behind
      ∙ read_file-disk_of c block_size h.blocks rest h.fit
      ∙ sym (append-nil _)
      ∙ ap (λ t. plain_of c h.blocks ++ t) (sym empty)
      ∙ sym h.content

  tail-IsWhole :
      (rest : Bytes) (f g : FileWriter) (s : Bytes)
      → 0 < block_size
      → Streams c block_size start (length s) f s
      → length f.buf < block_size
      → 0 < length f.buf
      → Emitted c block_size start f s (some g)
      → IsWhole rest g s
  tail-IsWhole rest f g s pos v room full h = record {
    readable = Held-readable g s rest h.0 h.1 (h.6 ∙ v.from);
    sized = h.3 ∙ v.sized;
    counted =
        h.2
        ∙ sym (
            ap (λ n. (n + block_size - 1) / block_size) (h.3 ∙ v.sized ∙ v.whole)
            ∙ ceil_more (length f.block_sizes) block_size (length f.buf) full room);
    position = h.0.position;
    narrow = subst (All (λ w. w < 2 ^ 32)) (sym h.0.sizes) (words_of-narrow h.0.blocks h.0.fit);
    started = h.6 ∙ v.from;
  }

  no_tail-IsWhole :
      (rest : Bytes) (f : FileWriter) (s : Bytes)
      → 0 < block_size
      → Streams c block_size start (length s) f s
      → length f.buf ≡ 0
      → IsWhole rest f s
  no_tail-IsWhole rest f s pos v empty = record {
    readable = Held-readable f s rest v.held (length-zero f.buf empty) v.from;
    sized = v.sized;
    counted = sym (
        ap (λ n. (n + block_size - 1) / block_size) (v.sized ∙ v.whole)
        ∙ ceil_exact (length f.block_sizes) block_size (length f.buf) pos empty);
    position = v.held.position;
    narrow =
        subst (All (λ w. w < 2 ^ 32)) (sym v.held.sizes) (words_of-narrow v.held.blocks v.held.fit);
    started = v.from;
  }

  flush_tail_empty : (f : FileWriter) → (length f.buf == 0) ≡ true → flush_tail c f ≡ some f
  unfolding flush_tail
  flush_tail_empty f e = rw e refl

  flush_tail-IsWhole :
      (rest : Bytes) (f : FileWriter) (s : Bytes)
      → 0 < block_size
      → block_size < 2 ^ 24
      → Streams c block_size start (length s) f s
      → length f.buf < block_size
      → Failing c ⊎ ((g : FileWriter) × (flush_tail c f ≡ some g) × IsWhole rest g s)
  flush_tail-IsWhole rest f s pos small v room = elim (Bool-cases (length f.buf == 0)) [
    | inl empty ↦
        inr (f, flush_tail_empty f empty, no_tail-IsWhole rest f s pos v ((==_iff _ _).0 empty))
    | inr full ↦
        emitted (ground arith) (flush_tail c f) refl
          (flush_tail-Emitted (length s) f s small v room (ground arith))
  ]
    where
      emitted :
          0 < length f.buf
          → (r : Option FileWriter) → flush_tail c f ≡ r
          → Emitted c block_size start f s r
          → Failing c ⊎ ((g : FileWriter) × (flush_tail c f ≡ some g) × IsWhole rest g s)
      emitted full none e h = inl h
      emitted full (some g) e h = inr (g, e, tail-IsWhole rest f g s pos v room full h)

  pub file_write_all-IsWhole :
      (chunks : List Bytes) (rest : Bytes)
      → 0 < block_size
      → block_size < 2 ^ 24
      → ((s : Bytes) → c.compress s ≢ failed)
      → (f g : FileWriter) × (file_write_all c block_size start
            (create_file start (length start))
            chunks
          ≡ some f)
        × (flush_tail c f ≡ some g)
        × IsWhole rest g (concat chunks)
  unfolding create_file
  file_write_all-IsWhole chunks rest pos small sound =
      written (file_write_all c block_size start (create_file start (length start)) chunks) refl (
        file_write_all-Streamed c block_size start 0 chunks (create_file start (length start)) []
          pos small
          (record {
            held = record {
              blocks = [];
              sizes = refl;
              output = sym (append-nil start);
              position = refl;
              content = refl;
              fit = tt;
            };
            whole = omega arith;
            sized = refl;
            fresh = refl;
            live = refl;
            from = refl;
          })
          pos)
    where
      written :
          (r : Option FileWriter)
          → file_write_all c block_size start (create_file start (length start)) chunks ≡ r
          → Streamed c block_size start (0 + length (concat chunks)) (concat chunks) r
          → (f g : FileWriter) × (file_write_all c block_size start
                (create_file start (length start))
                chunks
              ≡ some f)
            × (flush_tail c f ≡ some g)
            × IsWhole rest g (concat chunks)
      written none e h = absurd (sound h.0 h.1)
      written (some f) e h =
          elim (flush_tail-IsWhole rest f (concat chunks) pos small
            (subst (λ k. Streams c block_size start k f (concat chunks)) (omega arith) h.0) h.1) [
              | inl fail ↦ absurd (sound fail.0 fail.1)
              | inr (g, flushed, w) ↦ (f, g, e, flushed, w)
            ]
