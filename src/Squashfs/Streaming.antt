-- ===== src/Squashfs/Streaming.antt =====
-- The file writer's loop: what it keeps true between calls.
use hpcc.Prelude.{
  ℕ, zero, suc, ◌+◌, ◌-◌, ◌*◌, ◌^◌, ◌≤◌, ◌<◌, ◌≡◌, refl, sym, ap, subst, ◌∙◌, Bool, true, false,
  Option, none, some, List, [], ◌∷◌, ◌++◌, Bytes, length, take, drop, ◌==◌, ==_iff, length-append,
  length-take, take-append-drop, length-drop, arith,
}
use native.Mathlib.Nat.{add-mul}
use mathlib.Core.List.{append-nil, append_assoc}
use hpcc.Squashfs.Compressor.{Codec}
use hpcc.Squashfs.Metadata.{min}
use hpcc.Squashfs.Stream.{Failing, min_bounds, concat}
use hpcc.Squashfs.Files.{FileWriter, emit_block, file_loop, file_write}
use hpcc.Squashfs.FileBlocks.{plain_of, Held, Emitted, emit_block-Emitted}

-- One block more.
next_whole :
    (n k k' size : ℕ) {held left : ℕ}
    → n ≡ k * size + held
    → held ≡ size
    → left ≡ 0
    → k' ≡ k + 1
    → n ≡ k' * size + left
next_whole n k k' size e h l m = rw (m, add-mul k 1 size) (omega arith)

module _ (c : Codec) (block_size : ℕ) (start : Bytes) where
  -- Whole blocks are on disk, and the rest is in the buffer.
  pub record Streams (k : ℕ) (f : FileWriter) (s : Bytes) : Type 0 where
    pub held : Held c block_size start f s
    pub whole : length s ≡ length f.block_sizes * block_size + length f.buf
    pub sized : f.file_size ≡ k
    pub fresh : f.stale ≡ false
    pub live : f.closed ≡ false
    pub from : f.blocks_start ≡ length start

  abbrev pub Streamed : ℕ → Bytes → Option FileWriter → Type 0
  Streamed k s none = Failing c
  Streamed k s (some f) = Streams k f s × (length f.buf < block_size)

  -- Some bytes more stand in the buffer.
  buffered-Streams :
      (k : ℕ) (f : FileWriter) (s t : Bytes)
      → Streams k f s
      → Streams k (record f { buf = f.buf ++ t }) (s ++ t)
  buffered-Streams k f s t v = record {
    held = record {
      blocks = v.held.blocks;
      sizes = v.held.sizes;
      output = v.held.output;
      position = v.held.position;
      content = ap (λ x. x ++ t) v.held.content ∙ append_assoc (plain_of c v.held.blocks) f.buf t;
      fit = v.held.fit;
    };
    whole = omega (arith, v.whole, length-append s t, length-append f.buf t);
    sized = v.sized;
    fresh = v.fresh;
    live = v.live;
    from = v.from;
  }

  module _ (k : ℕ) (q : Bytes) (next : FileWriter → Option FileWriter) where
    -- The block is full and is emitted, and the rest q is written.
    full_round :
        (f : FileWriter) (s : Bytes) (r : Option FileWriter)
        → Emitted c block_size start f s r
        → Streams k f s
        → 0 < block_size
        → length f.buf ≡ block_size
        → ((g : FileWriter)
            → Streams k g s
            → length g.buf < block_size
            → Streamed k (s ++ q) (next g))
        → Streamed k (s ++ q) (elim r [ none ↦ none | some emptied ↦ next emptied ])
    full_round f s none h v pos full run = h
    full_round f s (some g) h v pos full run =
        let empty : length g.buf ≡ 0 = ap length h.1 in
        run g
          (record {
            held = h.0;
            whole =
                next_whole (length s) (length f.block_sizes) (length g.block_sizes) block_size
                  v.whole full empty h.2;
            sized = h.3 ∙ v.sized;
            fresh = h.4 ∙ v.fresh;
            live = h.5 ∙ v.live;
            from = h.6 ∙ v.from;
          })
          (omega arith)

    file_round :
        (f : FileWriter) (s : Bytes) (full : Bool)
        → (length f.buf == block_size) ≡ full
        → Streams k f s
        → 0 < block_size
        → block_size < 2 ^ 24
        → length f.buf ≤ block_size
        → ((g : FileWriter)
            → Streams k g s
            → length g.buf < block_size
            → Streamed k (s ++ q) (next g))
        → Streamed k (s ++ q) (elim full [
          | false ↦ next f
          | true ↦ elim (emit_block c f) [ none ↦ none | some emptied ↦ next emptied ]
        ])
    file_round f s false e v pos small low run = run f v (ground arith)
    file_round f s true e v pos small low run =
        let full : length f.buf ≡ block_size = (==_iff _ _).0 e in
        full_round f s (emit_block c f)
          (emit_block-Emitted c block_size start f s v.held (omega arith) (omega arith)) v pos full
          run

  file_loop-Streamed :
      (k fuel : ℕ) (p : Bytes) (f : FileWriter) (s : Bytes)
      → length p ≤ fuel
      → 0 < block_size
      → block_size < 2 ^ 24
      → Streams k f s
      → length f.buf < block_size
      → Streamed k (s ++ p) (file_loop c block_size fuel p f)
  unfolding file_loop
  file_loop-Streamed k fuel [] f s h pos small v room =
      (subst (Streams k f) (sym (append-nil s)) v, room)
  file_loop-Streamed k zero (b ∷ p) f s h pos small v room = absurd (omega arith)
  file_loop-Streamed k (suc fuel) (b ∷ p) f s h pos small v room =
      let n = min (suc (length p)) (block_size - length f.buf) in
      let low = min_bounds (suc (length p)) (block_size - length f.buf) in
      let t = take n (b ∷ p) in
      let q = drop n (b ∷ p) in
      let f' : FileWriter = record f { buf = f.buf ++ t } in
      let held : length f'.buf ≡ length f.buf + n =
        length-append f.buf t ∙ ap (λ k. length f.buf + k) (length-take n (b ∷ p) low.0) in
      let fits = low.1 in
      let some_bytes = low.2 (omega arith) (omega arith) in
      let joined : (s ++ t) ++ q ≡ s ++ b ∷ p =
        append_assoc s t q ∙ ap (λ x. s ++ x) (take-append-drop n (b ∷ p)) in
      subst (λ x. Streamed k x (file_loop c block_size (suc fuel) (b ∷ p) f)) joined
        (file_round k q (file_loop c block_size fuel q) f' (s ++ t) _ refl
          (buffered-Streams k f s t v) pos small (omega arith)
          (λ g w r.
            file_loop-Streamed k fuel q g (s ++ t) (omega (arith, length-drop n (b ∷ p))) pos small
              w r))

  -- The calls of Write for one file, until one fails.
  unfoldable pub file_write_all : FileWriter → List Bytes → Option FileWriter
  file_write_all f [] = some f
  file_write_all f (p ∷ ps) = elim (file_write c block_size f p) [
    | none ↦ none
    | some g ↦ file_write_all g ps
  ]

  file_write-Streamed :
      (k : ℕ) (p : Bytes) (f : FileWriter) (s : Bytes)
      → 0 < block_size
      → block_size < 2 ^ 24
      → Streams k f s
      → length f.buf < block_size
      → Streamed (k + length p) (s ++ p) (file_write c block_size f p)
  unfolding file_write
  file_write-Streamed k p f s pos small v room =
      simp (v.fresh, v.live)
        (count (file_loop c block_size (length p) p f)
          (file_loop-Streamed k (length p) p f s (omega arith) pos small v room))
    where
      count :
          (r : Option FileWriter)
          → Streamed k (s ++ p) r
          → Streamed (k + length p) (s ++ p) (elim r [
            | none ↦ none
            | some g ↦ some (record g { file_size = g.file_size + length p })
          ])
      count none h = h
      count (some g) h = (
        record {
          held = record {
            blocks = h.0.held.blocks;
            sizes = h.0.held.sizes;
            output = h.0.held.output;
            position = h.0.held.position;
            content = h.0.held.content;
            fit = h.0.held.fit;
          };
          whole = h.0.whole;
          sized = ap (λ n. n + length p) h.0.sized;
          fresh = h.0.fresh;
          live = h.0.live;
          from = h.0.from;
        },
        h.1,
      )

  pub file_write_all-Streamed :
      (k : ℕ) (ps : List Bytes) (f : FileWriter) (s : Bytes)
      → 0 < block_size
      → block_size < 2 ^ 24
      → Streams k f s
      → length f.buf < block_size
      → Streamed (k + length (concat ps)) (s ++ concat ps) (file_write_all f ps)
  unfolding file_write_all concat
  file_write_all-Streamed k [] f s pos small v room = (
    subst (λ t. Streams t f (s ++ [])) (let e : k ≡ k + 0 = omega arith in e)
        (subst (Streams k f) (sym (append-nil s)) v),
    room,
  )
  file_write_all-Streamed k (p ∷ ps) f s pos small v room =
      subst (λ n. Streamed n (s ++ (p ++ concat ps)) (file_write_all f (p ∷ ps)))
        (let e : (k + length p) + length (concat ps) ≡ k + length (p ++ concat ps) =
            omega (arith, length-append p (concat ps)) in
          e)
        (subst (λ x. Streamed ((k + length p) + length (concat ps)) x (file_write_all f (p ∷ ps)))
          (append_assoc s p (concat ps))
          (chain (file_write c block_size f p) (file_write-Streamed k p f s pos small v room)
            (λ g w r. file_write_all-Streamed (k + length p) ps g (s ++ p) pos small w r)))
    where
      chain :
          (r : Option FileWriter)
          → Streamed (k + length p) (s ++ p) r
          → ((g : FileWriter)
              → Streams (k + length p) g (s ++ p)
              → length g.buf < block_size
              → Streamed
                  ((k + length p) + length (concat ps))
                  ((s ++ p) ++ concat ps)
                  (file_write_all g ps))
          → Streamed
              ((k + length p) + length (concat ps))
              ((s ++ p) ++ concat ps)
              (elim r [ none ↦ none | some g ↦ file_write_all g ps ])
      chain none h run = h
      chain (some g) h run = run g h.0 h.1
