-- ===== src/Squashfs/IdLookup.antt =====
-- The ID table, read back the way a kernel finds an owner's number: by the lookup list, the block
-- that it points to, and the place in it.
use hpcc.Prelude.{
  ℕ, zero, suc, ◌+◌, ◌-◌, ◌*◌, ◌/◌, ◌%◌, ◌^◌, ◌<◌, ◌≡◌, ◌≢◌, refl, sym, ap, subst, ◌∙◌, false,
  Option, none, some, List, [], ◌∷◌, map, Bytes, length, take, drop, ◌==◌, ==_iff, inl, inr, All,
  get_elem?, get_elem?-lt, Bool-cases, arith,
}
use mathlib.Core.Path.{ap₂}
use mathlib.Core.List.{append-nil}
use hpcc.Prelude.Endian.{le_bytes, le_value, le_value-le_bytes}
use hpcc.Squashfs.Compressor.{failed, Codec}
use hpcc.Squashfs.Metadata.{MetaWriter, new_meta_writer, flush, block_byte_offset, emit_to, ref}
use hpcc.Squashfs.Stream.{IsOpen, Grown, Grown-trans, Short, Failing, Sealed, seal_current-Sealed}
use hpcc.Squashfs.Readback.{read_blocks, emit_to-Reads, finished_read}
use hpcc.Squashfs.Ids.{IdTable, id_rounds, write_data, write_lookup}
use hpcc.Squashfs.Batches.{id_bytes, StartsAt, Batches, Rounds, id_rounds-Rounds}

-- The n-th block holds the numbers from the d-th on.
abbrev Holds : Codec → MetaWriter → List ℕ → ℕ → List ℕ → ℕ → Type 0
Holds c l starts n ids d =
    (s : ℕ) × (get_elem? starts n ≡ some s) × StartsAt c l s (id_bytes (drop d ids))

module _ (c : Codec) (l : MetaWriter) where
  batch_head :
      (i x : ℕ) (ids starts : List ℕ)
      → Batches c l i (x ∷ ids) starts
      → i % 2048 ≡ 0
      → (s : ℕ) × (more : List ℕ) × (starts ≡ s ∷ more)
        × StartsAt c l s (id_bytes (x ∷ ids))
        × Batches c l (i + 1) ids more
  batch_head i x ids starts b z = rw ((==_iff _ _).1 z) at b

  batch_tail :
      (i x : ℕ) (ids starts : List ℕ)
      → Batches c l i (x ∷ ids) starts
      → (i % 2048 == 0) ≡ false
      → Batches c l (i + 1) ids starts
  batch_tail i x ids starts b e = rw e at b

  -- The block of the batch in which the k-th number behind round i stands.
  batch_of :
      (ids : List ℕ) (i k d n : ℕ) (starts : List ℕ)
      → Batches c l i ids starts
      → k < length ids
      → d + (i + k) % 2048 ≡ k
      → n + (i + 2047) / 2048 ≡ (i + k) / 2048
      → Holds c l starts n ids d
  batch_of [] i k d n starts b h low at = absurd (omega arith)
  batch_of (x ∷ ids) i k zero n starts b h low at =
      let first : n ≡ 0 = omega arith in
      let (s, more, same, start, later) = batch_head i x ids starts b (omega arith) in
      (s, ap₂ get_elem? same first, start)
  batch_of (x ∷ ids) i zero (suc d) n starts b h low at = absurd (omega arith)
  batch_of (x ∷ ids) i (suc k) (suc d) n starts b h low at = elim (Bool-cases (i % 2048 == 0)) [
    | inl e ↦
        let z = (==_iff (i % 2048) 0).0 e in
        let (s, more, same, start, later) = batch_head i x ids starts b z in
        let pred : n ≡ suc (n - 1) = omega arith in
        let (t, found, begun) =
          batch_of ids (i + 1) k d (n - 1) more later (omega arith) (omega arith) (omega arith) in
        (t, ap₂ get_elem? same pred ∙ found, begun)
    | inr e ↦
        let nz : i % 2048 ≢ 0 = λ z. let t = (==_iff (i % 2048) 0).1 z in cc in
        batch_of ids (i + 1) k d n starts (batch_tail i x ids starts b e) (omega arith)
          (omega arith) (omega arith)
  ]

get_elem?-drop :
    (ids : List ℕ) (d r : ℕ) {id : ℕ}
    → get_elem? ids (d + r) ≡ some id
    → get_elem? (drop d ids) r ≡ some id
get_elem?-drop ids zero r {id} h =
    subst (λ n. get_elem? ids n ≡ some id) (let e : 0 + r ≡ r = omega arith in e) h
get_elem?-drop [] (suc d) r h = cc
get_elem?-drop (x ∷ ids) (suc d) r {id} h = get_elem?-drop ids d r (
    subst (λ n. get_elem? (x ∷ ids) n ≡ some id)
      (let e : suc d + r ≡ suc (d + r) = omega arith in e) h)

-- A number in the bytes of a sequence.
le_value-id_bytes :
    (ids : List ℕ) (r : ℕ) {id : ℕ}
    → All (λ n. n < 2 ^ 32) ids
    → get_elem? ids r ≡ some id
    → le_value (take 4 (drop (4 * r) (id_bytes ids))) ≡ id
unfolding id_bytes le_bytes
le_value-id_bytes [] r a h = cc
le_value-id_bytes (x ∷ ids) zero a h = le_value-le_bytes 4 x a.0 ∙ (let e : x ≡ _ = cc in e)
le_value-id_bytes (x ∷ ids) (suc r) {id} a h =
    subst (λ n. le_value (take 4 (drop n (id_bytes (x ∷ ids)))) ≡ id)
      (let e : suc (suc (suc (suc (4 * r)))) ≡ 4 * suc r = omega arith in e)
      (le_value-id_bytes ids r a.1 h)

-- What a kernel does for the k-th number: the lookup list gives the file's offset of a block, whose
-- stream starts at base; the number stands at its place in the block.
unfoldable pub read_id : Codec → ℕ → Bytes → Bytes → ℕ → ℕ
read_id c base lookup table k =
    let offset = le_value (take 8 (drop (8 * (k / 2048)) lookup)) in
    let rest = drop (offset - base) table in
    le_value (take 4 (drop (4 * (k % 2048)) (read_blocks c (length rest) rest)))

le_value-write_lookup :
    (offsets : List ℕ) (n : ℕ) {o : ℕ}
    → get_elem? offsets n ≡ some o
    → o < 2 ^ 64
    → le_value (take 8 (drop (8 * n) (write_lookup offsets))) ≡ o
unfolding write_lookup le_bytes
le_value-write_lookup [] n h small = cc
le_value-write_lookup (x ∷ offsets) zero {o} h small =
    let e : x ≡ o = cc in
    subst (λ t. le_value (take 8 (drop 0 (write_lookup (x ∷ offsets)))) ≡ t) e
      (le_value-le_bytes 8 x (omega arith))
le_value-write_lookup (x ∷ offsets) (suc n) {o} h small =
    subst (λ t. le_value (take 8 (drop t (write_lookup (x ∷ offsets)))) ≡ o)
      (let e : suc (suc (suc (suc (suc (suc (suc (suc (8 * n)))))))) ≡ 8 * suc n = omega arith in e)
      (le_value-write_lookup offsets n h small)

get_elem?-map :
    (f : ℕ → ℕ) (xs : List ℕ) (n : ℕ) {x : ℕ}
    → get_elem? xs n ≡ some x
    → get_elem? (map f xs) n ≡ some (f x)
get_elem?-map f [] n h = cc
get_elem?-map f (y ∷ xs) zero {x} h = let e : y ≡ x = cc in ap (λ t. some (f t)) e
get_elem?-map f (y ∷ xs) (suc n) h = get_elem?-map f xs n h

get_elem?-All :
    (P : ℕ → Type 0) (xs : List ℕ) (n : ℕ) {x : ℕ} → All P xs → get_elem? xs n ≡ some x → P x
get_elem?-All P [] n a h = cc
get_elem?-All P (y ∷ xs) zero {x} a h = subst P (let e : y ≡ x = cc in e) a.0
get_elem?-All P (y ∷ xs) (suc n) a h = get_elem?-All P xs n a.1 h

All-drop : (P : ℕ → Type 0) (xs : List ℕ) (d : ℕ) → All P xs → All P (drop d xs)
All-drop P xs zero a = a
All-drop P [] (suc d) a = a
All-drop P (x ∷ xs) (suc d) a = All-drop P xs d a.1

module _ (c : Codec) where
  -- Where the open block was empty, what follows is read from the block's offset on.
  read_start :
      (m n : MetaWriter) (p table : Bytes) (s : ℕ)
      → m.cur ≡ []
      → length m.blocks ≡ s
      → Grown c m p n
      → n.cur ≡ []
      → All Short n.blocks
      → emit_to n.blocks ≡ some table
      → let rest = drop (block_byte_offset n.blocks s) table in read_blocks c (length rest) rest ≡ p
  unfolding ref
  read_start m n p table s cur len g closed short emitted =
      let at = λ (k s : ℕ).
        let rest = drop (block_byte_offset n.blocks s) table in
        drop k (read_blocks c (length rest) rest) in
      sym (ap₂ at (ap length cur) len) ∙ finished_read c m n p table g closed short emitted

  -- What is known of the parts that WriteData has written.
  record DataWritten (ids : List ℕ) (base : ℕ) (offsets : List ℕ) (table : Bytes) : Type 0 where
    last : MetaWriter
    closed : MetaWriter
    starts : List ℕ
    batches : Batches c last 0 ids starts
    sealed : Grown c last [] closed
    empty : closed.cur ≡ []
    opened : IsOpen closed
    emitted : emit_to closed.blocks ≡ some table
    placed : offsets ≡ map (λ s. base + block_byte_offset closed.blocks s) starts

  abbrev Wrote : List ℕ → ℕ → Option (List ℕ × Bytes) → Type 0
  Wrote ids base none = Failing c
  Wrote ids base (some (offsets, table)) = DataWritten ids base offsets table

  module _ (ids : List ℕ) (base : ℕ) (l : MetaWriter) (starts : List ℕ) where
    flushed :
        (r : Option MetaWriter)
        → Batches c l 0 ids starts
        → Sealed c l r
        → Wrote ids base (elim r [
          | none ↦ none
          | some n ↦ elim (emit_to n.blocks) [
            | none ↦ none
            | some out ↦ some (map (λ s. base + block_byte_offset n.blocks s) starts, out)
          ]
        ])
    flushed none b h = h
    flushed (some n) b h =
        let (out, read) = emit_to-Reads c n.blocks h.1.short in
        rw (read.emitted) (record {
          last = l;
          closed = n;
          starts = starts;
          batches = b;
          sealed = h.0;
          empty = h.2;
          opened = h.1;
          emitted = read.emitted;
          placed = refl;
        })

  write_data-Wrote :
      (t : IdTable) (base : ℕ) → 0 < length t.list → Wrote t.list base (write_data c t base)
  unfolding write_data new_meta_writer flush
  write_data-Wrote t base some_ids =
      let full : (length t.list == 0) ≡ false = ground arith in
      rw full (
        rounds (id_rounds c 0 t.list new_meta_writer) (
          id_rounds-Rounds c 0 t.list new_meta_writer (record { room = omega arith; short = tt })
            (λ _. refl)))
    where
      rounds :
          (r : Option (MetaWriter × List ℕ))
          → Rounds c 0 t.list new_meta_writer r
          → Wrote t.list base (elim r [
            | none ↦ none
            | some (l, starts) ↦ elim (flush c l) [
              | none ↦ none
              | some n ↦ elim (emit_to n.blocks) [
                | none ↦ none
                | some out ↦ some (map (λ s. base + block_byte_offset n.blocks s) starts, out)
              ]
            ]
          ])
      rounds none h = h
      rounds (some (l, starts)) h =
          flushed t.list base l starts (flush c l) h.2
            (seal_current-Sealed c l (let room = h.1.room in omega arith) h.1.short)

  -- A number that stands in the table is found.
  found_in :
      (ids : List ℕ) (base k id : ℕ) (offsets : List ℕ) (table : Bytes)
      → DataWritten ids base offsets table
      → All (λ o. o < 2 ^ 64) offsets
      → All (λ n. n < 2 ^ 32) ids
      → get_elem? ids k ≡ some id
      → read_id c base (write_lookup offsets) table k ≡ id
  unfolding read_id
  found_in ids base k id offsets table w small narrow at =
      let (s, held, (m, cur, len, g)) =
        batch_of c w.last ids 0 k (k - k % 2048) (k / 2048) w.starts w.batches
          (get_elem?-lt ids k at) (omega arith) (omega arith) in
      let numbers = drop (k - k % 2048) ids in
      let o = base + block_byte_offset w.closed.blocks s in
      let listed : get_elem? offsets (k / 2048) ≡ some o =
        ap (λ t. get_elem? t (k / 2048)) w.placed
        ∙ get_elem?-map (λ s. base + block_byte_offset w.closed.blocks s) w.starts (k / 2048)
            held in
      let looked : le_value (take 8 (drop (8 * (k / 2048)) (write_lookup offsets))) - base
          ≡ block_byte_offset w.closed.blocks s =
        ap (λ t. t - base)
          (le_value-write_lookup offsets (k / 2048) listed
            (get_elem?-All (λ o. o < 2 ^ 64) offsets (k / 2048) small listed))
        ∙ omega arith in
      let whole : Grown c m (id_bytes numbers) w.closed =
        subst (λ t. Grown c m t w.closed) (append-nil _)
          (Grown-trans c m w.last w.closed (id_bytes numbers) [] g w.sealed) in
      let read =
        read_start m w.closed (id_bytes numbers) table s cur len whole w.empty w.opened.short
          w.emitted in
      let stands : get_elem? numbers (k % 2048) ≡ some id =
        get_elem?-drop ids (k - k % 2048) (k % 2048)
          (ap (get_elem? ids) (let e : k - k % 2048 + k % 2048 ≡ k = omega arith in e) ∙ at) in
      ap
        (λ n.
          let rest = drop n table in
          le_value (take 4 (drop (4 * (k % 2048)) (read_blocks c (length rest) rest))))
        looked
      ∙ ap (λ t. le_value (take 4 (drop (4 * (k % 2048)) t))) read
      ∙ le_value-id_bytes numbers (k % 2048) (All-drop (λ n. n < 2 ^ 32) ids (k - k % 2048) narrow)
          stands

  -- When write_data has written an ID table at an offset, for numbers below 2^32 and with offsets
  -- of blocks below 2^64, then the lookup list of write_lookup finds every number: a reader of the
  -- k-th number that takes the offset of a block from the place k / 2048 of the list, reads the
  -- blocks from there and takes the four bytes at 4 * (k % 2048) gets the number that stands k-th
  -- in the table.
  pub read_id-write_data :
      (t : IdTable) (base k id : ℕ) (offsets : List ℕ) (table : Bytes)
      → write_data c t base ≡ some (offsets, table)
      → All (λ o. o < 2 ^ 64) offsets
      → All (λ n. n < 2 ^ 32) t.list
      → get_elem? t.list k ≡ some id
      → read_id c base (write_lookup offsets) table k ≡ id
  read_id-write_data t base k id offsets table written small narrow at =
      found_in t.list base k id offsets table
        (subst (Wrote t.list base) written
          (write_data-Wrote t base (let some_ids = get_elem?-lt t.list k at in omega arith)))
        small narrow at

  -- The table is written where the compressor does not fail.
  pub write_data-total :
      (t : IdTable) (base : ℕ)
      → ((s : Bytes) → c.compress s ≢ failed)
      → 0 < length t.list
      → (offsets : List ℕ) × (table : Bytes) × (write_data c t base ≡ some (offsets, table))
  write_data-total t base sound some_ids =
      given (write_data c t base) refl (write_data-Wrote t base some_ids)
    where
      given :
          (r : Option (List ℕ × Bytes))
          → write_data c t base ≡ r
          → Wrote t.list base r
          → (offsets : List ℕ) × (table : Bytes) × (write_data c t base ≡ some (offsets, table))
      given none e h = absurd (sound h.0 h.1)
      given (some (offsets, table)) e h = (offsets, table, e)
