-- ===== src/Squashfs/Batches.antt =====
-- The ID table on disk: what the loop of WriteData leaves, batch by batch.
use hpcc.Prelude.{
  ℕ, ◌+◌, ◌%◌, ◌≡◌, refl, sym, ap, subst, Bool, true, false, Option, none, some, List, [], ◌∷◌,
  ◌++◌, Bytes, length, ◌==◌, ==_iff, if◌then◌else◌, inl, inr, Bool-cases, arith,
}
use mathlib.Core.List.{append-nil}
use hpcc.Prelude.Endian.{le_bytes}
use hpcc.Squashfs.Compressor.{Codec}
use hpcc.Squashfs.Metadata.{MetaWriter, write, flush}
use hpcc.Squashfs.Stream.{
  IsOpen, Grown, Grown-trans, Failing, Ran, Sealed, write-Ran, seal_current-Sealed,
}
use hpcc.Squashfs.Ids.{ids_per_meta_block, batch_start, id_rounds}

-- The bytes of a sequence of numbers.
unfoldable pub id_bytes : List ℕ → Bytes
id_bytes [] = []
id_bytes (id ∷ ids) = le_bytes 4 id ++ id_bytes ids

module _ (c : Codec) where
  -- At a block that starts with the bytes p, up to the state l.
  abbrev pub StartsAt : MetaWriter → ℕ → Bytes → Type 0
  StartsAt l s p = (m : MetaWriter) × (m.cur ≡ []) × (length m.blocks ≡ s) × Grown c m p l

  -- Each batch that starts from round i on has its block.
  abbrev pub Batches : MetaWriter → ℕ → List ℕ → List ℕ → Type 0
  Batches l i [] starts = starts ≡ []
  Batches l i (id ∷ ids) starts =
      let later = Batches l (i + 1) ids in
      if i % ids_per_meta_block == 0
      then ((s : ℕ) × (more : List ℕ) × (starts ≡ s ∷ more)
          × StartsAt l s (id_bytes (id ∷ ids))
          × later more)
      else later starts

  abbrev pub Rounds : ℕ → List ℕ → MetaWriter → Option (MetaWriter × List ℕ) → Type 0
  Rounds i ids m none = Failing c
  Rounds i ids m (some (l, starts)) = Grown c m (id_bytes ids) l × IsOpen l × Batches l i ids starts

  -- Where a batch starts, the open block is empty, and its index is noted.
  abbrev Noted : Bool → MetaWriter → List ℕ → Type 0
  Noted true n started = (n.cur ≡ []) × (started ≡ length n.blocks ∷ [])
  Noted false n started = started ≡ []

  abbrev BatchStarted : Bool → MetaWriter → Option (MetaWriter × List ℕ) → Type 0
  BatchStarted starts m none = Failing c
  BatchStarted starts m (some (n, started)) = Grown c m [] n × IsOpen n × Noted starts n started

  unchanged : (m : MetaWriter) → Grown c m [] m
  unchanged m = record { added = sym (append-nil _); more = []; kept = sym (append-nil _) }

  empty_start :
      (first : Bool) (m : MetaWriter)
      → IsOpen m
      → (first ≡ true → m.cur ≡ [])
      → Sealed c m (if first then some m else flush c m)
  unfolding flush
  empty_start true m v h = (unchanged m, v, h refl)
  empty_start false m v h = seal_current-Sealed c m (let room = v.room in omega arith) v.short

  noted :
      (m : MetaWriter) (r : Option MetaWriter)
      → Sealed c m r
      → BatchStarted true m (elim r [ none ↦ none | some n ↦ some (n, length n.blocks ∷ []) ])
  noted m none h = h
  noted m (some n) h = (h.0, h.1, (h.2, refl))

  batch_start-BatchStarted :
      (i : ℕ) (m : MetaWriter)
      → IsOpen m
      → (i ≡ 0 → m.cur ≡ [])
      → BatchStarted (i % ids_per_meta_block == 0) m (batch_start c i m)
  unfolding batch_start
  batch_start-BatchStarted i m v first = elim (Bool-cases (i % ids_per_meta_block == 0)) [
    | inl e ↦ rw e (
        noted m (if i == 0 then some m else flush c m)
          (empty_start (i == 0) m v (λ z. first ((==_iff i 0).0 z))))
    | inr e ↦ rw e (unchanged m, v, refl)
  ]

  -- The round's part of Batches.
  batch_step :
      (i id : ℕ) (ids : List ℕ) (m m' l : MetaWriter) (started starts : List ℕ)
      → Noted (i % ids_per_meta_block == 0) m' started
      → Grown c m' (id_bytes (id ∷ ids)) l
      → Batches l (i + 1) ids starts
      → Batches l i (id ∷ ids) (started ++ starts)
  batch_step i id ids m m' l started starts h g later =
      elim (Bool-cases (i % ids_per_meta_block == 0)) [
        | inl e ↦
            let n : Noted true m' started = subst (λ t. Noted t m' started) e h in
            rw e (length m'.blocks, starts, ap (λ t. t ++ starts) n.1, (m', n.0, refl, g), later)
        | inr e ↦
            let n : started ≡ [] = subst (λ t. Noted t m' started) e h in
            rw e (subst (λ t. Batches l (i + 1) ids (t ++ starts)) (sym n) later)
      ]

  module _ (i id : ℕ) (ids : List ℕ) (m m' : MetaWriter) (started : List ℕ) where
    -- The rounds behind this one have run.
    round_ends :
        (n : MetaWriter) (r : Option (MetaWriter × List ℕ))
        → Grown c m [] m'
        → Noted (i % ids_per_meta_block == 0) m' started
        → Grown c m' (le_bytes 4 id) n
        → Rounds (i + 1) ids n r
        → Rounds i
            (id ∷ ids)
            m
            (elim r [ none ↦ none | some (l, starts) ↦ some (l, started ++ starts) ])
    unfolding id_bytes
    round_ends n none g s w h = h
    round_ends n (some (l, starts)) g s w h =
        let whole = Grown-trans c m' n l (le_bytes 4 id) (id_bytes ids) w h.0 in
        (
          Grown-trans c m m' l [] (id_bytes (id ∷ ids)) g whole,
          h.1,
          batch_step i id ids m m' l started starts s whole h.2,
        )

    -- The number is written.
    round_written :
        (r : Option MetaWriter)
        → Grown c m [] m'
        → Noted (i % ids_per_meta_block == 0) m' started
        → Ran c m' (le_bytes 4 id) r
        → ((n : MetaWriter) → IsOpen n → Rounds (i + 1) ids n (id_rounds c (i + 1) ids n))
        → Rounds i (id ∷ ids) m (elim r [
          | none ↦ none
          | some n ↦ elim (id_rounds c (i + 1) ids n) [
            | none ↦ none
            | some (l, starts) ↦ some (l, started ++ starts)
          ]
        ])
    round_written none g s h next = h
    round_written (some n) g s h next =
        round_ends n (id_rounds c (i + 1) ids n) g s h.0 (next n h.1)

  pub id_rounds-Rounds :
      (i : ℕ) (ids : List ℕ) (m : MetaWriter)
      → IsOpen m
      → (i ≡ 0 → m.cur ≡ [])
      → Rounds i ids m (id_rounds c i ids m)
  unfolding id_rounds id_bytes
  id_rounds-Rounds i [] m v first = (unchanged m, v, refl)
  id_rounds-Rounds i (id ∷ ids) m v first =
      begun (batch_start c i m) (batch_start-BatchStarted i m v first)
        (λ n w. id_rounds-Rounds (i + 1) ids n w (λ z. absurd (omega arith)))
    where
      begun :
          (r : Option (MetaWriter × List ℕ))
          → BatchStarted (i % ids_per_meta_block == 0) m r
          → ((n : MetaWriter) → IsOpen n → Rounds (i + 1) ids n (id_rounds c (i + 1) ids n))
          → Rounds i (id ∷ ids) m (elim r [
            | none ↦ none
            | some (m', s) ↦ elim (write c m' (le_bytes 4 id)) [
              | none ↦ none
              | some n ↦ elim (id_rounds c (i + 1) ids n) [
                | none ↦ none
                | some (l, starts) ↦ some (l, s ++ starts)
              ]
            ]
          ])
      begun none h next = h
      begun (some (m', s)) h next =
          round_written i id ids m m' s (write c m' (le_bytes 4 id)) h.0 h.2
            (write-Ran c m' (le_bytes 4 id) h.1) next
