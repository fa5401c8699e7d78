-- ===== src/Store/Eviction.antt =====
-- What the loop over the sorted entries removes and keeps.
use hpcc.Prelude.{
  ℕ, ◌+◌, ◌-◌, ◌≤◌, ◌≡◌, refl, sym, ap, subst, ◌⊎◌, inl, inr, Bool, true, false, not, ◌&&◌, List,
  [], ◌∷◌, ◌++◌, All, All-imp, arith, Bool-cases, ltb, leb,
}
use hpcc.Store.{EntryInfo, total_size, place_entry, sort_entries, evict_loop, evict}

-- Oldest first.
abbrev pub Sorted : List EntryInfo → Type 0
Sorted [] = Unit
Sorted (e ∷ entries) = All (λ f. e.mod_time ≤ f.mod_time) entries × Sorted entries

place_entry-All :
    (P : EntryInfo → Type 0) (e : EntryInfo) (entries : List EntryInfo)
    → P e
    → All P entries
    → All P (place_entry e entries)
unfolding place_entry
place_entry-All P e [] p a = (p, tt)
place_entry-All P e (f ∷ entries) p a = elim (Bool-cases (leb e.mod_time f.mod_time)) [
  | inl h ↦ rw h (p, a)
  | inr h ↦ rw h (a.0, place_entry-All P e entries p a.1)
]

place_entry-Sorted :
    (e : EntryInfo) (entries : List EntryInfo) → Sorted entries → Sorted (place_entry e entries)
unfolding place_entry
place_entry-Sorted e [] s = (tt, tt)
place_entry-Sorted e (f ∷ entries) s = elim (Bool-cases (leb e.mod_time f.mod_time)) [
  | inl h ↦
      let first : e.mod_time ≤ f.mod_time = ground arith in
      rw h (
        (
          first,
          All-imp (λ g. f.mod_time ≤ g.mod_time) (λ g. e.mod_time ≤ g.mod_time)
              (λ g k. omega (arith, first, k)) entries s.0,
        ),
        s,
      )
  | inr h ↦
      let later : f.mod_time ≤ e.mod_time = ground arith in
      rw h (
        place_entry-All (λ g. f.mod_time ≤ g.mod_time) e entries later s.0,
        place_entry-Sorted e entries s.1,
      )
]

pub sort_entries-Sorted : (entries : List EntryInfo) → Sorted (sort_entries entries)
unfolding sort_entries
sort_entries-Sorted [] = tt
sort_entries-Sorted (e ∷ entries) =
    place_entry-Sorted e (sort_entries entries) (sort_entries-Sorted entries)

place_entry-size :
    (e : EntryInfo) (entries : List EntryInfo)
    → total_size (place_entry e entries) ≡ e.size + total_size entries
unfolding place_entry total_size
place_entry-size e [] = refl
place_entry-size e (f ∷ entries) = ground (arith, place_entry-size e entries)

pub sort_entries-size :
    (entries : List EntryInfo) → total_size (sort_entries entries) ≡ total_size entries
unfolding sort_entries total_size
sort_entries-size [] = refl
sort_entries-size (e ∷ entries) =
    omega (arith, sort_entries-size entries, place_entry-size e (sort_entries entries))

-- The loop splits the entries: with every RemoveAll a success, into a first part and the rest.
module _ (past : EntryInfo → Bool) (over : ℕ → Bool) where
  abbrev run : ℕ → List EntryInfo → List EntryInfo × List EntryInfo
  run = evict_loop (λ path. true) past over

  pub evict_loop-split :
      (total : ℕ) (entries : List EntryInfo)
      → (run total entries).0 ++ (run total entries).1 ≡ entries
  unfolding evict_loop
  evict_loop-split total [] = refl
  evict_loop-split total (e ∷ entries) = elim (Bool-cases (not (past e) && not (over total))) [
    | inl stop ↦ rw stop refl
    | inr go ↦ rw go (ap (◌∷◌ e) (evict_loop-split (total - e.size) entries))
  ]

  -- Each removed entry was past its age, or the total was still too large.
  abbrev pub Needed : ℕ → List EntryInfo → Type 0
  Needed total [] = Unit
  Needed total (e ∷ gone) = ((past e ≡ true) ⊎ (over total ≡ true)) × Needed (total - e.size) gone

  pub evict_loop-Needed :
      (total : ℕ) (entries : List EntryInfo) → Needed total (run total entries).0
  unfolding evict_loop
  evict_loop-Needed total [] = tt
  evict_loop-Needed total (e ∷ entries) = elim (Bool-cases (not (past e) && not (over total))) [
    | inl stop ↦ rw stop tt
    | inr go ↦
        let why : (past e ≡ true) ⊎ (over total ≡ true) = ground arith in
        rw go (why, evict_loop-Needed (total - e.size) entries)
  ]

  -- The sizes that are kept are what the count of the loop says.
  pub evict_loop-size :
      (total : ℕ) (entries : List EntryInfo)
      → total ≡ total_size entries
      → ((run total entries).1 ≡ []) ⊎ (over (total_size (run total entries).1) ≡ false)
  unfolding evict_loop total_size
  evict_loop-size total [] h = inl refl
  evict_loop-size total (e ∷ entries) h = elim (Bool-cases (not (past e) && not (over total))) [
    | inl stop ↦
        let quiet : over total ≡ false = ground arith in
        rw stop (inr (subst (λ n. over n ≡ false) h quiet))
    | inr go ↦ rw go (evict_loop-size (total - e.size) entries (omega (arith, h)))
  ]

  -- Where `past` holds of an entry it holds of every older one, so none is kept.
  pub evict_loop-past :
      (total : ℕ) (entries : List EntryInfo)
      → Sorted entries
      → ((e f : EntryInfo) → e.mod_time ≤ f.mod_time → past e ≡ false → past f ≡ false)
      → All (λ e. past e ≡ false) (run total entries).1
  unfolding evict_loop
  evict_loop-past total [] s older = tt
  evict_loop-past total (e ∷ entries) s older =
      elim (Bool-cases (not (past e) && not (over total))) [
        | inl stop ↦
            let young : past e ≡ false = ground arith in
            rw stop (
              young,
              All-imp (λ f. e.mod_time ≤ f.mod_time) (λ f. past f ≡ false)
                  (λ f h. older e f h young) entries s.0,
            )
        | inr go ↦ rw go (evict_loop-past (total - e.size) entries s.1 older)
      ]

-- Nothing that was kept is older than what was removed.
abbrev pub Older : List EntryInfo → List EntryInfo → Type 0
Older gone kept = All (λ e. All (λ f. e.mod_time ≤ f.mod_time) kept) gone

All-suffix : (P : EntryInfo → Type 0) (xs ys : List EntryInfo) → All P (xs ++ ys) → All P ys
All-suffix P [] ys a = a
All-suffix P (x ∷ xs) ys a = All-suffix P xs ys a.1

pub Sorted-Older : (gone kept : List EntryInfo) → Sorted (gone ++ kept) → Older gone kept
Sorted-Older [] kept s = tt
Sorted-Older (e ∷ gone) kept s =
    (All-suffix (λ f. e.mod_time ≤ f.mod_time) gone kept s.0, Sorted-Older gone kept s.1)

total_size-append : (xs ys : List EntryInfo) → total_size (xs ++ ys) ≡ total_size xs + total_size ys
unfolding total_size
total_size-append [] ys = omega arith
total_size-append (x ∷ xs) ys = omega (arith, total_size-append xs ys)

pub record Evicted (max_size : ℕ) (entries gone kept : List EntryInfo) : Type 0 where
  pub fits : total_size kept ≤ max_size
  pub sizes : total_size gone + total_size kept ≡ total_size entries
  pub older : Older gone kept
  pub needed : Needed (λ e. false) (λ total. ltb max_size total) (total_size entries) gone

-- When every removal succeeds, evict leaves entries whose sizes sum to at most the limit; nothing
-- that it keeps is older than what it removes; the sizes removed and kept sum to the old total;
-- and it removes each entry only while the total is above the limit.
pub evict-Evicted :
    (max_size : ℕ) (entries : List EntryInfo)
    → Evicted max_size entries
        (evict (λ path. true) max_size entries).0
        (evict (λ path. true) max_size entries).1
unfolding evict total_size
evict-Evicted max_size entries = elim (Bool-cases (leb (total_size entries) max_size)) [
  | inl small ↦
      rw (small, evict)
        (record { fits = ground arith; sizes = omega arith; older = tt; needed = tt })
  | inr large ↦
      rw (large, evict)
        (record {
          fits = fits (
              evict_loop-size never over (total_size entries) sorted
                (sym (sort_entries-size entries)));
          sizes =
              omega (arith, total_size-append _ _, ap total_size split, sort_entries-size entries);
          older = Sorted-Older _ _ (subst Sorted (sym split) (sort_entries-Sorted entries));
          needed = evict_loop-Needed never over (total_size entries) sorted;
        })
]
  where
    never : EntryInfo → Bool
    never = λ e. false

    over : ℕ → Bool
    over = λ total. ltb max_size total

    sorted : List EntryInfo
    sorted = sort_entries entries

    parts : List EntryInfo × List EntryInfo
    parts = evict_loop (λ path. true) never over (total_size entries) sorted

    split : parts.0 ++ parts.1 ≡ sorted
    split = evict_loop-split never over (total_size entries) sorted

    fits : (parts.1 ≡ []) ⊎ (over (total_size parts.1) ≡ false) → total_size parts.1 ≤ max_size
    fits (inl none_left) = rw none_left (omega arith)
    fits (inr quiet) = ground arith
