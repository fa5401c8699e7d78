-- ===== src/Store/Cleaning.antt =====
-- Clean with both of its limits.
use hpcc.Prelude.{
  ℕ, ◌+◌, ◌≤◌, ◌≡◌, ◌≢◌, sym, subst, ◌⊎◌, inl, inr, Bool, true, false, ◌&&◌, List, [], ◌++◌, All,
  All-imp, arith, ltb,
}
use hpcc.Store.{EntryInfo, total_size, sort_entries, evict_loop, cutoff_of, clean}
use hpcc.Store.Eviction.{
  Sorted, Older, Needed, sort_entries-Sorted, sort_entries-size, evict_loop-split, evict_loop-size,
  evict_loop-past, evict_loop-Needed, Sorted-Older,
}

abbrev pub past_cutoff : ℕ → ℕ → EntryInfo → Bool
past_cutoff now max_age e = ltb 0 (cutoff_of now max_age) && ltb e.mod_time (cutoff_of now max_age)

abbrev pub over_size : ℕ → ℕ → Bool
over_size max_size total = ltb 0 max_size && ltb max_size total

pub record Cleaned (now max_size max_age : ℕ) (entries gone kept : List EntryInfo) : Type 0 where
  pub fits : max_size ≢ 0 → total_size kept ≤ max_size
  pub young : max_age ≢ 0 → All (λ e. now ≤ e.mod_time + max_age) kept
  pub older : Older gone kept
  pub needed : Needed (past_cutoff now max_age) (over_size max_size) (total_size entries) gone

-- When every removal succeeds, clean leaves at most the size limit, if there is one, and no entry
-- that is older than the age limit, if there is one; nothing that it keeps is older than what it
-- removes, and it removes an entry only for its age or while the total is above the size limit.
pub clean-Cleaned :
    (now max_size max_age : ℕ) (entries : List EntryInfo)
    → Cleaned now max_size max_age entries
        (clean (λ path. true) now max_size max_age entries).0
        (clean (λ path. true) now max_size max_age entries).1
unfolding clean total_size cutoff_of
clean-Cleaned now max_size max_age entries = record {
  fits = λ on.
      fits on
        (evict_loop-size past over (total_size entries) sorted (sym (sort_entries-size entries)));
  young = λ on.
      All-imp (λ e. past e ≡ false) (λ e. now ≤ e.mod_time + max_age) (λ e h. ground arith) parts.1
        (evict_loop-past past over (total_size entries) sorted (sort_entries-Sorted entries)
          (λ e f le h. ground arith));
  older = Sorted-Older _ _ (subst Sorted (sym split) (sort_entries-Sorted entries));
  needed = evict_loop-Needed past over (total_size entries) sorted;
}
  where
    past : EntryInfo → Bool
    past = past_cutoff now max_age

    over : ℕ → Bool
    over = over_size max_size

    sorted : List EntryInfo
    sorted = sort_entries entries

    parts : List EntryInfo × List EntryInfo
    parts = evict_loop (λ path. true) past over (total_size entries) sorted

    split : parts.0 ++ parts.1 ≡ sorted
    split = evict_loop-split past over (total_size entries) sorted

    fits :
        max_size ≢ 0
        → (parts.1 ≡ []) ⊎ (over (total_size parts.1) ≡ false)
        → total_size parts.1 ≤ max_size
    fits on (inl none_left) = rw none_left (omega arith)
    fits on (inr quiet) = ground arith
