-- ===== src/Pool/Starting.antt =====
-- Start of internal/worker/runtime/pool.go, with pruneStaleLocked and evictOldestFreeLocked.
use hpcc.Prelude.{
  ℕ, zero, suc, ◌+◌, ◌-◌, Bool, true, false, not, ◌&&◌, Option, none, some, List, [], ◌∷◌, ◌++◌,
  Bytes, ltb, leb, ◌==◌, if◌then◌else◌, length,
}
use hpcc.Prelude.Int.{ℤ, pos, negsuc}
use hpcc.Prelude.Assoc.{insert}
use hpcc.Pool.Entries.{
  ContainerSpec, Container, PooledEntry, PooledRuntime, pool_key, entries_at, put_entries,
  entry_usable, can_reap,
}

-- The entries of a list that are reaped, and the ones that stay.
unfoldable pub stale_of : ℕ → PooledRuntime → List PooledEntry → List PooledEntry
stale_of now p [] = []
stale_of now p (e ∷ list) =
    if can_reap now p e then e ∷ stale_of now p list else stale_of now p list

unfoldable pub kept_of : ℕ → PooledRuntime → List PooledEntry → List PooledEntry
kept_of now p [] = []
kept_of now p (e ∷ list) = if can_reap now p e then kept_of now p list else e ∷ kept_of now p list

unfoldable pub containers : List PooledEntry → List Container
containers [] = []
containers (e ∷ list) = e.container ∷ containers list

unfoldable pub prune_stale : ℕ → Bytes → PooledRuntime → PooledRuntime × List Container
prune_stale now key p = elim (entries_at key p.entries) [
  | [] ↦ (p, [])
  | e ∷ list ↦ (
    record p {
      entries = put_entries key (kept_of now p (e ∷ list)) p.entries;
      total = p.total - length (stale_of now p (e ∷ list));
    },
    containers (stale_of now p (e ∷ list)),
  )
]

-- The first usable entry, and the list in which its count is one higher.
unfoldable pub borrow_entry :
    ℕ → PooledRuntime → List PooledEntry → Option (PooledEntry × List PooledEntry)
borrow_entry now p [] = none
borrow_entry now p (e ∷ list) =
    let rest = borrow_entry now p list in
    if entry_usable now p e
    then some (e, record e { refs = e.refs + 1 } ∷ list)
    else elim rest [ none ↦ none | some (found, list') ↦ some (found, e ∷ list') ]

-- The free entry that has been free for longest: its key, its index and the time.
unfoldable pub oldest_in :
    Bytes → ℕ → List PooledEntry → Option (Bytes × ℕ × ℕ) → Option (Bytes × ℕ × ℕ)
oldest_in key i [] best = best
oldest_in key i (e ∷ list) best = oldest_in key (suc i) list (
    if not (e.refs == 0) then best else elim best [
      | none ↦ some (key, i, e.last_free)
      | some (k, j, t) ↦ if ltb e.last_free t then some (key, i, e.last_free) else some (k, j, t)
    ])

unfoldable pub oldest_free :
    List (Bytes × List PooledEntry) → Option (Bytes × ℕ × ℕ) → Option (Bytes × ℕ × ℕ)
oldest_free [] best = best
oldest_free ((key, list) ∷ m) best = oldest_free m (oldest_in key 0 list best)

-- The entry at an index, and the list without it; none stands for Go's index panic.
unfoldable pub remove_at : ℕ → List PooledEntry → Option (PooledEntry × List PooledEntry)
remove_at i [] = none
remove_at zero (e ∷ list) = some (e, list)
remove_at (suc i) (e ∷ list) = elim (remove_at i list) [
  | none ↦ none
  | some (found, list') ↦ some (found, e ∷ list')
]

unfoldable pub evict_oldest_free : PooledRuntime → PooledRuntime × List Container
evict_oldest_free p = elim (oldest_free p.entries none) [
  | none ↦ (p, [])
  | some (key, i, t) ↦ elim (remove_at i (entries_at key p.entries)) [
    | none ↦ (p, [])
    | some (e, list) ↦ (
      record p { entries = put_entries key list p.entries; total = p.total - 1 },
      e.container ∷ [],
    )
  ]
]

-- What Start does before it boots a container.
pub data Begun : Type 0 where
  pool_closed : Begun
  hit : Bytes → Container → Begun
  miss : Begun

-- Start up to the call of the inner runtime.
unfoldable pub start_begin :
    ℕ → ContainerSpec → PooledRuntime → PooledRuntime × List Container × Begun
start_begin now spec p =
    if p.closed
    then (p, [], pool_closed)
    else let (pruned, stale) = prune_stale now (pool_key spec) p in
      elim (borrow_entry now pruned (entries_at (pool_key spec) pruned.entries)) [
        | some (e, list) ↦ (
          record pruned { entries = put_entries (pool_key spec) list pruned.entries },
          stale,
          hit (pool_key spec) e.container,
        )
        | none ↦
            if ltb 0 pruned.max_entries && leb pruned.max_entries pruned.total
            then (let (after, evicted) = evict_oldest_free pruned in
                (after, stale ++ evicted, miss))
            else (pruned, stale, miss)
      ]

-- `int(spec.VCPUs)`, at least 1.
unfoldable pub refs_limit : ℤ → ℕ
refs_limit (pos zero) = 1
refs_limit (pos (suc n)) = suc n
refs_limit (negsuc n) = 1

unfoldable pub new_entry : ℕ → ContainerSpec → Container → PooledEntry
new_entry now spec c = record {
  container = c;
  created_at = now;
  refs = 1;
  max_refs = refs_limit spec.vcpus;
  last_free = now;
}

-- Start after the inner runtime has booted `c`: false where the pool was closed meanwhile.
unfoldable pub start_finish :
    ℕ → ContainerSpec → Container → PooledRuntime → PooledRuntime × List Container × Bool
start_finish now spec c p = if p.closed then (p, c ∷ [], false) else (
  record p {
    entries =
        insert (pool_key spec) (entries_at (pool_key spec) p.entries ++ (new_entry now spec c ∷ []))
          p.entries;
    total = p.total + 1;
  },
  [],
  true,
)
