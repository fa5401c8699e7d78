-- ===== src/Pool/Ending.antt =====
-- The release of an entry, Close, evictExpired and EntriesByTenant of
-- internal/worker/runtime/pool.go.
use hpcc.Prelude.{
  ℕ, ◌+◌, ◌-◌, Bool, true, false, not, ◌&&◌, Option, none, some, List, [], ◌∷◌, ◌++◌, Bytes, ltb,
  ◌==◌, if◌then◌else◌, length, cut_byte,
}
use hpcc.Prelude.Assoc.{lookup, insert}
use hpcc.Pool.Entries.{Container, PooledEntry, PooledRuntime, entries_at, put_entries, expired}
use hpcc.Pool.Starting.{stale_of, kept_of, containers}

-- The entry of a container, and the list without it.
unfoldable pub take_entry : ℕ → List PooledEntry → Option (PooledEntry × List PooledEntry)
take_entry id [] = none
take_entry id (e ∷ list) =
    let rest = take_entry id list in
    if e.container.id == id
    then some (e, list)
    else elim rest [ none ↦ none | some (found, list') ↦ some (found, e ∷ list') ]

-- The list with the entry of a container replaced.
unfoldable pub put_entry : ℕ → PooledEntry → List PooledEntry → List PooledEntry
put_entry id new [] = []
put_entry id new (e ∷ list) = if e.container.id == id then new ∷ list else e ∷ put_entry id new list

-- The entry once its count went down, and its time stamped where it is free now. Only a holder
-- releases, so the count is never 0 before.
unfoldable pub unref : ℕ → PooledEntry → PooledEntry
unref now e =
    if e.refs == 1 then record e { refs = 0; last_free = now } else record e { refs = e.refs - 1 }

-- An entry that left the map is changed through its pointer alone, which nothing reads.
unfoldable pub release : ℕ → Bytes → ℕ → PooledRuntime → PooledRuntime × List Container
release now key id p = elim (take_entry id (entries_at key p.entries)) [
  | none ↦ (p, [])
  | some (e, others) ↦
      if (e.refs == 1) && expired now e.created_at p.max_lifetime
      then (
        record p { entries = put_entries key others p.entries; total = p.total - 1 },
        e.container ∷ [],
      )
      else (
        record p {
          entries =
              put_entries key (put_entry id (unref now e) (entries_at key p.entries)) p.entries;
        },
        [],
      )
]

unfoldable pub any_held : List PooledEntry → Bool
any_held [] = false
any_held (e ∷ list) = if ltb 0 e.refs then true else any_held list

unfoldable pub outstanding : List (Bytes × List PooledEntry) → Bool
outstanding [] = false
outstanding ((key, list) ∷ m) = if any_held list then true else outstanding m

-- Close up to its wait.
unfoldable pub close_begin : PooledRuntime → PooledRuntime
close_begin p = record p { closed = true }

unfoldable pub all_containers : List (Bytes × List PooledEntry) → List Container
all_containers [] = []
all_containers ((key, list) ∷ m) = containers list ++ all_containers m

-- Close once the wait is over, which it is where no entry is held.
unfoldable pub close_finish : PooledRuntime → PooledRuntime × List Container
close_finish p =
    if p.closed && not (outstanding p.entries)
    then (record p { entries = []; total = 0 }, all_containers p.entries)
    else (p, [])

-- The map and the containers after evictExpired has gone over the entries.
unfoldable pub keep_entries :
    ℕ → PooledRuntime → List (Bytes × List PooledEntry) → List (Bytes × List PooledEntry)
keep_entries now p [] = []
keep_entries now p ((key, list) ∷ m) = elim (kept_of now p list) [
  | [] ↦ keep_entries now p m
  | e ∷ kept ↦ (key, e ∷ kept) ∷ keep_entries now p m
]

unfoldable pub reaped : ℕ → PooledRuntime → List (Bytes × List PooledEntry) → List Container
reaped now p [] = []
reaped now p ((key, list) ∷ m) = containers (stale_of now p list) ++ reaped now p m

unfoldable pub evict_expired : ℕ → PooledRuntime → PooledRuntime × List Container
evict_expired now p = (
  record p {
    entries = keep_entries now p p.entries;
    total = p.total - length (reaped now p p.entries);
  },
  reaped now p p.entries,
)

-- `out[tenant] += len(list)` for each key, whose tenant is the part before the first "|".
unfoldable pub add_to : Bytes → ℕ → List (Bytes × ℕ) → List (Bytes × ℕ)
add_to tenant n out = elim (lookup tenant out) [
  | none ↦ insert tenant n out
  | some k ↦ insert tenant (k + n) out
]

pub key_tenant : Bytes → Bytes
key_tenant key = elim (cut_byte b'|' key) [ none ↦ key | some (tenant, _) ↦ tenant ]

unfoldable pub entries_by_tenant :
    List (Bytes × List PooledEntry) → List (Bytes × ℕ) → List (Bytes × ℕ)
unfolding add_to key_tenant
entries_by_tenant [] out = out
entries_by_tenant ((key, list) ∷ m) out =
    entries_by_tenant m (add_to (key_tenant key) (length list) out)
