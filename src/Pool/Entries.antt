-- ===== src/Pool/Entries.antt =====
-- The entries of the pool of internal/worker/runtime/pool.go, its limits, and when an entry can be
-- lent out or taken down.
use hpcc.Prelude.{
  ℕ, ◌+◌, ◌/◌, Bool, true, false, ◌&&◌, Option, none, some, List, [], ◌∷◌, ◌++◌, Bytes, codes, ltb,
  leb, if◌then◌else◌,
}
use hpcc.Prelude.Int.{ℤ}
use hpcc.Prelude.Assoc.{lookup, insert, erase}

pub record ContainerSpec : Type 0 where
  pub tenant_id : Bytes
  pub image_digest : Bytes
  pub vcpus : ℤ

-- A container that the inner runtime booted.
pub record Container : Type 0 where
  pub id : ℕ
  pub tenant_id : Bytes
  pub image_digest : Bytes

pub record PooledEntry : Type 0 where
  pub container : Container
  pub created_at : ℕ
  pub refs : ℕ
  pub max_refs : ℕ
  pub last_free : ℕ

-- Durations and times are nanoseconds; 0 turns a limit off.
pub record PooledRuntime : Type 0 where
  pub idle_ttl : ℕ
  pub max_lifetime : ℕ
  pub max_entries : ℕ
  pub entries : List (Bytes × List PooledEntry)
  pub total : ℕ
  pub closed : Bool

unfoldable pub new_pooled_runtime : ℕ → ℕ → ℕ → PooledRuntime
new_pooled_runtime idle_ttl max_lifetime max_entries = record {
  idle_ttl = idle_ttl;
  max_lifetime = max_lifetime;
  max_entries = max_entries;
  entries = [];
  total = 0;
  closed = false;
}

-- None where neither clock is on, so that no reaper runs.
unfoldable pub reaper_interval : PooledRuntime → Option ℕ
reaper_interval p =
    if ltb 0 p.idle_ttl && ltb 0 p.max_lifetime
    then some ((if ltb p.max_lifetime p.idle_ttl then p.max_lifetime else p.idle_ttl) / 2)
    else if ltb 0 p.idle_ttl
    then some (p.idle_ttl / 2)
    else if ltb 0 p.max_lifetime
    then some (p.max_lifetime / 2)
    else none

unfoldable pub pool_key : ContainerSpec → Bytes
pool_key spec = spec.tenant_id ++ (codes "|" ++ spec.image_digest)

-- `p.entries[key]`, which is empty for a missing key.
unfoldable pub entries_at : Bytes → List (Bytes × List PooledEntry) → List PooledEntry
entries_at key m = elim (lookup key m) [ none ↦ [] | some list ↦ list ]

-- An empty list is deleted, any other one is stored.
unfoldable pub put_entries :
    Bytes → List PooledEntry → List (Bytes × List PooledEntry) → List (Bytes × List PooledEntry)
put_entries key [] m = erase key m
put_entries key (e ∷ list) m = insert key (e ∷ list) m

-- `max > 0 && time.Since(since) > max`.
unfoldable pub expired : ℕ → ℕ → ℕ → Bool
expired now since max = ltb 0 max && ltb (since + max) now

unfoldable pub entry_usable : ℕ → PooledRuntime → PooledEntry → Bool
entry_usable now p e =
    if leb e.max_refs e.refs
    then false
    else if expired now e.created_at p.max_lifetime
    then false
    else true

unfoldable pub can_reap : ℕ → PooledRuntime → PooledEntry → Bool
can_reap now p e =
    if ltb 0 e.refs
    then false
    else if expired now e.last_free p.idle_ttl
    then true
    else if expired now e.created_at p.max_lifetime
    then true
    else false
