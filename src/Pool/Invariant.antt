-- ===== src/Pool/Invariant.antt =====
-- What holds of the pool, its wrappers and its containers after any moves.
use hpcc.Prelude.{
  ℕ, ◌+◌, ◌≡◌, refl, ◌∙◌, false, not, ◌&&◌, List, [], ◌∷◌, Bytes, bytes_eq, arith, if◌then◌else◌,
  ltb, leb, ◌==◌,
}
use hpcc.Prelude.Int.{pos}
use hpcc.Prelude.Assoc.{Distinct}
use hpcc.Pool.{PooledEntry, PooledRuntime, Container, pool_key, new_pooled_runtime}
use hpcc.Pool.Sums.{sum}
use hpcc.Pool.Dropped.{Dropped, Held, sum_containers, sum_containers-append, length-sum_containers}
use hpcc.Pool.Changes.{Exchanged}
use hpcc.Pool.World.{World, PooledContainer, new_pooled_container, with_pool, new_world}

-- The wrappers of a container under a key that were not stopped.
unfoldable pub live : Bytes → ℕ → List PooledContainer → ℕ
live key id [] = 0
live key id (w ∷ wrappers) =
    (if not w.stopped_once && (bytes_eq w.key key && (w.container.id == id)) then 1 else 0)
    + live key id wrappers

-- The count of an entry that has this key and this container.
abbrev pub refs_of : Bytes → ℕ → Bytes → PooledEntry → ℕ
refs_of key id k e = if bytes_eq k key && (e.container.id == id) then e.refs else 0

abbrev pub is_id : ℕ → Container → ℕ
is_id id c = if c.id == id then 1 else 0

-- The key under which a container's entry has to stand.
abbrev pub key_of : Container → Bytes
key_of c =
    pool_key (record { tenant_id = c.tenant_id; image_digest = c.image_digest; vcpus = pos 0 })

-- 1 for an entry that is held too often or that stands under a wrong key.
abbrev pub misfit : Bytes → PooledEntry → ℕ
misfit k e = if leb e.refs e.max_refs && bytes_eq (key_of e.container) k then 0 else 1

pub record Inv (w : World) : Type 0 where
  pub distinct : Distinct w.pool.entries
  pub total : w.pool.total ≡ sum (λ k e. 1) w.pool.entries
  pub held : (key : Bytes) (id : ℕ) → sum (refs_of key id) w.pool.entries ≡ live key id w.wrappers
  pub booted :
      (id : ℕ)
      → sum (λ k e. is_id id e.container) w.pool.entries + sum_containers (is_id id) w.stopped
        ≡ (if ltb id w.booted then 1 else 0)
  pub fit : sum misfit w.pool.entries ≡ 0

pub new_world-Inv : (idle max_life max : ℕ) → Inv (new_world idle max_life max)
unfolding new_world new_pooled_runtime sum live sum_containers
new_world-Inv idle max_life max = record {
  distinct = tt;
  total = refl;
  held = λ key id. refl;
  booted = λ id. ground arith;
  fit = refl;
}

refs_of-Held : (key : Bytes) (id : ℕ) → Held (refs_of key id)
refs_of-Held key id k e free = ground arith

pub with_pool-Inv :
    (w : World) (p : PooledRuntime) (out : List Container)
    → Inv w
    → Dropped w.pool p out
    → Inv (with_pool w p out)
with_pool-Inv w p out v d = record {
  distinct = d.distinct;
  total = omega (arith, v.total, d.total, d.booted (λ c. 1), length-sum_containers out);
  held = λ key id. d.held (refs_of key id) (refs_of-Held key id) ∙ v.held key id;
  booted = λ id.
      omega
        (arith, v.booted id, d.booted (is_id id), sum_containers-append (is_id id) out w.stopped);
  fit = omega (arith, v.fit, d.fewer misfit);
}

-- A caller gets hold of an entry that is there.
pub hit-Inv :
    (w : World) (p : PooledRuntime) (key : Bytes) (e : PooledEntry)
    → Inv w
    → Exchanged w.pool p key e (record e { refs = e.refs + 1 })
    → leb e.max_refs e.refs ≡ false
    → Inv (record w { pool = p; wrappers = new_pooled_container key e.container ∷ w.wrappers })
unfolding new_pooled_container live
hit-Inv w p key e v x room = record {
  distinct = x.distinct;
  total = omega (arith, v.total, x.total, x.sums (λ k u. 1));
  held = λ k id. ground (arith, v.held k id, x.sums (refs_of k id));
  booted = λ id. ground (arith, v.booted id, x.sums (λ k u. is_id id u.container));
  fit = ground (arith, v.fit, x.sums misfit, x.counted misfit);
}
