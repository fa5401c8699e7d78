-- ===== src/Pool/World.antt =====
-- The pool with the wrappers that its callers hold, and the moves that its methods make. A wrapper
-- is named by the order in which it was handed out; `booted` counts the containers that the inner
-- runtime has booted, and `stopped` lists those whose Stop was called.
use hpcc.Prelude.{
  ℕ, zero, suc, ◌+◌, Bool, true, false, Option, none, some, List, [], ◌∷◌, ◌++◌, Bytes,
  if◌then◌else◌,
}
use hpcc.Pool.{
  PooledRuntime, Container, ContainerSpec, Begun, pool_closed, hit, miss, start_begin, start_finish,
  pool_key, release, close_begin, close_finish, evict_expired, new_pooled_runtime,
}

pub record PooledContainer : Type 0 where
  pub key : Bytes
  pub container : Container
  pub stopped_once : Bool

pub record World : Type 0 where
  pub pool : PooledRuntime
  pub wrappers : List PooledContainer
  pub booted : ℕ
  pub stopped : List Container

unfoldable pub new_pooled_container : Bytes → Container → PooledContainer
new_pooled_container key c = record { key = key; container = c; stopped_once = false }

unfoldable pub wrapped : Begun → List PooledContainer → List PooledContainer
wrapped (hit key c) wrappers = new_pooled_container key c ∷ wrappers
wrapped pool_closed wrappers = wrappers
wrapped miss wrappers = wrappers

-- What the inner runtime boots for a spec.
unfoldable pub boot : ℕ → ContainerSpec → Container
boot n spec = record { id = n; tenant_id = spec.tenant_id; image_digest = spec.image_digest }

-- The wrapper at an index, where its Stop was not called yet, and the wrappers after it.
unfoldable pub stop_once :
    ℕ → List PooledContainer → Option (PooledContainer × List PooledContainer)
stop_once n [] = none
stop_once zero (w ∷ wrappers) =
    if w.stopped_once then none else some (w, record w { stopped_once = true } ∷ wrappers)
stop_once (suc n) (w ∷ wrappers) = elim (stop_once n wrappers) [
  | none ↦ none
  | some (found, wrappers') ↦ some (found, w ∷ wrappers')
]

pub data Move : Type 0 where
  begins : ℕ → ContainerSpec → Move
  boots : ℕ → ContainerSpec → Move
  stops : ℕ → ℕ → Move
  closes : Move
  drains : Move
  reaps : ℕ → Move

-- The state with a new pool and with more containers stopped.
abbrev pub with_pool : World → PooledRuntime → List Container → World
with_pool w p out = record w { pool = p; stopped = out ++ w.stopped }

unfoldable pub move : World → Move → World
move w (begins now spec) =
    let (p, out, begun) = start_begin now spec w.pool in
    record (with_pool w p out) { wrappers = wrapped begun w.wrappers }
move w (boots now spec) =
    let (p, out, kept) = start_finish now spec (boot w.booted spec) w.pool in
    record (with_pool w p out) {
      booted = w.booted + 1;
      wrappers =
          (if kept
            then new_pooled_container (pool_key spec) (boot w.booted spec) ∷ w.wrappers
            else w.wrappers);
    }
move w (stops now n) = elim (stop_once n w.wrappers) [
  | none ↦ w
  | some (c, wrappers) ↦
      let (p, out) = release now c.key c.container.id w.pool in
      record (with_pool w p out) { wrappers = wrappers }
]
move w closes = record w { pool = close_begin w.pool }
move w drains = let (p, out) = close_finish w.pool in with_pool w p out
move w (reaps now) = let (p, out) = evict_expired now w.pool in with_pool w p out

unfoldable pub moves : World → List Move → World
moves w [] = w
moves w (m ∷ ms) = moves (move w m) ms

unfoldable pub new_world : ℕ → ℕ → ℕ → World
new_world idle_ttl max_lifetime max_entries = record {
  pool = new_pooled_runtime idle_ttl max_lifetime max_entries;
  wrappers = [];
  booted = 0;
  stopped = [];
}
