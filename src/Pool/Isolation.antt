-- ===== src/Pool/Isolation.antt =====
-- What the pool promises its callers: a container of their own key that runs while it is held.
use hpcc.Prelude.{
  ℕ, ◌*◌, ◌≤◌, ◌<◌, ◌≡◌, ◌≢◌, refl, ◌∙◌, ap, inl, inr, true, false, none, some, List, [], ◌∷◌,
  Bytes, arith, Bool-cases, if◌then◌else◌, ltb, bytes_eq_refl, ◌↔◌,
}
use hpcc.Prelude.Cut.{Without}
use hpcc.Pool.{PooledEntry, PooledRuntime, any_held, outstanding, reaper_interval, close_finish}
use hpcc.Pool.Sums.{sum_list, sum}
use hpcc.Pool.Dropped.{sum_containers}
use hpcc.Pool.World.{World, Move, drains, move, moves, new_world}
use hpcc.Pool.Invariant.{live, refs_of, is_id, Inv, new_world-Inv}
use hpcc.Pool.Stops.{unheld, moves-Inv, move-Inv}

-- How often a container's Stop was called.
abbrev pub stops_of : ℕ → World → ℕ
stops_of id w = sum_containers (is_id id) w.stopped

pub running :
    (w : World) (key : Bytes) (id : ℕ)
    → Inv w
    → 1 ≤ live key id w.wrappers
    → (stops_of id w ≡ 0) × (id < w.booted)
running w key id v h =
    elim (Bool-cases (ltb 0 (sum (λ k e. is_id id e.container) w.pool.entries))) [
      | inl there ↦ (ground (arith, v.booted id), ground (arith, v.booted id))
      | inr nowhere ↦
          absurd (let q : ⊥ = ground (arith, unheld key id w.pool.entries, v.held key id) in q)
    ]

-- After any moves of a new pool, in any order, as long as a wrapper of a container is held that
-- was not stopped, the Stop of this container was not called: no reaper, eviction, release or
-- Close tears down a container in use.
pub live_stops :
    (idle max_life max : ℕ) (ms : List Move) (key : Bytes) (id : ℕ)
    → 1 ≤ live key id (moves (new_world idle max_life max) ms).wrappers
    → stops_of id (moves (new_world idle max_life max) ms) ≡ 0
live_stops idle max_life max ms key id h =
    (running (moves (new_world idle max_life max) ms) key id
      (moves-Inv (new_world idle max_life max) ms (new_world-Inv idle max_life max)) h).0

-- Where nothing is referenced, nothing is outstanding.
unheld-any_held :
    (key : Bytes) (l : List PooledEntry)
    → ((id : ℕ) → sum_list (refs_of key id key) l ≡ 0)
    → any_held l ≡ false
unfolding any_held sum_list
unheld-any_held key [] h = refl
unheld-any_held key (e ∷ l) h =
    ground (
      arith,
      h e.container.id,
      bytes_eq_refl key,
      unheld-any_held key l (λ id. omega (arith, h id)),
    )

unheld-outstanding :
    (m : List (Bytes × List PooledEntry))
    → ((key : Bytes) (id : ℕ) → sum (refs_of key id) m ≡ 0)
    → outstanding m ≡ false
unfolding outstanding sum
unheld-outstanding [] h = refl
unheld-outstanding ((key, l) ∷ m) h = ground (
  arith,
  unheld-any_held key l (λ id. omega (arith, h key id)),
  unheld-outstanding m (λ k id. omega (arith, h k id)),
)

drained_stops :
    (w : World)
    → Inv w
    → w.pool.closed ≡ true
    → ((key : Bytes) (id : ℕ) → live key id w.wrappers ≡ 0)
    → (id : ℕ) → stops_of id (move w drains) ≡ (if ltb id w.booted then 1 else 0)
unfolding move close_finish sum
drained_stops w v shut free id =
    let none_out : outstanding w.pool.entries ≡ false =
      unheld-outstanding w.pool.entries (λ key i. v.held key i ∙ free key i) in
    let gone : (move w drains).pool.entries ≡ [] = ground arith in
    let after = (move-Inv w drains v).booted id in
    let nothing : sum (λ k e. is_id id e.container) (move w drains).pool.entries ≡ 0 =
      ap (sum (λ k e. is_id id e.container)) gone in
    ground (arith, nothing, after)

-- Once the pool is closed and no wrapper is held, after any moves, the end of Close leaves every
-- container that the inner runtime ever booted with its Stop called exactly once, so none leaks
-- and none is stopped twice.
pub drains_stop_all :
    (idle max_life max : ℕ) (ms : List Move) (id : ℕ)
    → (moves (new_world idle max_life max) ms).pool.closed ≡ true
    → ((key : Bytes) (i : ℕ) → live key i (moves (new_world idle max_life max) ms).wrappers ≡ 0)
    → stops_of id (move (moves (new_world idle max_life max) ms) drains)
      ≡ (if ltb id (moves (new_world idle max_life max) ms).booted then 1 else 0)
drains_stop_all idle max_life max ms id shut free =
    drained_stops (moves (new_world idle max_life max) ms)
      (moves-Inv (new_world idle max_life max) ms (new_world-Inv idle max_life max)) shut free id

-- No "|" in a digest.
abbrev pub Unbarred : Bytes → Type 0
Unbarred = Without b'|'

-- The reaper stays off exactly when both clocks are off, and else its interval is at most half of
-- each clock that is on.
pub reaper_interval-half :
    (p : PooledRuntime)
    → ((reaper_interval p ≡ none) ↔ ((p.idle_ttl ≡ 0) × (p.max_lifetime ≡ 0)))
      × ((n : ℕ)
          → reaper_interval p ≡ some n
          → (p.idle_ttl ≢ 0 → 2 * n ≤ p.idle_ttl) × (p.max_lifetime ≢ 0 → 2 * n ≤ p.max_lifetime))
unfolding reaper_interval
reaper_interval-half p = (
  (λ h. (ground arith, ground arith), λ h. ground arith),
  λ n h. (λ on. ground arith, λ on. ground arith),
)
