-- ===== src/Pool/Examples.antt =====
-- Runs of the pool, and the component's theorems at concrete inputs.
use hpcc.Prelude.{◌≡◌, refl, List, [], ◌∷◌, codes, bytes_eq, arith}
use hpcc.Prelude.Int.{pos}
use hpcc.Prelude.Assoc.{lookup, insert, erase}
use hpcc.Pool.{
  ContainerSpec, start_begin, start_finish, prune_stale, stale_of, kept_of, containers, put_entries,
  borrow_entry, entries_at, evict_oldest_free, release, take_entry, put_entry, unref, close_begin,
  close_finish, all_containers, keep_entries, reaped, evict_expired, new_pooled_runtime, pool_key,
  refs_limit, new_entry, entry_usable, can_reap, expired, oldest_free, remove_at, outstanding,
  any_held, oldest_in,
}
use hpcc.Pool.World.{
  World, Move, begins, boots, stops, closes, drains, reaps, move, moves, new_world, boot, wrapped,
  new_pooled_container, stop_once,
}
use hpcc.Pool.Invariant.{live, Inv, new_world-Inv}
use hpcc.Pool.Dropped.{sum_containers}
use hpcc.Pool.Stops.{move-Inv, moves-Inv}
use hpcc.Pool.Isolation.{stops_of, live_stops, drains_stop_all}
use hpcc.Pool.Handout.{Handed, start_begin-Handed}

abbrev spec : ContainerSpec
spec = record { tenant_id = codes "acme"; image_digest = codes "d1"; vcpus = pos 2 }

-- Two callers share the first container; one of them stops.
abbrev shared : List Move
shared = begins 10 spec ∷ boots 20 spec ∷ begins 30 spec ∷ stops 40 1 ∷ []

-- The other one stops too, and the pool is closed.
abbrev finished : List Move
finished = begins 10 spec ∷ boots 20 spec ∷ begins 30 spec ∷ stops 40 1 ∷ stops 50 0 ∷ closes ∷ []

abbrev first : World
first = new_world 1000 5000 4

-- Moves that run.
after : List Move → World
unfolding moves move new_world new_pooled_runtime start_begin start_finish prune_stale stale_of
    kept_of containers put_entries borrow_entry entries_at evict_oldest_free release take_entry
    put_entry unref close_begin close_finish all_containers keep_entries reaped evict_expired
    pool_key refs_limit new_entry boot wrapped new_pooled_container stop_once lookup insert erase
    bytes_eq entry_usable can_reap expired oldest_free oldest_in remove_at outstanding any_held live
    sum_containers
after ms = moves first ms

test : live (codes "acme|d1") 0 (after shared).wrappers ≡ 1
unfolding after
test = refl

live_stops_example : stops_of 0 (moves first shared) ≡ 0
unfolding after
live_stops_example = live_stops 1000 5000 4 shared (codes "acme|d1") 0 (omega arith)

drains_stop_all_example : stops_of 0 (move (moves first finished) drains) ≡ 1
unfolding after
drains_stop_all_example = drains_stop_all 1000 5000 4 finished 0 refl (λ key i. refl)

abbrev booted : List Move
booted = begins 10 spec ∷ boots 20 spec ∷ []

start_begin-Handed_example : Handed 30 spec (moves first booted) (boot 0 spec)
unfolding after
start_begin-Handed_example =
    start_begin-Handed 1000 5000 4 booted 30 spec (codes "acme|d1") (boot 0 spec) refl
      (λ e. omega arith, (λ e. omega arith, tt)) (λ e. omega arith, (λ e. omega arith, tt))

move-Inv_example : Inv (move (moves first booted) (reaps 9000))
move-Inv_example =
    move-Inv (moves first booted) (reaps 9000) (moves-Inv first booted (new_world-Inv 1000 5000 4))
