-- ===== src/Pool/Stops.antt =====
-- A wrapper's Stop, and with it every move, keeps the invariant.
use hpcc.Prelude.{
  ℕ, zero, suc, ◌+◌, ◌-◌, ◌≤◌, ◌≡◌, refl, inl, inr, false, ◌&&◌, none, some, List, [], ◌∷◌, Bytes,
  bytes_eq, arith, Option-cases, if◌then◌else◌, ◌==◌, bytes_eq_refl,
}
use hpcc.Prelude.Assoc.{erase, Distinct}
use hpcc.Pool.{PooledEntry, entries_at, put_entries, take_entry, unref, close_begin}
use hpcc.Pool.Sums.{sum_list, sum}
use hpcc.Pool.Dropped.{evict_expired-Dropped, close_finish-Dropped}
use hpcc.Pool.Changes.{
  take_entry-none, take_entry-found, unreferenced, release-Exchanged, release-Dropped,
}
use hpcc.Pool.World.{
  World, PooledContainer, stop_once, Move, begins, boots, stops, closes, drains, reaps, move, moves,
}
use hpcc.Pool.Invariant.{live, refs_of, is_id, misfit, Inv, with_pool-Inv}
use hpcc.Pool.Sums.{sum-put_entries}
use hpcc.Pool.Moves.{begins-Inv, boots-Inv}

stop_once-live :
    (key : Bytes) (id n : ℕ) (ws : List PooledContainer) (c : PooledContainer)
    (ws' : List PooledContainer)
    → stop_once n ws ≡ some (c, ws')
    → live key id ws
      ≡ live key id ws' + (if bytes_eq c.key key && (c.container.id == id) then 1 else 0)
unfolding stop_once live
stop_once-live key id n [] c ws' h = absurd (let q : ⊥ = ground arith in q)
stop_once-live key id zero (x ∷ ws) c ws' h = ground arith
stop_once-live key id (suc n) (x ∷ ws) c ws' h = elim (Option-cases (stop_once n ws)) [
  | inl q ↦ absurd (let z : ⊥ = ground arith in z)
  | inr ((d, ds), q) ↦ ground (arith, stop_once-live key id n ws d ds q)
]

-- The references under a key are those of its list.
refs-other :
    (key : Bytes) (id : ℕ) (j : Bytes) (l : List PooledEntry)
    → bytes_eq j key ≡ false
    → sum_list (refs_of key id j) l ≡ 0
unfolding sum_list
refs-other key id j [] h = refl
refs-other key id j (e ∷ l) h = ground (arith, refs-other key id j l h)

erase-refs :
    (key : Bytes) (id : ℕ) (m : List (Bytes × List PooledEntry))
    → sum (refs_of key id) (erase key m) ≡ 0
unfolding erase sum
erase-refs key id [] = refl
erase-refs key id ((j, l) ∷ m) = ground (arith, erase-refs key id m, refs-other key id j l)

refs-entries_at :
    (key : Bytes) (id : ℕ) (m : List (Bytes × List PooledEntry))
    → Distinct m
    → sum (refs_of key id) m ≡ sum_list (refs_of key id key) (entries_at key m)
unfolding put_entries sum_list
refs-entries_at key id m d =
    omega (arith, sum-put_entries (refs_of key id) key [] m d, erase-refs key id m)

-- Where no entry has the container, nothing holds it.
unheld_list :
    (key : Bytes) (id : ℕ) (k : Bytes) (l : List PooledEntry)
    → sum_list (λ e. is_id id e.container) l ≡ 0
    → sum_list (refs_of key id k) l ≡ 0
unfolding sum_list
unheld_list key id k [] h = refl
unheld_list key id k (e ∷ l) h = ground (arith, unheld_list key id k l)

pub unheld :
    (key : Bytes) (id : ℕ) (m : List (Bytes × List PooledEntry))
    → sum (λ k e. is_id id e.container) m ≡ 0
    → sum (refs_of key id) m ≡ 0
unfolding sum
unheld key id [] h = refl
unheld key id ((k, l) ∷ m) h = ground (arith, unheld key id m, unheld_list key id k l)

unref-facts :
    (now : ℕ) (e : PooledEntry)
    → ((unref now e).refs ≡ e.refs - 1)
      × ((unref now e).container ≡ e.container)
      × ((unref now e).max_refs ≡ e.max_refs)
unfolding unref
unref-facts now e = (ground arith, ground arith, ground arith)

-- The entry that a wrapper holds, and one reference fewer.
module _ (now n : ℕ) (w : World) (v : Inv w) (c : PooledContainer) (ws : List PooledContainer)
    (found : stop_once n w.wrappers ≡ some (c, ws)) where
  holds : (id : ℕ) → c.container.id ≡ id → 1 ≤ sum (refs_of c.key id) w.pool.entries
  holds id same =
      ground (
        arith,
        v.held c.key id,
        stop_once-live c.key id n w.wrappers c ws found,
        bytes_eq_refl c.key,
      )

  entry_exists : take_entry c.container.id (entries_at c.key w.pool.entries) ≡ none → ⊥
  entry_exists h = omega (
    arith,
    holds c.container.id refl,
    refs-entries_at c.key c.container.id w.pool.entries v.distinct,
    take_entry-none c.container.id (refs_of c.key c.container.id c.key)
        (entries_at c.key w.pool.entries) h (λ e other. ground arith),
  )

  module _ (e : PooledEntry) (others : List PooledEntry)
      (taken : take_entry c.container.id (entries_at c.key w.pool.entries) ≡ some (e, others)) where
    abbrev id : ℕ
    id = c.container.id

    alone : sum (refs_of c.key id) (put_entries c.key others w.pool.entries) ≡ 0
    alone =
        let (same, without) = take_entry-found c.key id w.pool e others v.distinct taken in
        unheld c.key id (put_entries c.key others w.pool.entries)
          (ground (arith, without (λ k x. is_id id x.container), v.booted id))

    referenced : 1 ≤ e.refs
    referenced =
        let (same, without) = take_entry-found c.key id w.pool e others v.distinct taken in
        ground (arith, without (refs_of c.key id), alone, holds id refl)

    unreferenced-Inv : Inv (record w { pool = unreferenced now c.key id e w.pool; wrappers = ws })
    unreferenced-Inv =
        let x = release-Exchanged now c.key id w.pool e others v.distinct taken in
        let (same, without) = take_entry-found c.key id w.pool e others v.distinct taken in
        let (fewer, container, limit) = unref-facts now e in
        record {
          distinct = x.distinct;
          total = omega (arith, v.total, x.sums (λ k u. 1));
          held = λ k i. ground (
            arith,
            v.held k i,
            x.sums (refs_of k i),
            referenced,
            stop_once-live k i n w.wrappers c ws found,
          );
          booted = λ i. ground (arith, v.booted i, x.sums (λ k u. is_id i u.container));
          fit = ground (arith, v.fit, x.sums misfit, x.counted misfit);
        }

stops-Inv : (now n : ℕ) (w : World) → Inv w → Inv (move w (stops now n))
unfolding move
stops-Inv now n w v = elim (Option-cases (stop_once n w.wrappers)) [
  | inl done ↦ rw (done, move) v
  | inr ((c, ws), found) ↦
      elim (Option-cases (take_entry c.container.id (entries_at c.key w.pool.entries))) [
        | inl gone ↦ absurd (entry_exists now n w v c ws found gone)
        | inr ((e, others), taken) ↦
            rw (found, move)
              (with_pool-Inv
                (record w { pool = unreferenced now c.key c.container.id e w.pool; wrappers = ws })
                _ _ (unreferenced-Inv now n w v c ws found e others taken)
                (release-Dropped now c.key c.container.id w.pool e others v.distinct taken))
      ]
]

-- Every move keeps the invariant of the pool: the keys are distinct, total is the number of
-- entries, the count of an entry is the number of its wrappers that are held, each booted
-- container is either in the pool once or was stopped once, no entry is above its limit, and each
-- stands under the key of its container.
pub move-Inv : (w : World) (m : Move) → Inv w → Inv (move w m)
unfolding move close_begin
move-Inv w (begins now spec) v = begins-Inv now spec w v
move-Inv w (boots now spec) v = boots-Inv now spec w v
move-Inv w (stops now n) v = stops-Inv now n w v
move-Inv w closes v = record {
  distinct = v.distinct;
  total = v.total;
  held = v.held;
  booted = v.booted;
  fit = v.fit;
}
move-Inv w drains v = with_pool-Inv w _ _ v (close_finish-Dropped w.pool v.distinct v.total)
move-Inv w (reaps now) v = with_pool-Inv w _ _ v (evict_expired-Dropped now w.pool v.distinct)

pub moves-Inv : (w : World) (ms : List Move) → Inv w → Inv (moves w ms)
unfolding moves
moves-Inv w [] v = v
moves-Inv w (m ∷ ms) v = moves-Inv (move w m) ms (move-Inv w m v)
