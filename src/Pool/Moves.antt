-- ===== src/Pool/Moves.antt =====
-- Every move keeps the invariant.
use hpcc.Prelude.{
  ℕ, zero, suc, ◌+◌, ◌≤◌, ◌≡◌, refl, inl, inr, true, false, ◌&&◌, Option, none, some, List, [], ◌∷◌,
  ◌++◌, arith, Bool-cases, Option-cases, ltb, leb, codes, bytes_eq_refl,
}
use hpcc.Prelude.Int.{ℤ, pos, negsuc}
use hpcc.Pool.{
  PooledEntry, PooledRuntime, Container, ContainerSpec, entries_at, put_entries, entry_usable,
  borrow_entry, start_begin, start_finish, new_entry, pool_key, refs_limit, prune_stale,
  evict_oldest_free, hit, miss, pool_closed,
}
use hpcc.Pool.Dropped.{Dropped, Dropped-none, Dropped-trans, sum_containers, prune_stale-Dropped}
use hpcc.Pool.Oldest.{evict_oldest_free-Dropped}
use hpcc.Pool.Changes.{borrow_entry-Exchanged, borrow_entry-usable, start_finish-sum}
use hpcc.Pool.World.{World, new_pooled_container, wrapped, boot, begins, boots, with_pool, move}
use hpcc.Pool.Invariant.{live, refs_of, is_id, misfit, Inv, with_pool-Inv, hit-Inv}

pub usable_room :
    (now : ℕ) (p : PooledRuntime) (e : PooledEntry)
    → entry_usable now p e ≡ true
    → leb e.max_refs e.refs ≡ false
unfolding entry_usable
usable_room now p e h = ground arith

-- The four ways through the first half of Start.
pub begin_shut :
    (now : ℕ) (spec : ContainerSpec) (p : PooledRuntime)
    → p.closed ≡ true
    → start_begin now spec p ≡ (p, [], pool_closed)
unfolding start_begin
begin_shut now spec p h = simp (h, start_begin) refl

module _ (now : ℕ) (spec : ContainerSpec) (p : PooledRuntime) (open_ : p.closed ≡ false) where
  abbrev pub pruned : PooledRuntime
  pruned = (prune_stale now (pool_key spec) p).0

  abbrev pub stale : List Container
  stale = (prune_stale now (pool_key spec) p).1

  abbrev pub borrowed : Option (PooledEntry × List PooledEntry)
  borrowed = borrow_entry now pruned (entries_at (pool_key spec) pruned.entries)

  pub begin_hit :
      (e : PooledEntry) (list : List PooledEntry)
      → borrowed ≡ some (e, list)
      → start_begin now spec p ≡ (
        record pruned { entries = put_entries (pool_key spec) list pruned.entries },
        stale,
        hit (pool_key spec) e.container,
      )
  unfolding start_begin
  begin_hit e list h = simp (h, open_, start_begin) refl

  pub begin_full :
      borrowed ≡ none
      → (ltb 0 pruned.max_entries && leb pruned.max_entries pruned.total) ≡ true
      → start_begin now spec p
        ≡ ((evict_oldest_free pruned).0, stale ++ (evict_oldest_free pruned).1, miss)
  unfolding start_begin
  begin_full h full = simp (h, full, open_, start_begin) refl

  pub begin_miss :
      borrowed ≡ none
      → (ltb 0 pruned.max_entries && leb pruned.max_entries pruned.total) ≡ false
      → start_begin now spec p ≡ (pruned, stale, miss)
  unfolding start_begin
  begin_miss h space = simp (h, space, open_, start_begin) refl

finish_shut :
    (now : ℕ) (spec : ContainerSpec) (c : Container) (p : PooledRuntime)
    → p.closed ≡ true
    → start_finish now spec c p ≡ (p, c ∷ [], false)
unfolding start_finish
finish_shut now spec c p h = simp (h, start_finish) refl

pub begins-Inv :
    (now : ℕ) (spec : ContainerSpec) (w : World) → Inv w → Inv (move w (begins now spec))
unfolding move wrapped
begins-Inv now spec w v = elim (Bool-cases w.pool.closed) [
  | inl shut ↦
      rw (begin_shut now spec w.pool shut)
        (with_pool-Inv w w.pool [] v (Dropped-none w.pool v.distinct))
  | inr open_ ↦ from_open open_
]
  where
    d :
        Dropped w.pool
          (prune_stale now (pool_key spec) w.pool).0
          (prune_stale now (pool_key spec) w.pool).1
    d = prune_stale-Dropped now (pool_key spec) w.pool v.distinct

    v1 : Inv (
        with_pool w
          (prune_stale now (pool_key spec) w.pool).0
          (prune_stale now (pool_key spec) w.pool).1)
    v1 = with_pool-Inv w _ _ v d

    from_open : w.pool.closed ≡ false → Inv (move w (begins now spec))
    from_open o = elim (Option-cases (borrowed now spec w.pool o)) [
      | inr ((e, list), found) ↦ rw (begin_hit now spec w.pool o e list found) (
          hit-Inv (with_pool w (pruned now spec w.pool o) (stale now spec w.pool o)) _
            (pool_key spec) e v1
            (borrow_entry-Exchanged now (pool_key spec) (pruned now spec w.pool o) e list d.distinct
              found)
            (usable_room now (pruned now spec w.pool o) e
              (borrow_entry-usable now (pruned now spec w.pool o) _ e list found)))
      | inl missed ↦
          elim (Bool-cases (
            ltb 0 (pruned now spec w.pool o).max_entries
            && leb (pruned now spec w.pool o).max_entries (pruned now spec w.pool o).total)) [
              | inl full ↦ rw (begin_full now spec w.pool o missed full) (
                  with_pool-Inv w _ _ v (
                    Dropped-trans w.pool (pruned now spec w.pool o) _ (stale now spec w.pool o) _ d
                      (evict_oldest_free-Dropped (pruned now spec w.pool o) d.distinct)))
              | inr space ↦ rw (begin_miss now spec w.pool o missed space) v1
            ]
    ]

refs_limit_pos : (n : ℤ) → 1 ≤ refs_limit n
unfolding refs_limit
refs_limit_pos (pos zero) = omega arith
refs_limit_pos (pos (suc n)) = omega arith
refs_limit_pos (negsuc n) = omega arith

finish_open :
    (now : ℕ) (spec : ContainerSpec) (c : Container) (p : PooledRuntime)
    → p.closed ≡ false
    → ((start_finish now spec c p).1 ≡ [])
      × ((start_finish now spec c p).2 ≡ true)
      × ((start_finish now spec c p).0.total ≡ p.total + 1)
unfolding start_finish
finish_open now spec c p h = (ground arith, ground arith, ground arith)

boot-misfit :
    (now : ℕ) (spec : ContainerSpec) (n : ℕ)
    → misfit (pool_key spec) (new_entry now spec (boot n spec)) ≡ 0
unfolding pool_key new_entry boot refs_limit
boot-misfit now spec n = ground (
  arith,
  refs_limit_pos spec.vcpus,
  bytes_eq_refl (spec.tenant_id ++ (codes "|" ++ spec.image_digest)),
)

-- A container with the next number counts once, in the pool or among the stopped ones.
pub boots-Inv : (now : ℕ) (spec : ContainerSpec) (w : World) → Inv w → Inv (move w (boots now spec))
unfolding move sum_containers boot new_entry live new_pooled_container
boots-Inv now spec w v = elim (Bool-cases w.pool.closed) [
  | inl shut ↦ rw (finish_shut now spec (boot w.booted spec) w.pool shut) (record {
    distinct = v.distinct;
    total = v.total;
    held = v.held;
    booted = λ id. ground (arith, v.booted id);
    fit = v.fit;
  })
  | inr o ↦
      let (d, s) = start_finish-sum now spec (boot w.booted spec) w.pool v.distinct o in
      let (none_out, handed, t) = finish_open now spec (boot w.booted spec) w.pool o in
      rw (none_out, handed)
        (record {
          distinct = d;
          total = omega (arith, v.total, t, s (λ k e. 1));
          held = λ key id. ground (arith, v.held key id, s (refs_of key id));
          booted = λ id. ground (arith, v.booted id, s (λ k e. is_id id e.container));
          fit = omega (arith, v.fit, s misfit, boot-misfit now spec w.booted);
        })
]
