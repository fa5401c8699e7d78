-- ===== src/Pool/Handout.antt =====
-- The containers that Start hands out without booting one.
use hpcc.Prelude.{
  ℕ, ◌+◌, ◌≤◌, ◌<◌, ◌≡◌, ap, refl, sym, inl, inr, subst, true, false, ◌&&◌, some, List, [], ◌∷◌,
  Some, Bytes, bytes_eq_iff, arith, Bool-cases, Option-cases, ltb, leb, bytes_eq_refl,
}
use hpcc.Prelude.Cut.{last_injective}
use hpcc.Prelude.Assoc.{lookup-insert, lookup-erase}
use hpcc.Pool.{
  PooledEntry, PooledRuntime, Container, ContainerSpec, entry_usable, expired, start_begin,
  pool_key, prune_stale, borrow_entry, kept_of, can_reap, entries_at, put_entries, Begun, hit, miss,
  pool_closed,
}
use hpcc.Pool.World.{
  World, PooledContainer, Move, begins, move, moves, new_world, wrapped, new_pooled_container,
}
use hpcc.Pool.Invariant.{live, key_of, misfit, Inv, new_world-Inv}
use hpcc.Pool.Stops.{moves-Inv, move-Inv}
use hpcc.Pool.Dropped.{prune_stale-Dropped}
use hpcc.Pool.Changes.{borrow_entry-Exchanged, borrow_entry-usable}
use hpcc.Pool.Moves.{pruned, borrowed, begin_shut, begin_hit, begin_full, begin_miss, usable_room}
use hpcc.Pool.Isolation.{stops_of, running, Unbarred}

-- What Start hands out where it boots nothing.
pub record Handed (now : ℕ) (spec : ContainerSpec) (w : World) (c : Container) : Type 0 where
  pub tenant : c.tenant_id ≡ spec.tenant_id
  pub image : c.image_digest ≡ spec.image_digest
  pub running : stops_of c.id (move w (begins now spec)) ≡ 0
  pub booted : c.id < w.booted
  pub entry : PooledEntry
  pub pooled : Some (λ e. e ≡ entry) (entries_at (pool_key spec) w.pool.entries)
  pub of_container : entry.container ≡ c
  pub young : expired now entry.created_at w.pool.max_lifetime ≡ false
  pub room : entry.refs < entry.max_refs
  pub counted :
      Some
        (λ e. e ≡ record entry { refs = entry.refs + 1 })
        (entries_at (pool_key spec) (start_begin now spec w.pool).0.entries)

-- A usable entry is one of the list, and its count goes up there.
borrow_entry-Some :
    (now : ℕ) (p : PooledRuntime) (list : List PooledEntry) (e : PooledEntry)
    (list' : List PooledEntry)
    → borrow_entry now p list ≡ some (e, list')
    → Some (λ x. x ≡ e) list × Some (λ x. x ≡ record e { refs = e.refs + 1 }) list'
unfolding borrow_entry
borrow_entry-Some now p [] e list' h = absurd (let q : ⊥ = ground arith in q)
borrow_entry-Some now p (x ∷ list) e list' h = elim (Bool-cases (entry_usable now p x)) [
  | inl u ↦
      let same : x ≡ e = ground arith in
      let rest : (record x { refs = x.refs + 1 } ∷ list) ≡ list' = ground arith in
      (
        inl same,
        subst (Some (λ y. y ≡ record e { refs = e.refs + 1 })) rest
            (inl (ap (λ (y : PooledEntry). record y { refs = y.refs + 1 }) same)),
      )
  | inr u ↦ elim (Option-cases (borrow_entry now p list)) [
    | inl q ↦ absurd (let z : ⊥ = ground arith in z)
    | inr ((y, ys), q) ↦
        let same : y ≡ e = ground arith in
        let rest : (x ∷ ys) ≡ list' = ground arith in
        let (a, b) = borrow_entry-Some now p list y ys q in
        (
          inr (subst (λ z. Some (λ v. v ≡ z) list) same a),
          subst (Some (λ z. z ≡ record e { refs = e.refs + 1 })) rest (
              inr (
                subst (λ (z : PooledEntry). Some (λ v. v ≡ record z { refs = z.refs + 1 }) ys) same
                  b)),
        )
  ]
]

kept_of-Some :
    (now : ℕ) (p : PooledRuntime) (e : PooledEntry) (list : List PooledEntry)
    → Some (λ x. x ≡ e) (kept_of now p list)
    → Some (λ x. x ≡ e) list
unfolding kept_of
kept_of-Some now p e [] h = h
kept_of-Some now p e (x ∷ list) h = elim (Bool-cases (can_reap now p x)) [
  | inl u ↦ inr (kept_of-Some now p e list (rw u at h))
  | inr u ↦
      let k : Some (λ y. y ≡ e) (x ∷ kept_of now p list) = rw u at h in
      elim k [ inl same ↦ inl same | inr later ↦ inr (kept_of-Some now p e list later) ]
]

-- What is stored under a key with at least one entry is read there.
put_entries-at :
    (key : Bytes) (list : List PooledEntry) (m : List (Bytes × List PooledEntry))
    → entries_at key (put_entries key list m) ≡ list
unfolding put_entries entries_at
put_entries-at key [] m = ground (arith, lookup-erase key key m, bytes_eq_refl key)
put_entries-at key (e ∷ list) m =
    ground (arith, lookup-insert key key (e ∷ list) m, bytes_eq_refl key)

prune_stale-Some :
    (now : ℕ) (key : Bytes) (p : PooledRuntime) (e : PooledEntry)
    → Some (λ x. x ≡ e) (entries_at key (prune_stale now key p).0.entries)
    → Some (λ x. x ≡ e) (entries_at key p.entries)
unfolding prune_stale
prune_stale-Some now key p e h = from (entries_at key p.entries) refl h
  where
    from :
        (list : List PooledEntry)
        → entries_at key p.entries ≡ list
        → Some (λ x. x ≡ e) (entries_at key (prune_stale now key p).0.entries)
        → Some (λ x. x ≡ e) (entries_at key p.entries)
    from [] q k = rw (prune_stale, q) at k
    from (x ∷ list) q k =
        let inside : Some (λ y. y ≡ e)
            (entries_at key (put_entries key (kept_of now p (x ∷ list)) p.entries)) =
          rw (prune_stale, q) at k in
        let kept : Some (λ y. y ≡ e) (kept_of now p (x ∷ list)) =
          subst (Some (λ y. y ≡ e)) (put_entries-at key (kept_of now p (x ∷ list)) p.entries)
            inside in
        subst (Some (λ y. y ≡ e)) (sym q) (kept_of-Some now p e (x ∷ list) kept)

prune_lifetime :
    (now : ℕ) (key : Bytes) (p : PooledRuntime)
    → (prune_stale now key p).0.max_lifetime ≡ p.max_lifetime
unfolding prune_stale
prune_lifetime now key p = ground arith

usable_young :
    (now : ℕ) (p : PooledRuntime) (e : PooledEntry)
    → entry_usable now p e ≡ true
    → expired now e.created_at p.max_lifetime ≡ false
unfolding entry_usable
usable_young now p e h = ground arith

abbrev begun_of : PooledRuntime × List Container × Begun → Begun
begun_of r = r.2

key_of-fits :
    (spec : ContainerSpec) (e : PooledEntry)
    → misfit (pool_key spec) e ≡ 0
    → key_of e.container ≡ pool_key spec
key_of-fits spec e h = ground (arith, bytes_eq_iff (key_of e.container) (pool_key spec))

live-wrapped :
    (key : Bytes) (c : Container) (ws : List PooledContainer)
    → 1 ≤ live key c.id (wrapped (hit key c) ws)
unfolding wrapped live new_pooled_container
live-wrapped key c ws = ground (arith, bytes_eq_refl key)

module _ (now : ℕ) (spec : ContainerSpec) (w : World) (v : Inv w) (key : Bytes) (c : Container)
    (handed : (start_begin now spec w.pool).2 ≡ hit key c) where
  wrapper_lives : 1 ≤ live key c.id (move w (begins now spec)).wrappers
  unfolding move
  wrapper_lives = rw handed (live-wrapped key c w.wrappers)

  not_closed : w.pool.closed ≡ false
  not_closed = elim (Bool-cases w.pool.closed) [
    | inl shut ↦
        let e : (start_begin now spec w.pool).2 ≡ pool_closed =
          ap begun_of (begin_shut now spec w.pool shut) in
        absurd (let q : ⊥ = cc in q)
    | inr o ↦ o
  ]

  abbrev before : PooledRuntime
  before = pruned now spec w.pool not_closed

  found :
      (e : PooledEntry) × (list : List PooledEntry) × (borrowed now spec w.pool not_closed
        ≡ some (e, list))
      × (pool_key spec ≡ key)
      × (e.container ≡ c)
  found = elim (Option-cases (borrowed now spec w.pool not_closed)) [
    | inr ((e, list), q) ↦
        let b : (start_begin now spec w.pool).2 ≡ hit (pool_key spec) e.container =
          ap begun_of (begin_hit now spec w.pool not_closed e list q) in
        let keys : pool_key spec ≡ key = cc in
        let containers : e.container ≡ c = cc in (e, list, q, keys, containers)
    | inl q ↦ elim (Bool-cases (ltb 0 before.max_entries && leb before.max_entries before.total)) [
      | inl full ↦
          let b : (start_begin now spec w.pool).2 ≡ miss =
            ap begun_of (begin_full now spec w.pool not_closed q full) in
          absurd (let z : ⊥ = cc in z)
      | inr space ↦
          let b : (start_begin now spec w.pool).2 ≡ miss =
            ap begun_of (begin_miss now spec w.pool not_closed q space) in
          absurd (let z : ⊥ = cc in z)
    ]
  ]

  Handed-out : Unbarred c.image_digest → Unbarred spec.image_digest → Handed now spec w c
  unfolding pool_key move
  Handed-out u u' =
      let (e, list, q, keys, same) = found in
      let d = prune_stale-Dropped now (pool_key spec) w.pool v.distinct in
      let x = borrow_entry-Exchanged now (pool_key spec) before e list d.distinct q in
      let usable = borrow_entry-usable now before _ e list q in
      let member = borrow_entry-Some now before _ e list q in
      let run =
        running (move w (begins now spec)) key c.id (move-Inv w (begins now spec) v)
          wrapper_lives in
      let fits : misfit (pool_key spec) e ≡ 0 =
        omega (arith, x.counted misfit, d.fewer misfit, v.fit) in
      let fitting : key_of c ≡ pool_key spec =
        subst (λ b. key_of b ≡ pool_key spec) same (key_of-fits spec e fits) in
      let (tenants, images) =
        last_injective b'|' c.tenant_id spec.tenant_id c.image_digest spec.image_digest u u'
          fitting in
      record {
        tenant = tenants;
        image = images;
        running = run.0;
        booted = booted_before run.1;
        entry = e;
        pooled = prune_stale-Some now (pool_key spec) w.pool e member.0;
        counted =
            subst
              (λ (r : PooledRuntime × List Container × Begun).
                Some (λ y. y ≡ record e { refs = e.refs + 1 })
                  (entries_at (pool_key spec) r.0.entries))
              (sym (begin_hit now spec w.pool not_closed e list q))
              (subst (Some (λ y. y ≡ record e { refs = e.refs + 1 }))
                (sym (put_entries-at (pool_key spec) list before.entries)) member.1);
        of_container = same;
        young =
            subst (λ t. expired now e.created_at t ≡ false)
              (prune_lifetime now (pool_key spec) w.pool) (usable_young now before e usable);
        room = ground (arith, usable_room now before e usable);
      }
    where
      booted_before : c.id < (move w (begins now spec)).booted → c.id < w.booted
      booted_before h = h

-- After any moves of a new pool, a container that Start hands out without booting one was booted
-- for the tenant and the image of the request, if neither digest contains the separator "|"; its
-- Stop was not called, nor is it by this Start; and the pool has an entry of it under the key of
-- the request that is within the maximal lifetime and below its limit of references, whose count
-- of references is one higher behind the call.
pub start_begin-Handed :
    (idle max_life max : ℕ) (ms : List Move) (now : ℕ) (spec : ContainerSpec) (key : Bytes)
    (c : Container)
    → (start_begin now spec (moves (new_world idle max_life max) ms).pool).2 ≡ hit key c
    → Unbarred c.image_digest
    → Unbarred spec.image_digest
    → Handed now spec (moves (new_world idle max_life max) ms) c
start_begin-Handed idle max_life max ms now spec key c h u u' =
    Handed-out now spec (moves (new_world idle max_life max) ms)
      (moves-Inv (new_world idle max_life max) ms (new_world-Inv idle max_life max)) key c h u u'
