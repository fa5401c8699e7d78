-- ===== src/Pool/Oldest.antt =====
-- evictOldestFreeLocked: the index that it finds is one of a free entry.
use hpcc.Prelude.{
  ℕ, zero, suc, ◌+◌, ◌≡◌, refl, inl, inr, not, Option, none, some, List, [], ◌∷◌, Bytes,
  bytes_eq_iff, arith, Bool-cases, Option-cases, if◌then◌else◌, ltb, ◌==◌, drop, All, ==_iff,
}
use hpcc.Prelude.Assoc.{lookup, Distinct, Fresh}
use hpcc.Pool.{
  PooledEntry, PooledRuntime, entries_at, put_entries, oldest_in, oldest_free, remove_at,
  evict_oldest_free,
}
use hpcc.Pool.Sums.{sum_list, sum, sum-put_entries, put_entries-Distinct}
use hpcc.Pool.Dropped.{Dropped, Dropped-none, sum_containers}

abbrev Best : Type 0
Best = Option (Bytes × ℕ × ℕ)

-- The key and the index name a free entry of the map.
abbrev Spot : List (Bytes × List PooledEntry) → Best → Type 0
Spot m none = Unit {0}
Spot m (some (key, i, t)) =
    (e : PooledEntry) × (list : List PooledEntry) × (remove_at i (entries_at key m)
      ≡ some (e, list))
    × (e.refs ≡ 0)

drop-suc :
    (i : ℕ) (list : List PooledEntry) (e : PooledEntry) (rest : List PooledEntry)
    → drop i list ≡ e ∷ rest
    → drop (suc i) list ≡ rest
drop-suc zero [] e rest h = absurd (let q : ⊥ = ground arith in q)
drop-suc zero (x ∷ list) e rest h = ground arith
drop-suc (suc i) [] e rest h = absurd (let q : ⊥ = ground arith in q)
drop-suc (suc i) (x ∷ list) e rest h = drop-suc i list e rest h

remove_at-drop :
    (i : ℕ) (list : List PooledEntry) (e : PooledEntry) (rest : List PooledEntry)
    → drop i list ≡ e ∷ rest
    → (others : List PooledEntry) × (remove_at i list ≡ some (e, others))
unfolding remove_at
remove_at-drop zero [] e rest h = absurd (let q : ⊥ = ground arith in q)
remove_at-drop zero (x ∷ list) e rest h = (list, ground arith)
remove_at-drop (suc i) [] e rest h = absurd (let q : ⊥ = ground arith in q)
remove_at-drop (suc i) (x ∷ list) e rest h =
    let (others, q) = remove_at-drop i list e rest h in (x ∷ others, rw (q, remove_at) refl)

oldest_in-Spot :
    (m : List (Bytes × List PooledEntry)) (key : Bytes) (i : ℕ) (list : List PooledEntry)
    (best : Best)
    → drop i (entries_at key m) ≡ list
    → Spot m best
    → Spot m (oldest_in key i list best)
unfolding oldest_in
oldest_in-Spot m key i [] best d s = s
oldest_in-Spot m key i (e ∷ list) best d s =
    oldest_in-Spot m key (suc i) list _ (drop-suc i (entries_at key m) e list d) (next best s)
  where
    here : e.refs ≡ 0 → (t : ℕ) → Spot m (some (key, i, t))
    here free t =
        let (others, q) = remove_at-drop i (entries_at key m) e list d in (e, others, q, free)

    next :
        (b : Best)
        → Spot m b
        → Spot m (
            if not (e.refs == 0) then b else elim b [
              | none ↦ some (key, i, e.last_free)
              | some (k, j, t) ↦
                  if ltb e.last_free t then some (key, i, e.last_free) else some (k, j, t)
            ])
    next none s' = elim (Bool-cases (e.refs == 0)) [
      | inl z ↦ rw z (here ((==_iff e.refs 0).0 z) e.last_free)
      | inr z ↦ rw z tt
    ]
    next (some (k, j, t)) s' = elim (Bool-cases (e.refs == 0)) [
      | inr z ↦ rw z s'
      | inl z ↦ elim (Bool-cases (ltb e.last_free t)) [
        | inl older ↦ rw (z, older) (here ((==_iff e.refs 0).0 z) e.last_free)
        | inr newer ↦ rw (z, newer) s'
      ]
    ]

oldest_free-Spot :
    (whole m : List (Bytes × List PooledEntry)) (best : Best)
    → All (λ kv. lookup kv.0 whole ≡ some kv.1) m
    → Spot whole best
    → Spot whole (oldest_free m best)
unfolding oldest_free entries_at
oldest_free-Spot whole [] best a s = s
oldest_free-Spot whole ((key, list) ∷ m) best a s =
    oldest_free-Spot whole m (oldest_in key 0 list best) a.1
      (oldest_in-Spot whole key 0 list best (at_key a.0) s)
  where
    at_key : lookup key whole ≡ some list → drop 0 (entries_at key whole) ≡ list
    at_key e = rw (e, entries_at) refl

Distinct-found :
    (whole m : List (Bytes × List PooledEntry))
    → All (λ kv. lookup kv.0 whole ≡ some kv.1) m
    → (key : Bytes) (list : List PooledEntry) → Fresh key whole
    → All (λ kv. lookup kv.0 ((key, list) ∷ whole) ≡ some kv.1) m
unfolding lookup
Distinct-found whole [] a key list d = tt
Distinct-found whole ((j, l) ∷ m) a key list d =
    (ground (arith, a.0, bytes_eq_iff key j), Distinct-found whole m a.1 key list d)

All-found :
    (m : List (Bytes × List PooledEntry)) → Distinct m → All (λ kv. lookup kv.0 m ≡ some kv.1) m
unfolding lookup
All-found [] d = tt
All-found ((key, list) ∷ m) d =
    (ground (arith, bytes_eq_iff key key), Distinct-found m m (All-found m d.1) key list d.0)

remove_at-sum :
    (g : PooledEntry → ℕ) (i : ℕ) (list : List PooledEntry) (e : PooledEntry)
    (others : List PooledEntry)
    → remove_at i list ≡ some (e, others)
    → sum_list g others + g e ≡ sum_list g list
unfolding remove_at sum_list
remove_at-sum g i [] e others h = absurd (let q : ⊥ = ground arith in q)
remove_at-sum g zero (x ∷ list) e others h = ground arith
remove_at-sum g (suc i) (x ∷ list) e others h = elim (Option-cases (remove_at i list)) [
  | inl q ↦ absurd (let z : ⊥ = ground arith in z)
  | inr ((y, ys), q) ↦ ground (arith, remove_at-sum g i list y ys q)
]

evict_from :
    (p : PooledRuntime) (best : Best)
    → Distinct p.entries
    → oldest_free p.entries none ≡ best
    → Spot p.entries best
    → Dropped p (evict_oldest_free p).0 (evict_oldest_free p).1
unfolding evict_oldest_free sum_containers
evict_from p none d q s = rw (q, evict_oldest_free) (Dropped-none p d)
evict_from p (some (key, i, t)) d q (e, others, found, free) =
    rw (q, found, evict_oldest_free)
      (record {
        distinct = put_entries-Distinct key others p.entries d;
        fewer = λ f. omega (arith, changed f);
        held = λ f h. omega (arith, changed f, h key e free);
        booted = λ h. omega (arith, changed (λ k v. h v.container));
        total = refl;
        closed = refl;
      })
  where
    changed :
        (f : Bytes → PooledEntry → ℕ)
        → sum f (put_entries key others p.entries) + f key e ≡ sum f p.entries
    changed f = omega (
      arith,
      sum-put_entries f key others p.entries d,
      remove_at-sum (f key) i (entries_at key p.entries) e others found,
    )

pub evict_oldest_free-Dropped :
    (p : PooledRuntime)
    → Distinct p.entries
    → Dropped p (evict_oldest_free p).0 (evict_oldest_free p).1
evict_oldest_free-Dropped p d =
    evict_from p _ d refl (oldest_free-Spot p.entries p.entries none (All-found p.entries d) tt)
