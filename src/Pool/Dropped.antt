-- ===== src/Pool/Dropped.antt =====
-- The operations that only take free entries out: what they keep, and what they stop.
use hpcc.Prelude.{
  ℕ, suc, ◌+◌, ◌-◌, ◌≤◌, ◌≡◌, refl, sym, ◌∙◌, ap, inl, inr, true, false, not, ◌&&◌, List, [], ◌∷◌,
  ◌++◌, Bytes, arith, Bool-cases, length, length-append,
}
use hpcc.Prelude.Assoc.{lookup, Distinct, Fresh}
use hpcc.Pool.{
  PooledEntry, PooledRuntime, Container, entries_at, can_reap, stale_of, kept_of, containers,
  prune_stale, any_held, outstanding, all_containers, close_finish, keep_entries, reaped,
  evict_expired,
}
use hpcc.Pool.Sums.{sum_list, sum, sum-put_entries, put_entries-Distinct}

unfoldable pub sum_containers : (Container → ℕ) → List Container → ℕ
sum_containers h [] = 0
sum_containers h (c ∷ list) = h c + sum_containers h list

pub sum_containers-append :
    (h : Container → ℕ) (xs ys : List Container)
    → sum_containers h (xs ++ ys) ≡ sum_containers h xs + sum_containers h ys
unfolding sum_containers
sum_containers-append h [] ys = omega arith
sum_containers-append h (c ∷ xs) ys = omega (arith, sum_containers-append h xs ys)

-- A count that free entries do not enter.
abbrev pub Held : (Bytes → PooledEntry → ℕ) → Type 0
Held f = (k : Bytes) (e : PooledEntry) → e.refs ≡ 0 → f k e ≡ 0

-- Free entries went out, and their containers are to be stopped.
pub record Dropped (p after : PooledRuntime) (out : List Container) : Type 0 where
  pub distinct : Distinct after.entries
  pub fewer : (f : Bytes → PooledEntry → ℕ) → sum f after.entries ≤ sum f p.entries
  pub held : (f : Bytes → PooledEntry → ℕ) → Held f → sum f after.entries ≡ sum f p.entries
  pub booted :
      (h : Container → ℕ)
      → sum (λ k e. h e.container) after.entries + sum_containers h out
        ≡ sum (λ k e. h e.container) p.entries
  pub total : after.total ≡ p.total - length out
  pub closed : after.closed ≡ p.closed

pub Dropped-none : (p : PooledRuntime) → Distinct p.entries → Dropped p p []
unfolding sum_containers
Dropped-none p d = record {
  distinct = d;
  fewer = λ f. omega arith;
  held = λ f h. refl;
  booted = λ h. omega arith;
  total = omega arith;
  closed = refl;
}

pub Dropped-trans :
    (p q r : PooledRuntime) (xs ys : List Container)
    → Dropped p q xs
    → Dropped q r ys
    → Dropped p r (xs ++ ys)
Dropped-trans p q r xs ys a b = record {
  distinct = b.distinct;
  fewer = λ f. omega (arith, a.fewer f, b.fewer f);
  held = λ f h. b.held f h ∙ a.held f h;
  booted = λ h. omega (arith, a.booted h, b.booted h, sum_containers-append h xs ys);
  total = omega (arith, a.total, b.total, length-append xs ys);
  closed = b.closed ∙ a.closed;
}

-- A list's entries that are reaped are free.
module _ (now : ℕ) (p : PooledRuntime) where
  kept_of-sum :
      (g : PooledEntry → ℕ) (list : List PooledEntry)
      → sum_list g (kept_of now p list) + sum_list g (stale_of now p list) ≡ sum_list g list
  unfolding kept_of stale_of sum_list
  kept_of-sum g [] = omega arith
  kept_of-sum g (e ∷ list) = ground (arith, kept_of-sum g list)

  can_reap_free : (e : PooledEntry) → can_reap now p e ≡ true → e.refs ≡ 0
  unfolding can_reap
  can_reap_free e h = ground arith

  stale_of-Held :
      (f : Bytes → PooledEntry → ℕ) (k : Bytes) (list : List PooledEntry)
      → Held f
      → sum_list (f k) (stale_of now p list) ≡ 0
  unfolding stale_of sum_list
  stale_of-Held f k [] h = refl
  stale_of-Held f k (e ∷ list) h = elim (Bool-cases (can_reap now p e)) [
    | inl r ↦ ground (arith, stale_of-Held f k list h, h k e (can_reap_free e r))
    | inr r ↦ ground (arith, stale_of-Held f k list h)
  ]

pub sum_containers-containers :
    (h : Container → ℕ) (list : List PooledEntry)
    → sum_containers h (containers list) ≡ sum_list (λ e. h e.container) list
unfolding sum_containers containers sum_list
sum_containers-containers h [] = refl
sum_containers-containers h (e ∷ list) = omega (arith, sum_containers-containers h list)

length-containers : (list : List PooledEntry) → length (containers list) ≡ length list
unfolding containers
length-containers [] = refl
length-containers (e ∷ list) = ap suc (length-containers list)

prune_eq :
    (now : ℕ) (key : Bytes) (p : PooledRuntime) (list : List PooledEntry)
    → Distinct p.entries
    → entries_at key p.entries ≡ list
    → Dropped p (prune_stale now key p).0 (prune_stale now key p).1
unfolding prune_stale
prune_eq now key p [] d e = rw (e, prune_stale) (Dropped-none p d)
prune_eq now key p (x ∷ list) d e =
    rw (e, prune_stale)
      (record {
        distinct = put_entries-Distinct key kept p.entries d;
        fewer = λ f. omega (arith, sum-put_entries f key kept p.entries d, split f);
        held = λ f h. omega (
          arith,
          sum-put_entries f key kept p.entries d,
          split f,
          stale_of-Held now p f key (x ∷ list) h,
        );
        booted = λ h. omega (
          arith,
          sum-put_entries (λ k v. h v.container) key kept p.entries d,
          split (λ k v. h v.container),
          sum_containers-containers h (stale_of now p (x ∷ list)),
        );
        total = ap (λ n. p.total - n) (sym (length-containers (stale_of now p (x ∷ list))));
        closed = refl;
      })
  where
    kept : List PooledEntry
    kept = kept_of now p (x ∷ list)

    split :
        (f : Bytes → PooledEntry → ℕ)
        → sum_list (f key) kept + sum_list (f key) (stale_of now p (x ∷ list))
          ≡ sum_list (f key) (entries_at key p.entries)
    split f = rw e (kept_of-sum now p (f key) (x ∷ list))

pub prune_stale-Dropped :
    (now : ℕ) (key : Bytes) (p : PooledRuntime)
    → Distinct p.entries
    → Dropped p (prune_stale now key p).0 (prune_stale now key p).1
prune_stale-Dropped now key p d = prune_eq now key p _ d refl

-- evictExpired goes over all keys.
module _ (now : ℕ) (p : PooledRuntime) where
  keep_entries-Fresh :
      (k : Bytes) (m : List (Bytes × List PooledEntry)) → Fresh k m → Fresh k (keep_entries now p m)
  unfolding keep_entries lookup
  keep_entries-Fresh k [] d = refl
  keep_entries-Fresh k ((j, l) ∷ m) d = ground (arith, keep_entries-Fresh k m)

  keep_entries-Distinct :
      (m : List (Bytes × List PooledEntry)) → Distinct m → Distinct (keep_entries now p m)
  unfolding keep_entries
  keep_entries-Distinct [] d = tt
  keep_entries-Distinct ((j, l) ∷ m) d =
      ground (arith, keep_entries-Fresh j m d.0, keep_entries-Distinct m d.1)

  keep_entries-cons :
      (f : Bytes → PooledEntry → ℕ) (j : Bytes) (l : List PooledEntry)
      (m : List (Bytes × List PooledEntry))
      → sum f (keep_entries now p ((j, l) ∷ m))
        ≡ sum_list (f j) (kept_of now p l) + sum f (keep_entries now p m)
  unfolding keep_entries sum sum_list
  keep_entries-cons f j l m = from (kept_of now p l) refl
    where
      from :
          (kept : List PooledEntry)
          → kept_of now p l ≡ kept
          → sum f (keep_entries now p ((j, l) ∷ m))
            ≡ sum_list (f j) (kept_of now p l) + sum f (keep_entries now p m)
      from [] e = rw (e, keep_entries) (omega arith)
      from (x ∷ kept) e = rw (e, keep_entries) refl

  keep_entries-fewer :
      (f : Bytes → PooledEntry → ℕ) (m : List (Bytes × List PooledEntry))
      → sum f (keep_entries now p m) ≤ sum f m
  unfolding sum keep_entries
  keep_entries-fewer f [] = omega (arith)
  keep_entries-fewer f ((j, l) ∷ m) =
      omega (arith, keep_entries-cons f j l m, kept_of-sum now p (f j) l, keep_entries-fewer f m)

  keep_entries-Held :
      (f : Bytes → PooledEntry → ℕ) (m : List (Bytes × List PooledEntry))
      → Held f
      → sum f (keep_entries now p m) ≡ sum f m
  unfolding sum keep_entries
  keep_entries-Held f [] h = refl
  keep_entries-Held f ((j, l) ∷ m) h = omega (
    arith,
    keep_entries-cons f j l m,
    kept_of-sum now p (f j) l,
    stale_of-Held now p f j l h,
    keep_entries-Held f m h,
  )

  keep_entries-booted :
      (h : Container → ℕ) (m : List (Bytes × List PooledEntry))
      → sum (λ k e. h e.container) (keep_entries now p m) + sum_containers h (reaped now p m)
        ≡ sum (λ k e. h e.container) m
  unfolding sum reaped sum_containers keep_entries
  keep_entries-booted h [] = refl
  keep_entries-booted h ((j, l) ∷ m) = omega (
    arith,
    keep_entries-cons (λ k e. h e.container) j l m,
    kept_of-sum now p (λ e. h e.container) l,
    keep_entries-booted h m,
    sum_containers-containers h (stale_of now p l),
    sum_containers-append h (containers (stale_of now p l)) (reaped now p m),
  )

  pub evict_expired-Dropped :
      Distinct p.entries → Dropped p (evict_expired now p).0 (evict_expired now p).1
  unfolding evict_expired
  evict_expired-Dropped d = record {
    distinct = keep_entries-Distinct p.entries d;
    fewer = λ f. keep_entries-fewer f p.entries;
    held = λ f h. keep_entries-Held f p.entries h;
    booted = λ h. keep_entries-booted h p.entries;
    total = refl;
    closed = refl;
  }

-- Close, where no entry is held.
any_held-sum :
    (f : Bytes → PooledEntry → ℕ) (k : Bytes) (list : List PooledEntry)
    → Held f
    → any_held list ≡ false
    → sum_list (f k) list ≡ 0
unfolding any_held sum_list
any_held-sum f k [] h e = refl
any_held-sum f k (x ∷ list) h e = ground (arith, any_held-sum f k list h, h k x)

outstanding-sum :
    (f : Bytes → PooledEntry → ℕ) (m : List (Bytes × List PooledEntry))
    → Held f
    → outstanding m ≡ false
    → sum f m ≡ 0
unfolding outstanding sum
outstanding-sum f [] h e = refl
outstanding-sum f ((k, list) ∷ m) h e =
    ground (arith, outstanding-sum f m h, any_held-sum f k list h)

sum_containers-all_containers :
    (h : Container → ℕ) (m : List (Bytes × List PooledEntry))
    → sum_containers h (all_containers m) ≡ sum (λ k e. h e.container) m
unfolding all_containers sum_containers sum
sum_containers-all_containers h [] = refl
sum_containers-all_containers h ((k, list) ∷ m) = omega (
  arith,
  sum_containers-all_containers h m,
  sum_containers-containers h list,
  sum_containers-append h (containers list) (all_containers m),
)

pub length-sum_containers : (list : List Container) → sum_containers (λ c. 1) list ≡ length list
unfolding sum_containers
length-sum_containers [] = refl
length-sum_containers (c ∷ list) = omega (arith, length-sum_containers list)

pub close_finish-Dropped :
    (p : PooledRuntime)
    → Distinct p.entries
    → p.total ≡ sum (λ k e. 1) p.entries
    → Dropped p (close_finish p).0 (close_finish p).1
unfolding close_finish sum
close_finish-Dropped p d t = elim (Bool-cases (p.closed && not (outstanding p.entries))) [
  | inr other ↦ rw (other, close_finish) (Dropped-none p d)
  | inl done ↦
      let free : outstanding p.entries ≡ false = ground arith in
      rw (done, close_finish)
        (record {
          distinct = tt;
          fewer = λ f. omega arith;
          held = λ f h. sym (outstanding-sum f p.entries h free);
          booted = λ h. omega (arith, sum_containers-all_containers h p.entries);
          total = omega (
            arith,
            t,
            sum_containers-all_containers (λ c. 1) p.entries,
            length-sum_containers (all_containers p.entries),
          );
          closed = refl;
        })
]
