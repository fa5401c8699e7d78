-- ===== src/Pool/Sums.antt =====
-- Sums over the entries of the pool's map, and how the map's operations change them.
use hpcc.Prelude.{
  ℕ, ◌+◌, ◌≡◌, refl, ap, inl, inr, subst, true, List, [], ◌∷◌, ◌++◌, Bytes, ◌≤◌, bytes_eq,
  bytes_eq_iff, arith, Bool-cases,
}
use hpcc.Prelude.Assoc.{lookup, insert, erase, Distinct, Fresh, insert-Distinct, erase-Distinct}
use hpcc.Pool.{PooledEntry, entries_at, put_entries}

unfoldable pub sum_list : (PooledEntry → ℕ) → List PooledEntry → ℕ
sum_list g [] = 0
sum_list g (e ∷ list) = g e + sum_list g list

unfoldable pub sum : (Bytes → PooledEntry → ℕ) → List (Bytes × List PooledEntry) → ℕ
sum f [] = 0
sum f ((key, list) ∷ m) = sum_list (f key) list + sum f m

pub sum_list-append :
    (g : PooledEntry → ℕ) (xs ys : List PooledEntry)
    → sum_list g (xs ++ ys) ≡ sum_list g xs + sum_list g ys
unfolding sum_list
sum_list-append g [] ys = omega arith
sum_list-append g (e ∷ xs) ys = omega (arith, sum_list-append g xs ys)

module _ (f : Bytes → PooledEntry → ℕ) (key : Bytes) where
  erase-Fresh : (m : List (Bytes × List PooledEntry)) → Fresh key m → sum f (erase key m) ≡ sum f m
  unfolding erase lookup sum
  erase-Fresh [] d = refl
  erase-Fresh ((j, l) ∷ m) d = ground (arith, erase-Fresh m)

  entries_at-Fresh :
      (m : List (Bytes × List PooledEntry)) → Fresh key m → sum_list (f key) (entries_at key m) ≡ 0
  unfolding entries_at sum_list
  entries_at-Fresh m d = rw (d, entries_at) refl

  sum-erase :
      (m : List (Bytes × List PooledEntry))
      → Distinct m
      → sum f (erase key m) + sum_list (f key) (entries_at key m) ≡ sum f m
  unfolding erase lookup sum entries_at sum_list
  sum-erase [] d = refl
  sum-erase ((j, l) ∷ m) d = elim (Bool-cases (bytes_eq j key)) [
    | inl e ↦
        let same : sum_list (f j) l ≡ sum_list (f key) l = at_key e in
        let fresh : Fresh key m = subst (λ k. Fresh k m) ((bytes_eq_iff j key).0 e) d.0 in
        ground (arith, same, erase-Fresh m fresh)
    | inr e ↦ ground (arith, sum-erase m d.1)
  ]
    where
      at_key : bytes_eq j key ≡ true → sum_list (f j) l ≡ sum_list (f key) l
      at_key e = ap (λ k. sum_list (f k) l) ((bytes_eq_iff j key).0 e)

  pub sum-insert :
      (list : List PooledEntry) (m : List (Bytes × List PooledEntry))
      → Distinct m
      → sum f (insert key list m) + sum_list (f key) (entries_at key m)
        ≡ sum f m + sum_list (f key) list
  unfolding insert lookup sum entries_at sum_list
  sum-insert list [] d = omega arith
  sum-insert list ((j, l) ∷ m) d = elim (Bool-cases (bytes_eq j key)) [
    | inl e ↦
        let same : sum_list (f j) l ≡ sum_list (f key) l =
          ap (λ k. sum_list (f k) l) ((bytes_eq_iff j key).0 e) in
        ground (arith, same)
    | inr e ↦ ground (arith, sum-insert list m d.1)
  ]

  pub sum-put_entries :
      (list : List PooledEntry) (m : List (Bytes × List PooledEntry))
      → Distinct m
      → sum f (put_entries key list m) + sum_list (f key) (entries_at key m)
        ≡ sum f m + sum_list (f key) list
  unfolding put_entries sum_list
  sum-put_entries [] m d = omega (arith, sum-erase m d)
  sum-put_entries (e ∷ list) m d = sum-insert (e ∷ list) m d

  -- What stands under a key counts towards the whole.
  pub sum_list-le :
      (m : List (Bytes × List PooledEntry))
      → Distinct m
      → sum_list (f key) (entries_at key m) ≤ sum f m
  sum_list-le m d = omega (arith, sum-erase m d)

pub put_entries-Distinct :
    (key : Bytes) (list : List PooledEntry) (m : List (Bytes × List PooledEntry))
    → Distinct m
    → Distinct (put_entries key list m)
unfolding put_entries
put_entries-Distinct key [] m d = erase-Distinct key m d
put_entries-Distinct key (e ∷ list) m d = insert-Distinct key (e ∷ list) m d
