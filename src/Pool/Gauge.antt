-- ===== src/Pool/Gauge.antt =====
-- EntriesByTenant counts every entry of the pool once.
use hpcc.Prelude.{
  ℕ, ◌+◌, ◌≡◌, refl, inl, inr, none, some, List, [], ◌∷◌, Bytes, arith, Option-cases, length,
}
use hpcc.Prelude.Assoc.{lookup, insert}
use hpcc.Pool.{PooledEntry, add_to, key_tenant, entries_by_tenant}
use hpcc.Pool.Sums.{sum_list, sum}
use hpcc.Pool.World.{Move, moves, new_world}
use hpcc.Pool.Invariant.{new_world-Inv}
use hpcc.Pool.Stops.{moves-Inv}

unfoldable pub sum_counts : List (Bytes × ℕ) → ℕ
sum_counts [] = 0
sum_counts ((tenant, n) ∷ out) = n + sum_counts out

insert-none :
    (tenant : Bytes) (n : ℕ) (out : List (Bytes × ℕ))
    → lookup tenant out ≡ none
    → sum_counts (insert tenant n out) ≡ sum_counts out + n
unfolding insert lookup sum_counts
insert-none tenant n [] h = omega arith
insert-none tenant n ((j, k) ∷ out) h = ground (arith, insert-none tenant n out)

insert-some :
    (tenant : Bytes) (n k : ℕ) (out : List (Bytes × ℕ))
    → lookup tenant out ≡ some k
    → sum_counts (insert tenant (k + n) out) ≡ sum_counts out + n
unfolding insert lookup sum_counts
insert-some tenant n k [] h = absurd (let q : ⊥ = ground arith in q)
insert-some tenant n k ((j, i) ∷ out) h = ground (arith, insert-some tenant n k out)

add_to-sum :
    (tenant : Bytes) (n : ℕ) (out : List (Bytes × ℕ))
    → sum_counts (add_to tenant n out) ≡ sum_counts out + n
unfolding add_to
add_to-sum tenant n out = elim (Option-cases (lookup tenant out)) [
  | inl new ↦ rw (new, add_to) (insert-none tenant n out new)
  | inr (k, known) ↦ rw (known, add_to) (insert-some tenant n k out known)
]

sum_list-length : (list : List PooledEntry) → sum_list (λ e. 1) list ≡ length list
unfolding sum_list
sum_list-length [] = refl
sum_list-length (e ∷ list) = omega (arith, sum_list-length list)

entries_by_tenant-sum :
    (m : List (Bytes × List PooledEntry)) (out : List (Bytes × ℕ))
    → sum_counts (entries_by_tenant m out) ≡ sum_counts out + sum (λ k e. 1) m
unfolding entries_by_tenant sum
entries_by_tenant-sum [] out = omega arith
entries_by_tenant-sum ((key, list) ∷ m) out = omega (
  arith,
  entries_by_tenant-sum m (add_to (key_tenant key) (length list) out),
  add_to-sum (key_tenant key) (length list) out,
  sum_list-length list,
)

-- After any moves of a new pool the counts of all tenants that entries_by_tenant reports sum to
-- the total of the pool.
pub entries_by_tenant-total :
    (idle max_life max : ℕ) (ms : List Move)
    → sum_counts (entries_by_tenant (moves (new_world idle max_life max) ms).pool.entries [])
      ≡ (moves (new_world idle max_life max) ms).pool.total
unfolding sum_counts
entries_by_tenant-total idle max_life max ms =
    let v = moves-Inv (new_world idle max_life max) ms (new_world-Inv idle max_life max) in
    omega (
      arith,
      v.total,
      entries_by_tenant-sum (moves (new_world idle max_life max) ms).pool.entries [],
    )
