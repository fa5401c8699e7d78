-- ===== src/Compiler/Gnu/RawArgs.antt =====
-- The loop of ParseGNU neither reads nor changes RawArgs.
use hpcc.Prelude.{ℕ, zero, suc, ◌≡◌, refl, inl, inr, ◌⊎◌, List, [], ◌∷◌, Bytes, arith, Option-cases}
use hpcc.Compiler.Invocation.{Invocation}
use hpcc.Compiler.Grammar.{FlagSpec, Category, cat_unknown}
use hpcc.Compiler.Gnu.{
  apply_category, apply_flag, Round, stop, next, gnu_round, parse_loop, match_gnu_flag,
}

abbrev pub set_raw : List Bytes → Invocation → Invocation
set_raw r inv = record inv { raw_args = r }

abbrev raw_round : List Bytes → Round → Round
raw_round r (stop inv) = stop (set_raw r inv)
raw_round r (next k inv) = next k (set_raw r inv)

apply_category-raw :
    (r : List Bytes) (c : Category) (s : FlagSpec) (v : Bytes) (inv : Invocation)
    → apply_category c s v (set_raw r inv) ≡ set_raw r (apply_category c s v inv)
unfolding apply_category
apply_category-raw r cat_unknown s v inv = refl
apply_category-raw r _ s v inv = refl

apply_flag-raw :
    (r : List Bytes) (s : FlagSpec) (v : Bytes) (inv : Invocation)
    → apply_flag s v (set_raw r inv) ≡ set_raw r (apply_flag s v inv)
unfolding apply_flag
apply_flag-raw r s v inv = apply_category-raw r s.category s v inv

gnu_round-raw :
    (r : List Bytes) (a : Bytes) (rest : List Bytes) (inv : Invocation)
    → gnu_round a rest (set_raw r inv) ≡ raw_round r (gnu_round a rest inv)
unfolding gnu_round
gnu_round-raw r a rest inv = elim (Option-cases (match_gnu_flag a rest)) [
  | inl miss ↦ ground arith
  | inr (m, hit) ↦ ground (arith, apply_flag-raw r m.spec m.value inv)
]

Round-cases :
    (x : Round) → ((i : Invocation) × (x ≡ stop i)) ⊎ ((k : ℕ) × (i : Invocation) × (x ≡ next k i))
Round-cases (stop i) = inl (i, refl)
Round-cases (next k i) = inr (k, i, refl)

pub parse_loop-raw :
    (r : List Bytes) (k : ℕ) (l : List Bytes) (inv : Invocation)
    → parse_loop gnu_round k l (set_raw r inv) ≡ set_raw r (parse_loop gnu_round k l inv)
unfolding parse_loop
parse_loop-raw r k [] inv = refl
parse_loop-raw r (suc k) (a ∷ l) inv = parse_loop-raw r k l inv
parse_loop-raw r zero (a ∷ l) inv = elim (Round-cases (gnu_round a l inv)) [
  | inl (i, e) ↦ rw (gnu_round-raw r a l inv, e, parse_loop)
  | inr (k, i, e) ↦ rw (gnu_round-raw r a l inv, e, parse_loop) (parse_loop-raw r k l i)
]
