-- ===== src/Compiler/Gnu/Matching.antt =====
-- matchGNUFlag finds the longest flag of the table that fits, and what it takes of argv.
use hpcc.Prelude.{
  ◌+◌, ◌⊎◌, ◌++◌, refl, sym, ◌∙◌, ap, subst, true, bytes_eq, bytes_eq_iff, has_prefix, drop, ℕ, ◌≤◌,
  ◌≡◌, ◌≢◌, inl, inr, none, some, List, [], ◌∷◌, Bytes, length, ltb, arith, All, All-imp,
  Bool-cases, Option-cases,
}
use mathlib.Core.List.{append-nil}
use hpcc.Compiler.Grammar.{
  FlagSpec, ValueMode, no_value, separate_value, joined_value, joined_or_separate, gnu_flags,
  place_flag, sort_flags,
}
use hpcc.Compiler.Gnu.{FlagMatch, separate, match_spec, match_in, match_gnu_flag}

-- No name in the list is longer than `n`.
abbrev Below : ℕ → List FlagSpec → Type 0
Below n = All (λ s. length s.name ≤ n)

-- Names get no longer along the list.
abbrev Falling : List FlagSpec → Type 0
Falling [] = Unit {0}
Falling (s ∷ l) = Below (length s.name) l × Falling l

Below-mono : (m n : ℕ) (l : List FlagSpec) → m ≤ n → Below m l → Below n l
Below-mono m n l h b =
    All-imp (λ s. length s.name ≤ m) (λ s. length s.name ≤ n) (λ s k. omega arith) l b

place_flag-Below :
    (n : ℕ) (f : FlagSpec) (l : List FlagSpec)
    → length f.name ≤ n
    → Below n l
    → Below n (place_flag f l)
unfolding place_flag
place_flag-Below n f [] h b = (h, tt)
place_flag-Below n f (g ∷ l) h b = ground (arith, place_flag-Below n f l)

place_flag-Falling : (f : FlagSpec) (l : List FlagSpec) → Falling l → Falling (place_flag f l)
unfolding place_flag
place_flag-Falling f [] h = (tt, tt)
place_flag-Falling f (g ∷ l) h = elim (Bool-cases (ltb (length f.name) (length g.name))) [
  | inl e ↦
      rw e (place_flag-Below (length g.name) f l (ground arith) h.0, place_flag-Falling f l h.1)
  | inr e ↦
      let le : length g.name ≤ length f.name = ground arith in
      rw e ((le, Below-mono (length g.name) (length f.name) l le h.0), h)
]

sort_flags-Falling : (l : List FlagSpec) → Falling (sort_flags l)
unfolding sort_flags
sort_flags-Falling [] = tt
sort_flags-Falling (f ∷ l) = place_flag-Falling f (sort_flags l) (sort_flags-Falling l)

-- What holds all over the sorted table holds all over the table.
module _ (P : FlagSpec → Type 0) where
  All-place_flag : (f : FlagSpec) (l : List FlagSpec) → All P (place_flag f l) → P f × All P l
  unfolding place_flag
  All-place_flag f [] h = h
  All-place_flag f (g ∷ l) h = elim (Bool-cases (ltb (length f.name) (length g.name))) [
    | inl e ↦
        let k : P g × All P (place_flag f l) = rw (e, place_flag) at h in
        let (pf, rest) = All-place_flag f l k.1 in (pf, (k.0, rest))
    | inr e ↦ rw (e, place_flag) at h
  ]

  All-sort_flags : (l : List FlagSpec) → All P (sort_flags l) → All P l
  unfolding sort_flags
  All-sort_flags [] h = tt
  All-sort_flags (f ∷ l) h =
      let (pf, rest) = All-place_flag f (sort_flags l) h in (pf, All-sort_flags l rest)

-- `s` alone would match the argument.
abbrev pub Fits : Bytes → List Bytes → FlagSpec → Type 0
Fits arg rest s = match_spec arg rest s s.value ≢ none

match_spec-spec :
    (arg : Bytes) (rest : List Bytes) (s : FlagSpec) (m : FlagMatch)
    → match_spec arg rest s s.value ≡ some m
    → m.spec ≡ s
unfolding match_spec
match_spec-spec arg [] s m e = ground arith
match_spec-spec arg (next ∷ rest) s m e = ground arith

match_in-longest :
    (l : List FlagSpec) (arg : Bytes) (rest : List Bytes) (m : FlagMatch)
    → Falling l
    → match_in l arg rest ≡ some m
    → All (λ s. Fits arg rest s → length s.name ≤ length m.spec.name) l
unfolding match_in
match_in-longest [] arg rest m h e = tt
match_in-longest (s ∷ l) arg rest m h e = elim (Option-cases (match_spec arg rest s s.value)) [
  | inl miss ↦
      (λ fit. absurd (fit miss), match_in-longest l arg rest m h.1 (rw (miss, match_in) at e))
  | inr (m', hit) ↦
      let found : m' ≡ m = ground arith in
      let name : m.spec ≡ s = match_spec-spec arg rest s m (ground arith) in
      (
        λ _. ground arith,
        All-imp (λ t. length t.name ≤ length s.name)
            (λ t. Fits arg rest t → length t.name ≤ length m.spec.name) (λ t k _. ground arith) l
            h.0,
      )
]

-- When match_gnu_flag finds a flag for an argument, every flag of the table that would match this
-- argument by itself has a name that is no longer than the found one.
pub match_gnu_flag-longest :
    (arg : Bytes) (rest : List Bytes) (m : FlagMatch)
    → match_gnu_flag arg rest ≡ some m
    → All (λ s. Fits arg rest s → length s.name ≤ length m.spec.name) gnu_flags
unfolding match_gnu_flag
match_gnu_flag-longest arg rest m e =
    All-sort_flags (λ s. Fits arg rest s → length s.name ≤ length m.spec.name) gnu_flags
      (match_in-longest (sort_flags gnu_flags) arg rest m (sort_flags-Falling gnu_flags) e)

-- What a match takes of argv: the argument alone, which is the name and the value put together, or
-- the argument, which is the name, and the value behind it.
abbrev pub Consumed : Bytes → List Bytes → FlagMatch → Type 0
Consumed arg rest m =
    ((m.consumed ≡ 1) × (arg ≡ m.spec.name ++ m.value))
    ⊎ ((m.consumed ≡ 2) × (arg ≡ m.spec.name) × ((tail : List Bytes) × (rest ≡ m.value ∷ tail)))

has_prefix-drop : (s p : Bytes) → has_prefix s p ≡ true → s ≡ p ++ drop (length p) s
unfolding has_prefix
has_prefix-drop s [] h = refl
has_prefix-drop [] (c ∷ p) h = absurd (let q : ⊥ = ground arith in q)
has_prefix-drop (x ∷ s) (c ∷ p) h =
    let same : x ≡ c = ground arith in
    let rest = has_prefix-drop s p (ground arith) in ground (arith, same, rest)

separate-Consumed : (s : FlagSpec) (rest : List Bytes) → Consumed s.name rest (separate s rest)
separate-Consumed s [] = inl (refl, sym (append-nil s.name))
separate-Consumed s (next ∷ rest) = inr (refl, refl, (rest, refl))

match_spec-Consumed :
    (arg : Bytes) (rest : List Bytes) (s : FlagSpec) (v : ValueMode) (m : FlagMatch)
    → match_spec arg rest s v ≡ some m
    → Consumed arg rest m
unfolding match_spec
match_spec-Consumed arg rest s no_value m e = elim (Bool-cases (bytes_eq arg s.name)) [
  | inr other ↦ absurd (let q : ⊥ = ground arith in q)
  | inl same ↦
      let name = (bytes_eq_iff arg s.name).0 same in
      let q : (record { spec = s; value = []; consumed = 1 }) ≡ m = ground arith in
      subst (Consumed arg rest) q (inl (refl, name ∙ sym (append-nil s.name)))
]
match_spec-Consumed arg rest s separate_value m e = elim (Bool-cases (bytes_eq arg s.name)) [
  | inr other ↦ absurd (let q : ⊥ = ground arith in q)
  | inl same ↦
      let q : separate s rest ≡ m = ground arith in
      subst (Consumed arg rest) q (
        subst (λ a. Consumed a rest (separate s rest)) (sym ((bytes_eq_iff arg s.name).0 same))
          (separate-Consumed s rest))
]
match_spec-Consumed arg rest s joined_value m e = elim (Bool-cases (has_prefix arg s.name)) [
  | inr other ↦ absurd (let q : ⊥ = ground arith in q)
  | inl start ↦
      let q : (record { spec = s; value = drop (length s.name) arg; consumed = 1 }) ≡ m =
        ground arith in
      subst (Consumed arg rest) q (inl (refl, has_prefix-drop arg s.name start))
]
match_spec-Consumed arg rest s joined_or_separate m e = elim (Bool-cases (bytes_eq arg s.name)) [
  | inl same ↦
      let q : separate s rest ≡ m = ground arith in
      subst (Consumed arg rest) q (
        subst (λ a. Consumed a rest (separate s rest)) (sym ((bytes_eq_iff arg s.name).0 same))
          (separate-Consumed s rest))
  | inr other ↦ elim (Bool-cases (has_prefix arg s.name)) [
    | inr longer ↦ absurd (let q : ⊥ = ground arith in q)
    | inl start ↦
        let q : (record { spec = s; value = drop (length s.name) arg; consumed = 1 }) ≡ m =
          ground arith in
        subst (Consumed arg rest) q (inl (refl, has_prefix-drop arg s.name start))
  ]
]

match_in-Consumed :
    (l : List FlagSpec) (arg : Bytes) (rest : List Bytes) (m : FlagMatch)
    → match_in l arg rest ≡ some m
    → Consumed arg rest m
unfolding match_in
match_in-Consumed [] arg rest m e = absurd (let q : ⊥ = ground arith in q)
match_in-Consumed (s ∷ l) arg rest m e = elim (Option-cases (match_spec arg rest s s.value)) [
  | inl miss ↦ match_in-Consumed l arg rest m (rw (miss, match_in) at e)
  | inr (m', hit) ↦
      match_spec-Consumed arg rest s s.value m (hit ∙ ap (λ (t : FlagMatch). some t) (ground arith))
]

-- When match_gnu_flag finds a flag, it consumes one argument, which is the name of the flag with
-- the value behind it, or two, the name and then the value: so the index of ParseGNU's loop goes
-- up with every flag and no further than the end of argv, and nothing of a flag is lost.
pub match_gnu_flag-Consumed :
    (arg : Bytes) (rest : List Bytes) (m : FlagMatch)
    → match_gnu_flag arg rest ≡ some m
    → Consumed arg rest m × (1 ≤ m.consumed) × (m.consumed ≤ 1 + length rest)
unfolding match_gnu_flag
match_gnu_flag-Consumed arg rest m e =
    let c = match_in-Consumed (sort_flags gnu_flags) arg rest m e in
    let b = bounds m c in (c, b.0, b.1)
  where
    bounds :
        (x : FlagMatch) → Consumed arg rest x → (1 ≤ x.consumed) × (x.consumed ≤ 1 + length rest)
    bounds x (inl (one, _)) = (omega (arith, one), omega (arith, one))
    bounds x (inr (two, _, (tail, q))) = (omega (arith, two), omega (arith, two, ap length q))
