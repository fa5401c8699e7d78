-- ===== src/Prelude/Assoc.antt =====
-- Go maps as association lists. The list's order stands for the order in which `range` visits the
-- map, which Go leaves open: a theorem about every list holds for every such order.
use mathlib.Core.Path.{◌≡◌, refl, subst}
use mathlib.Core.Logic.{inl, inr}
use mathlib.Core.Option.{Option, none, some}
use mathlib.Core.List.{List, [], ◌∷◌}
use native.Mathlib.Omega.{arith}
use hpcc.Prelude.Tests.{if◌then◌else◌, Bool-cases}
use hpcc.Prelude.Text.{Bytes, bytes_eq, bytes_eq_iff}
use hpcc.Prelude.Lists.{All, Some}

module _ {ℓ} {V : Type ℓ} where
  unfoldable pub lookup : Bytes → List (Bytes × V) → Option V
  lookup k [] = none
  lookup k ((j, v) ∷ m) = if bytes_eq j k then some v else lookup k m

  -- `m[k] = v`: in place where the key is there, else a new entry.
  unfoldable pub insert : Bytes → V → List (Bytes × V) → List (Bytes × V)
  insert k v [] = (k, v) ∷ []
  insert k v ((j, w) ∷ m) = if bytes_eq j k then (k, v) ∷ m else (j, w) ∷ insert k v m

  -- `delete(m, k)`.
  unfoldable pub erase : Bytes → List (Bytes × V) → List (Bytes × V)
  erase k [] = []
  erase k ((j, v) ∷ m) = if bytes_eq j k then erase k m else (j, v) ∷ erase k m

  pub lookup-insert :
      (k j : Bytes) (v : V) (m : List (Bytes × V))
      → lookup j (insert k v m) ≡ (if bytes_eq k j then some v else lookup j m)
  unfolding lookup insert
  lookup-insert k j v [] = refl
  lookup-insert k j v ((i, w) ∷ m) =
      ground (arith, bytes_eq_iff k j, bytes_eq_iff i k, bytes_eq_iff i j, lookup-insert k j v m)

  pub lookup-erase :
      (k j : Bytes) (m : List (Bytes × V))
      → lookup j (erase k m) ≡ (if bytes_eq k j then none else lookup j m)
  unfolding lookup erase
  lookup-erase k j [] = ground arith
  lookup-erase k j ((i, w) ∷ m) =
      ground (arith, bytes_eq_iff k j, bytes_eq_iff i k, bytes_eq_iff i j, lookup-erase k j m)

  -- No key stands twice.
  abbrev pub Fresh : Bytes → List (Bytes × V) → Type ℓ
  Fresh k m = lookup k m ≡ none

  abbrev pub Distinct : List (Bytes × V) → Type ℓ
  Distinct [] = Unit
  Distinct ((k, v) ∷ m) = Fresh k m × Distinct m

  pub insert-Distinct :
      (k : Bytes) (v : V) (m : List (Bytes × V)) → Distinct m → Distinct (insert k v m)
  unfolding insert lookup
  insert-Distinct k v [] d = (refl, tt)
  insert-Distinct k v ((j, w) ∷ m) d = elim (Bool-cases (bytes_eq j k)) [
    | inl e ↦
        let same : Distinct ((k, v) ∷ m) =
          subst (λ x. Distinct ((x, v) ∷ m)) ((bytes_eq_iff j k).0 e) (d.0, d.1) in
        rw e same
    | inr e ↦
        let fresh : Fresh j (insert k v m) =
          ground (arith, lookup-insert k j v m, bytes_eq_iff k j, bytes_eq_iff j k) in
        rw e (fresh, insert-Distinct k v m d.1)
  ]

  pub erase-Distinct : (k : Bytes) (m : List (Bytes × V)) → Distinct m → Distinct (erase k m)
  unfolding erase
  erase-Distinct k [] d = tt
  erase-Distinct k ((j, w) ∷ m) d = ground (arith, erase-Distinct k m d.1, lookup-erase k j m)

  -- What holds of every entry holds of the one that is found, and is kept by the operations.
  pub lookup-All {κ} :
      (P : Bytes → V → Type κ) (k : Bytes) (v : V) (m : List (Bytes × V))
      → All (λ e. P e.0 e.1) m
      → lookup k m ≡ some v
      → P k v
  unfolding lookup
  lookup-All P k v [] h e = cc
  lookup-All P k v ((j, w) ∷ m) h e = elim (Bool-cases (bytes_eq j k)) [
    | inl same ↦
        subst (λ x. P x v) ((bytes_eq_iff j k).0 same)
          (subst (P j) (let q : w ≡ v = ground arith in q) h.0)
    | inr other ↦ lookup-All P k v m h.1 (rw other at e)
  ]

  -- With distinct keys an entry is what its key finds.
  pub lookup-Some :
      (k : Bytes) (v : V) (m : List (Bytes × V))
      → Distinct m
      → Some (λ e. (e.0 ≡ k) × (e.1 ≡ v)) m
      → lookup k m ≡ some v
  unfolding lookup
  lookup-Some k v [] d h = absurd h.1
  lookup-Some k v ((j, w) ∷ m) d (inl e) = ground (arith, bytes_eq_iff j k)
  lookup-Some k v ((j, w) ∷ m) d (inr h) = ground (arith, bytes_eq_iff j k, lookup-Some k v m d.1 h)

  -- A property of the entries is kept by the operations.
  pub insert-All {κ} :
      (P : Bytes → V → Type κ) (k : Bytes) (v : V) (m : List (Bytes × V))
      → P k v
      → All (λ e. P e.0 e.1) m
      → All (λ e. P e.0 e.1) (insert k v m)
  unfolding insert
  insert-All P k v [] p h = (p, tt)
  insert-All P k v ((j, w) ∷ m) p h = elim (Bool-cases (bytes_eq j k)) [
    | inl e ↦ rw e (p, h.1)
    | inr e ↦ rw e (h.0, insert-All P k v m p h.1)
  ]

  pub erase-All {κ} :
      (P : Bytes → V → Type κ) (k : Bytes) (m : List (Bytes × V))
      → All (λ e. P e.0 e.1) m
      → All (λ e. P e.0 e.1) (erase k m)
  unfolding erase
  erase-All P k [] h = tt
  erase-All P k ((j, w) ∷ m) h = elim (Bool-cases (bytes_eq j k)) [
    | inl e ↦ rw e (erase-All P k m h.1)
    | inr e ↦ rw e (h.0, erase-All P k m h.1)
  ]
