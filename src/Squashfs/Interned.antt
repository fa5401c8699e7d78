-- ===== src/Squashfs/Interned.antt =====
-- The index of the ID table and its list agree, and an interned number keeps its place.
use hpcc.Prelude.{
  ℕ, ◌≤◌, ◌<◌, ◌≡◌, ◌≢◌, refl, sym, ap, subst, ◌∙◌, Option, none, some, List, [], ◌∷◌, ◌++◌, length,
  leb, ◌==◌, ==_iff, if◌then◌else◌, inl, inr, get_elem?, get_elem?-lt, get_elem?-append_left,
  get_elem?-append_length, get_elem?-append_cases, length-append, Bool-cases, arith,
}
use hpcc.Squashfs.Ids.{max_ids, IdTable, new_id_table, find_id, intern}

-- Each number of the list stands there once, at the place that the index gives.
pub record IsIndexed (t : IdTable) : Type 0 where
  pub sound : (id n : ℕ) → find_id id t.index ≡ some n → get_elem? t.list n ≡ some id
  pub complete : (id n : ℕ) → get_elem? t.list n ≡ some id → find_id id t.index ≡ some n
  pub bounded : length t.list ≤ max_ids

pub new_id_table-IsIndexed : IsIndexed new_id_table
unfolding new_id_table find_id
new_id_table-IsIndexed = record {
  sound = λ id n h. cc;
  complete = λ id n h. cc;
  bounded = omega arith;
}

-- What Intern does: the number stands where it says, and no other number moves; it fails where the
-- table is full and lacks the number.
abbrev pub Interned : IdTable → ℕ → Option (IdTable × ℕ) → Type 0
Interned t id none = ((n : ℕ) → get_elem? t.list n ≢ some id) × (length t.list ≡ max_ids)
Interned t id (some (u, k)) =
    IsIndexed u
    × (get_elem? u.list k ≡ some id)
    × (k < max_ids)
    × ((j n : ℕ) → get_elem? t.list n ≡ some j → get_elem? u.list n ≡ some j)

later_found :
    (id j n k : ℕ) (index : List (ℕ × ℕ))
    → find_id id index ≡ none
    → find_id j index ≡ some n
    → (if id == j then some k else find_id j index) ≡ some n
later_found id j n k index missing e = ground arith

added-IsIndexed :
    (t : IdTable) (id : ℕ)
    → IsIndexed t
    → find_id id t.index ≡ none
    → length t.list < max_ids
    → IsIndexed (record { index = (id, length t.list) ∷ t.index; list = t.list ++ id ∷ [] })
unfolding find_id
added-IsIndexed t id v missing room = record {
  sound = λ j n h. elim (Bool-cases (id == j)) [
    | inl e ↦
        let at_end : length t.list ≡ n = ground arith in
        let same : id ≡ j = (==_iff id j).0 e in
        subst (λ k. get_elem? (t.list ++ id ∷ []) k ≡ some j) at_end
          (get_elem?-append_length t.list [] id ∙ ap some same)
    | inr e ↦ get_elem?-append_left t.list (id ∷ []) n (v.sound j n (rw e at h))
  ];
  complete = λ j n h. elim (get_elem?-append_cases t.list id n h) [
    | inl old ↦ later_found id j n (length t.list) t.index missing (v.complete j n old)
    | inr (at_end, same) ↦ ground arith
  ];
  bounded = omega (arith, length-append t.list (id ∷ []));
}

-- On an ID table whose index and list agree and that has at most 65535 numbers, intern gives such
-- a table again in which the number stands at the index that it answers, below 65535, and every
-- other number stands where it stood; it fails only where the table has 65535 numbers and lacks
-- the number.
pub intern-Interned : (t : IdTable) (id : ℕ) → IsIndexed t → Interned t id (intern t id)
unfolding intern
intern-Interned t id v = looked (find_id id t.index) refl
  where
    looked :
        (r : Option ℕ)
        → find_id id t.index ≡ r
        → Interned t id (elim r [
          | some n ↦ some (t, n)
          | none ↦
              if leb max_ids (length t.list)
              then none
              else some (
                record { index = (id, length t.list) ∷ t.index; list = t.list ++ id ∷ [] },
                length t.list,
              )
        ])
    looked (some n) e =
        let bound = v.bounded in
        let at = v.sound id n e in (v, at, omega (arith, get_elem?-lt t.list n at), λ j m h. h)
    looked none e = elim (Bool-cases (leb max_ids (length t.list))) [
      | inl full ↦ rw full (
        λ n h. absurd (let m : none ≡ some n = sym e ∙ v.complete id n h in cc),
        let b = v.bounded in ground arith,
      )
      | inr room ↦ rw room (
        added-IsIndexed t id v e (ground arith),
        get_elem?-append_length t.list [] id,
        ground arith,
        λ j n h. get_elem?-append_left t.list (id ∷ []) n h,
      )
    ]
