-- ===== src/Pool/Changes.antt =====
-- The operations that change one entry: a borrow, a release and a new container.
use hpcc.Prelude.{
  ℕ, ◌+◌, ◌≤◌, ◌≡◌, refl, ap, inl, inr, subst, true, false, ◌&&◌, none, some, List, [], ◌∷◌, ◌++◌,
  Bytes, arith, Bool-cases, Option-cases, ◌==◌,
}
use hpcc.Prelude.Assoc.{Distinct, insert-Distinct}
use hpcc.Pool.{
  PooledEntry, PooledRuntime, Container, ContainerSpec, entries_at, put_entries, entry_usable,
  borrow_entry, take_entry, put_entry, unref, release, expired, start_finish, new_entry, pool_key,
}
use hpcc.Pool.Sums.{
  sum_list, sum, sum_list-append, sum-put_entries, sum-insert, sum_list-le, put_entries-Distinct,
}
use hpcc.Pool.Dropped.{Dropped, Dropped-none, sum_containers}

-- One entry under the key was replaced by another one.
pub record Exchanged (p after : PooledRuntime) (key : Bytes) (old new : PooledEntry) : Type 0 where
  pub distinct : Distinct after.entries
  pub sums :
      (f : Bytes → PooledEntry → ℕ) → sum f after.entries + f key old ≡ sum f p.entries + f key new
  pub counted : (f : Bytes → PooledEntry → ℕ) → f key old ≤ sum f p.entries
  pub total : after.total ≡ p.total
  pub closed : after.closed ≡ p.closed

borrow_entry-sum :
    (now : ℕ) (p : PooledRuntime) (g : PooledEntry → ℕ) (list : List PooledEntry) (e : PooledEntry)
    (list' : List PooledEntry)
    → borrow_entry now p list ≡ some (e, list')
    → (sum_list g list' + g e ≡ sum_list g list + g (record e { refs = e.refs + 1 }))
      × (g e ≤ sum_list g list)
unfolding borrow_entry sum_list
borrow_entry-sum now p g [] e list' h = absurd (let q : ⊥ = ground arith in q)
borrow_entry-sum now p g (x ∷ list) e list' h = elim (Bool-cases (entry_usable now p x)) [
  | inl u ↦ (ground arith, ground arith)
  | inr u ↦ elim (Option-cases (borrow_entry now p list)) [
    | inl q ↦ absurd (let z : ⊥ = ground arith in z)
    | inr ((y, ys), q) ↦
        let (a, b) = borrow_entry-sum now p g list y ys q in (ground arith, ground arith)
  ]
]

pub borrow_entry-usable :
    (now : ℕ) (p : PooledRuntime) (list : List PooledEntry) (e : PooledEntry)
    (list' : List PooledEntry)
    → borrow_entry now p list ≡ some (e, list')
    → entry_usable now p e ≡ true
unfolding borrow_entry
borrow_entry-usable now p [] e list' h = absurd (let q : ⊥ = ground arith in q)
borrow_entry-usable now p (x ∷ list) e list' h = elim (Bool-cases (entry_usable now p x)) [
  | inl u ↦ let same : x ≡ e = ground arith in subst (λ v. entry_usable now p v ≡ true) same u
  | inr u ↦ elim (Option-cases (borrow_entry now p list)) [
    | inl q ↦ absurd (let z : ⊥ = ground arith in z)
    | inr ((y, ys), q) ↦
        let same : y ≡ e = ground arith in
        subst (λ v. entry_usable now p v ≡ true) same (borrow_entry-usable now p list y ys q)
  ]
]

take_entry-sum :
    (id : ℕ) (g : PooledEntry → ℕ) (list : List PooledEntry) (e : PooledEntry)
    (others : List PooledEntry)
    → take_entry id list ≡ some (e, others)
    → (new : PooledEntry)
    → (sum_list g others + g e ≡ sum_list g list)
      × (sum_list g (put_entry id new list) + g e ≡ sum_list g list + g new)
      × (e.container.id ≡ id)
unfolding take_entry put_entry sum_list
take_entry-sum id g [] e others h new = absurd (let q : ⊥ = ground arith in q)
take_entry-sum id g (x ∷ list) e others h new = elim (Bool-cases (x.container.id == id)) [
  | inl u ↦ (ground arith, ground arith, ground arith)
  | inr u ↦ elim (Option-cases (take_entry id list)) [
    | inl q ↦ absurd (let z : ⊥ = ground arith in z)
    | inr ((y, ys), q) ↦
        let (a, b, c) = take_entry-sum id g list y ys q new in
        (ground arith, ground arith, ground arith)
  ]
]

pub take_entry-none :
    (id : ℕ) (g : PooledEntry → ℕ) (list : List PooledEntry)
    → take_entry id list ≡ none
    → ((e : PooledEntry) → (e.container.id == id) ≡ false → g e ≡ 0)
    → sum_list g list ≡ 0
unfolding take_entry sum_list
take_entry-none id g [] h z = refl
take_entry-none id g (x ∷ list) h z = elim (Bool-cases (x.container.id == id)) [
  | inl u ↦ absurd (let q : ⊥ = ground arith in q)
  | inr u ↦ elim (Option-cases (take_entry id list)) [
    | inl q ↦ omega (arith, z x u, take_entry-none id g list q z)
    | inr (y, q) ↦ absurd (let q : ⊥ = ground arith in q)
  ]
]

pub borrow_entry-Exchanged :
    (now : ℕ) (key : Bytes) (p : PooledRuntime) (e : PooledEntry) (list : List PooledEntry)
    → Distinct p.entries
    → borrow_entry now p (entries_at key p.entries) ≡ some (e, list)
    → Exchanged p
        (record p { entries = put_entries key list p.entries })
        key
        e
        (record e { refs = e.refs + 1 })
borrow_entry-Exchanged now key p e list d h = record {
  distinct = put_entries-Distinct key list p.entries d;
  sums = λ f.
      let (a, b) = borrow_entry-sum now p (f key) (entries_at key p.entries) e list h in
      omega (arith, a, sum-put_entries f key list p.entries d);
  counted = λ f.
      let (a, b) = borrow_entry-sum now p (f key) (entries_at key p.entries) e list h in
      omega (arith, b, sum_list-le f key p.entries d);
  total = refl;
  closed = refl;
}

-- The entry that is found has the container's number, and without it the sums lose its share.
pub take_entry-found :
    (key : Bytes) (id : ℕ) (p : PooledRuntime) (e : PooledEntry) (others : List PooledEntry)
    → Distinct p.entries
    → take_entry id (entries_at key p.entries) ≡ some (e, others)
    → (e.container.id ≡ id)
      × ((f : Bytes → PooledEntry → ℕ)
          → sum f (put_entries key others p.entries) + f key e ≡ sum f p.entries)
take_entry-found key id p e others d h = (
  (take_entry-sum id (λ v. 0) (entries_at key p.entries) e others h e).2,
  λ f. omega (
    arith,
    (take_entry-sum id (f key) (entries_at key p.entries) e others h e).0,
    sum-put_entries f key others p.entries d,
  ),
)

unref_free : (now : ℕ) (e : PooledEntry) → (e.refs == 1) ≡ true → (unref now e).refs ≡ 0
unfolding unref
unref_free now e h = rw h refl

-- A release changes the entry, and then takes it out if its time is over.
abbrev pub unreferenced : ℕ → Bytes → ℕ → PooledEntry → PooledRuntime → PooledRuntime
unreferenced now key id e p = record p {
  entries = put_entries key (put_entry id (unref now e) (entries_at key p.entries)) p.entries;
}

pub release-Exchanged :
    (now : ℕ) (key : Bytes) (id : ℕ) (p : PooledRuntime) (e : PooledEntry)
    (others : List PooledEntry)
    → Distinct p.entries
    → take_entry id (entries_at key p.entries) ≡ some (e, others)
    → Exchanged p (unreferenced now key id e p) key e (unref now e)
release-Exchanged now key id p e others d h = record {
  distinct = put_entries-Distinct key _ p.entries d;
  sums = λ f. omega (
    arith,
    (take_entry-sum id (f key) (entries_at key p.entries) e others h (unref now e)).1,
    sum-put_entries f key (put_entry id (unref now e) (entries_at key p.entries)) p.entries d,
  );
  counted = λ f. omega (arith, (take_entry-found key id p e others d h).1 f);
  total = refl;
  closed = refl;
}

unref_container : (now : ℕ) (e : PooledEntry) → (unref now e).container ≡ e.container
unfolding unref
unref_container now e = elim (Bool-cases (e.refs == 1)) [ inl h ↦ rw h refl | inr h ↦ rw h refl ]

pub release-Dropped :
    (now : ℕ) (key : Bytes) (id : ℕ) (p : PooledRuntime) (e : PooledEntry)
    (others : List PooledEntry)
    → Distinct p.entries
    → take_entry id (entries_at key p.entries) ≡ some (e, others)
    → Dropped (unreferenced now key id e p) (release now key id p).0 (release now key id p).1
unfolding release sum_containers
release-Dropped now key id p e others d h =
    elim (Bool-cases ((e.refs == 1) && expired now e.created_at p.max_lifetime)) [
      | inr stays ↦ rw (h, stays, release) (Dropped-none (unreferenced now key id e p) x.distinct)
      | inl over ↦
          let one : (e.refs == 1) ≡ true = ground arith in
          rw (h, over, release)
            (record {
              distinct = put_entries-Distinct key others p.entries d;
              fewer = λ f. omega (arith, x.sums f, without f);
              held = λ f held.
                  omega (arith, x.sums f, without f, held key (unref now e) (unref_free now e one));
              booted = λ g. omega (
                arith,
                x.sums (λ k v. g v.container),
                without (λ k v. g v.container),
                ap g (unref_container now e),
              );
              total = refl;
              closed = refl;
            })
    ]
  where
    x : Exchanged p (unreferenced now key id e p) key e (unref now e)
    x = release-Exchanged now key id p e others d h

    without :
        (f : Bytes → PooledEntry → ℕ)
        → sum f (put_entries key others p.entries) + f key e ≡ sum f p.entries
    without f = (take_entry-found key id p e others d h).1 f

-- A new container adds its entry.
pub start_finish-sum :
    (now : ℕ) (spec : ContainerSpec) (c : Container) (p : PooledRuntime)
    → Distinct p.entries
    → p.closed ≡ false
    → Distinct (start_finish now spec c p).0.entries
      × ((f : Bytes → PooledEntry → ℕ)
          → sum f (start_finish now spec c p).0.entries
            ≡ sum f p.entries + f (pool_key spec) (new_entry now spec c))
unfolding start_finish sum_list
start_finish-sum now spec c p d h =
    rw (h, start_finish)
      (
        insert-Distinct (pool_key spec) _ p.entries d,
        λ f. omega (
          arith,
          sum-insert f (pool_key spec)
              (entries_at (pool_key spec) p.entries ++ (new_entry now spec c ∷ [])) p.entries d,
          sum_list-append (f (pool_key spec)) (entries_at (pool_key spec) p.entries)
              (new_entry now spec c ∷ []),
        ),
      )
