-- ===== src/Scheduler/Routing.antt =====
-- Which worker pickWorker takes, and what Route asks for and answers.
use hpcc.Prelude.{
  ◌≡◌, refl, ◌∙◌, ap, ◌⊎◌, inl, inr, subst, ◌↔◌, Bool, true, false, none, some, List, [], ◌∷◌,
  Bytes, All, All-imp, Some, arith, Bool-cases, Option-cases,
}
use hpcc.Prelude.Int.{ℤ, ◌≤ℤ◌, ≤ℤ_trans}
use hpcc.Prelude.Assoc.{lookup, insert, Distinct, lookup-Some}
use hpcc.Scheduler.{
  Scheduler, WorkerState, Candidate, consider, pick_loop, pick_worker, score, has_capacity,
  bump_load,
}

-- The candidate scores at most `x`.
abbrev Below : Candidate → ℤ → Type 0
Below none x = Unit {0} × ⊥
Below (some c) x = c.2 ≤ℤ x

Below-trans : (c : Candidate) (x y : ℤ) → Below c x → x ≤ℤ y → Below c y
Below-trans none x y h k = absurd h.1
Below-trans (some c) x y h k = ≤ℤ_trans c.2 x y h k

module _ (sticky : Bool) (tenant image : Bytes) where
  abbrev cost : WorkerState → ℤ
  cost = score sticky tenant image

  -- `c` is the candidate made of an entry of the map that has capacity.
  abbrev From : Candidate → List (Bytes × WorkerState) → Type 0
  From c m = Some (λ e. (has_capacity e.1 ≡ true) × (c ≡ some (e.0, e.1, cost e.1))) m

  -- A round keeps the better of two candidates.
  consider-Below :
      (k : Bytes) (w : WorkerState) (best : Candidate) (x : ℤ)
      → Below best x
      → Below (consider sticky tenant image k w best) x
  unfolding consider
  consider-Below k w none x h = absurd h.1
  consider-Below k w (some (bk, bw, bs)) x h = ground (arith, ≤ℤ_trans (cost w) bs x)

  consider-Below_new :
      (k : Bytes) (w : WorkerState) (best : Candidate)
      → has_capacity w ≡ true
      → Below (consider sticky tenant image k w best) (cost w)
  unfolding consider
  consider-Below_new k w none h = rw h (omega arith)
  consider-Below_new k w (some (bk, bw, bs)) h = ground arith

  pick_loop-Below :
      (m : List (Bytes × WorkerState)) (best : Candidate) (x : ℤ)
      → Below best x
      → Below (pick_loop sticky tenant image m best) x
  unfolding pick_loop
  pick_loop-Below [] best x h = h
  pick_loop-Below ((k, w) ∷ m) best x h =
      pick_loop-Below m (consider sticky tenant image k w best) x (consider-Below k w best x h)

  pick_loop-All :
      (m : List (Bytes × WorkerState)) (best : Candidate)
      → All
          (λ e. has_capacity e.1 ≡ true → Below (pick_loop sticky tenant image m best) (cost e.1))
          m
  unfolding pick_loop
  pick_loop-All [] best = tt
  pick_loop-All ((k, w) ∷ m) best = (
    (λ h.
        pick_loop-Below m (consider sticky tenant image k w best) (cost w)
          (consider-Below_new k w best h)),
    pick_loop-All m (consider sticky tenant image k w best),
  )

  consider_cases :
      (k : Bytes) (w : WorkerState) (best : Candidate)
      → (consider sticky tenant image k w best ≡ best)
        ⊎ ((has_capacity w ≡ true) × (consider sticky tenant image k w best ≡ some (k, w, cost w)))
  unfolding consider
  consider_cases k w none = ground arith
  consider_cases k w (some (bk, bw, bs)) = ground arith

  pick_loop-From :
      (m : List (Bytes × WorkerState)) (best : Candidate)
      → (pick_loop sticky tenant image m best ≡ best)
        ⊎ From (pick_loop sticky tenant image m best) m
  unfolding pick_loop
  pick_loop-From [] best = inl refl
  pick_loop-From ((k, w) ∷ m) best =
      elim (pick_loop-From m (consider sticky tenant image k w best)) [
        | inr later ↦ inr (inr later)
        | inl same ↦ elim (consider_cases k w best) [
          | inl kept ↦ inl (same ∙ kept)
          | inr (capacity, taken) ↦ inr (inl (capacity, same ∙ taken))
        ]
      ]

  From-facts :
      (k : Bytes) (w : WorkerState) (x : ℤ) (m : List (Bytes × WorkerState))
      → From (some (k, w, x)) m
      → (has_capacity w ≡ true) × (x ≡ cost w) × Some (λ e. (e.0 ≡ k) × (e.1 ≡ w)) m
  From-facts k w x [] h = absurd h.1
  From-facts k w x ((j, v) ∷ m) (inl (capacity, e)) =
      let keys : j ≡ k = cc in
      let workers : v ≡ w = cc in
      let costs : x ≡ cost v = cc in
      (
        subst (λ u. has_capacity u ≡ true) workers capacity,
        costs ∙ ap cost workers,
        inl (keys, workers),
      )
  From-facts k w x ((j, v) ∷ m) (inr h) =
      let (capacity, costs, there) = From-facts k w x m h in (capacity, costs, inr there)

  -- The first round's candidate is none, so a candidate comes from the map.
  picked_facts :
      (k : Bytes) (w : WorkerState) (x : ℤ) (m : List (Bytes × WorkerState))
      → pick_loop sticky tenant image m none ≡ some (k, w, x)
      → (has_capacity w ≡ true) × (x ≡ cost w) × Some (λ e. (e.0 ≡ k) × (e.1 ≡ w)) m
  picked_facts k w x m e = elim (pick_loop-From m none) [
    | inl none_left ↦ absurd (let q : ⊥ = ground arith in q)
    | inr there ↦ From-facts k w x m (subst (λ c. From c m) e there)
  ]

  picked_best :
      (k : Bytes) (w : WorkerState) (x : ℤ) (m : List (Bytes × WorkerState))
      → pick_loop sticky tenant image m none ≡ some (k, w, x)
      → x ≡ cost w
      → All (λ e. has_capacity e.1 ≡ true → cost w ≤ℤ cost e.1) m
  picked_best k w x m e costs =
      All-imp
        (λ v. has_capacity v.1 ≡ true → Below (pick_loop sticky tenant image m none) (cost v.1))
        (λ v. has_capacity v.1 ≡ true → cost w ≤ℤ cost v.1)
        (λ v h capacity.
          subst (λ y. y ≤ℤ cost v.1) costs (subst (λ c. Below c (cost v.1)) e (h capacity)))
        m (pick_loop-All m none)

-- The worker is registered with free capacity, no other worker with free capacity scores less, and
-- only its load has changed.
pub record IsPick (s : Scheduler) (tenant image : Bytes) (picked : WorkerState) (after : Scheduler)
    : Type 0 where
  pub key : Bytes
  pub worker : WorkerState
  pub registered : lookup key s.worker_states ≡ some worker
  pub capacity : has_capacity worker ≡ true
  pub best :
      All
        (λ e.
          has_capacity e.1 ≡ true
          → score s.sticky_tenants tenant image worker ≤ℤ score s.sticky_tenants tenant image e.1)
        s.worker_states
  pub bumped : picked ≡ bump_load worker
  pub updated : after ≡ record s { worker_states = insert key (bump_load worker) s.worker_states }

IsPick-from :
    (s : Scheduler) (tenant image : Bytes) (picked : WorkerState) (after : Scheduler)
    (c : Candidate)
    → Distinct s.worker_states
    → pick_loop s.sticky_tenants tenant image s.worker_states none ≡ c
    → pick_worker s tenant image ≡ some (picked, after)
    → IsPick s tenant image picked after
unfolding pick_worker
IsPick-from s tenant image picked after none d e p = absurd (let q : ⊥ = ground arith in q)
IsPick-from s tenant image picked after (some (k, w, x)) d e p = record {
  key = k;
  worker = w;
  registered = lookup-Some k w s.worker_states d facts.2;
  capacity = facts.0;
  best = picked_best s.sticky_tenants tenant image k w x s.worker_states e facts.1;
  bumped = ground arith;
  updated = ground arith;
}
  where
    facts :
        (has_capacity w ≡ true)
        × (x ≡ score s.sticky_tenants tenant image w)
        × Some (λ v. (v.0 ≡ k) × (v.1 ≡ w)) s.worker_states
    facts = picked_facts s.sticky_tenants tenant image k w x s.worker_states e

-- When pick_worker picks, in a map with distinct keys, the worker is registered with free
-- capacity, no other worker with free capacity scores less, and the only change is that its load
-- is counted up by one.
pub pick_worker-IsPick :
    (s : Scheduler) (tenant image : Bytes) (picked : WorkerState) (after : Scheduler)
    → Distinct s.worker_states
    → pick_worker s tenant image ≡ some (picked, after)
    → IsPick s tenant image picked after
pick_worker-IsPick s tenant image picked after d p =
    IsPick-from s tenant image picked after _ d refl p

no_capacity-From :
    (sticky : Bool) (tenant image : Bytes) (c : Candidate) (m : List (Bytes × WorkerState))
    → All (λ e. has_capacity e.1 ≡ false) m
    → ¬ From sticky tenant image c m
no_capacity-From sticky tenant image c [] h f = f.1
no_capacity-From sticky tenant image c ((k, w) ∷ m) h (inl there) =
    let e = there.0 in let e' = h.0 in cc
no_capacity-From sticky tenant image c ((k, w) ∷ m) h (inr there) =
    no_capacity-From sticky tenant image c m h.1 there

full_if_none :
    (s : Scheduler) (tenant image : Bytes)
    → pick_worker s tenant image ≡ none
    → pick_loop s.sticky_tenants tenant image s.worker_states none ≡ none
unfolding pick_worker
full_if_none s tenant image e =
    elim (Option-cases (pick_loop s.sticky_tenants tenant image s.worker_states none)) [
      | inl q ↦ q
      | inr (c, q) ↦ ground arith
    ]

none_if_full :
    (s : Scheduler) (tenant image : Bytes)
    → pick_loop s.sticky_tenants tenant image s.worker_states none ≡ none
    → pick_worker s tenant image ≡ none
unfolding pick_worker
none_if_full s tenant image e = rw (e, pick_worker)

-- pick_worker finds no worker exactly when no registered worker has free capacity, so a worker
-- that lacks the image is still taken.
pub pick_worker-none :
    (s : Scheduler) (tenant image : Bytes)
    → (pick_worker s tenant image ≡ none) ↔ All (λ e. has_capacity e.1 ≡ false) s.worker_states
pick_worker-none s tenant image = (
  λ e.
      All-imp (λ v. has_capacity v.1 ≡ true → Below found (cost' v.1))
        (λ v. has_capacity v.1 ≡ false)
        (λ v h. elim (Bool-cases (has_capacity v.1)) [
          | inl capacity ↦
              absurd
                (subst (λ c. Below c (cost' v.1)) (full_if_none s tenant image e) (h capacity)).1
          | inr full ↦ full
        ])
        s.worker_states (pick_loop-All s.sticky_tenants tenant image s.worker_states none),
  λ full. elim (pick_loop-From s.sticky_tenants tenant image s.worker_states none) [
    | inl e ↦ none_if_full s tenant image e
    | inr there ↦
        absurd (no_capacity-From s.sticky_tenants tenant image found s.worker_states full there)
  ],
)
  where
    found : Candidate
    found = pick_loop s.sticky_tenants tenant image s.worker_states none

    cost' : WorkerState → ℤ
    cost' = score s.sticky_tenants tenant image
