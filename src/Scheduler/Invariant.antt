-- ===== src/Scheduler/Invariant.antt =====
-- What holds of the scheduler's maps after any history of calls.
use hpcc.Prelude.{
  ℕ, ◌≡◌, refl, sym, ◌⊎◌, inl, inr, subst, Bool, true, not, ◌||◌, Option, some, List, [], ◌∷◌,
  Bytes, bytes_eq, All, arith, Bool-cases, Option-cases,
}
use hpcc.Prelude.Assoc.{
  lookup, insert, erase, Distinct, Fresh, insert-Distinct, erase-Distinct, insert-All, erase-All,
  lookup-All,
}
use hpcc.Scheduler.{
  Scheduler, WorkerState, TenantAuth, SessionValue, bound, unbound, AuthToken, jwt_token,
  static_token, no_token, TaskClaims, RouteRequest, RegisterWorkerRequest, WorkerHeartbeat,
  verify_tenant_jwt, authenticate, pick_worker, route, dispatch_route, register_worker, heartbeat,
  stale_workers, delete_all, is_evicted, drop_sessions, reap_stale_workers, new_scheduler, Call,
  authenticates, routes, registers, beats, reaps, step, run, apply_heartbeat, bump_load, session_is,
  worker_state_from_registration,
}
use hpcc.Scheduler.Routing.{pick_worker-IsPick}

-- Some token was checked against this tenant's own keys, issuer and audience.
abbrev pub Verified : List (Bytes × TenantAuth) → Bytes → Type 0
Verified tenants tenant = (raw : Bytes) × (verify_tenant_jwt tenants tenant raw ≡ true)

pub record Inv (s : Scheduler) : Type 0 where
  pub worker_sessions : Distinct s.worker_sessions
  pub user_sessions : Distinct s.user_sessions
  pub worker_states : Distinct s.worker_states
  pub keyed : All (λ e. e.1.worker_id ≡ e.0) s.worker_states
  pub authorised : All (λ e. Verified s.tenant_auth e.1) s.user_sessions

pub new_scheduler-Inv :
    (worker_token : Bytes) (sticky : Bool) (tenants : List (Bytes × TenantAuth)) (key : Bytes)
    → Inv (new_scheduler worker_token sticky tenants key)
unfolding new_scheduler
new_scheduler-Inv worker_token sticky tenants key = record {
  worker_sessions = tt;
  user_sessions = tt;
  worker_states = tt;
  keyed = tt;
  authorised = tt;
}

with_user :
    (s : Scheduler) (fresh tenant raw : Bytes)
    → Inv s
    → verify_tenant_jwt s.tenant_auth tenant raw ≡ true
    → Inv (record s { user_sessions = insert fresh tenant s.user_sessions })
with_user s fresh tenant raw v e = record {
  worker_sessions = v.worker_sessions;
  user_sessions = insert-Distinct fresh tenant s.user_sessions v.user_sessions;
  worker_states = v.worker_states;
  keyed = v.keyed;
  authorised =
      insert-All (λ k t. Verified s.tenant_auth t) fresh tenant s.user_sessions (raw, e)
        v.authorised;
}

with_session :
    (s : Scheduler) (fresh : Bytes) (value : SessionValue)
    → Inv s
    → Inv (record s { worker_sessions = insert fresh value s.worker_sessions })
with_session s fresh value v = record {
  worker_sessions = insert-Distinct fresh value s.worker_sessions v.worker_sessions;
  user_sessions = v.user_sessions;
  worker_states = v.worker_states;
  keyed = v.keyed;
  authorised = v.authorised;
}

with_worker :
    (s : Scheduler) (k : Bytes) (w : WorkerState)
    → Inv s
    → w.worker_id ≡ k
    → Inv (record s { worker_states = insert k w s.worker_states })
with_worker s k w v e = record {
  worker_sessions = v.worker_sessions;
  user_sessions = v.user_sessions;
  worker_states = insert-Distinct k w s.worker_states v.worker_states;
  keyed = insert-All (λ j u. u.worker_id ≡ j) k w s.worker_states e v.keyed;
  authorised = v.authorised;
}

authenticate-Inv :
    (fresh : Bytes) (s : Scheduler) (tenant : Bytes) (token : AuthToken)
    → Inv s
    → Inv (authenticate fresh s tenant token).0
unfolding authenticate
authenticate-Inv fresh s tenant (jwt_token raw) v =
    elim (Bool-cases (verify_tenant_jwt s.tenant_auth tenant raw)) [
      | inl e ↦ rw e (with_user s fresh tenant raw v e)
      | inr e ↦ rw e v
    ]
authenticate-Inv fresh s tenant (static_token given) v =
    elim (Bool-cases (bytes_eq given s.worker_token)) [
      | inl e ↦ rw e (with_session s fresh unbound v)
      | inr e ↦ rw e v
    ]
authenticate-Inv fresh s tenant no_token v = v

pick_worker-Inv :
    (s : Scheduler) (tenant image : Bytes) (picked : WorkerState) (after : Scheduler)
    → Inv s
    → pick_worker s tenant image ≡ some (picked, after)
    → Inv after
unfolding bump_load
pick_worker-Inv s tenant image picked after v e =
    let p = pick_worker-IsPick s tenant image picked after v.worker_states e in
    subst Inv (sym p.updated) (
      with_worker s p.key (bump_load p.worker) v
        (lookup-All (λ j u. u.worker_id ≡ j) p.key p.worker s.worker_states v.keyed p.registered))

-- Route leaves the scheduler alone, or leaves it as pickWorker did.
pub route_state :
    (sign : TaskClaims → Option Bytes) (now : ℕ) (s : Scheduler) (req : RouteRequest)
    → ((route sign now s req).0 ≡ s)
      ⊎ ((picked : WorkerState) × (pick_worker s req.tenant_id req.image_digest
            ≡ some (picked, (route sign now s req).0)))
unfolding route dispatch_route
route_state sign now s req = elim (Option-cases (pick_worker s req.tenant_id req.image_digest)) [
  | inl none_free ↦ inl (ground arith)
  | inr ((w, s'), picked) ↦ elim (Option-cases (lookup req.session_token s.user_sessions)) [
    | inl missing ↦ inl (ground arith)
    | inr (tenant, found) ↦
        elim (Bool-cases (bytes_eq tenant [] || not (bytes_eq tenant req.tenant_id))) [
          | inl refused ↦ inl (ground arith)
          | inr passed ↦ inr (w, ground arith)
        ]
  ]
]

route-Inv :
    (sign : TaskClaims → Option Bytes) (now : ℕ) (s : Scheduler) (req : RouteRequest)
    → Inv s
    → Inv (route sign now s req).0
route-Inv sign now s req v = elim (route_state sign now s req) [
  | inl same ↦ subst Inv (sym same) v
  | inr (w, e) ↦ pick_worker-Inv s req.tenant_id req.image_digest w (route sign now s req).0 v e
]

register_worker-Inv :
    (now : ℕ) (s : Scheduler) (req : RegisterWorkerRequest)
    → Inv s
    → Inv (register_worker now s req).0
unfolding register_worker worker_state_from_registration
register_worker-Inv now s req v = elim (Option-cases (lookup req.session_token s.worker_sessions)) [
  | inl e ↦ rw (e, register_worker) v
  | inr (value, e) ↦
      rw (e, register_worker)
        (with_worker
          (record s {
            worker_sessions = insert req.session_token (bound req.worker_id) s.worker_sessions;
          })
          req.worker_id (worker_state_from_registration now req)
          (with_session s req.session_token (bound req.worker_id) v) refl)
]

heartbeat-Inv :
    (now : ℕ) (s : Scheduler) (hb : WorkerHeartbeat) → Inv s → Inv (heartbeat now s hb).0
unfolding heartbeat apply_heartbeat
heartbeat-Inv now s hb v = elim (Option-cases (lookup hb.session_token s.worker_sessions)) [
  | inl missing ↦ rw (missing, heartbeat) v
  | inr (value, found) ↦ elim (Bool-cases (session_is value hb.worker_id)) [
    | inr other ↦ rw (found, other, heartbeat) v
    | inl same ↦ elim (Option-cases (lookup hb.worker_id s.worker_states)) [
      | inl unknown ↦ rw (found, same, unknown, heartbeat) v
      | inr (w, known) ↦
          rw (found, same, known, heartbeat)
            (with_worker s hb.worker_id (apply_heartbeat now hb w) v
              (lookup-All (λ j u. u.worker_id ≡ j) hb.worker_id w s.worker_states v.keyed known))
    ]
  ]
]

-- The reaper's deletions.
module _ {ℓ} {V : Type ℓ} where
  delete_all-Distinct :
      (ks : List Bytes) (m : List (Bytes × V)) → Distinct m → Distinct (delete_all ks m)
  unfolding delete_all
  delete_all-Distinct [] m d = d
  delete_all-Distinct (k ∷ ks) m d = delete_all-Distinct ks (erase k m) (erase-Distinct k m d)

  delete_all-All {κ} :
      (P : Bytes → V → Type κ) (ks : List Bytes) (m : List (Bytes × V))
      → All (λ e. P e.0 e.1) m
      → All (λ e. P e.0 e.1) (delete_all ks m)
  unfolding delete_all
  delete_all-All P [] m h = h
  delete_all-All P (k ∷ ks) m h = delete_all-All P ks (erase k m) (erase-All P k m h)

drop_sessions-Fresh :
    (stale : List Bytes) (k : Bytes) (m : List (Bytes × SessionValue))
    → Fresh k m
    → Fresh k (drop_sessions stale m)
unfolding drop_sessions lookup
drop_sessions-Fresh stale k [] f = refl
drop_sessions-Fresh stale k ((j, v) ∷ m) f = ground (arith, drop_sessions-Fresh stale k m)

drop_sessions-Distinct :
    (stale : List Bytes) (m : List (Bytes × SessionValue))
    → Distinct m
    → Distinct (drop_sessions stale m)
unfolding drop_sessions
drop_sessions-Distinct stale [] d = tt
drop_sessions-Distinct stale ((k, v) ∷ m) d = elim (Bool-cases (is_evicted stale v)) [
  | inl e ↦ rw e (drop_sessions-Distinct stale m d.1)
  | inr e ↦ rw e (drop_sessions-Fresh stale k m d.0, drop_sessions-Distinct stale m d.1)
]

reaped :
    (stale : List Bytes) (s : Scheduler)
    → Inv s
    → Inv (record s {
      worker_states = delete_all stale s.worker_states;
      worker_sessions = drop_sessions stale s.worker_sessions;
    })
reaped stale s v = record {
  worker_sessions = drop_sessions-Distinct stale s.worker_sessions v.worker_sessions;
  user_sessions = v.user_sessions;
  worker_states = delete_all-Distinct stale s.worker_states v.worker_states;
  keyed = delete_all-All (λ j u. u.worker_id ≡ j) stale s.worker_states v.keyed;
  authorised = v.authorised;
}

reap_from :
    (now timeout : ℕ) (s : Scheduler) (stale : List Bytes)
    → stale_workers now timeout s.worker_states ≡ stale
    → Inv s
    → Inv (reap_stale_workers now timeout s)
unfolding reap_stale_workers
reap_from now timeout s [] e v = rw (e, reap_stale_workers) v
reap_from now timeout s (k ∷ ks) e v = rw (e, reap_stale_workers) (reaped (k ∷ ks) s v)

-- Every call keeps the invariant of the scheduler: the keys of the three maps are distinct, a
-- worker stands under its own identifier, and every user session names a tenant for which a token
-- was accepted.
pub step-Inv :
    (sign : TaskClaims → Option Bytes) (s : Scheduler) (c : Call) → Inv s → Inv (step sign s c)
unfolding step
step-Inv sign s (authenticates fresh tenant token) v = authenticate-Inv fresh s tenant token v
step-Inv sign s (routes now req) v = route-Inv sign now s req v
step-Inv sign s (registers now req) v = register_worker-Inv now s req v
step-Inv sign s (beats now hb) v = heartbeat-Inv now s hb v
step-Inv sign s (reaps now timeout) v = reap_from now timeout s _ refl v

pub run-Inv :
    (sign : TaskClaims → Option Bytes) (s : Scheduler) (cs : List Call)
    → Inv s
    → Inv (run sign s cs)
unfolding run
run-Inv sign s [] v = v
run-Inv sign s (c ∷ cs) v = run-Inv sign (step sign s c) cs (step-Inv sign s c v)
