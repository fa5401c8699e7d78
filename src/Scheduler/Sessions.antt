-- ===== src/Scheduler/Sessions.antt =====
-- What a session allows: routing for one verified tenant, heartbeats for one worker.
use hpcc.Prelude.{
  ℕ, ◌≡◌, refl, ◌∙◌, ap, inl, inr, subst, Bool, Option, some, List, [], ◌∷◌, Bytes, arith,
}
use hpcc.Prelude.Assoc.{lookup-All}
use hpcc.Scheduler.{
  Scheduler, WorkerState, TenantAuth, AuthToken, jwt_token, static_token, no_token, TaskClaims,
  RouteRequest, RouteResponse, ok, authenticate, pick_worker, route, register_worker, heartbeat,
  reap_stale_workers, new_scheduler, Call, authenticates, routes, registers, beats, reaps, step,
  run,
}
use hpcc.Scheduler.Route.{route-Routed}
use hpcc.Scheduler.Invariant.{Verified, new_scheduler-Inv, run-Inv, route_state}

pick_worker-tenant_auth :
    (s after : Scheduler) (tenant image : Bytes) (w : WorkerState)
    → pick_worker s tenant image ≡ some (w, after)
    → after.tenant_auth ≡ s.tenant_auth
unfolding pick_worker
pick_worker-tenant_auth s after tenant image w e = ground arith

route-tenant_auth :
    (sign : TaskClaims → Option Bytes) (now : ℕ) (s : Scheduler) (req : RouteRequest)
    → (route sign now s req).0.tenant_auth ≡ s.tenant_auth
route-tenant_auth sign now s req = elim (route_state sign now s req) [
  | inl same ↦ ap (λ (t : Scheduler). t.tenant_auth) same
  | inr (w, e) ↦
      pick_worker-tenant_auth s (route sign now s req).0 req.tenant_id req.image_digest w e
]

authenticate-tenant_auth :
    (fresh : Bytes) (s : Scheduler) (tenant : Bytes) (token : AuthToken)
    → (authenticate fresh s tenant token).0.tenant_auth ≡ s.tenant_auth
unfolding authenticate
authenticate-tenant_auth fresh s tenant (jwt_token raw) = ground arith
authenticate-tenant_auth fresh s tenant (static_token given) = ground arith
authenticate-tenant_auth fresh s tenant no_token = refl

-- The configured tenants never change.
step-tenant_auth :
    (sign : TaskClaims → Option Bytes) (s : Scheduler) (c : Call)
    → (step sign s c).tenant_auth ≡ s.tenant_auth
unfolding step register_worker heartbeat reap_stale_workers
step-tenant_auth sign s (authenticates fresh tenant token) =
    authenticate-tenant_auth fresh s tenant token
step-tenant_auth sign s (routes now req) = route-tenant_auth sign now s req
step-tenant_auth sign s (registers now req) = ground arith
step-tenant_auth sign s (beats now hb) = ground arith
step-tenant_auth sign s (reaps now timeout) = ground arith

run-tenant_auth :
    (sign : TaskClaims → Option Bytes) (s : Scheduler) (cs : List Call)
    → (run sign s cs).tenant_auth ≡ s.tenant_auth
unfolding run
run-tenant_auth sign s [] = refl
run-tenant_auth sign s (c ∷ cs) =
    run-tenant_auth sign (step sign s c) cs ∙ step-tenant_auth sign s c

module _ (worker_token : Bytes) (sticky : Bool) (tenants : List (Bytes × TenantAuth))
    (key : Bytes) where
  abbrev start : Scheduler
  start = new_scheduler worker_token sticky tenants key

  -- Whenever Route answers a request after any history of calls to a new scheduler, the tenant of
  -- the request is one for which a token was accepted: some token passes verify_tenant_jwt against
  -- this very tenant of the configuration.
  pub route-Verified :
      (sign : TaskClaims → Option Bytes) (cs : List Call) (now : ℕ) (req : RouteRequest)
      (after : Scheduler) (resp : RouteResponse)
      → route sign now (run sign start cs) req ≡ (after, ok resp)
      → Verified tenants req.tenant_id
  unfolding new_scheduler
  route-Verified sign cs now req after resp e =
      let s = run sign start cs in
      let v = run-Inv sign start cs (new_scheduler-Inv worker_token sticky tenants key) in
      let r = route-Routed sign now s req after resp v.worker_states e in
      subst (λ t. Verified t req.tenant_id) (run-tenant_auth sign start cs)
        (lookup-All (λ k t. Verified s.tenant_auth t) req.session_token req.tenant_id
          s.user_sessions v.authorised r.session)
