-- ===== src/Scheduler/Route.antt =====
-- Route: what it checks, what it answers, and what it leaves alone.
use hpcc.Prelude.{
  ℕ, ◌≡◌, ◌≢◌, refl, ◌∙◌, ap, inl, inr, false, not, ◌||◌, Option, none, some, [], Bytes, bytes_eq,
  bytes_eq_iff, arith, Bool-cases, Option-cases,
}
use hpcc.Prelude.Assoc.{lookup, Distinct}
use hpcc.Scheduler.{
  Scheduler, WorkerState, pick_worker, ok, err, unauthenticated, RouteRequest, RouteResponse,
  TaskClaims, task_claims, route, dispatch_route,
}
use hpcc.Scheduler.Routing.{IsPick, pick_worker-IsPick}

-- Who was asked for and what was answered, when Route succeeds.
pub record Routed (sign : TaskClaims → Option Bytes) (now : ℕ) (s : Scheduler) (req : RouteRequest)
    (after : Scheduler) (resp : RouteResponse) : Type 0 where
  pub session : lookup req.session_token s.user_sessions ≡ some req.tenant_id
  pub named : req.tenant_id ≢ []
  pub picked : WorkerState
  pub pick : IsPick s req.tenant_id req.image_digest picked after
  pub address : resp.worker_address ≡ picked.public_addr
  pub fingerprint : resp.cert_fingerprint ≡ picked.cert_fingerprint
  pub signed :
      sign (task_claims now req.tenant_id req.image_digest picked.worker_id) ≡ some resp.token

dispatch_from :
    (sign : TaskClaims → Option Bytes) (now : ℕ) (s : Scheduler) (req : RouteRequest)
    (after : Scheduler) (resp : RouteResponse) (p : Option (WorkerState × Scheduler))
    → Distinct s.worker_states
    → lookup req.session_token s.user_sessions ≡ some req.tenant_id
    → req.tenant_id ≢ []
    → pick_worker s req.tenant_id req.image_digest ≡ p
    → dispatch_route sign now s req ≡ (after, ok resp)
    → Routed sign now s req after resp
unfolding dispatch_route
dispatch_from sign now s req after resp none d session named e h =
    absurd (let q : ⊥ = ground arith in q)
dispatch_from sign now s req after resp (some (w, s')) d session named e h = record {
  session = session;
  named = named;
  picked = w;
  pick = pick_worker-IsPick s req.tenant_id req.image_digest w after d same;
  address = ground (arith, e);
  fingerprint = ground (arith, e);
  signed = ground (arith, e);
}
  where
    same : pick_worker s req.tenant_id req.image_digest ≡ some (w, after)
    same = ground (arith, e)

route_from :
    (sign : TaskClaims → Option Bytes) (now : ℕ) (s : Scheduler) (req : RouteRequest)
    (after : Scheduler) (resp : RouteResponse) (session : Option Bytes)
    → Distinct s.worker_states
    → lookup req.session_token s.user_sessions ≡ session
    → route sign now s req ≡ (after, ok resp)
    → Routed sign now s req after resp
unfolding route
route_from sign now s req after resp none d e h = absurd (let q : ⊥ = ground arith in q)
route_from sign now s req after resp (some tenant) d e h =
    dispatch_from sign now s req after resp _ d (e ∙ ap (λ (t : Bytes). some t) facts.1)
      (λ q. facts.0 (facts.1 ∙ q)) refl facts.2
  where
    facts :
        (tenant ≢ [])
        × (tenant ≡ req.tenant_id)
        × (dispatch_route sign now s req ≡ (after, ok resp))
    facts = (
      λ q. ground (arith, bytes_eq_iff tenant [], bytes_eq_iff tenant req.tenant_id),
      ground (arith, bytes_eq_iff tenant [], bytes_eq_iff tenant req.tenant_id),
      ground (arith, bytes_eq_iff tenant [], bytes_eq_iff tenant req.tenant_id),
    )

-- When Route succeeds on a scheduler with distinct worker keys, the session of the request belongs
-- to its tenant, which is not empty; the worker is the pick of pick_worker, a registered one with
-- free capacity and a least score; the address and the fingerprint are its own, and the token is
-- the signature of the claims for this tenant, image and worker.
pub route-Routed :
    (sign : TaskClaims → Option Bytes) (now : ℕ) (s : Scheduler) (req : RouteRequest)
    (after : Scheduler) (resp : RouteResponse)
    → Distinct s.worker_states
    → route sign now s req ≡ (after, ok resp)
    → Routed sign now s req after resp
route-Routed sign now s req after resp d h = route_from sign now s req after resp _ d refl h

-- Unless the session of a request is known and belongs to the named, non-empty tenant, Route
-- refuses it as unauthenticated and changes nothing.
pub route_unauthenticated :
    (sign : TaskClaims → Option Bytes) (now : ℕ) (s : Scheduler) (req : RouteRequest)
    → ¬ ((lookup req.session_token s.user_sessions ≡ some req.tenant_id) × (req.tenant_id ≢ []))
    → route sign now s req ≡ (s, err unauthenticated)
unfolding route
route_unauthenticated sign now s req h =
    elim (Option-cases (lookup req.session_token s.user_sessions)) [
      | inl missing ↦ rw (missing, route)
      | inr (tenant, found) ↦
          elim (Bool-cases (bytes_eq tenant [] || not (bytes_eq tenant req.tenant_id))) [
            | inl refused ↦ rw (found, refused, route)
            | inr passed ↦
                let same : tenant ≡ req.tenant_id =
                  ground (arith, bytes_eq_iff tenant req.tenant_id) in
                let named : bytes_eq tenant [] ≡ false = ground arith in
                absurd (
                  h (
                    found ∙ ap (λ (t : Bytes). some t) same,
                    λ q. let r = (bytes_eq_iff tenant []).1 (same ∙ q) in cc,
                  ))
          ]
    ]
