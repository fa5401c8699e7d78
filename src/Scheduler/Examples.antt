-- ===== src/Scheduler/Examples.antt =====
-- Runs of the scheduler, and the component's theorems at concrete inputs.
use hpcc.Prelude.{
  ◌⊎◌, arith, ℕ, ◌≡◌, ◌≢◌, refl, ap, Bool, true, false, Option, none, some, List, [], ◌∷◌, Bytes,
  codes, bytes_eq, contains,
}
use hpcc.Prelude.Int.{pos}
use hpcc.Prelude.Assoc.{lookup, insert, erase}
use hpcc.Scheduler.{
  Scheduler, WorkerState, TenantAuth, Claim, text, texts, jwt_token, static_token, ok, RouteRequest,
  RouteResponse, RegisterWorkerRequest, WorkerHeartbeat, TaskClaims, verify_tenant_jwt,
  authenticate, pick_worker, route, register_worker, heartbeat, reap_stale_workers, new_scheduler,
  Call, authenticates, registers, reaps, step, run, has_capacity, is_stale, stale_workers,
  delete_all, is_evicted, drop_sessions, audience_matches, dispatch_route, pick_loop,
  worker_state_from_registration, score, bump_load, apply_heartbeat, session_is, task_claims,
}
use hpcc.Scheduler.Routing.{IsPick, pick_worker-IsPick}
use hpcc.Scheduler.Route.{Routed, route-Routed}
use hpcc.Scheduler.Invariant.{Verified, Inv, new_scheduler-Inv, step-Inv, run-Inv}
use hpcc.Scheduler.Sessions.{route-Verified}
use hpcc.Scheduler.Heartbeats.{IsAllowed, Survived, Refused, heartbeat-Survived}
use hpcc.Scheduler.Reaping.{live_worker, live_session, reap_stale_workers_lem}

abbrev token_claims : List (Bytes × Claim)
token_claims =
    (codes "iss", text (codes "https://idp"))
    ∷ (codes "aud", texts (codes "other" ∷ codes "hpcc" ∷ []))
    ∷ []

parse_token : Bytes → Option (List (Bytes × Claim))
unfolding bytes_eq
parse_token raw = if_signed (bytes_eq raw (codes "signed"))
  where
    if_signed : Bool → Option (List (Bytes × Claim))
    if_signed true = some token_claims
    if_signed false = none

abbrev acme_auth : TenantAuth
acme_auth = record {
  parse = parse_token;
  issuer = codes "https://idp";
  token_url = codes "https://idp/token";
  audience = codes "hpcc";
  client_id = codes "cli";
  scope = codes "openid";
}

abbrev tenants : List (Bytes × TenantAuth)
tenants = (codes "acme", acme_auth) ∷ []

abbrev first : Scheduler
first = new_scheduler (codes "worker") true tenants (codes "pub")

sign_ok : TaskClaims → Option Bytes
sign_ok claims = some claims.worker_id

abbrev registration : Bytes → Bytes → ℕ → RegisterWorkerRequest
registration token id load = record {
  session_token = token;
  worker_id = id;
  public_addr = id;
  image_digests = codes "img" ∷ [];
  available_vcpus = pos 4;
  current_load = pos load;
  runtime = 0;
  cert_fingerprint = codes "cert";
}

abbrev history : List Call
history =
    authenticates (codes "s1") [] (static_token (codes "worker"))
    ∷ authenticates (codes "s2") [] (static_token (codes "worker"))
    ∷ authenticates (codes "u1") (codes "acme") (jwt_token (codes "signed"))
    ∷ registers 100 (registration (codes "s1") (codes "w1") 3)
    ∷ registers 200 (registration (codes "s2") (codes "w2") 1)
    ∷ []

abbrev request : RouteRequest
request = record {
  session_token = codes "u1";
  tenant_id = codes "acme";
  image_digest = codes "img";
}

abbrev beat : WorkerHeartbeat
beat = record {
  session_token = codes "s1";
  worker_id = codes "w1";
  available_vcpus = pos 2;
  current_load = pos 5;
  active_vms = [];
}

-- Calls that run.
runs : List Call → Scheduler
unfolding run step authenticate register_worker heartbeat reap_stale_workers new_scheduler
    verify_tenant_jwt audience_matches lookup insert erase bytes_eq contains is_stale stale_workers
    delete_all is_evicted drop_sessions parse_token sign_ok route dispatch_route pick_worker
    pick_loop has_capacity worker_state_from_registration score bump_load apply_heartbeat session_is
    task_claims
runs calls = run sign_ok first calls

abbrev busy : Scheduler
busy = runs history

abbrev answer : RouteResponse
answer = record { worker_address = codes "w2"; token = codes "w2"; cert_fingerprint = codes "cert" }

abbrev after_route : Scheduler
after_route = (route sign_ok 5 busy request).0

routed : route sign_ok 5 busy request ≡ (after_route, ok answer)
unfolding runs
routed = refl

sessions_gone : (runs (history)).user_sessions ≡ (codes "u1", codes "acme") ∷ []
unfolding runs
sessions_gone = refl

route-Verified_example : Verified tenants (codes "acme")
unfolding runs
route-Verified_example =
    route-Verified (codes "worker") true tenants (codes "pub") sign_ok history 5 request after_route
      answer routed

busy-Inv : Inv busy
unfolding runs
busy-Inv =
    run-Inv sign_ok first history (new_scheduler-Inv (codes "worker") true tenants (codes "pub"))

route-Routed_example : Routed sign_ok 5 busy request after_route answer
route-Routed_example =
    route-Routed sign_ok 5 busy request after_route answer busy-Inv.worker_states routed

is_acme : Option Bytes → Bool
is_acme none = false
is_acme (some t) = bytes_eq t (codes "acme")

not_evil : ¬ ((lookup (codes "u1") busy.user_sessions ≡ some (codes "evil")) × (codes "evil" ≢ []))
unfolding runs is_acme
not_evil h = let q : true ≡ false = ap is_acme h.0 in cc

abbrev first_of : Option (WorkerState × Scheduler) → WorkerState × Scheduler
first_of (some p) = p
first_of none = (worker_state_from_registration 0 (registration [] [] 0), first)

picks : Bytes → Bytes → WorkerState × Scheduler
unfolding runs
picks tenant image = first_of (pick_worker busy tenant image)

pick_worker-IsPick_example :
    IsPick busy
      (codes "acme")
      (codes "img")
      (picks (codes "acme") (codes "img")).0
      (picks (codes "acme") (codes "img")).1
unfolding picks
pick_worker-IsPick_example =
    pick_worker-IsPick busy (codes "acme") (codes "img") (picks (codes "acme") (codes "img")).0
      (picks (codes "acme") (codes "img")).1 busy-Inv.worker_states refl

step-Inv_example : Inv (step sign_ok busy (reaps 1000 500))
step-Inv_example = step-Inv sign_ok busy (reaps 1000 500) busy-Inv

heartbeat-Survived_example :
    (IsAllowed busy beat
      × Survived 300 busy beat (reap_stale_workers 750 500 (heartbeat 300 busy beat).0))
    ⊎ (¬ IsAllowed busy beat × Refused 300 busy beat)
heartbeat-Survived_example = heartbeat-Survived 300 750 500 busy beat busy-Inv (omega arith)

reap_stale_workers_lem_example :
    (lookup (codes "w1") (reap_stale_workers 650 500 busy).worker_states
      ≡ live_worker 650 500 (lookup (codes "w1") busy.worker_states))
    × (lookup (codes "w1") (reap_stale_workers 650 500 busy).worker_sessions
        ≡ live_session 650 500 busy.worker_states (lookup (codes "w1") busy.worker_sessions))
    × ((reap_stale_workers 650 500 busy).user_sessions ≡ busy.user_sessions)
reap_stale_workers_lem_example =
    reap_stale_workers_lem 650 500 busy (codes "w1") busy-Inv.worker_states busy-Inv.worker_sessions
