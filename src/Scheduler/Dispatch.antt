-- ===== src/Scheduler/Dispatch.antt =====
-- pickWorker, signTaskToken and Route of internal/scheduler/scheduler.go.
use hpcc.Prelude.{
  ℕ, ◌+◌, ◌/◌, ◌*◌, Bool, true, false, not, ◌||◌, ◌&&◌, Option, none, some, List, [], ◌∷◌, Bytes,
  bytes_eq, contains, ◌==◌, if◌then◌else◌,
}
use hpcc.Prelude.Int.{ℤ, pos, negsuc, ◌+ℤ◌, ◌-ℤ◌, ltb_ℤ}
use hpcc.Prelude.Assoc.{lookup, insert}
use hpcc.Scheduler.State.{
  VmInfo, WorkerState, Scheduler, Result, unauthenticated, no_available_worker, sign_failed, ok,
  err,
}

abbrev cold_pull_penalty : ℤ
cold_pull_penalty = pos 100

abbrev sticky_tenant_bonus : ℤ
sticky_tenant_bonus = pos 2

hosts_vm : Bytes → Bytes → List VmInfo → Bool
hosts_vm tenant image [] = false
hosts_vm tenant image (vm ∷ vms) =
    if bytes_eq vm.tenant_id tenant && bytes_eq vm.image_digest image
    then true
    else hosts_vm tenant image vms

-- The float64 score, which for int32 loads is an exact integer.
unfoldable pub score : Bool → Bytes → Bytes → WorkerState → ℤ
unfolding contains hosts_vm
score sticky tenant image w =
    let load = w.current_load in
    let pulled = if contains image w.image_digests then load else load +ℤ cold_pull_penalty in
    if sticky
    then (if hosts_vm tenant image w.active_vms then pulled -ℤ sticky_tenant_bonus else pulled)
    else pulled

unfoldable pub has_capacity : WorkerState → Bool
has_capacity w = ltb_ℤ (pos 0) w.available_vcpus

-- A candidate: its key, its state and its score. None stands for math.MaxFloat64, which is above
-- every score.
abbrev pub Candidate : Type 0
Candidate = Option (Bytes × WorkerState × ℤ)

unfoldable pub consider : Bool → Bytes → Bytes → Bytes → WorkerState → Candidate → Candidate
consider sticky tenant image k w best = if not (has_capacity w) then best else elim best [
  | none ↦ some (k, w, score sticky tenant image w)
  | some (bk, bw, bs) ↦
      if ltb_ℤ (score sticky tenant image w) bs
      then some (k, w, score sticky tenant image w)
      else some (bk, bw, bs)
]

unfoldable pub pick_loop : Bool → Bytes → Bytes → List (Bytes × WorkerState) → Candidate → Candidate
unfolding consider
pick_loop sticky tenant image [] best = best
pick_loop sticky tenant image ((k, w) ∷ m) best =
    pick_loop sticky tenant image m (consider sticky tenant image k w best)

-- atomic.AddInt32(&load, 1), which wraps.
unfoldable add_int32_one : ℤ → ℤ
add_int32_one (pos n) = if n == 2147483647 then negsuc 2147483647 else pos (n + 1)
add_int32_one (negsuc n) = negsuc n +ℤ pos 1

unfoldable pub bump_load : WorkerState → WorkerState
unfolding add_int32_one
bump_load w = record w { current_load = add_int32_one w.current_load }

-- The worker that was picked, and the scheduler with its load counted up.
unfoldable pub pick_worker : Scheduler → Bytes → Bytes → Option (WorkerState × Scheduler)
pick_worker s tenant image = elim (pick_loop s.sticky_tenants tenant image s.worker_states none) [
  | none ↦ none
  | some (k, w, _) ↦
      some (bump_load w, record s { worker_states = insert k (bump_load w) s.worker_states })
]

pub record TaskClaims : Type 0 where
  pub tenant_id : Bytes
  pub image_digest : Bytes
  pub worker_id : Bytes
  pub iat : ℕ
  pub exp : ℕ

abbrev second : ℕ
second = 1000000000

-- taskTokenTTL is five minutes.
unfoldable pub task_claims : ℕ → Bytes → Bytes → Bytes → TaskClaims
task_claims now tenant image worker = record {
  tenant_id = tenant;
  image_digest = image;
  worker_id = worker;
  iat = now / second;
  exp = (now + 300 * second) / second;
}

pub record RouteRequest : Type 0 where
  pub session_token : Bytes
  pub tenant_id : Bytes
  pub image_digest : Bytes

pub record RouteResponse : Type 0 where
  pub worker_address : Bytes
  pub token : Bytes
  pub cert_fingerprint : Bytes

-- The part of Route behind the session checks. `sign` is the EdDSA signature of the claims.
unfoldable pub dispatch_route :
    (TaskClaims → Option Bytes) → ℕ → Scheduler → RouteRequest → Scheduler × Result RouteResponse
dispatch_route sign now s req = elim (pick_worker s req.tenant_id req.image_digest) [
  | none ↦ (s, err no_available_worker)
  | some (w, s') ↦ elim (sign (task_claims now req.tenant_id req.image_digest w.worker_id)) [
    | none ↦ (s', err sign_failed)
    | some token ↦ (
      s',
      ok (record {
        worker_address = w.public_addr;
        token = token;
        cert_fingerprint = w.cert_fingerprint;
      }),
    )
  ]
]

unfoldable pub route :
    (TaskClaims → Option Bytes) → ℕ → Scheduler → RouteRequest → Scheduler × Result RouteResponse
route sign now s req = elim (lookup req.session_token s.user_sessions) [
  | none ↦ (s, err unauthenticated)
  | some tenant ↦
      if bytes_eq tenant [] || not (bytes_eq tenant req.tenant_id)
      then (s, err unauthenticated)
      else dispatch_route sign now s req
]
