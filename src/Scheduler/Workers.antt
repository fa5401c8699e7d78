-- ===== src/Scheduler/Workers.antt =====
-- RegisterWorker, Heartbeat and the reaper of internal/scheduler/scheduler.go, and the functions of
-- internal/scheduler/state.go.
use hpcc.Prelude.{
  ℕ, ◌+◌, ◌/◌, Bool, true, false, not, Option, none, some, List, [], ◌∷◌, Bytes, bytes_eq, contains,
  ltb, ◌==◌, if◌then◌else◌, length,
}
use hpcc.Prelude.Int.{ℤ}
use hpcc.Prelude.Assoc.{lookup, insert, erase}
use hpcc.Scheduler.State.{
  VmInfo, WorkerState, SessionValue, Scheduler, Result, unbound, bound, unauthenticated,
  session_mismatch, not_registered, ok, err,
}

pub record RegisterWorkerRequest : Type 0 where
  pub session_token : Bytes
  pub worker_id : Bytes
  pub public_addr : Bytes
  pub image_digests : List Bytes
  pub available_vcpus : ℤ
  pub current_load : ℤ
  pub runtime : ℕ
  pub cert_fingerprint : Bytes

unfoldable pub worker_state_from_registration : ℕ → RegisterWorkerRequest → WorkerState
worker_state_from_registration now req = record {
  worker_id = req.worker_id;
  public_addr = req.public_addr;
  image_digests = req.image_digests;
  available_vcpus = req.available_vcpus;
  current_load = req.current_load;
  runtime = req.runtime;
  cert_fingerprint = req.cert_fingerprint;
  active_vms = [];
  last_heartbeat = now;
}

unfoldable pub register_worker : ℕ → Scheduler → RegisterWorkerRequest → Scheduler × Bool
register_worker now s req = elim (lookup req.session_token s.worker_sessions) [
  | none ↦ (s, false)
  | some _ ↦ (
    record s {
      worker_sessions = insert req.session_token (bound req.worker_id) s.worker_sessions;
      worker_states = insert req.worker_id (worker_state_from_registration now req) s.worker_states;
    },
    true,
  )
]

pub record WorkerHeartbeat : Type 0 where
  pub session_token : Bytes
  pub worker_id : Bytes
  pub available_vcpus : ℤ
  pub current_load : ℤ
  pub active_vms : List VmInfo

unfoldable pub apply_heartbeat : ℕ → WorkerHeartbeat → WorkerState → WorkerState
apply_heartbeat now hb w = record w {
  available_vcpus = hb.available_vcpus;
  current_load = hb.current_load;
  last_heartbeat = now;
  active_vms = hb.active_vms;
}

-- `workerID != in.WorkerId`, for a session value against a string.
unfoldable pub session_is : SessionValue → Bytes → Bool
session_is unbound id = false
session_is (bound w) id = bytes_eq w id

unfoldable pub heartbeat : ℕ → Scheduler → WorkerHeartbeat → Scheduler × Result (Unit {0})
heartbeat now s hb = elim (lookup hb.session_token s.worker_sessions) [
  | none ↦ (s, err unauthenticated)
  | some value ↦
      if not (session_is value hb.worker_id)
      then (s, err session_mismatch)
      else elim (lookup hb.worker_id s.worker_states) [
        | none ↦ (s, err not_registered)
        | some w ↦ (
          record s {
            worker_states = insert hb.worker_id (apply_heartbeat now hb w) s.worker_states;
          },
          ok tt,
        )
      ]
]

unfoldable registered_workers : Scheduler → ℕ
registered_workers s = length s.worker_states

-- `LastHeartbeat.Before(now - timeout)`.
unfoldable pub is_stale : ℕ → ℕ → WorkerState → Bool
is_stale now timeout w = ltb (w.last_heartbeat + timeout) now

unfoldable pub stale_workers : ℕ → ℕ → List (Bytes × WorkerState) → List Bytes
stale_workers now timeout [] = []
stale_workers now timeout ((k, w) ∷ m) =
    if is_stale now timeout w then k ∷ stale_workers now timeout m else stale_workers now timeout m

unfoldable pub delete_all {ℓ} : {V : Type ℓ} → List Bytes → List (Bytes × V) → List (Bytes × V)
delete_all [] m = m
delete_all (k ∷ ks) m = delete_all ks (erase k m)

-- A session that is bound to an evicted worker.
unfoldable pub is_evicted : List Bytes → SessionValue → Bool
is_evicted stale unbound = false
is_evicted stale (bound w) = contains w stale

unfoldable pub drop_sessions :
    List Bytes → List (Bytes × SessionValue) → List (Bytes × SessionValue)
drop_sessions stale [] = []
drop_sessions stale ((k, v) ∷ m) =
    if is_evicted stale v then drop_sessions stale m else (k, v) ∷ drop_sessions stale m

unfoldable pub reap_stale_workers : ℕ → ℕ → Scheduler → Scheduler
reap_stale_workers now timeout s = elim (stale_workers now timeout s.worker_states) [
  | [] ↦ s
  | k ∷ ks ↦ record s {
    worker_states = delete_all (k ∷ ks) s.worker_states;
    worker_sessions = drop_sessions (k ∷ ks) s.worker_sessions;
  }
]

abbrev second : ℕ
second = 1000000000

-- The tick of StartReaper; none where the timeout disables it.
unfoldable reap_interval : ℕ → Option ℕ
reap_interval timeout =
    if timeout == 0
    then none
    else if ltb (timeout / 3) second
    then some second
    else some (timeout / 3)
