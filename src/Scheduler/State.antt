-- ===== src/Scheduler/State.antt =====
-- The scheduler's state, its errors and its results: internal/scheduler/state.go and the types of
-- scheduler.go.
use hpcc.Prelude.{ℕ, Bool, Option, List, Bytes}
use hpcc.Prelude.Int.{ℤ}

pub record VmInfo : Type 0 where
  pub vm_id : Bytes
  pub tenant_id : Bytes
  pub image_digest : Bytes
  pub state : ℕ

-- `available_vcpus` and `current_load` are int32; times are nanoseconds.
pub record WorkerState : Type 0 where
  pub worker_id : Bytes
  pub public_addr : Bytes
  pub image_digests : List Bytes
  pub available_vcpus : ℤ
  pub current_load : ℤ
  pub runtime : ℕ
  pub cert_fingerprint : Bytes
  pub active_vms : List VmInfo
  pub last_heartbeat : ℕ

-- A claim of a token, by the Go types that the code asks for.
pub data Claim : Type 0 where
  text : Bytes → Claim
  texts : List Bytes → Claim
  mixed : List (Option Bytes) → Claim
  other : Claim

-- `parse` is jwt.Parse with the tenant's key function: the claims of a token that is valid.
pub record TenantAuth : Type 0 where
  pub parse : Bytes → Option (List (Bytes × Claim))
  pub issuer : Bytes
  pub token_url : Bytes
  pub audience : Bytes
  pub client_id : Bytes
  pub scope : Bytes

-- A worker session holds `true` until the worker registers, then its ID.
pub data SessionValue : Type 0 where
  unbound : SessionValue
  bound : Bytes → SessionValue

pub record Scheduler : Type 0 where
  pub worker_token : Bytes
  pub sticky_tenants : Bool
  pub tenant_auth : List (Bytes × TenantAuth)
  pub worker_sessions : List (Bytes × SessionValue)
  pub user_sessions : List (Bytes × Bytes)
  pub worker_states : List (Bytes × WorkerState)
  pub signing_pub_key : Bytes

pub record IdpInfo : Type 0 where
  pub issuer : Bytes
  pub token_url : Bytes
  pub audience : Bytes
  pub client_id : Bytes
  pub scope : Bytes

pub data Error : Type 0 where
  unknown_tenant unauthenticated no_available_worker sign_failed session_mismatch : Error
  not_registered : Error

pub data Result {ℓ} (A : Type ℓ) : Type ℓ where
  ok : A → Result A
  err : Error → Result A
