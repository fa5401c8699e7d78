-- ===== src/Scheduler.antt =====
-- internal/scheduler/state.go and scheduler.go. A sync.Map is an association list, whose order
-- stands for any order of Range; the clock, fresh session tokens, jwt.Parse and the signature are
-- arguments. Log lines and metrics change no state and are left out.
mod State
mod Auth
mod Dispatch
mod Workers
pub mod Routing
pub mod Route
pub mod Invariant
pub mod Sessions
pub mod Heartbeats
pub mod Reaping
mod Examples
unfoldable pub use State.*
unfoldable pub use Auth.*
unfoldable pub use Dispatch.*
unfoldable pub use Workers.*
use hpcc.Prelude.{
  ℕ, suc, ◌+◌, ◌/◌, ◌*◌, ◌≡◌, Bool, true, false, not, ◌||◌, ◌&&◌, Option, none, some, List, [], ◌∷◌,
  Bytes, codes, bytes_eq, contains, ltb, ◌==◌, if◌then◌else◌, length,
}
use hpcc.Prelude.Int.{ℤ, pos, negsuc, ◌+ℤ◌, ◌-ℤ◌, ltb_ℤ}
use hpcc.Prelude.Assoc.{lookup, insert, erase}

-- NewScheduler: the maps are empty. `tenants` are the configured tenants with their key functions.
pub new_scheduler : Bytes → Bool → List (Bytes × TenantAuth) → Bytes → Scheduler
new_scheduler worker_token sticky tenants pub_key = record {
  worker_token = worker_token;
  sticky_tenants = sticky;
  tenant_auth = tenants;
  worker_sessions = [];
  user_sessions = [];
  worker_states = [];
  signing_pub_key = pub_key;
}

-- The calls that reach the scheduler, with the values that they draw from outside.
pub data Call : Type 0 where
  authenticates : Bytes → Bytes → AuthToken → Call
  routes : ℕ → RouteRequest → Call
  registers : ℕ → RegisterWorkerRequest → Call
  beats : ℕ → WorkerHeartbeat → Call
  reaps : ℕ → ℕ → Call

pub step : (TaskClaims → Option Bytes) → Scheduler → Call → Scheduler
step sign s (authenticates fresh tenant token) = (authenticate fresh s tenant token).0
step sign s (routes now req) = (route sign now s req).0
step sign s (registers now req) = (register_worker now s req).0
step sign s (beats now hb) = (heartbeat now s hb).0
step sign s (reaps now timeout) = reap_stale_workers now timeout s

pub run : (TaskClaims → Option Bytes) → Scheduler → List Call → Scheduler
run sign s [] = s
run sign s (c ∷ cs) = run sign (step sign s c) cs
