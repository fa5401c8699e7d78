-- ===== src/Scheduler/Heartbeats.antt =====
-- Heartbeats: who may send one, and that a worker that has sent one outlives the reaper.
use hpcc.Prelude.{
  ℕ, ◌+◌, ◌≤◌, ◌≡◌, ◌≢◌, ◌⊎◌, refl, sym, ◌∙◌, ap, subst, inl, inr, true, false, some, List, Bytes,
  bytes_eq_iff, Bool-cases, Option-cases, arith,
}
use hpcc.Prelude.Assoc.{Distinct, lookup, insert, insert-Distinct, lookup-insert}
use hpcc.Scheduler.{
  Scheduler, WorkerState, SessionValue, bound, unbound, WorkerHeartbeat, Error, unauthenticated,
  session_mismatch, not_registered, ok, err, heartbeat, reap_stale_workers, apply_heartbeat,
  session_is, is_stale,
}
use hpcc.Scheduler.Invariant.{Inv}
use hpcc.Scheduler.Reaping.{live_worker, live_session, reap_stale_workers_lem}

-- The session is bound to the worker that the heartbeat names, which is registered.
abbrev pub IsAllowed : Scheduler → WorkerHeartbeat → Type 0
IsAllowed s hb =
    (lookup hb.session_token s.worker_sessions ≡ some (bound hb.worker_id))
    × ((w : WorkerState) × (lookup hb.worker_id s.worker_states ≡ some w))

-- The heartbeat is accepted at `now`, and `late` is the state behind a run of the reaper after it.
pub record Survived (now : ℕ) (s : Scheduler) (hb : WorkerHeartbeat) (late : Scheduler)
    : Type 0 where
  pub accepted : (heartbeat now s hb).1 ≡ ok tt
  pub old : WorkerState
  pub registered : lookup hb.worker_id s.worker_states ≡ some old
  pub seen : WorkerState
  pub there : lookup hb.worker_id late.worker_states ≡ some seen
  pub session : lookup hb.session_token late.worker_sessions ≡ some (bound hb.worker_id)
  pub at : seen.last_heartbeat ≡ now
  pub available_vcpus : seen.available_vcpus ≡ hb.available_vcpus
  pub current_load : seen.current_load ≡ hb.current_load
  pub active_vms : seen.active_vms ≡ hb.active_vms
  pub worker_id : seen.worker_id ≡ old.worker_id
  pub public_addr : seen.public_addr ≡ old.public_addr
  pub image_digests : seen.image_digests ≡ old.image_digests
  pub cert_fingerprint : seen.cert_fingerprint ≡ old.cert_fingerprint
  pub others :
      (j : Bytes)
      → j ≢ hb.worker_id
      → lookup j (heartbeat now s hb).0.worker_states ≡ lookup j s.worker_states

-- The heartbeat is refused, and nothing changes.
abbrev pub Refused : ℕ → Scheduler → WorkerHeartbeat → Type 0
Refused now s hb = ((heartbeat now s hb).0 ≡ s) × ((e : Error) × ((heartbeat now s hb).1 ≡ err e))

session_is-bound : (v : SessionValue) (id : Bytes) → session_is v id ≡ true → v ≡ bound id
unfolding session_is
session_is-bound unbound id e = absurd (let q : ⊥ = ground arith in q)
session_is-bound (bound w) id e = ap (λ (t : Bytes). bound t) ((bytes_eq_iff w id).0 e)

bound-session_is : (v : SessionValue) (id : Bytes) → v ≡ bound id → session_is v id ≡ true
unfolding session_is
bound-session_is v id e = rw e ((bytes_eq_iff id id).1 refl)

abbrev beaten : ℕ → Scheduler → WorkerHeartbeat → WorkerState → Scheduler
beaten now s hb w = record s {
  worker_states = insert hb.worker_id (apply_heartbeat now hb w) s.worker_states;
}

heartbeat-allowed :
    (now : ℕ) (s : Scheduler) (hb : WorkerHeartbeat) (w : WorkerState)
    → lookup hb.session_token s.worker_sessions ≡ some (bound hb.worker_id)
    → lookup hb.worker_id s.worker_states ≡ some w
    → heartbeat now s hb ≡ (beaten now s hb w, ok tt)
unfolding heartbeat
heartbeat-allowed now s hb w e f =
    let own = bound-session_is (bound hb.worker_id) hb.worker_id refl in ground (arith, e, f, own)

-- A heartbeat within the timeout is not stale.
fresh :
    (now later timeout : ℕ) (hb : WorkerHeartbeat) (w : WorkerState)
    → later ≤ now + timeout
    → is_stale later timeout (apply_heartbeat now hb w) ≡ false
unfolding is_stale apply_heartbeat
fresh now later timeout hb w h = ground arith

live_session-fresh :
    (later timeout : ℕ) (m : List (Bytes × WorkerState)) (id : Bytes) (w : WorkerState)
    → lookup id m ≡ some w
    → is_stale later timeout w ≡ false
    → live_session later timeout m (some (bound id)) ≡ some (bound id)
live_session-fresh later timeout m id w e f = rw (live_session, e, f) refl

allowed-Survived :
    (now later timeout : ℕ) (s : Scheduler) (hb : WorkerHeartbeat) (w : WorkerState)
    → Inv s
    → later ≤ now + timeout
    → lookup hb.session_token s.worker_sessions ≡ some (bound hb.worker_id)
    → lookup hb.worker_id s.worker_states ≡ some w
    → Survived now s hb (reap_stale_workers later timeout (heartbeat now s hb).0)
unfolding apply_heartbeat
allowed-Survived now later timeout s hb w v h e f = record {
  accepted = ap (λ x. x.1) step;
  old = w;
  registered = f;
  seen = apply_heartbeat now hb w;
  there =
      subst
        (λ (x : Scheduler).
          lookup hb.worker_id (reap_stale_workers later timeout x).worker_states
          ≡ some (apply_heartbeat now hb w))
        (sym (ap (λ x. x.0) step))
        ((reap_stale_workers_lem later timeout after hb.worker_id distinct v.worker_sessions).0
          ∙ ap (live_worker later timeout) put
          ∙ rw (fresh now later timeout hb w h) refl);
  session =
      subst
        (λ (x : Scheduler).
          lookup hb.session_token (reap_stale_workers later timeout x).worker_sessions
          ≡ some (bound hb.worker_id))
        (sym (ap (λ x. x.0) step))
        ((reap_stale_workers_lem later timeout after hb.session_token distinct v.worker_sessions).1
          ∙ ap (live_session later timeout after.worker_states) e
          ∙ live_session-fresh later timeout after.worker_states hb.worker_id
              (apply_heartbeat now hb w) put (fresh now later timeout hb w h));
  at = refl;
  available_vcpus = refl;
  current_load = refl;
  active_vms = refl;
  worker_id = refl;
  public_addr = refl;
  image_digests = refl;
  cert_fingerprint = refl;
  others = λ j apart.
      ap (λ x. lookup j x.0.worker_states) step
      ∙ lookup-insert hb.worker_id j (apply_heartbeat now hb w) s.worker_states
      ∙ ground (arith, bytes_eq_iff hb.worker_id j);
}
  where
    after : Scheduler
    after = beaten now s hb w

    step : heartbeat now s hb ≡ (after, ok tt)
    step = heartbeat-allowed now s hb w e f

    put : lookup hb.worker_id after.worker_states ≡ some (apply_heartbeat now hb w)
    put =
        lookup-insert hb.worker_id hb.worker_id (apply_heartbeat now hb w) s.worker_states
        ∙ rw ((bytes_eq_iff hb.worker_id hb.worker_id).1 refl) refl

    distinct : Distinct after.worker_states
    distinct =
        insert-Distinct hb.worker_id (apply_heartbeat now hb w) s.worker_states v.worker_states

-- A heartbeat is accepted exactly when its session is bound to the worker that it names and this
-- worker is registered. It then reports the worker: a reaper that runs within the timeout after it
-- keeps the worker and its session, with the time and the values of the report and the address,
-- images and certificate of the registration, and every other worker stays as it was. Otherwise
-- the call returns an error and changes nothing. The scheduler is one that satisfies its
-- invariant.
pub heartbeat-Survived :
    (now later timeout : ℕ) (s : Scheduler) (hb : WorkerHeartbeat)
    → Inv s
    → later ≤ now + timeout
    → (IsAllowed s hb × Survived now s hb (reap_stale_workers later timeout (heartbeat now s hb).0))
      ⊎ (¬ IsAllowed s hb × Refused now s hb)
unfolding heartbeat
heartbeat-Survived now later timeout s hb v h =
    elim (Option-cases (lookup hb.session_token s.worker_sessions)) [
      | inl e ↦ inr ((λ a. let q : ⊥ = cc in q), (ground arith, (unauthenticated, ground arith)))
      | inr (value, e) ↦ elim (Bool-cases (session_is value hb.worker_id)) [
        | inr other ↦ inr (
          (λ a.
              let same : value ≡ bound hb.worker_id = ground (arith, a.0) in
              let own = bound-session_is value hb.worker_id same in let q : ⊥ = ground arith in q),
          (ground arith, (session_mismatch, ground arith)),
        )
        | inl own ↦ elim (Option-cases (lookup hb.worker_id s.worker_states)) [
          | inl f ↦ inr (
            (λ a. let g = a.1.1 in let q : ⊥ = ground arith in q),
            (ground arith, (not_registered, ground arith)),
          )
          | inr (w, f) ↦
              let bound_to : lookup hb.session_token s.worker_sessions ≡ some (bound hb.worker_id) =
                e ∙ ap (λ (t : SessionValue). some t) (session_is-bound value hb.worker_id own) in
              inl ((bound_to, (w, f)), allowed-Survived now later timeout s hb w v h bound_to f)
        ]
      ]
    ]
