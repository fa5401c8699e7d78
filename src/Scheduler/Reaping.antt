-- ===== src/Scheduler/Reaping.antt =====
-- What reapStaleWorkers removes, and what it keeps.
use hpcc.Prelude.{
  ℕ, ◌≡◌, refl, ◌∙◌, inl, inr, Bool, false, Option, none, some, List, [], ◌∷◌, Bytes, bytes_eq_iff,
  arith, Option-cases, if◌then◌else◌, contains,
}
use hpcc.Prelude.Assoc.{lookup, erase, lookup-erase, Distinct}
use hpcc.Scheduler.{
  Scheduler, WorkerState, SessionValue, bound, unbound, is_stale, stale_workers, delete_all,
  is_evicted, drop_sessions, reap_stale_workers,
}

lookup-delete_all {ℓ} :
    {V : Type ℓ} (k : Bytes) (ks : List Bytes) (m : List (Bytes × V))
    → lookup k (delete_all ks m) ≡ (if contains k ks then none else lookup k m)
unfolding delete_all contains
lookup-delete_all k [] m = refl
lookup-delete_all k (j ∷ ks) m =
    ground (arith, lookup-delete_all k ks (erase j m), lookup-erase j k m, bytes_eq_iff j k)

abbrev stale_entry : ℕ → ℕ → Option WorkerState → Bool
stale_entry now timeout none = false
stale_entry now timeout (some w) = is_stale now timeout w

contains-stale_workers :
    (now timeout : ℕ) (k : Bytes) (m : List (Bytes × WorkerState))
    → Distinct m
    → contains k (stale_workers now timeout m) ≡ stale_entry now timeout (lookup k m)
unfolding stale_workers contains lookup
contains-stale_workers now timeout k [] d = refl
contains-stale_workers now timeout k ((j, w) ∷ m) d =
    ground (arith, contains-stale_workers now timeout k m d.1, bytes_eq_iff j k)

abbrev kept : List Bytes → Option SessionValue → Option SessionValue
kept stale none = none
kept stale (some v) = if is_evicted stale v then none else some v

lookup-drop_sessions :
    (stale : List Bytes) (t : Bytes) (m : List (Bytes × SessionValue))
    → Distinct m
    → lookup t (drop_sessions stale m) ≡ kept stale (lookup t m)
unfolding drop_sessions lookup
lookup-drop_sessions stale t [] d = refl
lookup-drop_sessions stale t ((j, v) ∷ m) d =
    ground (arith, lookup-drop_sessions stale t m d.1, bytes_eq_iff j t)

-- A worker whose last heartbeat is recent enough, and a session that no stale worker holds.
abbrev pub live_worker : ℕ → ℕ → Option WorkerState → Option WorkerState
live_worker now timeout none = none
live_worker now timeout (some w) = if is_stale now timeout w then none else some w

abbrev pub live_session :
    ℕ → ℕ → List (Bytes × WorkerState) → Option SessionValue → Option SessionValue
live_session now timeout m none = none
live_session now timeout m (some unbound) = some unbound
live_session now timeout m (some (bound id)) = elim (lookup id m) [
  | none ↦ some (bound id)
  | some w ↦ if is_stale now timeout w then none else some (bound id)
]

drop_none : (m : List (Bytes × SessionValue)) → drop_sessions [] m ≡ m
unfolding drop_sessions is_evicted contains
drop_none [] = refl
drop_none ((k, unbound) ∷ m) = rw (drop_none m)
drop_none ((k, bound w) ∷ m) = rw (drop_none m)

reap_eq :
    (now timeout : ℕ) (s : Scheduler)
    → reap_stale_workers now timeout s ≡ record s {
      worker_states = delete_all (stale_workers now timeout s.worker_states) s.worker_states;
      worker_sessions = drop_sessions (stale_workers now timeout s.worker_states) s.worker_sessions;
    }
unfolding reap_stale_workers delete_all
reap_eq now timeout s = from (stale_workers now timeout s.worker_states) refl
  where
    from :
        (stale : List Bytes)
        → stale_workers now timeout s.worker_states ≡ stale
        → reap_stale_workers now timeout s ≡ record s {
          worker_states = delete_all (stale_workers now timeout s.worker_states) s.worker_states;
          worker_sessions =
              drop_sessions (stale_workers now timeout s.worker_states) s.worker_sessions;
        }
    from [] e = rw (e, reap_stale_workers, drop_none s.worker_sessions)
    from (k ∷ ks) e = rw (e, reap_stale_workers)

live_worker-entry :
    (now timeout : ℕ) (m : List (Bytes × WorkerState)) (k : Bytes)
    → Distinct m
    → (if contains k (stale_workers now timeout m) then none else lookup k m)
      ≡ live_worker now timeout (lookup k m)
live_worker-entry now timeout m k d =
    rw (contains-stale_workers now timeout k m d)
      (elim (Option-cases (lookup k m)) [ inl e ↦ rw e refl | inr (w, e) ↦ rw e refl ])

live_session-kept :
    (now timeout : ℕ) (m : List (Bytes × WorkerState)) (v : Option SessionValue)
    → Distinct m
    → kept (stale_workers now timeout m) v ≡ live_session now timeout m v
unfolding is_evicted
live_session-kept now timeout m none d = refl
live_session-kept now timeout m (some unbound) d = refl
live_session-kept now timeout m (some (bound id)) d =
    rw (contains-stale_workers now timeout id m d) (elim (Option-cases (lookup id m)) [
      | inl e ↦ rw (e, live_session) refl
      | inr (w, e) ↦ rw (e, live_session) refl
    ])

-- With distinct keys, reap_stale_workers keeps exactly the workers whose last heartbeat is not
-- older than the timeout, keeps a session unless it is bound to a registered worker that is too
-- old, and leaves the sessions of users alone.
pub reap_stale_workers_lem :
    (now timeout : ℕ) (s : Scheduler) (k : Bytes)
    → Distinct s.worker_states
    → Distinct s.worker_sessions
    → (lookup k (reap_stale_workers now timeout s).worker_states
        ≡ live_worker now timeout (lookup k s.worker_states))
      × (lookup k (reap_stale_workers now timeout s).worker_sessions
          ≡ live_session now timeout s.worker_states (lookup k s.worker_sessions))
      × ((reap_stale_workers now timeout s).user_sessions ≡ s.user_sessions)
reap_stale_workers_lem now timeout s k d d' = rw (reap_eq now timeout s) (
  states ∙ live_worker-entry now timeout s.worker_states k d,
  sessions ∙ live_session-kept now timeout s.worker_states (lookup k s.worker_sessions) d,
  refl,
)
  where
    stale : List Bytes
    stale = stale_workers now timeout s.worker_states

    states :
        lookup k (delete_all stale s.worker_states)
        ≡ (if contains k stale then none else lookup k s.worker_states)
    states = lookup-delete_all k stale s.worker_states

    sessions :
        lookup k (drop_sessions stale s.worker_sessions) ≡ kept stale (lookup k s.worker_sessions)
    sessions = lookup-drop_sessions stale k s.worker_sessions d'
