-- ===== src/Examples/Scheduling.antt =====
-- Pools of two instances, and the scheduler's laws at them.
use mcpv.Base.{
  pos, ℕ, arith, Bool-cases, inl, inr, ◌+◌, ◌≡◌, refl, true, false, none, some, List, [], ◌∷◌,
  String, member, ◌==◌, if◌then◌else◌, lookup, ◌≤◌,
}
use mcpv.Domain.Spec.{
  ServerSpec, InstanceStrategy, stateless, stateful, singleton, stdio, on_demand,
}
use mcpv.Domain.Instance.{Instance, InstanceState, ready, busy}
use mcpv.Scheduler.State.{PoolState, start_failed, unclassified, StickyBinding}
use mcpv.Scheduler.Pool.{find_ready_instance, acquire_ready, lookup_sticky}
use mcpv.Scheduler.Pool.Selection.{Selects, find_ready_instance-Selects}
use mcpv.Scheduler.Pool.Grants.{Grants, Refuses, acquire_ready-Grants, acquire_ready-Refuses}
use mcpv.Scheduler.Pool.Bindings.{SentTo}
use mcpv.Scheduler.Preserve.{same-PoolInv}
use mcpv.Scheduler.Acquire.{
  release_reservation, failed_start, surplus, use_existing, attempt, starts, release, is_woken,
  commit_start, started, superseded,
}
use mcpv.Scheduler.Lifecycle.{stop_spec, commit_reserved_start}
use mcpv.Scheduler.Maintenance.{reap_idle}
use mcpv.Scheduler.Pool.{count_ready}
use mcpv.Scheduler.Invariant.{PoolInv, IsCounted}
use mcpv.Scheduler.Steps.{here, next, attempts, releases, Reach-PoolInv}
use mcpv.Scheduler.Stopping.{Stops, stop_spec-Stops, stop_spec_supersedes}
use mcpv.Scheduler.Reaping.{Sweeps, reap_idle-Sweeps, reap_idle-spares_busy}
use mcpv.Scheduler.Sessions.{
  attempts as tries, commits as adopts, releases as ends, here as none_yet, next as calm, IsSession,
  session_follows, release-acquire_ready, Undoes,
}
use mcpv.Scheduler.Races.{
  IsVacantSingleton, start_race_fatal, failed_start_overlaps, stop_spec_wakes_no_one, end_drains,
}

abbrev spec_of : InstanceStrategy → ServerSpec
spec_of st = record {
  name = "files";
  transport = stdio;
  cmd = some ("serve" ∷ []);
  env = none;
  cwd = "";
  tags = none;
  idle_seconds = 60;
  max_concurrent = 2;
  strategy = st;
  session_ttl_seconds = pos 300;
  disabled = false;
  min_ready = 1;
  activation_mode = on_demand;
  drain_timeout_seconds = pos 30;
  protocol_version = "2025-06-18";
  expose_tools = none;
  http = none;
}

abbrev instance_at : InstanceState → ℕ → Instance
instance_at st n = record {
  id = "one";
  spec_key = "k";
  state = st;
  busy_count = n;
  last_active = 0;
  last_heartbeat_at = 0;
  sticky_key = "";
  last_start_cause = none;
}

abbrev pool_of : InstanceStrategy → List ℕ → List (String × StickyBinding) → PoolState
pool_of st hs m = record {
  spec = spec_of st;
  spec_key = "k";
  min_ready = 1;
  starting = 0;
  start_count = 2;
  stop_count = 0;
  start_in_flight = false;
  start_cancel = false;
  generation = 4;
  signal_seq = 9;
  instances = hs;
  draining = [];
  sticky = m;
  rr_index = 0;
  waiters = 1;
  last_start_attempt_at = 0;
  last_start_error = none;
  last_acquire_error = none;
  last_acquire_reason = unclassified;
  last_start_cause = none;
  heap = λ h. if h == 1 then instance_at busy 1 else instance_at ready 0;
}

-- Instance 1 serves one request and instance 2 none.
abbrev two : PoolState
two = pool_of stateless (1 ∷ 2 ∷ []) []

abbrev bound_two : PoolState
bound_two = pool_of stateful (1 ∷ 2 ∷ []) (("user", record { inst = 1; last_access = 0 }) ∷ [])

abbrev vacant : PoolState
vacant = pool_of singleton [] []

two-IsCounted : (h : ℕ) → member h (1 ∷ 2 ∷ []) ≡ true → IsCounted (two.heap h)
unfolding IsCounted
two-IsCounted h m = elim (Bool-cases (h == 1)) [
  | inl e ↦ rw (e, IsCounted) (omega arith)
  | inr e ↦ rw (e, IsCounted) refl
]

two-PoolInv : PoolInv two
unfolding member lookup_sticky lookup
two-PoolInv = record {
  positive = omega arith;
  distinct = (refl, (refl, tt));
  binds = λ j h (b, l, at). absurd (cc);
  counted = two-IsCounted;
  within = λ h m. ground arith;
}

picks_idle : (find_ready_instance two).0 ≡ some 2
unfolding find_ready_instance
picks_idle = refl

find_ready_instance-Selects_example : Selects two (find_ready_instance two)
find_ready_instance-Selects_example = find_ready_instance-Selects two

acquire_ready-Grants_example : Grants 5 two (acquire_ready 5 "" two)
acquire_ready-Grants_example = acquire_ready-Grants 5 "" two

acquire_ready-Refuses_example : Refuses "" two (acquire_ready 5 "" two)
acquire_ready-Refuses_example = acquire_ready-Refuses 5 "" two (λ e. cc)

user-IsSession : IsSession "user" 1 bound_two
unfolding lookup_sticky lookup
user-IsSession = record {
  by_key = refl;
  bound = (record { inst = 1; last_access = 0 }, refl, refl);
  routable = refl;
}

-- Another user acquires, and adopts the instance that was started for it.
abbrev others_served : PoolState
others_served =
    (commit_start 4 "guest" 0 (started 9 (bound_two.heap 2)) (attempt 3 none "guest" bound_two).1).1

session_follows_example : SentTo 1 (acquire_ready 9 "user" (release 5 1 others_served).1)
session_follows_example =
    session_follows 9 "user" 1 bound_two (release 5 1 others_served).1 refl user-IsSession (
      calm
        (calm (calm none_yet (tries 3 none "guest"))
          (adopts 4 "guest" 0 (started 9 (bound_two.heap 2)) refl))
        (ends 5 1))

release-acquire_ready_example : Undoes 6 2 two (acquire_ready 5 "" two).1
release-acquire_ready_example =
    release-acquire_ready 5 6 "" two 2 (acquire_ready 5 "" two).1 (unfold acquire_ready in refl)

Reach-PoolInv_example : PoolInv (release 9 1 (attempt 7 none "" two).1).1
Reach-PoolInv_example =
    Reach-PoolInv two-PoolInv (next (next here (attempts 7 none "")) (releases 9 1))

reap_idle-Sweeps_example :
    Sweeps 100 two.instances (count_ready two) two (reap_idle 100 two)
    × (two.min_ready ≤ count_ready two → two.min_ready ≤ count_ready (reap_idle 100 two).1)
reap_idle-Sweeps_example = reap_idle-Sweeps 100 two two-PoolInv

-- With no minimum the idle instance goes at once.
abbrev on_demand_two : PoolState
on_demand_two = record two { min_ready = 0 }

on_demand_two-PoolInv : PoolInv on_demand_two
on_demand_two-PoolInv = same-PoolInv two on_demand_two refl refl refl refl two-PoolInv

reap_idle-spares_busy_example : (on_demand_two.heap 2).busy_count ≡ 0
unfolding reap_idle member
reap_idle-spares_busy_example = reap_idle-spares_busy 1 on_demand_two 2 on_demand_two-PoolInv refl

stop_spec-Stops_example : Stops two (stop_spec two)
stop_spec-Stops_example = stop_spec-Stops two

stop_spec_supersedes_example :
    ((commit_start 5 "" 4 (started 7 (instance_at ready 0)) (stop_spec two).1).0 ≡ superseded 7)
    × ((commit_reserved_start 4 (started 7 (instance_at ready 0)) (stop_spec two).1).0 ≡ some 7)
    × ((commit_start 5 "" 4 (started 7 (instance_at ready 0)) (stop_spec two).1).1.instances
        ≡ (stop_spec two).1.instances)
    × ((commit_reserved_start 4 (started 7 (instance_at ready 0)) (stop_spec two).1).1
        ≡ (stop_spec two).1)
stop_spec_supersedes_example =
    stop_spec_supersedes 5 "" 7 (instance_at ready 0) two (stop_spec two).1 (omega arith) refl

vacant-IsVacantSingleton : IsVacantSingleton vacant
vacant-IsVacantSingleton = record { strategy = refl; vacant = refl }

start_race_fatal_example :
    let (a, s1) = attempt 5 none "" vacant in
    let s2 = (commit_reserved_start 4 (started 8 (instance_at ready 0)) s1).1 in
    let s3 = release_reservation 5 (started 7 (instance_at ready 0)) s2 in
    let (c, s4) = commit_start 5 "" 4 (started 7 (instance_at ready 0)) s3 in
    (a ≡ starts 4) × (s2.instances ≡ 8 ∷ []) × (c ≡ surplus 7) × (use_existing 5 "" false s4 ≡ none)
start_race_fatal_example =
    start_race_fatal 5 "" 7 8 (instance_at ready 0) (instance_at ready 0) vacant
      vacant-IsVacantSingleton refl (omega arith)

failed_start_overlaps_example :
    let (a1, s1) = attempt 5 none "a" vacant in
    let s2 = release_reservation 5 (failed_start (start_failed "exit")) s1 in
    let (a2, s3) = attempt 5 none "b" s2 in
    let s4 = (commit_start 5 "a" 4 (failed_start (start_failed "exit")) s3).1 in
    let (a3, s5) = attempt 5 none "c" s4 in
    (a1 ≡ starts 4)
    × (a2 ≡ starts s2.generation)
    × (a3 ≡ starts s4.generation)
    × (s5.starting ≡ 0 + 2)
failed_start_overlaps_example =
    failed_start_overlaps 5 "a" "b" "c" (start_failed "exit") vacant vacant-IsVacantSingleton refl

abbrev lone : PoolState
lone = pool_of singleton (1 ∷ []) []

stop_spec_wakes_no_one_example :
    (is_woken none 9 (end_drains (1 ∷ []) (stop_spec lone).1) ≡ false)
    × ((attempt 5 none "" (end_drains (1 ∷ []) (stop_spec lone).1)).0
        ≡ starts (end_drains (1 ∷ []) (stop_spec lone).1).generation)
stop_spec_wakes_no_one_example = stop_spec_wakes_no_one 5 "" (1 ∷ []) lone refl refl
