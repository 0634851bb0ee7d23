-- ===== src/Scheduler/Maintenance.antt =====
-- internal/infra/scheduler/maintenance.go: the periodic sweeps. Each function is one critical
-- section; an instance that a sweep has chosen is stopped outside the lock and then removed by
-- `stop_and_remove`. Times count nanoseconds, and `now.Sub(t) >= d` is `t + d <= now`.
use mcpv.Base.{
  at_least_zero, ℕ, ◌+◌, ◌-◌, ◌*◌, ◌&&◌, ◌||◌, String, Bool, true, false, not, List, [], ◌∷◌,
  if◌then◌else◌, ltb, leb, ◌==◌, keep_if, delete,
}
use mcpv.Domain.Spec.{
  InstanceStrategy, stateless, stateful, persistent, singleton, unknown, second, idle_duration,
}
use mcpv.Domain.Instance.{
  draining, failed, set_state, set_sticky_key, set_last_heartbeat_at, is_ready, is_routable,
}
use mcpv.Scheduler.State.{PoolState, StickyBinding, modify}
use mcpv.Scheduler.Pool.{state_of, count_ready, has_active_bindings, remove_instance}
use mcpv.Scheduler.Acquire.{is_stateful}

-- The switch on the strategy in `reapIdle`.
unfoldable pub is_exempt : InstanceStrategy → PoolState → ℕ → Bool
unfolding has_active_bindings
is_exempt persistent s h = true
is_exempt singleton s h = true
is_exempt stateful s h = has_active_bindings s h
is_exempt stateless s h = false
is_exempt (unknown _) s h = false

unfoldable pub is_reapable : ℕ → ℕ → PoolState → ℕ → Bool
unfolding is_exempt idle_duration
is_reapable now ready_count s h =
    is_ready (state_of s h)
    && not (is_exempt s.spec.strategy s h)
    && ltb s.min_ready ready_count
    && (s.min_ready == 0 || leb ((s.heap h).last_active + idle_duration s.spec) now)

-- The loop over the instances: the candidates to stop, and the pool with these draining.
unfoldable pub reap_scan : ℕ → List ℕ → ℕ → PoolState → List ℕ × PoolState
unfolding is_reapable
reap_scan now [] ready_count s = ([], s)
reap_scan now (h ∷ hs) ready_count s =
    let (reaped, s') = reap_scan now hs (ready_count - 1) (modify h (set_state draining) s) in
    let kept = reap_scan now hs ready_count s in
    if is_reapable now ready_count s h then (h ∷ reaped, s') else kept

unfoldable pub reap_idle : ℕ → PoolState → List ℕ × PoolState
unfolding reap_scan count_ready
reap_idle now s = reap_scan now s.instances (count_ready s) s

-- After the instance was stopped, for the sweeps alike.
unfoldable pub stop_and_remove : ℕ → PoolState → PoolState
unfolding remove_instance
stop_and_remove h s = remove_instance h (record s { stop_count = s.stop_count + 1 })

-- The loop over the bindings of a pool.
unfoldable pub drop_stale : ℕ → ℕ → List (String × StickyBinding) → PoolState → PoolState
drop_stale now ttl [] s = s
drop_stale now ttl ((key, b) ∷ m) s = drop_stale now ttl m (
    if ltb (b.last_access + ttl) now
    then modify b.inst (set_sticky_key "") (record s { sticky = delete key s.sticky })
    else s)

unfoldable pub reap_stale_bindings : ℕ → PoolState → PoolState
unfolding drop_stale
reap_stale_bindings now s =
    let ttl = at_least_zero s.spec.session_ttl_seconds * second in
    if not (is_stateful s.spec.strategy) || ttl == 0 then s else drop_stale now ttl s.sticky s

-- The instances that `probeInstances` pings.
unfoldable pub probe_targets : PoolState → List ℕ
probe_targets s = keep_if (λ h. is_routable (state_of s h)) s.instances

unfoldable pub ping_succeeded : ℕ → ℕ → PoolState → PoolState
ping_succeeded now h = modify h (set_last_heartbeat_at now)

unfoldable pub ping_failed : ℕ → PoolState → PoolState
ping_failed h = modify h (set_state failed)
