-- ===== src/Scheduler/Lifecycle.antt =====
-- internal/infra/scheduler/lifecycle.go and drain.go: the minimum of ready instances, and the end
-- of a pool's instances. Each function is one critical section. Stopping an instance is a call of
-- the lifecycle, outside the lock, that changes nothing of the pool; what has to be stopped is a
-- result.
pub mod Causes
use mcpv.Base.{
  at_least_zero, ℕ, ◌+◌, ◌-◌, ◌*◌, ◌%◌, Bool, false, not, Option, none, some, List, [], ◌∷◌, ◌++◌,
  if◌then◌else◌, ltb, ◌==◌, length, keep_if,
}
use mcpv.Domain.Spec.{ServerSpec, second, default_drain_timeout_seconds}
use mcpv.Domain.Instance.{draining, set_state, StartCause, set_last_start_cause}
use mcpv.Scheduler.State.{PoolState, u64_mod, modify}
use mcpv.Scheduler.Pool.{signal_waiter, busy_count_of, remove_draining}
use mcpv.Scheduler.Acquire.{StartOutcome, started, failed_start, should_override_cause}

-- `updateInstanceCauseLocked` over a list of instances.
update_causes : StartCause → List ℕ → PoolState → PoolState
unfolding should_override_cause
update_causes c [] s = s
update_causes c (h ∷ hs) s = update_causes c hs (
    if should_override_cause (s.heap h).last_start_cause c
    then modify h (set_last_start_cause (some c)) s
    else s)

-- `applyStartCauseLocked`.
unfoldable pub apply_cause_to_all : StartCause → ℕ → PoolState → PoolState
unfolding update_causes
apply_cause_to_all c at s =
    let c' = record c { timestamp = if c.timestamp == 0 then at else c.timestamp } in
    update_causes c' s.draining (update_causes c' s.instances s)

abbrev pub with_cause : Option StartCause → ℕ → PoolState → PoolState
with_cause none now s = s
with_cause (some c) now s = apply_cause_to_all c now (record s { last_start_cause = some c })

-- The first critical section of `SetDesiredMinReady`: how many starts it has reserved.
unfoldable pub reserve_min_ready : ℕ → Option StartCause → ℕ → PoolState → ℕ × PoolState
unfolding apply_cause_to_all
reserve_min_ready now cause min_ready s =
    let s' = with_cause cause now (record s { min_ready = min_ready }) in
    let to_start = min_ready - (length s'.instances + s'.starting) in
    (to_start, record s' { starting = s'.starting + to_start })

-- One round of its loop: the generation before the start, the deferred function, and the section
-- after it. An instance that comes back is stopped.
unfoldable pub begin_reserved_start : ℕ → PoolState → ℕ × PoolState
begin_reserved_start now s = (s.generation, record s { last_start_attempt_at = now })

unfoldable pub finish_reserved_start : StartOutcome → PoolState → PoolState
finish_reserved_start (started h i) s =
    modify h (λ _. i) (record s { starting = s.starting - 1; start_count = s.start_count + 1 })
finish_reserved_start (failed_start e) s = record s {
  starting = s.starting - 1;
  last_start_error = some e;
}

unfoldable pub commit_reserved_start : ℕ → StartOutcome → PoolState → Option ℕ × PoolState
unfolding signal_waiter
commit_reserved_start start_gen (failed_start e) s = (none, s)
commit_reserved_start start_gen (started h i) s =
    if not (s.generation == start_gen)
    then (some h, s)
    else if s.min_ready == 0
    then (some h, s)
    else (none, signal_waiter (record s { instances = s.instances ++ h ∷ [] }))

unfoldable pub record_instance_stop : PoolState → PoolState
record_instance_stop s = record s { stop_count = s.stop_count + 1 }

-- `SetState(Draining)` over a list of instances.
unfoldable pub drain_all : List ℕ → PoolState → PoolState
drain_all [] s = s
drain_all (h ∷ hs) s = drain_all hs (modify h (set_state draining) s)

pub record Stopped : Type 0 where
  pub cancels_start : Bool
  pub immediate : List ℕ
  pub deferred : List ℕ

-- The critical section of `StopSpec`: busy instances are deferred to a drain.
unfoldable pub stop_spec : PoolState → Stopped × PoolState
unfolding drain_all
stop_spec s =
    let deferred = keep_if (λ h. ltb 0 (busy_count_of s h)) s.instances in
    let immediate = keep_if (λ h. not (ltb 0 (busy_count_of s h))) s.instances in
    let s' = drain_all s.instances s in
    (
      record { cancels_start = s.start_cancel; immediate = immediate; deferred = deferred },
      record s' {
        min_ready = 0;
        generation = (s.generation + 1) % u64_mod;
        start_cancel = false;
        instances = [];
        draining = s.draining ++ deferred;
        sticky = [];
      },
    )

unfoldable pub stop_timeout : ServerSpec → ℕ
stop_timeout spec =
    let timeout = at_least_zero spec.drain_timeout_seconds * second in
    if timeout == 0 then default_drain_timeout_seconds * second else timeout

-- `startDrain`: whether the drain has nothing to wait for.
unfoldable pub drain_is_done : PoolState → ℕ → Bool
drain_is_done s h = busy_count_of s h == 0

-- The goroutine of a drain after its wait, up to the stop of the instance, and after it.
unfoldable pub end_drain : ℕ → PoolState → PoolState
unfolding remove_draining
end_drain h s = remove_draining h s
