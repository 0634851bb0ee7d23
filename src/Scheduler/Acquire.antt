-- ===== src/Scheduler/Acquire.antt =====
-- internal/infra/scheduler/acquire.go, metrics.go and cause.go: `Acquire`, `AcquireReady` and
-- `Release`. `Acquire` runs through several critical sections, with a wait or the start of an
-- instance between them; each section is one function here, and what the goroutine does next is
-- its result. Time and what the lifecycle returns are arguments. Logging, diagnostics events and
-- metrics observers are left out; they change no state.
pub mod Frames
use mcpv.Base.{
  ℕ, ◌+◌, ◌-◌, ◌%◌, ◌&&◌, String, Bool, true, false, not, Option, none, some, [], ◌∷◌, ◌++◌,
  if◌then◌else◌, ltb, ◌==◌, str_eq, length, Result, ok, err,
}
use mcpv.Domain.Spec.{InstanceStrategy, singleton, stateful}
use mcpv.Domain.Instance.{
  Instance, InstanceState, ready, busy, draining, StartCause, StartCauseReason, bootstrap,
  other_cause, set_state, dec_busy_count, set_last_active, set_last_start_cause,
}
use mcpv.Scheduler.State.{
  PoolState, SchedulerError, no_ready_instance, no_capacity, sticky_busy, AcquireFailureReason,
  no_ready, capacity, busy_binding, unclassified, u64_mod, modify,
}
use mcpv.Scheduler.Pool.{
  Acquired, acquire_ready, signal_waiter, bind_sticky, mark_busy, find_draining_by_id, state_of,
  busy_count_of,
}

-- `classifyAcquireFailure`; `unclassified` is the empty reason.
unfoldable pub classify_acquire_failure : SchedulerError → AcquireFailureReason
classify_acquire_failure no_ready_instance = no_ready
classify_acquire_failure no_capacity = capacity
classify_acquire_failure sticky_busy = busy_binding
classify_acquire_failure _ = unclassified

unfoldable pub record_acquire_failure : SchedulerError → PoolState → PoolState
record_acquire_failure e s = record s {
  last_acquire_error = some e;
  last_acquire_reason = classify_acquire_failure e;
}

abbrev pub is_singleton : InstanceStrategy → Bool
is_singleton singleton = true
is_singleton _ = false

abbrev pub is_stateful : InstanceStrategy → Bool
is_stateful stateful = true
is_stateful _ = false

abbrev pub is_sticky_busy : SchedulerError → Bool
is_sticky_busy sticky_busy = true
is_sticky_busy _ = false

abbrev is_bootstrap : StartCauseReason → Bool
is_bootstrap bootstrap = true
is_bootstrap (other_cause _) = false

unfoldable pub should_override_cause : Option StartCause → StartCause → Bool
should_override_cause none next = true
should_override_cause (some c) next = is_bootstrap c.reason && not (is_bootstrap next.reason)

-- `applyStartCause`: the cause in the context, if there is one, on a new instance.
unfoldable pub apply_start_cause : Option StartCause → ℕ → Instance → Instance
unfolding should_override_cause
apply_start_cause none started i = i
apply_start_cause (some c) started i =
    let c' = record c { timestamp = if c.timestamp == 0 then started else c.timestamp } in
    if should_override_cause i.last_start_cause c' then set_last_start_cause (some c') i else i

-- `waitForSignalLocked` up to the wait: with the context still live the goroutine becomes a waiter
-- and remembers the sequence number.
pub data Waiting : Type 0 where
  parked : ℕ → Waiting
  expired : SchedulerError → Waiting

unfoldable pub begin_wait : Option SchedulerError → PoolState → Waiting × PoolState
begin_wait (some e) s = (expired e, s)
begin_wait none s = (parked s.signal_seq, record s { waiters = s.waiters + 1 })

-- What runs when a waiting goroutine's context ends: all waiters look again.
unfoldable pub expire_context : PoolState → PoolState
expire_context s = record s { signal_seq = (s.signal_seq + 1) % u64_mod }

-- The test of the loop: the goroutine goes on only when signalled or when its context has ended.
unfoldable pub is_woken : Option SchedulerError → ℕ → PoolState → Bool
is_woken (some e) seq s = true
is_woken none seq s = not (seq == s.signal_seq)

-- The end of the wait; the context's error is recorded and returned.
unfoldable pub end_wait : Option SchedulerError → PoolState → Option SchedulerError × PoolState
unfolding record_acquire_failure
end_wait none s = (none, record s { waiters = s.waiters - 1 })
end_wait (some e) s = (some e, record_acquire_failure e (record s { waiters = s.waiters - 1 }))

-- What `Acquire` does after its first critical section.
pub data Attempt : Type 0 where
  granted : ℕ → Attempt
  refused : SchedulerError → Attempt
  waits : ℕ → Attempt
  starts : ℕ → Attempt

abbrev wait_or_give_up : Waiting × PoolState → Attempt × PoolState
wait_or_give_up (parked seq, s) = (waits seq, s)
wait_or_give_up (expired e, s) = (refused e, record_acquire_failure e s)

unfoldable pub reserve_start : ℕ → PoolState → PoolState
reserve_start now s = record s {
  start_in_flight = true;
  start_cancel = true;
  starting = s.starting + 1;
  last_start_attempt_at = now;
}

after_failure : ℕ → Option SchedulerError → SchedulerError → PoolState → Attempt × PoolState
unfolding begin_wait reserve_start record_acquire_failure
after_failure now ctx e s =
    if is_sticky_busy e
    then (refused e, s)
    else if s.start_in_flight
    then wait_or_give_up (begin_wait ctx s)
    else if is_singleton s.spec.strategy && ltb 0 (length s.instances)
    then wait_or_give_up (begin_wait ctx s)
    else (starts s.generation, reserve_start now s)

unfoldable pub after_ready : ℕ → Option SchedulerError → Acquired → Attempt × PoolState
unfolding after_failure record_acquire_failure
after_ready now ctx (ok h, s) = (granted h, s)
after_ready now ctx (err e, s) = after_failure now ctx e (record_acquire_failure e s)

-- One round of the loop of `Acquire` under the pool's lock.
unfoldable pub attempt : ℕ → Option SchedulerError → String → PoolState → Attempt × PoolState
unfolding after_ready
attempt now ctx key s = after_ready now ctx (acquire_ready now key s)

-- What the call of the lifecycle came to; a new instance is at a fresh handle.
pub data StartOutcome : Type 0 where
  started : ℕ → Instance → StartOutcome
  failed_start : SchedulerError → StartOutcome

-- The deferred function that gives the reservation back.
unfoldable pub release_reservation : ℕ → StartOutcome → PoolState → PoolState
release_reservation now (started h i) s =
    modify h (λ _. i)
      (record s {
        start_cancel = false;
        starting = s.starting - 1;
        start_count = s.start_count + 1;
      })
release_reservation now (failed_start e) s = record s {
  start_in_flight = false;
  start_cancel = false;
  starting = s.starting - 1;
  last_start_error = some e;
}

-- The critical section after the start. The instance that `superseded` and `surplus` name is
-- stopped next.
pub data Committed : Type 0 where
  served : ℕ → Committed
  rejected : SchedulerError → Committed
  superseded : ℕ → Committed
  surplus : ℕ → Committed

abbrev pub end_start : PoolState → PoolState
end_start s = signal_waiter (record s { start_in_flight = false })

unfoldable pub adopt : ℕ → String → ℕ → PoolState → PoolState
unfolding bind_sticky mark_busy signal_waiter
adopt now key h s =
    let joined = record s { instances = s.instances ++ h ∷ [] } in
    let bound =
      if is_stateful s.spec.strategy && not (str_eq key "")
      then bind_sticky key h now joined
      else joined in
    end_start (mark_busy h now bound)

unfoldable pub commit_start : ℕ → String → ℕ → StartOutcome → PoolState → Committed × PoolState
unfolding adopt signal_waiter record_acquire_failure
commit_start now key start_gen (failed_start e) s =
    (rejected e, record_acquire_failure e (end_start s))
commit_start now key start_gen (started h i) s =
    if not (s.generation == start_gen)
    then (superseded h, end_start s)
    else if is_singleton s.spec.strategy && ltb 0 (length s.instances)
    then (surplus h, end_start s)
    else (served h, adopt now key h s)

-- After a superseded start was stopped.
unfoldable pub discard_superseded : PoolState → SchedulerError × PoolState
unfolding record_acquire_failure
discard_superseded s =
    (no_capacity, record_acquire_failure no_capacity (record s { stop_count = s.stop_count + 1 }))

-- `sync.Mutex.Unlock`, which is a fatal error on a mutex that is not locked.
unfoldable pub unlock : Bool → Option Bool
unlock true = some false
unlock false = none

abbrev fallback_reply : Acquired → Result SchedulerError ℕ × PoolState
fallback_reply (ok h, s) = (ok h, s)
fallback_reply (err e, s) = (err no_capacity, record_acquire_failure e s)

-- After a surplus singleton was stopped: the existing instance is tried, with the mutex in the
-- state `locked`, and then the mutex is unlocked. `none` is the fatal error.
unfoldable pub use_existing :
    ℕ → String → Bool → PoolState → Option (Result SchedulerError ℕ × PoolState)
unfolding unlock record_acquire_failure
use_existing now key locked s =
    let r = acquire_ready now key (record s { stop_count = s.stop_count + 1 }) in
    elim (unlock locked) [ none ↦ none | some _ ↦ some (fallback_reply r) ]

-- `AcquireReady`, with the context's error.
abbrev pub ready_reply : Acquired → Acquired
ready_reply (ok h, s) = (ok h, s)
ready_reply (err e, s) = (err e, record_acquire_failure e s)

unfoldable pub acquire_ready_only : ℕ → Option SchedulerError → String → PoolState → Acquired
unfolding record_acquire_failure
acquire_ready_only now (some e) key s = (err e, s)
acquire_ready_only now none key s = ready_reply (acquire_ready now key s)

-- The switch of `Release` on an instance that serves no request any more. The handle is that of
-- the instance whose drain is to end.
after_last : InstanceState → ℕ → PoolState → Option ℕ × PoolState
unfolding signal_waiter find_draining_by_id
after_last busy h s = (none, signal_waiter (modify h (set_state ready) s))
after_last draining h s = (find_draining_by_id s (s.heap h).id, s)
after_last _ h s = (none, s)

unfoldable pub release : ℕ → ℕ → PoolState → Option ℕ × PoolState
unfolding after_last
release now h s =
    let s' = modify h (λ i. set_last_active now (dec_busy_count i)) s in
    if busy_count_of s' h == 0 then after_last (state_of s' h) h s' else (none, s')
