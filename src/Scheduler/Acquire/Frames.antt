-- ===== src/Scheduler/Acquire/Frames.antt =====
-- The parts of a pool that the sections of `Acquire` leave as `acquire_ready` left them.
use mcpv.Base.{ℕ, ◌≡◌, refl, Option, none, some, ok, err, arith}
use mcpv.Scheduler.State.{PoolState, SchedulerError}
use mcpv.Scheduler.Pool.{Acquired}
use mcpv.Scheduler.Acquire.{after_ready, after_failure, record_acquire_failure, ready_reply}

-- The same specification, instances, bindings and objects.
abbrev pub SameCore : PoolState → PoolState → Type 0
SameCore s s' =
    (s'.spec ≡ s.spec) × (s'.instances ≡ s.instances) × (s'.sticky ≡ s.sticky) × (s'.heap ≡ s.heap)

after_failure-SameCore :
    (now : ℕ) (ctx : Option SchedulerError) (e : SchedulerError) (s : PoolState)
    → SameCore s (after_failure now ctx e s).1
unfolding after_failure
after_failure-SameCore now none e s = ground arith
after_failure-SameCore now (some x) e s = ground arith

pub after_ready-SameCore :
    (now : ℕ) (ctx : Option SchedulerError) (r : Acquired) → SameCore r.1 (after_ready now ctx r).1
unfolding after_ready
after_ready-SameCore now ctx (ok h, s) = (refl, refl, refl, refl)
after_ready-SameCore now ctx (err e, s) =
    after_failure-SameCore now ctx e (record_acquire_failure e s)

pub ready_reply-SameCore : (r : Acquired) → SameCore r.1 (ready_reply r).1
unfolding record_acquire_failure
ready_reply-SameCore (ok h, s) = (refl, refl, refl, refl)
ready_reply-SameCore (err e, s) = (refl, refl, refl, refl)
