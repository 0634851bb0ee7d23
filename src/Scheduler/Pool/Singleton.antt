-- ===== src/Scheduler/Pool/Singleton.antt =====
-- `acquireReadyLocked` on a singleton's pool with no instance.
use mcpv.Base.{ℕ, ◌≡◌, ap, [], String, err}
use mcpv.Domain.Spec.{InstanceStrategy, singleton}
use mcpv.Scheduler.State.{PoolState, no_ready_instance}
use mcpv.Scheduler.Pool.{acquire_ready, acquire_by, acquire_singleton}

acquire_by_empty :
    (st : InstanceStrategy) (now : ℕ) (key : String) (s : PoolState)
    → st ≡ singleton
    → s.instances ≡ []
    → acquire_by st now key s ≡ (err no_ready_instance, s)
unfolding acquire_by acquire_singleton
acquire_by_empty st now key s e i = rw (e, acquire_by) (ap (λ l. acquire_singleton now l s) i)

pub acquire_ready_empty :
    (now : ℕ) (key : String) (s : PoolState)
    → s.spec.strategy ≡ singleton
    → s.instances ≡ []
    → acquire_ready now key s ≡ (err no_ready_instance, s)
unfolding acquire_ready
acquire_ready_empty now key s e i = acquire_by_empty s.spec.strategy now key s e i
