-- ===== src/Router/Ready.antt =====
-- internal/infra/scheduler as the router's source of ready instances: `AcquireReady` and `Release` of one
-- pool, with the goroutine's clock and context as arguments.
use mcpv.Base.{ℕ, ◌-◌, ◌≡◌, refl, ap, ◌∙◌, String, Option, none, some, ◌==◌, Result, ok, err, arith}
use mcpv.Domain.Errors.{Fault, sentinel, plain, unknown_spec_key, no_ready_instance}
use mcpv.Scheduler.State.{
  PoolState, SchedulerError, unknown_spec_key as no_spec, no_ready_instance as no_ready,
  no_capacity, sticky_busy, canceled, deadline_exceeded, start_failed,
}
use mcpv.Scheduler.Pool.{Acquired, mark_busy, busy_count_of, signal_waiter}
use mcpv.Scheduler.Pool.Grants.{Grants, acquire_ready-Grants}
use mcpv.Scheduler.Acquire.{acquire_ready_only, ready_reply, record_acquire_failure, release}
use mcpv.Router.{Source, Releases, Held, one_if}

abbrev pub fault_of : SchedulerError → Fault
fault_of no_spec = sentinel unknown_spec_key
fault_of no_ready = sentinel no_ready_instance
fault_of no_capacity = plain "no capacity available"
fault_of sticky_busy = plain "sticky instance at capacity"
fault_of canceled = plain "context canceled"
fault_of deadline_exceeded = plain "context deadline exceeded"
fault_of (start_failed text) = plain text

abbrev pub as_fault : Acquired → Result Fault ℕ × PoolState
as_fault (ok h, s) = (ok h, s)
as_fault (err e, s) = (err (fault_of e), s)

abbrev pub load : PoolState → ℕ → ℕ
load s h = busy_count_of s h

granted-Held :
    (now : ℕ) (s : PoolState) (r : Acquired)
    → Grants now s r
    → Held load s (as_fault (ready_reply r))
unfolding mark_busy record_acquire_failure
granted-Held now s (ok h, t) (a, e) = λ k. ap (λ (x : PoolState). load x k) e ∙ ground (arith)
granted-Held now s (err x, t) e = λ k. ap (λ (x : PoolState). load x k) e

pub take-Held :
    (now : ℕ) (ctx : Option SchedulerError) (key : String) (s : PoolState)
    → Held load s (as_fault (acquire_ready_only now ctx key s))
unfolding acquire_ready_only
take-Held now (some e) key s = λ k. refl
take-Held now none key s = granted-Held now s _ (acquire_ready-Grants now key s)

pub release-load :
    (now h : ℕ) (s : PoolState) (k : ℕ) → load (release now h s).1 k ≡ load s k - one_if (k == h)
unfolding release signal_waiter
release-load now h s k = ground arith

-- The pool as the source.
unfoldable pub ready_source : ℕ → Option SchedulerError → Source load
ready_source now ctx = record {
  take = λ _ key s. as_fault (acquire_ready_only now ctx key s);
  take-Held = λ _ key s. take-Held now ctx key s;
}

unfoldable pub pool_releases : ℕ → Releases load
pool_releases now = record { release = λ h s. (release now h s).1; release-load = release-load now }
