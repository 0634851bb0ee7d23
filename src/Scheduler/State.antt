-- ===== src/Scheduler/State.antt =====
-- The state of a pool: `poolState`, `stickyBinding` and `trackedInstance` of
-- internal/infra/scheduler/basic.go. A pointer to an instance is a handle, a number, and `heap`
-- holds the instances; `instances`, `draining` and the bindings share them by handle. The maps of
-- bindings nil and empty behave alike, so both are []. Methods whose name ends in `Locked` are
-- functions of the state, and a critical section of the others is one function.
use mcpv.Base.{ℕ, String, Bool, Option, List, if◌then◌else◌, ◌==◌}
use mcpv.Domain.Spec.{ServerSpec}
use mcpv.Domain.Instance.{Instance, StartCause}

pub record StickyBinding : Type 0 where
  pub inst : ℕ
  pub last_access : ℕ

-- The errors that the scheduler's callers tell apart. `start_failed` is what the lifecycle
-- returned, or a panic of it.
pub data SchedulerError : Type 0 where
  unknown_spec_key no_ready_instance no_capacity sticky_busy : SchedulerError
  canceled deadline_exceeded : SchedulerError
  start_failed : String → SchedulerError

pub data AcquireFailureReason : Type 0 where
  no_ready capacity busy_binding unclassified : AcquireFailureReason

pub record PoolState : Type 0 where
  pub spec : ServerSpec
  pub spec_key : String
  pub min_ready : ℕ
  pub starting : ℕ
  pub start_count : ℕ
  pub stop_count : ℕ
  pub start_in_flight : Bool
  pub start_cancel : Bool
  pub generation : ℕ
  pub signal_seq : ℕ
  pub instances : List ℕ
  pub draining : List ℕ
  pub sticky : List (String × StickyBinding)
  pub rr_index : ℕ
  pub waiters : ℕ
  pub last_start_attempt_at : ℕ
  pub last_start_error : Option SchedulerError
  pub last_acquire_error : Option SchedulerError
  pub last_acquire_reason : AcquireFailureReason
  pub last_start_cause : Option StartCause
  pub heap : ℕ → Instance

abbrev pub u64_mod : ℕ
u64_mod = 18446744073709551616

-- A write through the handle `h`.
abbrev pub modify : ℕ → (Instance → Instance) → PoolState → PoolState
modify h f s = record s { heap = λ k. if k == h then f (s.heap k) else s.heap k }
