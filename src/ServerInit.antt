-- ===== src/ServerInit.antt =====
-- internal/app/bootstrap/serverinit/manager.go: the manager that brings each server to its number of ready
-- instances. A function is what runs under one lock of the manager, or between two; a worker is several of
-- them. The causes of starts, the log and diagnostics are left out. A time of 0 is Go's zero time, and what
-- the scheduler answers is an argument. A number of retries that is negative is `none`.
pub mod Delays
pub mod States
pub mod Targets
pub mod Catalog
pub mod Tracked
pub mod Worker
use mcpv.Base.{
  ◌%◌, ℕ, zero, suc, ◌+◌, ◌-◌, ◌*◌, String, Bool, true, false, not, ◌&&◌, ◌||◌, Option, none, some,
  List, [], ◌∷◌, ◌++◌, if◌then◌else◌, ◌==◌, ltb, leb, str_eq, has, is_some, lookup, insert, delete,
  keep_if, add_once, Result, ok, err,
}
use mcpv.Domain.Spec.{ServerSpec, ActivationMode, always_on, unset, on_demand, other}
use mcpv.Domain.Errors.{
  Fault, find_sentinel, error_text, Sentinel, invalid_command, executable_not_found,
  permission_refused, unsupported_protocol, unknown_spec_key,
}
use mcpv.Registry.Activation.{resolve_activation_mode, active_min_ready}

pub data ServerInitState : Type 0 where
  pending starting ready_state degraded failed_state suspended : ServerInitState

pub record ServerInitStatus : Type 0 where
  pub spec_key : String
  pub server_name : String
  pub min_ready : ℕ
  pub ready : ℕ
  pub failed : ℕ
  pub state : ServerInitState
  pub last_error : String
  pub retry_count : ℕ
  pub next_retry_at : ℕ
  pub attempt_started_at : ℕ
  pub attempt_ended_at : ℕ
  pub attempt_step : String
  pub attempt_error : String
  pub attempt_ready : ℕ
  pub attempt_failed : ℕ
  pub attempt_target : ℕ
  pub updated_at : ℕ

pub record InitManager : Type 0 where
  pub specs : List (String × ServerSpec)
  pub default_mode : ActivationMode
  pub statuses : List (String × ServerInitStatus)
  pub targets : List (String × ℕ)
  pub running : List String
  pub retry_base : ℕ
  pub retry_max : ℕ
  pub max_retries : ℕ
  pub started : Bool

pub data InitError : Type 0 where
  not_started unknown_spec : InitError

-- `resolveServerInitRetry`.
unfoldable pub resolve_server_init_retry : ℕ → ℕ → Option ℕ → ℕ → ℕ × ℕ × ℕ
resolve_server_init_retry base max retries default_retries = (
  base,
  (if ltb max base then base else max),
  elim retries [ none ↦ default_retries | some n ↦ n ],
)

abbrev pub is_always_on : ActivationMode → Bool
is_always_on always_on = true
is_always_on on_demand = false
is_always_on unset = false
is_always_on (other s) = false

unfoldable pub baseline_min_ready : ActivationMode → ServerSpec → ℕ
unfolding resolve_activation_mode active_min_ready
baseline_min_ready default_mode spec =
    if is_always_on (resolve_activation_mode default_mode spec) then active_min_ready spec else 0

-- The status without what an attempt has left in it.
abbrev pub cleared : ServerInitStatus → ServerInitStatus
cleared st = record st {
  state = pending;
  last_error = "";
  retry_count = 0;
  next_retry_at = 0;
  attempt_started_at = 0;
  attempt_ended_at = 0;
  attempt_step = "";
  attempt_error = "";
  attempt_ready = 0;
  attempt_failed = 0;
  attempt_target = 0;
}

abbrev pub idle_status : ServerInitStatus → ServerInitStatus
idle_status st = record (cleared st) { ready = 0; failed = 0 }

abbrev pub pending_status : String → String → ℕ → ℕ → ServerInitStatus
pending_status key name min now = record {
  spec_key = key;
  server_name = name;
  min_ready = min;
  ready = 0;
  failed = 0;
  state = pending;
  last_error = "";
  retry_count = 0;
  next_retry_at = 0;
  attempt_started_at = 0;
  attempt_ended_at = 0;
  attempt_step = "";
  attempt_error = "";
  attempt_ready = 0;
  attempt_failed = 0;
  attempt_target = 0;
  updated_at = now;
}

-- A missing entry of a map is Go's zero value.
abbrev pub status_or_zero : Option ServerInitStatus → ServerInitStatus
status_or_zero none = pending_status "" "" 0 0
status_or_zero (some st) = st

unfoldable pub status_of : String → InitManager → ServerInitStatus
status_of key m = status_or_zero (lookup key m.statuses)

abbrev pub number_or_zero : Option ℕ → ℕ
number_or_zero none = 0
number_or_zero (some n) = n

unfoldable pub target_of : String → InitManager → ℕ
target_of key m = number_or_zero (lookup key m.targets)

abbrev pub with_min_ready : ℕ → ℕ → ServerInitStatus → ServerInitStatus
with_min_ready now n st =
    let st' = record st { min_ready = n } in
    record (if n == 0 then idle_status st' else st') { updated_at = now }

-- `SetMinReady`, and whether it goes on to `ensureWorker`.
unfoldable pub set_min_ready : ℕ → String → ℕ → InitManager → Result InitError Bool × InitManager
unfolding status_of target_of
set_min_ready now key n m =
    if not m.started
    then (err not_started, m)
    else if not (is_some (lookup key m.specs))
    then (err unknown_spec, m)
    else (
      ok (not (n == 0) && not (target_of key m == n)),
      record m {
        targets = insert key n m.targets;
        statuses = insert key (with_min_ready now n (status_of key m)) m.statuses;
      },
    )

-- `RetrySpec`, and whether it goes on to `ensureWorker`.
unfoldable pub retry_spec : ℕ → String → InitManager → Result InitError Bool × InitManager
unfolding status_of target_of
retry_spec now key m =
    if not m.started
    then (err not_started, m)
    else if not (is_some (lookup key m.specs))
    then (err unknown_spec, m)
    else (
      ok (ltb 0 (target_of key m)),
      record m {
        statuses = insert key (record (cleared (status_of key m)) { updated_at = now }) m.statuses;
      },
    )

-- `ensureWorker`, and whether a worker is started.
unfoldable pub ensure_worker : String → InitManager → Bool × InitManager
ensure_worker key m =
    if has key m.running then (false, m) else (true, record m { running = add_once key m.running })

-- `updateStatus`.
abbrev pub update_found :
    (ServerInitStatus → ServerInitStatus)
    → String
    → Option ServerInitStatus
    → InitManager
    → InitManager
update_found mutate key none m = m
update_found mutate key (some st) m = record m { statuses = insert key (mutate st) m.statuses }

unfoldable pub update_status :
    (ServerInitStatus → ServerInitStatus) → String → InitManager → InitManager
update_status mutate key m = update_found mutate key (lookup key m.statuses) m

-- What `runSpec` does when it has read a target of 0, or when there is no scheduler, before it returns.
unfoldable pub rest_worker : ℕ → String → InitManager → InitManager
unfolding update_status
rest_worker now key m =
    update_status (λ st. record (idle_status st) { min_ready = 0; updated_at = now }) key m

unfoldable pub no_scheduler : ℕ → ℕ → String → InitManager → InitManager
unfolding update_status
no_scheduler now target key m =
    update_status
      (λ st. record st {
        state = failed_state;
        last_error = "scheduler unavailable";
        retry_count = 0;
        next_retry_at = 0;
        attempt_started_at = now;
        attempt_ended_at = now;
        attempt_step = "scheduler_unavailable";
        attempt_error = "scheduler unavailable";
        attempt_ready = 0;
        attempt_failed = 0;
        attempt_target = target;
        updated_at = now;
      })
      key m

-- The deferred function of a worker.
unfoldable pub leave : String → InitManager → InitManager
leave key m = record m { running = keep_if (λ k. not (str_eq k key)) m.running }

unfoldable pub begin_attempt : ℕ → ℕ → String → InitManager → InitManager
unfolding update_status
begin_attempt now target key m =
    update_status
      (λ st. record st {
        state = starting;
        min_ready = target;
        attempt_started_at = now;
        attempt_ended_at = 0;
        attempt_step = "set_min_ready";
        attempt_error = "";
        attempt_ready = 0;
        attempt_failed = 0;
        attempt_target = target;
        updated_at = now;
      })
      key m

abbrev pub text_of : Option Fault → String
text_of none = ""
text_of (some e) = error_text e

-- The switch of `applyResult`.
unfoldable pub result_state : ℕ → ℕ → ℕ → Option Fault → ServerInitState
result_state target ready failed e =
    if target == 0 && not (is_some e) && failed == 0
    then ready_state
    else if leb target ready && ltb 0 target
    then ready_state
    else if ltb 0 ready
    then degraded
    else if is_some e || ltb 0 failed
    then failed_state
    else starting

unfoldable pub apply_result : ℕ → String → ℕ → ℕ → ℕ → Option Fault → InitManager → InitManager
unfolding update_status result_state error_text
apply_result now key target ready failed e m =
    update_status
      (λ st. record st {
        state = result_state target ready failed e;
        min_ready = target;
        ready = ready;
        failed = failed;
        last_error = text_of e;
        updated_at = now;
      })
      key m

unfoldable pub next_retry_count : ServerInitStatus → ℕ → ℕ → Option Fault → ℕ
next_retry_count prev ready failed e =
    if ltb prev.ready ready
    then 0
    else if is_some e || ltb prev.failed failed
    then prev.retry_count + 1
    else prev.retry_count

-- A duration as the word of 64 bits that it is, whose values from 2 ^ 63 on stand for the negative ones.
-- Negative words come first in the order of signed words.
abbrev pub from_least : ℕ → ℕ
from_least w = (w + 9223372036854775808) % 18446744073709551616

abbrev pub doubled : ℕ → ℕ
doubled w = (w * 2) % 18446744073709551616

-- The loop of `nextRetryDelay`, with the rounds it has left.
unfoldable pub double_delay : ℕ → ℕ → ℕ → ℕ
double_delay max zero delay = if ltb (from_least max) (from_least delay) then max else delay
double_delay max (suc rounds) delay =
    let rest = double_delay max rounds (doubled delay) in
    if leb (from_least max) (from_least (doubled delay)) then max else rest

unfoldable pub next_retry_delay : ℕ → ℕ → ℕ → ℕ
unfolding double_delay
next_retry_delay base max retry_count =
    double_delay max ((if ltb retry_count 1 then 1 else retry_count) - 1) base

abbrev pub is_fatal : Option Sentinel → Bool
is_fatal (some invalid_command) = true
is_fatal (some executable_not_found) = true
is_fatal (some permission_refused) = true
is_fatal (some unsupported_protocol) = true
is_fatal (some unknown_spec_key) = true
is_fatal _ = false

abbrev pub fatal_error : Option Fault → Bool
fatal_error none = false
fatal_error (some e) = is_fatal (find_sentinel e)

-- What a worker does after `applyResult`: it is done, it gives up, or it waits for a delay.
pub data Outcome : Type 0 where
  reached : Outcome
  gives_up : ℕ → Outcome
  waits : ℕ → ℕ → Outcome

unfoldable pub after_result : ℕ → ServerInitStatus → ℕ → ℕ → Option Fault → InitManager → Outcome
unfolding next_retry_count next_retry_delay find_sentinel
after_result target prev ready failed e m =
    let n = next_retry_count prev ready failed e in
    if leb target ready
    then reached
    else if fatal_error e
    then gives_up n
    else if ltb 0 m.max_retries && leb m.max_retries n
    then gives_up n
    else waits n (next_retry_delay m.retry_base m.retry_max n)

-- `deriveInitState`.
abbrev pub is_suspended : ServerInitState → Bool
is_suspended suspended = true
is_suspended _ = false

abbrev pub is_failed : ServerInitState → Bool
is_failed failed_state = true
is_failed _ = false

unfoldable pub derive_init_state : ServerInitStatus → ℕ → ℕ → ServerInitState
derive_init_state st ready failed =
    if st.min_ready == 0
    then (if failed == 0 then ready_state else failed_state)
    else if is_suspended st.state && ltb ready st.min_ready
    then suspended
    else if is_failed st.state && ltb ready st.min_ready
    then failed_state
    else if leb st.min_ready ready
    then ready_state
    else if ltb 0 ready
    then degraded
    else if ltb 0 failed
    then failed_state
    else starting
