-- ===== src/Tasks/Manager.antt =====
-- internal/infra/tasks/manager.go and the task types of internal/domain/mcp_protocol_types.go and
-- handlers.go. An identifier `task-<n>` is represented by `n`, the nanosecond at which the task was
-- created, and a cursor by what `strconv.Atoi` makes of it. A `*taskState` is a handle into `heap`,
-- since a blocked `Result` keeps it when the task is deleted. A function is what runs under one
-- lock of the mutex; times are arguments, nanoseconds since 1970.
use mcpv.Base.{
  ℕ, zero, suc, ◌+◌, ◌-◌, ◌*◌, ◌%◌, min, String, Bool, true, false, not, ◌&&◌, ◌||◌, Option, none,
  some, List, [], ◌∷◌, ◌++◌, if◌then◌else◌, ◌==◌, ltb, leb, str_eq, length, Result, ok, err,
}
mod Handles
unfoldable pub use Handles.{find, put, drop_key}
pub use Handles.{Table, find-put, find-drop_key}

pub data TaskStatus : Type 0 where
  working completed failed cancelled input_required : TaskStatus
  other : String → TaskStatus

pub record Task : Type 0 where
  pub task_id : ℕ
  pub status : TaskStatus
  pub status_message : String
  pub created_at : ℕ
  pub last_updated_at : ℕ
  pub ttl : Option ℕ
  pub poll_interval : Option ℕ

-- `code`, a signed number, is its 64-bit pattern.
pub record ProtocolError : Type 0 where
  pub code : ℕ
  pub message : String
  pub data_json : String

pub record TaskResult : Type 0 where
  pub status : TaskStatus
  pub result : Option String
  pub error : Option ProtocolError

pub record TaskRunResult : Type 0 where
  pub result : Option String
  pub protocol_error : Option ProtocolError

pub record TaskPage : Type 0 where
  pub tasks : List Task
  pub next_cursor : Option ℕ

pub record TaskCreateOptions : Type 0 where
  pub ttl : Option ℕ
  pub poll_interval : Option ℕ

-- A text cursor: empty, a number, or neither.
pub data Cursor : Type 0 where
  absent malformed : Cursor
  at : ℕ → Cursor

pub data TaskError : Type 0 where
  runner_required task_not_found invalid_cursor already_completed context_done : TaskError

-- `done_closed` counts the calls of `close(state.done)`; a second one would panic.
pub record TaskState : Type 0 where
  pub task : Task
  pub result : TaskResult
  pub done_closed : ℕ
  pub cancel_called : Bool
  pub expires_at : Option ℕ
  pub owner : String

pub record Manager : Type 0 where
  pub tasks : Table
  pub order : List ℕ
  pub heap : ℕ → TaskState
  pub size : ℕ

abbrev millisecond : ℕ
millisecond = 1000000

abbrev pub default_poll_interval : ℕ
default_poll_interval = 5000

abbrev pub default_list_limit : ℕ
default_list_limit = 50

unfoldable pub is_terminal : TaskStatus → Bool
is_terminal completed = true
is_terminal failed = true
is_terminal cancelled = true
is_terminal working = false
is_terminal input_required = false
is_terminal (other s) = false

-- `now.Add(time.Duration(ttl) * time.Millisecond)`, where the product is a signed 64-bit number.
unfoldable pub add_milliseconds : ℕ → ℕ → ℕ
add_milliseconds now ttl =
    let d = (ttl * millisecond) % 18446744073709551616 in
    if ltb d 9223372036854775808 then now + d else now - (18446744073709551616 - d)

unfoldable pub expiry : ℕ → Option ℕ → Option ℕ
unfolding add_milliseconds
expiry now none = none
expiry now (some ttl) = if ltb 0 ttl then some (add_milliseconds now ttl) else none

abbrev or_default : Option ℕ → Option ℕ
or_default none = some default_poll_interval
or_default (some ms) = some ms

abbrev pub set_entry : ℕ → TaskState → Manager → Manager
set_entry h e m = record m { heap = λ k. if k == h then e else m.heap k }

abbrev pub new_task : ℕ → TaskCreateOptions → Task
new_task now opts = record {
  task_id = now;
  status = working;
  status_message = "The operation is now in progress.";
  created_at = now;
  last_updated_at = now;
  ttl = opts.ttl;
  poll_interval = or_default opts.poll_interval;
}

abbrev pub bare_result : TaskStatus → TaskResult
bare_result status = record { status = status; result = none; error = none }

abbrev new_state : ℕ → String → TaskCreateOptions → TaskState
new_state now owner opts = record {
  task = new_task now opts;
  result = bare_result working;
  done_closed = 0;
  cancel_called = false;
  expires_at = expiry now opts.ttl;
  owner = owner;
}

abbrev blank_options : TaskCreateOptions
blank_options = record { ttl = none; poll_interval = none }

unfoldable pub new_manager : Manager
new_manager = record { tasks = []; order = []; heap = λ h. new_state 0 "" blank_options; size = 0 }

-- `Create`: `has_runner` is `run != nil`. The goroutine that runs the task ends in `run_task`.
unfoldable pub create :
    ℕ → String → TaskCreateOptions → Bool → Manager → Result TaskError Task × Manager
create now owner opts false m = (err runner_required, m)
create now owner opts true m = (
  ok (new_task now opts),
  record m {
    tasks = put now m.size m.tasks;
    order = m.order ++ now ∷ [];
    heap = λ k. if k == m.size then new_state now owner opts else m.heap k;
    size = suc m.size;
  },
)

unfoldable pub is_expired : ℕ → TaskState → Bool
is_expired now e = elim e.expires_at [ none ↦ false | some at_time ↦ ltb at_time now ]

-- One round of the loop of `purgeExpiredLocked`: whether the identifier stays in the order.
unfoldable pub purge_found : ℕ → ℕ → Option ℕ → Manager → Bool × Manager
purge_found now id none m = (false, m)
purge_found now id (some h) m =
    if is_expired now (m.heap h)
    then (
      false,
      set_entry h (record (m.heap h) { cancel_called = true })
          (record m { tasks = drop_key id m.tasks }),
    )
    else (true, m)

unfoldable pub purge_one : ℕ → ℕ → Manager → Bool × Manager
unfolding purge_found
purge_one now id m = purge_found now id (find id m.tasks) m

unfoldable pub purge_loop : ℕ → List ℕ → Manager → List ℕ × Manager
unfolding purge_one
purge_loop now [] m = ([], m)
purge_loop now (id ∷ ids) m =
    let (keeps, m') = purge_one now id m in
    let (kept, m'') = purge_loop now ids m' in (if keeps then id ∷ kept else kept, m'')

unfoldable pub purge_expired : ℕ → Manager → Manager
unfolding purge_loop
purge_expired now m =
    let (kept, m') = purge_loop now m.order m in
    if length m.tasks == 0 then m else record m' { order = kept }

abbrev pub may_see : String → TaskState → Bool
may_see owner e = str_eq owner "" || str_eq e.owner owner

-- The lookup and the test of the owner that `Get`, `Cancel` and `getState` share.
abbrev found : String → Manager → Option ℕ → Option ℕ
found owner m none = none
found owner m (some h) = if may_see owner (m.heap h) then some h else none

unfoldable pub find_owned : String → ℕ → Manager → Option ℕ
find_owned owner id m = found owner m (find id m.tasks)

abbrev pub task_behind : Manager → Option ℕ → Result TaskError Task
task_behind m none = err task_not_found
task_behind m (some h) = ok (m.heap h).task

unfoldable pub get : ℕ → String → ℕ → Manager → Result TaskError Task × Manager
unfolding find_owned purge_expired
get now owner id m = let m' = purge_expired now m in (task_behind m' (find_owned owner id m'), m')

-- `getState`, the first part of `Result`.
unfoldable pub get_state : ℕ → String → ℕ → Manager → Option ℕ × Manager
unfolding find_owned purge_expired
get_state now owner id m = let m' = purge_expired now m in (find_owned owner id m', m')

-- `Result` behind a handle: what the `select` gives, nothing while it blocks. Where both channels
-- are ready either may be taken.
unfoldable pub await : Bool → Bool → TaskState → Option (Result TaskError TaskResult)
await ctx_done prefers_ctx e =
    if ctx_done && (prefers_ctx || e.done_closed == 0)
    then some (err context_done)
    else if e.done_closed == 0
    then none
    else some (ok e.result)

-- `state.task` takes a last status, `state.result` its result, and `done` is closed.
unfoldable pub settle : ℕ → TaskStatus → String → TaskResult → TaskState → TaskState
settle now status message outcome e = record e {
  task = record e.task { status = status; status_message = message; last_updated_at = now };
  result = outcome;
  done_closed = suc e.done_closed;
}

unfoldable pub cancel_entry : ℕ → TaskState → TaskState
unfolding settle
cancel_entry now e =
    settle now cancelled "The task was cancelled." (bare_result cancelled)
      (record e { cancel_called = true })

unfoldable pub cancel_found : ℕ → Option ℕ → Manager → Option TaskError × Manager
unfolding is_terminal cancel_entry
cancel_found now none m = (some task_not_found, m)
cancel_found now (some h) m =
    if is_terminal (m.heap h).task.status
    then (some already_completed, m)
    else (none, set_entry h (cancel_entry now (m.heap h)) m)

-- `Cancel`: `ctx_done` is `ctx.Err() != nil`; `now` is read twice.
unfoldable pub cancel : Bool → ℕ → ℕ → String → ℕ → Manager → Option TaskError × Manager
unfolding cancel_found find_owned purge_expired
cancel true now then_now owner id m = (some context_done, m)
cancel false now then_now owner id m =
    let m' = purge_expired now m in cancel_found then_now (find_owned owner id m') m'
