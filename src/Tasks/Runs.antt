-- ===== src/Tasks/Runs.antt =====
-- internal/infra/tasks/manager.go: the end of a task's goroutine, and the listing of tasks by pages.
use mcpv.Base.{
  ℕ, zero, suc, ◌+◌, min, String, Bool, true, false, Option, none, some, List, [], ◌∷◌,
  if◌then◌else◌, ◌==◌, ltb, leb, length, Result, ok, err,
}
use mcpv.Tasks.Manager.{
  TaskState, TaskRunResult, TaskPage, Task, TaskError, Cursor, Manager, cancelled, failed,
  completed, absent, malformed, at, context_done, invalid_cursor, is_terminal, settle, bare_result,
  set_entry, may_see, find, purge_expired, default_list_limit,
}

-- What a run leads to when the context is not cancelled: it fails, or returns.
abbrev outcome : ℕ → Result String TaskRunResult → TaskState → TaskState
outcome now (err message) e = settle now failed message (bare_result failed) e
outcome now (ok r) e = elim r.protocol_error [
  | none ↦
      settle now completed "The task completed successfully."
        (record { status = completed; result = r.result; error = none }) e
  | some p ↦
      settle now failed p.message (record { status = failed; result = none; error = some p }) e
]

unfoldable pub finish_entry : Bool → ℕ → Result String TaskRunResult → TaskState → TaskState
unfolding settle
finish_entry canceled now r e =
    if canceled
    then settle now cancelled "The task was cancelled." (bare_result cancelled) e
    else outcome now r e

unfoldable pub run_found : Bool → ℕ → Result String TaskRunResult → Option ℕ → Manager → Manager
unfolding is_terminal finish_entry
run_found canceled now r none m = m
run_found canceled now r (some h) m =
    if is_terminal (m.heap h).task.status
    then m
    else set_entry h (finish_entry canceled now r (m.heap h)) m

-- `runTask` after `run` has returned `r`; `canceled` is whether the context was cancelled.
unfoldable pub run_task : Bool → ℕ → ℕ → Result String TaskRunResult → Manager → Manager
unfolding run_found
run_task canceled now id r m = run_found canceled now r (find id m.tasks) m

abbrev pub shown : String → Manager → Option ℕ → List Task → List Task
shown owner m none later = later
shown owner m (some h) later = if may_see owner (m.heap h) then (m.heap h).task ∷ later else later

-- The tasks that the owner may see among `count` identifiers from position `start` on.
unfoldable pub window : ℕ → ℕ → String → List ℕ → Manager → List Task
window start zero owner ids m = []
window start (suc count) owner [] m = []
window (suc start) (suc count) owner (id ∷ ids) m = window start (suc count) owner ids m
window zero (suc count) owner (id ∷ ids) m =
    let later = window zero count owner ids m in shown owner m (find id m.tasks) later

abbrev start_of : Cursor → Option ℕ
start_of absent = some 0
start_of malformed = none
start_of (at n) = some n

unfoldable pub limit_of : ℕ → ℕ
limit_of limit = if limit == 0 then default_list_limit else limit

unfoldable pub page : ℕ → ℕ → String → Manager → TaskPage
unfolding window
page start limit owner m =
    let last = min (start + limit) (length m.order) in
    if leb (length m.order) start then record { tasks = []; next_cursor = none } else record {
      tasks = window start limit owner m.order m;
      next_cursor = if ltb last (length m.order) then some last else none;
    }

-- `List`: `ctx_done` is `ctx.Err() != nil`, and a limit below 1 is 0.
unfoldable pub list_tasks :
    Bool → ℕ → String → Cursor → ℕ → Manager → Result TaskError TaskPage × Manager
unfolding page limit_of purge_expired
list_tasks true now owner cursor limit m = (err context_done, m)
list_tasks false now owner cursor limit m =
    let m' = purge_expired now m in
    (
      elim (start_of cursor) [
        | none ↦ err invalid_cursor
        | some start ↦ ok (page start (limit_of limit) owner m')
      ],
      m',
    )
