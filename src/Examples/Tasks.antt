-- ===== src/Examples/Tasks.antt =====
-- The laws of internal/infra/tasks at two tasks of different owners.
use mcpv.Base.{
  ◌<◌, ◌≡◌, ◌≢◌, refl, String, true, false, none, some, [], ◌∷◌, Result, ok, err, eq_iff, arith,
}
use mcpv.Tasks.Manager.{
  drop_key, add_milliseconds, Manager, TaskCreateOptions, TaskRunResult, TaskPage, new_manager,
  create, cancel, cancel_found, find_owned, purge_expired, purge_loop, purge_one, purge_found, find,
  put, is_terminal, is_expired, cancel_entry, settle, await, get, get_state, task_not_found, absent,
  expiry,
}
use mcpv.Tasks.Runs.{run_task, list_tasks, page, window, limit_of}
use mcpv.Tasks.Steps.{Steps, done, step, creates, cancels, runs}
use mcpv.Tasks.Settled.{IsSound, Steps-IsSound, ended_stays, run_task-wakes}
use mcpv.Tasks.Access.{strangers_refused}
use mcpv.Tasks.Abandoned.{IsAbandoned, abandoned_blocks}

abbrev no_options : TaskCreateOptions
no_options = record { ttl = none; poll_interval = none }

abbrev one_task : Manager
one_task = (create 100 "ann" no_options true new_manager).1

abbrev two_tasks : Manager
two_tasks = (create 200 "bob" no_options true one_task).1

abbrev after_cancel : Manager
after_cancel = (cancel false 300 301 "ann" 100 two_tasks).1

abbrev good_run : Result String TaskRunResult
good_run = ok (record { result = some "{}"; protocol_error = none })

to_two_tasks : Steps new_manager two_tasks
to_two_tasks =
    step (step done (creates 100 "ann" no_options true)) (creates 200 "bob" no_options true)

size_of_two : 0 < two_tasks.size
unfolding create new_manager
size_of_two = omega arith

size_after_cancel : 0 < after_cancel.size
unfolding create new_manager cancel cancel_found find_owned purge_expired purge_loop purge_one
    purge_found find put is_terminal is_expired cancel_entry settle expiry
size_after_cancel = omega arith

Steps-IsSound_example : IsSound (after_cancel.heap 0)
Steps-IsSound_example =
    Steps-IsSound after_cancel (step to_two_tasks (cancels false 300 301 "ann" 100)) 0
      size_after_cancel

ended_after_cancel : is_terminal (after_cancel.heap 0).task.status ≡ true
unfolding create new_manager cancel cancel_found find_owned purge_expired purge_loop purge_one
    purge_found find put is_terminal is_expired cancel_entry settle expiry
ended_after_cancel = refl

-- A run that returns late does not change a cancelled task.
abbrev after_late_run : Manager
after_late_run = run_task false 400 100 good_run after_cancel

ended_stays_example :
    ((after_late_run.heap 0).task ≡ (after_cancel.heap 0).task)
    × ((after_late_run.heap 0).result ≡ (after_cancel.heap 0).result)
    × ((after_late_run.heap 0).done_closed ≡ (after_cancel.heap 0).done_closed)
ended_stays_example =
    ended_stays after_cancel after_late_run (step done (runs false 400 100 good_run)) 0
      size_after_cancel ended_after_cancel

second_handle : find 200 two_tasks.tasks ≡ some 1
unfolding create new_manager find put
second_handle = refl

second_works : is_terminal (two_tasks.heap 1).task.status ≡ false
unfolding create new_manager is_terminal
second_works = refl

run_task-wakes_example :
    let e = (run_task false 400 200 good_run two_tasks).heap 1 in
    (is_terminal e.task.status ≡ true) × (await false true e ≡ some (ok e.result))
run_task-wakes_example =
    run_task-wakes two_tasks 1 200 false true 400 good_run second_handle second_works

abbrev eve : String
eve = "eve"

abbrev bob : String
bob = "bob"

named_eve : eve ≢ ""
named_eve e = ground (arith, eq_iff "eve" "")

not_eves : ((purge_expired 300 two_tasks).heap 1).owner ≢ "eve"
unfolding create new_manager purge_expired purge_loop purge_one purge_found find put is_expired
    expiry
not_eves e = ground (arith, eq_iff "bob" "eve")

purged_handle : find 200 (purge_expired 300 two_tasks).tasks ≡ some 1
unfolding create new_manager purge_expired purge_loop purge_one purge_found find put is_expired
    expiry
purged_handle = refl

strangers_refused_example :
    (get 300 "eve" 200 two_tasks ≡ (err task_not_found, purge_expired 300 two_tasks))
    × (get_state 300 "eve" 200 two_tasks ≡ (none, purge_expired 300 two_tasks))
    × (cancel false 300 301 "eve" 200 two_tasks
        ≡ (some task_not_found, purge_expired 300 two_tasks))
strangers_refused_example =
    strangers_refused 300 301 "eve" 1 200 two_tasks named_eve not_eves purged_handle

abbrev bobs_page : TaskPage
bobs_page = record { tasks = (two_tasks.heap 1).task ∷ []; next_cursor = none }

bobs_list : (list_tasks false 300 "bob" absent 10 two_tasks).0 ≡ ok bobs_page
unfolding create new_manager list_tasks page window limit_of purge_expired purge_loop purge_one
    purge_found find put is_expired expiry
bobs_list = refl

named_bob : bob ≢ ""
named_bob e = ground (arith, eq_iff "bob" "")

-- A task whose lifetime is over is purged while it works, and its run returns later.
abbrev short_lived : TaskCreateOptions
short_lived = record { ttl = some 1; poll_interval = none }

abbrev purged_task : Manager
purged_task = purge_expired 2000000 (create 100 "ann" short_lived true new_manager).1

purged_task-IsAbandoned : IsAbandoned 0 purged_task
unfolding IsAbandoned create new_manager purge_expired purge_loop purge_one purge_found find put
    drop_key is_expired expiry add_milliseconds
purged_task-IsAbandoned id e = absurd (cc)

purged_task_exists : 0 < purged_task.size
unfolding create new_manager purge_expired purge_loop purge_one purge_found find put drop_key
    is_expired expiry add_milliseconds
purged_task_exists = omega arith

purged_task_unclosed : (purged_task.heap 0).done_closed ≡ 0
unfolding create new_manager purge_expired purge_loop purge_one purge_found find put drop_key
    is_expired expiry add_milliseconds
purged_task_unclosed = refl

abandoned_blocks_example :
    await false false ((run_task true 3000000 100 good_run purged_task).heap 0) ≡ none
abandoned_blocks_example =
    abandoned_blocks 0 purged_task (run_task true 3000000 100 good_run purged_task) false
      (step done (runs true 3000000 100 good_run)) purged_task_exists purged_task-IsAbandoned
      purged_task_unclosed
