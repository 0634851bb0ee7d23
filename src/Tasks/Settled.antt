-- ===== src/Tasks/Settled.antt =====
-- internal/infra/tasks/manager.go: how tasks end, over all interleavings of the operations.
use mcpv.Base.{
  ℕ, suc, ◌≤◌, ◌<◌, ◌≡◌, refl, ◌∙◌, sym, ap, inl, inr, String, Bool, true, false, some, ◌==◌,
  ==_refl, subst, if◌then◌else◌, Bool-cases, Result, ok, arith,
}
use mcpv.Tasks.Manager.{
  TaskState, Task, TaskResult, TaskRunResult, TaskCreateOptions, Manager, is_terminal, find, create,
  new_manager, await,
}
use mcpv.Tasks.Runs.{run_task, run_found, finish_entry}
use mcpv.Tasks.Steps.{
  Step, Steps, done, step, Step-Moves, Advances, finish_entry-Settles, Step-grows,
}

-- The result stands for the status, and `done` is closed once if the task has ended and else never.
unfoldable pub IsSound : TaskState → Type 0
unfolding is_terminal
IsSound e =
    (e.result.status ≡ e.task.status)
    × (e.done_closed ≡ (if is_terminal e.task.status then 1 else 0))

Advances-IsSound : (e e' : TaskState) → Advances e e' → IsSound e → IsSound e'
unfolding IsSound
Advances-IsSound e e' (inl (t, r, n, x, o)) (same, closed) = (
  ap (λ (q : TaskResult). q.status) r ∙ same ∙ sym (ap (λ (q : Task). q.status) t),
  n ∙ closed ∙ ap (λ (q : Task). if is_terminal q.status then 1 else 0) (sym t),
)
Advances-IsSound e e' (inr (live, ended, same, n)) (was, closed) =
    (same, rw ended (n ∙ ap suc (closed ∙ rw live refl)))

created-IsSound :
    (now : ℕ) (owner : String) (opts : TaskCreateOptions) (has_runner : Bool) (m : Manager) (h : ℕ)
    → ((k : ℕ) → k < m.size → IsSound (m.heap k))
    → h < (create now owner opts has_runner m).1.size
    → IsSound ((create now owner opts has_runner m).1.heap h)
unfolding create IsSound is_terminal
created-IsSound now owner opts false m h sound lt = sound h lt
created-IsSound now owner opts true m h sound lt = elim (Bool-cases (h == m.size)) [
  | inl new ↦ rw new (refl, refl)
  | inr old ↦ rw old (sound h (ground arith))
]

Step-IsSound :
    (m m' : Manager)
    → Step m m'
    → ((k : ℕ) → k < m.size → IsSound (m.heap k))
    → (h : ℕ) → h < m'.size
    → IsSound (m'.heap h)
Step-IsSound m m' s sound h lt = elim (Step-grows m m' s) [
  | inl same ↦
      let old : h < m.size = omega (arith, same, lt) in
      Advances-IsSound (m.heap h) (m'.heap h) ((Step-Moves s).1 h old) (sound h old)
  | inr (now, owner, opts, has_runner, e) ↦
      subst (λ n. h < n.size → IsSound (n.heap h)) (sym e)
        (created-IsSound now owner opts has_runner m h sound) lt
]

-- In every manager that its operations lead to, whatever their order, the result of each task
-- stands for its status, and its channel `done` has been closed once if the task has ended and
-- not at all if it has not: no channel is closed twice.
pub Steps-IsSound : (m : Manager) → Steps new_manager m → (h : ℕ) → h < m.size → IsSound (m.heap h)
unfolding new_manager
Steps-IsSound m done h lt = absurd (omega (arith, lt))
Steps-IsSound m (step {m' = n} before s) h lt =
    Step-IsSound n m s (λ k below. Steps-IsSound n before k below) h lt

Steps-Moves : (m m' : Manager) → Steps m m' → m.size ≤ m'.size
Steps-Moves m m' done = omega arith
Steps-Moves m m' (step {m' = n} before s) = omega (arith, Steps-Moves m n before, (Step-Moves s).0)

-- A task that has ended, whether it completed, failed or was cancelled, keeps its metadata and its
-- result and is not closed again, whatever operations follow and in whatever order.
pub ended_stays :
    (m m' : Manager)
    → Steps m m'
    → (h : ℕ) → h < m.size
    → is_terminal (m.heap h).task.status ≡ true
    → ((m'.heap h).task ≡ (m.heap h).task)
      × ((m'.heap h).result ≡ (m.heap h).result)
      × ((m'.heap h).done_closed ≡ (m.heap h).done_closed)
ended_stays m m' done h lt ended = (refl, refl, refl)
ended_stays m m' (step {m' = n} before s) h lt ended =
    let (t, r, c) = ended_stays m n before h lt ended in
    elim ((Step-Moves s).1 h (omega (arith, Steps-Moves m n before))) [
      | inl (t', r', c', x, o) ↦ (t' ∙ t, r' ∙ r, c' ∙ c)
      | inr (live, over, same, n') ↦
          let still : is_terminal (n.heap h).task.status ≡ true = rw t ended in absurd (cc)
    ]

await-closed :
    (prefers : Bool) (e : TaskState) (n : ℕ)
    → e.done_closed ≡ suc n
    → await false prefers e ≡ some (ok e.result)
unfolding await
await-closed prefers e n closed =
    let open_now : (e.done_closed == 0) ≡ false = ground arith in rw open_now refl

-- When the run returns of a task that has not ended and that the manager still holds, the task ends
-- with it: one that blocks in `Result` gets the task's result, if its own context is not done.
pub run_task-wakes :
    (m : Manager) (h id : ℕ) (canceled prefers : Bool) (now : ℕ) (r : Result String TaskRunResult)
    → find id m.tasks ≡ some h
    → is_terminal (m.heap h).task.status ≡ false
    → let e = (run_task canceled now id r m).heap h in
      (is_terminal e.task.status ≡ true) × (await false prefers e ≡ some (ok e.result))
unfolding run_task run_found
run_task-wakes m h id canceled prefers now r at live =
    rw (at, live, ==_refl h)
      (let (was, ended, same, n) = finish_entry-Settles canceled now r (m.heap h) live in
        (
          ended,
          await-closed prefers (finish_entry canceled now r (m.heap h)) (m.heap h).done_closed n,
        ))
