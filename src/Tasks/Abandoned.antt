-- ===== src/Tasks/Abandoned.antt =====
-- internal/infra/tasks/manager.go: a task that the map holds no longer.
use mcpv.Base.{
  ℕ, ◌≤◌, ◌<◌, ◌≡◌, ◌≢◌, refl, ap, ◌∙◌, inl, inr, String, Bool, true, false, Option, none, some,
  List, [], ◌∷◌, ◌==◌, Bool-cases, Option-cases, length, Result, arith,
}
use mcpv.Tasks.Manager.{
  Manager, TaskState, TaskCreateOptions, TaskRunResult, find, find_owned, find-put, find-drop_key,
  is_terminal, is_expired, purge_found, purge_one, purge_loop, purge_expired, create, get, cancel,
  cancel_found, cancel_entry, await, set_entry,
}
use mcpv.Tasks.Runs.{run_task, run_found, finish_entry, list_tasks}
use mcpv.Tasks.Steps.{
  Step, Steps, creates, purges, gets, lists, cancels, runs, done, step, purge_expired-Spared,
  Step-Moves,
}

-- No identifier leads to the task.
unfoldable pub IsAbandoned : ℕ → Manager → Type 0
IsAbandoned h m = (id : ℕ) → find id m.tasks ≢ some h

abbrev Shrinks : Manager → Manager → Type 0
Shrinks m m' = (id h : ℕ) → find id m'.tasks ≡ some h → find id m.tasks ≡ some h

purge_found-Shrinks :
    (now id : ℕ) (o : Option ℕ) (m : Manager) → Shrinks m (purge_found now id o m).1
unfolding purge_found
purge_found-Shrinks now id none m k h e = e
purge_found-Shrinks now id (some g) m k h e = elim (Bool-cases (is_expired now (m.heap g))) [
  | inl x ↦ ground (arith, find-drop_key id k m.tasks)
  | inr x ↦ ground arith
]

purge_loop-Shrinks : (now : ℕ) (ids : List ℕ) (m : Manager) → Shrinks m (purge_loop now ids m).1
unfolding purge_loop purge_one
purge_loop-Shrinks now [] m k h e = e
purge_loop-Shrinks now (id ∷ ids) m k h e =
    let o = find id m.tasks in
    let m' = (purge_found now id o m).1 in
    purge_found-Shrinks now id o m k h (purge_loop-Shrinks now ids m' k h e)

purge_expired-Shrinks : (now : ℕ) (m : Manager) → Shrinks m (purge_expired now m)
unfolding purge_expired
purge_expired-Shrinks now m k h e = elim (Bool-cases (length m.tasks == 0)) [
  | inl x ↦ ground arith
  | inr x ↦ purge_loop-Shrinks now m.order m k h (ground arith)
]

-- What every step keeps of an abandoned task.
abbrev Keeps : ℕ → Manager → Manager → Type 0
Keeps h m m' = IsAbandoned h m' × ((m'.heap h).done_closed ≡ (m.heap h).done_closed)

purge-Keeps : (h now : ℕ) (m : Manager) → IsAbandoned h m → Keeps h m (purge_expired now m)
unfolding IsAbandoned
purge-Keeps h now m a =
    let (s, u) = purge_expired-Spared now m in
    let (t, r, c, x, o) = u h in (λ id e. a id (purge_expired-Shrinks now m id h e), c)

set_entry-Keeps :
    (h g id : ℕ) (e : TaskState) (m : Manager)
    → IsAbandoned h m
    → find id m.tasks ≡ some g
    → Keeps h m (set_entry g e m)
unfolding IsAbandoned
set_entry-Keeps h g id e m a at = elim (Bool-cases (h == g)) [
  | inl x ↦ let same : g ≡ h = ground arith in absurd (a id (at ∙ ap some same))
  | inr x ↦ (a, rw x refl)
]

run_found-Keeps :
    (h id : ℕ) (canceled : Bool) (now : ℕ) (r : Result String TaskRunResult) (o : Option ℕ)
    (m : Manager)
    → IsAbandoned h m
    → find id m.tasks ≡ o
    → Keeps h m (run_found canceled now r o m)
unfolding run_found
run_found-Keeps h id canceled now r none m a at = (a, refl)
run_found-Keeps h id canceled now r (some g) m a at =
    elim (Bool-cases (is_terminal (m.heap g).task.status)) [
      | inl x ↦ rw x (a, refl)
      | inr x ↦ rw x (set_entry-Keeps h g id (finish_entry canceled now r (m.heap g)) m a at)
    ]

owned_is_found :
    (owner : String) (id g : ℕ) (m : Manager)
    → find_owned owner id m ≡ some g
    → find id m.tasks ≡ some g
unfolding find_owned
owned_is_found owner id g m e = elim (Option-cases (find id m.tasks)) [
  | inl x ↦ absurd (ground arith)
  | inr (k, x) ↦ ground arith
]

cancel_found-Keeps :
    (h id now : ℕ) (owner : String) (o : Option ℕ) (m : Manager)
    → IsAbandoned h m
    → find_owned owner id m ≡ o
    → Keeps h m (cancel_found now o m).1
unfolding cancel_found
cancel_found-Keeps h id now owner none m a at = (a, refl)
cancel_found-Keeps h id now owner (some g) m a at =
    elim (Bool-cases (is_terminal (m.heap g).task.status)) [
      | inl x ↦ rw x (a, refl)
      | inr x ↦ rw x (
          set_entry-Keeps h g id (cancel_entry now (m.heap g)) m a (owned_is_found owner id g m at))
    ]

create-Keeps :
    (h now : ℕ) (owner : String) (opts : TaskCreateOptions) (has_runner : Bool) (m : Manager)
    → h < m.size
    → IsAbandoned h m
    → Keeps h m (create now owner opts has_runner m).1
unfolding create IsAbandoned
create-Keeps h now owner opts false m lt a = (a, refl)
create-Keeps h now owner opts true m lt a =
    let apart : (h == m.size) ≡ false = ground arith in
    (
      λ id e. elim (Bool-cases (now == id)) [
        | inl x ↦ absurd (ground (arith, find-put now id m.size m.tasks))
        | inr x ↦ a id (ground (arith, find-put now id m.size m.tasks))
      ],
      rw apart refl,
    )

Step-Keeps : (h : ℕ) (m m' : Manager) → Step m m' → h < m.size → IsAbandoned h m → Keeps h m m'
unfolding get list_tasks cancel run_task
Step-Keeps h m m' (creates now owner opts has_runner) lt a =
    create-Keeps h now owner opts has_runner m lt a
Step-Keeps h m m' (purges now) lt a = purge-Keeps h now m a
Step-Keeps h m m' (gets now owner id) lt a = purge-Keeps h now m a
Step-Keeps h m m' (lists true now owner cursor limit) lt a = (a, refl)
Step-Keeps h m m' (lists false now owner cursor limit) lt a = purge-Keeps h now m a
Step-Keeps h m m' (cancels true now then_now owner id) lt a = (a, refl)
Step-Keeps h m m' (cancels false now then_now owner id) lt a =
    let p = purge_expired now m in
    let (b, c) = purge-Keeps h now m a in
    let (b', c') = cancel_found-Keeps h id then_now owner (find_owned owner id p) p b refl in
    (b', c' ∙ c)
Step-Keeps h m m' (runs canceled now id r) lt a =
    run_found-Keeps h id canceled now r (find id m.tasks) m a refl

Steps-Keeps :
    (h : ℕ) (m m' : Manager)
    → Steps m m'
    → h < m.size
    → IsAbandoned h m
    → (m.size ≤ m'.size) × Keeps h m m'
Steps-Keeps h m m' done lt a = (omega arith, (a, refl))
Steps-Keeps h m m' (step {m' = n} before s) lt a =
    let (le, (b, c)) = Steps-Keeps h m n before lt a in
    let grown = (Step-Moves s).0 in
    let (b', c') = Step-Keeps h n m' s (omega (arith, lt, le)) b in
    (omega (arith, le, grown), (b', c' ∙ c))

-- Once no identifier leads to a task that has not ended, as after the purge of an expired one, its
-- channel `done` is never closed: a call of `Result` that holds the task blocks, whatever operations
-- follow, as long as its own context lasts.
pub abandoned_blocks :
    (h : ℕ) (m m' : Manager) (prefers : Bool)
    → Steps m m'
    → h < m.size
    → IsAbandoned h m
    → (m.heap h).done_closed ≡ 0
    → await false prefers (m'.heap h) ≡ none
unfolding await
abandoned_blocks h m m' prefers steps lt a unclosed =
    let (le, (b, c)) = Steps-Keeps h m m' steps lt a in
    let open_now : ((m'.heap h).done_closed == 0) ≡ true = ground arith in rw open_now refl
