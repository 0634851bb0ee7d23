-- ===== src/Tasks/Steps.antt =====
-- internal/infra/tasks/manager.go as a transition system: any interleaving of the operations, and
-- what each of them does to the states of the tasks.
use mcpv.Base.{
  ℕ, suc, ◌≤◌, ◌<◌, ◌≡◌, refl, ◌∙◌, sym, ap, ok, err, ◌⊎◌, inl, inr, String, Bool, true, false,
  Option, none, some, List, [], ◌∷◌, ◌==◌, Bool-cases, Option-cases, length, Result, arith,
}
use mcpv.Tasks.Manager.{
  TaskState, TaskCreateOptions, TaskRunResult, Cursor, Manager, is_terminal, is_expired, find,
  purge_found, purge_one, purge_loop, purge_expired, create, get, cancel, cancel_found,
  cancel_entry, find_owned, settle, set_entry,
}
use mcpv.Tasks.Runs.{finish_entry, run_found, run_task, list_tasks}

-- The calls that change the manager, each under its lock.
pub data Step : Manager → Manager → Type 0 where
  creates :
      (now : ℕ) (owner : String) (opts : TaskCreateOptions) (has_runner : Bool) {m : Manager}
      → Step m (create now owner opts has_runner m).1
  purges : (now : ℕ) {m : Manager} → Step m (purge_expired now m)
  gets : (now : ℕ) (owner : String) (id : ℕ) {m : Manager} → Step m (get now owner id m).1
  lists :
      (ctx_done : Bool) (now : ℕ) (owner : String) (cursor : Cursor) (limit : ℕ) {m : Manager}
      → Step m (list_tasks ctx_done now owner cursor limit m).1
  cancels :
      (ctx_done : Bool) (now then_now : ℕ) (owner : String) (id : ℕ) {m : Manager}
      → Step m (cancel ctx_done now then_now owner id m).1
  runs :
      (canceled : Bool) (now id : ℕ) (r : Result String TaskRunResult) {m : Manager}
      → Step m (run_task canceled now id r m)

pub data Steps : Manager → Manager → Type 0 where
  done : {m : Manager} → Steps m m
  step : {m m' m'' : Manager} → Steps m m' → Step m' m'' → Steps m m''

abbrev pub Untouched : TaskState → TaskState → Type 0
Untouched e e' =
    (e'.task ≡ e.task)
    × (e'.result ≡ e.result)
    × (e'.done_closed ≡ e.done_closed)
    × (e'.expires_at ≡ e.expires_at)
    × (e'.owner ≡ e.owner)

-- The end of a task that was running.
abbrev pub Settles : TaskState → TaskState → Type 0
Settles e e' =
    (is_terminal e.task.status ≡ false)
    × (is_terminal e'.task.status ≡ true)
    × (e'.result.status ≡ e'.task.status)
    × (e'.done_closed ≡ suc e.done_closed)

abbrev pub Advances : TaskState → TaskState → Type 0
Advances e e' = Untouched e e' ⊎ Settles e e'

self-Untouched : (e : TaskState) → Untouched e e
self-Untouched e = (refl, refl, refl, refl, refl)

abbrev Spared : Manager → Manager → Type 0
Spared m m' = (m'.size ≡ m.size) × ((h : ℕ) → Untouched (m.heap h) (m'.heap h))

Spared-trans : (m m' m'' : Manager) → Spared m m' → Spared m' m'' → Spared m m''
Spared-trans m m' m'' (s, u) (s', u') = (
  s' ∙ s,
  λ h.
      let (a, b, c, d, e) = u h in
      let (a', b', c', d', e') = u' h in (a' ∙ a, b' ∙ b, c' ∙ c, d' ∙ d, e' ∙ e),
)

set_entry-Untouched :
    (h : ℕ) (e : TaskState) (m : Manager)
    → Untouched (m.heap h) e
    → (k : ℕ) → Untouched (m.heap k) ((set_entry h e m).heap k)
set_entry-Untouched h e m u k = elim (Bool-cases (k == h)) [
  | inl same ↦ let at_h : k ≡ h = ground arith in rw (same, at_h) u
  | inr apart ↦ rw apart (self-Untouched (m.heap k))
]

purge_found-Spared : (now id : ℕ) (o : Option ℕ) (m : Manager) → Spared m (purge_found now id o m).1
unfolding purge_found
purge_found-Spared now id none m = (refl, λ h. self-Untouched (m.heap h))
purge_found-Spared now id (some h) m = elim (Bool-cases (is_expired now (m.heap h))) [
  | inl x ↦
      let e = record (m.heap h) { cancel_called = true } in
      rw x (refl, set_entry-Untouched h e m (refl, refl, refl, refl, refl))
  | inr x ↦ rw x (refl, λ k. self-Untouched (m.heap k))
]

purge_one-Spared : (now id : ℕ) (m : Manager) → Spared m (purge_one now id m).1
unfolding purge_one
purge_one-Spared now id m = purge_found-Spared now id (find id m.tasks) m

purge_loop-Spared : (now : ℕ) (ids : List ℕ) (m : Manager) → Spared m (purge_loop now ids m).1
unfolding purge_loop
purge_loop-Spared now [] m = (refl, λ h. self-Untouched (m.heap h))
purge_loop-Spared now (id ∷ ids) m =
    let m' = (purge_one now id m).1 in
    Spared-trans m m' (purge_loop now ids m').1 (purge_one-Spared now id m)
      (purge_loop-Spared now ids m')

pub purge_expired-Spared : (now : ℕ) (m : Manager) → Spared m (purge_expired now m)
unfolding purge_expired
purge_expired-Spared now m = elim (Bool-cases (length m.tasks == 0)) [
  | inl e ↦ rw e (refl, λ h. self-Untouched (m.heap h))
  | inr e ↦ rw e (purge_loop-Spared now m.order m)
]

-- What one step does to the tasks that exist.
abbrev Moves : Manager → Manager → Type 0
Moves m m' = (m.size ≤ m'.size) × ((h : ℕ) → h < m.size → Advances (m.heap h) (m'.heap h))

Spared-Moves : (m m' : Manager) → Spared m m' → Moves m m'
Spared-Moves m m' (s, u) = (omega arith, λ h lt. inl (u h))

set_entry-Moves :
    (h : ℕ) (e : TaskState) (m : Manager) → Settles (m.heap h) e → Moves m (set_entry h e m)
set_entry-Moves h e m settles = (
  omega arith,
  λ k lt. elim (Bool-cases (k == h)) [
    | inl same ↦ let at_h : k ≡ h = ground arith in rw (same, at_h) (inr settles)
    | inr apart ↦ rw apart (inl (self-Untouched (m.heap k)))
  ],
)

Moves-after : (m m' m'' : Manager) → Spared m m' → Moves m' m'' → Moves m m''
Moves-after m m' m'' (s, u) (le, moves) = (
  omega arith,
  λ h lt.
      let (a, b, c, d, e) = u h in
      elim (moves h (omega arith)) [
        | inl (a', b', c', d', e') ↦ inl (a' ∙ a, b' ∙ b, c' ∙ c, d' ∙ d, e' ∙ e)
        | inr (t, t', r, n) ↦ inr (rw (sym a) t, t', r, n ∙ ap suc c)
      ],
)

cancel_entry-Settles :
    (now : ℕ) (e : TaskState) → is_terminal e.task.status ≡ false → Settles e (cancel_entry now e)
unfolding cancel_entry settle is_terminal
cancel_entry-Settles now e live = (live, refl, refl, refl)

pub finish_entry-Settles :
    (canceled : Bool) (now : ℕ) (r : Result String TaskRunResult) (e : TaskState)
    → is_terminal e.task.status ≡ false
    → Settles e (finish_entry canceled now r e)
unfolding finish_entry settle is_terminal
finish_entry-Settles true now r e live = (live, refl, refl, refl)
finish_entry-Settles false now (err message) e live = (live, refl, refl, refl)
finish_entry-Settles false now (ok r) e live = elim (Option-cases r.protocol_error) [
  | inl x ↦ rw x (live, refl, refl, refl)
  | inr (p, x) ↦ rw x (live, refl, refl, refl)
]

stays : (m : Manager) → Moves m m
stays m = Spared-Moves m m (refl, λ h. self-Untouched (m.heap h))

cancel_found-Moves : (now : ℕ) (o : Option ℕ) (m : Manager) → Moves m (cancel_found now o m).1
unfolding cancel_found
cancel_found-Moves now none m = stays m
cancel_found-Moves now (some h) m = elim (Bool-cases (is_terminal (m.heap h).task.status)) [
  | inl x ↦ rw x (stays m)
  | inr x ↦
      rw x
        (set_entry-Moves h (cancel_entry now (m.heap h)) m (cancel_entry-Settles now (m.heap h) x))
]

run_found-Moves :
    (canceled : Bool) (now : ℕ) (r : Result String TaskRunResult) (o : Option ℕ) (m : Manager)
    → Moves m (run_found canceled now r o m)
unfolding run_found
run_found-Moves canceled now r none m = stays m
run_found-Moves canceled now r (some h) m = elim (Bool-cases (is_terminal (m.heap h).task.status)) [
  | inl x ↦ rw x (stays m)
  | inr x ↦ rw x (
      set_entry-Moves h (finish_entry canceled now r (m.heap h)) m
        (finish_entry-Settles canceled now r (m.heap h) x))
]

create-Moves :
    (now : ℕ) (owner : String) (opts : TaskCreateOptions) (has_runner : Bool) (m : Manager)
    → Moves m (create now owner opts has_runner m).1
unfolding create
create-Moves now owner opts false m = stays m
create-Moves now owner opts true m = (
  omega arith,
  λ h lt.
      let apart : (h == m.size) ≡ false = ground arith in
      rw apart (inl (self-Untouched (m.heap h))),
)

cancel_found-size : (now : ℕ) (o : Option ℕ) (m : Manager) → (cancel_found now o m).1.size ≡ m.size
unfolding cancel_found
cancel_found-size now none m = refl
cancel_found-size now (some h) m = ground arith

run_found-size :
    (canceled : Bool) (now : ℕ) (r : Result String TaskRunResult) (o : Option ℕ) (m : Manager)
    → (run_found canceled now r o m).size ≡ m.size
unfolding run_found
run_found-size canceled now r none m = refl
run_found-size canceled now r (some h) m = ground arith

pub Step-Moves : {m m' : Manager} → Step m m' → Moves m m'
unfolding get cancel run_task list_tasks
Step-Moves (creates now owner opts has_runner {m}) = create-Moves now owner opts has_runner m
Step-Moves (purges now {m}) = Spared-Moves m (purge_expired now m) (purge_expired-Spared now m)
Step-Moves (gets now owner id {m}) =
    Spared-Moves m (purge_expired now m) (purge_expired-Spared now m)
Step-Moves (lists true now owner cursor limit {m}) = stays m
Step-Moves (lists false now owner cursor limit {m}) =
    Spared-Moves m (purge_expired now m) (purge_expired-Spared now m)
Step-Moves (cancels true now then_now owner id {m}) = stays m
Step-Moves (cancels false now then_now owner id {m}) =
    let m' = purge_expired now m in
    Moves-after m m' (cancel_found then_now (find_owned owner id m') m').1
      (purge_expired-Spared now m) (cancel_found-Moves then_now (find_owned owner id m') m')
Step-Moves (runs canceled now id r {m}) = run_found-Moves canceled now r (find id m.tasks) m

-- A step adds no task, or it is a call of `Create`.
pub Step-grows :
    (m m' : Manager)
    → Step m m'
    → (m'.size ≡ m.size)
      ⊎ ((now : ℕ) × (owner : String) × (opts : TaskCreateOptions) × (has_runner : Bool) × (m'
            ≡ (create now owner opts has_runner m).1))
unfolding get cancel run_task list_tasks
Step-grows m m' (creates now owner opts has_runner) = inr (now, owner, opts, has_runner, refl)
Step-grows m m' (purges now) = inl (purge_expired-Spared now m).0
Step-grows m m' (gets now owner id) = inl (purge_expired-Spared now m).0
Step-grows m m' (lists true now owner cursor limit) = inl refl
Step-grows m m' (lists false now owner cursor limit) = inl (purge_expired-Spared now m).0
Step-grows m m' (cancels true now then_now owner id) = inl refl
Step-grows m m' (cancels false now then_now owner id) =
    let p = purge_expired now m in
    inl (cancel_found-size then_now (find_owned owner id p) p ∙ (purge_expired-Spared now m).0)
Step-grows m m' (runs canceled now id r) = inl (run_found-size canceled now r (find id m.tasks) m)
