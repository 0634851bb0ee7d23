-- ===== src/Tasks/Access.antt =====
-- internal/infra/tasks/manager.go: who may see and cancel a task.
use mcpv.Base.{
  ℕ, zero, suc, ◌≡◌, ◌≢◌, refl, subst, length, leb, inl, inr, String, false, Option, none, some,
  List, [], ◌∷◌, Bool-cases, eq_iff, ok, err, arith,
}
use mcpv.Tasks.Manager.{
  Manager, Task, TaskPage, Cursor, absent, malformed, at, task_not_found, find, find_owned, get,
  get_state, cancel, cancel_found, purge_expired, may_see,
}
use mcpv.Tasks.Runs.{window, shown, page, list_tasks, limit_of}

stranger_finds_none :
    (owner : String) (h id : ℕ) (m : Manager)
    → owner ≢ ""
    → (m.heap h).owner ≢ owner
    → find id m.tasks ≡ some h
    → find_owned owner id m ≡ none
unfolding find_owned
stranger_finds_none owner h id m named other held =
    let unseen : may_see owner (m.heap h) ≡ false =
      ground (arith, eq_iff owner "", eq_iff (m.heap h).owner owner) in
    rw (held, unseen) refl

-- A caller that names itself and does not own a task can neither read it, nor wait for it, nor
-- cancel it: each call answers that there is no such task, and none does more than the purge of
-- expired tasks that any call does first.
pub strangers_refused :
    (now then_now : ℕ) (owner : String) (h id : ℕ) (m : Manager)
    → owner ≢ ""
    → ((purge_expired now m).heap h).owner ≢ owner
    → find id (purge_expired now m).tasks ≡ some h
    → (get now owner id m ≡ (err task_not_found, purge_expired now m))
      × (get_state now owner id m ≡ (none, purge_expired now m))
      × (cancel false now then_now owner id m ≡ (some task_not_found, purge_expired now m))
unfolding get get_state cancel cancel_found
strangers_refused now then_now owner h id m named other held =
    let nothing = stranger_finds_none owner h id (purge_expired now m) named other held in
    (rw nothing refl, rw nothing refl, rw nothing refl)

-- Each task of a list stands behind a handle whose owner is this one.
unfoldable pub AllOwned : String → Manager → List Task → Type 0
AllOwned owner m [] = Unit {0}
AllOwned owner m (t ∷ ts) =
    ((h : ℕ) × ((m.heap h).task ≡ t) × ((m.heap h).owner ≡ owner)) × AllOwned owner m ts

shown-AllOwned :
    (owner : String) (m : Manager) (o : Option ℕ) (later : List Task)
    → owner ≢ ""
    → AllOwned owner m later
    → AllOwned owner m (shown owner m o later)
unfolding AllOwned
shown-AllOwned owner m none later named ok_later = ok_later
shown-AllOwned owner m (some h) later named ok_later =
    elim (Bool-cases (may_see owner (m.heap h))) [
      | inl x ↦
          let its : (m.heap h).owner ≡ owner =
            ground (arith, eq_iff owner "", eq_iff (m.heap h).owner owner) in
          rw x ((h, refl, its), ok_later)
      | inr x ↦ rw x ok_later
    ]

window-AllOwned :
    (start count : ℕ) (owner : String) (ids : List ℕ) (m : Manager)
    → owner ≢ ""
    → AllOwned owner m (window start count owner ids m)
unfolding window AllOwned
window-AllOwned start zero owner ids m named = tt
window-AllOwned start (suc count) owner [] m named = tt
window-AllOwned (suc start) (suc count) owner (id ∷ ids) m named =
    window-AllOwned start (suc count) owner ids m named
window-AllOwned zero (suc count) owner (id ∷ ids) m named =
    shown-AllOwned owner m (find id m.tasks) (window 0 count owner ids m) named
      (window-AllOwned 0 count owner ids m named)

page-AllOwned :
    (start limit : ℕ) (owner : String) (m : Manager)
    → owner ≢ ""
    → AllOwned owner m (page start limit owner m).tasks
unfolding page AllOwned
page-AllOwned start limit owner m named = elim (Bool-cases (leb (length m.order) start)) [
  | inl x ↦ rw x tt
  | inr x ↦ rw x (window-AllOwned start limit owner m.order m named)
]

-- What `List` shows to a caller that names itself are tasks of that caller.
pub list_tasks-AllOwned :
    (now limit : ℕ) (owner : String) (cursor : Cursor) (m : Manager) (p : TaskPage)
    → owner ≢ ""
    → (list_tasks false now owner cursor limit m).0 ≡ ok p
    → AllOwned owner (purge_expired now m) p.tasks
unfolding list_tasks
list_tasks-AllOwned now limit owner malformed m p named e = absurd (cc)
list_tasks-AllOwned now limit owner absent m p named e =
    let same : page 0 (limit_of limit) owner (purge_expired now m) ≡ p = cc in
    subst (λ q. AllOwned owner (purge_expired now m) q.tasks) same
      (page-AllOwned 0 (limit_of limit) owner (purge_expired now m) named)
list_tasks-AllOwned now limit owner (at start) m p named e =
    let same : page start (limit_of limit) owner (purge_expired now m) ≡ p = cc in
    subst (λ q. AllOwned owner (purge_expired now m) q.tasks) same
      (page-AllOwned start (limit_of limit) owner (purge_expired now m) named)
