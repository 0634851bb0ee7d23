-- ===== src/Tasks/Pages.antt =====
-- internal/infra/tasks/manager.go: the pages of `List`.
use mcpv.Base.{
  ℕ, zero, suc, ◌+◌, ◌≤◌, ◌≡◌, refl, ap, subst, ◌∙◌, inl, inr, String, Option, none, some, List, [],
  ◌∷◌, ◌++◌, Bool-cases, if◌then◌else◌, ltb, leb, length, arith,
}
use mcpv.Tasks.Manager.{Manager, Task, find}
use mcpv.Tasks.Runs.{window, shown, page}

shown-append :
    (owner : String) (m : Manager) (o : Option ℕ) (xs ys : List Task)
    → shown owner m o (xs ++ ys) ≡ shown owner m o xs ++ ys
shown-append owner m none xs ys = refl
shown-append owner m (some h) xs ys = ground arith

window-nil : (start count : ℕ) (owner : String) (m : Manager) → window start count owner [] m ≡ []
unfolding window
window-nil start zero owner m = refl
window-nil zero (suc count) owner m = refl
window-nil (suc start) (suc count) owner m = refl

window-zero :
    (start : ℕ) (owner : String) (ids : List ℕ) (m : Manager) → window start 0 owner ids m ≡ []
unfolding window
window-zero start owner ids m = refl

window-later :
    (start count id : ℕ) (owner : String) (ids : List ℕ) (m : Manager)
    → window (suc start) count owner (id ∷ ids) m ≡ window start count owner ids m
unfolding window
window-later start zero id owner ids m = refl
window-later start (suc count) id owner ids m = refl

window-beyond :
    (start count : ℕ) (owner : String) (ids : List ℕ) (m : Manager)
    → length ids ≤ start
    → window start count owner ids m ≡ []
window-beyond start count owner [] m le = window-nil start count owner m
window-beyond zero count owner (id ∷ ids) m le = absurd (omega (arith, le))
window-beyond (suc start) count owner (id ∷ ids) m le =
    rw (window-later start count id owner ids m)
      (window-beyond start count owner ids m (omega (arith, le)))

first_page :
    (a b : ℕ) (owner : String) (id : ℕ) (ids : List ℕ) (m : Manager)
    → window 0 (a + b) owner ids m ≡ window 0 a owner ids m ++ window a b owner ids m
    → window 0 (suc a + b) owner (id ∷ ids) m
      ≡ window 0 (suc a) owner (id ∷ ids) m ++ window (suc a) b owner (id ∷ ids) m
unfolding window
first_page a b owner id ids m split =
    let o = find id m.tasks in
    let counted : suc a + b ≡ suc (a + b) = omega arith in
    rw (counted, window-later a b id owner ids m)
      (ap (shown owner m o) split
        ∙ shown-append owner m o (window 0 a owner ids m) (window a b owner ids m))

window-append :
    (start a b : ℕ) (owner : String) (ids : List ℕ) (m : Manager)
    → window start (a + b) owner ids m
      ≡ window start a owner ids m ++ window (start + a) b owner ids m
window-append start a b owner [] m =
    rw
      (
        window-nil start (a + b) owner m,
        window-nil start a owner m,
        window-nil (start + a) b owner m,
      )
      refl
window-append (suc start) a b owner (id ∷ ids) m =
    let moved : suc start + a ≡ suc (start + a) = omega arith in
    rw
      (
        moved,
        window-later start (a + b) id owner ids m,
        window-later start a id owner ids m,
        window-later (start + a) b id owner ids m,
      )
      (window-append start a b owner ids m)
window-append zero zero b owner (id ∷ ids) m =
    let all : 0 + b ≡ b = omega arith in
    let here : 0 + 0 ≡ 0 = omega arith in rw (all, here, window-zero 0 owner (id ∷ ids) m) refl
window-append zero (suc a) b owner (id ∷ ids) m =
    let start : 0 + a ≡ a = omega arith in
    let start' : 0 + suc a ≡ suc a = omega arith in
    rw start' (
      first_page a b owner id ids m (
        subst (λ n. window 0 (a + b) owner ids m ≡ window 0 a owner ids m ++ window n b owner ids m)
          start (window-append 0 a b owner ids m)))

page-window :
    (start limit : ℕ) (owner : String) (m : Manager)
    → (page start limit owner m).tasks ≡ window start limit owner m.order m
unfolding page
page-window start limit owner m = elim (Bool-cases (leb (length m.order) start)) [
  | inl x ↦ rw (x, window-beyond start limit owner m.order m (ground arith)) refl
  | inr x ↦ rw x refl
]

-- A page of `a` identifiers and the next one of `b`, which starts where the cursor of the first
-- one says, show together what one page of `a + b` shows: no task is left out or shown twice. The
-- cursor is there just if identifiers are left.
pub page-continues :
    (start a b : ℕ) (owner : String) (m : Manager)
    → ((page start a owner m).next_cursor
        ≡ (if ltb (start + a) (length m.order) then some (start + a) else none))
      × ((page start (a + b) owner m).tasks
          ≡ (page start a owner m).tasks ++ (page (start + a) b owner m).tasks)
unfolding page
page-continues start a b owner m = (
  ground arith,
  rw
      (
        page-window start (a + b) owner m,
        page-window start a owner m,
        page-window (start + a) b owner m,
      )
      (window-append start a b owner m.order m),
)
