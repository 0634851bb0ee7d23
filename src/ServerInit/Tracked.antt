-- ===== src/ServerInit/Tracked.antt =====
-- internal/app/bootstrap/serverinit/manager.go: the operations that write statuses and targets.
use mcpv.Base.{
  ℕ, ◌≡◌, refl, inl, inr, String, Bool, true, false, not, List, [], ◌∷◌, if◌then◌else◌, str_eq,
  is_some, lookup, insert, lookup-insert, Bool-cases,
}
use mcpv.Domain.Spec.{ServerSpec, ActivationMode}
use mcpv.ServerInit.{
  InitManager, ServerInitStatus, set_min_ready, retry_spec, pending_status, with_min_ready,
  baseline_min_ready, cleared, status_of,
}
use mcpv.ServerInit.Catalog.{IsTracked, start, start_specs}

-- A key that gets both a status and a target, and one that gets a status.
both-IsTracked :
    (k : String) (st : ServerInitStatus) (n : ℕ) (m m' : InitManager)
    → m'.statuses ≡ insert k st m.statuses
    → m'.targets ≡ insert k n m.targets
    → IsTracked m
    → IsTracked m'
unfolding IsTracked
both-IsTracked k st n m m' p q tracked key =
    let at = lookup-insert k key st m.statuses in
    let at' = lookup-insert k key n m.targets in
    elim (Bool-cases (str_eq k key)) [
      | inl e ↦ rw (p, q, at, at', e) (λ bad. absurd (cc))
      | inr e ↦ rw (p, q, at, at', e) (tracked key)
    ]

status-IsTracked :
    (k : String) (st : ServerInitStatus) (m m' : InitManager)
    → m'.statuses ≡ insert k st m.statuses
    → m'.targets ≡ m.targets
    → IsTracked m
    → IsTracked m'
unfolding IsTracked
status-IsTracked k st m m' p q tracked key =
    let at = lookup-insert k key st m.statuses in
    elim (Bool-cases (str_eq k key)) [
      | inl e ↦ rw (p, q, at, e) (λ bad. absurd (cc))
      | inr e ↦ rw (p, q, at, e) (tracked key)
    ]

if-IsTracked {ℓ} :
    {A : Type ℓ} (b : Bool) (x y : A × InitManager)
    → IsTracked x.1
    → IsTracked y.1
    → IsTracked (if b then x else y).1
if-IsTracked true x y i j = i
if-IsTracked false x y i j = j

pub set_min_ready-IsTracked :
    (now : ℕ) (key : String) (n : ℕ) (m : InitManager)
    → IsTracked m
    → IsTracked (set_min_ready now key n m).1
unfolding set_min_ready
set_min_ready-IsTracked now key n m tracked = if-IsTracked (not m.started) _ _ tracked (
    if-IsTracked (not (is_some (lookup key m.specs))) _ _ tracked
      (both-IsTracked key (with_min_ready now n (status_of key m)) n m _ refl refl tracked))

pub retry_spec-IsTracked :
    (now : ℕ) (key : String) (m : InitManager) → IsTracked m → IsTracked (retry_spec now key m).1
unfolding retry_spec
retry_spec-IsTracked now key m tracked = if-IsTracked (not m.started) _ _ tracked (
    if-IsTracked (not (is_some (lookup key m.specs))) _ _ tracked (
      status-IsTracked key (record (cleared (status_of key m)) { updated_at = now }) m _ refl refl
        tracked))

start_specs-IsTracked :
    (now : ℕ) (mode : ActivationMode) (specs : List (String × ServerSpec)) (m : InitManager)
    → IsTracked m
    → IsTracked (start_specs now mode specs m)
unfolding start_specs
start_specs-IsTracked now mode [] m tracked = tracked
start_specs-IsTracked now mode ((k, spec) ∷ rest) m tracked =
    let n = baseline_min_ready mode spec in
    both-IsTracked k (pending_status k spec.name n now) n (start_specs now mode rest m) _ refl refl
      (start_specs-IsTracked now mode rest m tracked)

pub start-IsTracked : (now : ℕ) (m : InitManager) → IsTracked m → IsTracked (start now m).1
unfolding start IsTracked
start-IsTracked now m tracked =
    if-IsTracked m.started _ _ tracked (start_specs-IsTracked now m.default_mode m.specs m tracked)
