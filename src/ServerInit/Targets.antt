-- ===== src/ServerInit/Targets.antt =====
-- internal/app/bootstrap/serverinit/manager.go: a new target that meets a worker on its way out.
use mcpv.Base.{
  ℕ, ◌≡◌, refl, ap, ◌∙◌, String, Bool, true, false, not, Option, none, some, List, [], ◌∷◌, ◌==◌,
  str_eq, eq_iff, has, is_some, lookup, insert, lookup-insert, keep_if, ok, arith,
}
use mcpv.ServerInit.{
  ServerInitStatus, InitManager, set_min_ready, ensure_worker, rest_worker, leave, target_of,
  update_status, update_found, status_of, with_min_ready, number_or_zero,
}

has-leave :
    (key : String) (ks : List String) → has key (keep_if (λ k. not (str_eq k key)) ks) ≡ false
unfolding has
has-leave key [] = refl
has-leave key (k ∷ ks) = ground (arith, has-leave key ks)

target_of-insert :
    (key : String) (n : ℕ) (m : InitManager) (st : List (String × ServerInitStatus))
    → target_of key (record m { targets = insert key n m.targets; statuses = st }) ≡ n
unfolding target_of
target_of-insert key n m st =
    rw (lookup-insert key key n m.targets) (ground (arith, eq_iff key key))

-- `updateStatus` changes statuses only.
update_status-keeps :
    (f : ServerInitStatus → ServerInitStatus) (key : String) (o : Option ServerInitStatus)
    (m : InitManager)
    → ((update_found f key o m).targets ≡ m.targets)
      × ((update_found f key o m).running ≡ m.running)
update_status-keeps f key none m = (refl, refl)
update_status-keeps f key (some st) m = (refl, refl)

set_min_ready-sets :
    (now n : ℕ) (key : String) (m : InitManager)
    → m.started ≡ true
    → is_some (lookup key m.specs) ≡ true
    → target_of key m ≡ 0
    → (n == 0) ≡ false
    → let (reply, set) = set_min_ready now key n m in
      (reply ≡ ok true) × (target_of key set ≡ n) × (set.running ≡ m.running)
unfolding set_min_ready
set_min_ready-sets now n key m started known zero some_target =
    let fresh : (0 == n) ≡ false = ground arith in
    simp (started, known, zero, some_target, fresh)
      (
        refl,
        target_of-insert key n m (insert key (with_min_ready now n (status_of key m)) m.statuses),
        refl,
      )

ensure_worker-none :
    (key : String) (m : InitManager) → has key m.running ≡ true → ensure_worker key m ≡ (false, m)
unfolding ensure_worker
ensure_worker-none key m runs = simp runs refl

leave-target :
    (later : ℕ) (key : String) (m : InitManager)
    → target_of key (leave key (rest_worker later key m)) ≡ target_of key m
unfolding leave rest_worker update_status target_of
leave-target later key m =
    ap (λ t. number_or_zero (lookup key t)) (update_status-keeps _ key (lookup key m.statuses) m).0

leave-quiet : (key : String) (m : InitManager) → has key (leave key m).running ≡ false
unfolding leave
leave-quiet key m = has-leave key m.running

-- A worker has read a target of 0 and goes to rest. If `SetMinReady` sets a target `n` before
-- the worker has left, it goes on to `ensureWorker`, which finds the worker still there and
-- starts none, so that in the end the target is `n` and no worker runs.
pub lost_target :
    (now later n : ℕ) (key : String) (m : InitManager)
    → m.started ≡ true
    → is_some (lookup key m.specs) ≡ true
    → has key m.running ≡ true
    → target_of key m ≡ 0
    → (n == 0) ≡ false
    → let (reply, set) = set_min_ready now key n m in
      let (begun, ensured) = ensure_worker key set in
      let left = leave key (rest_worker later key ensured) in
      (reply ≡ ok true)
      × (begun ≡ false)
      × (target_of key left ≡ n)
      × (has key left.running ≡ false)
lost_target now later n key m started known runs zero some_target =
    let set = (set_min_ready now key n m).1 in
    let (reply, target, same) = set_min_ready-sets now n key m started known zero some_target in
    let quiet : ensure_worker key set ≡ (false, set) =
      ensure_worker-none key set (ap (has key) same ∙ runs) in
    (
      reply,
      ap (λ (q : Bool × InitManager). q.0) quiet,
      leave-target later key (ensure_worker key set).1
          ∙ ap (λ (q : Bool × InitManager). target_of key q.1) quiet
          ∙ target,
      leave-quiet key (rest_worker later key (ensure_worker key set).1),
    )
