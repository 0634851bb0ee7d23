-- ===== src/Scheduler/Pool/Grants.antt =====
-- `acquireReadyLocked` over all strategies: whom it grants a request, what it changes, and when it
-- refuses.
use mcpv.Base.{
  ℕ, ◌≤◌, ◌≡◌, refl, ◌≢◌, true, false, Option, none, some, List, [], ◌∷◌, String, str_eq,
  Bool-cases, ok, err, member, inl, inr, arith, leb,
}
use mcpv.Domain.Spec.{InstanceStrategy, stateful, singleton}
use mcpv.Domain.Instance.{is_routable}
use mcpv.Scheduler.State.{PoolState, StickyBinding, no_ready_instance, sticky_busy}
use mcpv.Scheduler.Pool.{
  Acquired, busy_count_of, state_of, find_ready_instance, mark_busy, grant, find_and_mark,
  acquire_singleton, acquire_bound, acquire_by, acquire_ready, lookup_sticky, unbind_sticky,
}
use mcpv.Scheduler.Pool.Selection.{is_available, Selects, find_ready_instance-Selects}

-- A grant goes to an instance that could take a request, and changes that instance as `mark_busy`
-- does; a refusal changes no instance. Apart from that only the round-robin index and the bindings
-- change.
abbrev pub Grants : ℕ → PoolState → Acquired → Type 0
Grants now s (ok h, s') =
    (is_available s h ≡ true)
    × (s'
        ≡ record s { heap = (mark_busy h now s).heap; rr_index = s'.rr_index; sticky = s'.sticky })
Grants now s (err e, s') = s' ≡ record s { rr_index = s'.rr_index; sticky = s'.sticky }

grant-Grants :
    (now : ℕ) (s : PoolState) (r : Option ℕ × PoolState) → Selects s r → Grants now s (grant now r)
unfolding mark_busy
grant-Grants now s (none, s') (no_one, e) = rw e
grant-Grants now s (some h, s') (m, a, least, (w, at, first, e)) = rw e (a, refl)

find_and_mark-Grants : (now : ℕ) (s : PoolState) → Grants now s (find_and_mark now s)
unfolding find_and_mark
find_and_mark-Grants now s =
    grant-Grants now s (find_ready_instance s) (find_ready_instance-Selects s)

acquire_singleton-Grants :
    (now : ℕ) (hs : List ℕ) (s : PoolState) → Grants now s (acquire_singleton now hs s)
unfolding acquire_singleton mark_busy
acquire_singleton-Grants now [] s = refl
acquire_singleton-Grants now (h ∷ hs) s = elim (Bool-cases (is_routable (state_of s h))) [
  | inr e ↦ rw e refl
  | inl e ↦ elim (Bool-cases (leb s.spec.max_concurrent (busy_count_of s h))) [
    | inl f ↦ rw (e, f) refl
    | inr f ↦ rw (e, f) (ground arith, refl)
  ]
]

rebind-Grants :
    (now : ℕ) (m : List (String × StickyBinding)) (s : PoolState) (r : Acquired)
    → Grants now (record s { sticky = m }) r
    → Grants now s r
unfolding mark_busy
rebind-Grants now m s (ok h, s') g = g
rebind-Grants now m s (err e, s') g = g

-- The same with the bindings changed beforehand.
acquire_bound-Grants :
    (now : ℕ) (key : String) (b : Option StickyBinding) (s : PoolState)
    → Grants now s (acquire_bound now key b s)
unfolding acquire_bound mark_busy unbind_sticky
acquire_bound-Grants now key none s = find_and_mark-Grants now s
acquire_bound-Grants now key (some b) s = elim (Bool-cases (is_routable (state_of s b.inst))) [
  | inr e ↦ rw e (
      rebind-Grants now (unbind_sticky key s).sticky s _
        (find_and_mark-Grants now (unbind_sticky key s)))
  | inl e ↦ elim (Bool-cases (leb s.spec.max_concurrent (busy_count_of s b.inst))) [
    | inl f ↦ rw (e, f) refl
    | inr f ↦ rw (e, f) (ground arith, refl)
  ]
]

acquire_by-Grants :
    (st : InstanceStrategy) (now : ℕ) (key : String) (s : PoolState)
    → Grants now s (acquire_by st now key s)
unfolding acquire_by
acquire_by-Grants singleton now key s = acquire_singleton-Grants now s.instances s
acquire_by-Grants stateful now key s = elim (Bool-cases (str_eq key "")) [
  | inl e ↦ rw e (find_and_mark-Grants now s)
  | inr e ↦ rw e (acquire_bound-Grants now key (lookup_sticky s key) s)
]
acquire_by-Grants _ now key s = find_and_mark-Grants now s

-- Under every strategy, `acquire_ready` grants a request only to an instance that is routable and
-- has fewer requests than `max_concurrent`, and marks that instance busy with one request more;
-- every other instance and, but for the round-robin index and the bindings, the rest of the pool
-- stay as they were. When it refuses, no instance changes.
pub acquire_ready-Grants :
    (now : ℕ) (key : String) (s : PoolState) → Grants now s (acquire_ready now key s)
unfolding acquire_ready
acquire_ready-Grants now key s = acquire_by-Grants s.spec.strategy now key s

-- Why a request is refused under a strategy other than singleton.
abbrev pub Refuses : String → PoolState → Acquired → Type 0
Refuses key s (ok h, s') = Unit {0}
Refuses key s (err no_ready_instance, s') =
    (h : ℕ) → member h s.instances ≡ true → is_available s h ≡ false
Refuses key s (err sticky_busy, s') =
    (b : StickyBinding) × (lookup_sticky s key ≡ some b)
    × (is_routable (state_of s b.inst) ≡ true)
    × (s.spec.max_concurrent ≤ busy_count_of s b.inst)
Refuses key s (err _, s') = ⊥

grant-Refuses :
    (now : ℕ) (key : String) (s : PoolState) (r : Option ℕ × PoolState)
    → Selects s r
    → Refuses key s (grant now r)
grant-Refuses now key s (none, s') (no_one, e) = no_one
grant-Refuses now key s (some h, s') x = tt

find_and_mark-Refuses :
    (now : ℕ) (key : String) (s : PoolState) → Refuses key s (find_and_mark now s)
unfolding find_and_mark
find_and_mark-Refuses now key s =
    grant-Refuses now key s (find_ready_instance s) (find_ready_instance-Selects s)

-- A search that follows the removal of a dead binding is refused only for want of an instance.
unbound_grant-Refuses :
    (now : ℕ) (key : String) (s : PoolState) (r : Option ℕ × PoolState)
    → Selects (unbind_sticky key s) r
    → Refuses key s (grant now r)
unfolding unbind_sticky
unbound_grant-Refuses now key s (none, s') (no_one, e) = no_one
unbound_grant-Refuses now key s (some h, s') x = tt

unbound-Refuses :
    (now : ℕ) (key : String) (s : PoolState)
    → Refuses key s (find_and_mark now (unbind_sticky key s))
unfolding find_and_mark
unbound-Refuses now key s =
    unbound_grant-Refuses now key s _ (find_ready_instance-Selects (unbind_sticky key s))

acquire_bound-Refuses :
    (now : ℕ) (key : String) (b : Option StickyBinding) (s : PoolState)
    → lookup_sticky s key ≡ b
    → Refuses key s (acquire_bound now key b s)
unfolding acquire_bound
acquire_bound-Refuses now key none s l = find_and_mark-Refuses now key s
acquire_bound-Refuses now key (some b) s l = elim (Bool-cases (is_routable (state_of s b.inst))) [
  | inr e ↦ rw e (unbound-Refuses now key s)
  | inl e ↦ elim (Bool-cases (leb s.spec.max_concurrent (busy_count_of s b.inst))) [
    | inl f ↦ rw (e, f) (b, l, e, ground arith)
    | inr f ↦ rw (e, f) tt
  ]
]

acquire_by-Refuses :
    (st : InstanceStrategy) (now : ℕ) (key : String) (s : PoolState)
    → st ≢ singleton
    → Refuses key s (acquire_by st now key s)
unfolding acquire_by
acquire_by-Refuses singleton now key s h = absurd (h refl)
acquire_by-Refuses stateful now key s h = elim (Bool-cases (str_eq key "")) [
  | inl e ↦ rw e (find_and_mark-Refuses now key s)
  | inr e ↦ rw e (acquire_bound-Refuses now key (lookup_sticky s key) s refl)
]
acquire_by-Refuses _ now key s h = find_and_mark-Refuses now key s

-- Under a strategy other than singleton, `acquire_ready` fails with `no_ready_instance` only when
-- no instance of the pool is routable with fewer requests than `max_concurrent`, with
-- `sticky_busy` only when the routing key is bound to a routable instance that has
-- `max_concurrent` requests or more, and with no other error.
pub acquire_ready-Refuses :
    (now : ℕ) (key : String) (s : PoolState)
    → s.spec.strategy ≢ singleton
    → Refuses key s (acquire_ready now key s)
unfolding acquire_ready
acquire_ready-Refuses now key s h = acquire_by-Refuses s.spec.strategy now key s h
