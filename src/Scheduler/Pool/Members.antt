-- ===== src/Scheduler/Pool/Members.antt =====
-- `acquireReadyLocked` grants instances of the pool only.
use mcpv.Base.{
  ℕ, ◌≡◌, refl, true, Option, none, some, List, [], ◌∷◌, String, str_eq, Bool-cases, ok, err,
  member, inl, inr, arith, leb,
}
use mcpv.Domain.Instance.{is_routable}
use mcpv.Domain.Spec.{InstanceStrategy, stateful, singleton}
use mcpv.Scheduler.State.{PoolState, StickyBinding}
use mcpv.Scheduler.Pool.{
  Acquired, busy_count_of, state_of, grant, find_and_mark, acquire_singleton, acquire_bound,
  acquire_by, acquire_ready, lookup_sticky, unbind_sticky,
}
use mcpv.Scheduler.Pool.Selection.{Selects, find_ready_instance-Selects}
use mcpv.Scheduler.Pool.Bindings.{Bound}

-- Every binding is to an instance of the pool.
abbrev pub BindsMembers : PoolState → Type 0
BindsMembers s = (j : String) (h : ℕ) → Bound j s h → member h s.instances ≡ true

abbrev pub GrantsFrom : List ℕ → Acquired → Type 0
GrantsFrom hs (ok h, s') = member h hs ≡ true
GrantsFrom hs (err e, s') = Unit {0}

grant-GrantsFrom :
    (now : ℕ) (s : PoolState) (r : Option ℕ × PoolState)
    → Selects s r
    → GrantsFrom s.instances (grant now r)
grant-GrantsFrom now s (none, s') x = tt
grant-GrantsFrom now s (some h, s') x = x.0

find_and_mark-GrantsFrom : (now : ℕ) (s : PoolState) → GrantsFrom s.instances (find_and_mark now s)
unfolding find_and_mark
find_and_mark-GrantsFrom now s = grant-GrantsFrom now s _ (find_ready_instance-Selects s)

acquire_singleton-GrantsFrom :
    (now : ℕ) (hs : List ℕ) (s : PoolState) → GrantsFrom hs (acquire_singleton now hs s)
unfolding acquire_singleton member
acquire_singleton-GrantsFrom now [] s = tt
acquire_singleton-GrantsFrom now (h ∷ hs) s = elim (Bool-cases (is_routable (state_of s h))) [
  | inr e ↦ rw e tt
  | inl e ↦ elim (Bool-cases (leb s.spec.max_concurrent (busy_count_of s h))) [
    | inl f ↦ rw (e, f) tt
    | inr f ↦ rw (e, f) (ground arith)
  ]
]

unbound-GrantsFrom :
    (now : ℕ) (key : String) (s : PoolState)
    → GrantsFrom s.instances (find_and_mark now (unbind_sticky key s))
unfolding unbind_sticky
unbound-GrantsFrom now key s = find_and_mark-GrantsFrom now (unbind_sticky key s)

acquire_bound-GrantsFrom :
    (now : ℕ) (key : String) (b : Option StickyBinding) (s : PoolState)
    → lookup_sticky s key ≡ b
    → BindsMembers s
    → GrantsFrom s.instances (acquire_bound now key b s)
unfolding acquire_bound
acquire_bound-GrantsFrom now key none s l v = find_and_mark-GrantsFrom now s
acquire_bound-GrantsFrom now key (some b) s l v =
    elim (Bool-cases (is_routable (state_of s b.inst))) [
      | inr e ↦ rw e (unbound-GrantsFrom now key s)
      | inl e ↦ elim (Bool-cases (leb s.spec.max_concurrent (busy_count_of s b.inst))) [
        | inl f ↦ rw (e, f) tt
        | inr f ↦ rw (e, f) (v key b.inst (b, l, refl))
      ]
    ]

acquire_by-GrantsFrom :
    (st : InstanceStrategy) (now : ℕ) (key : String) (s : PoolState)
    → BindsMembers s
    → GrantsFrom s.instances (acquire_by st now key s)
unfolding acquire_by
acquire_by-GrantsFrom singleton now key s v = acquire_singleton-GrantsFrom now s.instances s
acquire_by-GrantsFrom stateful now key s v = elim (Bool-cases (str_eq key "")) [
  | inl e ↦ rw e (find_and_mark-GrantsFrom now s)
  | inr e ↦ rw e (acquire_bound-GrantsFrom now key (lookup_sticky s key) s refl v)
]
acquire_by-GrantsFrom _ now key s v = find_and_mark-GrantsFrom now s

pub acquire_ready-GrantsFrom :
    (now : ℕ) (key : String) (s : PoolState)
    → BindsMembers s
    → GrantsFrom s.instances (acquire_ready now key s)
unfolding acquire_ready
acquire_ready-GrantsFrom now key s v = acquire_by-GrantsFrom s.spec.strategy now key s v
