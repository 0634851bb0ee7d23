-- ===== src/Scheduler/Pool/Bindings.antt =====
-- What `acquireReadyLocked` does to the sticky bindings, and where a bound routing key is sent.
use mcpv.Base.{
  subst, ℕ, ◌≡◌, refl, ap, sym, ◌∙◌, true, false, Option, none, some, List, [], ◌∷◌, String, str_eq,
  lookup, lookup-insert, lookup-delete, Bool-cases, ok, err, inl, inr, arith, leb, eq_iff,
  if◌then◌else◌, insert,
}
use mcpv.Domain.Instance.{is_routable}
use mcpv.Domain.Spec.{InstanceStrategy, stateful, singleton}
use mcpv.Scheduler.State.{PoolState, StickyBinding, sticky_busy}
use mcpv.Scheduler.Pool.{
  Acquired, busy_count_of, state_of, mark_busy, grant, find_and_mark, acquire_singleton,
  acquire_bound, acquire_by, acquire_ready, lookup_sticky, unbind_sticky,
}
use mcpv.Scheduler.Pool.Selection.{Selects, find_ready_instance-Selects}

abbrev pub Bound : String → PoolState → ℕ → Type 0
Bound key s h = (b : StickyBinding) × (lookup_sticky s key ≡ some b) × (b.inst ≡ h)

-- No binding is new, and those to routable instances are kept.
abbrev pub Rebinds : PoolState → PoolState → Type 0
Rebinds s s' =
    ((j : String) (h : ℕ) → Bound j s' h → Bound j s h)
    × ((j : String) (h : ℕ) → is_routable (state_of s h) ≡ true → Bound j s h → Bound j s' h)

same-Rebinds : (s s' : PoolState) → s'.sticky ≡ s.sticky → Rebinds s s'
unfolding lookup_sticky
same-Rebinds s s' e = (
  λ j h (b, l, at). (b, ap (lookup j) (sym e) ∙ l, at),
  λ j h r (b, l, at). (b, ap (lookup j) e ∙ l, at),
)

grant-sticky :
    (now : ℕ) (s : PoolState) (r : Option ℕ × PoolState)
    → Selects s r
    → (grant now r).1.sticky ≡ s.sticky
unfolding mark_busy
grant-sticky now s (none, s') (no_one, e) = rw e
grant-sticky now s (some h, s') (m, a, least, (w, at, first, e)) = rw e

find_and_mark-sticky : (now : ℕ) (s : PoolState) → (find_and_mark now s).1.sticky ≡ s.sticky
unfolding find_and_mark
find_and_mark-sticky now s = grant-sticky now s _ (find_ready_instance-Selects s)

find_and_mark-Rebinds : (now : ℕ) (s : PoolState) → Rebinds s (find_and_mark now s).1
find_and_mark-Rebinds now s = same-Rebinds s (find_and_mark now s).1 (find_and_mark-sticky now s)

-- A binding to an instance that is not routable may go.
unbind-Rebinds :
    (key : String) (b : StickyBinding) (s s' : PoolState)
    → lookup_sticky s key ≡ some b
    → is_routable (state_of s b.inst) ≡ false
    → s'.sticky ≡ (unbind_sticky key s).sticky
    → Rebinds s s'
unfolding lookup_sticky unbind_sticky
unbind-Rebinds key b s s' l dead e = (
  λ j h (c, lj, at). (c, ground (arith, ap (lookup j) e, lookup-delete key j s.sticky), at),
  λ j h r (c, lj, at). (
    c,
    ground (arith, ap (lookup j) e, lookup-delete key j s.sticky, eq_iff key j, l, lj, at, r, dead),
    at,
  ),
)

-- A new access time leaves the binding's instance.
touch-Rebinds :
    (key : String) (b : StickyBinding) (now : ℕ) (s s' : PoolState)
    → lookup_sticky s key ≡ some b
    → s'.sticky ≡ insert key (record b { last_access = now }) s.sticky
    → Rebinds s s'
unfolding lookup_sticky
touch-Rebinds key b now s s' l e = (
  λ j h (c, lj, at). elim (Bool-cases (str_eq key j)) [
    | inl f ↦ (b, ground (arith, eq_iff key j, l, f), ground (arith, now_at j, lj, at, f))
    | inr f ↦ (c, ground (arith, now_at j, lj, f), at)
  ],
  λ j h r (c, lj, at). elim (Bool-cases (str_eq key j)) [
    | inl f ↦ (
      record b { last_access = now },
      ground (arith, now_at j, f),
      ground (arith, eq_iff key j, l, lj, at, f),
    )
    | inr f ↦ (c, ground (arith, now_at j, lj, f), at)
  ],
)
  where
    now_at :
        (j : String)
        → lookup j s'.sticky
          ≡ (if str_eq key j then some (record b { last_access = now }) else lookup j s.sticky)
    now_at j = ap (lookup j) e ∙ lookup-insert key j (record b { last_access = now }) s.sticky

acquire_bound-Rebinds :
    (now : ℕ) (key : String) (b : Option StickyBinding) (s : PoolState)
    → lookup_sticky s key ≡ b
    → Rebinds s (acquire_bound now key b s).1
unfolding acquire_bound mark_busy
acquire_bound-Rebinds now key none s l = find_and_mark-Rebinds now s
acquire_bound-Rebinds now key (some b) s l = elim (Bool-cases (is_routable (state_of s b.inst))) [
  | inr e ↦ rw e (unbind-Rebinds key b s _ l e (find_and_mark-sticky now (unbind_sticky key s)))
  | inl e ↦ elim (Bool-cases (leb s.spec.max_concurrent (busy_count_of s b.inst))) [
    | inl f ↦ rw (e, f) (same-Rebinds s s refl)
    | inr f ↦ rw (e, f) (touch-Rebinds key b now s _ l refl)
  ]
]

acquire_singleton-sticky :
    (now : ℕ) (hs : List ℕ) (s : PoolState) → (acquire_singleton now hs s).1.sticky ≡ s.sticky
unfolding acquire_singleton mark_busy
acquire_singleton-sticky now [] s = refl
acquire_singleton-sticky now (h ∷ hs) s = ground arith

acquire_by-Rebinds :
    (st : InstanceStrategy) (now : ℕ) (key : String) (s : PoolState)
    → Rebinds s (acquire_by st now key s).1
unfolding acquire_by
acquire_by-Rebinds singleton now key s =
    same-Rebinds s (acquire_singleton now s.instances s).1
      (acquire_singleton-sticky now s.instances s)
acquire_by-Rebinds stateful now key s = elim (Bool-cases (str_eq key "")) [
  | inl e ↦ rw e (find_and_mark-Rebinds now s)
  | inr e ↦ rw e (acquire_bound-Rebinds now key (lookup_sticky s key) s refl)
]
acquire_by-Rebinds _ now key s = find_and_mark-Rebinds now s

-- `acquire_ready` makes no binding to another instance than before, and it keeps every binding to
-- a routable instance.
pub acquire_ready-Rebinds :
    (now : ℕ) (key : String) (s : PoolState) → Rebinds s (acquire_ready now key s).1
unfolding acquire_ready
acquire_ready-Rebinds now key s = acquire_by-Rebinds s.spec.strategy now key s

-- The reply to a request whose key is bound to `h`: that instance or a refusal as busy.
abbrev pub SentTo : ℕ → Acquired → Type 0
SentTo h (ok k, s') = k ≡ h
SentTo h (err e, s') = e ≡ sticky_busy

acquire_bound-SentTo :
    (now : ℕ) (key : String) (b : StickyBinding) (s : PoolState)
    → is_routable (state_of s b.inst) ≡ true
    → SentTo b.inst (acquire_bound now key (some b) s)
unfolding acquire_bound
acquire_bound-SentTo now key b s r =
    elim (Bool-cases (leb s.spec.max_concurrent (busy_count_of s b.inst))) [
      | inl f ↦ rw (r, f) refl
      | inr f ↦ rw (r, f) refl
    ]

acquire_by-SentTo :
    (st : InstanceStrategy) (now : ℕ) (key : String) (s : PoolState) (b : StickyBinding)
    → st ≡ stateful
    → str_eq key "" ≡ false
    → lookup_sticky s key ≡ some b
    → is_routable (state_of s b.inst) ≡ true
    → SentTo b.inst (acquire_by st now key s)
unfolding acquire_by
acquire_by-SentTo st now key s b e ne l r =
    rw (e, acquire_by, ne, l) (acquire_bound-SentTo now key b s r)

-- Under the stateful strategy a request with a non-empty key that is bound to a routable instance
-- is served by that instance, or refused with `sticky_busy`; it never goes to another.
pub acquire_ready-SentTo :
    (now : ℕ) (key : String) (s : PoolState) (h : ℕ)
    → s.spec.strategy ≡ stateful
    → str_eq key "" ≡ false
    → Bound key s h
    → is_routable (state_of s h) ≡ true
    → SentTo h (acquire_ready now key s)
unfolding acquire_ready
acquire_ready-SentTo now key s h st ne (b, l, at) r =
    subst (λ k. SentTo k (acquire_ready now key s)) at
      (acquire_by-SentTo s.spec.strategy now key s b st ne l (rw at r))
