-- ===== src/Scheduler/Adopt.antt =====
-- The invariant when instances join the pool, and when all of them leave it.
use mcpv.Base.{
  insert, ℕ, ◌<◌, ◌≡◌, refl, subst, Bool, true, false, not, ◌&&◌, [], ◌∷◌, ◌++◌, String, str_eq,
  Bool-cases, member, inl, inr, arith, ◌==◌, member-append, member_single, Distinct-snoc,
  lookup-insert, if◌then◌else◌,
}
use mcpv.Domain.Instance.{Instance, ready, set_sticky_key}
use mcpv.Scheduler.State.{PoolState}
use mcpv.Scheduler.Pool.{mark_busy, signal_waiter, bind_sticky, lookup_sticky}
use mcpv.Scheduler.Pool.Selection.{is_available}
use mcpv.Scheduler.Acquire.{started, adopt, end_start, commit_start, is_stateful}
use mcpv.Scheduler.Lifecycle.{commit_reserved_start}
use mcpv.Scheduler.Invariant.{
  PoolInv, IsCounted, instances-PoolInv, sticky_key-IsCounted, marked-IsCounted, marked_within,
}
use mcpv.Scheduler.Preserve.{same-PoolInv, modify-PoolInv}

-- What the lifecycle hands over: an instance that the pool does not have, ready and unused.
pub record IsFresh (h : ℕ) (s : PoolState) : Type 0 where
  pub absent : member h s.instances ≡ false
  pub is_ready : (s.heap h).state ≡ ready
  pub unused : (s.heap h).busy_count ≡ 0

fresh-IsCounted : (h : ℕ) (s : PoolState) → IsFresh h s → IsCounted (s.heap h)
unfolding IsCounted
fresh-IsCounted h s f = ground arith

member_joined :
    (h k : ℕ) (s : PoolState)
    → member k (s.instances ++ h ∷ []) ≡ true
    → (k == h) ≡ false
    → member k s.instances ≡ true
member_joined h k s m ne = ground (arith, member-append k s.instances (h ∷ []), member_single k h)

abbrev joined : ℕ → PoolState → PoolState
joined h s = record s { instances = s.instances ++ h ∷ [] }

join-PoolInv : (h : ℕ) (s : PoolState) → IsFresh h s → PoolInv s → PoolInv (joined h s)
unfolding lookup_sticky
join-PoolInv h s f v = record {
  positive = v.positive;
  distinct = Distinct-snoc h s.instances v.distinct f.absent;
  binds = λ j k b. ground (arith, member-append k s.instances (h ∷ []), v.binds j k b);
  counted = λ k m. elim (Bool-cases (k == h)) [
    | inl e ↦ subst (λ x. IsCounted (s.heap x)) (ground arith) (fresh-IsCounted h s f)
    | inr e ↦ v.counted k (member_joined h k s m e)
  ];
  within = λ k m. elim (Bool-cases (k == h)) [
    | inl e ↦ ground (arith, f.unused)
    | inr e ↦ v.within k (member_joined h k s m e)
  ];
}

-- A binding to an instance of the pool.
bind-PoolInv :
    (key : String) (h now : ℕ) (s : PoolState)
    → member h s.instances ≡ true
    → PoolInv s
    → PoolInv (bind_sticky key h now s)
unfolding bind_sticky lookup_sticky
bind-PoolInv key h now s m v =
    modify-PoolInv h (set_sticky_key key) with_binding (λ i c. sticky_key-IsCounted key i c)
      (λ i. refl)
      (record {
        positive = v.positive;
        distinct = v.distinct;
        binds = λ j k (b, l, at). elim (Bool-cases (str_eq key j)) [
          | inl e ↦ ground (
            arith,
            m,
            l,
            at,
            e,
            lookup-insert key j (record { inst = h; last_access = now }) s.sticky,
          )
          | inr e ↦ v.binds j k (
            b,
            ground (
              arith,
              l,
              e,
              lookup-insert key j (record { inst = h; last_access = now }) s.sticky,
            ),
            at,
          )
        ];
        counted = v.counted;
        within = v.within;
      })
  where
    with_binding : PoolState
    with_binding = record s {
      sticky = insert key (record { inst = h; last_access = now }) s.sticky;
    }

mark_busy-PoolInv :
    (h now : ℕ) (s : PoolState) → is_available s h ≡ true → PoolInv s → PoolInv (mark_busy h now s)
unfolding mark_busy lookup_sticky
mark_busy-PoolInv h now s a v =
    instances-PoolInv s (mark_busy h now s) refl refl (λ j k b. b)
      (λ k m c. marked-IsCounted h now s k c) (λ k m le. marked_within h now s k a le) v

pub signal-PoolInv : (s : PoolState) → PoolInv s → PoolInv (signal_waiter s)
unfolding signal_waiter
signal-PoolInv s v =
    same-PoolInv s (signal_waiter s) (ground arith) (ground arith) (ground arith) (ground arith) v

pub end_start-PoolInv : (s : PoolState) → PoolInv s → PoolInv (end_start s)
unfolding signal_waiter
end_start-PoolInv s v =
    same-PoolInv s (end_start s) (ground arith) (ground arith) (ground arith) (ground arith) v

-- The pool before the new instance is marked busy.
abbrev bound_pool : Bool → ℕ → String → ℕ → PoolState → PoolState
bound_pool c now key h s = if c then bind_sticky key h now (joined h s) else joined h s

bound_pool-PoolInv :
    (c : Bool) (now : ℕ) (key : String) (h : ℕ) (s : PoolState)
    → IsFresh h s
    → PoolInv s
    → PoolInv (bound_pool c now key h s)
bound_pool-PoolInv false now key h s f v = join-PoolInv h s f v
bound_pool-PoolInv true now key h s f v =
    bind-PoolInv key h now (joined h s)
      (ground (arith, member-append h s.instances (h ∷ []), member_single h h))
      (join-PoolInv h s f v)

bound_pool-is_available :
    (c : Bool) (now : ℕ) (key : String) (h : ℕ) (s : PoolState)
    → IsFresh h s
    → 0 < s.spec.max_concurrent
    → is_available (bound_pool c now key h s) h ≡ true
unfolding bind_sticky
bound_pool-is_available false now key h s f p = ground arith
bound_pool-is_available true now key h s f p = ground arith

-- The new instance is in the pool, marked busy and bound to the key.
pub adopt-PoolInv :
    (now : ℕ) (key : String) (h : ℕ) (s : PoolState)
    → IsFresh h s
    → PoolInv s
    → PoolInv (adopt now key h s)
unfolding adopt
adopt-PoolInv now key h s f v =
    let c = is_stateful s.spec.strategy && not (str_eq key "") in
    end_start-PoolInv (mark_busy h now (bound_pool c now key h s)) (
      mark_busy-PoolInv h now (bound_pool c now key h s)
        (bound_pool-is_available c now key h s f v.positive) (bound_pool-PoolInv c now key h s f v))

-- The section after the start of an instance, whatever it decides.
pub commit_start-PoolInv :
    (now : ℕ) (key : String) (gen h : ℕ) (i : Instance) (s : PoolState)
    → IsFresh h s
    → PoolInv s
    → PoolInv (commit_start now key gen (started h i) s).1
unfolding commit_start
commit_start-PoolInv now key gen h i s f v =
    ground (arith, end_start-PoolInv s v, adopt-PoolInv now key h s f v)

pub commit_reserved_start-PoolInv :
    (gen h : ℕ) (i : Instance) (s : PoolState)
    → IsFresh h s
    → PoolInv s
    → PoolInv (commit_reserved_start gen (started h i) s).1
unfolding commit_reserved_start
commit_reserved_start-PoolInv gen h i s f v =
    ground (arith, signal-PoolInv (joined h s) (join-PoolInv h s f v))
