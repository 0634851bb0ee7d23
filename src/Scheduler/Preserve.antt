-- ===== src/Scheduler/Preserve.antt =====
-- The invariant of a pool, section by section.
use mcpv.Base.{
  ℕ, ◌≤◌, ◌≡◌, refl, ap, sym, ◌∙◌, true, Bool-cases, member, inl, inr, arith, ◌==◌, lookup,
  Distinct-keep_if, member-keep_if,
}
use mcpv.Domain.Instance.{Instance}
use mcpv.Scheduler.State.{PoolState, modify}
use mcpv.Scheduler.Pool.{signal_waiter, remove_instance, lookup_sticky, other_than}
use mcpv.Scheduler.Pool.Removal.{remove_instance-instances, remove_instance-Bound}
use mcpv.Scheduler.Acquire.{release}
use mcpv.Scheduler.Invariant.{PoolInv, IsCounted, instances-PoolInv}

-- The same instances, bindings and objects.
pub same-PoolInv :
    (s s' : PoolState)
    → s'.spec ≡ s.spec
    → s'.instances ≡ s.instances
    → s'.sticky ≡ s.sticky
    → s'.heap ≡ s.heap
    → PoolInv s
    → PoolInv s'
unfolding lookup_sticky
same-PoolInv s s' p e m h v =
    instances-PoolInv s s' p e (λ j k (b, l, at). (b, ap (lookup j) (sym m) ∙ l, at))
      (λ k x c. rw h c) (λ k x le. rw h le) v

pub release-parts :
    (now h : ℕ) (s : PoolState)
    → let s' = (release now h s).1 in
      (s'.spec ≡ s.spec) × (s'.instances ≡ s.instances) × (s'.sticky ≡ s.sticky)
unfolding release signal_waiter
release-parts now h s = ground arith

release-IsCounted :
    (now h : ℕ) (s : PoolState) (k : ℕ)
    → IsCounted (s.heap k)
    → IsCounted ((release now h s).1.heap k)
unfolding release IsCounted signal_waiter
release-IsCounted now h s k c = ground arith

release_within :
    (now h : ℕ) (s : PoolState) (k : ℕ)
    → ((release now h s).1.heap k).busy_count ≤ (s.heap k).busy_count
unfolding release signal_waiter
release_within now h s k = ground arith

pub release-PoolInv : (now h : ℕ) (s : PoolState) → PoolInv s → PoolInv (release now h s).1
unfolding lookup_sticky
release-PoolInv now h s v =
    let (p, e, m) = release-parts now h s in
    instances-PoolInv s _ p e (λ j k (b, l, at). (b, ap (lookup j) (sym m) ∙ l, at))
      (λ k x c. release-IsCounted now h s k c) (λ k x le. omega (arith, release_within now h s k)) v

-- A change of one object that keeps its request count and makes it neither ready nor busy, or
-- leaves its state alone.
pub modify-PoolInv :
    (h : ℕ) (f : Instance → Instance) (s : PoolState)
    → ((i : Instance) → IsCounted i → IsCounted (f i))
    → ((i : Instance) → (f i).busy_count ≡ i.busy_count)
    → PoolInv s
    → PoolInv (modify h f s)
unfolding lookup_sticky
modify-PoolInv h f s keeps same v =
    instances-PoolInv s (modify h f s) refl refl (λ j k b. b) (λ k x c. counted k c)
      (λ k x le. limit k le) v
  where
    counted : (k : ℕ) → IsCounted (s.heap k) → IsCounted ((modify h f s).heap k)
    counted k c = elim (Bool-cases (k == h)) [ inl e ↦ rw e (keeps _ c) | inr e ↦ rw e c ]

    limit :
        (k : ℕ)
        → (s.heap k).busy_count ≤ s.spec.max_concurrent
        → ((modify h f s).heap k).busy_count ≤ s.spec.max_concurrent
    limit k le = ground (arith, same (s.heap k))

remove_instance-frame :
    (h : ℕ) (s : PoolState)
    → ((remove_instance h s).spec ≡ s.spec) × ((remove_instance h s).heap ≡ s.heap)
unfolding remove_instance
remove_instance-frame h s = ground arith

still :
    (h k : ℕ) (s : PoolState)
    → member k (remove_instance h s).instances ≡ true
    → member k s.instances ≡ true
still h k s m = ground (
  arith,
  ap (member k) (remove_instance-instances h s),
  member-keep_if k (other_than h) s.instances,
)

-- Fewer instances, and the bindings to those that are left.
pub remove_instance-PoolInv : (h : ℕ) (s : PoolState) → PoolInv s → PoolInv (remove_instance h s)
remove_instance-PoolInv h s v = record {
  positive = rw (remove_instance-frame h s).0 v.positive;
  distinct =
      rw (remove_instance-instances h s) (Distinct-keep_if (other_than h) s.instances v.distinct);
  binds = λ j k b.
      let (old, ne) = remove_instance-Bound h s v.binds j k b in
      rw (remove_instance-instances h s)
        (ground (arith, member-keep_if k (other_than h) s.instances, v.binds j k old, ne));
  counted = rw (remove_instance-frame h s).1 (λ k m. v.counted k (still h k s m));
  within =
      rw ((remove_instance-frame h s).1, (remove_instance-frame h s).0)
        (λ k m. v.within k (still h k s m));
}
