-- ===== src/Scheduler/Invariant.antt =====
-- What holds of a pool between two critical sections.
use mcpv.Base.{
  ℕ, ◌≤◌, ◌<◌, ◌≡◌, ap, true, String, Bool-cases, ok, err, member, Distinct, inl, inr, arith, ◌==◌,
}
use mcpv.Domain.Instance.{Instance, InstanceState, ready, busy, set_sticky_key}
use mcpv.Scheduler.State.{PoolState}
use mcpv.Scheduler.Pool.{Acquired, acquire_ready, mark_busy}
use mcpv.Scheduler.Pool.Selection.{is_available}
use mcpv.Scheduler.Pool.Grants.{Grants, acquire_ready-Grants}
use mcpv.Scheduler.Pool.Bindings.{Bound, Rebinds, acquire_ready-Rebinds}
use mcpv.Scheduler.Pool.Members.{BindsMembers}

abbrev StateFits : InstanceState → ℕ → Type 0
StateFits ready n = n ≡ 0
StateFits busy n = 0 < n
StateFits _ n = Unit {0}

-- A ready instance serves no request, and a busy one at least one.
unfoldable pub IsCounted : Instance → Type 0
IsCounted i = StateFits i.state i.busy_count

-- Other fields of the object do not matter.
pub sticky_key-IsCounted :
    (key : String) (i : Instance) → IsCounted i → IsCounted (set_sticky_key key i)
unfolding IsCounted
sticky_key-IsCounted key i c = c

-- No instance stands in the pool twice, bindings are to instances of the pool, the state of an
-- instance agrees with its request count, and no instance has more requests than the limit.
pub record PoolInv (s : PoolState) : Type 0 where
  pub positive : 0 < s.spec.max_concurrent
  pub distinct : Distinct s.instances
  pub binds : BindsMembers s
  pub counted : (h : ℕ) → member h s.instances ≡ true → IsCounted (s.heap h)
  pub within : (h : ℕ) → member h s.instances ≡ true → (s.heap h).busy_count ≤ s.spec.max_concurrent

-- A section that leaves the lists and the bindings alone is right if it is right for each instance.
pub instances-PoolInv :
    (s s' : PoolState)
    → s'.spec ≡ s.spec
    → s'.instances ≡ s.instances
    → ((j : String) (h : ℕ) → Bound j s' h → Bound j s h)
    → ((k : ℕ) → member k s.instances ≡ true → IsCounted (s.heap k) → IsCounted (s'.heap k))
    → ((k : ℕ)
        → member k s.instances ≡ true
        → (s.heap k).busy_count ≤ s.spec.max_concurrent
        → (s'.heap k).busy_count ≤ s.spec.max_concurrent)
    → PoolInv s
    → PoolInv s'
instances-PoolInv s s' p e old count limit v = record {
  positive = rw p v.positive;
  distinct = rw e v.distinct;
  binds = λ j h b. rw e (v.binds j h (old j h b));
  counted = rw e (λ k m. count k m (v.counted k m));
  within = rw (e, p) (λ k m. limit k m (v.within k m));
}

pub marked-IsCounted :
    (h now : ℕ) (s : PoolState) (k : ℕ)
    → IsCounted (s.heap k)
    → IsCounted ((mark_busy h now s).heap k)
unfolding mark_busy IsCounted
marked-IsCounted h now s k c = elim (Bool-cases (k == h)) [
  | inl e ↦ rw (e, IsCounted) (omega arith)
  | inr e ↦ rw (e, IsCounted) c
]

pub marked_within :
    (h now : ℕ) (s : PoolState) (k : ℕ)
    → is_available s h ≡ true
    → (s.heap k).busy_count ≤ s.spec.max_concurrent
    → ((mark_busy h now s).heap k).busy_count ≤ s.spec.max_concurrent
unfolding mark_busy
marked_within h now s k a le = ground arith

acquired-PoolInv :
    (now : ℕ) (s : PoolState) (r : Acquired)
    → PoolInv s
    → Grants now s r
    → Rebinds s r.1
    → PoolInv r.1
acquired-PoolInv now s (ok h, s') v (a, e) (old, kept) =
    instances-PoolInv s s' (ap (λ (t : PoolState). t.spec) e)
      (ap (λ (t : PoolState). t.instances) e) old (λ k m c. rw e (marked-IsCounted h now s k c))
      (λ k m le. rw e (marked_within h now s k a le)) v
acquired-PoolInv now s (err x, s') v e (old, kept) =
    instances-PoolInv s s' (ap (λ (t : PoolState). t.spec) e)
      (ap (λ (t : PoolState). t.instances) e) old (λ k m c. rw e c) (λ k m le. rw e le) v

-- The invariant holds after `acquire_ready`, whatever it replies.
pub acquire_ready-PoolInv :
    (now : ℕ) (key : String) (s : PoolState) → PoolInv s → PoolInv (acquire_ready now key s).1
acquire_ready-PoolInv now key s v =
    acquired-PoolInv now s _ v (acquire_ready-Grants now key s) (acquire_ready-Rebinds now key s)
