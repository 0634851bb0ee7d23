-- ===== src/Scheduler/Reaping.antt =====
-- `reapIdle`: which instances are taken, and that enough ready ones stay.
use mcpv.Base.{
  ℕ, ◌+◌, ◌-◌, ◌<◌, ◌≤◌, ◌≡◌, refl, ap, subst, true, false, List, [], ◌∷◌, member, arith, ◌==◌,
  if◌then◌else◌, keep_if, length, Distinct, member_nil, member-cons, Bool-cases, inl, inr, ◌⊎◌,
}
use mcpv.Domain.Spec.{
  InstanceStrategy, stateless, stateful, persistent, singleton, unknown, idle_duration,
}
use mcpv.Domain.Instance.{ready, draining, set_state, is_ready}
use mcpv.Scheduler.State.{PoolState, modify}
use mcpv.Scheduler.Pool.{busy_count_of, state_of, count_ready}
use mcpv.Scheduler.Maintenance.{is_exempt, is_reapable, reap_scan, reap_idle}
use mcpv.Scheduler.Invariant.{PoolInv, IsCounted}

-- An instance that an idle sweep may take.
pub record IsIdle (now : ℕ) (s : PoolState) (h : ℕ) : Type 0 where
  pub is_ready : state_of s h ≡ ready
  pub not_exempt : is_exempt s.spec.strategy s h ≡ false
  pub expired : (s.min_ready ≡ 0) ⊎ ((s.heap h).last_active + idle_duration s.spec ≤ now)

abbrev ready_among : PoolState → List ℕ → ℕ
ready_among s hs = length (keep_if (λ h. is_ready (state_of s h)) hs)

is_ready-eq : (s : PoolState) (h : ℕ) → is_ready (state_of s h) ≡ true → state_of s h ≡ ready
is_ready-eq s h e = ground arith

is_reapable-IsIdle :
    (now n : ℕ) (s : PoolState) (h : ℕ)
    → is_reapable now n s h ≡ true
    → IsIdle now s h × (s.min_ready < n)
unfolding is_reapable
is_reapable-IsIdle now n s h e = (
  record {
    is_ready = is_ready-eq s h (ground arith);
    not_exempt = ground arith;
    expired = ground arith;
  },
  ground arith,
)

abbrev drained : ℕ → PoolState → PoolState
drained h s = modify h (set_state draining) s

exempt-drained :
    (st : InstanceStrategy) (h k : ℕ) (s : PoolState)
    → is_exempt st (drained h s) k ≡ is_exempt st s k
unfolding is_exempt
exempt-drained persistent h k s = refl
exempt-drained singleton h k s = refl
exempt-drained stateful h k s = refl
exempt-drained stateless h k s = refl
exempt-drained (unknown x) h k s = refl

drained-IsIdle :
    (now : ℕ) (h k : ℕ) (s : PoolState)
    → (k == h) ≡ false
    → IsIdle now (drained h s) k
    → IsIdle now s k
drained-IsIdle now h k s ne i = record {
  is_ready = ground arith;
  not_exempt = ground (arith, exempt-drained s.spec.strategy h k s);
  expired = ground arith;
}

ready_among-drained :
    (h : ℕ) (s : PoolState) (hs : List ℕ)
    → member h hs ≡ false
    → ready_among (drained h s) hs ≡ ready_among s hs
ready_among-drained h s [] m = refl
ready_among-drained h s (x ∷ hs) m = ground (arith, ready_among-drained h s hs, member-cons h x hs)

-- What a sweep over `hs` with the ready count `n` has done.
pub record Sweeps (now : ℕ) (hs : List ℕ) (n : ℕ) (s : PoolState) (r : List ℕ × PoolState)
    : Type 0 where
  pub frame : r.1 ≡ record s { heap = r.1.heap }
  pub heap_at :
      (k : ℕ) → r.1.heap k ≡ (if member k r.0 then set_state draining (s.heap k) else s.heap k)
  pub taken : (k : ℕ) → member k r.0 ≡ true → (member k hs ≡ true) × IsIdle now s k
  pub room : s.min_ready ≤ n → length r.0 + s.min_ready ≤ n
  pub counts : ready_among r.1 hs + length r.0 ≡ ready_among s hs

nothing-Sweeps : (now n : ℕ) (s : PoolState) → Sweeps now [] n s ([], s)
nothing-Sweeps now n s = record {
  frame = refl;
  heap_at = λ k. ground (arith, member_nil k);
  taken = λ k m. cc (member_nil k);
  room = λ le. omega arith;
  counts = omega arith;
}

module _ (now h : ℕ) (hs : List ℕ) (n : ℕ) (s : PoolState) (apart : member h hs ≡ false) where
  untaken :
      (t : PoolState) (m : ℕ) (r : List ℕ × PoolState) → Sweeps now hs m t r → member h r.0 ≡ false
  untaken t m r w = elim (Bool-cases (member h r.0)) [
    | inl e ↦ cc (apart, (w.taken h e).0)
    | inr e ↦ e
  ]

  skipped-Sweeps : (r : List ℕ × PoolState) → Sweeps now hs n s r → Sweeps now (h ∷ hs) n s r
  skipped-Sweeps r w = record {
    frame = w.frame;
    heap_at = w.heap_at;
    taken = λ k m. (ground (arith, member-cons k h hs, w.taken k m), (w.taken k m).1);
    room = w.room;
    counts = ground (arith, w.counts, w.heap_at h, untaken s n r w);
  }

  taken-Sweeps :
      (r : List ℕ × PoolState)
      → IsIdle now s h
      → s.min_ready < n
      → Sweeps now hs (n - 1) (drained h s) r
      → Sweeps now (h ∷ hs) n s (h ∷ r.0, r.1)
  taken-Sweeps r i lt w = record {
    frame = w.frame;
    heap_at =
        λ k. ground (arith, w.heap_at k, member-cons k h r.0, untaken (drained h s) (n - 1) r w);
    taken = λ k m. elim (Bool-cases (h == k)) [
      | inl e ↦
          (ground (arith, member-cons k h hs, e), subst (λ x. IsIdle now s x) (ground arith) i)
      | inr e ↦
          let old = w.taken k (ground (arith, member-cons k h r.0, e, m)) in
          (ground (arith, member-cons k h hs, old.0), drained-IsIdle now h k s (ground arith) old.1)
    ];
    room = λ le. omega (arith, w.room);
    counts = ground (
      arith,
      w.counts,
      w.heap_at h,
      untaken (drained h s) (n - 1) r w,
      ready_among-drained h s hs,
      i.is_ready,
    );
  }

reap_scan-Sweeps :
    (now : ℕ) (hs : List ℕ) (n : ℕ) (s : PoolState)
    → Distinct hs
    → Sweeps now hs n s (reap_scan now hs n s)
unfolding reap_scan
reap_scan-Sweeps now [] n s d = nothing-Sweeps now n s
reap_scan-Sweeps now (h ∷ hs) n s d = elim (Bool-cases (is_reapable now n s h)) [
  | inl e ↦
      let (i, lt) = is_reapable-IsIdle now n s h e in
      rw (e, reap_scan)
        (taken-Sweeps now h hs n s d.0 _ i lt (reap_scan-Sweeps now hs (n - 1) (drained h s) d.1))
  | inr e ↦ rw (e, reap_scan) (skipped-Sweeps now h hs n s d.0 _ (reap_scan-Sweeps now hs n s d.1))
]

-- The idle sweep takes only instances of the pool that are ready, are not exempt by the strategy
-- or a binding, and have been idle for the idle duration unless the minimum is 0; these are marked
-- draining and nothing else changes. The ready instances that are left are the ready ones there
-- were less those taken, and they are at least the minimum if there were that many.
pub reap_idle-Sweeps :
    (now : ℕ) (s : PoolState)
    → PoolInv s
    → Sweeps now s.instances (count_ready s) s (reap_idle now s)
      × (s.min_ready ≤ count_ready s → s.min_ready ≤ count_ready (reap_idle now s).1)
unfolding reap_idle count_ready
reap_idle-Sweeps now s v =
    let w = reap_scan-Sweeps now s.instances (count_ready s) s v.distinct in
    (w, λ le. rw (ap (λ (t : PoolState). t.instances) w.frame) (omega (arith, w.counts, w.room le)))

-- No request is cut off: an instance that an idle sweep takes serves none.
pub reap_idle-spares_busy :
    (now : ℕ) (s : PoolState) (h : ℕ)
    → PoolInv s
    → member h (reap_idle now s).0 ≡ true
    → busy_count_of s h ≡ 0
unfolding IsCounted
reap_idle-spares_busy now s h v m =
    let (at, idle) = (reap_idle-Sweeps now s v).0.taken h m in
    ground (arith, v.counted h at, idle.is_ready)
