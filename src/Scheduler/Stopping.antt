-- ===== src/Scheduler/Stopping.antt =====
-- `StopSpec`: what becomes of the instances, and of a start that is in flight.
use mcpv.Base.{
  ℕ, ◌+◌, ◌<◌, ◌≡◌, refl, ap, true, false, not, ◌||◌, List, [], ◌∷◌, String, lookup, member_nil,
  member-cons, member, arith, ◌==◌, if◌then◌else◌, ltb, member-keep_if, member-append, length, ◌&&◌,
  some, length-keep_if_split,
}
use mcpv.Domain.Instance.{Instance, draining, set_state}
use mcpv.Scheduler.State.{PoolState, u64_mod, modify}
use mcpv.Scheduler.Pool.{busy_count_of, state_of, lookup_sticky, signal_waiter}
use mcpv.Scheduler.Acquire.{superseded, started, commit_start}
use mcpv.Scheduler.Lifecycle.{Stopped, drain_all, stop_spec, commit_reserved_start}
use mcpv.Scheduler.Invariant.{PoolInv}

-- Only the objects change, and of these only the states.
drain_all-frame :
    (hs : List ℕ) (s : PoolState) → drain_all hs s ≡ record s { heap = (drain_all hs s).heap }
unfolding drain_all
drain_all-frame [] s = refl
drain_all-frame (h ∷ hs) s = drain_all-frame hs (modify h (set_state draining) s)

drain_all-heap :
    (hs : List ℕ) (s : PoolState) (k : ℕ)
    → (drain_all hs s).heap k ≡ (if member k hs then set_state draining (s.heap k) else s.heap k)
unfolding drain_all
drain_all-heap [] s k = rw (member_nil k) refl
drain_all-heap (h ∷ hs) s k =
    ground (arith, drain_all-heap hs (modify h (set_state draining) s) k, member-cons k h hs)

pub stop_spec-PoolInv : (s : PoolState) → PoolInv s → PoolInv (stop_spec s).1
unfolding stop_spec lookup_sticky lookup
stop_spec-PoolInv s v = record {
  positive = rw (ap (λ (t : PoolState). t.spec) (drain_all-frame s.instances s)) v.positive;
  distinct = tt;
  binds = λ j k (b, l, at). absurd (cc);
  counted = λ k m. cc (member_nil k);
  within = λ k m. cc (member_nil k);
}

pub stop_spec-frame :
    (s : PoolState)
    → let t = (stop_spec s).1 in
      (t.spec ≡ s.spec)
      × (t.instances ≡ [])
      × (t.signal_seq ≡ s.signal_seq)
      × (t.start_in_flight ≡ s.start_in_flight)
unfolding stop_spec
stop_spec-frame s =
    let e = drain_all-frame s.instances s in
    (
      ap (λ (t : PoolState). t.spec) e,
      refl,
      ap (λ (t : PoolState). t.signal_seq) e,
      ap (λ (t : PoolState). t.start_in_flight) e,
    )

-- What `stop_spec` does to the pool and to each instance.
pub record Stops (s : PoolState) (r : Stopped × PoolState) : Type 0 where
  pub emptied : r.1.instances ≡ []
  pub unbound : r.1.sticky ≡ []
  pub no_minimum : r.1.min_ready ≡ 0
  pub shared : length r.0.immediate + length r.0.deferred ≡ length s.instances
  pub deferred_iff :
      (h : ℕ) → member h r.0.deferred ≡ (member h s.instances && ltb 0 (busy_count_of s h))
  pub immediate_iff :
      (h : ℕ) → member h r.0.immediate ≡ (member h s.instances && not (ltb 0 (busy_count_of s h)))
  pub drains : (h : ℕ) → member h r.1.draining ≡ (member h s.draining || member h r.0.deferred)
  pub marked : (h : ℕ) → member h s.instances ≡ true → state_of r.1 h ≡ draining
  pub counts_kept : (h : ℕ) → busy_count_of r.1 h ≡ busy_count_of s h

-- `stop_spec` leaves no instance, no binding and no minimum. Each instance goes either to the list
-- that is stopped at once, exactly when it serves no request, or to the list that is drained,
-- exactly when it does; the latter are added to the draining ones. All of them are marked
-- draining, and no request count changes.
pub stop_spec-Stops : (s : PoolState) → Stops s (stop_spec s)
unfolding stop_spec
stop_spec-Stops s = record {
  emptied = refl;
  unbound = refl;
  no_minimum = refl;
  shared = length-keep_if_split (λ h. ltb 0 (busy_count_of s h)) s.instances;
  deferred_iff = λ h. member-keep_if h _ s.instances;
  immediate_iff = λ h. member-keep_if h _ s.instances;
  drains = λ h. member-append h s.draining _;
  marked = λ h m. ground (arith, drain_all-heap s.instances s h);
  counts_kept = λ h. ground (arith, drain_all-heap s.instances s h);
}

-- A start that was in flight when `stop_spec` ran is not adopted: whatever ran since, while the
-- generation is still that of the stop, `Acquire` hands the instance back to be stopped, and so
-- does `SetDesiredMinReady`.
pub stop_spec_supersedes :
    (now : ℕ) (key : String) (h : ℕ) (i : Instance) (s t : PoolState)
    → s.generation < u64_mod
    → t.generation ≡ (stop_spec s).1.generation
    → ((commit_start now key s.generation (started h i) t).0 ≡ superseded h)
      × ((commit_reserved_start s.generation (started h i) t).0 ≡ some h)
      × ((commit_start now key s.generation (started h i) t).1.instances ≡ t.instances)
      × ((commit_reserved_start s.generation (started h i) t).1 ≡ t)
unfolding stop_spec commit_start commit_reserved_start signal_waiter
stop_spec_supersedes now key h i s t lt e =
    let ne : (t.generation == s.generation) ≡ false = ground arith in
    (rw ne refl, rw ne refl, ground arith, rw ne refl)
