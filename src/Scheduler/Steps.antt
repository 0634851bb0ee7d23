-- ===== src/Scheduler/Steps.antt =====
-- A pool as a transition system: each step is one critical section that some goroutine runs, with
-- any arguments and in any order. `ApplyCatalogDiff` may replace the specification by one that does
-- not lower `max_concurrent`: lowering it does not wait for the requests that are served.
use mcpv.Base.{
  at_least_zero, ◌≤◌, ℕ, ◌≡◌, refl, ap, ◌∙◌, sym, false, Option, none, some, List, [], ◌∷◌, member,
  arith, String, ◌==◌, Bool-cases, inl, inr, lookup, lookup-delete, delete, ltb, ◌+◌, ◌*◌,
}
use mcpv.Domain.Instance.{
  Instance, draining, failed, set_state, set_sticky_key, set_last_heartbeat_at,
  set_last_start_cause, StartCause,
}
use mcpv.Scheduler.State.{PoolState, SchedulerError, StickyBinding, modify}
use mcpv.Scheduler.Pool.{acquire_ready, lookup_sticky}
use mcpv.Scheduler.Acquire.{
  StartOutcome, started, failed_start, attempt, end_wait, expire_context, release_reservation,
  commit_start, discard_superseded, acquire_ready_only, release, end_start,
}
use mcpv.Scheduler.Acquire.Frames.{after_ready-SameCore, ready_reply-SameCore}
use mcpv.Scheduler.Lifecycle.{reserve_min_ready, with_cause}
use mcpv.Scheduler.Lifecycle.Causes.{with_cause-keeps}
use mcpv.Domain.Spec.{second, ServerSpec}
use mcpv.Scheduler.Catalog.{with_spec}
use mcpv.Scheduler.Lifecycle.{
  begin_reserved_start, finish_reserved_start, commit_reserved_start, record_instance_stop,
  stop_spec, end_drain,
}
use mcpv.Scheduler.Maintenance.{
  reap_idle, stop_and_remove, drop_stale, reap_stale_bindings, ping_succeeded, ping_failed,
}
use mcpv.Scheduler.Invariant.{
  PoolInv, IsCounted, instances-PoolInv, acquire_ready-PoolInv, sticky_key-IsCounted,
}
use mcpv.Scheduler.Preserve.{same-PoolInv, release-PoolInv, modify-PoolInv, remove_instance-PoolInv}
use mcpv.Scheduler.Adopt.{
  IsFresh, commit_start-PoolInv, commit_reserved_start-PoolInv, end_start-PoolInv,
}
use mcpv.Scheduler.Stopping.{stop_spec-PoolInv}
use mcpv.Scheduler.Reaping.{reap_idle-Sweeps}

-- The first section of `Acquire` changes beyond `acquire_ready` only counters and records.
attempt-PoolInv :
    (now : ℕ) (ctx : Option SchedulerError) (key : String) (s : PoolState)
    → PoolInv s
    → PoolInv (attempt now ctx key s).1
unfolding attempt
attempt-PoolInv now ctx key s v =
    let (p, e, m, h) = after_ready-SameCore now ctx (acquire_ready now key s) in
    same-PoolInv (acquire_ready now key s).1 _ p e m h (acquire_ready-PoolInv now key s v)

acquire_ready_only-PoolInv :
    (now : ℕ) (ctx : Option SchedulerError) (key : String) (s : PoolState)
    → PoolInv s
    → PoolInv (acquire_ready_only now ctx key s).1
unfolding acquire_ready_only
acquire_ready_only-PoolInv now (some e) key s v = v
acquire_ready_only-PoolInv now none key s v =
    let (p, e, m, h) = ready_reply-SameCore (acquire_ready now key s) in
    same-PoolInv (acquire_ready now key s).1 _ p e m h (acquire_ready-PoolInv now key s v)

end_wait-PoolInv :
    (ctx : Option SchedulerError) (s : PoolState) → PoolInv s → PoolInv (end_wait ctx s).1
unfolding end_wait
end_wait-PoolInv none s v = same-PoolInv s _ refl refl refl refl v
end_wait-PoolInv (some e) s v = same-PoolInv s _ refl refl refl refl v

-- A new object at a handle that is not in the pool.
started-PoolInv :
    (h : ℕ) (i : Instance) (s : PoolState)
    → member h s.instances ≡ false
    → PoolInv s
    → PoolInv (modify h (λ _. i) s)
unfolding lookup_sticky
started-PoolInv h i s out v =
    instances-PoolInv s (modify h (λ _. i) s) refl refl (λ j k b. b)
      (λ k m c. elim (Bool-cases (k == h)) [
        | inl e ↦ absurd (ground (arith, m, out, e))
        | inr e ↦ rw e c
      ])
      (λ k m le. elim (Bool-cases (k == h)) [
        | inl e ↦ absurd (ground (arith, m, out, e))
        | inr e ↦ rw e le
      ])
      v

-- An outcome that the lifecycle may have: a failure, or an instance at a handle outside the pool.
abbrev pub IsOutside : StartOutcome → PoolState → Type 0
IsOutside (started h i) s = member h s.instances ≡ false
IsOutside (failed_start e) s = Unit {0}

-- The same at the commit, where the new object is still as the lifecycle made it.
abbrev pub IsNew : StartOutcome → PoolState → Type 0
IsNew (started h i) s = IsFresh h s
IsNew (failed_start e) s = Unit {0}

release_reservation-PoolInv :
    (now : ℕ) (o : StartOutcome) (s : PoolState)
    → IsOutside o s
    → PoolInv s
    → PoolInv (release_reservation now o s)
unfolding release_reservation
release_reservation-PoolInv now (started h i) s out v =
    started-PoolInv h i _ out (same-PoolInv s _ refl refl refl refl v)
release_reservation-PoolInv now (failed_start e) s out v = same-PoolInv s _ refl refl refl refl v

finish_reserved_start-PoolInv :
    (o : StartOutcome) (s : PoolState)
    → IsOutside o s
    → PoolInv s
    → PoolInv (finish_reserved_start o s)
unfolding finish_reserved_start
finish_reserved_start-PoolInv (started h i) s out v =
    started-PoolInv h i _ out (same-PoolInv s _ refl refl refl refl v)
finish_reserved_start-PoolInv (failed_start e) s out v = same-PoolInv s _ refl refl refl refl v

commit-PoolInv :
    (now : ℕ) (key : String) (gen : ℕ) (o : StartOutcome) (s : PoolState)
    → IsNew o s
    → PoolInv s
    → PoolInv (commit_start now key gen o s).1
unfolding commit_start
commit-PoolInv now key gen (started h i) s f v = commit_start-PoolInv now key gen h i s f v
commit-PoolInv now key gen (failed_start e) s f v =
    same-PoolInv (end_start s) _ refl refl refl refl (end_start-PoolInv s v)

commit_reserved-PoolInv :
    (gen : ℕ) (o : StartOutcome) (s : PoolState)
    → IsNew o s
    → PoolInv s
    → PoolInv (commit_reserved_start gen o s).1
unfolding commit_reserved_start
commit_reserved-PoolInv gen (started h i) s f v = commit_reserved_start-PoolInv gen h i s f v
commit_reserved-PoolInv gen (failed_start e) s f v = v

draining-IsCounted : (i : Instance) → IsCounted i → IsCounted (set_state draining i)
unfolding IsCounted
draining-IsCounted i c = tt

failed-IsCounted : (i : Instance) → IsCounted i → IsCounted (set_state failed i)
unfolding IsCounted
failed-IsCounted i c = tt

heartbeat-IsCounted :
    (now : ℕ) (i : Instance) → IsCounted i → IsCounted (set_last_heartbeat_at now i)
unfolding IsCounted
heartbeat-IsCounted now i c = c

cause-IsCounted :
    (c : StartCause) (i : Instance) → IsCounted i → IsCounted (set_last_start_cause (some c) i)
unfolding IsCounted
cause-IsCounted c i x = x

reap_idle-PoolInv : (now : ℕ) (s : PoolState) → PoolInv s → PoolInv (reap_idle now s).1
unfolding lookup_sticky
reap_idle-PoolInv now s v =
    let w = (reap_idle-Sweeps now s v).0 in
    instances-PoolInv s (reap_idle now s).1 (ap (λ (t : PoolState). t.spec) w.frame)
      (ap (λ (t : PoolState). t.instances) w.frame)
      (λ j k (b, l, at). (b, ap (λ (t : PoolState). lookup j t.sticky) (sym w.frame) ∙ l, at))
      (λ k m c. elim (Bool-cases (member k (reap_idle now s).0)) [
        | inl e ↦ rw (w.heap_at k, e) (draining-IsCounted (s.heap k) c)
        | inr e ↦ rw (w.heap_at k, e) c
      ])
      (λ k m le. ground (arith, w.heap_at k, le)) v

unbound-PoolInv :
    (key : String) (s : PoolState) → PoolInv s → PoolInv (record s { sticky = delete key s.sticky })
unfolding lookup_sticky
unbound-PoolInv key s v =
    instances-PoolInv s (record s { sticky = delete key s.sticky }) refl refl
      (λ j k (b, l, at). (b, ground (arith, lookup-delete key j s.sticky, l), at)) (λ k m c. c)
      (λ k m le. le) v

drop_stale-PoolInv :
    (now ttl : ℕ) (m : List (String × StickyBinding)) (s : PoolState)
    → PoolInv s
    → PoolInv (drop_stale now ttl m s)
unfolding drop_stale
drop_stale-PoolInv now ttl [] s v = v
drop_stale-PoolInv now ttl ((key, b) ∷ m) s v =
    drop_stale-PoolInv now ttl m _ (elim (Bool-cases (ltb (b.last_access + ttl) now)) [
      | inl e ↦ rw e (
          modify-PoolInv b.inst (set_sticky_key "") (record s { sticky = delete key s.sticky })
            (λ i c. sticky_key-IsCounted "" i c) (λ i. refl) (unbound-PoolInv key s v))
      | inr e ↦ rw e v
    ])

reap_stale_bindings-PoolInv :
    (now : ℕ) (s : PoolState) → PoolInv s → PoolInv (reap_stale_bindings now s)
unfolding reap_stale_bindings
reap_stale_bindings-PoolInv now s v = ground (
  arith,
  v,
  drop_stale-PoolInv now (at_least_zero s.spec.session_ttl_seconds * second) s.sticky s v,
)

stop_and_remove-PoolInv : (h : ℕ) (s : PoolState) → PoolInv s → PoolInv (stop_and_remove h s)
unfolding stop_and_remove
stop_and_remove-PoolInv h s v = remove_instance-PoolInv h _ (same-PoolInv s _ refl refl refl refl v)

reserve_min_ready-PoolInv :
    (now n : ℕ) (cause : Option StartCause) (s : PoolState)
    → PoolInv s
    → PoolInv (reserve_min_ready now cause n s).1
unfolding reserve_min_ready
reserve_min_ready-PoolInv now n cause s v =
    let lowered = same-PoolInv s (record s { min_ready = n }) refl refl refl refl v in
    same-PoolInv (with_cause cause now (record s { min_ready = n })) _ refl refl refl refl (
      with_cause-keeps PoolInv
        (λ h c t.
          modify-PoolInv h (set_last_start_cause (some c)) t (λ i x. cause-IsCounted c i x)
            (λ i. refl))
        (λ c t. same-PoolInv t (record t { last_start_cause = some c }) refl refl refl refl) cause
        now (record s { min_ready = n }) lowered)

with_spec-PoolInv :
    (spec : ServerSpec) (s : PoolState)
    → s.spec.max_concurrent ≤ spec.max_concurrent
    → PoolInv s
    → PoolInv (with_spec spec s)
unfolding with_spec lookup_sticky
with_spec-PoolInv spec s more v = record {
  positive = omega (arith, v.positive);
  distinct = v.distinct;
  binds = λ j h b. v.binds j h b;
  counted = v.counted;
  within = λ h m. omega (arith, v.within h m);
}

-- The critical sections that may run on a pool.
pub data Step (s : PoolState) : PoolState → Type 0 where
  attempts :
      (now : ℕ) (ctx : Option SchedulerError) (key : String) → Step s (attempt now ctx key s).1
  acquires_ready :
      (now : ℕ) (ctx : Option SchedulerError) (key : String)
      → Step s (acquire_ready_only now ctx key s).1
  context_expires : Step s (expire_context s)
  ends_wait : (ctx : Option SchedulerError) → Step s (end_wait ctx s).1
  releases_reservation :
      (now : ℕ) (o : StartOutcome) → IsOutside o s → Step s (release_reservation now o s)
  commits :
      (now : ℕ) (key : String) (gen : ℕ) (o : StartOutcome)
      → IsNew o s
      → Step s (commit_start now key gen o s).1
  discards : Step s (discard_superseded s).1
  releases : (now h : ℕ) → Step s (release now h s).1
  reserves : (now n : ℕ) (cause : Option StartCause) → Step s (reserve_min_ready now cause n s).1
  begins_reserved : (now : ℕ) → Step s (begin_reserved_start now s).1
  finishes_reserved : (o : StartOutcome) → IsOutside o s → Step s (finish_reserved_start o s)
  commits_reserved :
      (gen : ℕ) (o : StartOutcome) → IsNew o s → Step s (commit_reserved_start gen o s).1
  counts_stop : Step s (record_instance_stop s)
  stops : Step s (stop_spec s).1
  ends_drain : (h : ℕ) → Step s (end_drain h s)
  reaps : (now : ℕ) → Step s (reap_idle now s).1
  removes : (h : ℕ) → Step s (stop_and_remove h s)
  drops_stale : (now : ℕ) → Step s (reap_stale_bindings now s)
  pings : (now h : ℕ) → Step s (ping_succeeded now h s)
  fails_ping : (h : ℕ) → Step s (ping_failed h s)
  respecs :
      (spec : ServerSpec) → s.spec.max_concurrent ≤ spec.max_concurrent → Step s (with_spec spec s)

pub data Reach (s : PoolState) : PoolState → Type 0 where
  here : Reach s s
  next : {t u : PoolState} → Reach s t → Step t u → Reach s u

-- Each of these sections keeps the invariant: no instance stands in the pool twice, bindings are
-- to instances of the pool, a ready instance serves no request and a busy one serves at least one,
-- and no instance of the pool serves more than `max_concurrent` requests.
pub Step-PoolInv : {s t : PoolState} → Step s t → PoolInv s → PoolInv t
unfolding expire_context discard_superseded begin_reserved_start record_instance_stop end_drain
    ping_succeeded ping_failed
Step-PoolInv {s} (attempts now ctx key) v = attempt-PoolInv now ctx key s v
Step-PoolInv {s} (acquires_ready now ctx key) v = acquire_ready_only-PoolInv now ctx key s v
Step-PoolInv {s} context_expires v = same-PoolInv s _ refl refl refl refl v
Step-PoolInv {s} (ends_wait ctx) v = end_wait-PoolInv ctx s v
Step-PoolInv {s} (releases_reservation now o out) v = release_reservation-PoolInv now o s out v
Step-PoolInv {s} (commits now key gen o f) v = commit-PoolInv now key gen o s f v
Step-PoolInv {s} discards v = same-PoolInv s _ refl refl refl refl v
Step-PoolInv {s} (releases now h) v = release-PoolInv now h s v
Step-PoolInv {s} (reserves now n cause) v = reserve_min_ready-PoolInv now n cause s v
Step-PoolInv {s} (begins_reserved now) v = same-PoolInv s _ refl refl refl refl v
Step-PoolInv {s} (finishes_reserved o out) v = finish_reserved_start-PoolInv o s out v
Step-PoolInv {s} (commits_reserved gen o f) v = commit_reserved-PoolInv gen o s f v
Step-PoolInv {s} counts_stop v = same-PoolInv s _ refl refl refl refl v
Step-PoolInv {s} stops v = stop_spec-PoolInv s v
Step-PoolInv {s} (ends_drain h) v = same-PoolInv s _ refl refl refl refl v
Step-PoolInv {s} (reaps now) v = reap_idle-PoolInv now s v
Step-PoolInv {s} (removes h) v = stop_and_remove-PoolInv h s v
Step-PoolInv {s} (drops_stale now) v = reap_stale_bindings-PoolInv now s v
Step-PoolInv {s} (pings now h) v =
    modify-PoolInv h (set_last_heartbeat_at now) s (λ i c. heartbeat-IsCounted now i c) (λ i. refl)
      v
Step-PoolInv {s} (fails_ping h) v =
    modify-PoolInv h (set_state failed) s (λ i c. failed-IsCounted i c) (λ i. refl) v
Step-PoolInv {s} (respecs spec more) v = with_spec-PoolInv spec s more v

-- If no instance stands in the pool twice, each binding is to an instance of the pool, the state of
-- each instance agrees with its number of requests, and none has more than `max_concurrent`, then
-- all this still holds after any interleaving of the goroutines' critical sections in which no
-- change of the catalog lowers the `max_concurrent` of the pool.
pub Reach-PoolInv : {s t : PoolState} → PoolInv s → Reach s t → PoolInv t
Reach-PoolInv v here = v
Reach-PoolInv v (next r st) = Step-PoolInv st (Reach-PoolInv v r)
