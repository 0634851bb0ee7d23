-- ===== src/Scheduler/Sessions.antt =====
-- Sessions of the stateful strategy across the requests of all clients, and what a release undoes.
mod Kept
pub use Kept.{IsSession}
use Kept.{
  IsApart, same-IsSession, release-IsSession, acquire_ready_only-IsSession, attempt-IsSession,
  end_wait-IsSession, release_reservation-IsSession, commit_start-IsSession,
}
use mcpv.Base.{
  Bool, not, ◌&&◌, ltb, length, if◌then◌else◌, Option, some, refl, lookup-insert, inl, inr,
  Bool-cases, ℕ, ◌<◌, ◌≡◌, ap, subst, ◌∙◌, true, false, none, List, [], ◌∷◌, String, str_eq, lookup,
  arith, ok, err, ◌==◌,
}
use mcpv.Domain.Spec.{stateful}
use mcpv.Domain.Instance.{ready, busy, is_routable, Instance}
use mcpv.Scheduler.State.{SchedulerError, PoolState, u64_mod}
use mcpv.Scheduler.Pool.{
  Acquired, acquire_ready, state_of, busy_count_of, mark_busy, lookup_sticky, signal_waiter,
  bind_sticky,
}
use mcpv.Scheduler.Pool.Grants.{Grants, acquire_ready-Grants}
use mcpv.Scheduler.Pool.Bindings.{Bound, SentTo, acquire_ready-Rebinds, acquire_ready-SentTo}
use mcpv.Scheduler.Acquire.{
  release, is_woken, attempt, acquire_ready_only, end_wait, StartOutcome, started, failed_start,
  release_reservation, adopt, commit_start, expire_context, discard_superseded, end_start,
  is_singleton, record_acquire_failure,
}
use mcpv.Scheduler.Acquire.Frames.{SameCore, after_ready-SameCore, ready_reply-SameCore}
use mcpv.Scheduler.Lifecycle.{end_drain}
use mcpv.Scheduler.Maintenance.{ping_succeeded}
use mcpv.Scheduler.Preserve.{release-parts}

-- A section that other requests may run, with any arguments, while the session of the key is with the
-- instance `h`: those of `Acquire`, of `AcquireReady` and of `Release`, but for the commit of a start for
-- the key itself, and the end of a drain and a ping. A start gives an instance at a new handle.
pub data Calm (key : String) (h : ℕ) (s : PoolState) : PoolState → Type 0 where
  attempts :
      (now : ℕ) (ctx : Option SchedulerError) (other : String)
      → Calm key h s (attempt now ctx other s).1
  acquires_ready :
      (now : ℕ) (ctx : Option SchedulerError) (other : String)
      → Calm key h s (acquire_ready_only now ctx other s).1
  releases : (now k : ℕ) → Calm key h s (release now k s).1
  context_expires : Calm key h s (expire_context s)
  ends_wait : (ctx : Option SchedulerError) → Calm key h s (end_wait ctx s).1
  releases_reservation :
      (now : ℕ) (o : StartOutcome) → IsApart h o → Calm key h s (release_reservation now o s)
  commits :
      (now : ℕ) (other : String) (gen : ℕ) (o : StartOutcome)
      → str_eq other key ≡ false
      → Calm key h s (commit_start now other gen o s).1
  discards : Calm key h s (discard_superseded s).1
  ends_drain : (k : ℕ) → Calm key h s (end_drain k s)
  pings : (now k : ℕ) → Calm key h s (ping_succeeded now k s)

pub data Calms (key : String) (h : ℕ) (s : PoolState) : PoolState → Type 0 where
  here : Calms key h s s
  next : {t u : PoolState} → Calms key h s t → Calm key h t u → Calms key h s u

Calm-IsSession :
    (key : String) (h : ℕ) (s t : PoolState)
    → Calm key h s t
    → IsSession key h s
    → IsSession key h t
unfolding expire_context discard_superseded end_drain ping_succeeded lookup_sticky
Calm-IsSession key h s t (attempts now ctx other) i = attempt-IsSession now ctx other key h s i
Calm-IsSession key h s t (acquires_ready now ctx other) i =
    acquire_ready_only-IsSession now ctx other key h s i
Calm-IsSession key h s t (releases now k) i = release-IsSession now k key h s i
Calm-IsSession key h s t context_expires i = same-IsSession key h s _ (refl, refl, refl, refl) i
Calm-IsSession key h s t (ends_wait ctx) i = end_wait-IsSession ctx key h s i
Calm-IsSession key h s t (releases_reservation now o apart) i =
    release_reservation-IsSession now o key h s apart i
Calm-IsSession key h s t (commits now other gen o apart) i =
    commit_start-IsSession now other gen o key h s apart i
Calm-IsSession key h s t discards i = same-IsSession key h s _ (refl, refl, refl, refl) i
Calm-IsSession key h s t (ends_drain k) i = same-IsSession key h s _ (refl, refl, refl, refl) i
Calm-IsSession key h s t (pings now k) i = record {
  by_key = i.by_key;
  bound = i.bound;
  routable = ground (arith, i.routable);
}

Calms-IsSession :
    (key : String) (h : ℕ) (s t : PoolState)
    → Calms key h s t
    → IsSession key h s
    → IsSession key h t
Calms-IsSession key h s t here i = i
Calms-IsSession key h s t (next {t = u} before step) i =
    Calm-IsSession key h u t step (Calms-IsSession key h s u before i)

-- While the instance of a session is routable, no interleaving of the sections of `Acquire`,
-- `AcquireReady` and `Release` for any keys, of ends of drains and of pings moves the session, unless a
-- start is committed for its own key: after it, `acquire_ready` with the key grants the session's
-- instance, or refuses as `sticky_busy`. (A commit for the key itself may move the session; stops,
-- sweeps and failed pings may end it.)
pub session_follows :
    (now : ℕ) (key : String) (h : ℕ) (s t : PoolState)
    → str_eq key "" ≡ false
    → IsSession key h s
    → Calms key h s t
    → SentTo h (acquire_ready now key t)
session_follows now key h s t ne i steps =
    let j = Calms-IsSession key h s t steps i in
    acquire_ready-SentTo now key t h j.by_key ne j.bound j.routable

-- What a release of `h` makes of a pool in which `h` was granted.
abbrev pub Undoes : ℕ → ℕ → PoolState → PoolState → Type 0
Undoes later h s s' =
    let t = (release later h s').1 in
    (busy_count_of t h ≡ busy_count_of s h)
    × (busy_count_of s h ≡ 0 → state_of t h ≡ ready)
    × (0 < busy_count_of s h → state_of t h ≡ busy)
    × ((k : ℕ) → (k == h) ≡ false → t.heap k ≡ s.heap k)
    × (busy_count_of s h ≡ 0
        → 0 < s'.waiters
        → s'.signal_seq < u64_mod
        → is_woken none s'.signal_seq t ≡ true)

mark_busy-Undoes :
    (now later h : ℕ) (s s' : PoolState) → s'.heap ≡ (mark_busy h now s).heap → Undoes later h s s'
unfolding release mark_busy signal_waiter is_woken
mark_busy-Undoes now later h s s' e =
    let at : (k : ℕ) → s'.heap k ≡ (mark_busy h now s).heap k =
      λ k. ap (λ (f : ℕ → Instance). f k) e in
    (
      ground (arith, at h),
      λ z. ground (arith, at h),
      λ z. ground (arith, at h),
      λ k ne. ground (arith, at h, at k),
      λ z w b. ground (arith, at h),
    )

granted-Undoes :
    (now later : ℕ) (s : PoolState) (h : ℕ) (r : Acquired) (s' : PoolState)
    → Grants now s r
    → r ≡ (ok h, s')
    → Undoes later h s s'
granted-Undoes now later s h r s' g e =
    let (a, same) = subst (Grants now s) e g in
    mark_busy-Undoes now later h s s' (ap (λ (t : PoolState). t.heap) same)

-- A release of the instance that `acquire_ready` granted restores its request count: the instance
-- is ready again if it served nothing before, and still busy if it did. Other instances are as
-- they were before the grant. If it is ready again, a goroutine that waits since the grant is
-- woken.
pub release-acquire_ready :
    (now later : ℕ) (key : String) (s : PoolState) (h : ℕ) (s' : PoolState)
    → acquire_ready now key s ≡ (ok h, s')
    → Undoes later h s s'
release-acquire_ready now later key s h s' e =
    granted-Undoes now later s h _ s' (acquire_ready-Grants now key s) e
