-- ===== src/Scheduler/Races.antt =====
-- Starts of a singleton that overlap, and waits that nobody ends.
use mcpv.Base.{
  ℕ, ◌+◌, ◌-◌, ◌<◌, ◌≡◌, refl, ap, ◌∙◌, false, none, List, [], ◌∷◌, ◌++◌, String, arith, length,
}
use mcpv.Domain.Spec.{ServerSpec, singleton}
use mcpv.Domain.Instance.{Instance}
use mcpv.Scheduler.State.{PoolState, SchedulerError, no_ready_instance}
use mcpv.Scheduler.Pool.{signal_waiter}
use mcpv.Scheduler.Pool.Singleton.{acquire_ready_empty}
use mcpv.Scheduler.Acquire.{
  Attempt, starts, started, failed_start, surplus, attempt, reserve_start, release_reservation,
  commit_start, use_existing, is_woken, record_acquire_failure,
}
use mcpv.Scheduler.Stopping.{stop_spec-frame}
use mcpv.Scheduler.Lifecycle.{commit_reserved_start, stop_spec, end_drain}

-- A singleton's pool with no instance.
pub record IsVacantSingleton (s : PoolState) : Type 0 where
  pub strategy : s.spec.strategy ≡ singleton
  pub vacant : s.instances ≡ []

-- The pool after a failed look for an instance.
abbrev missed : PoolState → PoolState
missed s = record_acquire_failure no_ready_instance s

attempt_vacant :
    (now : ℕ) (key : String) (s : PoolState)
    → IsVacantSingleton s
    → s.start_in_flight ≡ false
    → attempt now none key s ≡ (starts s.generation, reserve_start now (missed s))
unfolding attempt record_acquire_failure reserve_start
attempt_vacant now key s v idle =
    rw (acquire_ready_empty now key s v.strategy v.vacant) (ground arith)

-- The pool while a start of `Acquire` is in flight.
abbrev in_flight : ℕ → PoolState → PoolState
in_flight now s = reserve_start now (missed s)

commit_reserved_joins :
    (gen k : ℕ) (j : Instance) (s : PoolState)
    → s.generation ≡ gen
    → 0 < s.min_ready
    → let t = (commit_reserved_start gen (started k j) s).1 in
      (t.instances ≡ s.instances ++ k ∷ []) × (t.generation ≡ gen) × (t.spec ≡ s.spec)
unfolding commit_reserved_start signal_waiter
commit_reserved_joins gen k j s g m = ground arith

reservation-frame :
    (now h : ℕ) (i : Instance) (s : PoolState)
    → let t = release_reservation now (started h i) s in
      (t.instances ≡ s.instances) × (t.generation ≡ s.generation) × (t.spec ≡ s.spec)
unfolding release_reservation
reservation-frame now h i s = (refl, refl, refl)

commit_surplus :
    (now : ℕ) (key : String) (gen h k : ℕ) (i : Instance) (s : PoolState)
    → s.generation ≡ gen
    → s.spec.strategy ≡ singleton
    → s.instances ≡ k ∷ []
    → (commit_start now key gen (started h i) s).0 ≡ surplus h
unfolding commit_start
commit_surplus now key gen h k i s g e n = ground (arith, ap (λ (l : List ℕ). length l) n)

use_existing_fatal : (now : ℕ) (key : String) (s : PoolState) → use_existing now key false s ≡ none
unfolding use_existing
use_existing_fatal now key s = refl

-- A start of `SetDesiredMinReady` that commits while `Acquire` starts an instance of the same
-- singleton makes the start of `Acquire` a surplus one, and `Acquire` then unlocks a mutex that it
-- has unlocked already: with the mutex not held by another goroutine that is a fatal error.
pub start_race_fatal :
    (now : ℕ) (key : String) (h k : ℕ) (i j : Instance) (s : PoolState)
    → IsVacantSingleton s
    → s.start_in_flight ≡ false
    → 0 < s.min_ready
    → let (a, s1) = attempt now none key s in
      let s2 = (commit_reserved_start s.generation (started k j) s1).1 in
      let s3 = release_reservation now (started h i) s2 in
      let (c, s4) = commit_start now key s.generation (started h i) s3 in
      (a ≡ starts s.generation)
      × (s2.instances ≡ k ∷ [])
      × (c ≡ surplus h)
      × (use_existing now key false s4 ≡ none)
unfolding record_acquire_failure reserve_start
start_race_fatal now key h k i j s v idle min =
    let (n, g, p) = commit_reserved_joins s.generation k j (in_flight now s) refl min in
    let s2 : PoolState = (commit_reserved_start s.generation (started k j) (in_flight now s)).1 in
    let (n', g', p') = reservation-frame now h i s2 in
    let one = n ∙ ap (λ l. l ++ k ∷ []) v.vacant in
    rw (attempt_vacant now key s v idle) (
      refl,
      one,
      commit_surplus now key s.generation h k i (release_reservation now (started h i) s2) (g' ∙ g)
          (ap (λ (x : ServerSpec). x.strategy) (p' ∙ p) ∙ v.strategy) (n' ∙ one),
      use_existing_fatal now key _,
    )

failed-IsVacantSingleton :
    (now : ℕ) (e : SchedulerError) (s : PoolState)
    → IsVacantSingleton s
    → IsVacantSingleton (release_reservation now (failed_start e) s)
      × ((release_reservation now (failed_start e) s).start_in_flight ≡ false)
unfolding release_reservation
failed-IsVacantSingleton now e s v = (record { strategy = v.strategy; vacant = v.vacant }, refl)

in_flight-IsVacantSingleton :
    (now : ℕ) (s : PoolState) → IsVacantSingleton s → IsVacantSingleton (in_flight now s)
unfolding reserve_start record_acquire_failure
in_flight-IsVacantSingleton now s v = record { strategy = v.strategy; vacant = v.vacant }

rejected-IsVacantSingleton :
    (now : ℕ) (key : String) (gen : ℕ) (e : SchedulerError) (s : PoolState)
    → IsVacantSingleton s
    → let t = (commit_start now key gen (failed_start e) s).1 in
      IsVacantSingleton t
      × (t.start_in_flight ≡ false)
      × (t.generation ≡ s.generation)
      × (t.starting ≡ s.starting)
unfolding commit_start signal_waiter
rejected-IsVacantSingleton now key gen e s v = (
  record { strategy = ground (arith, v.strategy); vacant = ground (arith, v.vacant) },
  ground arith,
  ground arith,
  ground arith,
)

in_flight-starting : (now : ℕ) (s : PoolState) → (in_flight now s).starting ≡ s.starting + 1
unfolding reserve_start record_acquire_failure
in_flight-starting now s = refl

failed-starting :
    (now : ℕ) (e : SchedulerError) (s : PoolState)
    → (release_reservation now (failed_start e) s).starting ≡ s.starting - 1
unfolding release_reservation
failed-starting now e s = refl

-- After a failed start `Acquire` clears `startInFlight` twice, the second time in a section of its
-- own. If another goroutine has begun a start in between, the flag is cleared under that start,
-- and a third goroutine begins one more: two starts of the singleton are then in flight.
pub failed_start_overlaps :
    (now : ℕ) (a b c : String) (e : SchedulerError) (s : PoolState)
    → IsVacantSingleton s
    → s.start_in_flight ≡ false
    → let (a1, s1) = attempt now none a s in
      let s2 = release_reservation now (failed_start e) s1 in
      let (a2, s3) = attempt now none b s2 in
      let s4 = (commit_start now a s.generation (failed_start e) s3).1 in
      let (a3, s5) = attempt now none c s4 in
      (a1 ≡ starts s.generation)
      × (a2 ≡ starts s2.generation)
      × (a3 ≡ starts s4.generation)
      × (s5.starting ≡ s.starting + 2)
failed_start_overlaps now a b c e s v idle =
    let s1 : PoolState = in_flight now s in
    let (v2, i2) = failed-IsVacantSingleton now e s1 (in_flight-IsVacantSingleton now s v) in
    let s2 : PoolState = release_reservation now (failed_start e) s1 in
    let (v4, i4, g4, n4) =
      rejected-IsVacantSingleton now a s.generation e (in_flight now s2)
        (in_flight-IsVacantSingleton now s2 v2) in
    let s4 : PoolState = (commit_start now a s.generation (failed_start e) (in_flight now s2)).1 in
    rw (attempt_vacant now a s v idle) (
      rw (attempt_vacant now b s2 v2 i2) (
        rw (attempt_vacant now c s4 v4 i4) (
          refl,
          refl,
          refl,
          omega (
            arith,
            n4,
            in_flight-starting now s4,
            in_flight-starting now s2,
            failed-starting now e s1,
            in_flight-starting now s,
          ),
        )))

-- The ends of drains, in any order.
abbrev pub end_drains : List ℕ → PoolState → PoolState
end_drains [] s = s
end_drains (h ∷ hs) s = end_drains hs (end_drain h s)

-- A drain that ends brings no instance back and signals no one.
end_drains-frame :
    (hs : List ℕ) (s : PoolState)
    → let t = end_drains hs s in
      (t.spec ≡ s.spec)
      × (t.instances ≡ s.instances)
      × (t.signal_seq ≡ s.signal_seq)
      × (t.start_in_flight ≡ s.start_in_flight)
unfolding end_drain
end_drains-frame [] s = (refl, refl, refl, refl)
end_drains-frame (h ∷ hs) s = end_drains-frame hs (end_drain h s)

-- Neither `stop_spec` nor the ends of drains after it wake a goroutine that waits for a singleton since
-- before: after them it is not woken while its context is live, whatever the number of waiters, though
-- an attempt made then would begin a start. (A later start by another call may wake it.)
pub stop_spec_wakes_no_one :
    (now : ℕ) (key : String) (hs : List ℕ) (s : PoolState)
    → s.spec.strategy ≡ singleton
    → s.start_in_flight ≡ false
    → let t = end_drains hs (stop_spec s).1 in
      (is_woken none s.signal_seq t ≡ false) × ((attempt now none key t).0 ≡ starts t.generation)
unfolding is_woken
stop_spec_wakes_no_one now key hs s e idle =
    let (p, n, q, f) = stop_spec-frame s in
    let (p', n', q', f') = end_drains-frame hs (stop_spec s).1 in
    let v : IsVacantSingleton (end_drains hs (stop_spec s).1) = record {
      strategy = ap (λ (x : ServerSpec). x.strategy) (p' ∙ p) ∙ e;
      vacant = n' ∙ n;
    } in
    (
      ground (arith, q, q'),
      ap (λ (r : Attempt × PoolState). r.0) (attempt_vacant now key _ v (f' ∙ f ∙ idle)),
    )
