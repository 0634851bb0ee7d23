-- ===== src/Scheduler/Sessions/Kept.antt =====
-- internal/infra/scheduler/acquire.go: the sections that leave a session with its instance.
use mcpv.Base.{
  Bool, not, ◌&&◌, ltb, length, if◌then◌else◌, Option, some, refl, lookup-insert, ℕ, ◌≡◌, ap, ◌∙◌,
  true, false, none, String, str_eq, lookup, arith, ok, err, ◌==◌,
}
use mcpv.Domain.Spec.{stateful}
use mcpv.Domain.Instance.{is_routable}
use mcpv.Scheduler.State.{SchedulerError, PoolState}
use mcpv.Scheduler.Pool.{
  Acquired, acquire_ready, state_of, mark_busy, lookup_sticky, signal_waiter, bind_sticky,
}
use mcpv.Scheduler.Pool.Grants.{Grants, acquire_ready-Grants}
use mcpv.Scheduler.Pool.Bindings.{Bound, acquire_ready-Rebinds}
use mcpv.Scheduler.Acquire.{
  release, attempt, acquire_ready_only, end_wait, StartOutcome, started, failed_start,
  release_reservation, adopt, commit_start, end_start, is_singleton, record_acquire_failure,
}
use mcpv.Scheduler.Acquire.Frames.{SameCore, after_ready-SameCore, ready_reply-SameCore}
use mcpv.Scheduler.Preserve.{release-parts}

-- The key's session is with the instance `h`, which can be routed to.
pub record IsSession (key : String) (h : ℕ) (s : PoolState) : Type 0 where
  pub by_key : s.spec.strategy ≡ stateful
  pub bound : Bound key s h
  pub routable : is_routable (state_of s h) ≡ true

granted-routable :
    (now h : ℕ) (s : PoolState) (r : Acquired)
    → Grants now s r
    → is_routable (state_of s h) ≡ true
    → (is_routable (state_of r.1 h) ≡ true) × (r.1.spec ≡ s.spec)
unfolding mark_busy
granted-routable now h s (ok k, s') (a, e) t =
    (rw e (ground arith), ap (λ (x : PoolState). x.spec) e)
granted-routable now h s (err x, s') e t = (rw e t, ap (λ (x : PoolState). x.spec) e)

pub acquire-IsSession :
    (now : ℕ) (other key : String) (h : ℕ) (s : PoolState)
    → IsSession key h s
    → IsSession key h (acquire_ready now other s).1
acquire-IsSession now other key h s i =
    let (r, p) = granted-routable now h s _ (acquire_ready-Grants now other s) i.routable in
    record {
      by_key = rw p i.by_key;
      bound = (acquire_ready-Rebinds now other s).1 key h i.routable i.bound;
      routable = r;
    }

release-routable :
    (now k h : ℕ) (s : PoolState)
    → is_routable (state_of s h) ≡ true
    → is_routable (state_of (release now k s).1 h) ≡ true
unfolding release signal_waiter
release-routable now k h s t = ground arith

pub release-IsSession :
    (now k : ℕ) (key : String) (h : ℕ) (s : PoolState)
    → IsSession key h s
    → IsSession key h (release now k s).1
unfolding lookup_sticky
release-IsSession now k key h s i =
    let (p, e, m) = release-parts now k s in
    let (b, l, at) = i.bound in
    record {
      by_key = rw p i.by_key;
      bound = (b, ap (lookup key) m ∙ l, at);
      routable = release-routable now k h s i.routable;
    }

pub same-IsSession :
    (key : String) (h : ℕ) (s s' : PoolState)
    → SameCore s s'
    → IsSession key h s
    → IsSession key h s'
unfolding lookup_sticky
same-IsSession key h s s' (p, _, m, e) i =
    let (b, l, at) = i.bound in
    record {
      by_key = rw p i.by_key;
      bound = (b, ap (lookup key) m ∙ l, at);
      routable = rw e i.routable;
    }

pub acquire_ready_only-IsSession :
    (now : ℕ) (ctx : Option SchedulerError) (other key : String) (h : ℕ) (s : PoolState)
    → IsSession key h s
    → IsSession key h (acquire_ready_only now ctx other s).1
unfolding acquire_ready_only
acquire_ready_only-IsSession now (some e) other key h s i = i
acquire_ready_only-IsSession now none other key h s i =
    same-IsSession key h (acquire_ready now other s).1 _ (ready_reply-SameCore _)
      (acquire-IsSession now other key h s i)

pub attempt-IsSession :
    (now : ℕ) (ctx : Option SchedulerError) (other key : String) (h : ℕ) (s : PoolState)
    → IsSession key h s
    → IsSession key h (attempt now ctx other s).1
unfolding attempt
attempt-IsSession now ctx other key h s i =
    same-IsSession key h (acquire_ready now other s).1 _ (after_ready-SameCore now ctx _)
      (acquire-IsSession now other key h s i)

pub end_wait-IsSession :
    (ctx : Option SchedulerError) (key : String) (h : ℕ) (s : PoolState)
    → IsSession key h s
    → IsSession key h (end_wait ctx s).1
unfolding end_wait
end_wait-IsSession none key h s i = same-IsSession key h s _ (refl, refl, refl, refl) i
end_wait-IsSession (some e) key h s i = same-IsSession key h s _ (refl, refl, refl, refl) i

-- A start that failed, or gave an instance at another handle.
abbrev pub IsApart : ℕ → StartOutcome → Type 0
IsApart h (started j i) = (h == j) ≡ false
IsApart h (failed_start e) = Unit {0}

pub release_reservation-IsSession :
    (now : ℕ) (o : StartOutcome) (key : String) (h : ℕ) (s : PoolState)
    → IsApart h o
    → IsSession key h s
    → IsSession key h (release_reservation now o s)
unfolding release_reservation lookup_sticky
release_reservation-IsSession now (started j x) key h s apart i = record {
  by_key = i.by_key;
  bound = i.bound;
  routable = ground (arith, apart, i.routable);
}
release_reservation-IsSession now (failed_start e) key h s apart i =
    same-IsSession key h s _ (refl, refl, refl, refl) i

adopt-IsSession :
    (now : ℕ) (other key : String) (j h : ℕ) (s : PoolState)
    → str_eq other key ≡ false
    → IsSession key h s
    → IsSession key h (adopt now other j s)
unfolding adopt mark_busy bind_sticky signal_waiter lookup_sticky
adopt-IsSession now other key j h s apart i =
    let (b, l, at) = i.bound in
    record {
      by_key = ground (arith, i.by_key);
      bound = (
        b,
        ground (
          arith,
          l,
          apart,
          lookup-insert other key (record { inst = j; last_access = now }) s.sticky,
        ),
        at,
      );
      routable = ground (arith, i.routable);
    }

end_start-SameCore : (s : PoolState) → SameCore s (end_start s)
unfolding signal_waiter
end_start-SameCore s = ground arith

if-IsSession {ℓ} :
    {A : Type ℓ} (key : String) (h : ℕ) (b : Bool) (x y : A × PoolState)
    → IsSession key h x.1
    → IsSession key h y.1
    → IsSession key h (if b then x else y).1
if-IsSession key h true x y i j = i
if-IsSession key h false x y i j = j

pub commit_start-IsSession :
    (now : ℕ) (other : String) (gen : ℕ) (o : StartOutcome) (key : String) (h : ℕ) (s : PoolState)
    → str_eq other key ≡ false
    → IsSession key h s
    → IsSession key h (commit_start now other gen o s).1
unfolding commit_start record_acquire_failure
commit_start-IsSession now other gen (failed_start e) key h s apart i =
    same-IsSession key h s _ (end_start-SameCore s) i
commit_start-IsSession now other gen (started j x) key h s apart i =
    let ended = same-IsSession key h s (end_start s) (end_start-SameCore s) i in
    if-IsSession key h (not (s.generation == gen)) _ _ ended (
      if-IsSession key h (is_singleton s.spec.strategy && ltb 0 (length s.instances)) _ _ ended
        (adopt-IsSession now other key j h s apart i))
