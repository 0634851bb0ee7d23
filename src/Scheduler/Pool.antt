-- ===== src/Scheduler/Pool.antt =====
-- internal/infra/scheduler/pool.go: the choice of an instance and the upkeep of a pool. The
-- argument `now` is what `time.Now` returns.
pub mod Selection
pub mod Grants
pub mod Bindings
pub mod Members
pub mod Removal
pub mod Singleton
use mcpv.Base.{
  ℕ, zero, suc, ◌+◌, ◌%◌, ◌||◌, String, Bool, true, false, not, Option, none, some, List, [], ◌∷◌,
  if◌then◌else◌, ltb, leb, ◌==◌, str_eq, length, get_or, keep_if, lookup, insert, delete, Result,
  ok, err,
}
use mcpv.Domain.Spec.{InstanceStrategy, stateless, stateful, persistent, singleton, unknown}
use mcpv.Domain.Instance.{
  InstanceState, busy, set_state, inc_busy_count, set_last_active, set_sticky_key, is_routable,
  is_ready,
}
use mcpv.Scheduler.State.{
  StickyBinding, SchedulerError, no_ready_instance, no_capacity, sticky_busy, PoolState, u64_mod,
  modify,
}

abbrev pub state_of : PoolState → ℕ → InstanceState
state_of s h = (s.heap h).state

abbrev pub busy_count_of : PoolState → ℕ → ℕ
busy_count_of s h = (s.heap h).busy_count

unfoldable pub lookup_sticky : PoolState → String → Option StickyBinding
lookup_sticky s key = lookup key s.sticky

unfoldable pub bind_sticky : String → ℕ → ℕ → PoolState → PoolState
bind_sticky key h now s =
    modify h (set_sticky_key key)
      (record s { sticky = insert key (record { inst = h; last_access = now }) s.sticky })

unfoldable pub unbind_sticky : String → PoolState → PoolState
unbind_sticky key s = record s { sticky = delete key s.sticky }

unfoldable pub mark_busy : ℕ → ℕ → PoolState → PoolState
mark_busy h now = modify h (λ i. set_last_active now (set_state busy (inc_busy_count i)))

unfoldable pub signal_waiter : PoolState → PoolState
signal_waiter s =
    if s.waiters == 0 then s else record s { signal_seq = (s.signal_seq + 1) % u64_mod }

-- The loop's variables `bestIdx` and `bestBusy`; `none` is a `bestIdx` of -1.
abbrev pub Best : Type 0
Best = Option (ℕ × ℕ)

abbrev improves : ℕ → Best → Bool
improves b none = true
improves b (some (idx, best)) = ltb b best

-- One round of the loop at index `idx`: the new best, and whether the loop breaks.
consider : PoolState → ℕ → Best → Best × Bool
consider s idx best =
    let h = get_or s.instances idx 0 in
    if leb s.spec.max_concurrent (busy_count_of s h)
    then (best, false)
    else if not (is_routable (state_of s h))
    then (best, false)
    else if improves (busy_count_of s h) best
    then (some (idx, busy_count_of s h), busy_count_of s h == 0)
    else (best, false)

-- The loop from round `i` with `k` rounds left.
scan : PoolState → ℕ → ℕ → ℕ → Best → Best
scan s start zero i best = best
scan s start (suc k) i best =
    let (best', stop) = consider s ((start + i) % length s.instances) best in
    let rest = scan s start k (i + 1) best' in if stop then best' else rest

abbrev pick : PoolState → Best → Option ℕ × PoolState
pick s none = (none, s)
pick s (some (idx, b)) =
    (some (get_or s.instances idx 0), record s { rr_index = (idx + 1) % length s.instances })

unfoldable pub find_ready_instance : PoolState → Option ℕ × PoolState
unfolding scan consider
find_ready_instance s =
    if length s.instances == 0
    then (none, s)
    else let s' = record s { rr_index = s.rr_index % length s.instances } in
      pick s' (scan s' s'.rr_index (length s.instances) 0 none)

abbrev pub Acquired : Type 0
Acquired = Result SchedulerError ℕ × PoolState

-- `inst != nil` marks the instance busy; otherwise no instance is ready.
abbrev grant : ℕ → Option ℕ × PoolState → Acquired
grant now (none, s) = (err no_ready_instance, s)
grant now (some h, s) = (ok h, mark_busy h now s)

find_and_mark : ℕ → PoolState → Acquired
unfolding find_ready_instance mark_busy
find_and_mark now s = grant now (find_ready_instance s)

acquire_singleton : ℕ → List ℕ → PoolState → Acquired
unfolding mark_busy
acquire_singleton now [] s = (err no_ready_instance, s)
acquire_singleton now (h ∷ rest) s =
    if not (is_routable (state_of s h))
    then (err no_ready_instance, s)
    else if leb s.spec.max_concurrent (busy_count_of s h)
    then (err no_capacity, s)
    else (ok h, mark_busy h now s)

-- The binding that the routing key has, if it has one.
acquire_bound : ℕ → String → Option StickyBinding → PoolState → Acquired
unfolding mark_busy unbind_sticky find_and_mark
acquire_bound now key none s = find_and_mark now s
acquire_bound now key (some b) s =
    if not (is_routable (state_of s b.inst))
    then find_and_mark now (unbind_sticky key s)
    else if leb s.spec.max_concurrent (busy_count_of s b.inst)
    then (err sticky_busy, s)
    else (
      ok b.inst,
      mark_busy b.inst now
          (record s { sticky = insert key (record b { last_access = now }) s.sticky }),
    )

acquire_by : InstanceStrategy → ℕ → String → PoolState → Acquired
unfolding acquire_singleton acquire_bound find_and_mark lookup_sticky
acquire_by singleton now key s = acquire_singleton now s.instances s
acquire_by stateful now key s =
    if str_eq key "" then find_and_mark now s else acquire_bound now key (lookup_sticky s key) s
acquire_by stateless now key s = find_and_mark now s
acquire_by persistent now key s = find_and_mark now s
acquire_by (unknown _) now key s = find_and_mark now s

unfoldable pub acquire_ready : ℕ → String → PoolState → Acquired
unfolding acquire_by
acquire_ready now key s = acquire_by s.spec.strategy now key s

abbrev bound_to : ℕ → List (String × StickyBinding) → Bool
bound_to h [] = false
bound_to h ((key, b) ∷ m) = b.inst == h || bound_to h m

unfoldable pub has_active_bindings : PoolState → ℕ → Bool
has_active_bindings s h = bound_to h s.sticky

abbrev pub other_than : ℕ → ℕ → Bool
other_than h k = not (k == h)

-- The loop that deletes the bindings to an instance, over the entries of the map.
drop_bound :
    ℕ
    → List (String × StickyBinding)
    → List (String × StickyBinding)
    → List (String × StickyBinding)
drop_bound h [] m = m
drop_bound h ((key, b) ∷ entries) m = drop_bound h entries (if b.inst == h then delete key m else m)

unfoldable pub remove_instance : ℕ → PoolState → PoolState
unfolding drop_bound
remove_instance h s =
    let out = keep_if (other_than h) s.instances in
    if length s.instances == 0 then s else record s {
      instances = out;
      rr_index = if length out == 0 then 0 else s.rr_index % length out;
      sticky = drop_bound h s.sticky s.sticky;
    }

unfoldable pub count_ready : PoolState → ℕ
count_ready s = length (keep_if (λ h. is_ready (state_of s h)) s.instances)

abbrev find_id : PoolState → String → List ℕ → Option ℕ
find_id s id [] = none
find_id s id (h ∷ hs) = if str_eq (s.heap h).id id then some h else find_id s id hs

unfoldable pub find_draining_by_id : PoolState → String → Option ℕ
find_draining_by_id s id = find_id s id s.draining

unfoldable pub remove_draining : ℕ → PoolState → PoolState
remove_draining h s = record s { draining = keep_if (other_than h) s.draining }
