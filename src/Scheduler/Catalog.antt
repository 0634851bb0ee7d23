-- ===== src/Scheduler/Catalog.antt =====
-- internal/infra/scheduler/catalog.go, with `StopSpec` by key: the specifications and the pools of
-- the whole scheduler. The two maps are association lists. What `StopSpec` hands to the lifecycle
-- comes back as a list of the keys and what was stopped.
use mcpv.Base.{
  ◌&&◌, String, Bool, true, false, not, Option, none, some, List, [], ◌∷◌, ◌++◌, if◌then◌else◌,
  ◌==◌, length, lookup, insert, delete, is_some, Result, ok, err,
}
use mcpv.Domain.Spec.{ServerSpec}
use mcpv.Domain.Instance.{Instance, starting}
use mcpv.Scheduler.State.{PoolState, SchedulerError, unknown_spec_key, unclassified}
use mcpv.Scheduler.Lifecycle.{Stopped, stop_spec}

pub record Scheduler : Type 0 where
  pub specs : List (String × ServerSpec)
  pub pools : List (String × PoolState)

-- What a handle that no instance has yet reads as.
abbrev blank_instance : Instance
blank_instance = record {
  id = "";
  spec_key = "";
  state = starting;
  busy_count = 0;
  last_active = 0;
  last_heartbeat_at = 0;
  sticky_key = "";
  last_start_cause = none;
}

unfoldable pub new_pool : String → ServerSpec → PoolState
new_pool key spec = record {
  spec = spec;
  spec_key = key;
  min_ready = 0;
  starting = 0;
  start_count = 0;
  stop_count = 0;
  start_in_flight = false;
  start_cancel = false;
  generation = 0;
  signal_seq = 0;
  instances = [];
  draining = [];
  sticky = [];
  rr_index = 0;
  waiters = 0;
  last_start_attempt_at = 0;
  last_start_error = none;
  last_acquire_error = none;
  last_acquire_reason = unclassified;
  last_start_cause = none;
  heap = λ h. blank_instance;
}

unfoldable pub spec_for_key : String → Scheduler → Option ServerSpec
spec_for_key key s = lookup key s.specs

unfoldable pub pool_by_key : String → Scheduler → Option PoolState
pool_by_key key s = lookup key s.pools

abbrev or_new : String → ServerSpec → Option PoolState → PoolState
or_new key spec none = new_pool key spec
or_new key spec (some p) = p

-- `getPool`: the pool of the key, made where there is none.
unfoldable pub get_pool : String → ServerSpec → Scheduler → PoolState × Scheduler
unfolding new_pool pool_by_key
get_pool key spec s =
    let p = or_new key spec (pool_by_key key s) in (p, record s { pools = insert key p s.pools })

unfoldable pub remove_pool : String → Scheduler → Scheduler
remove_pool key s = record s { pools = delete key s.pools }

unfoldable pub is_vacant : PoolState → Bool
is_vacant p =
    length p.instances == 0 && length p.draining == 0 && p.starting == 0 && not p.start_in_flight

unfoldable pub try_remove_pool : String → PoolState → Scheduler → Scheduler
unfolding remove_pool is_vacant spec_for_key
try_remove_pool key p s =
    if is_some (spec_for_key key s) then s else if is_vacant p then remove_pool key s else s

-- `StopSpec` by key. Its reply is what has to be stopped at once and what by a drain.
stop_found : String → ServerSpec → Option PoolState → Scheduler → Stopped × Scheduler
unfolding stop_spec
stop_found key spec p s =
    let (stopped, q) = stop_spec (or_new key spec p) in
    (stopped, record s { pools = insert key q s.pools })

stop_known :
    String
    → Option ServerSpec
    → Option PoolState
    → Scheduler
    → Result SchedulerError (Stopped × Scheduler)
unfolding stop_found
stop_known key (some spec) p s = ok (stop_found key spec p s)
stop_known key none (some p) s = ok (stop_found key p.spec (some p) s)
stop_known key none none s = err unknown_spec_key

unfoldable pub stop_spec_key : String → Scheduler → Result SchedulerError (Stopped × Scheduler)
unfolding stop_known pool_by_key spec_for_key
stop_spec_key key s = stop_known key (spec_for_key key s) (pool_by_key key s) s

-- The section of `ApplyCatalogDiff` on one pool: it takes the new specification of its key.
unfoldable pub with_spec : ServerSpec → PoolState → PoolState
with_spec spec p = record p { spec = spec }

-- The first loop of `ApplyCatalogDiff`.
respec : List (String × ServerSpec) → List (String × PoolState) → List (String × PoolState)
unfolding with_spec
respec specs [] = []
respec specs ((key, p) ∷ m) =
    (key, elim (lookup key specs) [ none ↦ p | some spec ↦ with_spec spec p ]) ∷ respec specs m

abbrev Log : Type 0
Log = List (String × Stopped)

abbrev after_stop :
    Bool
    → String
    → Result SchedulerError (Stopped × Scheduler)
    → Log × Scheduler
    → Result SchedulerError (Log × Scheduler)
after_stop removes key (err e) (log, s) = err e
after_stop removes key (ok (stopped, s')) (log, s) = ok (
  log ++ (key, stopped) ∷ [],
  (if removes
      then (elim (pool_by_key key s') [ none ↦ s' | some p ↦ try_remove_pool key p s' ])
      else s'),
)

-- One round of the loops over the removed keys and over those that have to restart.
retire : Bool → String → Log × Scheduler → Result SchedulerError (Log × Scheduler)
unfolding stop_spec_key try_remove_pool pool_by_key
retire removes key (log, s) =
    if is_some (pool_by_key key s)
    then after_stop removes key (stop_spec_key key s) (log, s)
    else ok (log, s)

retire_all : Bool → List String → Log × Scheduler → Result SchedulerError (Log × Scheduler)
unfolding retire
retire_all removes [] r = ok r
retire_all removes (key ∷ keys) r = elim (retire removes key r) [
  | err e ↦ err e
  | ok r' ↦ retire_all removes keys r'
]

ensure_pools : List String → Scheduler → Scheduler
unfolding get_pool spec_for_key
ensure_pools [] s = s
ensure_pools (key ∷ keys) s =
    ensure_pools keys (elim (spec_for_key key s) [ none ↦ s | some spec ↦ (get_pool key spec s).1 ])

abbrev finish_diff :
    List String → Result SchedulerError (Log × Scheduler) → Result SchedulerError (Log × Scheduler)
finish_diff updated (err e) = err e
finish_diff updated (ok (log, s)) = ok (log, ensure_pools updated s)

abbrev then_restart :
    List String → Result SchedulerError (Log × Scheduler) → Result SchedulerError (Log × Scheduler)
then_restart restart (err e) = err e
then_restart restart (ok r) = retire_all false restart r

-- `ApplyCatalogDiff`: the keys removed, to restart and updated, and the new registry.
unfoldable pub apply_catalog_diff :
    List String
    → List String
    → List String
    → List (String × ServerSpec)
    → Scheduler
    → Result SchedulerError (Log × Scheduler)
unfolding respec retire_all ensure_pools
apply_catalog_diff removed restart updated registry s =
    let s' : Scheduler = record { specs = registry; pools = respec registry s.pools } in
    finish_diff updated (then_restart restart (retire_all true removed ([], s')))
