-- ===== src/Scheduler/Pools.antt =====
-- internal/infra/scheduler/catalog.go: which pool a key leads to.
use mcpv.Base.{
  ◌≡◌, refl, inl, inr, String, not, ◌&&◌, none, some, Bool-cases, if◌then◌else◌, str_eq, eq_iff,
  is_some, lookup-insert, lookup-delete, arith,
}
use mcpv.Domain.Spec.{ServerSpec}
use mcpv.Scheduler.State.{PoolState}
use mcpv.Scheduler.Catalog.{
  Scheduler, get_pool, pool_by_key, spec_for_key, try_remove_pool, remove_pool, is_vacant,
}

-- `tryRemovePool` takes away the pool of its key and no other, and just if no specification has the
-- key and the pool it was given has no instance, no drain and no start on the way.
pub try_remove_pool_lem :
    (key other : String) (p : PoolState) (s : Scheduler)
    → pool_by_key other (try_remove_pool key p s) ≡ (
        if str_eq key other && (not (is_some (spec_for_key key s)) && is_vacant p)
        then none
        else pool_by_key other s)
unfolding pool_by_key try_remove_pool remove_pool
try_remove_pool_lem key other p s = elim (Bool-cases (is_some (spec_for_key key s))) [
  | inl e ↦ rw e (ground arith)
  | inr e ↦ elim (Bool-cases (is_vacant p)) [
    | inl v ↦ rw (e, v) (ground (arith, lookup-delete key other s.pools))
    | inr v ↦ rw (e, v) (ground arith)
  ]
]

found_pool :
    (key : String) (spec : ServerSpec) (p : PoolState) (s : Scheduler)
    → pool_by_key key s ≡ some p
    → (get_pool key spec s).0 ≡ p
unfolding get_pool
found_pool key spec p s e = rw e refl

-- `getPool` gives a key the same pool each time, whatever specification it is called with next, and
-- leaves the pools of other keys as they are.
pub get_pool_twice :
    (key other : String) (spec spec' : ServerSpec) (s : Scheduler)
    → ((get_pool key spec' (get_pool key spec s).1).0 ≡ (get_pool key spec s).0)
      × (pool_by_key other (get_pool key spec s).1
          ≡ (if str_eq key other then some (get_pool key spec s).0 else pool_by_key other s))
unfolding get_pool pool_by_key
get_pool_twice key other spec spec' s =
    let (p, s') = get_pool key spec s in
    (
      found_pool key spec' p s' (ground (arith, lookup-insert key key p s.pools, eq_iff key key)),
      lookup-insert key other p s.pools,
    )
