-- ===== src/Examples/Gateways.antt =====
-- The laws of internal/infra/gateway/pool.go at two selectors.
use mcpv.Base.{false, ℕ, ◌+◌, ◌<◌, ◌≡◌, refl, true, some, [], String, length, lookup, insert, arith}
use mcpv.Gateway.{
  Selector, GatewayPool, starts_runtime, get_begin, get_commit, start_runtime, stop_runtime, close,
  runtimes_of, is_valid, selector_key,
}
use mcpv.Gateway.Accounts.{times}
use mcpv.Gateway.Steps.{
  Steps, done, more, begins, starts, commits, closes, stops_one, new_gateway_pool, Steps-running,
}
use mcpv.Gateway.Capacity.{two_starts_exceed}

abbrev by_name : String → Selector
by_name name = record { server = name; tags = [] }

abbrev fresh : GatewayPool
fresh = new_gateway_pool 60 1

abbrev started_one : GatewayPool
started_one = start_runtime 4 (get_begin 10 (by_name "a") fresh).1

abbrev served_one : GatewayPool
served_one = (get_commit 11 "server:a" 4 (some 8) started_one).1

one_mine : 0 < times 4 started_one.starting
unfolding start_runtime get_begin times new_gateway_pool
one_mine = omega arith

abbrev closed_one : GatewayPool
closed_one = close served_one

one_due : 0 < times 4 closed_one.stopping
unfolding start_runtime get_begin get_commit close times new_gateway_pool runtimes_of lookup insert
one_due = omega arith

-- `Close` fails to stop the runtime.
abbrev left_one : GatewayPool
left_one = stop_runtime 4 false closed_one

one-Steps : Steps fresh left_one
one-Steps =
    more
      (more
        (more (more (more done (begins 10 (by_name "a"))) (starts 4))
          (commits 11 "server:a" 4 (some 8) one_mine))
        closes)
      (stops_one 4 false one_due)

Steps-running_example :
    ((r : ℕ)
      → times r left_one.running
        ≡ times r (runtimes_of left_one.runtimes)
          + times r left_one.starting
          + times r left_one.stopping
          + times r left_one.unstopped)
    × (left_one.closed ≡ true
        → (r : ℕ)
        → times r left_one.running
          ≡ times r left_one.starting + times r left_one.stopping + times r left_one.unstopped)
Steps-running_example = Steps-running 60 1 left_one one-Steps

two_starts_exceed_example :
    (get_begin 10 (by_name "a") fresh ≡ (starts_runtime (selector_key (by_name "a")), fresh))
    × (get_begin 10 (by_name "b") fresh ≡ (starts_runtime (selector_key (by_name "b")), fresh))
    × (fresh.max_instances
        < length
            (get_commit 10
              (selector_key (by_name "b"))
              5
              (some 9)
              (get_commit 10
                (selector_key (by_name "a"))
                4
                (some 8)
                (start_runtime 5 (start_runtime 4 fresh))).1).1.runtimes)
unfolding new_gateway_pool is_valid selector_key lookup
two_starts_exceed_example =
    two_starts_exceed 10 (by_name "a") (by_name "b") 4 5 8 9 fresh
      (refl, refl, refl, refl, omega arith) (refl, refl, refl, refl, omega arith) refl refl
