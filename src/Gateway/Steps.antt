-- ===== src/Gateway/Steps.antt =====
-- internal/infra/gateway/pool.go as a transition system: each step is one section that some goroutine runs.
use mcpv.Base.{Bool, ℕ, ◌<◌, ◌+◌, ◌≡◌, refl, ap, ◌∙◌, String, true, false, Option, [], arith}
use mcpv.Gateway.{
  Selector, GatewayPool, get_begin, get_commit, start_runtime, stop_runtime, close, evict_idle,
  runtimes_of,
}
use mcpv.Gateway.Accounts.{
  Accounted, times, get_begin-Accounted, get_commit-Accounted, start_runtime-Accounted,
  stop_runtime-Accounted, close-Accounted, evict_idle-Accounted,
}

-- The second section of `Get` comes with a runtime that a `Get` has started.
pub data Step (g : GatewayPool) : GatewayPool → Type 0 where
  begins : (now : ℕ) (sel : Selector) → Step g (get_begin now sel g).1
  starts : (r : ℕ) → Step g (start_runtime r g)
  commits :
      (now : ℕ) (key : String) (r : ℕ) (server : Option ℕ)
      → 0 < times r g.starting
      → Step g (get_commit now key r server g).1
  stops_one : (r : ℕ) (stopped : Bool) → 0 < times r g.stopping → Step g (stop_runtime r stopped g)
  closes : Step g (close g)
  evicts : (now : ℕ) → Step g (evict_idle now g)

pub data Steps (g : GatewayPool) : GatewayPool → Type 0 where
  done : Steps g g
  more : {h k : GatewayPool} → Steps g h → Step h k → Steps g k

-- `newGatewayPool`, with nothing in it.
unfoldable pub new_gateway_pool : ℕ → ℕ → GatewayPool
new_gateway_pool timeout max = record {
  idle_timeout = timeout;
  max_instances = max;
  runtimes = [];
  closed = false;
  running = [];
  starting = [];
  stopping = [];
  unstopped = [];
}

step-Accounted : (g h : GatewayPool) → Step g h → Accounted g → Accounted h
step-Accounted g h (begins now sel) v = get_begin-Accounted now sel g v
step-Accounted g h (starts r) v = start_runtime-Accounted r g v
step-Accounted g h (commits now key r server mine) v =
    get_commit-Accounted now key r server g mine v
step-Accounted g h (stops_one r stopped due) v = stop_runtime-Accounted r stopped g due v
step-Accounted g h closes v = close-Accounted g v
step-Accounted g h (evicts now) v = evict_idle-Accounted now g v

new-Accounted : (timeout max : ℕ) → Accounted (new_gateway_pool timeout max)
unfolding new_gateway_pool times runtimes_of
new-Accounted timeout max = record { count = λ r. omega arith; shut = λ _. refl }

Steps-Accounted : (g h : GatewayPool) → Steps g h → Accounted g → Accounted h
Steps-Accounted g h done v = v
Steps-Accounted g h (more {h = k} before step) v =
    step-Accounted k h step (Steps-Accounted g k before v)

-- Whatever calls of `Get`, `Close` and the sweeper do with a new pool, in any order of their sections and of
-- the calls of `StopRuntime` that follow these: each runtime that was started and not stopped is in the
-- pool, belongs to a `Get` that has not ended, is about to be stopped, or is one whose stop has failed, as
-- often as it was started; and once the pool is closed, the first of the four has gone.
pub Steps-running :
    (timeout max : ℕ) (g : GatewayPool)
    → Steps (new_gateway_pool timeout max) g
    → ((r : ℕ)
        → times r g.running
          ≡ times r (runtimes_of g.runtimes)
            + times r g.starting
            + times r g.stopping
            + times r g.unstopped)
      × (g.closed ≡ true
          → (r : ℕ)
          → times r g.running ≡ times r g.starting + times r g.stopping + times r g.unstopped)
unfolding times runtimes_of
Steps-running timeout max g steps =
    let v = Steps-Accounted (new_gateway_pool timeout max) g steps (new-Accounted timeout max) in
    (
      v.count,
      λ c r.
          v.count r
          ∙ ap
              (λ m.
                times r (runtimes_of m)
                + times r g.starting
                + times r g.stopping
                + times r g.unstopped)
              (v.shut c)
          ∙ omega arith,
    )
