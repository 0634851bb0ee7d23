-- ===== src/Gateway.antt =====
-- internal/infra/gateway/pool.go and selector.go: one runtime for each selector. A runtime is a number;
-- the last four fields record, for the theorems, which runtimes were started and not stopped, and which of
-- them belong to a `Get` that has not ended, wait for their `StopRuntime`, or had it fail. A `Get` has two
-- critical sections, with the start of the runtime between them. `Get`, `Close` and the sweeper stop
-- runtimes after they have let the lock go, one by one: each is a step of its own. Selectors come normalised.
pub mod Accounts
pub mod Capacity
pub mod Steps
use Prim.Native.String.{◌++◌ as ◌+++◌}
use mcpv.Base.{
  ℕ, ◌-◌, ◌≡◌, String, Bool, true, false, ◌&&◌, ◌||◌, not, Option, none, some, List, [], ◌∷◌, ◌++◌,
  if◌then◌else◌, str_eq, ltb, leb, ◌==◌, length, lookup, insert, is_some, keep_if, map,
}

pub record Selector : Type 0 where
  pub server : String
  pub tags : List String

abbrev pub join : String → List String → String
join separator [] = ""
join separator (x ∷ []) = x
join separator (x ∷ y ∷ xs) = x +++ separator +++ join separator (y ∷ xs)

abbrev pub has_tags : Selector → Bool
has_tags sel = ltb 0 (length sel.tags)

unfoldable pub selector_key : Selector → String
selector_key sel =
    if not (str_eq sel.server "")
    then "server:" +++ sel.server
    else if has_tags sel
    then "tags:" +++ join "," sel.tags
    else ""

-- `Get` refuses a selector with neither a server nor tags, or with both.
unfoldable pub is_valid : Selector → Bool
is_valid sel =
    not (str_eq sel.server "" && not (has_tags sel))
    && not (not (str_eq sel.server "") && has_tags sel)

pub data GatewayError : Type 0 where
  invalid_selector pool_closed server_unavailable capacity_reached : GatewayError

pub record PooledRuntime : Type 0 where
  pub runtime : ℕ
  pub server : Option ℕ
  pub last_used : ℕ

-- A limit or a timeout of 0 stands for one that is not positive.
pub record GatewayPool : Type 0 where
  pub idle_timeout : ℕ
  pub max_instances : ℕ
  pub runtimes : List (String × PooledRuntime)
  pub closed : Bool
  pub running : List ℕ
  pub starting : List ℕ
  pub stopping : List ℕ
  pub unstopped : List ℕ

pub data Reply : Type 0 where
  serves : ℕ → Reply
  refuses : GatewayError → Reply
  starts_runtime : String → Reply

abbrev pub server_reply : Option ℕ → Reply
server_reply none = refuses server_unavailable
server_reply (some server) = serves server

unfoldable pub touch : String → ℕ → PooledRuntime → GatewayPool → GatewayPool
touch key now pooled g = record g {
  runtimes = insert key (record pooled { last_used = now }) g.runtimes;
}

-- The first section of `Get`, up to the start of a runtime.
abbrev pub get_open : ℕ → String → Option PooledRuntime → GatewayPool → Reply × GatewayPool
get_open now key (some pooled) g = (server_reply pooled.server, touch key now pooled g)
get_open now key none g =
    if ltb 0 g.max_instances && leb g.max_instances (length g.runtimes)
    then (refuses capacity_reached, g)
    else (starts_runtime key, g)

unfoldable pub get_begin : ℕ → Selector → GatewayPool → Reply × GatewayPool
unfolding is_valid selector_key touch
get_begin now sel g =
    let key = selector_key sel in
    if not (is_valid sel) || str_eq key ""
    then (refuses invalid_selector, g)
    else if g.closed
    then (refuses pool_closed, g)
    else get_open now key (lookup key g.runtimes) g

-- One occurrence less.
unfoldable pub take_out : ℕ → List ℕ → List ℕ
take_out r [] = []
take_out r (x ∷ xs) = let rest = take_out r xs in if x == r then xs else x ∷ rest

-- `StartRuntime` has returned without error.
unfoldable pub start_runtime : ℕ → GatewayPool → GatewayPool
start_runtime r g = record g { running = r ∷ g.running; starting = r ∷ g.starting }

-- A `Get` is about to stop the runtime that it has started.
unfoldable pub stop_started : ℕ → GatewayPool → GatewayPool
unfolding take_out
stop_started r g = record g { starting = take_out r g.starting; stopping = r ∷ g.stopping }

-- `StopRuntime` returns, without error or with one.
unfoldable pub stop_runtime : ℕ → Bool → GatewayPool → GatewayPool
unfolding take_out
stop_runtime r true g = record g {
  stopping = take_out r g.stopping;
  running = take_out r g.running;
}
stop_runtime r false g = record g { stopping = take_out r g.stopping; unstopped = r ∷ g.unstopped }

unfoldable pub add_runtime : ℕ → String → ℕ → ℕ → GatewayPool → GatewayPool
unfolding take_out
add_runtime now key r server g = record g {
  runtimes = insert key (record { runtime = r; server = some server; last_used = now }) g.runtimes;
  starting = take_out r g.starting;
}

-- The second section, once the runtime `r` was started; `server` is what `Server` gives.
abbrev pub get_commit_open :
    ℕ → String → ℕ → ℕ → Option PooledRuntime → GatewayPool → Reply × GatewayPool
get_commit_open now key r server (some existing) g =
    (server_reply existing.server, stop_started r (touch key now existing g))
get_commit_open now key r server none g = (serves server, add_runtime now key r server g)

unfoldable pub get_commit : ℕ → String → ℕ → Option ℕ → GatewayPool → Reply × GatewayPool
unfolding stop_started add_runtime touch
get_commit now key r none g = (refuses server_unavailable, stop_started r g)
get_commit now key r (some server) g =
    if g.closed
    then (refuses pool_closed, stop_started r g)
    else get_commit_open now key r server (lookup key g.runtimes) g

unfoldable pub runtimes_of : List (String × PooledRuntime) → List ℕ
runtimes_of [] = []
runtimes_of ((key, pooled) ∷ rest) = pooled.runtime ∷ runtimes_of rest

-- `Close` under its lock.
unfoldable pub close : GatewayPool → GatewayPool
unfolding runtimes_of
close g =
    if g.closed
    then g
    else record g { closed = true; runtimes = []; stopping = runtimes_of g.runtimes ++ g.stopping }

abbrev pub is_idle : ℕ → ℕ → PooledRuntime → Bool
is_idle now timeout pooled = ltb timeout (now - pooled.last_used)

-- `evictIdle` under its lock.
unfoldable pub evict_idle : ℕ → GatewayPool → GatewayPool
unfolding runtimes_of
evict_idle now g =
    if g.idle_timeout == 0
    then g
    else let idle : String × PooledRuntime → Bool = λ e. is_idle now g.idle_timeout e.1 in
      record g {
        runtimes = keep_if (λ e. not (idle e)) g.runtimes;
        stopping = runtimes_of (keep_if idle g.runtimes) ++ g.stopping;
      }
