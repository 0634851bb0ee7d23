-- ===== src/Examples/Requests.antt =====
-- The laws of internal/infra/router and internal/domain/error.go at a pool with one ready instance.
use mcpv.Base.{pos, ◌≡◌, refl, true, false, none, some, [], ◌∷◌, ok, err}
use mcpv.Domain.Errors.{plain}
use mcpv.Scheduler.State.{PoolState}
use mcpv.Scheduler.Catalog.{new_pool}
use mcpv.Domain.Spec.{ServerSpec, stateless, stdio, on_demand}
use mcpv.Domain.Instance.{Instance, ready}
use mcpv.Scheduler.State.{modify}
use mcpv.Router.{Server, Decoder, route_with_options}
use mcpv.Router.Ready.{ready_source, pool_releases, load}
use mcpv.Router.Loads.{route_with_options-load}

abbrev echo : ServerSpec
echo = record {
  name = "echo";
  transport = stdio;
  cmd = none;
  env = none;
  cwd = "";
  tags = none;
  idle_seconds = 0;
  max_concurrent = 2;
  strategy = stateless;
  session_ttl_seconds = pos 0;
  disabled = false;
  min_ready = 0;
  activation_mode = on_demand;
  drain_timeout_seconds = pos 0;
  protocol_version = "";
  expose_tools = none;
  http = none;
}

abbrev idle : Instance
idle = record {
  id = "i";
  spec_key = "k";
  state = ready;
  busy_count = 0;
  last_active = 0;
  last_heartbeat_at = 0;
  sticky_key = "";
  last_start_cause = none;
}

abbrev pool : PoolState
pool = modify 3 (λ i. idle) (record (new_pool "k" echo) { instances = 3 ∷ [] })

-- The instance answers pings; its connection is there.
abbrev pings : Server PoolState
pings = record {
  id_of = λ s h. (s.heap h).id;
  has_conn = λ s h. true;
  capabilities_of = λ s h. record {
    tools = false;
    resources = false;
    prompts = false;
    logging = false;
    completions = false;
  };
  serve = λ payload h s. (ok "{}", s);
}

abbrev ping_messages : Decoder
ping_messages payload = ok (some ("ping", true))

route_with_options-load_example :
    load
      (route_with_options pings
        (pool_releases 9)
        ping_messages
        (ready_source 9 none)
        (ready_source 9 none)
        false
        "k"
        ""
        "ping"
        pool).1
      3
    ≡ load pool 3
route_with_options-load_example =
    route_with_options-load pings (pool_releases 9) ping_messages (ready_source 9 none)
      (ready_source 9 none) false "k" "" "ping" pool 3 (λ payload h s k. refl)

abbrev no_messages : Decoder
no_messages payload = err (plain "not a message")
