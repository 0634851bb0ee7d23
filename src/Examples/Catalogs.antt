-- ===== src/Examples/Catalogs.antt =====
-- The laws of internal/domain/catalog_diff.go at a server whose tags and limits change, and those of
-- runtime_diff.go at a changed mode of reloading.
use mcpv.Base.{pos, true, ◌↔◌, has, ◌≡◌, ◌&&◌, false, not, none, some, [], ◌∷◌, is_some, lookup}
use mcpv.Domain.Spec.{ServerSpec, stateless, stdio, on_demand, system}
use mcpv.Domain.CatalogDiff.{
  CatalogState, tools_only, runtime_behavior, restart_required, classify_spec_diff,
  runtime_diff_is_empty,
}
use mcpv.Domain.Runtime.{RuntimeConfig, strict, lenient, prefix, metadata, token}
use mcpv.Domain.RuntimeDiff.{diff_runtime_config, requires_restart}
use mcpv.Domain.RuntimeDiff.Decides.{with_restart_fields_of, diff_runtime_config-decides}
use mcpv.Domain.CatalogDiff.Classes.{Explains, classify_spec_diff-Explains}
use mcpv.Domain.CatalogDiff.States.{diff_catalog_states}
use mcpv.Domain.CatalogDiff.Partition.{
  was_removed, was_updated, was_of, diff_catalog_states-Reports,
}

abbrev plain : ServerSpec
plain = record {
  name = "notes";
  transport = stdio;
  cmd = some ("notes" ∷ []);
  env = none;
  cwd = "/srv";
  tags = none;
  idle_seconds = 30;
  max_concurrent = 4;
  strategy = stateless;
  session_ttl_seconds = pos 0;
  disabled = false;
  min_ready = 0;
  activation_mode = on_demand;
  drain_timeout_seconds = pos 10;
  protocol_version = "2025-06-18";
  expose_tools = none;
  http = none;
}

abbrev tagged : ServerSpec
tagged = record plain { tags = some ("text" ∷ []) }

abbrev runtime : RuntimeConfig
runtime = record {
  route_timeout_seconds = 10;
  ping_interval_seconds = 30;
  tool_refresh_seconds = 60;
  tool_refresh_concurrency = 4;
  client_check_seconds = 5;
  client_inactive_seconds = 300;
  server_init_retry_base_seconds = 1;
  server_init_retry_max_seconds = 30;
  server_init_max_retries = 5;
  reload_mode = lenient;
  expose_tools = true;
  tool_namespace_strategy = prefix;
  proxy = record { mode = system; url = ""; no_proxy = "" };
  observability = record {
    listen_address = "0.0.0.0:9090";
    metrics_enabled = none;
    healthz_enabled = none;
  };
  rpc = record {
    listen_address = "unix:///tmp/mcpv.sock";
    max_recv_msg_size = 16777216;
    max_send_msg_size = 16777216;
    keepalive_time_seconds = 30;
    keepalive_timeout_seconds = 10;
    socket_mode = "0660";
    tls = record {
      enabled = false;
      cert_file = "";
      key_file = "";
      ca_file = "";
      client_auth = false;
    };
    auth = record { enabled = false; mode = token; token = ""; token_env = "" };
  };
  sub_agent = record {
    enabled = false;
    enabled_tags = none;
    model = "";
    provider = "";
    api_key = "";
    api_key_env_var = "";
    base_url = "";
    max_tools_per_request = pos 0;
    filter_prompt = "";
  };
  bootstrap_mode = metadata;
  bootstrap_concurrency = 3;
  bootstrap_timeout_seconds = 30;
  default_activation_mode = on_demand;
}

abbrev strict_runtime : RuntimeConfig
strict_runtime = record runtime { reload_mode = strict; bootstrap_concurrency = 8 }

abbrev state_with : ServerSpec → CatalogState
state_with s = record {
  specs = ("notes", s) ∷ [];
  spec_registry = ("key", s) ∷ [];
  server_spec_keys = ("notes", "key") ∷ [];
  plugin_index = [];
  runtime = runtime;
}

classify_spec_diff-Explains_example : Explains (classify_spec_diff plain tagged) plain tagged
classify_spec_diff-Explains_example = classify_spec_diff-Explains plain tagged

diff_catalog_states-Reports_example :
    let d = diff_catalog_states (state_with plain) (state_with tagged) in
    let a = lookup "key" (state_with plain).spec_registry in
    let b = lookup "key" (state_with tagged).spec_registry in
    (has "key" d.added_spec_keys ≡ (is_some b && not (is_some a)))
    × (has "key" d.removed_spec_keys ≡ was_removed a b)
    × (has "key" d.updated_spec_keys ≡ was_updated a b)
    × (has "key" d.tools_only_spec_keys ≡ was_of tools_only a b)
    × (has "key" d.runtime_behavior_spec_keys ≡ was_of runtime_behavior a b)
    × (has "key" d.restart_required_spec_keys ≡ was_of restart_required a b)
diff_catalog_states-Reports_example =
    diff_catalog_states-Reports "key" (state_with plain) (state_with tagged)

diff_runtime_config-decides_example :
    ((runtime_diff_is_empty (diff_runtime_config runtime strict_runtime) ≡ true)
      ↔ (runtime ≡ strict_runtime))
    × ((requires_restart (diff_runtime_config runtime strict_runtime) ≡ false)
        ↔ (with_restart_fields_of runtime strict_runtime ≡ strict_runtime))
diff_runtime_config-decides_example = diff_runtime_config-decides runtime strict_runtime
