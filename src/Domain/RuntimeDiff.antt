-- ===== src/Domain/RuntimeDiff.antt =====
-- internal/domain/runtime_diff.go: which fields of the runtime's configuration changed, and which of them
-- need a restart.
pub mod Decides
use mcpv.Base.{
  ℕ, String, Bool, true, false, not, ◌&&◌, List, [], ◌∷◌, ◌≡◌, refl, ap, ◌∙◌, ◌↔◌, subst,
  if◌then◌else◌, ◌==◌, ==_iff, sort_strings, place, arith,
}
use mcpv.Domain.Equality.{ProxyConfig-discrete, ActivationMode-discrete}
use mcpv.Domain.Runtime.{
  RuntimeConfig, Bool-discrete, ReloadMode-discrete, ToolNamespaceStrategy-discrete,
  BootstrapMode-discrete, ObservabilityConfig-discrete, RpcConfig-discrete, SubAgentConfig-discrete,
}
use mcpv.Domain.CatalogDiff.{RuntimeDiff, is_nil, runtime_diff_is_empty, decided}

unfoldable pub requires_restart : RuntimeDiff → Bool
requires_restart d = not (is_nil d.restart_required_fields)

-- The names of the fields whose test says that they are not the same.
unfoldable pub changed_names : List (Bool × String) → List String
changed_names [] = []
changed_names ((same, name) ∷ tests) =
    let later = changed_names tests in if same then later else name ∷ later

unfoldable pub dynamic_tests : RuntimeConfig → RuntimeConfig → List (Bool × String)
dynamic_tests a b =
    (a.route_timeout_seconds == b.route_timeout_seconds, "routeTimeoutSeconds")
    ∷ (a.ping_interval_seconds == b.ping_interval_seconds, "pingIntervalSeconds")
    ∷ (a.tool_refresh_seconds == b.tool_refresh_seconds, "toolRefreshSeconds")
    ∷ (a.tool_refresh_concurrency == b.tool_refresh_concurrency, "toolRefreshConcurrency")
    ∷ (a.client_check_seconds == b.client_check_seconds, "clientCheckSeconds")
    ∷ (a.client_inactive_seconds == b.client_inactive_seconds, "clientInactiveSeconds")
    ∷ (
      a.server_init_retry_base_seconds == b.server_init_retry_base_seconds,
      "serverInitRetryBaseSeconds",
    )
    ∷ (
      a.server_init_retry_max_seconds == b.server_init_retry_max_seconds,
      "serverInitRetryMaxSeconds",
    )
    ∷ (a.server_init_max_retries == b.server_init_max_retries, "serverInitMaxRetries")
    ∷ (decided (ReloadMode-discrete a.reload_mode b.reload_mode), "reloadMode")
    ∷ (decided (Bool-discrete a.expose_tools b.expose_tools), "exposeTools")
    ∷ (
      decided (ToolNamespaceStrategy-discrete a.tool_namespace_strategy b.tool_namespace_strategy),
      "toolNamespaceStrategy",
    )
    ∷ (decided (ProxyConfig-discrete a.proxy b.proxy), "proxy")
    ∷ (decided (ObservabilityConfig-discrete a.observability b.observability), "observability")
    ∷ []

unfoldable pub restart_tests : RuntimeConfig → RuntimeConfig → List (Bool × String)
restart_tests a b =
    (decided (RpcConfig-discrete a.rpc b.rpc), "rpc")
    ∷ (decided (SubAgentConfig-discrete a.sub_agent b.sub_agent), "subAgent")
    ∷ (decided (BootstrapMode-discrete a.bootstrap_mode b.bootstrap_mode), "bootstrapMode")
    ∷ (a.bootstrap_concurrency == b.bootstrap_concurrency, "bootstrapConcurrency")
    ∷ (a.bootstrap_timeout_seconds == b.bootstrap_timeout_seconds, "bootstrapTimeoutSeconds")
    ∷ (
      decided (ActivationMode-discrete a.default_activation_mode b.default_activation_mode),
      "defaultActivationMode",
    )
    ∷ []

unfoldable pub diff_runtime_config : RuntimeConfig → RuntimeConfig → RuntimeDiff
unfolding dynamic_tests restart_tests changed_names sort_strings
diff_runtime_config prev next = record {
  dynamic_fields = sort_strings (changed_names (dynamic_tests prev next));
  restart_required_fields = sort_strings (changed_names (restart_tests prev next));
}
