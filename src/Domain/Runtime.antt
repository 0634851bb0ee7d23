-- ===== src/Domain/Runtime.antt =====
-- internal/domain/types.go and subagent.go: the configuration of the runtime. A slice or a pointer is an
-- option; a number is not negative, since the loader rejects one that is, but for the
-- maximum of tools for a request, which is an integer.
use mcpv.Base.{ℤ, ℕ, String, Bool, Option, List}
use native.Mathlib.Decide.{ℕ_discrete}
use mcpv.Domain.Spec.{ActivationMode, ProxyConfig}
use mcpv.Domain.Equality.{String-discrete, ℤ-discrete}

pub data ReloadMode : Type 0 where
  strict lenient : ReloadMode
  other : String → ReloadMode

pub data ToolNamespaceStrategy : Type 0 where
  prefix flat : ToolNamespaceStrategy
  other : String → ToolNamespaceStrategy

pub data BootstrapMode : Type 0 where
  metadata disabled : BootstrapMode
  other : String → BootstrapMode

pub data RpcAuthMode : Type 0 where
  token mtls : RpcAuthMode
  other : String → RpcAuthMode

pub record ObservabilityConfig : Type 0 where
  pub listen_address : String
  pub metrics_enabled : Option Bool
  pub healthz_enabled : Option Bool

pub record RpcTlsConfig : Type 0 where
  pub enabled : Bool
  pub cert_file : String
  pub key_file : String
  pub ca_file : String
  pub client_auth : Bool

pub record RpcAuthConfig : Type 0 where
  pub enabled : Bool
  pub mode : RpcAuthMode
  pub token : String
  pub token_env : String

pub record RpcConfig : Type 0 where
  pub listen_address : String
  pub max_recv_msg_size : ℕ
  pub max_send_msg_size : ℕ
  pub keepalive_time_seconds : ℕ
  pub keepalive_timeout_seconds : ℕ
  pub socket_mode : String
  pub tls : RpcTlsConfig
  pub auth : RpcAuthConfig

pub record SubAgentConfig : Type 0 where
  pub enabled : Bool
  pub enabled_tags : Option (List String)
  pub model : String
  pub provider : String
  pub api_key : String
  pub api_key_env_var : String
  pub base_url : String
  pub max_tools_per_request : ℤ
  pub filter_prompt : String

pub record RuntimeConfig : Type 0 where
  pub route_timeout_seconds : ℕ
  pub ping_interval_seconds : ℕ
  pub tool_refresh_seconds : ℕ
  pub tool_refresh_concurrency : ℕ
  pub client_check_seconds : ℕ
  pub client_inactive_seconds : ℕ
  pub server_init_retry_base_seconds : ℕ
  pub server_init_retry_max_seconds : ℕ
  pub server_init_max_retries : ℕ
  pub reload_mode : ReloadMode
  pub expose_tools : Bool
  pub tool_namespace_strategy : ToolNamespaceStrategy
  pub proxy : ProxyConfig
  pub observability : ObservabilityConfig
  pub rpc : RpcConfig
  pub sub_agent : SubAgentConfig
  pub bootstrap_mode : BootstrapMode
  pub bootstrap_concurrency : ℕ
  pub bootstrap_timeout_seconds : ℕ
  pub default_activation_mode : ActivationMode

pub Bool-discrete : Discrete Bool
Bool-discrete = hlevel

pub ReloadMode-discrete : Discrete ReloadMode
ReloadMode-discrete = hlevel (String-discrete)

pub ToolNamespaceStrategy-discrete : Discrete ToolNamespaceStrategy
ToolNamespaceStrategy-discrete = hlevel (String-discrete)

pub BootstrapMode-discrete : Discrete BootstrapMode
BootstrapMode-discrete = hlevel (String-discrete)

RpcAuthMode-discrete : Discrete RpcAuthMode
RpcAuthMode-discrete = hlevel (String-discrete)

pub ObservabilityConfig-discrete : Discrete ObservabilityConfig
ObservabilityConfig-discrete = hlevel (String-discrete)

pub RpcConfig-discrete : Discrete RpcConfig
RpcConfig-discrete = hlevel (String-discrete, ℕ_discrete, RpcAuthMode-discrete)

pub SubAgentConfig-discrete : Discrete SubAgentConfig
SubAgentConfig-discrete = hlevel (String-discrete, ℤ-discrete)
